-- ===== src/Insert/Run.antt =====
-- bir_insert of src/ir/bir_insert.c. The pointers it is given are there, and the block ends inside
-- the arena.
use booth.Base.{
  ℕ, zero, suc, ◌+◌, ◌-◌, ◌/◌, ◌%◌, ◌^◌, Bool, not, ◌&&◌, ◌||◌, ◌==◌, ltb, leb, if◌then◌else◌, none,
  some, List, [], ◌∷◌, ◌++◌, length, get_elem?, set, map,
}
use booth.Bir.Defs.{
  BirInst, BirBlock, BirFunc, BirModule, bir_val_none, bir_val_index, bir_val_is_const,
  bir_operands_overflow, bir_operands_inline, bir_pfull,
}
use booth.Bir.Consts.{slot}
use booth.Bir.Opcodes.{op_br, op_br_cond, op_switch, op_phi, op_call, op_fnref, op_global_ref}

abbrev pub bir_max_insts : ℕ
bir_max_insts = 2 ^ 23

abbrev pub bir_p_insts : ℕ
bir_p_insts = 0x010

-- A function or a global is named first.
unfoldable pub names_first : ℕ → Bool
names_first op = op == op_global_ref || op == op_fnref || op == op_call

module _ (at n : ℕ) where
  unfoldable pub rv : ℕ → ℕ
  rv v =
      let idx = bir_val_index v in
      if v == bir_val_none || bir_val_is_const v
      then v
      else if leb at idx
      then (idx + n) % 2 ^ 32
      else v

  -- `xs[i] = rv(xs[i], at, n)`.
  unfoldable pub slide : List ℕ → ℕ → List ℕ
  slide xs i = set xs i (rv (slot xs i))

  -- The loops of remap_inst, over every slot and over every second one.
  unfoldable pub slide_each : List ℕ → (start i left : ℕ) → List ℕ
  slide_each xs start i zero = xs
  slide_each xs start i (suc left) = slide_each (slide xs ((start + i) % 2 ^ 32)) start (suc i) left

  unfoldable pub slide_second : List ℕ → (start i left : ℕ) → List ℕ
  slide_second xs start i zero = xs
  slide_second xs start i (suc left) =
      slide_second (slide xs ((start + i) % 2 ^ 32)) start (suc (suc i)) left

  -- What remap_inst does to the slots in the instruction.
  unfoldable pub remap_slots : BirInst → BirInst
  unfolding slide slide_each slide_second names_first
  remap_slots I =
      let xs = I.operands in
      let no = I.num_operands in
      if I.op == op_br
      then I
      else if I.op == op_br_cond
      then record I { operands = slide xs 0 }
      else if no == bir_operands_overflow
      then I
      else if I.op == op_switch
      then record I { operands = slide xs 0 }
      else if I.op == op_phi
      then record I { operands = slide_second xs 0 1 (no / 2) }
      else if names_first I.op
      then record I { operands = slide_each xs 0 1 (no - 1) }
      else record I {
        operands =
            slide_each xs 0 0 (if ltb bir_operands_inline no then bir_operands_inline else no);
      }

  -- And to the pool that holds the operands of an instruction with more of them.
  unfoldable pub remap_pool : BirInst → List ℕ → List ℕ
  unfolding slide slide_each slide_second names_first
  remap_pool I extra =
      let start = slot I.operands 0 in
      let count = slot I.operands 1 in
      if I.op == op_br || I.op == op_br_cond
      then extra
      else if not (I.num_operands == bir_operands_overflow)
      then extra
      else if I.op == op_switch
      then (if leb 1 count then slide extra start else extra)
      else if I.op == op_phi
      then slide_second extra start 1 (count / 2)
      else if names_first I.op
      then slide_each extra start 1 (count - 1)
      else slide_each extra start 0 count

  unfoldable pub remap_pools : List BirInst → List ℕ → List ℕ
  unfolding remap_pool
  remap_pools [] extra = extra
  remap_pools (I ∷ insts) extra = remap_pools insts (remap_pool I extra)

-- `n` entries in front of entry `at`.
unfoldable pub splice {ℓ} : {A : Type ℓ} → ℕ → List A → List A → List A
splice at src [] = src
splice zero src (x ∷ xs) = src ++ x ∷ xs
splice (suc at) src (x ∷ xs) = x ∷ splice at src xs

unfoldable pub no_lines : ℕ → List ℕ
no_lines zero = []
no_lines (suc n) = 0 ∷ no_lines n

-- Block number `b`: the target grows, the ones behind it slide.
unfoldable pub slide_block : (target at n b : ℕ) → BirBlock → BirBlock
slide_block target at n b B =
    if b == target
    then record B { num_insts = (B.num_insts + n) % 2 ^ 32 }
    else if leb at B.first_inst
    then record B { first_inst = (B.first_inst + n) % 2 ^ 32 }
    else B

unfoldable pub slide_blocks : (target at n b : ℕ) → List BirBlock → List BirBlock
unfolding slide_block
slide_blocks target at n b [] = []
slide_blocks target at n b (B ∷ blocks) =
    slide_block target at n b B ∷ slide_blocks target at n (suc b) blocks

-- The first function that has the block.
unfoldable pub grow_owner : (block_idx n : ℕ) → List BirFunc → List BirFunc
grow_owner block_idx n [] = []
grow_owner block_idx n (F ∷ funcs) =
    let rest = grow_owner block_idx n funcs in
    if leb F.first_block block_idx && ltb block_idx ((F.first_block + F.num_blocks) % 2 ^ 32)
    then record F { total_insts = (F.total_insts + n) % 2 ^ 32 } ∷ funcs
    else F ∷ rest

module _ {D : Type 0} where
  -- The five steps.
  unfoldable pub insert_at : BirModule D → (block_idx at : ℕ) → List BirInst → BirModule D
  unfolding remap_slots remap_pools splice no_lines slide_blocks grow_owner
  insert_at M block_idx at src =
      let n = length src in
      let insts = splice at src M.insts in
      record M {
        insts = map (remap_slots at n) insts;
        inst_lines = splice at (no_lines n) M.inst_lines;
        extra_operands = remap_pools at n insts M.extra_operands;
        blocks = slide_blocks block_idx at n 0 M.blocks;
        funcs = grow_owner block_idx n M.funcs;
      }

  unfoldable pub bir_insert : BirModule D → (block_idx pos : ℕ) → List BirInst → ℕ × BirModule D
  unfolding insert_at
  bir_insert M block_idx pos src =
      if length src == 0 then (bir_val_none, M) else elim (get_elem? M.blocks block_idx) [
        | none ↦ (bir_val_none, M)
        | some TB ↦
            let at = (TB.first_inst + pos) % 2 ^ 32 in
            if ltb bir_max_insts ((length M.insts + length src) % 2 ^ 32)
            then (bir_val_none, bir_pfull M bir_p_insts)
            else if ltb TB.num_insts pos
            then (bir_val_none, M)
            else (at, insert_at M block_idx at src)
      ]

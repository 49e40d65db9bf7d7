-- ===== src/Dce/Compact.antt =====
-- compact of src/ir/bir_dce.c: the instructions that are left close up, and what they read is
-- numbered anew.
use booth.Base.{
  ℕ, zero, suc, ◌+◌, ◌-◌, ◌%◌, ◌^◌, Bool, not, ◌&&◌, ◌||◌, ◌==◌, ltb, leb, if◌then◌else◌, List,
  length, set, get_elem?, none, some,
}
use booth.Bir.Defs.{
  BirFunc, BirModule, bir_val_none, bir_val_index, bir_val_is_const, bir_operands_overflow,
  bir_operands_inline,
}
use booth.Bir.Consts.{slot}
use booth.Dce.Defs.{is_inline_block_ref, is_extra_block_ref}
use booth.Dce.Pass.{inst_at}
use booth.Dce.Blocks.{block_at}

abbrev pub opt_undef : ℕ
opt_undef = 0xFFFFFFFF

unfoldable pub remap_operand : (ref : ℕ) → (ℕ → ℕ) → (max_inst : ℕ) → ℕ
remap_operand ref inst_renum max_inst =
    let idx = bir_val_index ref in
    if ref == bir_val_none || bir_val_is_const ref
    then ref
    else if ltb idx max_inst && not (inst_renum idx == opt_undef)
    then inst_renum idx
    else ref

-- The loops over the operands that are no blocks, with what is done to each.
unfoldable pub map_extra : (ℕ → ℕ) → (op : ℕ) → List ℕ → (start j left : ℕ) → List ℕ
map_extra f op extra start j zero = extra
map_extra f op extra start j (suc left) =
    let here = (start + j) % 2 ^ 32 in
    let rest =
      map_extra f op
        (if is_extra_block_ref op j then extra else set extra here (f (slot extra here))) start
        (suc j) left in
    if leb (length extra) here then extra else rest

unfoldable pub map_inline : (ℕ → ℕ) → (op : ℕ) → List ℕ → (j left : ℕ) → List ℕ
map_inline f op operands j zero = operands
map_inline f op operands j (suc left) =
    map_inline f op
      (if is_inline_block_ref op j then operands else set operands j (f (slot operands j))) (suc j)
      left

module _ {D : Type 0} where
  unfoldable pub map_inst : (ℕ → ℕ) → BirModule D → ℕ → BirModule D
  map_inst f M i =
      let I = inst_at M i in
      let n =
        if leb I.num_operands bir_operands_inline then I.num_operands else bir_operands_inline in
      if I.num_operands == bir_operands_overflow
      then record M {
        extra_operands =
            map_extra f I.op M.extra_operands (slot I.operands 0) 0 (slot I.operands 1);
      }
      else record M {
        insts = set M.insts i (record I { operands = map_inline f I.op I.operands 0 n });
      }

  unfoldable pub map_insts : (ℕ → ℕ) → BirModule D → (i left : ℕ) → BirModule D
  map_insts f M i zero = M
  map_insts f M i (suc left) = map_insts f (map_inst f M i) (suc i) left

-- The numbers of the instructions of a block that are left, and the next one.
unfoldable pub renum_insts : (dead : ℕ → Bool) → (first j left : ℕ) → (ℕ → ℕ) × ℕ → (ℕ → ℕ) × ℕ
renum_insts dead first j zero s = s
renum_insts dead first j (suc left) (renum, next) =
    let ii = first + j in
    renum_insts dead first (suc j) left
      (if dead ii then (renum, next) else ((λ k. if k == ii then next else renum k), next + 1))

module _ {D : Type 0} (dead : ℕ → Bool) where
  unfoldable pub renum_blocks : BirModule D → (base_block bi left : ℕ) → (ℕ → ℕ) × ℕ → (ℕ → ℕ) × ℕ
  renum_blocks M base_block bi zero s = s
  renum_blocks M base_block bi (suc left) s =
      let B = block_at M (base_block + bi) in
      renum_blocks M base_block (suc bi) left (renum_insts dead B.first_inst 0 B.num_insts s)

  -- The second walk moves them, each line with its instruction.
  unfoldable pub move_insts : (first j left : ℕ) → BirModule D × ℕ → BirModule D × ℕ
  move_insts first j zero s = s
  move_insts first j (suc left) (M, wr) =
      let ii = first + j in
      let moved = record M {
        insts = set M.insts wr (inst_at M ii);
        inst_lines = set M.inst_lines wr (slot M.inst_lines ii);
      } in
      move_insts first (suc j) left
        (if dead ii then (M, wr) else ((if not (wr == ii) then moved else M), wr + 1))

  unfoldable pub move_blocks : (base_block bi left : ℕ) → BirModule D × ℕ → BirModule D × ℕ
  move_blocks base_block bi zero s = s
  move_blocks base_block bi (suc left) (M, wr) =
      let abs_b = base_block + bi in
      let B = block_at M abs_b in
      let (M₁, wr₁) = move_insts B.first_inst 0 B.num_insts (M, wr) in
      let B₁ = record B { first_inst = wr; num_insts = wr₁ - wr } in
      move_blocks base_block (suc bi) left (record M₁ { blocks = set M₁.blocks abs_b B₁ }, wr₁)

  unfoldable pub compact : BirModule D → (func_idx base_block nb base_inst : ℕ) → BirModule D
  compact M func_idx base_block nb base_inst =
      let old_num_insts = length M.insts in
      let (renum, next) = renum_blocks M base_block 0 nb ((λ k. opt_undef), base_inst) in
      let new_total = next - base_inst in
      let M₁ = (move_blocks base_block 0 nb (M, base_inst)).0 in
      let funcs : List BirFunc = elim (get_elem? M₁.funcs func_idx) [
        | none ↦ M₁.funcs
        | some F ↦ set M₁.funcs func_idx (record F { total_insts = new_total })
      ] in
      map_insts (λ ref. remap_operand ref renum old_num_insts) (record M₁ { funcs = funcs })
        base_inst new_total

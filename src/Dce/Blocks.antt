-- ===== src/Dce/Blocks.antt =====
-- The successors of a block, and rmark of src/ir/bir_dce.c: which blocks of a function the entry
-- reaches. A block is its place in the function; the marks are a function of it.
use mathlib.Core.Option
use booth.Base.{
  ℕ, zero, suc, ◌+◌, ◌-◌, ◌*◌, ◌/◌, ◌%◌, ◌^◌, Bool, true, false, not, ◌||◌, ◌==◌, ltb, leb,
  if◌then◌else◌, List, [], ◌∷◌, length, get_elem?,
}
use booth.Bir.Defs.{BirInst, BirBlock, BirModule, bir_operands_overflow}
use booth.Bir.Consts.{slot, bir_oper}
use booth.Bir.Opcodes.{op_br, op_br_cond, op_switch}
use booth.Dce.Pass.{inst_at, mark}

abbrev pub no_block : BirBlock
no_block = record { name = 0; first_inst = 0; num_insts = 0 }

module _ {D : Type 0} (M : BirModule D) where
  abbrev pub block_at : ℕ → BirBlock
  block_at b = Option.get_or (get_elem? M.blocks b) no_block

  -- `&M->insts[B->first_inst + B->num_insts - 1u]`
  abbrev pub terminator : BirBlock → BirInst
  terminator B = inst_at M (B.first_inst + B.num_insts - 1)

  unfoldable pub nsuc : BirBlock → ℕ
  nsuc B =
      if B.num_insts == 0 || leb (length M.insts) B.first_inst
      then 0
      else if (terminator B).op == op_br
      then 1
      else if (terminator B).op == op_br_cond
      then 2
      else if not ((terminator B).op == op_switch)
      then 0
      else if not ((terminator B).num_operands == bir_operands_overflow)
      then 1
      else if ltb (slot (terminator B).operands 1) 2
      then 0
      else 1 + (slot (terminator B).operands 1 - 2) / 2

  unfoldable pub suc_of : BirBlock → ℕ → ℕ
  suc_of B k =
      if (terminator B).op == op_br
      then bir_oper M (terminator B) 0
      else if (terminator B).op == op_br_cond
      then bir_oper M (terminator B) ((1 + k) % 2 ^ 32)
      else if not ((terminator B).num_operands == bir_operands_overflow)
      then bir_oper M (terminator B) 1
      else if k == 0
      then bir_oper M (terminator B) 1
      else bir_oper M (terminator B) ((2 * k + 1) % 2 ^ 32)

  -- The successors from the `k`-th on.
  unfoldable pub targets_from : BirBlock → (k left : ℕ) → List ℕ
  targets_from B k zero = []
  targets_from B k (suc left) = suc_of B k ∷ targets_from B (suc k) left

  unfoldable pub targets : BirBlock → List ℕ
  targets B = targets_from B 0 (nsuc B)

  unfoldable pub any_target : ℕ → List ℕ → Bool
  any_target b [] = false
  any_target b (t ∷ ts) = if t == b then true else any_target b ts

  -- Whether an edge from block `p` to block `b` is there, or `p` is none of the function's.
  unfoldable pub plive : (base_block num_blocks : ℕ) → (rch : ℕ → Bool) → (p b : ℕ) → Bool
  plive base_block num_blocks rch p b =
      if ltb p base_block
      then true
      else if leb num_blocks (p - base_block)
      then true
      else if not (rch (p - base_block))
      then false
      else any_target b (targets (block_at p))

  module _ (base_block nb : ℕ) where
    -- One successor `t`: the marks, and whether one is new.
    unfoldable pub visit : ℕ → (ℕ → Bool) × Bool → (ℕ → Bool) × Bool
    visit t s =
        if ltb t base_block
        then s
        else if leb nb (t - base_block) || s.0 (t - base_block)
        then s
        else (mark s.0 (t - base_block), true)

    unfoldable pub visit_all : List ℕ → (ℕ → Bool) × Bool → (ℕ → Bool) × Bool
    visit_all [] s = s
    visit_all (t ∷ ts) s = visit_all ts (visit t s)

    unfoldable pub visit_block : ℕ → (ℕ → Bool) × Bool → (ℕ → Bool) × Bool
    visit_block i s = if not (s.0 i) then s else visit_all (targets (block_at (base_block + i))) s

    -- The blocks from the `i`-th on.
    unfoldable pub mark_round : (i left : ℕ) → (ℕ → Bool) × Bool → (ℕ → Bool) × Bool
    mark_round i zero s = s
    mark_round i (suc left) s = mark_round (suc i) left (visit_block i s)

    unfoldable pub rmark_loop : (g : ℕ) → (ℕ → Bool) → ℕ → Bool
    rmark_loop zero rch = rch
    rmark_loop (suc g) rch =
        let (rch₁, chg) = mark_round 0 nb (rch, false) in
        let rest = rmark_loop g rch₁ in if chg then rest else rch₁

    unfoldable pub rmark : ℕ → Bool
    rmark = rmark_loop (nb + 1) (λ i. i == 0)

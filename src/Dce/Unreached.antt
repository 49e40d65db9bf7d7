-- ===== src/Dce/Unreached.antt =====
-- phix and rchk of src/ir/bir_dce.c: the blocks that the entry does not reach are emptied, and the
-- phis of the others lose the edges from them.
use booth.Base.{
  ℕ, zero, suc, ◌+◌, ◌-◌, ◌/◌, ◌%◌, ◌^◌, Bool, true, false, not, ◌||◌, ◌==◌, leb, if◌then◌else◌,
  List, length, set,
}
use booth.Bir.Defs.{BirModule, bir_operands_overflow}
use booth.Bir.Types.{bir_type_void}
use booth.Bir.Consts.{slot}
use booth.Bir.Opcodes.{op_phi, op_unreachable}
use booth.Dce.Pass.{inst_at, mark}
use booth.Dce.Blocks.{block_at, plive, rmark}

-- The instructions of a block from the `k`-th on are marked dead.
unfoldable pub mark_insts : (first k left : ℕ) → (ℕ → Bool) → ℕ → Bool
mark_insts first k zero dead = dead
mark_insts first k (suc left) dead = mark_insts first (suc k) left (mark dead (first + k))

module _ {D : Type 0} (base_block nb : ℕ) (rch : ℕ → Bool) where
  -- The pairs of a phi in the pool from the `k`-th operand on; `w` is where the next kept one goes.
  unfoldable pub phix_extra : BirModule D → (b st k left w : ℕ) → Bool → BirModule D × (ℕ × Bool)
  phix_extra M b st k zero w drop = (M, (w, drop))
  phix_extra M b st k (suc left) w drop =
      let at = λ (o : ℕ). (st + o) % 2 ^ 32 in
      let live = plive M base_block nb rch (slot M.extra_operands (at k)) b in
      let pair₁ = set M.extra_operands (at w) (slot M.extra_operands (at k)) in
      let pair₂ = set pair₁ (at (w + 1)) (slot pair₁ (at (k + 1))) in
      let rest =
        phix_extra (if live then record M { extra_operands = pair₂ } else M) b st (k + 2) left
          (if live then w + 2 else w) (if live then drop else true) in
      if leb (length M.extra_operands) (at (k + 1)) then (M, (w, drop)) else rest

  unfoldable pub phix_inline :
      BirModule D → (b : ℕ) → List ℕ → (k left w : ℕ) → Bool → List ℕ × (ℕ × Bool)
  phix_inline M b operands k zero w drop = (operands, (w, drop))
  phix_inline M b operands k (suc left) w drop =
      let live = plive M base_block nb rch (slot operands k) b in
      let pair₁ = set operands w (slot operands k) in
      let pair₂ = set pair₁ (w + 1) (slot pair₁ (k + 1)) in
      phix_inline M b (if live then pair₂ else operands) (k + 2) left (if live then w + 2 else w)
        (if live then drop else true)

  -- `I` is the instruction at `ii`. The count of pairs is `n / 2`.
  unfoldable pub phix : BirModule D → (b ii : ℕ) → Bool × BirModule D
  phix M b ii =
      let I = inst_at M ii in
      if I.num_operands == bir_operands_overflow
      then (let (M₁, (w, drop)) =
            phix_extra M b (slot I.operands 0) 0 (slot I.operands 1 / 2) 0 false in
          (
            drop,
            record M₁ { insts = set M₁.insts ii (record I { operands = set I.operands 1 w }) },
          ))
      else (let (operands, (w, drop)) = phix_inline M b I.operands 0 (I.num_operands / 2) 0 false in
          (
            drop,
            record M {
              insts = set M.insts ii (record I { operands = operands; num_operands = w % 2 ^ 8 });
            },
          ))

  -- A block that is not reached: its first instruction becomes `unreachable`.
  unfoldable pub empty_block : BirModule D × ((ℕ → Bool) × ℕ) → ℕ → BirModule D × ((ℕ → Bool) × ℕ)
  empty_block (M, (dead, n)) i =
      let B = block_at M (base_block + i) in
      let I = inst_at M B.first_inst in
      let dead₁ = mark_insts B.first_inst 1 (B.num_insts - 1) dead in
      let n₁ = n + (B.num_insts - 1) in
      let (void, M₁) = bir_type_void M in
      let gone = record I { op = op_unreachable; subop = 0; num_operands = 0; type = void } in
      if rch i || B.num_insts == 0
      then (M, (dead, n))
      else if I.op == op_unreachable
      then (M, (dead₁, n₁))
      else (record M₁ { insts = set M₁.insts B.first_inst gone }, (dead₁, n₁ + 1))

  unfoldable pub empty_blocks :
      (i left : ℕ) → BirModule D × ((ℕ → Bool) × ℕ) → BirModule D × ((ℕ → Bool) × ℕ)
  empty_blocks i zero s = s
  empty_blocks i (suc left) s = empty_blocks (suc i) left (empty_block s i)

  -- The phis of a reached block that are not dead.
  unfoldable pub prune_insts : (b first k left : ℕ) → (ℕ → Bool) → BirModule D × ℕ → BirModule D × ℕ
  prune_insts b first k zero dead s = s
  prune_insts b first k (suc left) dead (M, n) =
      let ii = first + k in
      let (drop, M₁) = phix M b ii in
      prune_insts b first (suc k) left dead (
        if not ((inst_at M ii).op == op_phi) || dead ii
        then (M, n)
        else (M₁, n + (if drop then 1 else 0)))

  unfoldable pub prune_blocks : (i left : ℕ) → (ℕ → Bool) → BirModule D × ℕ → BirModule D × ℕ
  prune_blocks i zero dead s = s
  prune_blocks i (suc left) dead (M, n) =
      let B = block_at M (base_block + i) in
      prune_blocks (suc i) left dead (
        if not (rch i)
        then (M, n)
        else prune_insts (base_block + i) B.first_inst 0 B.num_insts dead (M, n))

module _ {D : Type 0} where
  -- The module, the bits of `dead` and the number of changes.
  unfoldable pub rchk :
      BirModule D → (base_block nb : ℕ) → (ℕ → Bool) → BirModule D × ((ℕ → Bool) × ℕ)
  rchk M base_block nb dead =
      let rch = rmark M base_block nb in
      let (M₁, (dead₁, n)) = empty_blocks base_block nb rch 1 (nb - 1) (M, (dead, 0)) in
      let (M₂, n₂) = prune_blocks base_block nb rch 0 nb dead₁ (M₁, n) in (M₂, (dead₁, n₂))

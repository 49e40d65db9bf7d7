-- ===== src/Cfold/Phi.antt =====
-- cfpe of src/ir/bir_cfold.c: the phis of a block that an edge is taken from lose the arms of the
-- block where the edge started. An arm is a block and the value that comes from it.
use booth.Base.{
  ℕ, zero, suc, ◌+◌, ◌/◌, ◌%◌, ◌^◌, Bool, false, not, ◌==◌, leb, if◌then◌else◌, List, length, set,
}
use booth.Bir.Defs.{BirModule, bir_operands_overflow}
use booth.Bir.Consts.{slot}
use booth.Bir.Opcodes.{op_phi}
use booth.Dce.Pass.{inst_at}
use booth.Dce.Blocks.{block_at}

-- The loop over the arms, from place `k` on with `left` arms to come: those that stay are written
-- from place `w` on. Arms stand at `at`, and the loop ends where `stop` holds. The result has the
-- number of places that the arms take up.
unfoldable pub prune_arms :
    (at : ℕ → ℕ) → (stop : ℕ → Bool) → (from k w left : ℕ) → List ℕ → List ℕ × ℕ
prune_arms at stop from k w zero ops = (ops, w)
prune_arms at stop from k w (suc left) ops =
    let goes = slot ops (at k) == from in
    let copied = set ops (at w) (slot ops (at k)) in
    let copied = set copied (at (w + 1)) (slot copied (at (k + 1))) in
    let rest =
      prune_arms at stop from (k + 2) (if goes then w else w + 2) left
        (if goes then ops else copied) in
    if stop (at (k + 1)) then (ops, w) else rest

module _ {D : Type 0} where
  -- One instruction of the block.
  unfoldable pub prune_phi : (from i : ℕ) → BirModule D → BirModule D
  prune_phi from i M =
      let I = inst_at M i in
      let st = slot I.operands 0 in
      let n = slot I.operands 1 in
      let pool = length M.extra_operands in
      let (extra, wide) =
        prune_arms (λ k. (st + k) % 2 ^ 32) (λ p. leb pool p) from 0 0 (n / 2) M.extra_operands in
      let (operands, w) =
        prune_arms (λ k. k) (λ p. false) from 0 0 (I.num_operands / 2) I.operands in
      if not (I.op == op_phi)
      then M
      else if I.num_operands == bir_operands_overflow
      then record M {
        extra_operands = extra;
        insts = set M.insts i (record I { operands = set I.operands 1 wide });
      }
      else record M {
        insts = set M.insts i (record I { operands = operands; num_operands = w % 2 ^ 8 });
      }

  unfoldable pub prune_phis : (from first j left : ℕ) → BirModule D → BirModule D
  prune_phis from first j zero M = M
  prune_phis from first j (suc left) M =
      prune_phis from first (suc j) left (prune_phi from (first + j) M)

  unfoldable pub cfpe : BirModule D → (from b : ℕ) → BirModule D
  cfpe M from b =
      let B = block_at M b in
      if leb (length M.blocks) b then M else prune_phis from B.first_inst 0 B.num_insts M

-- ===== src/Cfold/Pruned.antt =====
-- cfpe of src/ir/bir_cfold.c on a module: the phis of a block, each for itself.
use booth.Base.{
  ℕ, zero, suc, ◌+◌, ◌/◌, ◌%◌, ◌^◌, ◌<◌, ◌≤◌, ◌≡◌, ◌≢◌, refl, ap, ◌∙◌, arith, true, false, ◌==◌,
  leb, Bool-cases, inl, inr, length, length-set, get_elem?-set_self, get_elem?-set_ne, ==_ne,
}
use native.Mathlib.Decide.{ℕ_discrete}
use booth.Bir.Defs.{BirInst, BirModule, bir_operands_inline, bir_operands_overflow}
use booth.Bir.Opcodes.{op_phi}
use booth.Dce.Pass.{inst_at}
use booth.Dce.Blocks.{block_at}
use booth.Cfold.Phi.{prune_arms, prune_phi, prune_phis, cfpe}
use booth.Cfold.Arms.{arms, without, phi_arms, prune-Prunes, length-without, length-arms}

-- A phi whose arms stand in the instruction.
pub record IsInlinePhi (I : BirInst) : Type 0 where
  pub is_phi : I.op ≡ op_phi
  pub whole : length I.operands ≡ bir_operands_inline
  pub in_use : I.num_operands ≤ bir_operands_inline

module _ (from : ℕ) where
  -- What one step leaves of the instruction that it is at.
  abbrev pruned : BirInst → BirInst
  pruned I =
      let r = prune_arms (λ k. k) (λ p. false) from 0 0 (I.num_operands / 2) I.operands in
      record I { operands = r.0; num_operands = r.1 % 2 ^ 8 }

  pruned-phi_arms : (I : BirInst) → IsInlinePhi I → phi_arms (pruned I) ≡ without from (phi_arms I)
  pruned-phi_arms I h =
      let p =
        prune-Prunes from 0 0 (I.num_operands / 2) I.operands (omega arith)
          (omega (arith, h.whole, h.in_use)) in
      let n = length (without from (phi_arms I)) in
      let fits : n ≤ I.num_operands / 2 =
        omega (
          arith,
          length-without from (phi_arms I),
          length-arms I.operands 0 (I.num_operands / 2),
        ) in
      let count : (pruned I).num_operands / 2 ≡ n = omega (arith, p.count, h.in_use) in
      ap (arms (pruned I).operands 0) count ∙ p.result

module _ {D : Type 0} (from : ℕ) where
  prune_phi-inst_self :
      (M : BirModule D) (i : ℕ)
      → i < length M.insts
      → IsInlinePhi (inst_at M i)
      → inst_at (prune_phi from i M) i ≡ pruned from (inst_at M i)
  unfolding prune_phi
  prune_phi-inst_self M i inside h =
      let inline : (inst_at M i).num_operands == bir_operands_overflow ≡ false =
        ==_ne _ _ (omega (arith, h.in_use)) in
      let phi : (inst_at M i).op == op_phi ≡ true = ap (λ (o : ℕ). o == op_phi) h.is_phi in
      rw (phi, inline) (rw (get_elem?-set_self M.insts i (pruned from (inst_at M i)) inside) refl)

  prune_phi-inst_ne :
      (M : BirModule D) (i t : ℕ) → i ≢ t → inst_at (prune_phi from i M) t ≡ inst_at M t
  unfolding prune_phi
  prune_phi-inst_ne M i t ne = elim (Bool-cases ((inst_at M i).op == op_phi)) [
    | inl e ↦ elim (Bool-cases ((inst_at M i).num_operands == bir_operands_overflow)) [
      | inl o ↦ rw (e, o) (rw (get_elem?-set_ne M.insts i t _ ne) refl)
      | inr o ↦ rw (e, o) (rw (get_elem?-set_ne M.insts i t _ ne) refl)
    ]
    | inr e ↦ rw e
  ]

  length-prune_phi : (M : BirModule D) (i : ℕ) → length (prune_phi from i M).insts ≡ length M.insts
  unfolding prune_phi
  length-prune_phi M i = elim (Bool-cases ((inst_at M i).op == op_phi)) [
    | inl e ↦ elim (Bool-cases ((inst_at M i).num_operands == bir_operands_overflow)) [
      | inl o ↦ rw (e, o) (length-set M.insts i _)
      | inr o ↦ rw (e, o) (length-set M.insts i _)
    ]
    | inr e ↦ rw e
  ]

  -- The steps behind the instruction, and those before it, leave it alone.
  prune_phis-inst_ne :
      (first j left : ℕ) (M : BirModule D) (t : ℕ)
      → t < first + j
      → inst_at (prune_phis from first j left M) t ≡ inst_at M t
  unfolding prune_phis
  prune_phis-inst_ne first j zero M t h = refl
  prune_phis-inst_ne first j (suc left) M t h =
      prune_phis-inst_ne first (suc j) left (prune_phi from (first + j) M) t (omega arith)
      ∙ prune_phi-inst_ne M (first + j) t (λ e. omega (arith, e))

  prune_phis-inst :
      (first j left : ℕ) (M : BirModule D) (t : ℕ)
      → j ≤ t
      → t < j + left
      → first + t < length M.insts
      → IsInlinePhi (inst_at M (first + t))
      → inst_at (prune_phis from first j left M) (first + t) ≡ pruned from (inst_at M (first + t))
  unfolding prune_phis
  prune_phis-inst first j zero M t low high inside h = absurd (omega arith)
  prune_phis-inst first j (suc left) M t low high inside h = elim (ℕ_discrete j t) [
    | yes e ↦
        prune_phis-inst_ne first (suc j) left (prune_phi from (first + j) M) (first + t)
          (omega arith)
        ∙ ap (λ (i : ℕ). inst_at (prune_phi from (first + i) M) (first + t)) e
        ∙ prune_phi-inst_self M (first + t) inside h
    | no n ↦
        let same = prune_phi-inst_ne M (first + j) (first + t) (λ e. n (omega (arith, e))) in
        prune_phis-inst first (suc j) left (prune_phi from (first + j) M) t (omega arith)
          (omega arith) (omega (arith, length-prune_phi M (first + j))) (rw same h)
        ∙ ap (pruned from) same
  ]

  -- For a phi of a block that the module has, inside the arena of instructions and with its
  -- arms in the instruction, cfpe leaves exactly the arms that do not come from the block
  -- named, in their order.
  pub cfpe-phi_arms :
      (M : BirModule D) (b t : ℕ)
      → b < length M.blocks
      → t < (block_at M b).num_insts
      → (block_at M b).first_inst + t < length M.insts
      → IsInlinePhi (inst_at M ((block_at M b).first_inst + t))
      → phi_arms (inst_at (cfpe M from b) ((block_at M b).first_inst + t))
        ≡ without from (phi_arms (inst_at M ((block_at M b).first_inst + t)))
  unfolding cfpe
  cfpe-phi_arms M b t known here inside h =
      let test : leb (length M.blocks) b ≡ false = ground arith in
      let B = block_at M b in
      rw test (
        ap phi_arms
          (prune_phis-inst B.first_inst 0 B.num_insts M t (omega arith) (omega arith) inside h)
        ∙ pruned-phi_arms from (inst_at M (B.first_inst + t)) h)

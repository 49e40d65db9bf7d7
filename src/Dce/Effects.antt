-- ===== src/Dce/Effects.antt =====
-- Which instructions do something that another one, or the environment, can see. The list is read
-- off src/ir/bir.h, where src/ir/bir_dce.c lists the opcodes that do nothing of the kind.
use booth.Base.{
  ℕ, ◌+◌, ◌≤◌, ◌<◌, ◌≡◌, ap, sym, ◌∙◌, refl, arith, Bool, true, false, not, ◌&&◌, ◌==◌, List, [],
  ◌∷◌, Bool-cases, inl, inr,
}
use booth.Bir.Defs.{BirInst, BirModule}
use booth.Bir.Opcodes.{
  op_load, op_store, op_br, op_br_cond, op_switch, op_ret, op_unreachable, op_param, op_barrier,
  op_barrier_group, op_atomic_add, op_atomic_sub, op_atomic_and, op_atomic_or, op_atomic_xor,
  op_atomic_min, op_atomic_max, op_atomic_xchg, op_atomic_cas, op_atomic_load, op_atomic_store,
  op_shfl, op_shfl_up, op_shfl_down, op_shfl_xor, op_ballot, op_vote_any, op_vote_all, op_mfma,
  op_mma, op_mfrg, op_wld, op_wst, op_wmma, op_call, op_inline_asm, op_trap, op_printf, op_fence,
  op_nanoslp, op_barred, op_gridbar,
}
use booth.Dce.Defs.{any_eq, pure_ops, is_pure_op, removable}
use booth.Dce.Pass.{inst_at}

-- Stores, control flow, parameters, what threads do together, calls, and what is said to the
-- environment.
abbrev pub effect_ops : List ℕ
effect_ops =
    op_store ∷ op_br ∷ op_br_cond ∷ op_switch ∷ op_ret ∷ op_unreachable ∷ op_param ∷ op_barrier
    ∷ op_barrier_group ∷ op_atomic_add ∷ op_atomic_sub ∷ op_atomic_and ∷ op_atomic_or
    ∷ op_atomic_xor ∷ op_atomic_min ∷ op_atomic_max ∷ op_atomic_xchg ∷ op_atomic_cas
    ∷ op_atomic_load ∷ op_atomic_store ∷ op_shfl ∷ op_shfl_up ∷ op_shfl_down ∷ op_shfl_xor
    ∷ op_ballot ∷ op_vote_any ∷ op_vote_all ∷ op_mfma ∷ op_mma ∷ op_mfrg ∷ op_wld ∷ op_wst ∷ op_wmma
    ∷ op_call ∷ op_inline_asm ∷ op_trap ∷ op_printf ∷ op_fence ∷ op_nanoslp ∷ op_barred ∷ op_gridbar
    ∷ []

-- The instruction is one of the function and has no effect; a load of it is not volatile.
pub record MayGo {D : Type 0} (M : BirModule D) (base num k : ℕ) : Type 0 where
  pub inside : (base ≤ k) × (k < base + num)
  pub quiet : any_eq (inst_at M k).op effect_ops ≡ false
  pub plain : (inst_at M k).op ≡ op_load → (inst_at M k).subop ≡ 0

none_common : List ℕ → List ℕ → Bool
none_common [] ys = true
none_common (x ∷ xs) ys = not (any_eq x ys) && none_common xs ys

none_common-any_eq :
    (op : ℕ) (xs ys : List ℕ)
    → none_common xs ys ≡ true
    → any_eq op xs ≡ true
    → any_eq op ys ≡ false
unfolding none_common any_eq
none_common-any_eq op [] ys h m = cc m
none_common-any_eq op (x ∷ xs) ys h m = elim (Bool-cases (op == x)) [
  | inl e ↦ ap (λ o. any_eq o ys) {y = x} (ground arith) ∙ ground arith
  | inr e ↦ none_common-any_eq op xs ys (ground arith) (ground arith)
]

load_quiet : any_eq op_load effect_ops ≡ false
unfolding any_eq
load_quiet = refl

apart : none_common pure_ops effect_ops ≡ true
unfolding none_common any_eq
apart = refl

load_impure : is_pure_op op_load ≡ false
unfolding is_pure_op any_eq
load_impure = refl

module _ (I : BirInst) where
  pure_quiet : is_pure_op I.op ≡ true → any_eq I.op effect_ops ≡ false
  unfolding is_pure_op
  pure_quiet h = none_common-any_eq I.op pure_ops effect_ops apart h

  pub removable-quiet :
      removable I ≡ true → (any_eq I.op effect_ops ≡ false) × (I.op ≡ op_load → I.subop ≡ 0)
  unfolding removable
  removable-quiet h = elim (Bool-cases (is_pure_op I.op)) [
    | inl e ↦ (pure_quiet e, (λ l. absurd (cc (sym e ∙ ap is_pure_op l ∙ load_impure))))
    | inr e ↦
        let load : (I.op == op_load && I.subop == 0) ≡ true = rw e at h in
        let is_load : I.op ≡ op_load = ground arith in
        (ap (λ o. any_eq o effect_ops) is_load ∙ load_quiet, (λ l. ground arith))
  ]

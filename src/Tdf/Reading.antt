-- ===== src/Tdf/Reading.antt =====
-- Which parameter an address of a kernel comes from, as relations between the values of a module (src/tdf/tdf_fission.c).
use mathlib.Core.Option
use booth.Base.{
  ℕ, zero, suc, ◌≤◌, ◌≡◌, ◌≢◌, ◌⊎◌, refl, sym, ap, ◌∙◌, arith, true, false, ◌&&◌, leb, ◌==◌,
  if◌then◌else◌, none, some, Option-cases, Bool-cases, inl, inr, List, [], ◌∷◌, length, get_elem?,
  lt-length_of_get_elem?,
}
use booth.Bir.Defs.{
  BirInst, BirType, BirModule, type_ptr, bir_val_none, bir_val_index, bir_val_is_const,
}
use booth.Bir.Consts.{slot}
use booth.Bir.Opcodes.{
  op_store, op_param, op_load, op_alloca, op_gep, op_bitcast, op_inttoptr, op_ptrtoint,
}
use booth.Dce.Pass.{inst_at, no_inst}
use booth.Tdf.Fission.{only_store, no_value, as_global, as_generic}

-- The values that are stored to `to`, in order.
pub stored_to : ℕ → List BirInst → List ℕ
stored_to to [] = []
stored_to to (I ∷ insts) =
    let rest = stored_to to insts in
    if I.op == op_store && slot I.operands 1 == to then slot I.operands 0 ∷ rest else rest

-- The one value of a list, or none. What stands for no value is passed over in front of it.
pub sole : List ℕ → ℕ
sole [] = bir_val_none
sole (v ∷ []) = v
sole (v ∷ w ∷ vs) = if v == bir_val_none then sole (w ∷ vs) else bir_val_none

sole-cons : (v : ℕ) (vs : List ℕ) → (v == bir_val_none) ≡ true → sole (v ∷ vs) ≡ sole vs
unfolding sole
sole-cons v [] h = ground arith
sole-cons v (w ∷ vs) h = rw h refl

only_store-hit :
    (to hit : ℕ) (insts : List BirInst)
    → (hit == bir_val_none) ≡ false
    → only_store to hit insts ≡ sole (hit ∷ stored_to to insts)
unfolding only_store stored_to sole
only_store-hit to hit [] h = refl
only_store-hit to hit (I ∷ insts) h =
    let rest = only_store-hit to hit insts h in
    elim (Bool-cases (I.op == op_store && slot I.operands 1 == to)) [
      | inl e ↦ rw (e, h) refl
      | inr e ↦ rw e rest
    ]

pub only_store-sole :
    (to : ℕ) (insts : List BirInst) → only_store to bir_val_none insts ≡ sole (stored_to to insts)
unfolding only_store stored_to sole
only_store-sole to [] = refl
only_store-sole to (I ∷ insts) =
    let rest = only_store-sole to insts in
    let v = slot I.operands 0 in
    elim (Bool-cases (I.op == op_store && slot I.operands 1 == to)) [
      | inr e ↦ rw e rest
      | inl e ↦ elim (Bool-cases (v == bir_val_none)) [
        | inl n ↦
            let same : v ≡ bir_val_none = ground arith in
            rw e (
              ap (λ h. only_store to h insts) same
              ∙ rest
              ∙ sym (sole-cons v (stored_to to insts) n))
        | inr n ↦ rw e (only_store-hit to v insts n)
      ]
    ]

pub length_of_get_elem?-none {ℓ} :
    {A : Type ℓ} (xs : List A) (i : ℕ) → get_elem? xs i ≡ none → length xs ≤ i
length_of_get_elem?-none [] i h = omega arith
length_of_get_elem?-none (x ∷ xs) zero h = cc h
length_of_get_elem?-none (x ∷ xs) (suc i) h = omega (arith, length_of_get_elem?-none xs i h)

module _ {D : Type 0} (bir : BirModule D) where
  -- The value is the result of the instruction `I`.
  pub record Result (val : ℕ) (I : BirInst) : Type 0 where
    pub present : val ≢ bir_val_none
    pub computed : bir_val_is_const val ≡ false
    pub there : get_elem? bir.insts (bir_val_index val) ≡ some I

  no-Result : (val : ℕ) → no_value bir val ≡ true → (I : BirInst) → ¬ Result val I
  unfolding no_value
  no-Result val h I r =
      let some_val : (val == bir_val_none) ≡ false = ground (arith, r.present) in
      let inside = lt-length_of_get_elem? bir.insts (bir_val_index val) I r.there in
      let below : leb (length bir.insts) (bir_val_index val) ≡ false = ground arith in
      let value : no_value bir val ≡ false = rw (some_val, r.computed, below) refl in
      cc (sym h ∙ value)

  pub Result-of :
      (val : ℕ) → no_value bir val ≡ false → Result val (inst_at bir (bir_val_index val))
  unfolding no_value
  Result-of val h = record {
    present = λ e. absurd (ground arith);
    computed = ground arith;
    there = elim (Option-cases (get_elem? bir.insts (bir_val_index val))) [
      | inl e ↦
          let low = length_of_get_elem?-none bir.insts (bir_val_index val) e in
          absurd (ground arith)
      | inr (I, e) ↦ e ∙ ap (λ o. some (Option.get_or o no_inst)) (sym e)
    ];
  }

  pub Result-unique : (val : ℕ) (I : BirInst) → Result val I → inst_at bir (bir_val_index val) ≡ I
  Result-unique val I r = ap (λ o. Option.get_or o no_inst) r.there

  pub Result-value : (val : ℕ) (I : BirInst) → Result val I → no_value bir val ≡ false
  Result-value val I r = elim (Bool-cases (no_value bir val)) [
    | inl e ↦ absurd (no-Result val e I r)
    | inr e ↦ e
  ]

  -- The address is a place of the thread's own, in `steps` steps at most.
  pub data IsLocal : (steps val : ℕ) → Type 0 where
    own : (g val : ℕ) (I : BirInst) → Result val I → I.op ≡ op_alloca → IsLocal (suc g) val
    part :
        (g val : ℕ) (I : BirInst)
        → Result val I
        → ((I.op ≡ op_gep) ⊎ (I.op ≡ op_bitcast))
        → IsLocal g (slot I.operands 0)
        → IsLocal (suc g) val

  -- The operand that an address is computed from, or read through.
  pub data Through (I : BirInst) (val : ℕ) : ℕ → Type 0 where
    gep : I.op ≡ op_gep → Through I val (slot I.operands 0)
    bitcast : I.op ≡ op_bitcast → Through I val (slot I.operands 0)
    inttoptr : I.op ≡ op_inttoptr → Through I val (slot I.operands 0)
    ptrtoint : I.op ≡ op_ptrtoint → Through I val (slot I.operands 0)
    load : I.op ≡ op_load → Through I val (slot I.operands 0)
    alloca : I.op ≡ op_alloca → Through I val (sole (stored_to val bir.insts))

  -- The value comes from parameter `pi`, in `steps` steps at most.
  pub data Traces : (steps val pi : ℕ) → Type 0 where
    param : (g val : ℕ) (I : BirInst) → Result val I → I.op ≡ op_param → Traces (suc g) val I.subop
    via :
        (g val pi : ℕ) (I : BirInst) (w : ℕ)
        → Result val I
        → Through I val w
        → Traces g w pi
        → Traces (suc g) val pi

  -- A pointer to memory that all threads see.
  pub record IsGlobalPtr (type : ℕ) : Type 0 where
    pub T : BirType
    pub there : get_elem? bir.types type ≡ some T
    pub pointer : T.kind ≡ type_ptr
    pub space : (T.addrspace ≡ as_global) ⊎ (T.addrspace ≡ as_generic)

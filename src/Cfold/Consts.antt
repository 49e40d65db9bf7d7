-- ===== src/Cfold/Consts.antt =====
-- The folds of constants of try_fold in src/ir/bir_cfold.c on a module: which fold an instruction
-- takes, and the constant that is added to the pool.
use booth.Base.{
  ℕ, zero, suc, Bool, true, not, ◌&&◌, ◌||◌, ◌==◌, ltb, leb, if◌then◌else◌, Option, none, some,
  List, [], ◌∷◌, ◌-◌, get_elem?,
}
use booth.Bir.Defs.{
  BirConst, int, float, null, undef, zeros, bytes, BirInst, BirModule, type_int, type_float,
  bir_val_none, bir_val_index, bir_val_is_const, bir_operands_inline, bir_operands_overflow,
}
use booth.Bir.Consts.{slot, bir_const_int, bir_const_float}
use booth.Bir.Opcodes.{op_icmp, op_fcmp}
use booth.Dce.Defs.{is_inline_block_ref}
use booth.Cfold.Width.{
  IcmpPred, icmp_eq, icmp_ne, icmp_slt, icmp_sle, icmp_sgt, icmp_sge, icmp_ult, icmp_ule, icmp_ugt,
  icmp_uge, fold_icmp,
}
use booth.Cfold.Ints.{Fold, kept, folded, map_fold, int_op, fold_binary, fold_conv}
use booth.Cfold.Floats.{
  DoubleOps, FcmpPred, fcmp_oeq, fcmp_one, fcmp_olt, fcmp_ole, fcmp_ogt, fcmp_oge, fcmp_ueq,
  fcmp_une, fcmp_ult, fcmp_ule, fcmp_ugt, fcmp_uge, fcmp_ord, fcmp_uno, fold_fcmp, fold_float,
  fold_int_to_float, fold_float_to_int, fold_float_width,
}

-- `subop` as a predicate of integers, and of floating numbers.
abbrev pub icmp_preds : List IcmpPred
icmp_preds =
    icmp_eq ∷ icmp_ne ∷ icmp_slt ∷ icmp_sle ∷ icmp_sgt ∷ icmp_sge ∷ icmp_ult ∷ icmp_ule ∷ icmp_ugt
    ∷ icmp_uge ∷ []

abbrev pub fcmp_preds : List FcmpPred
fcmp_preds =
    fcmp_oeq ∷ fcmp_one ∷ fcmp_olt ∷ fcmp_ole ∷ fcmp_ogt ∷ fcmp_oge ∷ fcmp_ueq ∷ fcmp_une ∷ fcmp_ult
    ∷ fcmp_ule ∷ fcmp_ugt ∷ fcmp_uge ∷ fcmp_ord ∷ fcmp_uno ∷ []

unfoldable pub icmp_pred : ℕ → Option IcmpPred
icmp_pred subop = get_elem? icmp_preds subop

unfoldable pub fcmp_pred : ℕ → Option FcmpPred
fcmp_pred subop = if ltb subop 10 then none else get_elem? fcmp_preds (subop - 10)

-- Every operand that is no block is a constant, or not there.
unfoldable pub all_const : (operands : List ℕ) → (op j left : ℕ) → Bool
all_const operands op j zero = true
all_const operands op j (suc left) =
    let v = slot operands j in
    (is_inline_block_ref op j || v == bir_val_none || bir_val_is_const v)
    && all_const operands op (suc j) left

module _ {D : Type 0} where
  -- `int_width` and `float_width`: the width of a type of the kind, and 0 for another.
  unfoldable pub kind_width : (kind : ℕ) → BirModule D → ℕ → ℕ
  kind_width kind M tidx = elim (get_elem? M.types tidx) [
    | none ↦ 0
    | some t ↦ if t.kind == kind then t.width else 0
  ]

  unfoldable pub int_width : BirModule D → ℕ → ℕ
  unfolding kind_width
  int_width = kind_width type_int

  unfoldable pub float_width : BirModule D → ℕ → ℕ
  unfolding kind_width
  float_width = kind_width type_float

  -- The constant of operand `j`.
  unfoldable pub const_at : BirModule D → BirInst → ℕ → Option (BirConst D)
  const_at M I j =
      if leb I.num_operands j || is_inline_block_ref I.op j
      then none
      else get_elem? M.consts (bir_val_index (slot I.operands j))

  unfoldable pub int_of : Option (BirConst D) → Option ℕ
  int_of none = none
  int_of (some c) = elim c.value [
    | int v ↦ some v
    | float d ↦ none
    | null ↦ none
    | undef ↦ none
    | zeros ↦ none
    | bytes off len ↦ none
  ]

  unfoldable pub float_of : Option (BirConst D) → Option D
  float_of none = none
  float_of (some c) = elim c.value [
    | int v ↦ none
    | float d ↦ some d
    | null ↦ none
    | undef ↦ none
    | zeros ↦ none
    | bytes off len ↦ none
  ]

  unfoldable pub type_of : Option (BirConst D) → ℕ
  type_of none = 0
  type_of (some c) = c.type

  -- `int_width(M, c0->type)`, with the width that stands for none.
  unfoldable pub source_width : BirModule D → Option (BirConst D) → (default : ℕ) → ℕ
  source_width M c default = let sw = int_width M (type_of c) in if sw == 0 then default else sw

  module _ (F : DoubleOps D) (M : BirModule D) (I : BirInst) where
    -- The constant in the pool for the value of a fold.
    unfoldable pub put_int : Fold ℕ → Fold (ℕ × BirModule D)
    put_int r = map_fold (λ v. bir_const_int M I.type v) r

    unfoldable pub put_float : Fold D → Fold (ℕ × BirModule D)
    put_float r = map_fold (λ v. bir_const_float F.eq M I.type v) r

    -- The four groups of folds, by the kinds of the two constants.
    unfoldable pub fold_one_int : Option (BirConst D) → (a : ℕ) → Fold (ℕ × BirModule D)
    fold_one_int c0 a =
        if ltb 0 (int_width M I.type)
        then put_int (fold_conv I.op (int_width M I.type) (source_width M c0 32) a)
        else if ltb 0 (float_width M I.type)
        then put_float (fold_int_to_float F I.op (float_width M I.type) (source_width M c0 32) a)
        else kept

    unfoldable pub fold_two_ints : Option (BirConst D) → (a b : ℕ) → Fold (ℕ × BirModule D)
    fold_two_ints c0 a b =
        let rw' = int_width M I.type in
        if I.op == op_icmp
        then elim (icmp_pred I.subop) [
          | none ↦ kept
          | some p ↦ put_int (folded (if fold_icmp p (source_width M c0 32) a b then 1 else 0))
        ]
        else if ltb 0 rw'
        then elim (int_op I.op) [
          | none ↦ kept
          | some op ↦ put_int (fold_binary op rw' (source_width M c0 rw') a b)
        ]
        else fold_one_int c0 a

    unfoldable pub fold_one_float : (a : D) → Fold (ℕ × BirModule D)
    fold_one_float a =
        if ltb 0 (int_width M I.type)
        then put_int (fold_float_to_int F I.op (int_width M I.type) a)
        else if ltb 0 (float_width M I.type)
        then put_float (fold_float_width F I.op (float_width M I.type) a)
        else kept

    unfoldable pub fold_two_floats : (a b : D) → Fold (ℕ × BirModule D)
    fold_two_floats a b =
        if I.op == op_fcmp
        then elim (fcmp_pred I.subop) [
          | none ↦ kept
          | some p ↦ put_int (folded (if fold_fcmp F p a b then 1 else 0))
        ]
        else if ltb 0 (float_width M I.type)
        then put_float (fold_float F I.op (float_width M I.type) a b)
        else fold_one_float a

    unfoldable pub fold_pair : (c0 c1 : Option (BirConst D)) → Fold (ℕ × BirModule D)
    fold_pair c0 c1 = elim (int_of c0) [
      | some a ↦ elim (int_of c1) [ some b ↦ fold_two_ints c0 a b | none ↦ fold_one_int c0 a ]
      | none ↦ elim (float_of c0) [
        | some a ↦ elim (float_of c1) [ some b ↦ fold_two_floats a b | none ↦ fold_one_float a ]
        | none ↦ kept
      ]
    ]

    -- An instruction all of whose operands are constants.
    unfoldable pub fold_consts : Fold (ℕ × BirModule D)
    fold_consts =
        let n =
          if leb I.num_operands bir_operands_inline then I.num_operands else bir_operands_inline in
        if I.num_operands == 0 || I.num_operands == bir_operands_overflow
        then kept
        else if not (all_const I.operands I.op 0 n)
        then kept
        else fold_pair (const_at M I 0) (const_at M I 1)

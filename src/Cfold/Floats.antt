-- ===== src/Cfold/Floats.antt =====
-- The floating folds of try_fold in src/ir/bir_cfold.c. The operations of the type `double` of the
-- compiling machine are a parameter.
use booth.Base.{ℕ, Bool, not, ◌&&◌, ◌||◌, ◌==◌, if◌then◌else◌, ℤ, signed}
use booth.Cfold.Width.{mask_to_width, sign_extend}
use booth.Cfold.Ints.{Fold, kept, folded}
use booth.Bir.Opcodes.{
  op_fadd, op_fsub, op_fmul, op_fdiv, op_frem, op_fmax, op_fmin, op_sitofp, op_uitofp, op_fptosi,
  op_fptoui, op_fptrunc, op_fpext,
}

-- C's operators on `double`, `fmod` and the conversions. `to_float` is `(double)(float)x`, and an
-- `int64_t` that comes out is its bit pattern.
pub record DoubleOps (D : Type 0) : Type 0 where
  pub eq : D → D → Bool
  pub lt : D → D → Bool
  pub le : D → D → Bool
  pub add : D → D → D
  pub sub : D → D → D
  pub mul : D → D → D
  pub div : D → D → D
  pub fmod : D → D → D
  pub to_float : D → D
  pub of_int64 : ℤ → D
  pub of_uint64 : ℕ → D
  pub to_int64 : D → ℕ
  pub to_uint64 : D → ℕ

-- `bir_cmp_pred_t`, the predicates of floating numbers.
pub data FcmpPred : Type 0 where
  fcmp_oeq : FcmpPred
  fcmp_one : FcmpPred
  fcmp_olt : FcmpPred
  fcmp_ole : FcmpPred
  fcmp_ogt : FcmpPred
  fcmp_oge : FcmpPred
  fcmp_ueq : FcmpPred
  fcmp_une : FcmpPred
  fcmp_ult : FcmpPred
  fcmp_ule : FcmpPred
  fcmp_ugt : FcmpPred
  fcmp_uge : FcmpPred
  fcmp_ord : FcmpPred
  fcmp_uno : FcmpPred

module _ {D : Type 0} (F : DoubleOps D) where
  -- Neither is a NaN.
  unfoldable pub ordered : D → D → Bool
  ordered a b = F.eq a a && F.eq b b

  unfoldable pub fold_fcmp : FcmpPred → D → D → Bool
  unfolding ordered
  fold_fcmp p a b =
      let ord = ordered a b in
      elim p [
        | fcmp_oeq ↦ ord && F.eq a b
        | fcmp_one ↦ ord && not (F.eq a b)
        | fcmp_olt ↦ ord && F.lt a b
        | fcmp_ole ↦ ord && F.le a b
        | fcmp_ogt ↦ ord && F.lt b a
        | fcmp_oge ↦ ord && F.le b a
        | fcmp_ueq ↦ not ord || F.eq a b
        | fcmp_une ↦ not ord || not (F.eq a b)
        | fcmp_ult ↦ not ord || F.lt a b
        | fcmp_ule ↦ not ord || F.le a b
        | fcmp_ugt ↦ not ord || F.lt b a
        | fcmp_uge ↦ not ord || F.le b a
        | fcmp_ord ↦ ord
        | fcmp_uno ↦ not ord
      ]

  -- A result of a 32-bit type is rounded to it.
  unfoldable pub round_to : ℕ → D → D
  round_to fw r = if fw == 32 then F.to_float r else r

  unfoldable pub fold_float : (op fw : ℕ) → D → D → Fold D
  unfolding round_to
  fold_float op fw a b =
      if op == op_fadd
      then folded (round_to fw (F.add a b))
      else if op == op_fsub
      then folded (round_to fw (F.sub a b))
      else if op == op_fmul
      then folded (round_to fw (F.mul a b))
      else if op == op_fdiv
      then folded (round_to fw (F.div a b))
      else if op == op_frem
      then folded (round_to fw (F.fmod a b))
      else if op == op_fmax
      then folded (round_to fw (if F.lt b a then a else b))
      else if op == op_fmin
      then folded (round_to fw (if F.lt a b then a else b))
      else kept

  unfoldable pub fold_int_to_float : (op fw sw a : ℕ) → Fold D
  unfolding round_to
  fold_int_to_float op fw sw a =
      if op == op_sitofp
      then folded (round_to fw (F.of_int64 (signed 64 (sign_extend a sw))))
      else if op == op_uitofp
      then folded (round_to fw (F.of_uint64 (mask_to_width a sw)))
      else kept

  unfoldable pub fold_float_to_int : (op rw : ℕ) → D → Fold ℕ
  fold_float_to_int op rw a =
      if op == op_fptosi
      then folded (mask_to_width (F.to_int64 a) rw)
      else if op == op_fptoui
      then folded (mask_to_width (F.to_uint64 a) rw)
      else kept

  -- A truncation to another type than the 32-bit one is left alone.
  unfoldable pub fold_float_width : (op fw : ℕ) → D → Fold D
  fold_float_width op fw a =
      if op == op_fptrunc
      then (if fw == 32 then folded (F.to_float a) else kept)
      else if op == op_fpext
      then folded a
      else kept

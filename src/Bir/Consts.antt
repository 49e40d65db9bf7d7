-- ===== src/Bir/Consts.antt =====
-- The constants and the string table of src/ir/bir.c. A `double` is compared by the parameter
-- `same_double`, the C operator.
use booth.Base.{
  ℕ, ◌+◌, ◌%◌, ◌^◌, Bool, false, ◌&&◌, ◌||◌, ◌==◌, ltb, leb, if◌then◌else◌, none, some, List, [],
  ◌∷◌, ◌++◌, length, get_elem?, find_index,
}
use mathlib.Core.Option
use booth.Bir.Defs.{
  BirConst, int, float, null, undef, zeros, bytes, BirInst, BirModule, bir_pfull, bir_p_consts,
  bir_p_strings, bir_max_consts, bir_max_strings, bir_val_none, bir_operands_overflow,
  bir_operands_inline,
}

unfoldable pub slot : List ℕ → ℕ → ℕ
slot xs i = Option.get_or (get_elem? xs i) 0

module _ {D : Type 0} where
  -- The end that the constructors share: refuse, or push.
  unfoldable pub push_const : BirModule D → BirConst D → ℕ × BirModule D
  push_const M c =
      if leb bir_max_consts (length M.consts)
      then (0, bir_pfull M bir_p_consts)
      else (length M.consts, record M { consts = M.consts ++ c ∷ [] })

  unfoldable pub is_int : (type val : ℕ) → BirConst D → Bool
  is_int type val c = elim c.value [
    | int v ↦ c.type == type && v == val
    | float d ↦ false
    | null ↦ false
    | undef ↦ false
    | zeros ↦ false
    | bytes off len ↦ false
  ]

  unfoldable pub bir_const_int : BirModule D → (type val : ℕ) → ℕ × BirModule D
  bir_const_int M type val = elim (find_index (is_int type val) M.consts) [
    | some i ↦ (i, M)
    | none ↦ push_const M (record { type = type; value = int val })
  ]

  unfoldable pub is_float : (D → D → Bool) → ℕ → D → BirConst D → Bool
  is_float same_double type val c = elim c.value [
    | int v ↦ false
    | float d ↦ c.type == type && same_double d val
    | null ↦ false
    | undef ↦ false
    | zeros ↦ false
    | bytes off len ↦ false
  ]

  unfoldable pub bir_const_float : (D → D → Bool) → BirModule D → ℕ → D → ℕ × BirModule D
  bir_const_float same_double M type val =
      elim (find_index (is_float same_double type val) M.consts) [
        | some i ↦ (i, M)
        | none ↦ push_const M (record { type = type; value = float val })
      ]

  unfoldable pub is_null : ℕ → BirConst D → Bool
  is_null type c = elim c.value [
    | int v ↦ false
    | float d ↦ false
    | null ↦ c.type == type
    | undef ↦ false
    | zeros ↦ false
    | bytes off len ↦ false
  ]

  unfoldable pub bir_const_null : BirModule D → ℕ → ℕ × BirModule D
  bir_const_null M type = elim (find_index (is_null type) M.consts) [
    | some i ↦ (i, M)
    | none ↦ push_const M (record { type = type; value = null })
  ]

  -- The bytes are not compared: a literal always gets a constant of its own.
  unfoldable pub bir_const_bytes : BirModule D → (type off len : ℕ) → ℕ × BirModule D
  bir_const_bytes M type off len = push_const M (record { type = type; value = bytes off len })

  -- `s` is the `len` bytes that the caller passes.
  unfoldable pub bir_add_string : BirModule D → List ℕ → ℕ × BirModule D
  bir_add_string M s =
      if ltb bir_max_strings (length M.strings + length s + 1)
      then (0, bir_pfull M bir_p_strings)
      else (length M.strings, record M { strings = M.strings ++ (s ++ 0 ∷ []) })

  -- `s + j` is a `uint32_t`.
  unfoldable pub bir_oper : BirModule D → BirInst → ℕ → ℕ
  bir_oper M I j =
      if I.num_operands == bir_operands_overflow
      then (let s = slot I.operands 0 in
          let c = slot I.operands 1 in
          if leb c j || leb (length M.extra_operands) ((s + j) % 2 ^ 32)
          then bir_val_none
          else slot M.extra_operands ((s + j) % 2 ^ 32))
      else if leb I.num_operands j || leb bir_operands_inline j
      then bir_val_none
      else slot I.operands j

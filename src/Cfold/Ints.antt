-- ===== src/Cfold/Ints.antt =====
-- The integer folds of try_fold in src/ir/bir_cfold.c. An `int64_t` is its bit pattern, below
-- 2 ^ 64; a sum, a difference and a product wrap around.
use booth.Base.{
  ℕ, suc, ◌+◌, ◌-◌, ◌*◌, ◌/◌, ◌%◌, ◌^◌, bit_and, bit_or, bit_xor, Bool, false, ◌&&◌, ◌==◌,
  if◌then◌else◌, Option, none, some, ℤ, pos, negsuc, signed,
}
use booth.Cfold.Width.{mask_to_width, sign_extend}
use booth.Bir.Opcodes.{
  op_add, op_sub, op_mul, op_sdiv, op_udiv, op_srem, op_urem, op_and, op_or, op_xor, op_shl,
  op_lshr, op_ashr, op_trunc, op_zext, op_sext,
}

-- What try_fold does with an instruction: nothing, a value in its place, or a division by zero on
-- the machine that compiles.
pub data Fold {ℓ} (A : Type ℓ) : Type ℓ where
  kept : Fold A
  folded : A → Fold A
  faults : Fold A

-- The opcodes that the switch on a binary operation names.
pub data IntOp : Type 0 where
  int_add : IntOp
  int_sub : IntOp
  int_mul : IntOp
  int_sdiv : IntOp
  int_udiv : IntOp
  int_srem : IntOp
  int_urem : IntOp
  int_and : IntOp
  int_or : IntOp
  int_xor : IntOp
  int_shl : IntOp
  int_lshr : IntOp
  int_ashr : IntOp

unfoldable pub int_op : ℕ → Option IntOp
int_op op =
    if op == op_add
    then some int_add
    else if op == op_sub
    then some int_sub
    else if op == op_mul
    then some int_mul
    else if op == op_sdiv
    then some int_sdiv
    else if op == op_udiv
    then some int_udiv
    else if op == op_srem
    then some int_srem
    else if op == op_urem
    then some int_urem
    else if op == op_and
    then some int_and
    else if op == op_or
    then some int_or
    else if op == op_xor
    then some int_xor
    else if op == op_shl
    then some int_shl
    else if op == op_lshr
    then some int_lshr
    else if op == op_ashr
    then some int_ashr
    else none

-- The `w` bits of a number in two's complement.
abbrev pub to_bits : ℕ → ℤ → ℕ
to_bits w (pos n) = n % 2 ^ w
to_bits w (negsuc n) = 2 ^ w - 1 - n % 2 ^ w

-- `/` and `%` of C round towards zero.
abbrev pub quot : ℤ → ℤ → ℤ
quot (pos a) (pos b) = pos (a / b)
quot (pos a) (negsuc b) = if a / suc b == 0 then pos 0 else negsuc (a / suc b - 1)
quot (negsuc a) (pos b) = if suc a / b == 0 then pos 0 else negsuc (suc a / b - 1)
quot (negsuc a) (negsuc b) = pos (suc a / suc b)

abbrev pub rem : ℤ → ℤ → ℤ
rem (pos a) (pos b) = pos (a % b)
rem (pos a) (negsuc b) = pos (a % suc b)
rem (negsuc a) (pos b) = if suc a % b == 0 then pos 0 else negsuc (suc a % b - 1)
rem (negsuc a) (negsuc b) = if suc a % suc b == 0 then pos 0 else negsuc (suc a % suc b - 1)

-- `>>` of a signed number is arithmetic.
abbrev pub shift_right : ℤ → ℕ → ℤ
shift_right (pos n) s = pos (n / 2 ^ s)
shift_right (negsuc n) s = negsuc (n / 2 ^ s)

-- `x == -1` and `x == INT64_MIN`.
abbrev pub is_minus_one : ℤ → Bool
is_minus_one (pos n) = false
is_minus_one (negsuc n) = n == 0

abbrev pub is_int64_min : ℤ → Bool
is_int64_min (pos n) = false
is_int64_min (negsuc n) = n == 2 ^ 63 - 1

abbrev pub is_zero_ℤ : ℤ → Bool
is_zero_ℤ (pos n) = n == 0
is_zero_ℤ (negsuc n) = false

-- A signed division whose guards have passed, of the operands after sign extension.
unfoldable pub signed_division : (ℤ → ℤ → ℤ) → (sa sb : ℤ) → Fold ℕ
signed_division f sa sb =
    if is_minus_one sb && is_int64_min sa
    then kept
    else if is_zero_ℤ sb
    then faults
    else folded (to_bits 64 (f sa sb))

unfoldable pub unsigned_division : (ℕ → ℕ → ℕ) → (ua ub : ℕ) → Fold ℕ
unsigned_division f ua ub = if ub == 0 then faults else folded (f ua ub)

-- The switch on the opcode, before the result is masked.
unfoldable pub fold_int : IntOp → (sw a b : ℕ) → Fold ℕ
fold_int op sw a b =
    let sa = signed 64 (sign_extend a sw) in
    let sb = signed 64 (sign_extend b sw) in
    let ua = mask_to_width a sw in
    let ub = mask_to_width b sw in
    let s = bit_and b (sw - 1) in
    elim op [
      | int_add ↦ folded ((a + b) % 2 ^ 64)
      | int_sub ↦ folded ((a + (2 ^ 64 - b)) % 2 ^ 64)
      | int_mul ↦ folded (a * b % 2 ^ 64)
      | int_sdiv ↦ if b == 0 then kept else signed_division (λ x y. quot x y) sa sb
      | int_udiv ↦ if b == 0 then kept else unsigned_division (λ x y. x / y) ua ub
      | int_srem ↦ if b == 0 then kept else signed_division (λ x y. rem x y) sa sb
      | int_urem ↦ if b == 0 then kept else unsigned_division (λ x y. x % y) ua ub
      | int_and ↦ folded (bit_and a b)
      | int_or ↦ folded (bit_or a b)
      | int_xor ↦ folded (bit_xor a b)
      | int_shl ↦ folded (a * 2 ^ s % 2 ^ 64)
      | int_lshr ↦ folded (ua / 2 ^ s)
      | int_ashr ↦ folded (to_bits 64 (shift_right sa s))
    ]

abbrev pub map_fold {ℓ κ} : {A : Type ℓ} {B : Type κ} → (A → B) → Fold A → Fold B
map_fold f kept = kept
map_fold f (folded a) = folded (f a)
map_fold f faults = faults

-- With the mask of the result, `rw` bits wide.
unfoldable pub fold_binary : IntOp → (rw sw a b : ℕ) → Fold ℕ
fold_binary op rw sw a b = map_fold (λ r. mask_to_width r rw) (fold_int op sw a b)

-- The conversions between integers of different widths.
unfoldable pub fold_conv : (op rw sw a : ℕ) → Fold ℕ
fold_conv op rw sw a =
    if op == op_trunc
    then folded (mask_to_width (mask_to_width a rw) rw)
    else if op == op_zext
    then folded (mask_to_width (mask_to_width a sw) rw)
    else if op == op_sext
    then folded (mask_to_width (sign_extend a sw) rw)
    else kept

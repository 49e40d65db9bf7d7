-- ===== src/Cfold/Values.antt =====
-- The integer folds of src/ir/bir_cfold.c against arithmetic on patterns of `w` bits.
use native.Mathlib.Decide.{ℕ_discrete}
use native.Mathlib.Nat.{
  zero-mod, one-le-pow, pow-suc, mod-lt, mod-eq_of_lt, add-mod, div-le_self, pow-le-pow_right,
  mod-add-mod, add-mod-mod,
}
use booth.Base.{
  ℕ, zero, suc, ◌+◌, ◌-◌, ◌*◌, ◌/◌, ◌%◌, ◌^◌, ◌<◌, ◌≤◌, ◌≡◌, refl, sym, ap, ◌∙◌, arith, bit_and,
  bit_or, bit_xor, bit_and_mask, Bool, true, false, ◌&&◌, ◌==◌, if◌then◌else◌, ℤ, signed,
  Bool-cases, inl, inr, pos, negsuc, mod-bit_and, mod-bit_or, mod-bit_xor, mod-mod_pow,
  mul-mod_both, mul-mod_one, complement-mod, ==_ne,
}
use booth.Cfold.Width.{mask_to_width, sign_extend}
use booth.Cfold.Extend.{mask_to_width_lem, sign_extend_lem}
use booth.Cfold.Ints.{
  Fold, kept, folded, IntOp, int_add, int_sub, int_mul, int_sdiv, int_udiv, int_srem, int_urem,
  int_and, int_or, int_xor, int_shl, int_lshr, int_ashr, to_bits, quot, rem, shift_right,
  is_minus_one, is_int64_min, is_zero_ℤ, signed_division, unsigned_division, fold_int, map_fold,
  fold_binary,
}

-- A signed division of patterns: none by zero, nor where no 64-bit number is the quotient.
unfoldable pub signed_value : (ℤ → ℤ → ℤ) → (w a b : ℕ) → Fold ℕ
signed_value f w a b =
    if b == 0
    then kept
    else if is_minus_one (signed w b) && is_int64_min (signed w a)
    then kept
    else folded (to_bits w (f (signed w a) (signed w b)))

-- What an operation gives on two patterns of `w` bits, for a `w` that is a power of two.
unfoldable pub int_value : IntOp → (w a b : ℕ) → Fold ℕ
unfolding signed_value
int_value int_add w a b = folded ((a + b) % 2 ^ w)
int_value int_sub w a b = folded ((a + (2 ^ w - b)) % 2 ^ w)
int_value int_mul w a b = folded (a * b % 2 ^ w)
int_value int_sdiv w a b = signed_value (λ x y. quot x y) w a b
int_value int_udiv w a b = if b == 0 then kept else folded (a / b)
int_value int_srem w a b = signed_value (λ x y. rem x y) w a b
int_value int_urem w a b = if b == 0 then kept else folded (a % b)
int_value int_and w a b = folded (bit_and a b)
int_value int_or w a b = folded (bit_or a b)
int_value int_xor w a b = folded (bit_xor a b)
int_value int_shl w a b = folded (a * 2 ^ (b % w) % 2 ^ w)
int_value int_lshr w a b = folded (a / 2 ^ (b % w))
int_value int_ashr w a b = folded (to_bits w (shift_right (signed w a) (b % w)))

fits_mod : (x : ℕ) → x < 2 ^ 64 → x % 2 ^ 64 ≡ x
fits_mod x h = mod-eq_of_lt h

module _ (w : ℕ) (high : w ≤ 64) where
  to_bits-mod : (z : ℤ) → to_bits 64 z % 2 ^ w ≡ to_bits w z
  to_bits-mod (pos n) = mod-mod_pow w 64 n high
  to_bits-mod (negsuc n) =
      complement-mod w 64 (n % 2 ^ 64) high (omega arith)
      ∙ ap (λ (t : ℕ). 2 ^ w - 1 - t) (mod-mod_pow w 64 n high)

  to_bits_fits : (z : ℤ) → to_bits 64 z < 2 ^ 64
  to_bits_fits (pos n) = omega arith
  to_bits_fits (negsuc n) = omega arith

  -- The mask of a result.
  masked : (r v : ℕ) → r < 2 ^ 64 → r % 2 ^ w ≡ v → mask_to_width r w ≡ v
  masked r v fits e = mask_to_width_lem r w fits high ∙ e

  pow_fits : 2 ^ w ≤ 2 ^ 64
  pow_fits = pow-le-pow_right (omega arith) {j = 64} high

  -- A result that is a pattern of the width already.
  masked_small : (r : ℕ) → r < 2 ^ w → mask_to_width r w ≡ r
  masked_small r h = masked r r (omega (arith, pow_fits)) (mod-eq_of_lt h)

  sub_mod :
      (a b : ℕ)
      → b < 2 ^ 64
      → (a + (2 ^ 64 - b)) % 2 ^ w ≡ (a % 2 ^ w + (2 ^ w - b % 2 ^ w)) % 2 ^ w
  sub_mod a b fits =
      let p = 2 ^ w in
      let x = 2 ^ 64 - 1 - b in
      let above : 0 < p = omega (arith, one-le-pow w 2) in
      let low = mod-lt b above in
      let flipped : x % p ≡ p - 1 - b % p = complement-mod w 64 b high fits in
      let left : a + (2 ^ 64 - b) ≡ a + 1 + x = omega arith in
      let right : a + 1 + x % p ≡ a + (p - b % p) = omega arith in
      rw left (
        sym (add-mod-mod (a + 1) x p)
        ∙ ap (λ (t : ℕ). t % p) right
        ∙ sym (mod-add-mod a p (p - b % p)))

-- The two divisions, once the guard on the divisor is on its low bits.
module _ (w : ℕ) (high : w ≤ 64) where
  divide_signed :
      (f : ℤ → ℤ → ℤ) (sa sb : ℤ) (z : Bool)
      → (is_zero_ℤ sb ≡ true → z ≡ true)
      → map_fold (λ r. mask_to_width r w) (if z then kept else signed_division f sa sb) ≡ (
          if z
          then kept
          else if is_minus_one sb && is_int64_min sa
          then kept
          else folded (to_bits w (f sa sb)))
  unfolding signed_division
  divide_signed f sa sb true h = refl
  divide_signed f sa sb false h = elim (Bool-cases (is_minus_one sb && is_int64_min sa)) [
    | inl e ↦ rw e
    | inr e ↦ elim (Bool-cases (is_zero_ℤ sb)) [
      | inl zero_div ↦ absurd (cc (h zero_div))
      | inr some_div ↦
          rw (e, some_div)
            (ap folded (
              masked w high (to_bits 64 (f sa sb)) _ (to_bits_fits w high (f sa sb))
                (to_bits-mod w high (f sa sb))))
    ]
  ]

  divide_unsigned :
      (f : ℕ → ℕ → ℕ) (ua ub : ℕ)
      → (0 < ub → f ua ub < 2 ^ w)
      → map_fold (λ r. mask_to_width r w) (if ub == 0 then kept else unsigned_division f ua ub)
        ≡ (if ub == 0 then kept else folded (f ua ub))
  unfolding unsigned_division
  divide_unsigned f ua ub small = elim (Bool-cases (ub == 0)) [
    | inl e ↦ rw e
    | inr e ↦ rw e (ap folded (masked_small w high (f ua ub) (small (ground arith))))
  ]

lt_pow : (k : ℕ) → k < 2 ^ k
lt_pow zero = omega arith
lt_pow (suc k) = omega (arith, lt_pow k, pow-suc 2 k)

is_zero-signed : (w b : ℕ) → is_zero_ℤ (signed w b) ≡ true → b ≡ 0
is_zero-signed w b h = ground arith

module _ (w k a b : ℕ) (width : w ≡ 2 ^ k) (high : k ≤ 6) (fits_a : a < 2 ^ 64)
    (fits_b : b < 2 ^ 64) (divides : b % 2 ^ w ≡ 0 → b ≡ 0) where
  w_high : w ≤ 64
  w_high = omega (arith, width, pow-le-pow_right (let h : 1 ≤ 2 = omega arith in h) {j = 6} high)

  w_low : 1 ≤ w
  w_low = omega (arith, width, one-le-pow k 2)

  -- The guards on the two forms of the divisor agree.
  same_zero : (b == 0) ≡ (b % 2 ^ w == 0)
  same_zero = elim (ℕ_discrete b 0) [
    | yes e ↦ rw e (sym (rw (zero-mod (2 ^ w)) refl))
    | no n ↦ ==_ne b 0 n ∙ sym (==_ne (b % 2 ^ w) 0 (λ z. n (divides z)))
  ]

  divide :
      (f : ℤ → ℤ → ℤ)
      → map_fold
          (λ r. mask_to_width r w)
          (if b == 0
            then kept
            else signed_division f (signed 64 (sign_extend a w)) (signed 64 (sign_extend b w)))
        ≡ signed_value f w (a % 2 ^ w) (b % 2 ^ w)
  unfolding signed_value
  divide f =
      let sa = sign_extend_lem a w fits_a w_low w_high in
      let sb = sign_extend_lem b w fits_b w_low w_high in
      rw (sa, sb, same_zero)
        (divide_signed w w_high f (signed w (a % 2 ^ w)) (signed w (b % 2 ^ w)) (b % 2 ^ w == 0)
          (λ h. rw (is_zero-signed w (b % 2 ^ w) h) refl))

  shift : bit_and b (w - 1) ≡ b % 2 ^ w % w
  shift =
      ap (λ (v : ℕ). bit_and b (v - 1)) width
      ∙ bit_and_mask k b
      ∙ sym (mod-mod_pow k w b (omega (arith, width, lt_pow k)))
      ∙ ap (λ (v : ℕ). b % 2 ^ w % v) (sym width)

  stays :
      (op : ℕ → ℕ → ℕ)
      → ((x y : ℕ) → op (x % 2 ^ 64) (y % 2 ^ 64) ≡ op x y % 2 ^ 64)
      → op a b < 2 ^ 64
  stays op h =
      let same = rw (fits_mod a fits_a, fits_mod b fits_b) at (h a b) in
      omega (arith, mod-lt (op a b) {m = 2 ^ 64} (omega arith))

  divide_pattern :
      (f : ℕ → ℕ → ℕ)
      → ((x y : ℕ) → x < 2 ^ w → y < 2 ^ w → 0 < y → f x y < 2 ^ w)
      → map_fold
          (λ r. mask_to_width r w)
          (if b == 0 then kept else unsigned_division f (mask_to_width a w) (mask_to_width b w))
        ≡ (if b % 2 ^ w == 0 then kept else folded (f (a % 2 ^ w) (b % 2 ^ w)))
  divide_pattern f small =
      let above : 0 < 2 ^ w = omega (arith, one-le-pow w 2) in
      rw (mask_to_width_lem a w fits_a w_high, mask_to_width_lem b w fits_b w_high, same_zero)
        (divide_unsigned w w_high f (a % 2 ^ w) (b % 2 ^ w)
          (small (a % 2 ^ w) (b % 2 ^ w) (mod-lt a above) (mod-lt b above)))

  -- For a width of 1, 2, 4, up to 64 bits, operands given as 64-bit patterns, and a divisor
  -- that is 0 if its low bits are, the fold of an integer operation gives what the operation
  -- gives on the low bits of the operands: wrapping sums, differences and products, quotients
  -- and remainders of the numbers they stand for in two's complement or of the patterns,
  -- bitwise operations, and shifts by the amount modulo the width; a division by zero, and one
  -- whose quotient no 64-bit number is, are left alone.
  pub fold_binary_lem :
      (op : IntOp) → fold_binary op w w a b ≡ int_value op w (a % 2 ^ w) (b % 2 ^ w)
  unfolding fold_binary fold_int int_value
  fold_binary_lem int_add =
      ap folded
        (masked w w_high _ _ (omega arith) (mod-mod_pow w 64 (a + b) w_high ∙ add-mod a b (2 ^ w)))
  fold_binary_lem int_sub = ap folded (
      masked w w_high _ _ (omega arith)
        (mod-mod_pow w 64 (a + (2 ^ 64 - b)) w_high ∙ sub_mod w w_high a b fits_b))
  fold_binary_lem int_mul = ap folded (
      masked w w_high _ _ (omega arith)
        (mod-mod_pow w 64 (a * b) w_high ∙ sym (mul-mod_both a b (2 ^ w))))
  fold_binary_lem int_sdiv = divide (λ x y. quot x y)
  fold_binary_lem int_udiv =
      divide_pattern (λ x y. x / y) (λ x y hx hy pos_y. omega (arith, div-le_self x y))
  fold_binary_lem int_srem = divide (λ x y. rem x y)
  fold_binary_lem int_urem =
      divide_pattern (λ x y. x % y) (λ x y hx hy pos_y. omega (arith, mod-lt x pos_y))
  fold_binary_lem int_and =
      ap folded
        (masked w w_high _ _ (stays bit_and (λ x y. mod-bit_and 64 x y)) (sym (mod-bit_and w a b)))
  fold_binary_lem int_or =
      ap folded
        (masked w w_high _ _ (stays bit_or (λ x y. mod-bit_or 64 x y)) (sym (mod-bit_or w a b)))
  fold_binary_lem int_xor =
      ap folded
        (masked w w_high _ _ (stays bit_xor (λ x y. mod-bit_xor 64 x y)) (sym (mod-bit_xor w a b)))
  fold_binary_lem int_shl =
      let s = b % 2 ^ w % w in
      rw shift (
        ap folded (
          masked w w_high _ _ (omega arith)
            (mod-mod_pow w 64 (a * 2 ^ s) w_high ∙ sym (mul-mod_one a (2 ^ s) (2 ^ w)))))
  fold_binary_lem int_lshr =
      let s = b % 2 ^ w % w in
      let above : 0 < 2 ^ w = omega (arith, one-le-pow w 2) in
      rw (shift, mask_to_width_lem a w fits_a w_high)
        (ap folded (
          masked_small w w_high (a % 2 ^ w / 2 ^ s)
            (omega (arith, div-le_self (a % 2 ^ w) (2 ^ s), mod-lt a above))))
  fold_binary_lem int_ashr =
      let v = shift_right (signed w (a % 2 ^ w)) (b % 2 ^ w % w) in
      rw (shift, sign_extend_lem a w fits_a w_low w_high)
        (ap folded
          (masked w w_high (to_bits 64 v) _ (to_bits_fits w w_high v) (to_bits-mod w w_high v)))

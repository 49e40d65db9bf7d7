-- ===== src/SoftFp/Product.antt =====
-- `__mulsf3` of runtime/device/soft_fp.c on two normal numbers rounds the exact product, and
-- `__floatunsisf` rounds the integer.
use native.Mathlib.Nat.{one-le-pow, mul-le-mul, mul-lt-mul_of_pos_right, div-lt_iff_lt-mul, pow-suc}
use booth.Base.{
  ℕ, zero, suc, ◌+◌, ◌-◌, ◌*◌, ◌/◌, ◌%◌, ◌^◌, ◌≤◌, ◌<◌, ◌≡◌, arith, bit_and, bit_and_mask, true,
  false, ◌==◌, differ, Bool-cases, inl, inr, ==_ne, ℤ, pos, sub_ℕ, ◌+ℤ◌,
}
use booth.SoftFp.Format.{sfp_unpack}
use booth.SoftFp.Codec.{sign_of, biased_of, fraction_of, number, sfp_unpack_lem}
use booth.SoftFp.Rounding.{Rounds, sfp_round_normal-Rounds}
use booth.SoftFp.Loops.{pow_split, shift_test, shift_above}
use booth.SoftFp.Subtract.{is_normal}
use booth.SoftFp.Arith.{mulsf3}
use booth.SoftFp.Convert.{find_top, sfp_uint_to_float, floatunsisf}

-- A normal pattern's significand and exponent.
abbrev pub significand : ℕ → ℕ
significand b = fraction_of b + 2 ^ 23

abbrev pub exponent : ℕ → ℤ
exponent b = sub_ℕ (biased_of b) 127

pub sfp_unpack-normal :
    (b : ℕ)
    → b < 2 ^ 32
    → is_normal b ≡ true
    → sfp_unpack b ≡ number (sign_of b) (exponent b) (significand b)
sfp_unpack-normal b h n =
    let top : biased_of b == 255 ≡ false = ground arith in
    let bottom : biased_of b == 0 ≡ false = ground arith in rw (sfp_unpack_lem b h, top, bottom)

product-lt : (x y : ℕ) → x < 2 ^ 24 → y < 2 ^ 24 → x * y < 2 ^ 48
product-lt x y hx hy =
    let h : x * y ≤ (2 ^ 24 - 1) * (2 ^ 24 - 1) =
      mul-le-mul {n₂ = 2 ^ 24 - 1} {m₂ = 2 ^ 24 - 1} (omega arith) (omega arith) in
    omega arith

-- The product of two normal numbers is their exact product, rounded to nearest, ties to even,
-- and packed with the sign and exponent that belong to it.
pub mulsf3-Rounds :
    (a b : ℕ)
    → a < 2 ^ 32
    → b < 2 ^ 32
    → is_normal a ≡ true
    → is_normal b ≡ true
    → Rounds
        (differ (sign_of a) (sign_of b))
        (exponent a +ℤ exponent b)
        (significand a * significand b)
        23
        (mulsf3 a b)
unfolding mulsf3
mulsf3-Rounds a b ha hb na nb =
    rw (sfp_unpack-normal a ha na, sfp_unpack-normal b hb nb)
      (sfp_round_normal-Rounds (differ (sign_of a) (sign_of b)) (exponent a +ℤ exponent b)
        (significand a * significand b) 23 (grind arith) (omega arith) (omega arith)
        (product-lt (significand a) (significand b) (omega arith) (omega arith)))

product-pos : (x y : ℕ) → 0 < x → 0 < y → 0 < x * y
product-pos x y hx hy = grind arith

-- The loop stops at the leading bit.
find_top_lem :
    (v top : ℕ)
    → 0 < v
    → v < 2 ^ suc top
    → (2 ^ find_top v top ≤ v) × (v < 2 ^ suc (find_top v top)) × (find_top v top ≤ top)
unfolding find_top
find_top_lem v zero p h = (omega arith, h, omega arith)
find_top_lem v (suc top) p h =
    let u = 2 ^ suc top in
    let u_pos : 0 < u = one-le-pow (suc top) 2 (omega arith) in
    let digit : v / u < 2 = (div-lt_iff_lt-mul u_pos).1 (omega (arith, pow-suc 2 (suc top))) in
    let low : bit_and (v / u) 1 ≡ v / u = omega (arith, bit_and_mask 1 (v / u)) in
    elim (Bool-cases (v / u == 0)) [
      | inl z ↦
          let (lo, hi, le) = find_top_lem v top p (shift_test v u u_pos z) in
          rw (low, z, find_top) (lo, hi, omega arith)
      | inr nz ↦ rw (low, nz, find_top) (shift_above v u nz, h, omega arith)
    ]

-- A 32-bit unsigned integer that is not 0 becomes the float nearest to it, ties to even, with
-- the position of its leading bit as exponent.
pub floatunsisf-Rounds :
    (v : ℕ)
    → 0 < v
    → v < 2 ^ 32
    → (top : ℕ) × (2 ^ top ≤ v)
      × (v < 2 ^ suc top)
      × Rounds false (pos top) (v * 2 ^ (47 - top)) 24 (floatunsisf v)
unfolding floatunsisf sfp_uint_to_float
floatunsisf-Rounds v p h =
    let t = find_top v 31 in
    let (lo, hi, le) = find_top_lem v 31 p h in
    let scaled : v * 2 ^ (47 - t) < 2 ^ suc t * 2 ^ (47 - t) =
      mul-lt-mul_of_pos_right hi (one-le-pow (47 - t) 2 (omega arith)) in
    let total : 2 ^ suc t * 2 ^ (47 - t) ≡ 2 ^ 48 = pow_split (suc t) (47 - t) 48 (omega arith) in
    let bound : v * 2 ^ (47 - t) < 2 ^ 48 = rw (← total) scaled in
    let whole : v * 2 ^ (47 - t) % 2 ^ 64 ≡ v * 2 ^ (47 - t) = omega arith in
    let some_bit : 0 < v * 2 ^ (47 - t) =
      product-pos v (2 ^ (47 - t)) p (one-le-pow (47 - t) 2 (omega arith)) in
    (
      t,
      lo,
      hi,
      rw (==_ne v 0 (omega arith), whole)
          (sfp_round_normal-Rounds false (pos t) (v * 2 ^ (47 - t)) 24 some_bit (omega arith)
            (omega arith) (omega arith)),
    )

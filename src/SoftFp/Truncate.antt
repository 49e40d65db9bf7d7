-- ===== src/SoftFp/Truncate.antt =====
-- `__fixsfsi` and `__fixunssfsi` of runtime/device/soft_fp.c truncate toward zero.
use native.Mathlib.Nat.{one-le-pow, mul-le-mul, mul-div-mul_right, pow-le-pow_right}
use native.Mathlib.Decide.{dec_lt}
use booth.Base.{
  ℕ, ◌-◌, ◌*◌, ◌/◌, ◌^◌, ◌≤◌, ◌<◌, ◌≡◌, ap, arith, Bool, Bool-cases, inl, inr, true, false, ltb,
  leb, if◌then◌else◌, pos, sub_ℕ,
}
use booth.SoftFp.Codec.{sign_of, biased_of, number}
use booth.SoftFp.Subtract.{is_normal}
use booth.SoftFp.Product.{significand, exponent, sfp_unpack-normal}
use booth.SoftFp.Loops.{pow_split}
use booth.SoftFp.Convert.{magnitude, fixsfsi, fixunssfsi, int_min, int_max}

-- `significand * 2 ^ e / 2 ^ 23`, for a biased exponent of 127 or more: the integer part.
abbrev pub integer_part : ℕ → ℕ
integer_part b = significand b * 2 ^ (biased_of b - 127) / 2 ^ 23

magnitude_lem :
    (s : Bool) (m e : ℕ) → m < 2 ^ 24 → e < 32 → magnitude (number s (pos e) m) ≡ m * 2 ^ e / 2 ^ 23
unfolding magnitude
magnitude_lem s m e hm he = elim (dec_lt e 23) [
  | yes p ↦
      let split : 2 ^ (23 - e) * 2 ^ e ≡ 2 ^ 23 = pow_split (23 - e) e 23 (omega arith) in
      let small : leb 23 e ≡ false = ground arith in
      let whole : m * 2 ^ e / 2 ^ 23 ≡ m / 2 ^ (23 - e) =
        rw (← split) (mul-div-mul_right m (2 ^ (23 - e)) (one-le-pow e 2 (omega arith))) in
      rw whole (ground arith)
  | no p ↦
      let split : 2 ^ (e - 23) * 2 ^ 23 ≡ 2 ^ e = pow_split (e - 23) 23 e (omega arith) in
      let room : 2 ^ (e - 23) ≤ 2 ^ 8 = pow-le-pow_right (omega arith) {j = 8} (omega arith) in
      let bound : m * 2 ^ (e - 23) ≤ (2 ^ 24 - 1) * 2 ^ 8 =
        mul-le-mul {n₂ = 2 ^ 24 - 1} {m₂ = 2 ^ 8} (omega arith) room in
      let whole : m * 2 ^ e / 2 ^ 23 ≡ m * 2 ^ (e - 23) =
        omega (arith, ap (λ (t : ℕ). m * t) split) in
      rw whole (ground arith)
]

-- On a normal number the unsigned conversion gives 0 for a negative one and below 1, the
-- largest value from 2 ^ 32 on, and between them the integer part.
pub fixunssfsi_lem :
    (b : ℕ)
    → b < 2 ^ 32
    → is_normal b ≡ true
    → fixunssfsi b ≡ (
        if sign_of b
        then 0
        else if ltb (biased_of b) 127
        then 0
        else if leb 159 (biased_of b)
        then 0xffffffff
        else integer_part b)
unfolding fixunssfsi
fixunssfsi_lem b h n = rw (sfp_unpack-normal b h n) (elim (Bool-cases (ltb (biased_of b) 127)) [
  | inl low ↦ rw low (ground arith)
  | inr high ↦
      let e : exponent b ≡ pos (biased_of b - 127) = ground arith in
      rw (e, high) (ground (arith, magnitude_lem (sign_of b) (significand b) (biased_of b - 127)))
])

-- On a normal number the signed conversion gives 0 below 1, the clamp of its sign from 2 ^ 31
-- on, and between them the integer part with the sign.
pub fixsfsi_lem :
    (b : ℕ)
    → b < 2 ^ 32
    → is_normal b ≡ true
    → fixsfsi b ≡ (
        if ltb (biased_of b) 127
        then pos 0
        else if leb 158 (biased_of b)
        then (if sign_of b then int_min else int_max)
        else if sign_of b
        then sub_ℕ 0 (integer_part b)
        else pos (integer_part b))
unfolding fixsfsi
fixsfsi_lem b h n = rw (sfp_unpack-normal b h n) (elim (Bool-cases (ltb (biased_of b) 127)) [
  | inl low ↦ rw low (ground arith)
  | inr high ↦
      let e : exponent b ≡ pos (biased_of b - 127) = ground arith in
      rw (e, high) (ground (arith, magnitude_lem (sign_of b) (significand b) (biased_of b - 127)))
])

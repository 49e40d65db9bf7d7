-- ===== src/SoftFp/Nearest.antt =====
-- The rounding step of `sfp_round_normal` in runtime/device/soft_fp.c is round to nearest, ties to
-- even.
use native.Mathlib.Nat.{
  pow-suc, one-le-pow, div-div-eq-div-mul, mod-lt, div-add-mod', div-lt_iff_lt-mul,
  le-div_iff_mul-le,
}
use mathlib.Core.Path.{subst₂}
use booth.Base.{
  ℕ, zero, suc, ◌+◌, ◌-◌, ◌*◌, ◌/◌, ◌%◌, ◌^◌, ◌≤◌, ◌<◌, ◌≡◌, sym, ap, arith, bit_and_mask,
  bit_and_bit, ◌==◌, if◌then◌else◌, ◌&&◌, ◌||◌, not, Bool-cases, inl, inr, ◌⊎◌,
}
use booth.SoftFp.Round.{kept, rounds_up}

-- `r` units of `unit` are nearest to `wide`, and of two equally near `r` is the even one.
pub record IsNearestEven (wide unit r : ℕ) : Type 0 where
  pub above : 2 * wide ≤ 2 * (r * unit) + unit
  pub below : 2 * (r * unit) ≤ 2 * wide + unit
  pub tie : (2 * wide ≡ 2 * (r * unit) + unit) ⊎ (2 * (r * unit) ≡ 2 * wide + unit) → r % 2 ≡ 0

unfoldable pub rounded : ℕ → ℕ → ℕ
rounded wide k = kept wide k + (if rounds_up wide k then 1 else 0)

digit_test : (d u : ℕ) → d < 2 → 0 < u → d * u == 0 ≡ d == 0
digit_test zero u h p = ground arith
digit_test (suc zero) u h p = ground arith
digit_test (suc (suc d)) u h p = absurd (omega arith)

abbrev bump : (round_bit low q : ℕ) → ℕ
bump round_bit low q = if not (round_bit == 0) && (not (low == 0) || not (q % 2 == 0)) then 1 else 0

-- The 24 bits and the test in arithmetic: the round bit is set, and a bit below it or the lowest
-- bit kept is.
rounded_lem :
    (wide j : ℕ)
    → wide / 2 ^ suc j < 2 ^ 32
    → rounded wide (suc j)
      ≡ wide / 2 ^ suc j + bump (wide / 2 ^ j % 2) (wide % 2 ^ j) (wide / 2 ^ suc j)
unfolding rounded rounds_up kept
rounded_lem wide j h =
    let e : suc j - 1 ≡ j = omega arith in
    let keep : wide / 2 ^ suc j % 2 ^ 32 ≡ wide / 2 ^ suc j = omega arith in
    rw (
      e,
      bit_and_bit j wide,
      bit_and_mask j wide,
      keep,
      bit_and_mask 1 (wide / 2 ^ suc j),
      digit_test (wide / 2 ^ j % 2) (2 ^ j) (omega arith) (one-le-pow j 2 (omega arith)),
    )

split_digit : (x u : ℕ) → x * u ≡ 2 * (x / 2 * u) + x % 2 * u
split_digit x u =
    let e : x ≡ 2 * (x / 2) + x % 2 = omega arith in omega (arith, ap (λ (t : ℕ). t * u) e)

nearest_of_digits :
    (unit q c low : ℕ)
    → c < 2
    → low < unit
    → IsNearestEven (2 * (q * unit) + c * unit + low) (unit * 2) (q + bump c low q)
nearest_of_digits unit q zero low hc hl = record {
  above = omega arith;
  below = omega arith;
  tie = λ t. absurd (omega arith);
}
nearest_of_digits unit q (suc zero) low hc hl = elim (Bool-cases (low == 0)) [
  | inl z ↦ elim (Bool-cases (q % 2 == 0)) [
    | inl even ↦
        rw (z, even)
          (record { above = ground arith; below = ground arith; tie = λ t. ground arith })
    | inr odd ↦
        rw (z, odd) (record { above = ground arith; below = ground arith; tie = λ t. ground arith })
  ]
  | inr nz ↦
      rw nz
        (record { above = ground arith; below = ground arith; tie = λ t. absurd (ground arith) })
]
nearest_of_digits unit q (suc (suc c)) low hc hl = absurd (omega arith)

nearest_at_suc :
    (wide j : ℕ) → wide / 2 ^ suc j < 2 ^ 32 → IsNearestEven wide (2 ^ suc j) (rounded wide (suc j))
nearest_at_suc wide j h =
    let unit = 2 ^ j in
    let half : wide / unit / 2 ≡ wide / 2 ^ suc j =
      rw (pow-suc 2 j) (div-div-eq-div-mul wide unit 2) in
    let whole : wide ≡ 2 * (wide / 2 ^ suc j * unit) + wide / unit % 2 * unit + wide % unit =
      rw (← half) (omega (arith, div-add-mod' wide unit, split_digit (wide / unit) unit)) in
    let q = wide / 2 ^ suc j in
    let r = q + bump (wide / unit % 2) (wide % unit) q in
    rw (rounded_lem wide j h) (
      subst₂ (λ w u. IsNearestEven w u r) (sym whole) (sym (pow-suc 2 j))
        (nearest_of_digits unit q (wide / unit % 2) (wide % unit) (omega arith)
          (mod-lt wide (one-le-pow j 2 (omega arith)))))

pub rounded-IsNearestEven :
    (wide k : ℕ) → 0 < k → wide / 2 ^ k < 2 ^ 32 → IsNearestEven wide (2 ^ k) (rounded wide k)
rounded-IsNearestEven wide zero p h = absurd (omega arith)
rounded-IsNearestEven wide (suc j) p h = nearest_at_suc wide j h

-- A mantissa of 24 bits above the cut is rounded to one of 24 bits, or to 2 ^ 24.
pub rounded-bounds :
    (wide k : ℕ)
    → 2 ^ 23 * 2 ^ k ≤ wide
    → wide < 2 ^ 24 * 2 ^ k
    → (2 ^ 23 ≤ rounded wide k) × (rounded wide k ≤ 2 ^ 24) × (wide / 2 ^ k < 2 ^ 32)
unfolding rounded kept
rounded-bounds wide k lo hi =
    let pos = one-le-pow k 2 (omega arith) in
    let low : 2 ^ 23 ≤ wide / 2 ^ k = (le-div_iff_mul-le pos).1 lo in
    let high : wide / 2 ^ k < 2 ^ 24 = (div-lt_iff_lt-mul pos).1 hi in ground arith

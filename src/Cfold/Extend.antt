-- ===== src/Cfold/Extend.antt =====
-- Masking and sign extension of src/ir/bir_cfold.c keep the value of the low bits.
use native.Mathlib.Nat.{one-le-pow, pow-suc, pow-le-pow_right, div-eq_of_lt, div-eq_of_lt-le}
use native.Mathlib.Decide.{dec_lt}
use booth.Base.{
  ℕ, zero, suc, ◌+◌, ◌-◌, ◌*◌, ◌/◌, ◌%◌, ◌^◌, ◌<◌, ◌≤◌, ◌≡◌, refl, sym, ap, ◌∙◌, arith, bit_xor,
  bit_and_mask, bit_xor_bit, Bool, true, false, not, ◌==◌, ltb, leb, ltb_ℤ, leb_ℤ, ℤ, signed,
  Bool-cases, inl, inr, pos, negsuc,
}
use booth.Cfold.Width.{
  mask_to_width, sign_extend, IcmpPred, icmp_eq, icmp_ne, icmp_slt, icmp_sle, icmp_sgt, icmp_sge,
  icmp_ult, icmp_ule, icmp_ugt, icmp_uge, fold_icmp,
}

pub mask_to_width_lem : (val w : ℕ) → val < 2 ^ 64 → w ≤ 64 → mask_to_width val w ≡ val % 2 ^ w
unfolding mask_to_width
mask_to_width_lem val w fits h = elim (Bool-cases (leb 64 w)) [
  | inl e ↦ let full : w ≡ 64 = ground arith in rw (full) (omega arith)
  | inr e ↦ rw e (bit_and_mask w val)
]

upper_half : (p r : ℕ) → p ≤ r → r < 2 * p → r / p ≡ 1
upper_half p r low high = div-eq_of_lt-le p (omega arith) (omega arith)

-- Flipping the sign bit `p` of a number below twice it.
flip_low : (k r : ℕ) → r < 2 ^ k → bit_xor r (2 ^ k) ≡ r + 2 ^ k
flip_low k r h = ground (arith, bit_xor_bit k r, div-eq_of_lt h)

flip_high : (k r : ℕ) → 2 ^ k ≤ r → r < 2 * 2 ^ k → bit_xor r (2 ^ k) + 2 ^ k ≡ r
flip_high k r low high = ground (arith, bit_xor_bit k r, upper_half (2 ^ k) r low high)

-- The bit taken off moves the upper half below 0.
move_low :
    (p r x : ℕ) → r < p → p ≤ 2 ^ 62 → x ≡ r + p → signed 64 ((x + (2 ^ 64 - p)) % 2 ^ 64) ≡ pos r
move_low p r x h top e = ground arith

move_high :
    (p r x : ℕ)
    → p ≤ r
    → r < 2 * p
    → p ≤ 2 ^ 62
    → x + p ≡ r
    → signed 64 ((x + (2 ^ 64 - p)) % 2 ^ 64) ≡ negsuc (2 * p - r - 1)
move_high p r x low high top e =
    let v : (x + (2 ^ 64 - p)) % 2 ^ 64 ≡ x + (2 ^ 64 - p) = omega arith in
    let far : ltb (x + (2 ^ 64 - p)) (2 ^ 63) ≡ false = ground arith in
    rw (v, far) (ap negsuc (omega arith))

sign_extend_unfolded :
    (k val : ℕ)
    → k < 63
    → sign_extend val (suc k) ≡ (bit_xor (val % 2 ^ suc k) (2 ^ k) + (2 ^ 64 - 2 ^ k)) % 2 ^ 64
unfolding sign_extend mask_to_width
sign_extend_unfolded k val h =
    let short : leb 64 (suc k) ≡ false = ground arith in
    let before : suc k - 1 ≡ k = omega arith in rw (short, before, bit_and_mask (suc k) val) refl

signed_low : (k r : ℕ) → r < 2 ^ k → signed (suc k) r ≡ pos r
signed_low k r h =
    let before : suc k - 1 ≡ k = omega arith in
    let below : ltb r (2 ^ k) ≡ true = ground arith in rw (before, below) refl

signed_high : (k r : ℕ) → 2 ^ k ≤ r → signed (suc k) r ≡ negsuc (2 * 2 ^ k - r - 1)
signed_high k r h =
    let before : suc k - 1 ≡ k = omega arith in
    let above : ltb r (2 ^ k) ≡ false = ground arith in
    rw (before, above) (ap negsuc (omega (arith, pow-suc 2 k)))

extend_small :
    (k val : ℕ) → k < 63 → signed 64 (sign_extend val (suc k)) ≡ signed (suc k) (val % 2 ^ suc k)
extend_small k val h =
    let r = val % 2 ^ suc k in
    let top : 2 ^ k ≤ 2 ^ 62 = pow-le-pow_right (omega arith) {j = 62} (omega arith) in
    let high : r < 2 * 2 ^ k = omega (arith, pow-suc 2 k, one-le-pow k 2) in
    rw (sign_extend_unfolded k val h) (elim (dec_lt r (2 ^ k)) [
      | yes p ↦
          move_low (2 ^ k) r (bit_xor r (2 ^ k)) p top (flip_low k r p) ∙ sym (signed_low k r p)
      | no q ↦
          let low : 2 ^ k ≤ r = omega arith in
          move_high (2 ^ k) r (bit_xor r (2 ^ k)) low high top (flip_high k r low high)
          ∙ sym (signed_high k r low)
    ])

-- For a width of 1 to 64 bits the sign extension of a 64-bit pattern stands, as a 64-bit number
-- in two's complement, for the number that its low bits stand for.
pub sign_extend_lem :
    (val w : ℕ)
    → val < 2 ^ 64
    → 1 ≤ w
    → w ≤ 64
    → signed 64 (sign_extend val w) ≡ signed w (val % 2 ^ w)
unfolding sign_extend
sign_extend_lem val zero fits low high = absurd (omega arith)
sign_extend_lem val (suc k) fits low high = elim (Bool-cases (leb 64 (suc k))) [
  | inl e ↦ let full : suc k ≡ 64 = ground arith in rw full (ap (signed 64) (omega arith))
  | inr e ↦ extend_small k val (ground arith)
]

-- What a predicate says of two patterns of `w` bits.
pub icmp : IcmpPred → (w a b : ℕ) → Bool
icmp icmp_eq w a b = a == b
icmp icmp_ne w a b = not (a == b)
icmp icmp_slt w a b = ltb_ℤ (signed w a) (signed w b)
icmp icmp_sle w a b = leb_ℤ (signed w a) (signed w b)
icmp icmp_sgt w a b = ltb_ℤ (signed w b) (signed w a)
icmp icmp_sge w a b = leb_ℤ (signed w b) (signed w a)
icmp icmp_ult w a b = ltb a b
icmp icmp_ule w a b = leb a b
icmp icmp_ugt w a b = ltb b a
icmp icmp_uge w a b = leb b a

module _ (w a b : ℕ) (low : 1 ≤ w) (high : w ≤ 64) (fits_a : a < 2 ^ 64) (fits_b : b < 2 ^ 64) where
  unsigned_test :
      (f : ℕ → ℕ → Bool) → f (mask_to_width a w) (mask_to_width b w) ≡ f (a % 2 ^ w) (b % 2 ^ w)
  unsigned_test f = rw (mask_to_width_lem a w fits_a high, mask_to_width_lem b w fits_b high) refl

  signed_test :
      (f : ℤ → ℤ → Bool)
      → f (signed 64 (sign_extend a w)) (signed 64 (sign_extend b w))
        ≡ f (signed w (a % 2 ^ w)) (signed w (b % 2 ^ w))
  signed_test f =
      ap (λ x. f x (signed 64 (sign_extend b w))) (sign_extend_lem a w fits_a low high)
      ∙ ap (f (signed w (a % 2 ^ w))) (sign_extend_lem b w fits_b low high)

  -- For operands of 1 to 64 bits, given as 64-bit patterns, folding an integer comparison gives
  -- what the predicate says of the low bits: of the numbers they stand for in two's complement
  -- for the signed predicates, of the patterns for the others.
  pub fold_icmp_lem : (p : IcmpPred) → fold_icmp p w a b ≡ icmp p w (a % 2 ^ w) (b % 2 ^ w)
  unfolding fold_icmp icmp
  fold_icmp_lem icmp_eq = unsigned_test (λ x y. x == y)
  fold_icmp_lem icmp_ne = unsigned_test (λ x y. not (x == y))
  fold_icmp_lem icmp_slt = signed_test (λ x y. ltb_ℤ x y)
  fold_icmp_lem icmp_sle = signed_test (λ x y. leb_ℤ x y)
  fold_icmp_lem icmp_sgt = signed_test (λ x y. ltb_ℤ y x)
  fold_icmp_lem icmp_sge = signed_test (λ x y. leb_ℤ y x)
  fold_icmp_lem icmp_ult = unsigned_test (λ x y. ltb x y)
  fold_icmp_lem icmp_ule = unsigned_test (λ x y. leb x y)
  fold_icmp_lem icmp_ugt = unsigned_test (λ x y. ltb y x)
  fold_icmp_lem icmp_uge = unsigned_test (λ x y. leb y x)

-- ===== src/Cfold/Faults.antt =====
-- When the folding of src/ir/bir_cfold.c divides by zero on the compiling machine: its guards test
-- the divisor as it is stored, and the division is by its low bits.
use native.Mathlib.Nat.{one-le-pow, pow-le-pow_right}
use native.Mathlib.Decide.{ℕ_discrete}
use booth.Base.{
  ℕ, ◌%◌, ◌^◌, ◌<◌, ◌≤◌, ◌≡◌, ◌≢◌, ◌↔◌, refl, sym, ap, ◌∙◌, arith, pos, signed, ==_ne, lt→ltb, ◌-◌,
}
use booth.Cfold.Width.{mask_to_width, sign_extend}
use booth.Cfold.Extend.{mask_to_width_lem, sign_extend_lem}
use booth.Cfold.Ints.{
  faults, IntOp, int_add, int_sdiv, int_udiv, int_srem, int_urem, fold_binary, fold_int,
  signed_division, unsigned_division,
}
use booth.Cfold.Values.{int_value, signed_value, fold_binary_lem}

abbrev pub IsDivision : IntOp → Type 0
IsDivision int_sdiv = Unit
IsDivision int_udiv = Unit
IsDivision int_srem = Unit
IsDivision int_urem = Unit
IsDivision _ = ⊥

-- Arithmetic on patterns divides by nothing.
int_value-ne-faults : (op : IntOp) (w a b : ℕ) → int_value op w a b ≢ faults
unfolding int_value signed_value
int_value-ne-faults int_add w a b h = ground arith
int_value-ne-faults _ w a b h = ground arith

module _ (w k a b : ℕ) (width : w ≡ 2 ^ k) (high : k ≤ 6) (fits_a : a < 2 ^ 64)
    (fits_b : b < 2 ^ 64) where
  divides_zero : (op : IntOp) → fold_binary op w w a b ≡ faults → (b ≢ 0) × (b % 2 ^ w ≡ 0)
  divides_zero op h = elim (ℕ_discrete b 0) [
    | yes e ↦ absurd (
        int_value-ne-faults op w _ _
          (sym (fold_binary_lem w k a b width high fits_a fits_b (λ _. e) op) ∙ h))
    | no n ↦ elim (ℕ_discrete (b % 2 ^ w) 0) [
      | yes z ↦ (n, z)
      | no m ↦ absurd (
          int_value-ne-faults op w _ _
            (sym (fold_binary_lem w k a b width high fits_a fits_b (λ z. absurd (m z)) op) ∙ h))
    ]
  ]

  division : (op : IntOp) → fold_binary op w w a b ≡ faults → IsDivision op
  unfolding fold_binary fold_int
  division int_sdiv h = tt
  division int_udiv h = tt
  division int_srem h = tt
  division int_urem h = tt
  division _ h = absurd (cc h)

  module _ (some_div : b ≢ 0) (zero_div : b % 2 ^ w ≡ 0) where
    w_high : w ≤ 64
    w_high = omega (arith, width, pow-le-pow_right (let h : 1 ≤ 2 = omega arith in h) {j = 6} high)

    w_low : 1 ≤ w
    w_low = omega (arith, width, one-le-pow k 2)

    signed_zero : signed 64 (sign_extend b w) ≡ pos 0
    signed_zero =
        sign_extend_lem b w fits_b w_low w_high
        ∙ ap (signed w) zero_div
        ∙ rw (lt→ltb 0 (2 ^ (w - 1)) (omega (arith, one-le-pow (w - 1) 2))) refl

    unsigned_zero : mask_to_width b w ≡ 0
    unsigned_zero = mask_to_width_lem b w fits_b w_high ∙ zero_div

    faults_of : (op : IntOp) → IsDivision op → fold_binary op w w a b ≡ faults
    unfolding fold_binary fold_int signed_division unsigned_division
    faults_of int_sdiv d = rw (==_ne b 0 some_div, signed_zero)
    faults_of int_udiv d = rw (==_ne b 0 some_div, unsigned_zero)
    faults_of int_srem d = rw (==_ne b 0 some_div, signed_zero)
    faults_of int_urem d = rw (==_ne b 0 some_div, unsigned_zero)
    faults_of _ d = absurd d

  -- For a width of 1, 2, 4, up to 64 bits and operands given as 64-bit patterns, the fold
  -- divides by zero on the compiling machine exactly when the operation is a division or a
  -- remainder and the divisor is not 0 but its low bits are.
  pub fold_binary-faults_iff :
      (op : IntOp) → (fold_binary op w w a b ≡ faults) ↔ (IsDivision op × (b ≢ 0) × (b % 2 ^ w ≡ 0))
  fold_binary-faults_iff op = (
    (λ h. (division op h, (divides_zero op h).0, (divides_zero op h).1)),
    (λ r. faults_of r.1 r.2 op r.0),
  )

-- ===== src/SoftFp/Rounding.antt =====
-- `sfp_round_normal` of runtime/device/soft_fp.c is correct rounding of the wide mantissa.
use native.Mathlib.Decide.{dec_lt}
use native.Mathlib.Nat.{add-zero, pow-le-pow_right}
use mathlib.Core.Path.{subst}
use booth.Base.{
  ℕ, suc, ◌+◌, ◌-◌, ◌*◌, ◌^◌, ◌≤◌, ◌<◌, ◌≡◌, sym, ap, ◌∙◌, arith, Bool, ==_ne, ℤ, pos, ◌+ℤ◌, ◌-ℤ◌,
}
use booth.SoftFp.Nearest.{IsNearestEven, rounded, rounded-IsNearestEven, rounded-bounds}
use booth.SoftFp.Round.{normalise, drain, sfp_round_normal}
use booth.SoftFp.Loops.{
  pow_add, normalise_lem, normalise_stop, jam, jam_lem, drain_none, drain_once, tail, tail_lem,
  pack_rounded,
}

-- What correct rounding of `wide * 2 ^ (e - 23 - k)` is: the mantissa is moved up, or the unit is,
-- until the mantissa has its leading bit at 2 ^ 23 units, and `r` of them are the nearest to it. The
-- exponent is moved by as many places.
pub record Rounds (s : Bool) (e : ℤ) (wide k result : ℕ) : Type 0 where
  pub up : ℕ
  pub down : ℕ
  pub r : ℕ
  pub leading :
      (2 ^ 23 * 2 ^ (k + down) ≤ wide * 2 ^ up) × (wide * 2 ^ up < 2 ^ 24 * 2 ^ (k + down))
  pub nearest : IsNearestEven (wide * 2 ^ up) (2 ^ (k + down)) r
  pub normal : (2 ^ 23 ≤ r) × (r ≤ 2 ^ 24)
  pub returns : result ≡ pack_rounded s (e -ℤ pos up +ℤ pos down) r

sfp_round_normal_lem :
    (s : Bool) (e : ℤ) (wide k : ℕ) (w₁ : ℕ) (e₁ : ℤ) (w₂ : ℕ) (e₂ : ℤ)
    → 0 < wide
    → normalise 64 (23 + k) wide e ≡ (w₁, e₁)
    → drain 64 (23 + k) w₁ e₁ ≡ (w₂, e₂)
    → sfp_round_normal s e wide k ≡ tail s e₂ w₂ k
unfolding sfp_round_normal
sfp_round_normal_lem s e wide k w₁ e₁ w₂ e₂ h p q = rw (==_ne wide 0 (omega arith), p, q)

jam-IsNearestEven :
    (wide u r : ℕ) → IsNearestEven (jam wide) (u * 4) r → IsNearestEven (wide * 1) (u * 8) r
jam-IsNearestEven wide u r h = record {
  above = ground (arith, jam_lem wide, h.above);
  below = ground (arith, jam_lem wide, h.below);
  tie = λ t. ground (arith, jam_lem wide, h.tie);
}

add_none : (e : ℤ) → e +ℤ pos 0 ≡ e
unfolding ◌+ℤ◌
add_none e = ground arith

sub_none : (e : ℤ) → e -ℤ pos 0 ≡ e
unfolding ◌-ℤ◌
sub_none e = ground arith

module _ (s : Bool) (e : ℤ) (wide k : ℕ) (some_bit : 0 < wide) (large : 2 ≤ k)
    (small : k ≤ 38) where
  moved_up : wide < 2 ^ (24 + k) → Rounds s e wide k (sfp_round_normal s e wide k)
  moved_up h =
      let shift₁ : 2 ^ (23 + k) ≡ 2 ^ 23 * 2 ^ k = pow_add 23 k in
      let shift₂ : 2 ^ (24 + k) ≡ 2 ^ 24 * 2 ^ k = pow_add 24 k in
      let next : 2 ^ suc (23 + k) ≡ 2 ^ (24 + k) = ap (λ (t : ℕ). 2 ^ t) (omega arith) in
      let limit : 2 ^ (23 + k) ≤ 2 ^ 64 = pow-le-pow_right (omega arith) {j = 64} (omega arith) in
      let (n, run, lower, upper) =
        normalise_lem 64 (23 + k) wide e (omega arith) (omega arith) (omega arith) in
      let w = wide * 2 ^ n in
      let top : 2 ^ (23 + k + 1) ≡ 2 ^ (24 + k) = ap (λ (t : ℕ). 2 ^ t) (omega arith) in
      let (low, high, fits) = rounded-bounds w k (omega arith) (omega arith) in
      record {
        up = n;
        down = 0;
        r = rounded w k;
        leading = rw (add-zero k) (omega arith, omega arith);
        nearest = rw (add-zero k) (rounded-IsNearestEven w k (omega arith) fits);
        normal = (low, high);
        returns =
            sfp_round_normal_lem s e wide k w (e -ℤ pos n) w (e -ℤ pos n) some_bit run
              (drain_none 64 (23 + k) w (e -ℤ pos n) (omega arith))
            ∙ tail_lem s (e -ℤ pos n) w k (omega arith)
            ∙ ap (λ x. pack_rounded s x (rounded w k)) (sym (add_none (e -ℤ pos n)));
      }

  moved_down :
      2 ^ (24 + k) ≤ wide → wide < 2 ^ (25 + k) → Rounds s e wide k (sfp_round_normal s e wide k)
  moved_down lo hi =
      let shift₁ : 2 ^ (23 + k) ≡ 2 ^ 23 * 2 ^ k = pow_add 23 k in
      let shift₂ : 2 ^ (24 + k) ≡ 2 ^ 24 * 2 ^ k = pow_add 24 k in
      let shift₃ : 2 ^ (25 + k) ≡ 2 ^ 25 * 2 ^ k = pow_add 25 k in
      let top : 2 ^ (23 + k + 1) ≡ 2 ^ (24 + k) = ap (λ (t : ℕ). 2 ^ t) (omega arith) in
      let top' : 2 ^ (23 + k + 2) ≡ 2 ^ (25 + k) = ap (λ (t : ℕ). 2 ^ t) (omega arith) in
      let quarter : 2 ^ k ≡ 2 ^ (k - 2) * 4 =
        ap (λ (t : ℕ). 2 ^ t) (omega arith) ∙ pow_add (k - 2) 2 in
      let eighth : 2 ^ (k + 1) ≡ 2 ^ (k - 2) * 8 = rw (pow_add k 1, quarter) (omega arith) in
      let w = jam wide in
      let e' = e +ℤ pos 1 in
      let (low, high, fits) =
        rounded-bounds w k (ground (arith, jam_lem wide)) (ground (arith, jam_lem wide)) in
      record {
        up = 0;
        down = 1;
        r = rounded w k;
        leading = rw (pow_add k 1) (omega arith, omega arith);
        nearest =
            subst (λ u. IsNearestEven (wide * 1) u (rounded w k)) (sym eighth)
              (jam-IsNearestEven wide (2 ^ (k - 2)) (rounded w k) (
                subst (λ u. IsNearestEven w u (rounded w k)) quarter
                  (rounded-IsNearestEven w k (omega arith) fits)));
        normal = (low, high);
        returns =
            sfp_round_normal_lem s e wide k wide e w e' some_bit
              (normalise_stop 64 (23 + k) wide e (omega arith))
              (drain_once 63 (23 + k) wide e (omega arith) (omega arith))
            ∙ tail_lem s e' w k (ground (arith, jam_lem wide))
            ∙ ap (λ x. pack_rounded s (x +ℤ pos 1) (rounded w k)) (sym (sub_none e));
      }

  -- For a shift amount from 2 to 38 and a wide mantissa that is not 0 and has at most one bit
  -- above the target, sfp_round_normal packs the multiple of the unit that is nearest to the
  -- mantissa, the even one of two, with the exponent moved as far as the leading bit was.
  pub sfp_round_normal-Rounds :
      wide < 2 ^ (25 + k) → Rounds s e wide k (sfp_round_normal s e wide k)
  sfp_round_normal-Rounds h = elim (dec_lt wide (2 ^ (24 + k))) [
    | yes p ↦ moved_up p
    | no p ↦ moved_down (omega arith) h
  ]

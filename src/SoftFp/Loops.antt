-- ===== src/SoftFp/Loops.antt =====
-- The loops of `sfp_round_normal` in runtime/device/soft_fp.c end with the leading bit in place,
-- and what stands after them packs the rounded mantissa.
use native.Mathlib.Nat.{
  add-zero, pow-suc, one-le-pow, div-lt_iff_lt-mul, div-eq_of_lt, pow-le-pow_right,
}
use native.Mathlib.Decide.{dec_lt}
use booth.Base.{
  ℕ, zero, suc, ◌+◌, ◌*◌, ◌/◌, ◌%◌, ◌^◌, ◌≤◌, ◌<◌, ◌≡◌, refl, sym, ap, ◌∙◌, arith, bit_and, bit_or,
  bit_or_one, bit_and_mask, bit_or-zero, Bool, true, false, ◌==◌, ==_ne, ==_iff, if◌then◌else◌,
  Bool-cases, inl, inr, ℤ, pos, ◌+ℤ◌, ◌-ℤ◌,
}
use booth.SoftFp.Format.{sfp_pack}
use booth.SoftFp.Codec.{number}
use booth.SoftFp.Nearest.{rounded}
use booth.SoftFp.Round.{normalise, drain, kept, rounds_up}

pub pow_add : (a b : ℕ) → 2 ^ (a + b) ≡ 2 ^ a * 2 ^ b
pow_add a zero = rw (add-zero) (omega arith)
pow_add a (suc b) =
    let e : a + suc b ≡ suc (a + b) = omega arith in
    rw (e, pow-suc 2 (a + b), pow-suc 2 b, pow_add a b) (omega arith)

pub pow_split : (a b c : ℕ) → a + b ≡ c → 2 ^ a * 2 ^ b ≡ 2 ^ c
pow_split a b c h = sym (pow_add a b) ∙ ap (λ (x : ℕ). 2 ^ x) h

-- `wide >> k` is 0 just below `1 << k`.
pub shift_test : (wide u : ℕ) → 0 < u → (wide / u == 0 ≡ true) → wide < u
shift_test wide u h e = grind arith

shift_zero : (wide u : ℕ) → wide < u → wide / u == 0 ≡ true
shift_zero wide u h = ground (arith, div-eq_of_lt h)

shift_nonzero : (wide u : ℕ) → 0 < u → u ≤ wide → wide / u == 0 ≡ false
shift_nonzero wide u p h = grind arith

pub shift_above : (wide u : ℕ) → (wide / u == 0 ≡ false) → u ≤ wide
shift_above wide u e = elim (dec_lt wide u) [
  | yes p ↦ cc (shift_zero wide u p)
  | no p ↦ omega arith
]

sub_once : (e : ℤ) (n : ℕ) → e -ℤ pos 1 -ℤ pos n ≡ e -ℤ pos (suc n)
unfolding ◌-ℤ◌
sub_once e n = ground arith

sub_none : (e : ℤ) → e -ℤ pos 0 ≡ e
unfolding ◌-ℤ◌
sub_none e = ground arith

normalise_done : (wide : ℕ) (e : ℤ) → ◌≡◌ {A = ℕ × ℤ} (wide, e) (wide * 2 ^ 0, e -ℤ pos 0)
normalise_done wide e = rw (sub_none e) (ground arith)

normalise_step :
    (guard top wide : ℕ) (e : ℤ)
    → wide / 2 ^ top == 0 ≡ true
    → normalise (suc guard) top wide e ≡ normalise guard top (wide * 2 % 2 ^ 64) (e -ℤ pos 1)
unfolding normalise
normalise_step guard top wide e t = rw (t, normalise)

-- The first loop ends by its test, with the leading bit at `top`.
pub normalise_lem :
    (guard top wide : ℕ) (e : ℤ)
    → top < 63
    → wide < 2 ^ suc top
    → 2 ^ top ≤ wide * 2 ^ guard
    → (n : ℕ) × (normalise guard top wide e ≡ (wide * 2 ^ n, e -ℤ pos n))
      × (2 ^ top ≤ wide * 2 ^ n)
      × (wide * 2 ^ n < 2 ^ suc top)
unfolding normalise
normalise_lem zero top wide e ht hi lo = (0, normalise_done wide e, omega arith, omega arith)
normalise_lem (suc guard) top wide e ht hi lo = elim (Bool-cases (wide / 2 ^ top == 0)) [
  | inl t ↦
      let below : wide < 2 ^ top = shift_test wide (2 ^ top) (one-le-pow top 2 (omega arith)) t in
      let limit : 2 ^ suc top ≤ 2 ^ 63 = pow-le-pow_right (omega arith) {j = 63} (omega arith) in
      let no_wrap : wide * 2 % 2 ^ 64 ≡ wide * 2 = omega (arith, pow-suc 2 top) in
      let twice : wide * 2 * 2 ^ guard ≡ wide * 2 ^ suc guard =
        omega (arith, ap (λ (t : ℕ). wide * t) (pow-suc 2 guard)) in
      let (n, run, lower, upper) =
        normalise_lem guard top (wide * 2) (e -ℤ pos 1) ht (omega (arith, pow-suc 2 top))
          (omega arith) in
      let twice' : wide * 2 * 2 ^ n ≡ wide * 2 ^ suc n =
        omega (arith, ap (λ (t : ℕ). wide * t) (pow-suc 2 n)) in
      (
        suc n,
        normalise_step guard top wide e t
            ∙ ap (λ w. normalise guard top w (e -ℤ pos 1)) no_wrap
            ∙ run
            ∙ (λ i. (twice' i, sub_once e n i)),
        omega arith,
        omega arith,
      )
  | inr f ↦
      let above : 2 ^ top ≤ wide = shift_above wide (2 ^ top) f in
      (0, rw (f, normalise) (normalise_done wide e), omega arith, omega arith)
]

pub normalise_stop :
    (guard top wide : ℕ) (e : ℤ) → 2 ^ top ≤ wide → normalise guard top wide e ≡ (wide, e)
unfolding normalise
normalise_stop zero top wide e h = refl
normalise_stop (suc guard) top wide e h =
    rw (shift_nonzero wide (2 ^ top) (one-le-pow top 2 (omega arith)) h, normalise)

-- One round of the second loop, with what it drops kept in the lowest bit.
unfoldable pub jam : ℕ → ℕ
jam wide = bit_or (wide / 2) (bit_and wide 1)

pub jam_lem : (wide : ℕ) → jam wide ≡ wide / 2 + (if wide % 4 == 1 then 1 else 0)
unfolding jam
jam_lem wide =
    rw (bit_and_mask 1 wide) (ground (arith, bit_or-zero (wide / 2), bit_or_one (wide / 2)))

pub drain_none :
    (fuel top wide : ℕ) (e : ℤ) → wide < 2 ^ (top + 1) → drain fuel top wide e ≡ (wide, e)
unfolding drain
drain_none zero top wide e h = refl
drain_none (suc fuel) top wide e h = rw (shift_zero wide (2 ^ (top + 1)) h, drain)

pub drain_once :
    (fuel top wide : ℕ) (e : ℤ)
    → 2 ^ (top + 1) ≤ wide
    → wide < 2 ^ (top + 2)
    → drain (suc fuel) top wide e ≡ (jam wide, e +ℤ pos 1)
unfolding drain jam
drain_once fuel top wide e lo hi =
    let e₁ : 2 ^ (top + 1) ≡ 2 ^ top * 2 = pow_add top 1 in
    let e₂ : 2 ^ (top + 2) ≡ 2 ^ top * 4 = pow_add top 2 in
    let fits : jam wide < 2 ^ (top + 1) = ground (arith, jam_lem wide) in
    rw (shift_nonzero wide (2 ^ (top + 1)) (one-le-pow (top + 1) 2 (omega arith)) lo, drain)
      (drain_none fuel top (jam wide) (e +ℤ pos 1) fits)

-- `sfp_pack` of a mantissa that may have been rounded up to 2 ^ 24.
abbrev pub pack_rounded : Bool → ℤ → ℕ → ℕ
pack_rounded s e r =
    if r == 2 ^ 24 then sfp_pack (number s (e +ℤ pos 1) (2 ^ 23)) else sfp_pack (number s e r)

-- The end of the function, once the leading bit is in place.
abbrev pub tail : Bool → ℤ → (wide k : ℕ) → ℕ
tail s e wide k =
    if rounds_up wide k
    then (if kept wide k + 1 == 2 ^ 24
        then sfp_pack (number s (e +ℤ pos 1) ((kept wide k + 1) / 2))
        else sfp_pack (number s e (kept wide k + 1)))
    else sfp_pack (number s e (kept wide k))

pub kept-lt : (wide k : ℕ) → wide < 2 ^ (24 + k) → kept wide k < 2 ^ 24
unfolding kept
kept-lt wide k h =
    let small : wide / 2 ^ k < 2 ^ 24 =
      (div-lt_iff_lt-mul (one-le-pow k 2 (omega arith))).1 (rw (← pow_add 24 k) h) in
    omega arith

pub tail_lem :
    (s : Bool) (e : ℤ) (wide k : ℕ)
    → wide < 2 ^ (24 + k)
    → tail s e wide k ≡ pack_rounded s e (rounded wide k)
unfolding rounded
tail_lem s e wide k h = elim (Bool-cases (rounds_up wide k)) [
  | inl up ↦ rw up (elim (Bool-cases (kept wide k + 1 == 2 ^ 24)) [
    | inl full ↦
        let v : kept wide k + 1 ≡ 2 ^ 24 = (==_iff _ _).0 full in
        rw full (ap (λ m. sfp_pack (number s (e +ℤ pos 1) m)) (omega arith))
    | inr room ↦ rw room
  ])
  | inr down ↦ rw (down, add-zero, ==_ne (kept wide k) (2 ^ 24) (omega (arith, kept-lt wide k h)))
]

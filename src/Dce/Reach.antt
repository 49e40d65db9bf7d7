-- ===== src/Dce/Reach.antt =====
-- The blocks of a function that its entry reaches, and one step of rmark of src/ir/bir_dce.c.
use mathlib.Core.Path.{subst}
use booth.Base.{
  ℕ, zero, suc, ◌+◌, ◌-◌, ◌≤◌, ◌<◌, ◌≡◌, ◌⊎◌, inl, inr, refl, sym, arith, Bool, true, false, ◌==◌,
  ltb, leb, if◌then◌else◌, Bool-cases, List, [], ◌∷◌,
}
use booth.Bir.Defs.{BirModule}
use booth.Dce.Pass.{mark}
use booth.Dce.Counts.{occurs}
use booth.Dce.Blocks.{block_at, targets, visit, visit_all}

-- How many of the first `n` are marked.
unfoldable pub marked : (ℕ → Bool) → ℕ → ℕ
marked f zero = 0
marked f (suc n) = (if f n then 1 else 0) + marked f n

pub marked-le : (f : ℕ → Bool) (n : ℕ) → marked f n ≤ n
unfolding marked
marked-le f zero = omega arith
marked-le f (suc n) = ground (arith, marked-le f n)

unmarked : (f : ℕ → Bool) (t n : ℕ) → n ≤ t → marked (mark f t) n ≡ marked f n
unfolding marked mark
unmarked f t zero h = refl
unmarked f t (suc n) h =
    let other : n == t ≡ false = ground arith in
    rw other (omega (arith, unmarked f t n (omega arith)))

pub marked-mark :
    (f : ℕ → Bool) (t n : ℕ) → f t ≡ false → t < n → marked (mark f t) n ≡ suc (marked f n)
unfolding marked mark
marked-mark f t zero h low = absurd (omega arith)
marked-mark f t (suc n) h low = elim (Bool-cases (n == t)) [
  | inl e ↦
      let same : t ≡ n = ground arith in
      rw (e, subst (λ (k : ℕ). f k ≡ false) same h) (omega (arith, unmarked f t n (omega arith)))
  | inr e ↦ rw e (omega (arith, marked-mark f t n h (ground arith)))
]

module _ {D : Type 0} (M : BirModule D) (base nb : ℕ) where
  -- The blocks of the function that a path of edges leads to from the entry.
  pub data Reach : ℕ → Type 0 where
    entry : Reach 0
    edge :
        (i t : ℕ)
        → Reach i
        → 0 < occurs (base + t) (targets M (block_at M (base + i)))
        → t < nb
        → Reach t

  abbrev pub State : Type 0
  State = (ℕ → Bool) × Bool

  -- What is marked is reached.
  unfoldable pub Sound : (ℕ → Bool) → Type 0
  Sound f = (t : ℕ) → f t ≡ true → Reach t

  mark-Sound : (f : ℕ → Bool) (v : ℕ) → Reach v → Sound f → Sound (mark f v)
  unfolding Sound mark
  mark-Sound f v r sound t h = elim (Bool-cases (t == v)) [
    | inl e ↦ let same : v ≡ t = ground arith in subst Reach same r
    | inr e ↦ sound t (rw e at h)
  ]

  -- A successor that is none of the function's, or marked already.
  unfoldable pub Passed : ℕ → State → Type 0
  Passed t s = (t < base) ⊎ ((base + nb ≤ t) ⊎ (s.0 (t - base) ≡ true))

  -- A successor that is marked now.
  unfoldable pub New : ℕ → State → Type 0
  New t s =
      (v : ℕ) × (t ≡ base + v)
      × (v < nb)
      × (s.0 v ≡ false)
      × (visit M base nb t s ≡ (mark s.0 v, true))

  pub visit_cases : (t : ℕ) (s : State) → ((visit M base nb t s ≡ s) × Passed t s) ⊎ New t s
  unfolding visit Passed New
  visit_cases t s = elim (Bool-cases (ltb t base)) [
    | inl e ↦ inl (rw e refl, inl (ground arith))
    | inr e ↦ elim (Bool-cases (leb nb (t - base))) [
      | inl f ↦ inl (rw (e, f) refl, inr (inl (ground arith)))
      | inr f ↦ elim (Bool-cases (s.0 (t - base))) [
        | inl g ↦ inl (rw (e, f, g) refl, inr (inr g))
        | inr g ↦ inr (t - base, ground arith, ground arith, g, rw (e, f, g) refl)
      ]
    ]
  ]

  pub visit_all-Sound :
      (i : ℕ) (ts : List ℕ) (s : State)
      → ((t : ℕ) → t < nb → 0 < occurs (base + t) ts → Reach t)
      → Sound s.0
      → Sound (visit_all M base nb ts s).0
  unfolding visit_all Sound occurs mark New
  visit_all-Sound i [] s sub sound = sound
  visit_all-Sound i (t ∷ ts) s sub sound =
      let sub' =
        λ (v : ℕ) (h : v < nb) (o : 0 < occurs (base + v) ts). sub v h (omega (arith, o)) in
      elim (visit_cases t s) [
        | inl (same, passed) ↦
            subst (λ (x : State). Sound (visit_all M base nb ts x).0) (sym same)
              (visit_all-Sound i ts s sub' sound)
        | inr (v, here, low, new, step) ↦
            let found : base + v == t ≡ true = ground arith in
            let arrives : Reach v = sub v low (rw found (omega arith)) in
            subst (λ (x : State). Sound (visit_all M base nb ts x).0) (sym step)
              (visit_all-Sound i ts (mark s.0 v, true) sub' (mark-Sound s.0 v arrives sound))
      ]

-- ===== src/Dce/Marking.antt =====
-- One round of rmark of src/ir/bir_dce.c: the marks only grow, and where it tells of no change they
-- are what they were.
use mathlib.Core.Path.{subst}
use booth.Base.{
  ℕ, zero, suc, ◌+◌, ◌-◌, ◌≤◌, ◌<◌, ◌≡◌, ◌⊎◌, inl, inr, refl, sym, ap, ◌∙◌, arith, true, false, not,
  ◌==◌, if_cases, Bool-cases, List, [], ◌∷◌,
}
use booth.Bir.Defs.{BirModule}
use booth.Dce.Pass.{mark}
use booth.Dce.Counts.{occurs}
use booth.Dce.Blocks.{block_at, targets, visit_all, visit_block, mark_round}
use booth.Dce.Reach.{marked, marked-mark, State, Passed, New, visit_cases}

module _ {D : Type 0} (M : BirModule D) (base nb : ℕ) where
  -- What a walk does to the marks: none is lost, and where it tells of a change there are more.
  pub record Grows (s r : State M base nb) : Type 0 where
    pub kept : (v : ℕ) → s.0 v ≡ true → r.0 v ≡ true
    pub more : marked s.0 nb ≤ marked r.0 nb
    pub change : (r.1 ≡ false) ⊎ ((s.1 ≡ true) ⊎ (marked s.0 nb < marked r.0 nb))
    pub stays : s.1 ≡ true → r.1 ≡ true

  Grows-refl : (s : State M base nb) → Grows s s
  Grows-refl s = record {
    kept = λ v h. h;
    more = omega arith;
    change = elim (Bool-cases s.1) [ inl e ↦ inr (inl e) | inr e ↦ inl e ];
    stays = λ h. h;
  }

  Grows-trans : (s r q : State M base nb) → Grows s r → Grows r q → Grows s q
  Grows-trans s r q a b =
      let (low, high) : (marked s.0 nb ≤ marked r.0 nb) × (marked r.0 nb ≤ marked q.0 nb) =
        (a.more, b.more) in
      record {
        kept = λ v h. b.kept v (a.kept v h);
        more = omega arith;
        change = elim b.change [
          | inl e ↦ inl e
          | inr (inl e) ↦ elim a.change [
            | inl f ↦ absurd (cc)
            | inr (inl f) ↦ inr (inl f)
            | inr (inr f) ↦ inr (inr (omega arith))
          ]
          | inr (inr e) ↦ inr (inr (omega arith))
        ];
        stays = λ h. b.stays (a.stays h);
      }

  mark-Grows : (s : State M base nb) (v : ℕ) → v < nb → s.0 v ≡ false → Grows s (mark s.0 v, true)
  unfolding mark
  mark-Grows s v low new = record {
    kept = λ w h. elim (Bool-cases (w == v)) [ inl e ↦ rw e refl | inr e ↦ rw (e, h) refl ];
    more = omega (arith, marked-mark s.0 v nb new low);
    change = inr (inr (omega (arith, marked-mark s.0 v nb new low)));
    stays = λ h. refl;
  }

  visit_all-Grows : (ts : List ℕ) (s : State M base nb) → Grows s (visit_all M base nb ts s)
  unfolding visit_all New
  visit_all-Grows [] s = Grows-refl s
  visit_all-Grows (t ∷ ts) s = elim (visit_cases M base nb t s) [
    | inl (same, passed) ↦
        subst (λ (x : State M base nb). Grows s (visit_all M base nb ts x)) (sym same)
          (visit_all-Grows ts s)
    | inr (v, here, low, new, step) ↦
        subst (λ (x : State M base nb). Grows s (visit_all M base nb ts x)) (sym step)
          (Grows-trans s (mark s.0 v, true) (visit_all M base nb ts (mark s.0 v, true))
            (mark-Grows s v low new) (visit_all-Grows ts (mark s.0 v, true)))
  ]

  visit_block-Grows : (i : ℕ) (s : State M base nb) → Grows s (visit_block M base nb i s)
  unfolding visit_block
  visit_block-Grows i s =
      if_cases (Grows s) (not (s.0 i)) (λ out. Grows-refl s)
        (λ within. visit_all-Grows (targets M (block_at M (base + i))) s)

  pub mark_round-Grows :
      (i left : ℕ) (s : State M base nb) → Grows s (mark_round M base nb i left s)
  unfolding mark_round
  mark_round-Grows i zero s = Grows-refl s
  mark_round-Grows i (suc left) s =
      let s₁ = visit_block M base nb i s in
      Grows-trans s s₁ (mark_round M base nb (suc i) left s₁) (visit_block-Grows i s)
        (mark_round-Grows (suc i) left s₁)

  -- A walk that tells of no change changed nothing.
  pub visit_all_quiet :
      (ts : List ℕ) (s : State M base nb)
      → (visit_all M base nb ts s).1 ≡ false
      → (visit_all M base nb ts s ≡ s)
        × ((v : ℕ) → v < nb → 0 < occurs (base + v) ts → s.0 v ≡ true)
  unfolding visit_all New Passed occurs
  visit_all_quiet [] s h = (refl, λ v low o. absurd (omega arith))
  visit_all_quiet (t ∷ ts) s h = elim (visit_cases M base nb t s) [
    | inl (same, passed) ↦
        let (still, rest) =
          visit_all_quiet ts s
            (ap (λ (x : State M base nb). (visit_all M base nb ts x).1) (sym same) ∙ h) in
        (
          ap (visit_all M base nb ts) same ∙ still,
          (λ v low o. elim (Bool-cases (base + v == t)) [
            | inl e ↦ elim passed [
              | inl p ↦ absurd (ground arith)
              | inr (inl p) ↦ absurd (ground arith)
              | inr (inr p) ↦
                  let here : t - base ≡ v = ground arith in subst (λ (x : ℕ). s.0 x ≡ true) here p
            ]
            | inr e ↦ rest v low (omega (arith, rw e at o))
          ]),
        )
    | inr (v, here, low, new, step) ↦ absurd (
        cc (
          (visit_all-Grows ts (mark s.0 v, true)).stays refl,
          ap (λ (x : State M base nb). (visit_all M base nb ts x).1) (sym step) ∙ h,
        ))
  ]

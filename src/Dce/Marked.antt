-- ===== src/Dce/Marked.antt =====
-- rmark of src/ir/bir_dce.c marks the blocks that the entry reaches, and its guard never ends it.
use mathlib.Core.Path.{subst}
use native.Mathlib.Decide.{dec_le}
use booth.Base.{
  ℕ, zero, suc, ◌+◌, ◌≤◌, ◌<◌, ◌≡◌, ◌↔◌, inl, inr, refl, sym, ap, ◌∙◌, arith, Bool, true, false,
  ◌==◌, Bool-cases,
}
use booth.Bir.Defs.{BirModule}
use booth.Dce.Counts.{occurs}
use booth.Dce.Blocks.{block_at, targets, visit_block, mark_round, rmark_loop, rmark}
use booth.Dce.Reach.{marked, marked-le, Reach, entry, edge, State, Sound, visit_all-Sound}
use booth.Dce.Marking.{mark_round-Grows, visit_all_quiet}

module _ {D : Type 0} (M : BirModule D) (base nb : ℕ) where
  -- The edges that leave the marked blocks from `i` on lead to marked blocks.
  unfoldable Covers : (i left : ℕ) → (ℕ → Bool) → Type 0
  Covers i left f =
      (k v : ℕ)
      → i ≤ k
      → k < i + left
      → f k ≡ true
      → v < nb
      → 0 < occurs (base + v) (targets M (block_at M (base + k)))
      → f v ≡ true

  block_quiet :
      (i : ℕ) (s : State M base nb)
      → (visit_block M base nb i s).1 ≡ false
      → (visit_block M base nb i s ≡ s) × Covers i 1 s.0
  unfolding visit_block Covers
  block_quiet i s h = elim (Bool-cases (s.0 i)) [
    | inl e ↦
        let (same, rest) =
          visit_all_quiet M base nb (targets M (block_at M (base + i))) s (rw e at h) in
        (
          rw e same,
          (λ k v low high g vlow o.
              let here : k ≡ i = omega arith in
              rest v vlow (
                subst (λ (x : ℕ). 0 < occurs (base + v) (targets M (block_at M (base + x)))) here
                  o)),
        )
    | inr e ↦ (
      rw e refl,
      (λ k v low high g vlow o.
          let here : k ≡ i = omega arith in
          absurd (cc (e, subst (λ (x : ℕ). s.0 x ≡ true) here g))),
    )
  ]

  round_quiet :
      (i left : ℕ) (s : State M base nb)
      → (mark_round M base nb i left s).1 ≡ false
      → (mark_round M base nb i left s ≡ s) × Covers i left s.0
  unfolding mark_round Covers
  round_quiet i zero s h = (refl, λ k v low high g vlow o. absurd (omega arith))
  round_quiet i (suc left) s h =
      let (still, after) = round_quiet (suc i) left (visit_block M base nb i s) h in
      let (same, now) = block_quiet i s (sym (ap (λ (x : State M base nb). x.1) still) ∙ h) in
      (
        still ∙ same,
        (λ k v low high g vlow o. elim (dec_le (suc i) k) [
          | yes p ↦
              subst (λ (x : State M base nb). x.0 v ≡ true) same
                (after k v p (omega arith)
                  (subst (λ (x : State M base nb). x.0 k ≡ true) (sym same) g) vlow o)
          | no p ↦ now k v low (omega arith) g vlow o
        ]),
      )

  block-Sound :
      (i : ℕ) (s : State M base nb)
      → Sound M base nb s.0
      → Sound M base nb (visit_block M base nb i s).0
  unfolding visit_block Sound
  block-Sound i s sound = elim (Bool-cases (s.0 i)) [
    | inl e ↦ rw e (
        visit_all-Sound M base nb i (targets M (block_at M (base + i))) s
          (λ t low o. edge i t (sound i e) o low) sound)
    | inr e ↦ rw e sound
  ]

  round-Sound :
      (i left : ℕ) (s : State M base nb)
      → Sound M base nb s.0
      → Sound M base nb (mark_round M base nb i left s).0
  unfolding mark_round
  round-Sound i zero s sound = sound
  round-Sound i (suc left) s sound =
      round-Sound (suc i) left (visit_block M base nb i s) (block-Sound i s sound)

  -- What the loop ends with: marks that are reached, the entry among them, and no edge out of them.
  record Done (f : ℕ → Bool) : Type 0 where
    sound : Sound M base nb f
    entered : f 0 ≡ true
    covers : Covers 0 nb f

  -- Each round that goes on marks one block more, so the guard is not used up.
  loop-Done :
      (g : ℕ) (f : ℕ → Bool)
      → Sound M base nb f
      → f 0 ≡ true
      → nb < marked f nb + g
      → Done (rmark_loop M base nb g f)
  unfolding rmark_loop
  loop-Done zero f sound first enough = absurd (omega (arith, marked-le f nb))
  loop-Done (suc g) f sound first enough =
      let grows = mark_round-Grows M base nb 0 nb (f, false) in
      let next = round-Sound 0 nb (f, false) sound in
      elim (Bool-cases (mark_round M base nb 0 nb (f, false)).1) [
        | inl e ↦ rw e (
            loop-Done g (mark_round M base nb 0 nb (f, false)).0 next (grows.kept 0 first)
              (elim grows.change [
                | inl n ↦ absurd (cc)
                | inr (inl n) ↦ absurd (cc)
                | inr (inr n) ↦ omega arith
              ]))
        | inr e ↦
            let (same, cover) = round_quiet 0 nb (f, false) e in
            rw e (
              subst (λ (x : State M base nb). Done x.0) (sym same)
                (record { sound = sound; entered = first; covers = cover }))
      ]

  start-marked : (n : ℕ) → 0 < n → 0 < marked (λ i. i == 0) n
  unfolding marked
  start-marked zero h = h
  start-marked (suc zero) h = omega arith
  start-marked (suc (suc n)) h = omega (arith, start-marked (suc n) (omega arith))

  rmark-Done : 0 < nb → Done (rmark M base nb)
  unfolding rmark Sound
  rmark-Done some_block =
      loop-Done (nb + 1) (λ i. i == 0)
        (λ t h. let here : 0 ≡ t = ground arith in subst (Reach M base nb) here entry) refl
        (omega (arith, start-marked nb some_block))

  Reach-lt : (t : ℕ) → 0 < nb → Reach M base nb t → t < nb
  Reach-lt t h entry = h
  Reach-lt t h (edge i t' r o low) = low

  is_marked : (t : ℕ) → 0 < nb → Reach M base nb t → rmark M base nb t ≡ true
  unfolding Covers
  is_marked t h entry = (rmark-Done h).entered
  is_marked t h (edge i t' r o low) =
      (rmark-Done h).covers i t (omega arith) (omega (arith, Reach-lt i h r)) (is_marked i h r) low
        o

  -- For a function with a block, rmark marks a block exactly when a path of successors leads to
  -- it from the entry: the loop ends because nothing changes any more, never because its guard
  -- of one round more than the blocks is used up.
  pub rmark_iff : (t : ℕ) → 0 < nb → (rmark M base nb t ≡ true) ↔ Reach M base nb t
  unfolding Sound
  rmark_iff t h = ((λ e. (rmark-Done h).sound t e), is_marked t h)

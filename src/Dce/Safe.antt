-- ===== src/Dce/Safe.antt =====
-- What dce_pass of src/ir/bir_dce.c takes away: nothing that a surviving instruction reads, nothing
-- with an effect, and, unless its guard ends it, all that is unused.
use mathlib.Core.Path.{subst}
use native.Mathlib.Decide.{dec_le}
use booth.Base.{
  ℕ, zero, suc, ◌+◌, ◌^◌, ◌≤◌, ◌<◌, ◌≡◌, ◌⊎◌, inl, inr, refl, arith, Bool, true, false, not, ◌&&◌,
  ◌==◌, if_cases, Bool-cases,
}
use booth.Bir.Defs.{BirModule}
use booth.Dce.Defs.{values, removable}
use booth.Dce.Pass.{mark, inst_at, count_uses, sweep, round}
use booth.Dce.Counts.{occurs, reads, count_uses_lem, reads-ge, reads-le}

dying :
    (d : Bool) (u : ℕ) (r : Bool)
    → (not d && u == 0 && r) ≡ true
    → (d ≡ false) × (u ≡ 0) × (r ≡ true)
dying true u r h = absurd (ground arith)
dying false u r h = (refl, ground arith, ground arith)

staying :
    (d : Bool) (u : ℕ) (r : Bool) → (not d && u == 0 && r) ≡ false → d ≡ false → r ≡ true → 0 < u
staying true u r h live pure = absurd (ground arith)
staying false u false h live pure = absurd (ground arith)
staying false u true h live pure = ground arith

module _ {D : Type 0} (M : BirModule D) where
  -- What the instructions that are not dead read in their function is not dead.
  unfoldable pub Closed : (base num : ℕ) → (ℕ → Bool) → Type 0
  Closed base num dead =
      (i v : ℕ)
      → base ≤ i
      → i < base + num
      → dead i ≡ false
      → 0 < occurs v (values M (inst_at M i))
      → base ≤ v
      → v < base + num
      → dead v ≡ false

  marked :
      (uses : ℕ → ℕ) (dead : ℕ → Bool) (i k : ℕ)
      → (not (dead i) && uses i == 0 && removable (inst_at M i)) ≡ true
      → mark dead i k ≡ true
      → (dead k ≡ true) ⊎ ((uses k ≡ 0) × (removable (inst_at M k) ≡ true))
  unfolding mark
  marked uses dead i k dies now = elim (Bool-cases (k == i)) [
    | inl e ↦
        let same : i ≡ k = ground arith in
        let here =
          subst (λ (n : ℕ). (not (dead n) && uses n == 0 && removable (inst_at M n)) ≡ true) same
            dies in
        let (alive, unused, pure) = dying (dead k) (uses k) (removable (inst_at M k)) here in
        inr (unused, pure)
    | inr e ↦ inl (rw e at now)
  ]

  -- An instruction that is dead now was so before, or has no use and no effect.
  pub sweep-marks :
      (uses : ℕ → ℕ) (i left : ℕ) (dead : ℕ → Bool) (k : ℕ)
      → (sweep M uses i left dead).0 k ≡ true
      → (dead k ≡ true) ⊎ ((uses k ≡ 0) × (removable (inst_at M k) ≡ true))
  unfolding sweep mark
  sweep-marks uses i zero dead k h = inl h
  sweep-marks uses i (suc left) dead k h =
      if_cases
        (λ (d : ℕ → Bool).
          (sweep M uses (suc i) left d).0 k ≡ true
          → (dead k ≡ true) ⊎ ((uses k ≡ 0) × (removable (inst_at M k) ≡ true)))
        (not (dead i) && uses i == 0 && removable (inst_at M i))
        (λ dies later. elim (sweep-marks uses (suc i) left (mark dead i) k later) [
          | inl now ↦ marked uses dead i k dies now
          | inr r ↦ inr r
        ])
        (λ stays later. sweep-marks uses (suc i) left dead k later) h

  -- What a sweep marks is one of the instructions that it walks over.
  pub sweep-inside :
      (uses : ℕ → ℕ) (i left : ℕ) (dead : ℕ → Bool) (k : ℕ)
      → (sweep M uses i left dead).0 k ≡ true
      → (dead k ≡ true) ⊎ ((i ≤ k) × (k < i + left))
  unfolding sweep mark
  sweep-inside uses i zero dead k h = inl h
  sweep-inside uses i (suc left) dead k h =
      if_cases
        (λ (d : ℕ → Bool).
          (sweep M uses (suc i) left d).0 k ≡ true
          → (dead k ≡ true) ⊎ ((i ≤ k) × (k < i + suc left)))
        (not (dead i) && uses i == 0 && removable (inst_at M i))
        (λ dies later. elim (sweep-inside uses (suc i) left (mark dead i) k later) [
          | inl now ↦ elim (Bool-cases (k == i)) [
            | inl e ↦ inr (ground arith, ground arith)
            | inr e ↦ inl (rw e at now)
          ]
          | inr (low, high) ↦ inr (omega arith, omega arith)
        ])
        (λ stays later. elim (sweep-inside uses (suc i) left dead k later) [
          | inl now ↦ inl now
          | inr (low, high) ↦ inr (omega arith, omega arith)
        ])
        h

  mark-grows : (dead : ℕ → Bool) (i k : ℕ) → dead k ≡ true → mark dead i k ≡ true
  unfolding mark
  mark-grows dead i k h = elim (Bool-cases (k == i)) [ inl e ↦ rw e refl | inr e ↦ rw (e, h) refl ]

  sweep-grows :
      (uses : ℕ → ℕ) (i left : ℕ) (dead : ℕ → Bool) (k : ℕ)
      → dead k ≡ true
      → (sweep M uses i left dead).0 k ≡ true
  unfolding sweep mark
  sweep-grows uses i zero dead k h = h
  sweep-grows uses i (suc left) dead k h =
      if_cases (λ (d : ℕ → Bool). (sweep M uses (suc i) left d).0 k ≡ true)
        (not (dead i) && uses i == 0 && removable (inst_at M i))
        (λ dies. sweep-grows uses (suc i) left (mark dead i) k (mark-grows dead i k h))
        (λ stays. sweep-grows uses (suc i) left dead k h)

  -- A round that marks nothing has nothing to mark.
  pub sweep-none :
      (uses : ℕ → ℕ) (i left : ℕ) (dead : ℕ → Bool)
      → (sweep M uses i left dead).1 ≡ 0
      → ((sweep M uses i left dead).0 ≡ dead)
        × ((k : ℕ)
            → i ≤ k
            → k < i + left
            → dead k ≡ false
            → removable (inst_at M k) ≡ true
            → 0 < uses k)
  unfolding sweep
  sweep-none uses i zero dead h = (refl, λ k low high live r. absurd (omega arith))
  sweep-none uses i (suc left) dead h =
      elim (Bool-cases (not (dead i) && uses i == 0 && removable (inst_at M i))) [
        | inl dies ↦ absurd (omega (arith, rw dies at h))
        | inr stays ↦
            let (same, rest) = sweep-none uses (suc i) left dead (omega (arith, rw stays at h)) in
            (
              rw stays same,
              (λ k low high live r. elim (dec_le (suc i) k) [
                | yes p ↦ rest k p (omega arith) live r
                | no p ↦
                    let here : i ≡ k = omega arith in
                    staying (dead k) (uses k) (removable (inst_at M k))
                      (subst
                        (λ (n : ℕ).
                          (not (dead n) && uses n == 0 && removable (inst_at M n)) ≡ false)
                        here stays)
                      live r
              ]),
            )
      ]

  -- No value is read so often that its count goes back to 0.
  unfoldable pub NoOverflow : (base num : ℕ) → Type 0
  NoOverflow base num = (v : ℕ) → reads M (λ k. false) base num v < 2 ^ 32

  module _ (base num : ℕ) (small : NoOverflow base num) where
    pub counted :
        (dead : ℕ → Bool) (v : ℕ)
        → base ≤ v
        → v < base + num
        → count_uses M base (base + num) dead base num (λ k. 0) v ≡ reads M dead base num v
    unfolding NoOverflow
    counted dead v low high = omega (
      arith,
      count_uses_lem M base (base + num) dead base num v (λ k. 0) low high
          (omega (arith, small v, reads-le M dead base num v)),
    )

    pub round-Closed :
        (dead : ℕ → Bool) → Closed base num dead → Closed base num (round M base num dead).0
    unfolding round Closed
    round-Closed dead closed i v low high live used vlow vhigh =
        let uses = count_uses M base (base + num) dead base num (λ k. 0) in
        let alive : dead i ≡ false = elim (Bool-cases (dead i)) [
          | inl e ↦ absurd (cc (sweep-grows uses base num dead i e))
          | inr e ↦ e
        ] in
        elim (Bool-cases ((sweep M uses base num dead).0 v)) [
          | inr e ↦ e
          | inl e ↦ elim (sweep-marks uses base num dead v e) [
            | inl was ↦ absurd (cc (closed i v low high alive used vlow vhigh))
            | inr (unused, pure) ↦ absurd (
                omega (
                  arith,
                  unused,
                  counted dead v vlow vhigh,
                  reads-ge M dead base num v i low high alive,
                ))
          ]
        ]

-- ===== src/Dce/Counts.antt =====
-- The use counts of dce_pass are the numbers of reads, as long as these are below 2 ^ 32.
use mathlib.Core.Path.{subst}
use native.Mathlib.Decide.{dec_le}
use booth.Base.{
  ℕ, zero, suc, ◌+◌, ◌^◌, ◌≤◌, ◌<◌, ◌≡◌, arith, Bool, false, ◌&&◌, ltb, leb, ◌==◌, if◌then◌else◌,
  if_cases, Bool-cases, inl, inr, List, [], ◌∷◌,
}
use booth.Bir.Defs.{BirModule}
use booth.Dce.Defs.{values}
use booth.Dce.Pass.{bump, bump_all, inst_at, count_uses}

-- How often `v` stands in a list.
unfoldable pub occurs : ℕ → List ℕ → ℕ
occurs v [] = 0
occurs v (x ∷ xs) = (if v == x then 1 else 0) + occurs v xs

bump_lem :
    (base end v : ℕ) (uses : ℕ → ℕ) (x : ℕ)
    → base ≤ v
    → v < end
    → (if v == x then 1 else 0) + uses v < 2 ^ 32
    → bump base end uses x v ≡ (if v == x then 1 else 0) + uses v
unfolding bump
bump_lem base end v uses x low high small =
    if_cases (λ (f : ℕ → ℕ). f v ≡ (if v == x then 1 else 0) + uses v) (leb base x && ltb x end)
      (λ inside. ground (arith, small)) (λ outside. ground (arith, small))

bump_all_lem :
    (base end v : ℕ) (xs : List ℕ) (uses : ℕ → ℕ)
    → base ≤ v
    → v < end
    → uses v + occurs v xs < 2 ^ 32
    → bump_all base end xs uses v ≡ uses v + occurs v xs
unfolding bump_all occurs
bump_all_lem base end v [] uses low high small = omega arith
bump_all_lem base end v (x ∷ xs) uses low high small =
    let one = bump_lem base end v uses x low high (omega (arith, small)) in
    omega (
      arith,
      one,
      bump_all_lem base end v xs (bump base end uses x) low high (omega (arith, one, small)),
    )

module _ {D : Type 0} (M : BirModule D) where
  -- How often the instructions that are not dead read `v`.
  unfoldable pub reads : (dead : ℕ → Bool) → (i left v : ℕ) → ℕ
  reads dead i zero v = 0
  reads dead i (suc left) v =
      (if dead i then 0 else occurs v (values M (inst_at M i))) + reads dead (suc i) left v

  pub count_uses_lem :
      (base end : ℕ) (dead : ℕ → Bool) (i left v : ℕ) (uses : ℕ → ℕ)
      → base ≤ v
      → v < end
      → uses v + reads dead i left v < 2 ^ 32
      → count_uses M base end dead i left uses v ≡ uses v + reads dead i left v
  unfolding count_uses reads
  count_uses_lem base end dead i zero v uses low high small = omega arith
  count_uses_lem base end dead i (suc left) v uses low high small =
      let bound = λ (b : Bool).
        uses v + ((if b then 0 else occurs v (values M (inst_at M i))) + reads dead (suc i) left v)
        < 2 ^ 32 in
      elim (Bool-cases (dead i)) [
        | inl gone ↦
            let fits = subst bound gone small in
            rw gone (
              omega (
                arith,
                count_uses_lem base end dead (suc i) left v uses low high (omega (arith, fits)),
              ))
        | inr live ↦
            let fits = subst bound live small in
            let uses₁ = bump_all base end (values M (inst_at M i)) uses in
            let here =
              bump_all_lem base end v (values M (inst_at M i)) uses low high
                (omega (arith, fits)) in
            rw live (
              omega (
                arith,
                here,
                count_uses_lem base end dead (suc i) left v uses₁ low high
                    (omega (arith, here, fits)),
              ))
      ]

  -- An instruction that is not dead counts for what it reads.
  pub reads-ge :
      (dead : ℕ → Bool) (i left v k : ℕ)
      → i ≤ k
      → k < i + left
      → dead k ≡ false
      → occurs v (values M (inst_at M k)) ≤ reads dead i left v
  unfolding reads
  reads-ge dead i zero v k low high live = absurd (omega arith)
  reads-ge dead i (suc left) v k low high live = elim (dec_le (suc i) k) [
    | yes p ↦ omega (arith, reads-ge dead (suc i) left v k p (omega arith) live)
    | no p ↦ let same : i ≡ k = omega arith in rw (same, live) (omega arith)
  ]

  pub reads-le :
      (dead : ℕ → Bool) (i left v : ℕ) → reads dead i left v ≤ reads (λ k. false) i left v
  unfolding reads
  reads-le dead i zero v = omega arith
  reads-le dead i (suc left) v =
      if_cases
        (λ (n : ℕ).
          n + reads dead (suc i) left v
          ≤ occurs v (values M (inst_at M i)) + reads (λ k. false) (suc i) left v)
        (dead i) (λ gone. omega (arith, reads-le dead (suc i) left v))
        (λ live. omega (arith, reads-le dead (suc i) left v))

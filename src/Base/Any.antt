-- ===== src/Base/Any.antt =====
-- A Boolean test over a range of numbers.
use Prim.Native.Nat.{ℕ, zero, suc, ◌+◌, ◌<◌, ◌≤◌}
use native.Mathlib.Decide.{ℕ_discrete}
use native.Mathlib.Omega.{arith}
use mathlib.Core.Path.{◌≡◌, ◌∙◌, refl, sym}
use mathlib.Core.Bool.{Bool, true, false, ◌||◌}
use mathlib.Core.Logic.{inl, inr}
use booth.Base.Tests.{Bool-cases}

-- Whether a test holds somewhere from `k` on.
unfoldable pub any_from : (ℕ → Bool) → (k left : ℕ) → Bool
any_from f k zero = false
any_from f k (suc left) = f k || any_from f (suc k) left

pub any_from-false :
    (f : ℕ → Bool) (k left : ℕ)
    → any_from f k left ≡ false
    → (i : ℕ) → k ≤ i
    → i < k + left
    → f i ≡ false
unfolding any_from
any_from-false f k zero h i low high = absurd (omega arith)
any_from-false f k (suc left) h i low high = elim (ℕ_discrete k i) [
  | yes e ↦ rw (← e) (ground arith)
  | no n ↦ any_from-false f (suc k) left (ground arith) i (omega arith) (omega arith)
]

pub any_from-none :
    (f : ℕ → Bool) (k left : ℕ)
    → ((i : ℕ) → k ≤ i → i < k + left → f i ≡ false)
    → any_from f k left ≡ false
unfolding any_from
any_from-none f k zero h = refl
any_from-none f k (suc left) h =
    rw (h k (omega arith) (omega arith))
      (any_from-none f (suc k) left (λ i low high. h i (omega arith) (omega arith)))

pub any_from-true :
    (f : ℕ → Bool) (k left : ℕ)
    → any_from f k left ≡ true
    → (i : ℕ) × (k ≤ i) × (i < k + left) × (f i ≡ true)
unfolding any_from
any_from-true f k zero h = cc h
any_from-true f k (suc left) h = elim (Bool-cases (f k)) [
  | inl e ↦ (k, omega arith, omega arith, e)
  | inr e ↦
      let (i, low, high, t) = any_from-true f (suc k) left (rw e at h) in
      (i, omega arith, omega arith, t)
]

pub any_from-some :
    (f : ℕ → Bool) (k left i : ℕ) → k ≤ i → i < k + left → f i ≡ true → any_from f k left ≡ true
any_from-some f k left i low high t = elim (Bool-cases (any_from f k left)) [
  | inl e ↦ e
  | inr e ↦ absurd (cc (sym t ∙ any_from-false f k left e i low high))
]

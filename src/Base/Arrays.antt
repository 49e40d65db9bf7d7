-- ===== src/Base/Arrays.antt =====
-- C arrays in use, as lists with native indices.
use Prim.Native.Nat.{ℕ, zero, suc, ◌+◌, ◌<◌}
use mathlib.Core.Path.{◌∙◌, ◌≡◌, refl, ap}
use mathlib.Core.Logic.{◌≢◌}
use mathlib.Core.List.{map, List, [], ◌∷◌, ◌++◌}
use mathlib.Core.Option.{Option, none, some}
use mathlib.Core.Option
use mathlib.Core.Bool.{Bool, true, false}
use mathlib.Core.Logic.{inl, inr}
use booth.Base.Tests.{Bool-cases}
use native.Mathlib.Omega.{arith}

module _ {ℓ} {A : Type ℓ} where
  abbrev pub length : List A → ℕ
  length [] = 0
  length (x ∷ xs) = suc (length xs)

  abbrev pub get_elem? : List A → ℕ → Option A
  get_elem? [] i = none
  get_elem? (x ∷ xs) zero = some x
  get_elem? (x ∷ xs) (suc i) = get_elem? xs i

  -- A write out of bounds changes nothing.
  abbrev pub set : List A → ℕ → A → List A
  set [] i v = []
  set (x ∷ xs) zero v = v ∷ xs
  set (x ∷ xs) (suc i) v = x ∷ set xs i v

  -- The first index whose entry passes the test: a scan with an early return.
  unfoldable pub find_index : (A → Bool) → List A → Option ℕ
  find_index p [] = none
  find_index p (x ∷ xs) = elim (p x) [ true ↦ some 0 | false ↦ Option.map suc (find_index p xs) ]

  pub length-append : (xs ys : List A) → length (xs ++ ys) ≡ length xs + length ys
  length-append [] ys = omega arith
  length-append (x ∷ xs) ys = omega (arith, length-append xs ys)

  pub length-set : (xs : List A) (i : ℕ) (v : A) → length (set xs i v) ≡ length xs
  length-set [] i v = refl
  length-set (x ∷ xs) zero v = refl
  length-set (x ∷ xs) (suc i) v = ap suc (length-set xs i v)

  -- What is there stays there when something is pushed at the end.
  pub get_elem?-append_left :
      (xs ys : List A) (i : ℕ) → i < length xs → get_elem? (xs ++ ys) i ≡ get_elem? xs i
  get_elem?-append_left [] ys i h = absurd (omega arith)
  get_elem?-append_left (x ∷ xs) ys zero h = refl
  get_elem?-append_left (x ∷ xs) ys (suc i) h = get_elem?-append_left xs ys i (omega arith)

  pub get_elem?-append_right :
      (xs ys : List A) (j : ℕ) → get_elem? (xs ++ ys) (length xs + j) ≡ get_elem? ys j
  get_elem?-append_right [] ys j = ap (get_elem? ys) {y = j} (omega arith)
  get_elem?-append_right (x ∷ xs) ys j =
      ap (get_elem? (x ∷ xs ++ ys)) {y = suc (length xs + j)} (omega arith)
      ∙ get_elem?-append_right xs ys j

  pub get_elem?-append_last : (xs : List A) (y : A) → get_elem? (xs ++ y ∷ []) (length xs) ≡ some y
  get_elem?-append_last [] y = refl
  get_elem?-append_last (x ∷ xs) y = get_elem?-append_last xs y

  pub lt-length_of_get_elem? :
      (xs : List A) (i : ℕ) (a : A) → get_elem? xs i ≡ some a → i < length xs
  lt-length_of_get_elem? [] i a h = absurd (cc h)
  lt-length_of_get_elem? (x ∷ xs) zero a h = omega arith
  lt-length_of_get_elem? (x ∷ xs) (suc i) a h = omega (arith, lt-length_of_get_elem? xs i a h)

  pub get_elem?-set_self :
      (xs : List A) (i : ℕ) (v : A) → i < length xs → get_elem? (set xs i v) i ≡ some v
  get_elem?-set_self [] i v h = absurd (omega arith)
  get_elem?-set_self (x ∷ xs) zero v h = refl
  get_elem?-set_self (x ∷ xs) (suc i) v h = get_elem?-set_self xs i v (omega arith)

  pub get_elem?-set_ne :
      (xs : List A) (i j : ℕ) (v : A) → i ≢ j → get_elem? (set xs i v) j ≡ get_elem? xs j
  get_elem?-set_ne [] i j v ne = refl
  get_elem?-set_ne (x ∷ xs) zero zero v ne = absurd (ne refl)
  get_elem?-set_ne (x ∷ xs) zero (suc j) v ne = refl
  get_elem?-set_ne (x ∷ xs) (suc i) zero v ne = refl
  get_elem?-set_ne (x ∷ xs) (suc i) (suc j) v ne = get_elem?-set_ne xs i j v (λ e. ne (ap suc e))

  pub find_index-nil : (p : A → Bool) → find_index p [] ≡ none
  unfolding find_index
  find_index-nil p = refl

  -- The entry that a scan finds passes the test.
  pub find_index-some :
      (p : A → Bool) (xs : List A) (i : ℕ)
      → find_index p xs ≡ some i
      → (a : A) × (get_elem? xs i ≡ some a) × (p a ≡ true)
  unfolding find_index
  find_index-some p [] i h = absurd (cc h)
  find_index-some p (x ∷ xs) zero h = elim (Bool-cases (p x)) [
    | inl t ↦ (x, refl, t)
    | inr f ↦ absurd (ground arith)
  ]
  find_index-some p (x ∷ xs) (suc i) h = elim (Bool-cases (p x)) [
    | inl t ↦ absurd (ground arith)
    | inr f ↦ find_index-some p xs i (ground arith)
  ]

  -- A scan that finds nothing has passed no entry.
  pub find_index-none :
      (p : A → Bool) (xs : List A) (i : ℕ) (a : A)
      → find_index p xs ≡ none
      → get_elem? xs i ≡ some a
      → p a ≡ false
  unfolding find_index
  find_index-none p [] i a h e = absurd (cc e)
  find_index-none p (x ∷ xs) zero a h e = elim (Bool-cases (p x)) [
    | inl t ↦ absurd (ground arith)
    | inr f ↦ cc
  ]
  find_index-none p (x ∷ xs) (suc i) a h e = elim (Bool-cases (p x)) [
    | inl t ↦ absurd (ground arith)
    | inr f ↦ find_index-none p xs i a (ground arith) e
  ]

  -- A scan that finds nothing stops at the first entry that passes, among those pushed later.
  pub find_index-push :
      (p : A → Bool) (xs : List A) (a : A)
      → find_index p xs ≡ none
      → p a ≡ true
      → find_index p (xs ++ a ∷ []) ≡ some (length xs)
  unfolding find_index
  find_index-push p [] a h q = rw q
  find_index-push p (x ∷ xs) a h q = ground (arith, find_index-push p xs a)

  -- What was found is found at the same index when more is pushed.
  pub find_index-append :
      (p : A → Bool) (xs ys : List A) (i : ℕ)
      → find_index p xs ≡ some i
      → find_index p (xs ++ ys) ≡ some i
  unfolding find_index
  find_index-append p [] ys i h = absurd (cc h)
  find_index-append p (x ∷ xs) ys zero h = elim (Bool-cases (p x)) [
    | inl t ↦ rw t
    | inr f ↦ absurd (ground arith)
  ]
  find_index-append p (x ∷ xs) ys (suc i) h = elim (Bool-cases (p x)) [
    | inl t ↦ absurd (ground arith)
    | inr f ↦ rw (f, find_index-append p xs ys i (ground arith))
  ]

pub length-map {ℓ κ} :
    {A : Type ℓ} {B : Type κ} (xs : List A) (f : A → B) → length (map f xs) ≡ length xs
length-map [] f = refl
length-map (x ∷ xs) f = ap suc (length-map xs f)

-- ===== src/Bir/Interning.antt =====
-- `intern_type` of src/ir/bir.c: it is idempotent, moves nothing, and gives two types one index
-- exactly when their compared fields agree.
use booth.Base.{
  ℕ, ◌+◌, ◌<◌, ◌≤◌, ◌≡◌, ◌↔◌, sym, ap, ◌∙◌, arith, bit_or, bit_or_one, Bool, true, false,
  Bool-cases, Option-cases, inl, inr, leb, none, some, List, [], ◌∷◌, ◌++◌, length, length-append,
  get_elem?, get_elem?-append_left, get_elem?-append_last, find_index, find_index-some,
  find_index-push, lt-length_of_get_elem?,
}
use booth.Bir.Defs.{BirType, BirModule, bir_pfull, bir_p_types, bir_max_types}
use booth.Bir.Types.{type_eq_simple, intern_type}

type_eq_simple_refl : (t : BirType) → type_eq_simple t t ≡ true
unfolding type_eq_simple
type_eq_simple_refl t = ground arith

type_eq_simple_trans :
    (a b c : BirType)
    → type_eq_simple a b ≡ true
    → type_eq_simple a c ≡ true
    → type_eq_simple b c ≡ true
unfolding type_eq_simple
type_eq_simple_trans a b c p q = ground arith

type_eq_simple_agree :
    (t u a : BirType) → type_eq_simple t u ≡ true → type_eq_simple a t ≡ type_eq_simple a u
unfolding type_eq_simple
type_eq_simple_agree t u a h = elim (Bool-cases (type_eq_simple a t)) [
  | inl p ↦ p ∙ sym (ground arith)
  | inr p ↦ elim (Bool-cases (type_eq_simple a u)) [
    | inl q ↦ absurd (ground arith)
    | inr q ↦ p ∙ sym q
  ]
]

same_entry :
    (pool : List BirType) (i j : ℕ) (a b u : BirType)
    → get_elem? pool i ≡ some a
    → get_elem? pool j ≡ some b
    → j ≡ i
    → type_eq_simple b u ≡ true
    → type_eq_simple a u ≡ true
same_entry pool i j a b u p q e h = cc

module _ {D : Type 0} (M : BirModule D) (t : BirType) where
  abbrev same : BirType → Bool
  same u = type_eq_simple u t

  -- The three ways in which the function ends.
  pub intern_type-found : (i : ℕ) → find_index same M.types ≡ some i → intern_type M t ≡ (i, M)
  unfolding intern_type
  intern_type-found i h = rw (h, intern_type)

  pub intern_type-full :
      find_index same M.types ≡ none
      → leb bir_max_types (length M.types) ≡ true
      → intern_type M t ≡ (0, bir_pfull M bir_p_types)
  unfolding intern_type
  intern_type-full h f = rw (h, intern_type, f)

  pub intern_type-pushed :
      find_index same M.types ≡ none
      → leb bir_max_types (length M.types) ≡ false
      → intern_type M t ≡ (length M.types, record M { types = M.types ++ t ∷ [] })
  unfolding intern_type
  intern_type-pushed h f = rw (h, intern_type, f)

or_one_again : (a : ℕ) → bit_or (bit_or a 1) 1 ≡ bit_or a 1
or_one_again a = ground (arith, bit_or_one a, bit_or_one (bit_or a 1))

module _ {D : Type 0} where
  bir_pfull_again :
      (M : BirModule D) → bir_pfull (bir_pfull M bir_p_types) bir_p_types ≡ bir_pfull M bir_p_types
  unfolding bir_pfull
  bir_pfull_again M = ap (λ (v : ℕ). record M { pool_full = v }) (or_one_again M.pool_full)

  -- A pool that is full stays as it is, with its bit set.
  full_again :
      (M : BirModule D) (t : BirType)
      → find_index (λ u. type_eq_simple u t) M.types ≡ none
      → leb bir_max_types (length M.types) ≡ true
      → intern_type (bir_pfull M bir_p_types) t ≡ (0, bir_pfull M bir_p_types)
  unfolding bir_pfull
  full_again M t h f =
      intern_type-full (bir_pfull M bir_p_types) t h f ∙ ap (λ N. (0, N)) (bir_pfull_again M)

  pushed_again :
      (M : BirModule D) (t : BirType)
      → find_index (λ u. type_eq_simple u t) M.types ≡ none
      → intern_type (record M { types = M.types ++ t ∷ [] }) t
        ≡ (length M.types, record M { types = M.types ++ t ∷ [] })
  pushed_again M t h =
      intern_type-found (record M { types = M.types ++ t ∷ [] }) t (length M.types)
        (find_index-push (λ u. type_eq_simple u t) M.types t h (type_eq_simple_refl t))

  -- Interning a type once more answers the same index and leaves the module as it is, also
  -- where the pool is full.
  pub intern_type_again :
      (M : BirModule D) (t : BirType) → intern_type (intern_type M t).1 t ≡ intern_type M t
  intern_type_again M t = elim (Option-cases (find_index (λ u. type_eq_simple u t) M.types)) [
    | inl h ↦ elim (Bool-cases (leb bir_max_types (length M.types))) [
      | inl f ↦ rw (intern_type-full M t h f) (full_again M t h f)
      | inr f ↦ rw (intern_type-pushed M t h f) (pushed_again M t h)
    ]
    | inr (i, h) ↦ rw (intern_type-found M t i h) (intern_type-found M t i h)
  ]

  -- What stands in the pool keeps its index, and the pool its bound.
  pub intern_type_keeps :
      (M : BirModule D) (t : BirType) (i : ℕ) (a : BirType)
      → get_elem? M.types i ≡ some a
      → get_elem? (intern_type M t).1.types i ≡ some a
  unfolding bir_pfull
  intern_type_keeps M t i a p = elim (Option-cases (find_index (λ u. type_eq_simple u t) M.types)) [
    | inl h ↦ elim (Bool-cases (leb bir_max_types (length M.types))) [
      | inl f ↦ rw (intern_type-full M t h f) p
      | inr f ↦
          rw (intern_type-pushed M t h f)
            (get_elem?-append_left M.types (t ∷ []) i (lt-length_of_get_elem? M.types i a p) ∙ p)
    ]
    | inr (j, h) ↦ rw (intern_type-found M t j h) p
  ]

  -- Where there is room, the index answered is that of an entry which compares equal.
  pub intern_type_stands :
      (M : BirModule D) (t : BirType)
      → length M.types < bir_max_types
      → (a : BirType) × (get_elem? (intern_type M t).1.types (intern_type M t).0 ≡ some a)
        × (type_eq_simple a t ≡ true)
  intern_type_stands M t room = elim (Option-cases (find_index (λ u. type_eq_simple u t) M.types)) [
    | inl h ↦
        rw (intern_type-pushed M t h (ground arith))
          (t, get_elem?-append_last M.types t, type_eq_simple_refl t)
    | inr (j, h) ↦
        rw (intern_type-found M t j h) (find_index-some (λ u. type_eq_simple u t) M.types j h)
  ]

  intern_type_found_after :
      (M : BirModule D) (t : BirType)
      → length M.types < bir_max_types
      → find_index (λ a. type_eq_simple a t) (intern_type M t).1.types ≡ some (intern_type M t).0
  intern_type_found_after M t room =
      elim (Option-cases (find_index (λ u. type_eq_simple u t) M.types)) [
        | inl h ↦
            rw (intern_type-pushed M t h (ground arith))
              (find_index-push (λ u. type_eq_simple u t) M.types t h (type_eq_simple_refl t))
        | inr (j, h) ↦ rw (intern_type-found M t j h) h
      ]

  -- A type that compares equal to the one before is found where that one stands.
  intern_type_same :
      (M : BirModule D) (t u : BirType)
      → length M.types < bir_max_types
      → type_eq_simple t u ≡ true
      → intern_type (intern_type M t).1 u ≡ intern_type M t
  intern_type_same M t u room h = intern_type-found (intern_type M t).1 u (intern_type M t).0 (
      ap (λ p. find_index p (intern_type M t).1.types) (λ i a. sym (type_eq_simple_agree t u a h) i)
      ∙ intern_type_found_after M t room)

  pub intern_type_room :
      (M : BirModule D) (t : BirType) → length (intern_type M t).1.types ≤ length M.types + 1
  unfolding bir_pfull
  intern_type_room M t = elim (Option-cases (find_index (λ u. type_eq_simple u t) M.types)) [
    | inl h ↦ elim (Bool-cases (leb bir_max_types (length M.types))) [
      | inl f ↦ rw (intern_type-full M t h f) (omega arith)
      | inr f ↦ rw (intern_type-pushed M t h f) (omega (arith, length-append M.types (t ∷ [])))
    ]
    | inr (j, h) ↦ rw (intern_type-found M t j h) (omega arith)
  ]

  -- Two types interned one after the other, with room for both, get one index exactly when they
  -- compare equal.
  pub intern_type_iff :
      (M : BirModule D) (t u : BirType)
      → length M.types + 2 ≤ bir_max_types
      → ((intern_type (intern_type M t).1 u).0 ≡ (intern_type M t).0) ↔ (type_eq_simple t u ≡ true)
  intern_type_iff M t u room =
      let M₁ = (intern_type M t).1 in
      let (a, at_a, a_t) = intern_type_stands M t (omega arith) in
      let (b, at_b, b_u) = intern_type_stands M₁ u (omega (arith, intern_type_room M t)) in
      let kept = intern_type_keeps M₁ u (intern_type M t).0 a at_a in
      (
        (λ e. type_eq_simple_trans a t u a_t (
            same_entry (intern_type M₁ u).1.types (intern_type M t).0 (intern_type M₁ u).0 a b u
              kept at_b e b_u)),
        (λ h. ap (λ r. r.0) (intern_type_same M t u (omega arith) h)),
      )

-- ===== src/Bir/Quals.antt =====
-- `bir_tcst` and `bir_tunq` of src/ir/bir.c: the qualifier that is put on comes off again.
use booth.Base.{
  ℕ, ◌<◌, ◌≡◌, refl, arith, true, false, Option-cases, inl, inr, leb, some, List, length, get_elem?,
  lt-length_of_get_elem?, find_index, find_index-some, find_index-none,
}
use mathlib.Core.Option
use booth.Bir.Defs.{BirType, BirModule, bir_max_types}
use booth.Bir.Types.{type_eq_simple, intern_type, unqualifies, bir_tcst, bir_tunq}
use booth.Bir.Interning.{intern_type_keeps, intern_type_stands}

module _ (t c q : BirType) (plain : t.cst ≡ 0)
    (same : type_eq_simple c (record t { cst = 1 }) ≡ true) where
  const_cst : c.cst ≡ 1
  unfolding type_eq_simple
  const_cst = ground (arith, same)

  unqualifies_self : unqualifies c t ≡ true
  unfolding type_eq_simple unqualifies
  unqualifies_self = ground (arith, same, plain)

  unqualifies_only : unqualifies c q ≡ true → type_eq_simple q t ≡ true
  unfolding type_eq_simple unqualifies
  unqualifies_only h = ground (arith, same, plain, h)

in_range :
    (xs : List BirType) (i : ℕ) (t : BirType) → get_elem? xs i ≡ some t → leb (length xs) i ≡ false
in_range xs i t at = ground (arith, lt-length_of_get_elem? xs i t at)

module _ {D : Type 0} where
  bir_tcst-plain :
      (M : BirModule D) (ty : ℕ) (t : BirType)
      → get_elem? M.types ty ≡ some t
      → t.cst ≡ 0
      → bir_tcst M ty ≡ intern_type M (record t { cst = 1 })
  unfolding bir_tcst
  bir_tcst-plain M ty t at z = rw (in_range M.types ty t at, at, z) refl

  bir_tunq-const :
      (M : BirModule D) (ty : ℕ) (c : BirType)
      → get_elem? M.types ty ≡ some c
      → c.cst ≡ 1
      → bir_tunq M ty ≡ Option.get_or (find_index (unqualifies c) M.types) ty
  unfolding bir_tunq
  bir_tunq-const M ty c at z = rw (in_range M.types ty c at, at, z) refl

  -- The scan for the type without its qualifier answers an entry that compares equal to it.
  unqualified :
      (M : BirModule D) (ty i : ℕ) (t c : BirType)
      → get_elem? M.types ty ≡ some t
      → t.cst ≡ 0
      → get_elem? M.types i ≡ some c
      → type_eq_simple c (record t { cst = 1 }) ≡ true
      → (q : BirType) × (get_elem? M.types (bir_tunq M i) ≡ some q) × (type_eq_simple q t ≡ true)
  unqualified M ty i t c at z at_c same = elim (Option-cases (find_index (unqualifies c) M.types)) [
    | inl h ↦ absurd (
        ground
          (arith, find_index-none (unqualifies c) M.types ty t h at, unqualifies_self t c t z same))
    | inr (j, h) ↦
        let (q, at_q, ok) = find_index-some (unqualifies c) M.types j h in
        rw (bir_tunq-const M i c at_c (const_cst t c t z same), h)
          (q, at_q, unqualifies_only t c q z same ok)
  ]

  -- Where there is room, the const type of an entry without the qualifier is an entry that
  -- compares equal to it with the qualifier, and dropping the qualifier there answers an entry
  -- that compares equal to the first.
  pub bir_tunq-bir_tcst :
      (M : BirModule D) (ty : ℕ) (t : BirType)
      → get_elem? M.types ty ≡ some t
      → t.cst ≡ 0
      → length M.types < bir_max_types
      → ((c : BirType) × (get_elem? (bir_tcst M ty).1.types (bir_tcst M ty).0 ≡ some c)
          × (type_eq_simple c (record t { cst = 1 }) ≡ true))
        × ((q : BirType) × (get_elem?
                (bir_tcst M ty).1.types
                (bir_tunq (bir_tcst M ty).1 (bir_tcst M ty).0)
              ≡ some q)
            × (type_eq_simple q t ≡ true))
  bir_tunq-bir_tcst M ty t at z room =
      let t₁ = record t { cst = 1 } in
      let (c, at_c, same) = intern_type_stands M t₁ room in
      rw (bir_tcst-plain M ty t at z) (
        (c, at_c, same),
        unqualified (intern_type M t₁).1 ty (intern_type M t₁).0 t c
            (intern_type_keeps M t₁ ty t at) z at_c same,
      )

-- ===== src/Bir/Compound.antt =====
-- `intern_compound` of src/ir/bir.c: the entry answered describes the fields that were passed.
use booth.Base.{
  ℕ, zero, suc, ◌+◌, ◌%◌, ◌^◌, ◌<◌, ◌≤◌, ◌≡◌, refl, ap, ◌∙◌, arith, Bool, true, false, ◌&&◌, ◌==◌,
  ==_refl, Option-cases, inl, inr, ltb, leb, none, some, List, [], ◌∷◌, ◌++◌, length, get_elem?,
  get_elem?-append_last, find_index, find_index-some,
}
use mathlib.Core.Option
use booth.Bir.Defs.{BirType, BirModule, zero_type, bir_max_types, bir_max_type_fields}
use booth.Bir.Types.{fields_match, compound_match, intern_compound}

fields_match-cons :
    (y : ℕ) (pool : List ℕ) (start : ℕ) (fields : List ℕ)
    → fields_match (y ∷ pool) (suc start) fields ≡ fields_match pool start fields
unfolding fields_match
fields_match-cons y pool start [] = refl
fields_match-cons y pool start (x ∷ xs) =
    ap (λ b. Option.get_or (get_elem? pool start) 0 == x && b)
      (ap (λ k. fields_match (y ∷ pool) k xs) (omega arith)
        ∙ fields_match-cons y pool (start + 1) xs)

fields_match_refl : (fields : List ℕ) → fields_match fields 0 fields ≡ true
unfolding fields_match
fields_match_refl [] = refl
fields_match_refl (x ∷ xs) = rw (==_refl x) (fields_match-cons x xs 0 xs ∙ fields_match_refl xs)

-- The fields at the end of the pool are those that were appended.
fields_match-append :
    (pool fields : List ℕ) → fields_match (pool ++ fields) (length pool) fields ≡ true
fields_match-append [] fields = fields_match_refl fields
fields_match-append (y ∷ pool) fields =
    fields_match-cons y (pool ++ fields) (length pool) fields ∙ fields_match-append pool fields

-- What the scan compares, entry by entry.
fields_match-get_elem? :
    (pool : List ℕ) (start : ℕ) (fields : List ℕ)
    → fields_match pool start fields ≡ true
    → (j : ℕ) → j < length fields
    → Option.get_or (get_elem? pool (start + j)) 0 ≡ Option.get_or (get_elem? fields j) 0
unfolding fields_match
fields_match-get_elem? pool start [] h j lt = absurd (omega arith)
fields_match-get_elem? pool start (x ∷ xs) h zero lt = ground (arith, h)
fields_match-get_elem? pool start (x ∷ xs) h (suc j) lt =
    ap (λ k. Option.get_or (get_elem? pool k) 0) (omega arith)
    ∙ fields_match-get_elem? pool (start + 1) xs (ground arith) j (omega arith)

module _ {D : Type 0} (M : BirModule D) (kind inner : ℕ) (fields : List ℕ) where
  abbrev matches : BirType → Bool
  matches = compound_match M kind inner fields

  abbrev new_entry : BirType
  new_entry = record zero_type {
    kind = kind;
    inner = inner;
    count = length M.type_fields;
    num_fields = length fields % 2 ^ 16;
  }

  abbrev pushed : BirModule D
  pushed = record M { types = M.types ++ new_entry ∷ []; type_fields = M.type_fields ++ fields }

  intern_compound-found :
      (i : ℕ) → find_index matches M.types ≡ some i → intern_compound M kind inner fields ≡ (i, M)
  unfolding intern_compound
  intern_compound-found i h = rw (h, intern_compound)

  intern_compound-pushed :
      find_index matches M.types ≡ none
      → ltb bir_max_type_fields (length M.type_fields + length fields) ≡ false
      → leb bir_max_types (length M.types) ≡ false
      → intern_compound M kind inner fields ≡ (length M.types, pushed)
  unfolding intern_compound
  intern_compound-pushed h p q = rw (h, intern_compound, p, q)

  new_entry_matches : compound_match pushed kind inner fields new_entry ≡ true
  unfolding compound_match
  new_entry_matches =
      rw
        (
          ==_refl kind,
          ==_refl inner,
          ==_refl (length fields % 2 ^ 16),
          fields_match-append M.type_fields fields,
        )
        refl

  -- The entry stands at the index and passes the comparison, in the module after.
  intern_compound_stands :
      length M.types < bir_max_types
      → length M.type_fields + length fields ≤ bir_max_type_fields
      → (a : BirType) × (get_elem?
            (intern_compound M kind inner fields).1.types
            (intern_compound M kind inner fields).0
          ≡ some a)
        × (compound_match (intern_compound M kind inner fields).1 kind inner fields a ≡ true)
  intern_compound_stands room fits = elim (Option-cases (find_index matches M.types)) [
    | inl h ↦
        rw (intern_compound-pushed h (ground arith) (ground arith))
          (new_entry, get_elem?-append_last M.types new_entry, new_entry_matches)
    | inr (i, h) ↦ rw (intern_compound-found i h) (find_index-some matches M.types i h)
  ]

  -- Where there is room in both pools, the entry that intern_compound answers has the kind and
  -- the type asked for and the number of fields, as 16 bits, and its slice of the fields pool
  -- holds the fields in order.
  pub intern_compound_lem :
      length M.types < bir_max_types
      → length M.type_fields + length fields ≤ bir_max_type_fields
      → (a : BirType) × (get_elem?
            (intern_compound M kind inner fields).1.types
            (intern_compound M kind inner fields).0
          ≡ some a)
        × (a.kind ≡ kind)
        × (a.inner ≡ inner)
        × (a.num_fields ≡ length fields % 2 ^ 16)
        × ((j : ℕ)
            → j < length fields
            → Option.get_or
                (get_elem? (intern_compound M kind inner fields).1.type_fields (a.count + j))
                0
              ≡ Option.get_or (get_elem? fields j) 0)
  unfolding compound_match
  intern_compound_lem room fits =
      let (a, stands, same) = intern_compound_stands room fits in
      (
        a,
        stands,
        ground (arith, same),
        ground (arith, same),
        ground (arith, same),
        fields_match-get_elem? (intern_compound M kind inner fields).1.type_fields a.count fields
            (ground (arith, same)),
      )

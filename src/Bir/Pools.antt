-- ===== src/Bir/Pools.antt =====
-- What the constants and the string table of src/ir/bir.c promise of an index.
use booth.Base.{
  ℕ, ◌+◌, ◌<◌, ◌≤◌, ◌≡◌, refl, ap, ◌∙◌, arith, true, false, Option-cases, inl, inr, ltb, leb, none,
  some, List, [], ◌∷◌, ◌++◌, length, get_elem?, get_elem?-append_left, get_elem?-append_right,
  get_elem?-append_last, lt-length_of_get_elem?, find_index, find_index-some, find_index-push,
  ==_refl,
}
use booth.Bir.Defs.{
  BirConst, ConstValue, int, float, null, undef, zeros, bytes, BirModule, bir_max_consts,
  bir_max_strings,
}
use booth.Bir.Consts.{push_const, is_int, bir_const_int, bir_add_string}

no_limit : (n : ℕ) → n < bir_max_consts → leb bir_max_consts n ≡ false
no_limit n room = ground arith

in_table : (n : ℕ) → n ≤ bir_max_strings → ltb bir_max_strings n ≡ false
in_table n fits = ground arith

module _ {D : Type 0} where
  int_only :
      (u type val : ℕ) (v : ConstValue D)
      → is_int type val (record { type = u; value = v }) ≡ true
      → (u ≡ type) × (v ≡ int val)
  unfolding is_int
  int_only u type val (int v) h = (ground (arith, h), ap int (ground (arith, h)))
  int_only u type val (float v) h = absurd (cc h)
  int_only u type val null h = absurd (cc h)
  int_only u type val undef h = absurd (cc h)
  int_only u type val zeros h = absurd (cc h)
  int_only u type val (bytes off len) h = absurd (cc h)

  is_int_only :
      (c : BirConst D) (type val : ℕ)
      → is_int type val c ≡ true
      → c ≡ record { type = type; value = int val }
  is_int_only c type val h =
      let (p, q) = int_only c.type type val c.value h in λ i. record { type = p i; value = q i }

  is_int_refl :
      (c : BirConst D) (type val : ℕ)
      → c ≡ record { type = type; value = int val }
      → is_int type val c ≡ true
  unfolding is_int
  is_int_refl c type val e = rw (e, ==_refl type, ==_refl val) refl

  push_const-room :
      (M : BirModule D) (c : BirConst D)
      → length M.consts < bir_max_consts
      → push_const M c ≡ (length M.consts, record M { consts = M.consts ++ c ∷ [] })
  unfolding push_const
  push_const-room M c room = rw (no_limit (length M.consts) room) refl

  int-found :
      (M : BirModule D) (type val i : ℕ)
      → find_index (is_int type val) M.consts ≡ some i
      → bir_const_int M type val ≡ (i, M)
  unfolding bir_const_int
  int-found M type val i h = rw (h, bir_const_int) refl

  int-pushed :
      (M : BirModule D) (type val : ℕ)
      → length M.consts < bir_max_consts
      → find_index (is_int type val) M.consts ≡ none
      → bir_const_int M type val ≡ (
        length M.consts,
        record M { consts = M.consts ++ record { type = type; value = int val } ∷ [] },
      )
  unfolding bir_const_int
  int-pushed M type val room h =
      rw (h, bir_const_int) (push_const-room M (record { type = type; value = int val }) room)

  -- Where there is room, the index of an integer constant holds exactly that type and value,
  -- the constants before stay where they are, and asking again gives the same index and module.
  pub bir_const_int_lem :
      (M : BirModule D) (type val : ℕ)
      → length M.consts < bir_max_consts
      → (get_elem? (bir_const_int M type val).1.consts (bir_const_int M type val).0
          ≡ some (record { type = type; value = int val }))
        × ((i : ℕ) (c : BirConst D)
            → get_elem? M.consts i ≡ some c
            → get_elem? (bir_const_int M type val).1.consts i ≡ some c)
        × (bir_const_int (bir_const_int M type val).1 type val ≡ bir_const_int M type val)
  bir_const_int_lem M type val room =
      let k : BirConst D = record { type = type; value = int val } in
      let N = record M { consts = M.consts ++ k ∷ [] } in
      elim (Option-cases (find_index (is_int type val) M.consts)) [
        | inl h ↦ rw (int-pushed M type val room h) (
          get_elem?-append_last M.consts k,
          (λ i c at.
              get_elem?-append_left M.consts (k ∷ []) i (lt-length_of_get_elem? M.consts i c at)
              ∙ at),
          int-found N type val (length M.consts)
              (find_index-push (is_int type val) M.consts k h (is_int_refl k type val refl)),
        )
        | inr (j, h) ↦
            let (c, at, same) = find_index-some (is_int type val) M.consts j h in
            rw (int-found M type val j h)
              (at ∙ ap some (is_int_only c type val same), (λ i d e. e), int-found M type val j h)
      ]

  string-fits :
      (M : BirModule D) (s : List ℕ)
      → length M.strings + length s + 1 ≤ bir_max_strings
      → bir_add_string M s ≡ (length M.strings, record M { strings = M.strings ++ (s ++ 0 ∷ []) })
  unfolding bir_add_string
  string-fits M s fits = rw (in_table (length M.strings + length s + 1) fits) refl

  -- A string that fits stands at the offset answered, with a zero after it, and the bytes
  -- before it stay as they are.
  pub bir_add_string_lem :
      (M : BirModule D) (s : List ℕ)
      → length M.strings + length s + 1 ≤ bir_max_strings
      → ((j : ℕ)
          → j < length s
          → get_elem? (bir_add_string M s).1.strings ((bir_add_string M s).0 + j) ≡ get_elem? s j)
        × (get_elem? (bir_add_string M s).1.strings ((bir_add_string M s).0 + length s) ≡ some 0)
        × ((i : ℕ)
            → i < length M.strings
            → get_elem? (bir_add_string M s).1.strings i ≡ get_elem? M.strings i)
  bir_add_string_lem M s fits = rw (string-fits M s fits) (
    (λ j lt.
        get_elem?-append_right M.strings (s ++ 0 ∷ []) j ∙ get_elem?-append_left s (0 ∷ []) j lt),
    get_elem?-append_right M.strings (s ++ 0 ∷ []) (length s) ∙ get_elem?-append_last s 0,
    get_elem?-append_left M.strings (s ++ 0 ∷ []),
  )

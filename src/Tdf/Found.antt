-- ===== src/Tdf/Found.antt =====
-- What the tests of classify_params and find_kernel of src/tdf/tdf_fission.c say of a module.
use mathlib.Core.Option
use mathlib.Core.Path.{subst}
use booth.Base.{
  ℕ, zero, suc, ◌<◌, ◌≡◌, ◌≢◌, refl, ap, arith, bit_and, Bool, true, false, not, ◌==◌, ltb, none,
  some, Option-cases, Bool-cases, inl, inr, List, [], ◌∷◌, length, get_elem?, find_index,
  find_index-some, find_index-none,
}
use booth.Bir.Defs.{BirFunc, BirModule}
use booth.Tdf.Fission.{find_kernel, cuda_global}

-- The first function that is marked as a kernel, or the first of a module that marks none.
pub data IsKernel {D : Type 0} (bir : BirModule D) : ℕ → Type 0 where
  marked :
      (fi : ℕ) (F : BirFunc)
      → get_elem? bir.funcs fi ≡ some F
      → bit_and F.cuda_flags cuda_global ≢ 0
      → ((j : ℕ) (G : BirFunc)
          → j < fi
          → get_elem? bir.funcs j ≡ some G
          → bit_and G.cuda_flags cuda_global ≡ 0)
      → IsKernel bir fi
  unmarked :
      0 < length bir.funcs
      → ((j : ℕ) (G : BirFunc)
          → get_elem? bir.funcs j ≡ some G
          → bit_and G.cuda_flags cuda_global ≡ 0)
      → IsKernel bir 0

module _ {ℓ} {A : Type ℓ} (p : A → Bool) where
  find_index-before :
      (xs : List A) (i j : ℕ) (a : A)
      → find_index p xs ≡ some i
      → j < i
      → get_elem? xs j ≡ some a
      → p a ≡ false
  unfolding find_index
  find_index-before [] i j a h low e = cc e
  find_index-before (x ∷ xs) zero j a h low e = absurd (omega arith)
  find_index-before (x ∷ xs) (suc i) zero a h low e = elim (Bool-cases (p x)) [
    | inl t ↦ absurd (ground arith)
    | inr f ↦ cc
  ]
  find_index-before (x ∷ xs) (suc i) (suc j) a h low e = elim (Bool-cases (p x)) [
    | inl t ↦ absurd (ground arith)
    | inr f ↦ find_index-before xs i j a (ground arith) (omega arith) e
  ]

  find_index-first :
      (xs : List A) (i : ℕ) (a : A)
      → get_elem? xs i ≡ some a
      → p a ≡ true
      → ((j : ℕ) (b : A) → j < i → get_elem? xs j ≡ some b → p b ≡ false)
      → find_index p xs ≡ some i
  unfolding find_index
  find_index-first [] i a e t before = cc e
  find_index-first (x ∷ xs) zero a e t before =
      let here : p x ≡ true = cc in rw (here, find_index) refl
  find_index-first (x ∷ xs) (suc i) a e t before =
      let rest = find_index-first xs i a e t (λ j b low. before (suc j) b (omega arith)) in
      rw (before 0 x (omega arith) refl, find_index) (rw rest refl)

  find_index-absent :
      (xs : List A)
      → ((j : ℕ) (b : A) → get_elem? xs j ≡ some b → p b ≡ false)
      → find_index p xs ≡ none
  unfolding find_index
  find_index-absent [] each = refl
  find_index-absent (x ∷ xs) each =
      let rest = find_index-absent xs (λ j b. each (suc j) b) in
      rw (each 0 x refl, find_index) (rw rest refl)

module _ {D : Type 0} (bir : BirModule D) where
  abbrev is_marked : BirFunc → Bool
  is_marked F = not (bit_and F.cuda_flags cuda_global == 0)

  pub IsKernel-find_kernel : (fi : ℕ) → IsKernel bir fi → find_kernel bir ≡ some fi
  unfolding find_kernel
  IsKernel-find_kernel fi (marked _ F there mark before) =
      let found =
        find_index-first is_marked bir.funcs fi F there (ground arith)
          (λ j G low e. ground (arith, before j G low e)) in
      rw (found, find_kernel) refl
  IsKernel-find_kernel fi (unmarked some_func none_marked) =
      let absent =
        find_index-absent is_marked bir.funcs (λ j G e. ground (arith, none_marked j G e)) in
      let has : ltb 0 (length bir.funcs) ≡ true = ground arith in
      rw (absent, find_kernel) (rw has refl)

  pub find_kernel-IsKernel : (fi : ℕ) → find_kernel bir ≡ some fi → IsKernel bir fi
  unfolding find_kernel
  find_kernel-IsKernel fi h = elim (Option-cases (find_index is_marked bir.funcs)) [
    | inr (i, e) ↦
        let h' : some i ≡ some fi = rw (e, find_kernel) at h in
        let (F, there, t) = find_index-some is_marked bir.funcs i e in
        subst (IsKernel bir) (ap (λ o. Option.get_or o fi) h') (
          marked i F there (ground arith)
            (λ j G low g. ground (arith, find_index-before is_marked bir.funcs i j G e low g)))
    | inl e ↦ elim (Bool-cases (ltb 0 (length bir.funcs))) [
      | inr l ↦ let h' : none ≡ some fi = rw (e, l, find_kernel) at h in cc h'
      | inl l ↦
          let h' : some 0 ≡ some fi = rw (e, l, find_kernel) at h in
          subst (IsKernel bir) (ap (λ o. Option.get_or o fi) h') (
            unmarked (ground arith)
              (λ j G g. ground (arith, find_index-none is_marked bir.funcs j G e g)))
    ]
  ]

-- ===== src/Bir/Pinned.antt =====
-- What every change of the type pool of src/ir/bir.c keeps: `void` at index 0, and the bounds of
-- the two pools.
use booth.Base.{
  ℕ, bit_and, ◌-◌, zero, suc, ◌+◌, ◌≤◌, ◌≡◌, ◌≢◌, refl, ap, ◌∙◌, arith, Bool, true, false, not,
  ◌&&◌, ◌||◌, ◌==◌, ltb, leb, if_cases, option_cases, lt-length_of_get_elem?, Option, some, List,
  [], ◌∷◌, ◌++◌, length, length-append, length-set, get_elem?, get_elem?-append_left,
  get_elem?-set_ne, set, find_index, find_index-nil,
}
use mathlib.Core.Option
use booth.Bir.Defs.{
  BirType, BirModule, zero_type, bir_pfull, bir_max_types, bir_max_type_fields, type_void,
  type_struct,
}
use booth.Bir.Types.{
  type_at, is_struct, type_eq_simple, intern_type, compound_match, intern_compound, bir_type_void,
  bir_type_int, bir_type_float, bir_type_bfloat, bir_type_ptr, bir_type_array, bir_type_vector,
  bir_type_struct, bir_type_func, bir_sfwd, bir_sfin, bir_umrk, bir_salg, bir_tcst, bir_module_init,
  cleared,
}
use booth.Bir.Interning.{intern_type-pushed}
use booth.Bir.Calls.{
  TypeCall, void_call, int_call, float_call, bfloat_call, ptr_call, array_call, vector_call,
  struct_call, func_call, sfwd_call, sfin_call, umrk_call, salg_call, tcst_call, run_call,
  run_calls,
}

abbrev pub void_type : BirType
void_type = record zero_type { kind = type_void }

pub IsPinned : List BirType → List ℕ → Type 0
IsPinned types fields =
    (length types ≤ bir_max_types)
    × (length fields ≤ bir_max_type_fields)
    × (get_elem? types 0 ≡ some void_type)

IsPinned-push :
    (types : List BirType) (fields : List ℕ) (t : BirType)
    → IsPinned types fields
    → leb bir_max_types (length types) ≡ false
    → IsPinned (types ++ t ∷ []) fields
unfolding IsPinned
IsPinned-push types fields t (b, f, v) room = (
  ground (arith, length-append types (t ∷ [])),
  f,
  get_elem?-append_left types (t ∷ []) 0 (lt-length_of_get_elem? types 0 void_type v) ∙ v,
)

IsPinned-fields :
    (types : List BirType) (fields more : List ℕ)
    → IsPinned types fields
    → ltb bir_max_type_fields (length fields + length more) ≡ false
    → IsPinned types (fields ++ more)
unfolding IsPinned
IsPinned-fields types fields more (b, f, v) p = (b, ground (arith, length-append fields more), v)

void_is_no_struct :
    (o : Option BirType) (b : Bool)
    → o ≡ some void_type
    → not (b && (Option.get_or o zero_type).kind == type_struct) ≡ true
void_is_no_struct o true v = ap (λ r. not ((Option.get_or r zero_type).kind == type_struct)) v
void_is_no_struct o false v = refl

module _ {D : Type 0} where
  -- The entry at 0 is no struct.
  not_void :
      (M : BirModule D) (ty : ℕ)
      → get_elem? M.types 0 ≡ some void_type
      → not (is_struct M ty) ≡ false
      → ty ≢ 0
  not_void M zero v struct =
      absurd (cc (struct, void_is_no_struct (get_elem? M.types 0) (ltb 0 (length M.types)) v))
  not_void M (suc ty) v struct = λ e. absurd (omega (arith, e))

  IsPinned-set :
      (M : BirModule D) (ty : ℕ) (t : BirType)
      → IsPinned M.types M.type_fields
      → not (is_struct M ty) ≡ false
      → IsPinned (set M.types ty t) M.type_fields
  unfolding IsPinned
  IsPinned-set M ty t (b, f, v) struct = (
    omega (arith, length-set M.types ty t),
    f,
    get_elem?-set_ne M.types ty 0 t (not_void M ty v struct) ∙ v,
  )

  IsKept : {A : Type 0} → A × BirModule D → Type 0
  IsKept r = IsPinned r.1.types r.1.type_fields

  intern_type-IsKept :
      (M : BirModule D) (t : BirType) → IsPinned M.types M.type_fields → IsKept (intern_type M t)
  unfolding intern_type IsKept bir_pfull
  intern_type-IsKept M t h =
      option_cases IsKept (find_index (λ u. type_eq_simple u t) M.types)
        (λ e.
          if_cases IsKept (leb bir_max_types (length M.types)) (λ f. h)
            (λ f. IsPinned-push M.types M.type_fields t h f))
        (λ i e. h)

  intern_compound-IsKept :
      (M : BirModule D) (kind inner : ℕ) (fields : List ℕ)
      → IsPinned M.types M.type_fields
      → IsKept (intern_compound M kind inner fields)
  unfolding intern_compound IsKept bir_pfull
  intern_compound-IsKept M kind inner fields h =
      option_cases IsKept (find_index (compound_match M kind inner fields) M.types)
        (λ e.
          if_cases IsKept (ltb bir_max_type_fields (length M.type_fields + length fields)) (λ p. h)
            (λ p.
              if_cases IsKept (leb bir_max_types (length M.types)) (λ f. h)
                (λ f.
                  IsPinned-push M.types (M.type_fields ++ fields) _
                    (IsPinned-fields M.types M.type_fields fields h p) f)))
        (λ i e. h)

  bir_sfwd-IsKept : (M : BirModule D) → IsPinned M.types M.type_fields → IsKept (bir_sfwd M)
  unfolding bir_sfwd IsKept bir_pfull
  bir_sfwd-IsKept M h =
      if_cases IsKept (leb bir_max_types (length M.types)) (λ f. h)
        (λ f. IsPinned-push M.types M.type_fields _ h f)

  bir_sfin-IsKept :
      (M : BirModule D) (ty : ℕ) (fields : List ℕ)
      → IsPinned M.types M.type_fields
      → IsKept (bir_sfin M ty fields)
  unfolding bir_sfin IsKept bir_pfull
  bir_sfin-IsKept M ty fields h =
      if_cases IsKept (not (is_struct M ty)) (λ e. h)
        (λ e.
          if_cases IsKept (ltb 0xFFFF (length fields)) (λ f. h)
            (λ f.
              if_cases IsKept (ltb bir_max_type_fields (length M.type_fields + length fields))
                (λ p. h)
                (λ p.
                  IsPinned-fields (set M.types ty _) M.type_fields fields (IsPinned-set M ty _ h e)
                    p)))

  bir_umrk-IsKept :
      (M : BirModule D) (ty : ℕ) → IsPinned M.types M.type_fields → IsKept (bir_umrk M ty)
  unfolding bir_umrk IsKept
  bir_umrk-IsKept M ty h =
      if_cases IsKept (not (is_struct M ty)) (λ e. h) (λ e. IsPinned-set M ty _ h e)

  bir_salg-IsKept :
      (M : BirModule D) (ty a : ℕ) → IsPinned M.types M.type_fields → IsKept (bir_salg M ty a)
  unfolding bir_salg IsKept
  bir_salg-IsKept M ty a h =
      if_cases IsKept (not (is_struct M ty)) (λ e. h)
        (λ e.
          if_cases IsKept (a == 0 || ltb 0xFFFF a || not (bit_and a (a - 1) == 0)) (λ f. h)
            (λ f. IsPinned-set M ty _ h e))

  bir_tcst-IsKept :
      (M : BirModule D) (ty : ℕ) → IsPinned M.types M.type_fields → IsKept (bir_tcst M ty)
  unfolding bir_tcst IsKept
  bir_tcst-IsKept M ty h =
      if_cases IsKept (leb (length M.types) ty) (λ e. h)
        (λ e.
          if_cases IsKept (not ((type_at M ty).cst == 0)) (λ f. h) (λ f. intern_type-IsKept M _ h))

  run_call_kept :
      (M : BirModule D) (c : TypeCall)
      → IsPinned M.types M.type_fields
      → IsPinned (run_call M c).types (run_call M c).type_fields
  unfolding run_call IsKept bir_type_void bir_type_int bir_type_float bir_type_bfloat bir_type_ptr
      bir_type_array bir_type_vector bir_type_struct bir_type_func
  run_call_kept M void_call h = intern_type-IsKept M _ h
  run_call_kept M (int_call w) h = intern_type-IsKept M _ h
  run_call_kept M (float_call w) h = intern_type-IsKept M _ h
  run_call_kept M bfloat_call h = intern_type-IsKept M _ h
  run_call_kept M (ptr_call p a) h = intern_type-IsKept M _ h
  run_call_kept M (array_call e n) h = intern_type-IsKept M _ h
  run_call_kept M (vector_call e n) h = intern_type-IsKept M _ h
  run_call_kept M (struct_call fs) h = intern_compound-IsKept M _ _ fs h
  run_call_kept M (func_call r ps) h = intern_compound-IsKept M _ _ ps h
  run_call_kept M sfwd_call h = bir_sfwd-IsKept M h
  run_call_kept M (sfin_call ty fs) h = bir_sfin-IsKept M ty fs h
  run_call_kept M (umrk_call ty) h = bir_umrk-IsKept M ty h
  run_call_kept M (salg_call ty a) h = bir_salg-IsKept M ty a h
  run_call_kept M (tcst_call ty) h = bir_tcst-IsKept M ty h

  run_calls_kept :
      (M : BirModule D) (cs : List TypeCall)
      → IsPinned M.types M.type_fields
      → IsPinned (run_calls M cs).types (run_calls M cs).type_fields
  unfolding run_calls
  run_calls_kept M [] h = h
  run_calls_kept M (c ∷ cs) h = run_calls_kept (run_call M c) cs (run_call_kept M c h)

module _ (D : Type 0) where
  bir_module_init_lem : bir_module_init {D = D} ≡ record cleared { types = void_type ∷ [] }
  unfolding bir_module_init bir_type_void
  bir_module_init_lem =
      ap (λ r. r.1) (intern_type-pushed {D = D} cleared void_type (find_index-nil _) refl)

  init-IsPinned : IsPinned (bir_module_init {D = D}).types (bir_module_init {D = D}).type_fields
  unfolding IsPinned
  init-IsPinned = rw bir_module_init_lem (omega arith, omega arith, refl)

  -- After bir_module_init and any sequence of calls that change the type pool, refused ones and
  -- writes in place included, void stands at index 0 and neither pool of types and of their
  -- fields is beyond its bound.
  pub run_calls-IsPinned :
      (cs : List TypeCall)
      → IsPinned
          (run_calls (bir_module_init {D = D}) cs).types
          (run_calls (bir_module_init {D = D}) cs).type_fields
  run_calls-IsPinned cs = run_calls_kept bir_module_init cs init-IsPinned

-- ===== src/Bir/Types.antt =====
-- The type pool of src/ir/bir.c: interning, and the operations that write a type in place. An
-- operation answers its index and the module after it.
use booth.Base.{
  ℕ, ◌+◌, ◌-◌, ◌%◌, ◌^◌, bit_and, Bool, true, false, not, ◌&&◌, ◌||◌, ◌==◌, ltb, leb, if◌then◌else◌,
  none, some, List, [], ◌∷◌, ◌++◌, length, get_elem?, set, find_index,
}
use mathlib.Core.Option
use booth.Bir.Defs.{
  BirType, zero_type, BirModule, bir_pfull, bir_p_types, bir_p_tfields, bir_max_types,
  bir_max_type_fields, type_void, type_int, type_float, type_bfloat, type_ptr, type_vector,
  type_struct, type_array, type_func,
}

-- `uni` is not compared.
unfoldable pub type_eq_simple : BirType → BirType → Bool
type_eq_simple a b =
    a.kind == b.kind
    && a.addrspace == b.addrspace
    && a.width == b.width
    && a.inner == b.inner
    && a.count == b.count
    && a.num_fields == b.num_fields
    && a.cst == b.cst

-- `M->type_fields[start + j] == fields[j]` for every `j`; what is not yet written is 0.
unfoldable pub fields_match : List ℕ → ℕ → List ℕ → Bool
fields_match pool start [] = true
fields_match pool start (x ∷ xs) =
    Option.get_or (get_elem? pool start) 0 == x && fields_match pool (start + 1) xs

unfoldable pub unqualifies : BirType → BirType → Bool
unqualifies q c =
    c.cst == 0
    && c.kind == q.kind
    && c.addrspace == q.addrspace
    && c.width == q.width
    && c.inner == q.inner
    && c.count == q.count
    && c.num_fields == q.num_fields

module _ {D : Type 0} where
  unfoldable pub intern_type : BirModule D → BirType → ℕ × BirModule D
  intern_type M t = elim (find_index (λ u. type_eq_simple u t) M.types) [
    | some i ↦ (i, M)
    | none ↦
        if leb bir_max_types (length M.types)
        then (0, bir_pfull M bir_p_types)
        else (length M.types, record M { types = M.types ++ t ∷ [] })
  ]

  unfoldable pub compound_match : BirModule D → (kind inner : ℕ) → List ℕ → BirType → Bool
  compound_match M kind inner fields t =
      not (
        not (t.kind == kind)
        || not (t.inner == inner)
        || not (t.uni == 0)
        || not (t.cst == 0)
        || not (t.num_fields == length fields % 2 ^ 16))
      && fields_match M.type_fields t.count fields

  unfoldable pub intern_compound : BirModule D → (kind inner : ℕ) → List ℕ → ℕ × BirModule D
  intern_compound M kind inner fields =
      elim (find_index (compound_match M kind inner fields) M.types) [
        | some i ↦ (i, M)
        | none ↦
            if ltb bir_max_type_fields (length M.type_fields + length fields)
            then (0, bir_pfull M bir_p_tfields)
            else if leb bir_max_types (length M.types)
            then (0, bir_pfull M bir_p_types)
            else (let nt = record zero_type {
              kind = kind;
              inner = inner;
              count = length M.type_fields;
              num_fields = length fields % 2 ^ 16;
            } in
                (
                  length M.types,
                  record M { types = M.types ++ nt ∷ []; type_fields = M.type_fields ++ fields },
                ))
      ]

  unfoldable pub bir_type_void : BirModule D → ℕ × BirModule D
  bir_type_void M = intern_type M (record zero_type { kind = type_void })

  -- Every byte cleared.
  abbrev pub cleared : BirModule D
  cleared = record {
    types = [];
    type_fields = [];
    consts = [];
    insts = [];
    inst_lines = [];
    extra_operands = [];
    blocks = [];
    funcs = [];
    globals = [];
    asms = [];
    strings = [];
    pool_full = 0;
  }

  -- `void` is pinned at index 0.
  unfoldable pub bir_module_init : BirModule D
  bir_module_init = (bir_type_void cleared).1

  unfoldable pub bir_type_int : BirModule D → ℕ → ℕ × BirModule D
  bir_type_int M width_bits =
      intern_type M (record zero_type { kind = type_int; width = width_bits % 2 ^ 16 })

  unfoldable pub bir_type_float : BirModule D → ℕ → ℕ × BirModule D
  bir_type_float M width_bits =
      intern_type M (record zero_type { kind = type_float; width = width_bits % 2 ^ 16 })

  unfoldable pub bir_type_bfloat : BirModule D → ℕ × BirModule D
  bir_type_bfloat M = intern_type M (record zero_type { kind = type_bfloat; width = 16 })

  unfoldable pub bir_type_ptr : BirModule D → (pointee addrspace : ℕ) → ℕ × BirModule D
  bir_type_ptr M pointee addrspace =
      intern_type M
        (record zero_type { kind = type_ptr; addrspace = addrspace % 2 ^ 8; inner = pointee })

  unfoldable pub bir_type_array : BirModule D → (elem count : ℕ) → ℕ × BirModule D
  bir_type_array M elem count =
      intern_type M (record zero_type { kind = type_array; inner = elem; count = count })

  unfoldable pub bir_type_vector : BirModule D → (elem count : ℕ) → ℕ × BirModule D
  bir_type_vector M elem count =
      intern_type M (record zero_type { kind = type_vector; inner = elem; width = count % 2 ^ 16 })

  unfoldable pub bir_type_struct : BirModule D → List ℕ → ℕ × BirModule D
  bir_type_struct M fields = intern_compound M type_struct 0 fields

  unfoldable pub bir_type_func : BirModule D → ℕ → List ℕ → ℕ × BirModule D
  bir_type_func M ret params = intern_compound M type_func ret params

  -- `&M->types[ty]`, where the callers below test the index first.
  abbrev pub type_at : BirModule D → ℕ → BirType
  type_at M ty = Option.get_or (get_elem? M.types ty) zero_type

  abbrev pub is_struct : BirModule D → ℕ → Bool
  is_struct M ty = ltb ty (length M.types) && (type_at M ty).kind == type_struct

  unfoldable pub bir_sfwd : BirModule D → ℕ × BirModule D
  bir_sfwd M = if leb bir_max_types (length M.types) then (0, bir_pfull M bir_p_types) else (
    length M.types,
    record M { types = M.types ++ record zero_type { kind = type_struct } ∷ [] },
  )

  -- `nfields` is the length of the array that the caller passes, so it is never negative.
  unfoldable pub bir_sfin : BirModule D → ℕ → List ℕ → Bool × BirModule D
  bir_sfin M ty fields =
      if not (is_struct M ty)
      then (false, M)
      else if ltb 0xFFFF (length fields)
      then (false, M)
      else if ltb bir_max_type_fields (length M.type_fields + length fields)
      then (false, bir_pfull M bir_p_tfields)
      else (let t = record (type_at M ty) {
        count = length M.type_fields;
        num_fields = length fields % 2 ^ 16;
      } in
          (true, record M { types = set M.types ty t; type_fields = M.type_fields ++ fields }))

  unfoldable pub bir_umrk : BirModule D → ℕ → Bool × BirModule D
  bir_umrk M ty =
      if not (is_struct M ty)
      then (false, M)
      else (true, record M { types = set M.types ty (record (type_at M ty) { uni = 1 }) })

  -- The alignment is a power of two that fits 16 bits.
  unfoldable pub bir_salg : BirModule D → (ty a : ℕ) → Bool × BirModule D
  bir_salg M ty a =
      if not (is_struct M ty)
      then (false, M)
      else if a == 0 || ltb 0xFFFF a || not (bit_and a (a - 1) == 0)
      then (false, M)
      else (
        true,
        record M { types = set M.types ty (record (type_at M ty) { width = a % 2 ^ 16 }) },
      )

  unfoldable pub bir_tcst : BirModule D → ℕ → ℕ × BirModule D
  bir_tcst M ty =
      if leb (length M.types) ty
      then (ty, M)
      else if not ((type_at M ty).cst == 0)
      then (ty, M)
      else intern_type M (record (type_at M ty) { cst = 1 })

  unfoldable pub bir_tunq : BirModule D → ℕ → ℕ
  bir_tunq M ty =
      if leb (length M.types) ty || (type_at M ty).cst == 0
      then ty
      else Option.get_or (find_index (unqualifies (type_at M ty)) M.types) ty

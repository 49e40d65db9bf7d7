-- ===== src/Bir/Tests.antt =====
-- The theorems on src/ir/bir.c at a small module. A `double` is its bit pattern.
use booth.Base.{ℕ, ◌+◌, ◌<◌, ◌≡◌, ◌↔◌, refl, arith, true, some, [], ◌∷◌, get_elem?}
use mathlib.Core.Option
use booth.Bir.Defs.{BirType, BirModule, zero_type, type_void, type_int, type_struct}
use booth.Bir.Types.{
  type_eq_simple, intern_type, intern_compound, bir_tcst, bir_tunq, bir_module_init,
}
use booth.Bir.Calls.{int_call, sfwd_call, sfin_call, umrk_call, tcst_call, run_calls}
use booth.Bir.Pinned.{IsPinned, run_calls-IsPinned}
use booth.Bir.Interning.{intern_type_iff}
use booth.Bir.Compound.{intern_compound_lem}
use booth.Bir.Quals.{bir_tunq-bir_tcst}

abbrev int32 : BirType
int32 = record zero_type { kind = type_int; width = 32 }

abbrev int64 : BirType
int64 = record zero_type { kind = type_int; width = 64 }

-- A module with `void` at index 0 and a 32-bit integer after it.
abbrev two_types : BirModule ℕ
two_types = record {
  types = record zero_type { kind = type_void } ∷ int32 ∷ [];
  type_fields = [];
  consts = [];
  insts = [];
  inst_lines = [];
  extra_operands = [];
  blocks = [];
  funcs = [];
  globals = [];
  asms = [];
  strings = [];
  pool_full = 0;
}

intern_type_iff_example :
    ((intern_type (intern_type two_types int64).1 int32).0 ≡ (intern_type two_types int64).0)
    ↔ (type_eq_simple int64 int32 ≡ true)
intern_type_iff_example = intern_type_iff two_types int64 int32 (omega arith)

intern_compound_lem_example :
    (a : BirType) × (get_elem?
        (intern_compound two_types type_struct 0 (1 ∷ 1 ∷ [])).1.types
        (intern_compound two_types type_struct 0 (1 ∷ 1 ∷ [])).0
      ≡ some a)
    × (a.kind ≡ type_struct)
    × (a.inner ≡ 0)
    × (a.num_fields ≡ 2)
    × ((j : ℕ)
        → j < 2
        → Option.get_or
            (get_elem?
              (intern_compound two_types type_struct 0 (1 ∷ 1 ∷ [])).1.type_fields
              (a.count + j))
            0
          ≡ Option.get_or (get_elem? (1 ∷ 1 ∷ []) j) 0)
intern_compound_lem_example =
    intern_compound_lem two_types type_struct 0 (1 ∷ 1 ∷ []) (omega arith) (omega arith)

bir_tunq-bir_tcst_example :
    ((c : BirType) × (get_elem? (bir_tcst two_types 1).1.types (bir_tcst two_types 1).0 ≡ some c)
      × (type_eq_simple c (record int32 { cst = 1 }) ≡ true))
    × ((q : BirType) × (get_elem?
            (bir_tcst two_types 1).1.types
            (bir_tunq (bir_tcst two_types 1).1 (bir_tcst two_types 1).0)
          ≡ some q)
        × (type_eq_simple q int32 ≡ true))
bir_tunq-bir_tcst_example = bir_tunq-bir_tcst two_types 1 int32 refl refl (omega arith)

-- A forward struct at 2 that holds two integers and becomes a union, and its const type.
run_calls-IsPinned_example :
    IsPinned
      (run_calls
        (bir_module_init {D = ℕ})
        (int_call 32 ∷ sfwd_call ∷ sfin_call 2 (1 ∷ 1 ∷ []) ∷ umrk_call 2 ∷ tcst_call 2 ∷ [])).types
      (run_calls (bir_module_init {D = ℕ}) (
        int_call 32
        ∷ sfwd_call
        ∷ sfin_call 2 (1 ∷ 1 ∷ [])
        ∷ umrk_call 2
        ∷ tcst_call 2
        ∷ [])).type_fields
run_calls-IsPinned_example =
    run_calls-IsPinned ℕ
      (int_call 32 ∷ sfwd_call ∷ sfin_call 2 (1 ∷ 1 ∷ []) ∷ umrk_call 2 ∷ tcst_call 2 ∷ [])

-- ===== src/Tdf/Traced.antt =====
-- The loops of isloc and trace_to_param of src/tdf/tdf_fission.c compute the relations of Reading.
use mathlib.Core.Option
use mathlib.Core.Path.{subst}
use booth.Base.{
  ℕ, zero, suc, ◌≡◌, ◌↔◌, refl, ap, arith, Bool, true, false, ◌&&◌, ◌||◌, ◌==◌, ltb, none, some,
  Option-cases, Bool-cases, inl, inr, length, get_elem?, lt-length_of_get_elem?,
}
use booth.Bir.Defs.{BirInst, BirModule, type_ptr, bir_val_index}
use booth.Bir.Consts.{slot}
use booth.Bir.Opcodes.{op_param, op_load, op_alloca, op_gep, op_bitcast, op_inttoptr, op_ptrtoint}
use booth.Dce.Pass.{inst_at}
use booth.Tdf.Fission.{
  alsrc, no_value, isloc_loop, isloc, trace_loop, trace_to_param, is_global_ptr, as_global,
  as_generic,
}
use booth.Tdf.Reading.{
  stored_to, sole, only_store-sole, length_of_get_elem?-none, Result-of, Result-unique,
  Result-value, IsLocal, own, part, Through, gep, bitcast, inttoptr, ptrtoint, load, alloca, Traces,
  param, via, IsGlobalPtr,
}

module _ {D : Type 0} (bir : BirModule D) where
  isloc_loop-IsLocal : (g val : ℕ) → isloc_loop bir g val ≡ true → IsLocal bir g val
  unfolding isloc_loop
  isloc_loop-IsLocal zero val h = cc h
  isloc_loop-IsLocal (suc g) val h = elim (Bool-cases (no_value bir val)) [
    | inl e ↦ let h' : false ≡ true = rw e at h in cc h'
    | inr e ↦
        let r = Result-of bir val e in
        let I = inst_at bir (bir_val_index val) in
        let rest = isloc_loop-IsLocal g (slot I.operands 0) in
        elim (Bool-cases (I.op == op_alloca)) [
          | inl a ↦ own g val I r (ground arith)
          | inr a ↦ elim (Bool-cases (I.op == op_gep)) [
            | inl b ↦ part g val I r (inl (ground arith)) (rest (rw (e, a, b) at h))
            | inr b ↦ elim (Bool-cases (I.op == op_bitcast)) [
              | inl c ↦ part g val I r (inr (ground arith)) (rest (rw (e, a, b, c) at h))
              | inr c ↦ let h' : false ≡ true = rw (e, a, b, c) at h in cc h'
            ]
          ]
        ]
  ]

  IsLocal-isloc_loop : (g val : ℕ) → IsLocal bir g val → isloc_loop bir g val ≡ true
  unfolding isloc_loop
  IsLocal-isloc_loop zero val l = elim l [ ]
  IsLocal-isloc_loop (suc g) val (own _ _ I r a) =
      rw (Result-value bir val I r, Result-unique bir val I r, a) refl
  IsLocal-isloc_loop (suc g) val (part _ _ I r (inl a) l) =
      rw (Result-value bir val I r, Result-unique bir val I r, a)
        (IsLocal-isloc_loop g (slot I.operands 0) l)
  IsLocal-isloc_loop (suc g) val (part _ _ I r (inr a) l) =
      rw (Result-value bir val I r, Result-unique bir val I r, a)
        (IsLocal-isloc_loop g (slot I.operands 0) l)

  pub isloc_iff : (val : ℕ) → (isloc bir val ≡ true) ↔ IsLocal bir 16 val
  unfolding isloc
  isloc_iff val = (isloc_loop-IsLocal 16 val, IsLocal-isloc_loop 16 val)

  -- The test of the loop of trace_to_param.
  abbrev through : BirInst → Bool
  through I =
      I.op == op_gep
      || I.op == op_bitcast
      || I.op == op_inttoptr
      || I.op == op_ptrtoint
      || I.op == op_load

  through-Through :
      (I : BirInst) (val : ℕ) → through I ≡ true → Through bir I val (slot I.operands 0)
  through-Through I val h = elim (Bool-cases (I.op == op_gep)) [
    | inl e ↦ gep (ground arith)
    | inr a ↦ elim (Bool-cases (I.op == op_bitcast)) [
      | inl e ↦ bitcast (ground arith)
      | inr b ↦ elim (Bool-cases (I.op == op_inttoptr)) [
        | inl e ↦ inttoptr (ground arith)
        | inr c ↦ elim (Bool-cases (I.op == op_ptrtoint)) [
          | inl e ↦ ptrtoint (ground arith)
          | inr d ↦ load (ground arith)
        ]
      ]
    ]
  ]

  trace_loop-Traces : (g val pi : ℕ) → trace_loop bir g val ≡ some pi → Traces bir g val pi
  unfolding trace_loop alsrc
  trace_loop-Traces zero val pi h = cc h
  trace_loop-Traces (suc g) val pi h = elim (Bool-cases (no_value bir val)) [
    | inl e ↦ let h' : none ≡ some pi = rw e at h in cc h'
    | inr e ↦
        let r = Result-of bir val e in
        let I = inst_at bir (bir_val_index val) in
        let stored = sole (stored_to val bir.insts) in
        let operand = trace_loop-Traces g (slot I.operands 0) pi in
        let kept = trace_loop-Traces g stored pi in
        elim (Bool-cases (I.op == op_param)) [
          | inl p ↦
              let h' : some I.subop ≡ some pi = rw (e, p) at h in
              subst (Traces bir (suc g) val) (ap (λ o. Option.get_or o pi) h')
                (param g val I r (ground arith))
          | inr p ↦ elim (Bool-cases (through I)) [
            | inl t ↦
                via g val pi I (slot I.operands 0) r (through-Through I val t)
                  (operand (rw (e, p, t) at h))
            | inr t ↦ elim (Bool-cases (I.op == op_alloca)) [
              | inl a ↦
                  via g val pi I stored r (alloca (ground arith))
                    (kept (rw (e, p, t, a, only_store-sole val bir.insts) at h))
              | inr a ↦ let h' : none ≡ some pi = rw (e, p, t, a) at h in cc h'
            ]
          ]
        ]
  ]

  Traces-trace_loop : (g val pi : ℕ) → Traces bir g val pi → trace_loop bir g val ≡ some pi
  unfolding trace_loop alsrc
  Traces-trace_loop zero val pi t = elim t [ ]
  Traces-trace_loop (suc g) val _ (param _ _ I r p) =
      rw (Result-value bir val I r, Result-unique bir val I r, p) refl
  Traces-trace_loop (suc g) val pi (via _ _ _ I _ r (gep a) t) =
      rw (Result-value bir val I r, Result-unique bir val I r, a)
        (Traces-trace_loop g (slot I.operands 0) pi t)
  Traces-trace_loop (suc g) val pi (via _ _ _ I _ r (bitcast a) t) =
      rw (Result-value bir val I r, Result-unique bir val I r, a)
        (Traces-trace_loop g (slot I.operands 0) pi t)
  Traces-trace_loop (suc g) val pi (via _ _ _ I _ r (inttoptr a) t) =
      rw (Result-value bir val I r, Result-unique bir val I r, a)
        (Traces-trace_loop g (slot I.operands 0) pi t)
  Traces-trace_loop (suc g) val pi (via _ _ _ I _ r (ptrtoint a) t) =
      rw (Result-value bir val I r, Result-unique bir val I r, a)
        (Traces-trace_loop g (slot I.operands 0) pi t)
  Traces-trace_loop (suc g) val pi (via _ _ _ I _ r (load a) t) =
      rw (Result-value bir val I r, Result-unique bir val I r, a)
        (Traces-trace_loop g (slot I.operands 0) pi t)
  Traces-trace_loop (suc g) val pi (via _ _ _ I _ r (alloca a) t) =
      rw (Result-value bir val I r, Result-unique bir val I r, a, only_store-sole val bir.insts)
        (Traces-trace_loop g (sole (stored_to val bir.insts)) pi t)

  pub trace_to_param_iff : (val pi : ℕ) → (trace_to_param bir val ≡ some pi) ↔ Traces bir 16 val pi
  unfolding trace_to_param
  trace_to_param_iff val pi = (trace_loop-Traces 16 val pi, Traces-trace_loop 16 val pi)

  pub is_global_ptr_iff : (type : ℕ) → (is_global_ptr bir type ≡ true) ↔ IsGlobalPtr bir type
  unfolding is_global_ptr
  is_global_ptr_iff type = (
    (λ h. elim (Option-cases (get_elem? bir.types type)) [
      | inl e ↦ let low = length_of_get_elem?-none bir.types type e in absurd (ground arith)
      | inr (T, e) ↦
          let h' : (ltb type (length bir.types)
                && T.kind == type_ptr
                && (T.addrspace == as_global || T.addrspace == as_generic))
              ≡ true =
            rw e at h in
          record {
            T = T;
            there = e;
            pointer = ground arith;
            space = elim (Bool-cases (T.addrspace == as_global)) [
              | inl a ↦ inl (ground arith)
              | inr a ↦ inr (ground arith)
            ];
          }
    ]),
    (λ g.
        let inside = lt-length_of_get_elem? bir.types type g.T g.there in
        rw (g.there, g.pointer)
          (elim (g.space) [ inl a ↦ rw a (ground arith) | inr a ↦ rw a (ground arith) ])),
  )

-- ===== src/Tdf/Tables.antt =====
-- The passes of classify_params of src/tdf/tdf_fission.c, entry by entry of the table that they mark.
use booth.Base.{
  ℕ, zero, suc, ◌≡◌, ◌≢◌, refl, sym, ap, ◌∙◌, arith, Bool, true, false, not, ◌&&◌, ◌||◌, ◌==◌,
  if◌then◌else◌, Option, none, some, Option-cases, Bool-cases, inl, inr, List, get_elem?, set,
  any_from, get_elem?-set_self, get_elem?-set_ne, lt-length_of_get_elem?,
}
use booth.Bir.Defs.{BirInst, BirModule}
use booth.Bir.Consts.{slot}
use booth.Bir.Opcodes.{op_store, op_param, op_load}
use booth.Dce.Pass.{inst_at}
use booth.Tdf.Fission.{
  FsParam, update, isloc, trace_to_param, is_global_ptr, mark_ptrs, mark_access,
}

pub or_false : (b : Bool) → (b || false) ≡ b
or_false true = refl
or_false false = refl

pub or_true : (b : Bool) → (b || true) ≡ true
or_true true = refl
or_true false = refl

or_assoc : (a b c : Bool) → ((a || b) || c) ≡ (a || (b || c))
or_assoc true b c = refl
or_assoc false b c = refl

-- An entry with more marks.
abbrev pub marked : (is_ptr loaded stored : Bool) → FsParam → FsParam
marked a l s p = record { is_ptr = p.is_ptr || a; loaded = p.loaded || l; stored = p.stored || s }

marked-none : (p : FsParam) → marked false false false p ≡ p
marked-none p i = record {
  is_ptr = or_false p.is_ptr i;
  loaded = or_false p.loaded i;
  stored = or_false p.stored i;
}

-- Each entry of `qs` is that of `ps` with the marks of its number.
pub record Adds (ps qs : List FsParam) (a l s : ℕ → Bool) : Type 0 where
  pub entry :
      (i : ℕ) (p : FsParam)
      → get_elem? ps i ≡ some p
      → get_elem? qs i ≡ some (marked (a i) (l i) (s i) p)

abbrev pub nothing : ℕ → Bool
nothing i = false

pub Adds-none : (ps : List FsParam) → Adds ps ps nothing nothing nothing
Adds-none ps = record { entry = λ i p h. h ∙ ap some (sym (marked-none p)) }

pub Adds-both :
    (ps qs rs : List FsParam) (a l s a' l' s' : ℕ → Bool)
    → Adds ps qs a l s
    → Adds qs rs a' l' s'
    → Adds ps rs (λ i. a i || a' i) (λ i. l i || l' i) (λ i. s i || s' i)
Adds-both ps qs rs a l s a' l' s' h h' = record {
  entry = λ i p e.
      h'.entry i (marked (a i) (l i) (s i) p) (h.entry i p e)
      ∙ ap some (λ t. record {
        is_ptr = or_assoc p.is_ptr (a i) (a' i) t;
        loaded = or_assoc p.loaded (l i) (l' i) t;
        stored = or_assoc p.stored (s i) (s' i) t;
      });
}

get_elem?-update :
    (f : FsParam → FsParam) (ps : List FsParam) (pi i : ℕ) (p : FsParam)
    → get_elem? ps i ≡ some p
    → get_elem? (update f ps pi) i ≡ some (if pi == i then f p else p)
unfolding update
get_elem?-update f ps pi i p h = elim (Bool-cases (pi == i)) [
  | inl e ↦
      let same : pi ≡ i = ground arith in
      let here : get_elem? ps pi ≡ some p = ap (get_elem? ps) same ∙ h in
      rw (e, here, update)
        (ap (get_elem? (set ps pi (f p))) (sym same)
          ∙ get_elem?-set_self ps pi (f p) (lt-length_of_get_elem? ps pi p here))
  | inr e ↦
      let other : pi ≢ i = λ q. ground arith in
      rw e (elim (Option-cases (get_elem? ps pi)) [
        | inl n ↦ rw (n, update) h
        | inr (q, n) ↦ rw (n, update) (get_elem?-set_ne ps pi i (f q) other ∙ h)
      ])
]

-- The number that a result names, if any.
unfoldable pub is_param : Option ℕ → ℕ → Bool
is_param none i = false
is_param (some pi) i = pi == i

set_ptr :
    (b : Bool) (p : FsParam)
    → (if b then record p { is_ptr = true } else p) ≡ marked b false false p
set_ptr true p = λ t. record {
  is_ptr = sym (or_true p.is_ptr) t;
  loaded = sym (or_false p.loaded) t;
  stored = sym (or_false p.stored) t;
}
set_ptr false p = sym (marked-none p)

set_loaded :
    (b : Bool) (p : FsParam)
    → (if b then record p { loaded = true } else p) ≡ marked false b false p
set_loaded true p = λ t. record {
  is_ptr = sym (or_false p.is_ptr) t;
  loaded = sym (or_true p.loaded) t;
  stored = sym (or_false p.stored) t;
}
set_loaded false p = sym (marked-none p)

set_stored :
    (b : Bool) (p : FsParam)
    → (if b then record p { stored = true } else p) ≡ marked false false b p
set_stored true p = λ t. record {
  is_ptr = sym (or_false p.is_ptr) t;
  loaded = sym (or_false p.loaded) t;
  stored = sym (or_true p.stored) t;
}
set_stored false p = sym (marked-none p)

load-Adds :
    (ps : List FsParam) (o : Option ℕ)
    → Adds ps
        (elim o [ none ↦ ps | some pi ↦ update (λ p. record p { loaded = true }) ps pi ])
        nothing
        (is_param o)
        nothing
unfolding is_param
load-Adds ps none = Adds-none ps
load-Adds ps (some pi) = record {
  entry = λ i p h. get_elem?-update _ ps pi i p h ∙ ap some (set_loaded (pi == i) p);
}

store-Adds :
    (ps : List FsParam) (o : Option ℕ)
    → Adds ps
        (elim o [ none ↦ ps | some pi ↦ update (λ p. record p { stored = true }) ps pi ])
        nothing
        nothing
        (is_param o)
unfolding is_param
store-Adds ps none = Adds-none ps
store-Adds ps (some pi) = record {
  entry = λ i p h. get_elem?-update _ ps pi i p h ∙ ap some (set_stored (pi == i) p);
}

module _ {D : Type 0} (bir : BirModule D) where
  unfoldable pub points : (i : ℕ) → BirInst → Bool
  points i I = I.op == op_param && is_global_ptr bir I.type && I.subop == i

  unfoldable pub loads : (i : ℕ) → BirInst → Bool
  loads i I =
      I.op == op_load
      && not (isloc bir (slot I.operands 0))
      && is_param (trace_to_param bir (slot I.operands 0)) i

  unfoldable pub stores : (i : ℕ) → BirInst → Bool
  stores i I =
      I.op == op_store
      && not (isloc bir (slot I.operands 1))
      && is_param (trace_to_param bir (slot I.operands 1)) i

  pub mark_ptrs-Adds :
      (k left : ℕ) (ps : List FsParam)
      → Adds ps
          (mark_ptrs bir k left ps)
          (λ i. any_from (λ j. points i (inst_at bir j)) k left)
          nothing
          nothing
  unfolding mark_ptrs any_from points
  mark_ptrs-Adds k zero ps = Adds-none ps
  mark_ptrs-Adds k (suc left) ps =
      let I = inst_at bir k in
      elim (Bool-cases (I.op == op_param && is_global_ptr bir I.type)) [
        | inr e ↦ rw e (mark_ptrs-Adds (suc k) left ps)
        | inl e ↦
            let qs = update (λ p. record p { is_ptr = true }) ps I.subop in
            rw e (
              Adds-both ps qs (mark_ptrs bir (suc k) left qs) (λ i. I.subop == i) nothing nothing
                (λ i. any_from (λ j. points i (inst_at bir j)) (suc k) left) nothing nothing
                (record {
                  entry = λ i p h.
                      get_elem?-update _ ps I.subop i p h ∙ ap some (set_ptr (I.subop == i) p);
                })
                (mark_ptrs-Adds (suc k) left qs))
      ]

  pub mark_access-Adds :
      (I : BirInst) (ps : List FsParam)
      → Adds ps (mark_access bir I ps) nothing (λ i. loads i I) (λ i. stores i I)
  unfolding mark_access loads stores
  mark_access-Adds I ps =
      elim (Bool-cases (I.op == op_load && not (isloc bir (slot I.operands 0)))) [
        | inl e ↦
            let other : (I.op == op_store) ≡ false = ground arith in
            rw (e, other) (load-Adds ps (trace_to_param bir (slot I.operands 0)))
        | inr e ↦ elim (Bool-cases (I.op == op_store && not (isloc bir (slot I.operands 1)))) [
          | inl e' ↦ rw (e, e') (store-Adds ps (trace_to_param bir (slot I.operands 1)))
          | inr e' ↦ rw (e, e') (Adds-none ps)
        ]
      ]

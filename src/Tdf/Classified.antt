-- ===== src/Tdf/Classified.antt =====
-- classify_params of src/tdf/tdf_fission.c answers the one table that the kernel's instructions describe.
use mathlib.Core.Option
use mathlib.Core.Path.{subst}
use booth.Base.{
  ℕ, zero, suc, ◌-◌, ◌<◌, ◌≡◌, ◌≢◌, ◌↔◌, refl, sym, ap, ◌∙◌, arith, Bool, true, false, ltb,
  if◌then◌else◌, Option, some, Bool-cases, inl, inr, List, [], ◌∷◌, length, get_elem?, any_from,
  any_from-true, any_from-some, lt-length_of_get_elem?,
}
use booth.Bir.Defs.{BirInst, BirModule}
use booth.Bir.Opcodes.{op_call}
use booth.Dce.Pass.{inst_at}
use booth.Dce.Run.{func_at}
use booth.Tdf.Fission.{FsParam, mark_ptrs, blank, classify_params}
use booth.Tdf.Tables.{or_false, Adds, nothing, points, loads, stores, mark_ptrs-Adds}
use booth.Tdf.Scans.{Scanned, refused, table, is_call, blocks_any, scan_blocks-Scanned}
use booth.Tdf.Described.{
  InKernel, start, InWindow, Points, Loads, Stores, points-Points, loads-Loads, stores-Stores,
  kernel_any_iff,
}
use booth.Tdf.Split.{length-blank, length-mark_ptrs, Keeps-length, scan_blocks-Keeps}

-- What the marks of parameter `i` say of the kernel.
pub record IsEntry {D : Type 0} (bir : BirModule D) (fi i : ℕ) (p : FsParam) : Type 0 where
  pub pointer : (p.is_ptr ≡ true) ↔ ((I : BirInst) × InWindow bir fi I × Points bir i I)
  pub loaded : (p.loaded ≡ true) ↔ ((I : BirInst) × InKernel bir fi I × Loads bir i I)
  pub stored : (p.stored ≡ true) ↔ ((I : BirInst) × InKernel bir fi I × Stores bir i I)

-- A table with an entry for each of the first 64 parameters of a kernel that calls nothing.
pub record IsTable {D : Type 0} (bir : BirModule D) (fi : ℕ) (params : List FsParam) : Type 0 where
  pub size :
      length params
      ≡ (if ltb (func_at bir fi).num_params 64 then (func_at bir fi).num_params else 64)
  pub no_call : (I : BirInst) → InKernel bir fi I → I.op ≢ op_call
  pub entry : (i : ℕ) (p : FsParam) → get_elem? params i ≡ some p → IsEntry bir fi i p

get_elem?-blank :
    (n i : ℕ)
    → i < n
    → get_elem? (blank n) i ≡ some (record { is_ptr = false; loaded = false; stored = false })
unfolding blank
get_elem?-blank zero i h = absurd (omega arith)
get_elem?-blank (suc n) zero h = refl
get_elem?-blank (suc n) (suc i) h = get_elem?-blank n i (omega arith)

Scanned-some :
    (ps qs : List FsParam) (c : Bool) (l s : ℕ → Bool) (o : Option (List FsParam))
    → Scanned ps c l s o
    → o ≡ some qs
    → (c ≡ false) × Adds ps qs nothing l s
Scanned-some ps qs c l s o (refused e) h = cc h
Scanned-some ps qs c l s o (table rs e more) h =
    (e, subst (λ x. Adds ps x nothing l s) (ap (λ y. Option.get_or y rs) h) more)

Scanned-total :
    (ps : List FsParam) (c : Bool) (l s : ℕ → Bool) (o : Option (List FsParam))
    → Scanned ps c l s o
    → c ≡ false
    → (qs : List FsParam) × (o ≡ some qs)
Scanned-total ps c l s o (refused e) h = cc (sym e ∙ h)
Scanned-total ps c l s o (table rs e more) h = (rs, refl)

module _ {D : Type 0} (bir : BirModule D) (fi : ℕ) where
  abbrev size : ℕ
  size = if ltb (func_at bir fi).num_params 64 then (func_at bir fi).num_params else 64

  abbrev cut : ℕ
  cut = if ltb 8192 (length bir.insts - start bir fi) then 8192 else length bir.insts - start bir fi

  abbrev pointed : List FsParam
  pointed = mark_ptrs bir (start bir fi) cut (blank size)

  abbrev in_blocks : (BirInst → Bool) → Bool
  in_blocks t = blocks_any bir t (func_at bir fi).first_block 0 (func_at bir fi).num_blocks

  window_iff :
      (i : ℕ)
      → (any_from (λ j. points bir i (inst_at bir j)) (start bir fi) cut ≡ true)
        ↔ ((I : BirInst) × InWindow bir fi I × Points bir i I)
  window_iff i = (
    (λ h.
        let (k, low, high, t) = any_from-true _ (start bir fi) cut h in
        (
          inst_at bir k,
          record { k = k; from = low; near = ground arith; known = ground arith; here = refl },
          (points-Points bir i (inst_at bir k)).0 t,
        )),
    (λ (I, w, p).
        any_from-some (λ j. points bir i (inst_at bir j)) (start bir fi) cut w.k w.from
          (ground (arith, w.near, w.known, w.from))
          (ap (points bir i) w.here ∙ (points-Points bir i I).1 p)),
  )

  flag_iff :
      (t : BirInst → Bool) (P : BirInst → Type 0)
      → ((I : BirInst) → (t I ≡ true) ↔ P I)
      → (b : Bool) → b ≡ in_blocks t
      → (b ≡ true) ↔ ((I : BirInst) × InKernel bir fi I × P I)
  flag_iff t P each b same = (
    (λ h. let (I, k, p) = (kernel_any_iff bir t fi).0 (sym same ∙ h) in (I, k, (each I).0 p)),
    (λ (I, k, p). same ∙ (kernel_any_iff bir t fi).1 (I, k, (each I).1 p)),
  )

  classify_params-IsTable :
      (params : List FsParam) → classify_params bir fi ≡ some params → IsTable bir fi params
  unfolding classify_params start
  classify_params-IsTable params h =
      let F = func_at bir fi in
      let (none_called, adds) =
        Scanned-some pointed params _ _ _ _
          (scan_blocks-Scanned bir F.first_block 0 F.num_blocks pointed) h in
      let first = mark_ptrs-Adds bir (start bir fi) cut (blank size) in
      let count : length params ≡ size =
        Keeps-length bir pointed params _
          (scan_blocks-Keeps bir F.first_block 0 F.num_blocks pointed) h
        ∙ length-mark_ptrs bir (start bir fi) cut (blank size)
        ∙ length-blank size in
      record {
        size = count;
        no_call =
            λ I k e. cc (sym none_called ∙ (kernel_any_iff bir is_call fi).1 (I, k, ground arith));
        entry = λ i p e.
            let below = lt-length_of_get_elem? params i p e in
            let all =
              adds.entry i _ (first.entry i _ (get_elem?-blank size i (omega (arith, count)))) in
            let same = sym e ∙ all in
            let is_ptr : p.is_ptr
                ≡ any_from (λ j. points bir i (inst_at bir j)) (start bir fi) cut =
              ap (λ o. (Option.get_or o p).is_ptr) same ∙ or_false _ in
            let is_loaded : p.loaded ≡ in_blocks (loads bir i) =
              ap (λ o. (Option.get_or o p).loaded) same in
            let is_stored : p.stored ≡ in_blocks (stores bir i) =
              ap (λ o. (Option.get_or o p).stored) same in
            record {
              pointer =
                  ((λ t. (window_iff i).0 (sym is_ptr ∙ t)), (λ x. is_ptr ∙ (window_iff i).1 x));
              loaded = flag_iff (loads bir i) (Loads bir i) (loads-Loads bir i) p.loaded is_loaded;
              stored =
                  flag_iff (stores bir i) (Stores bir i) (stores-Stores bir i) p.stored is_stored;
            };
      }

  -- A kernel that calls nothing has a table.
  classify_params-total :
      ((I : BirInst) → InKernel bir fi I → I.op ≢ op_call)
      → (qs : List FsParam) × (classify_params bir fi ≡ some qs)
  unfolding classify_params start
  classify_params-total no_call =
      let F = func_at bir fi in
      let none_called : in_blocks is_call ≡ false = elim (Bool-cases (in_blocks is_call)) [
        | inr e ↦ e
        | inl e ↦
            let (I, k, t) = (kernel_any_iff bir is_call fi).0 e in
            absurd (no_call I k (ground arith))
      ] in
      Scanned-total pointed _ _ _ _ (scan_blocks-Scanned bir F.first_block 0 F.num_blocks pointed)
        none_called

same_bool : (a b : Bool) → (a ≡ true → b ≡ true) → (b ≡ true → a ≡ true) → a ≡ b
same_bool true b f g = sym (f refl)
same_bool false true f g = g refl
same_bool false false f g = refl

same_list :
    (ps qs : List FsParam)
    → length ps ≡ length qs
    → ((i : ℕ) (p q : FsParam) → get_elem? ps i ≡ some p → get_elem? qs i ≡ some q → p ≡ q)
    → ps ≡ qs
same_list [] [] h each = refl
same_list [] (q ∷ qs) h each = cc h
same_list (p ∷ ps) [] h each = cc h
same_list (p ∷ ps) (q ∷ qs) h each =
    let rest = same_list ps qs (ground arith) (λ i p' q'. each (suc i) p' q') in
    λ t. each 0 p q refl refl t ∷ rest t

module _ {D : Type 0} (bir : BirModule D) (fi : ℕ) where
  entry_unique : (i : ℕ) (p q : FsParam) → IsEntry bir fi i p → IsEntry bir fi i q → p ≡ q
  entry_unique i p q e f =
      let a =
        same_bool p.is_ptr q.is_ptr (λ h. f.pointer.1 (e.pointer.0 h))
          (λ h. e.pointer.1 (f.pointer.0 h)) in
      let b =
        same_bool p.loaded q.loaded (λ h. f.loaded.1 (e.loaded.0 h))
          (λ h. e.loaded.1 (f.loaded.0 h)) in
      let c =
        same_bool p.stored q.stored (λ h. f.stored.1 (e.stored.0 h))
          (λ h. e.stored.1 (f.stored.0 h)) in
      λ t. record { is_ptr = a t; loaded = b t; stored = c t }

  table_unique : (ps qs : List FsParam) → IsTable bir fi ps → IsTable bir fi qs → ps ≡ qs
  table_unique ps qs a b =
      same_list ps qs (a.size ∙ sym b.size)
        (λ i p q e f. entry_unique i p q (a.entry i p e) (b.entry i q f))

  pub IsTable-iff :
      (params : List FsParam) → (classify_params bir fi ≡ some params) ↔ IsTable bir fi params
  IsTable-iff params = (
    classify_params-IsTable bir fi params,
    (λ a.
        let (qs, e) = classify_params-total bir fi a.no_call in
        e ∙ ap some (table_unique qs params (classify_params-IsTable bir fi qs e) a)),
  )

-- ===== src/Tdf/Split.antt =====
-- What td_fission_tensix of src/tdf/tdf_fission.c answers, and for which graphs.
use mathlib.Core.Option
use mathlib.Core.Path.{subst}
use booth.Base.{
  ℕ, zero, suc, ◌+◌, ◌≤◌, ◌≡◌, ◌≢◌, ◌↔◌, refl, sym, ap, ◌∙◌, arith, true, not, ◌&&◌, ◌-◌, leb, ◌==◌,
  ltb, if◌then◌else◌, Option, none, some, Option-cases, Bool-cases, inl, inr, List, [], ◌∷◌, length,
  get_elem?, length-set,
}
use booth.Bir.Defs.{BirInst, BirModule}
use booth.Bir.Consts.{slot}
use booth.Bir.Opcodes.{op_store, op_param, op_load, op_call}
use booth.Dce.Pass.{inst_at}
use booth.Dce.Blocks.{block_at}
use booth.Dce.Run.{func_at}
use booth.Tdf.Defs.{TdRgn, TdMod, td_tgt_tensix, td_rg_solo}
use booth.Tdf.Fission.{
  FsParam, update, is_global_ptr, isloc, trace_to_param, find_kernel, mark_ptrs, mark_access,
  scan_insts, scan_blocks, blank, classify_params, td_fission_tensix, fs_max_params,
}
use booth.Tdf.Pipeline.{pipeline, links, rebuild-pipeline}

length-update :
    (f : FsParam → FsParam) (ps : List FsParam) (pi : ℕ) → length (update f ps pi) ≡ length ps
unfolding update
length-update f ps pi = elim (Option-cases (get_elem? ps pi)) [
  | inl e ↦ rw (e, update) refl
  | inr (p, e) ↦ rw (e, update) (length-set ps pi (f p))
]

pub length-blank : (n : ℕ) → length (blank n) ≡ n
unfolding blank
length-blank zero = refl
length-blank (suc n) = ap suc (length-blank n)

module _ {D : Type 0} (bir : BirModule D) where
  pub length-mark_ptrs :
      (i left : ℕ) (ps : List FsParam) → length (mark_ptrs bir i left ps) ≡ length ps
  unfolding mark_ptrs
  length-mark_ptrs i zero ps = refl
  length-mark_ptrs i (suc left) ps =
      let I = inst_at bir i in
      elim (Bool-cases (I.op == op_param && is_global_ptr bir I.type)) [
        | inl e ↦
            let q = update (λ p. record p { is_ptr = true }) ps I.subop in
            rw e (length-mark_ptrs (suc i) left q ∙ length-update _ ps I.subop)
        | inr e ↦ rw e (length-mark_ptrs (suc i) left ps)
      ]

  length-traced :
      (f : FsParam → FsParam) (ps : List FsParam) (o : Option ℕ)
      → length (elim o [ none ↦ ps | some pi ↦ update f ps pi ]) ≡ length ps
  length-traced f ps none = refl
  length-traced f ps (some pi) = length-update f ps pi

  length-mark_access : (I : BirInst) (ps : List FsParam) → length (mark_access bir I ps) ≡ length ps
  unfolding mark_access
  length-mark_access I ps =
      elim (Bool-cases (I.op == op_load && not (isloc bir (slot I.operands 0)))) [
        | inl e ↦ rw e (length-traced _ ps (trace_to_param bir (slot I.operands 0)))
        | inr e ↦ elim (Bool-cases (I.op == op_store && not (isloc bir (slot I.operands 1)))) [
          | inl e' ↦ rw (e, e') (length-traced _ ps (trace_to_param bir (slot I.operands 1)))
          | inr e' ↦ rw (e, e') refl
        ]
      ]

  -- A table that a pass answers has as many entries as the one it was given.
  pub data Keeps (ps : List FsParam) : Option (List FsParam) → Type 0 where
    refused : Keeps ps none
    kept : (qs : List FsParam) → length qs ≡ length ps → Keeps ps (some qs)

  kept_by :
      (ps qs : List FsParam) (o : Option (List FsParam))
      → length qs ≡ length ps
      → Keeps qs o
      → Keeps ps o
  kept_by ps qs o e refused = refused
  kept_by ps qs o e (kept rs k) = kept rs (k ∙ e)

  scan_insts-Keeps :
      (first ii left : ℕ) (ps : List FsParam) → Keeps ps (scan_insts bir first ii left ps)
  unfolding scan_insts
  scan_insts-Keeps first ii zero ps = kept ps refl
  scan_insts-Keeps first ii (suc left) ps =
      let I = inst_at bir (first + ii) in
      let next = mark_access bir I ps in
      elim (Bool-cases (I.op == op_call)) [
        | inl e ↦ rw e refused
        | inr e ↦ rw e (
            kept_by ps next _ (length-mark_access I ps) (scan_insts-Keeps first (suc ii) left next))
      ]

  bind-Keeps :
      (ps : List FsParam) (o : Option (List FsParam)) (f : List FsParam → Option (List FsParam))
      → Keeps ps o
      → ((qs : List FsParam) → Keeps qs (f qs))
      → Keeps ps (Option.bind o f)
  unfolding Option.bind
  bind-Keeps ps o f refused each = refused
  bind-Keeps ps o f (kept qs e) each = kept_by ps qs (f qs) e (each qs)

  pub scan_blocks-Keeps :
      (first_block bi left : ℕ) (ps : List FsParam)
      → Keeps ps (scan_blocks bir first_block bi left ps)
  unfolding scan_blocks
  scan_blocks-Keeps first_block bi zero ps = kept ps refl
  scan_blocks-Keeps first_block bi (suc left) ps =
      let B = block_at bir (first_block + bi) in
      let n = if ltb 65536 B.num_insts then 65536 else B.num_insts in
      elim (Bool-cases (leb (length bir.blocks) (first_block + bi))) [
        | inl e ↦ rw e (kept ps refl)
        | inr e ↦ rw e (
            bind-Keeps ps (scan_insts bir B.first_inst 0 n ps)
              (scan_blocks bir first_block (suc bi) left) (scan_insts-Keeps B.first_inst 0 n ps)
              (λ qs. scan_blocks-Keeps first_block (suc bi) left qs))
      ]

  pub Keeps-length :
      (ps qs : List FsParam) (o : Option (List FsParam))
      → Keeps ps o
      → o ≡ some qs
      → length qs ≡ length ps
  Keeps-length ps qs o refused e = cc e
  Keeps-length ps qs o (kept rs k) e = ap (λ o'. length (Option.get_or o' [])) (sym e) ∙ k

  -- The table has 64 entries at most.
  pub classify_params-length :
      (func_idx : ℕ) (params : List FsParam)
      → classify_params bir func_idx ≡ some params
      → length params ≤ fs_max_params
  unfolding classify_params
  classify_params-length func_idx params e =
      let F = func_at bir func_idx in
      let n = if ltb F.num_params fs_max_params then F.num_params else fs_max_params in
      let first =
        if ltb F.first_block (length bir.blocks)
        then (block_at bir F.first_block).first_inst
        else 0 in
      let left = length bir.insts - first in
      let cut = if ltb 8192 left then 8192 else left in
      let marked = mark_ptrs bir first cut (blank n) in
      let same =
        Keeps-length marked params (scan_blocks bir F.first_block 0 F.num_blocks marked)
          (scan_blocks-Keeps F.first_block 0 F.num_blocks marked) e in
      let size : n ≤ 64 = ground arith in
      omega (arith, same, length-mark_ptrs first cut (blank n), length-blank n, size)

bind-inverse {ℓ} :
    {A B : Type ℓ} (o : Option A) (f : A → Option B) (b : B)
    → Option.bind o f ≡ some b
    → (a : A) × (o ≡ some a) × (f a ≡ some b)
unfolding Option.bind
bind-inverse none f b e = cc e
bind-inverse (some a) f b e = (a, refl, e)

two_ne_one : (n : ℕ) → suc (suc n) ≢ 1
two_ne_one n e = omega (arith, e)

single {ℓ} :
    {A : Type ℓ} (xs : List A) (x : A) → length xs ≡ 1 → get_elem? xs 0 ≡ some x → xs ≡ x ∷ []
single [] x one e = cc one
single (y ∷ []) x one e = ap (λ o. Option.get_or o y ∷ []) e
single (y ∷ z ∷ xs) x one e = absurd (two_ne_one (length xs) one)

module _ {D : Type 0} (M : TdMod (BirModule D)) where
  -- The graph is one region of Tensix code, whose kernel has the table of parameters `params`.
  pub record IsSplit (body : BirModule D) (params : List FsParam) : Type 0 where
    pub region : TdRgn (BirModule D)
    pub kernel : ℕ
    pub tensix : M.target ≡ td_tgt_tensix
    pub alone : M.rgns ≡ region ∷ []
    pub solo : region.role ≡ td_rg_solo
    pub has : region.body ≡ some body
    pub entry : find_kernel body ≡ some kernel
    pub table : classify_params body kernel ≡ some params

  td_fission_tensix-pipeline :
      (body : BirModule D) (params : List FsParam)
      → IsSplit body params
      → td_fission_tensix M ≡ some (pipeline body (links params))
  unfolding td_fission_tensix Option.bind
  td_fission_tensix-pipeline body params s =
      rw (s.tensix, s.alone)
        (rw (s.solo, s.has)
          (rw s.entry (
            rw s.table (
              rebuild-pipeline body params (classify_params-length body s.kernel params s.table)))))

  -- The graph is split, into `N`.
  pub data Splits : TdMod (BirModule D) → Type 0 where
    split :
        (body : BirModule D) (params : List FsParam)
        → IsSplit body params
        → Splits (pipeline body (links params))

  split-Splits :
      (N : TdMod (BirModule D)) (body : BirModule D) (params : List FsParam)
      → IsSplit body params
      → some N ≡ some (pipeline body (links params))
      → Splits N
  split-Splits N body params s e =
      subst Splits (ap (λ o. Option.get_or o N) (sym e)) (split body params s)

  td_fission_tensix-Splits : (N : TdMod (BirModule D)) → td_fission_tensix M ≡ some N → Splits N
  unfolding td_fission_tensix
  td_fission_tensix-Splits N e = elim (Bool-cases (M.target == td_tgt_tensix)) [
    | inr t ↦ let e' : none ≡ some N = rw t at e in cc e'
    | inl t ↦ elim (Bool-cases (length M.rgns == 1)) [
      | inr o ↦ let e' : none ≡ some N = rw (t, o) at e in cc e'
      | inl o ↦
          let (r, at_0, e₁) = bind-inverse (get_elem? M.rgns 0) _ N (rw (t, o) at e) in
          elim (Bool-cases (r.role == td_rg_solo)) [
            | inr p ↦ let e' : none ≡ some N = rw p at e₁ in cc e'
            | inl p ↦
                let (body, has, e₂) = bind-inverse r.body _ N (rw p at e₁) in
                let (fi, entry, e₃) = bind-inverse (find_kernel body) _ N e₂ in
                let (params, table, e₄) = bind-inverse (classify_params body fi) _ N e₃ in
                let few = classify_params-length body fi params table in
                split-Splits N body params
                  (record {
                    region = r;
                    kernel = fi;
                    tensix = ground arith;
                    alone = single M.rgns r (ground arith) at_0;
                    solo = ground arith;
                    has = has;
                    entry = entry;
                    table = table;
                  })
                  (sym e₄ ∙ rebuild-pipeline body params few)
          ]
    ]
  ]

  Splits-td_fission_tensix : (N : TdMod (BirModule D)) → Splits N → td_fission_tensix M ≡ some N
  Splits-td_fission_tensix N (split body params s) = td_fission_tensix-pipeline body params s

  -- td_fission_tensix answers a graph exactly when the one given is a single Tensix region with
  -- a body that has a kernel and no call in the way of its table of parameters, and the graph
  -- is then the pipeline of reader, compute region with the body, and writer, with for each
  -- global pointer in turn a channel in when it is loaded and a channel out when it is stored,
  -- each with its transfer and its two signals.
  pub Splits_lem : (N : TdMod (BirModule D)) → (td_fission_tensix M ≡ some N) ↔ Splits N
  Splits_lem N = (td_fission_tensix-Splits N, Splits-td_fission_tensix N)

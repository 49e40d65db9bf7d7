-- ===== src/Tdf/Fission.antt =====
-- src/tdf/tdf_fission.c: a kernel in one region becomes a reader, a compute region and a writer,
-- with a channel for each pointer that is read and each that is written.
use mathlib.Core.Option
use booth.Base.{
  ℕ, zero, suc, ◌+◌, ◌-◌, bit_and, Bool, true, false, not, ◌&&◌, ◌||◌, ◌==◌, ltb, leb,
  if◌then◌else◌, Option, none, some, List, [], ◌∷◌, length, get_elem?, set, find_index,
}
use booth.Bir.Defs.{
  BirInst, BirFunc, BirModule, zero_type, type_ptr, type_float, bir_val_none, bir_val_index,
  bir_val_is_const,
}
use booth.Bir.Consts.{slot}
use booth.Bir.Opcodes.{
  op_store, op_alloca, op_gep, op_bitcast, op_param, op_inttoptr, op_ptrtoint, op_load, op_call,
}
use booth.Dce.Pass.{inst_at}
use booth.Dce.Blocks.{block_at}
use booth.Dce.Run.{func_at}
use booth.Tdf.Defs.{
  TdTag, TdRgn, TdMod, td_tgt_tensix, td_rg_solo, td_bad_id, td_ar_push, td_ar_wait, td_ar_rd,
  td_ar_wr,
}
use booth.Tdf.Build.{td_init, td_mkrgn, td_link, td_mkarc}

abbrev pub fs_max_params : ℕ
fs_max_params = 64

abbrev pub fs_trace_guard : ℕ
fs_trace_guard = 16

abbrev pub cuda_global : ℕ
cuda_global = 1

abbrev pub as_global : ℕ
as_global = 2

abbrev pub as_generic : ℕ
as_generic = 4

abbrev pub td_rg_rdr : ℕ
td_rg_rdr = 1

abbrev pub td_rg_cmp : ℕ
td_rg_cmp = 2

abbrev pub td_rg_wrt : ℕ
td_rg_wrt = 3

-- `fs_param_t`.
pub record FsParam : Type 0 where
  pub is_ptr : Bool
  pub loaded : Bool
  pub stored : Bool

-- An entry of the table, where there is one.
unfoldable pub update : (FsParam → FsParam) → List FsParam → (pi : ℕ) → List FsParam
update f params pi = elim (get_elem? params pi) [ none ↦ params | some p ↦ set params pi (f p) ]

unfoldable pub blank : ℕ → List FsParam
blank zero = []
blank (suc n) = record { is_ptr = false; loaded = false; stored = false } ∷ blank n

-- The loop of alsrc over the instructions that are left.
unfoldable pub only_store : (to hit : ℕ) → List BirInst → ℕ
only_store to hit [] = hit
only_store to hit (I ∷ rest) =
    let more =
      only_store to (if I.op == op_store && slot I.operands 1 == to then slot I.operands 0 else hit)
        rest in
    if not (I.op == op_store && slot I.operands 1 == to) || hit == bir_val_none
    then more
    else bir_val_none

module _ {D : Type 0} (bir : BirModule D) where
  unfoldable pub alsrc : ℕ → ℕ
  unfolding only_store
  alsrc to = only_store to bir_val_none bir.insts

  -- The value is no instruction of the module.
  unfoldable pub no_value : ℕ → Bool
  no_value val =
      val == bir_val_none || bir_val_is_const val || leb (length bir.insts) (bir_val_index val)

  unfoldable pub isloc_loop : (guard : ℕ) → ℕ → Bool
  isloc_loop zero val = false
  isloc_loop (suc guard) val =
      let I = inst_at bir (bir_val_index val) in
      let rest = isloc_loop guard (slot I.operands 0) in
      if no_value val
      then false
      else if I.op == op_alloca
      then true
      else if not (I.op == op_gep) && not (I.op == op_bitcast)
      then false
      else rest

  unfoldable pub isloc : ℕ → Bool
  unfolding isloc_loop no_value
  isloc = isloc_loop fs_trace_guard

  unfoldable pub trace_loop : (guard : ℕ) → ℕ → Option ℕ
  trace_loop zero val = none
  trace_loop (suc guard) val =
      let I = inst_at bir (bir_val_index val) in
      let through =
        I.op == op_gep
        || I.op == op_bitcast
        || I.op == op_inttoptr
        || I.op == op_ptrtoint
        || I.op == op_load in
      let rest = trace_loop guard (if through then slot I.operands 0 else alsrc val) in
      if no_value val
      then none
      else if I.op == op_param
      then some I.subop
      else if through || I.op == op_alloca
      then rest
      else none

  -- The parameter that an address comes from; -1 is none.
  unfoldable pub trace_to_param : ℕ → Option ℕ
  unfolding trace_loop no_value alsrc
  trace_to_param = trace_loop fs_trace_guard

  unfoldable pub find_kernel : Option ℕ
  find_kernel =
      elim (find_index (λ (F : BirFunc). not (bit_and F.cuda_flags cuda_global == 0)) bir.funcs) [
        | some fi ↦ some fi
        | none ↦ if ltb 0 (length bir.funcs) then some 0 else none
      ]

  unfoldable pub is_global_ptr : (type : ℕ) → Bool
  is_global_ptr type =
      let T = Option.get_or (get_elem? bir.types type) zero_type in
      ltb type (length bir.types)
      && T.kind == type_ptr
      && (T.addrspace == as_global || T.addrspace == as_generic)

  -- The first pass, from instruction `i` on.
  unfoldable pub mark_ptrs : (i left : ℕ) → List FsParam → List FsParam
  mark_ptrs i zero params = params
  mark_ptrs i (suc left) params =
      let I = inst_at bir i in
      mark_ptrs (suc i) left (
        if I.op == op_param && is_global_ptr I.type
        then update (λ p. record p { is_ptr = true }) params I.subop
        else params)

  -- What the second pass does with a load or a store.
  unfoldable pub mark_access : BirInst → List FsParam → List FsParam
  mark_access I params =
      if I.op == op_load && not (isloc (slot I.operands 0))
      then elim (trace_to_param (slot I.operands 0)) [
        | none ↦ params
        | some pi ↦ update (λ p. record p { loaded = true }) params pi
      ]
      else if I.op == op_store && not (isloc (slot I.operands 1))
      then elim (trace_to_param (slot I.operands 1)) [
        | none ↦ params
        | some pi ↦ update (λ p. record p { stored = true }) params pi
      ]
      else params

  -- The instructions of a block from place `ii` on; a call ends the pass.
  unfoldable pub scan_insts : (first ii left : ℕ) → List FsParam → Option (List FsParam)
  scan_insts first ii zero params = some params
  scan_insts first ii (suc left) params =
      let I = inst_at bir (first + ii) in
      let rest = scan_insts first (suc ii) left (mark_access I params) in
      if I.op == op_call then none else rest

  -- `num_blocks` is 16 bits, so the guard of 262144 blocks is never used up.
  unfoldable pub scan_blocks : (first_block bi left : ℕ) → List FsParam → Option (List FsParam)
  scan_blocks first_block bi zero params = some params
  scan_blocks first_block bi (suc left) params =
      let B = block_at bir (first_block + bi) in
      let n = if ltb 65536 B.num_insts then 65536 else B.num_insts in
      let rest =
        Option.bind (scan_insts B.first_inst 0 n params) (scan_blocks first_block (suc bi) left) in
      if leb (length bir.blocks) (first_block + bi) then some params else rest

  -- The table of parameters, or none where there is a call.
  unfoldable pub classify_params : (func_idx : ℕ) → Option (List FsParam)
  classify_params func_idx =
      let F = func_at bir func_idx in
      let nparams = if ltb F.num_params fs_max_params then F.num_params else fs_max_params in
      let first =
        if ltb F.first_block (length bir.blocks)
        then (block_at bir F.first_block).first_inst
        else 0 in
      let left = length bir.insts - first in
      scan_blocks F.first_block 0 F.num_blocks
        (mark_ptrs first (if ltb 8192 left then 8192 else left) (blank nparams))

abbrev pub fs_cb_depth : ℕ
fs_cb_depth = 2

abbrev pub default_tile : TdTag
default_tile = record { rows = 32; cols = 32; dtype = type_float; layout = 0 }

module _ {B : Type 0} where
  -- The channel of a pointer that is loaded, and of one that is stored. The answers of td_mkarc
  -- are not looked at.
  unfoldable pub input_channel : (rdr cmp : ℕ) → TdMod B → Option (TdMod B)
  input_channel rdr cmp M =
      let (ch, M₁) = td_link M rdr cmp default_tile fs_cb_depth in
      let M₂ = (td_mkarc M₁ rdr td_ar_rd ch 1 0).1 in
      let M₃ = (td_mkarc M₂ rdr td_ar_push ch 1 0).1 in
      if ch == td_bad_id then none else some (td_mkarc M₃ cmp td_ar_wait ch 1 0).1

  unfoldable pub output_channel : (cmp wrt : ℕ) → TdMod B → Option (TdMod B)
  output_channel cmp wrt M =
      let (ch, M₁) = td_link M cmp wrt default_tile fs_cb_depth in
      let M₂ = (td_mkarc M₁ cmp td_ar_push ch 1 0).1 in
      let M₃ = (td_mkarc M₂ wrt td_ar_wait ch 1 0).1 in
      if ch == td_bad_id then none else some (td_mkarc M₃ wrt td_ar_wr ch 1 0).1

  -- One parameter. An error is an id that td_link could not give.
  unfoldable pub param_channels : (rdr cmp wrt : ℕ) → FsParam → TdMod B → Option (TdMod B)
  unfolding input_channel output_channel
  param_channels rdr cmp wrt p M =
      if not p.is_ptr
      then some M
      else Option.bind (if p.loaded then input_channel rdr cmp M else some M)
          (λ M₁. if p.stored then output_channel cmp wrt M₁ else some M₁)

  unfoldable pub all_channels : (rdr cmp wrt : ℕ) → List FsParam → TdMod B → Option (TdMod B)
  unfolding param_channels
  all_channels rdr cmp wrt [] M = some M
  all_channels rdr cmp wrt (p ∷ ps) M =
      Option.bind (param_channels rdr cmp wrt p M) (all_channels rdr cmp wrt ps)

  -- `M->rgns[r].core = core`, and the body of a region.
  unfoldable pub set_core : (r core : ℕ) → TdMod B → TdMod B
  set_core r core M = record M {
    rgns = elim (get_elem? M.rgns r) [
      | none ↦ M.rgns
      | some g ↦ set M.rgns r (record g { core = core })
    ];
  }

  unfoldable pub set_body : (r : ℕ) → B → TdMod B → TdMod B
  set_body r body M = record M {
    rgns = elim (get_elem? M.rgns r) [
      | none ↦ M.rgns
      | some g ↦ set M.rgns r (record g { body = some body })
    ];
  }

  -- The graph from its three regions on.
  unfoldable pub rebuild : B → List FsParam → Option (TdMod B)
  unfolding set_core set_body all_channels td_init td_mkrgn
  rebuild body params =
      let (rdr, M₁) = td_mkrgn (td_init td_tgt_tensix) td_rg_rdr in
      let (cmp, M₂) = td_mkrgn M₁ td_rg_cmp in
      let (wrt, M₃) = td_mkrgn M₂ td_rg_wrt in
      let M₄ = set_body cmp body (set_core wrt 4 (set_core cmp 1 (set_core rdr 0 M₃))) in
      if rdr == td_bad_id || cmp == td_bad_id || wrt == td_bad_id
      then none
      else all_channels rdr cmp wrt params M₄

module _ {D : Type 0} where
  -- The graph in place of the one given; where there is none the answer is BC_ERR_TDF.
  unfoldable pub td_fission_tensix : TdMod (BirModule D) → Option (TdMod (BirModule D))
  td_fission_tensix M =
      let R : Option (TdRgn (BirModule D)) = get_elem? M.rgns 0 in
      if not (M.target == td_tgt_tensix)
      then none
      else if not (length M.rgns == 1)
      then none
      else Option.bind R (λ r.
        if not (r.role == td_rg_solo)
        then none
        else Option.bind r.body (λ body.
          Option.bind (find_kernel body)
            (λ fi. Option.bind (classify_params body fi) (λ params. rebuild body params))))

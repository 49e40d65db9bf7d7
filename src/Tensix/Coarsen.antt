-- ===== src/Tensix/Coarsen.antt =====
-- src/tensix/coarsen.c: which pattern a kernel has, and how many tiles a core works on. What it
-- prints is left out.
use booth.Base.{
  ℕ, zero, suc, ◌+◌, ◌-◌, ◌/◌, ◌%◌, ◌^◌, ◌&&◌, ◌||◌, ◌==◌, ltb, leb, if◌then◌else◌, List, [], ◌∷◌,
  length, set,
}
use booth.Bir.Defs.{BirInst, BirModule}
use booth.Bir.Consts.{slot}
use booth.Bir.Opcodes.{
  op_thread_id, op_block_id, op_block_dim, op_grid_dim, op_load, op_store, op_barrier,
  op_barrier_group, op_atomic_add, op_atomic_sub, op_atomic_and, op_atomic_or, op_atomic_xor,
  op_atomic_min, op_atomic_max, op_atomic_xchg, op_atomic_cas, op_shfl, op_shfl_up, op_shfl_down,
  op_shfl_xor, op_ballot, op_vote_any, op_vote_all,
}
use booth.Dce.Defs.{any_eq}
use booth.Dce.Pass.{inst_at}
use booth.Dce.Blocks.{block_at}
use booth.Dce.Run.{func_at}

-- `coarsen_stats_t`. The guard keeps each count below 262145, so none leaves its 32 bits.
pub record CoarsenStats : Type 0 where
  pub tid : List ℕ
  pub bid : List ℕ
  pub bdim : List ℕ
  pub gdim : List ℕ
  pub num_loads : ℕ
  pub num_stores : ℕ
  pub num_barriers : ℕ
  pub num_atomics : ℕ
  pub num_shuffles : ℕ

abbrev pub no_stats : CoarsenStats
no_stats = record {
  tid = 0 ∷ 0 ∷ 0 ∷ [];
  bid = 0 ∷ 0 ∷ 0 ∷ [];
  bdim = 0 ∷ 0 ∷ 0 ∷ [];
  gdim = 0 ∷ 0 ∷ 0 ∷ [];
  num_loads = 0;
  num_stores = 0;
  num_barriers = 0;
  num_atomics = 0;
  num_shuffles = 0;
}

abbrev pub barrier_ops : List ℕ
barrier_ops = op_barrier ∷ op_barrier_group ∷ []

abbrev pub atomic_ops : List ℕ
atomic_ops =
    op_atomic_add ∷ op_atomic_sub ∷ op_atomic_and ∷ op_atomic_or ∷ op_atomic_xor ∷ op_atomic_min
    ∷ op_atomic_max ∷ op_atomic_xchg ∷ op_atomic_cas ∷ []

abbrev pub shuffle_ops : List ℕ
shuffle_ops =
    op_shfl ∷ op_shfl_up ∷ op_shfl_down ∷ op_shfl_xor ∷ op_ballot ∷ op_vote_any ∷ op_vote_all ∷ []

unfoldable pub count_dim : List ℕ → ℕ → List ℕ
count_dim xs dim = set xs dim (slot xs dim + 1)

-- The switch over the opcode.
unfoldable pub count_inst : BirInst → CoarsenStats → CoarsenStats
unfolding count_dim any_eq
count_inst I stats =
    let dim = if ltb I.subop 3 then I.subop else 0 in
    if I.op == op_thread_id
    then record stats { tid = count_dim stats.tid dim }
    else if I.op == op_block_id
    then record stats { bid = count_dim stats.bid dim }
    else if I.op == op_block_dim
    then record stats { bdim = count_dim stats.bdim dim }
    else if I.op == op_grid_dim
    then record stats { gdim = count_dim stats.gdim dim }
    else if I.op == op_load
    then record stats { num_loads = stats.num_loads + 1 }
    else if I.op == op_store
    then record stats { num_stores = stats.num_stores + 1 }
    else if any_eq I.op barrier_ops
    then record stats { num_barriers = stats.num_barriers + 1 }
    else if any_eq I.op atomic_ops
    then record stats { num_atomics = stats.num_atomics + 1 }
    else if any_eq I.op shuffle_ops
    then record stats { num_shuffles = stats.num_shuffles + 1 }
    else stats

module _ {D : Type 0} (bir : BirModule D) where
  -- The inner loop, with the guard that both share.
  unfoldable pub analyse_insts : (first ii left guard : ℕ) → CoarsenStats → ℕ × CoarsenStats
  unfolding count_inst
  analyse_insts first ii zero guard stats = (guard, stats)
  analyse_insts first ii (suc left) guard stats =
      let rest =
        analyse_insts first (suc ii) left (guard - 1)
          (count_inst (inst_at bir (first + ii)) stats) in
      if guard == 0 then (guard, stats) else rest

  unfoldable pub analyse_blocks : (first_block bi left guard : ℕ) → CoarsenStats → CoarsenStats
  unfolding analyse_insts
  analyse_blocks first_block bi zero guard stats = stats
  analyse_blocks first_block bi (suc left) guard stats =
      let B = block_at bir (first_block + bi) in
      let inner = analyse_insts B.first_inst 0 B.num_insts guard stats in
      let rest = analyse_blocks first_block (suc bi) left (inner.0 - 1) inner.1 in
      if guard == 0 then stats else rest

  unfoldable pub analyse_function : ℕ → CoarsenStats
  unfolding analyse_blocks
  analyse_function func_idx =
      let F = func_at bir func_idx in analyse_blocks F.first_block 0 F.num_blocks 262144 no_stats

abbrev pub pattern_generic : ℕ
pattern_generic = 0

abbrev pub pattern_elementwise : ℕ
pattern_elementwise = 1

abbrev pub pattern_reduction : ℕ
pattern_reduction = 2

unfoldable pub classify_pattern : CoarsenStats → ℕ
classify_pattern stats =
    if ltb 0 stats.num_barriers || ltb 0 stats.num_atomics || ltb 0 stats.num_shuffles
    then pattern_reduction
    else if ltb 0 (slot stats.tid 0)
        && slot stats.tid 1 == 0
        && slot stats.tid 2 == 0
        && slot stats.bid 1 == 0
        && slot stats.bid 2 == 0
    then pattern_elementwise
    else pattern_generic

abbrev pub tt_sfpu_lanes : ℕ
tt_sfpu_lanes = 32

-- `tt_mfunc_t`, the fields that the analysis reads and writes.
pub record TtMfunc : Type 0 where
  pub name : ℕ
  pub is_kernel : ℕ
  pub launch_bounds_max : ℕ
  pub tiles_per_core : ℕ
  pub bir_func : ℕ
  pub coarsen_pattern : ℕ

unfoldable pub compute_grid_mapping : TtMfunc → TtMfunc
compute_grid_mapping MF =
    let tiles = (MF.launch_bounds_max + tt_sfpu_lanes - 1) % 2 ^ 32 / tt_sfpu_lanes in
    record MF {
      tiles_per_core = if ltb 0 MF.launch_bounds_max then (if ltb tiles 1 then 1 else tiles) else 1;
    }

module _ {D : Type 0} (bir : BirModule D) where
  unfoldable pub coarsen_one : TtMfunc → TtMfunc
  unfolding analyse_function classify_pattern compute_grid_mapping
  coarsen_one MF =
      if MF.is_kernel == 0 || leb (length bir.funcs) MF.bir_func
      then MF
      else compute_grid_mapping
          (record MF { coarsen_pattern = classify_pattern (analyse_function bir MF.bir_func) })

  -- The functions of the module; there are 4096 at most, so the guard of 8192 is never used up.
  unfoldable pub tensix_coarsen : List TtMfunc → List TtMfunc
  unfolding coarsen_one
  tensix_coarsen [] = []
  tensix_coarsen (MF ∷ mfuncs) = coarsen_one MF ∷ tensix_coarsen mfuncs

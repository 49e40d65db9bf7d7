-- ===== src/Tensix/Patterns.antt =====
-- What tensix_coarsen of src/tensix/coarsen.c finds out about a kernel.
use mathlib.Core.Option
use booth.Base.{
  ℕ, zero, suc, ◌+◌, ◌-◌, ◌*◌, ◌%◌, ◌^◌, ◌≤◌, ◌<◌, ◌≡◌, ◌≢◌, refl, sym, ap, ◌∙◌, arith, Bool, true,
  false, ◌||◌, ◌==◌, leb, if◌then◌else◌, some, List, [], ◌∷◌, length, get_elem?,
}
use booth.Bir.Defs.{BirModule}
use booth.Dce.Pass.{inst_at}
use booth.Dce.Blocks.{block_at}
use booth.Dce.Run.{func_at}
use booth.Tensix.Coarsen.{
  CoarsenStats, no_stats, count_inst, analyse_insts, analyse_blocks, analyse_function,
  classify_pattern, pattern_reduction, tt_sfpu_lanes, TtMfunc, compute_grid_mapping, coarsen_one,
  tensix_coarsen,
}
use booth.Tensix.Syncs.{syncs, synced, or_assoc, or_false, Counts, count_inst-synced}

module _ {D : Type 0} (bir : BirModule D) where
  -- Some instruction of a block waits, and some block has one.
  unfoldable pub insts_sync : (first ii left : ℕ) → Bool
  insts_sync first ii zero = false
  insts_sync first ii (suc left) =
      syncs (inst_at bir (first + ii)).op || insts_sync first (suc ii) left

  unfoldable pub blocks_sync : (first_block bi left : ℕ) → Bool
  blocks_sync first_block bi zero = false
  blocks_sync first_block bi (suc left) =
      let B = block_at bir (first_block + bi) in
      insts_sync B.first_inst 0 B.num_insts || blocks_sync first_block (suc bi) left

  -- The rounds that the two loops take.
  unfoldable pub rounds : (first_block bi left : ℕ) → ℕ
  rounds first_block bi zero = 0
  rounds first_block bi (suc left) =
      (block_at bir (first_block + bi)).num_insts + 1 + rounds first_block (suc bi) left

  analyse_insts-synced :
      (first ii left guard : ℕ) (s : CoarsenStats)
      → left ≤ guard
      → ((analyse_insts bir first ii left guard s).0 ≡ guard - left)
        × (synced (analyse_insts bir first ii left guard s).1
            ≡ (synced s || insts_sync first ii left))
  unfolding analyse_insts insts_sync Counts
  analyse_insts-synced first ii zero guard s h = (omega arith, sym (or_false (synced s)))
  analyse_insts-synced first ii (suc left) guard s h =
      let I = inst_at bir (first + ii) in
      let more : (guard == 0) ≡ false = ground arith in
      let rest =
        analyse_insts-synced first (suc ii) left (guard - 1) (count_inst I s) (omega arith) in
      rw more (
        omega (arith, rest.0),
        rest.1
            ∙ ap (λ b. b || insts_sync first (suc ii) left) (count_inst-synced I s)
            ∙ or_assoc (synced s) (syncs I.op) (insts_sync first (suc ii) left),
      )

  analyse_blocks-synced :
      (first_block bi left guard : ℕ) (s : CoarsenStats)
      → rounds first_block bi left ≤ guard
      → synced (analyse_blocks bir first_block bi left guard s)
        ≡ (synced s || blocks_sync first_block bi left)
  unfolding analyse_blocks blocks_sync rounds
  analyse_blocks-synced first_block bi zero guard s h = sym (or_false (synced s))
  analyse_blocks-synced first_block bi (suc left) guard s h =
      let B = block_at bir (first_block + bi) in
      let more : (guard == 0) ≡ false = ground arith in
      let inner = analyse_insts-synced B.first_inst 0 B.num_insts guard s (omega arith) in
      let run = analyse_insts bir B.first_inst 0 B.num_insts guard s in
      let rest =
        analyse_blocks-synced first_block (suc bi) left (run.0 - 1) run.1
          (omega (arith, inner.0)) in
      rw more (
        rest
        ∙ ap (λ b. b || blocks_sync first_block (suc bi) left) inner.1
        ∙ or_assoc (synced s) (insts_sync B.first_inst 0 B.num_insts)
            (blocks_sync first_block (suc bi) left))

reduction_test : (b c : Bool) → ((if b then 2 else if c then 1 else 0) == pattern_reduction) ≡ b
reduction_test true c = refl
reduction_test false true = refl
reduction_test false false = refl

classify_pattern-synced : (s : CoarsenStats) → (classify_pattern s == pattern_reduction) ≡ synced s
unfolding classify_pattern synced
classify_pattern-synced s = reduction_test (synced s) _

-- What is found out about a kernel: the pattern, and the fewest tiles of 32 lanes that hold a block
-- of its threads.
pub record IsCoarsened {D : Type 0} (bir : BirModule D) (MF MF' : TtMfunc) : Type 0 where
  pub pattern :
      (MF'.coarsen_pattern == pattern_reduction)
      ≡ blocks_sync bir (func_at bir MF.bir_func).first_block 0 (func_at bir MF.bir_func).num_blocks
  pub enough : MF.launch_bounds_max ≤ MF'.tiles_per_core * tt_sfpu_lanes
  pub fewest :
      1 < MF'.tiles_per_core → (MF'.tiles_per_core - 1) * tt_sfpu_lanes < MF.launch_bounds_max
  pub some_tile : 1 ≤ MF'.tiles_per_core

get_elem?-tensix_coarsen :
    {D : Type 0} (bir : BirModule D) (MF : TtMfunc) (mfuncs : List TtMfunc) (i : ℕ)
    → get_elem? mfuncs i ≡ some MF
    → get_elem? (tensix_coarsen bir mfuncs) i ≡ some (coarsen_one bir MF)
unfolding tensix_coarsen
get_elem?-tensix_coarsen bir MF [] i h = absurd (cc h)
get_elem?-tensix_coarsen bir MF (F ∷ mfuncs) zero h =
    ap (λ o. some (coarsen_one bir (Option.get_or o F))) h
get_elem?-tensix_coarsen bir MF (F ∷ mfuncs) (suc i) h = get_elem?-tensix_coarsen bir MF mfuncs i h

module _ {D : Type 0} (bir : BirModule D) (MF : TtMfunc) (kernel : MF.is_kernel ≢ 0)
    (known : MF.bir_func < length bir.funcs) (threads : MF.launch_bounds_max + 31 < 2 ^ 32)
    (short : rounds bir (func_at bir MF.bir_func).first_block 0 (func_at bir MF.bir_func).num_blocks
      ≤ 262144) where
  coarsen_one-IsCoarsened : IsCoarsened bir MF (coarsen_one bir MF)
  unfolding coarsen_one analyse_function compute_grid_mapping synced
  coarsen_one-IsCoarsened =
      let F = func_at bir MF.bir_func in
      let stats = analyse_blocks bir F.first_block 0 F.num_blocks 262144 no_stats in
      let k : (MF.is_kernel == 0) ≡ false = ground arith in
      let f : leb (length bir.funcs) MF.bir_func ≡ false = ground arith in
      let wrap : (MF.launch_bounds_max + tt_sfpu_lanes - 1) % 2 ^ 32 ≡ MF.launch_bounds_max + 31 =
        omega arith in
      rw (k, f)
        (record {
          pattern =
              classify_pattern-synced stats
              ∙ analyse_blocks-synced bir F.first_block 0 F.num_blocks 262144 no_stats short;
          enough = rw wrap (ground arith);
          fewest = rw wrap (λ more. ground arith);
          some_tile = rw wrap (ground arith);
        })

  -- For a kernel of a function that the module has, with at most 2 ^ 32 - 32 threads and few
  -- enough instructions for the guard, tensix_coarsen finds a reduction exactly when some
  -- instruction of its blocks is a barrier, an atomic read-modify-write, a shuffle, a ballot or
  -- a vote, and gives it the fewest tiles of 32 lanes, one at least, that hold its threads.
  pub tensix_coarsen-IsCoarsened :
      (mfuncs : List TtMfunc) (i : ℕ)
      → get_elem? mfuncs i ≡ some MF
      → (MF' : TtMfunc) × (get_elem? (tensix_coarsen bir mfuncs) i ≡ some MF')
        × IsCoarsened bir MF MF'
  tensix_coarsen-IsCoarsened mfuncs i here =
      (coarsen_one bir MF, get_elem?-tensix_coarsen bir MF mfuncs i here, coarsen_one-IsCoarsened)

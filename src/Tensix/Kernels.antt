-- ===== src/Tensix/Kernels.antt =====
-- tensix_coarsen of src/tensix/coarsen.c on a kernel of 96 threads.
use booth.Base.{ℕ, ◌≡◌, refl, arith, [], ◌∷◌, get_elem?, some}
use booth.Bir.Defs.{BirInst, BirModule}
use booth.Bir.Consts.{slot}
use booth.Bir.Opcodes.{op_thread_id, op_load, op_barrier, op_ret}
use booth.Dce.Defs.{any_eq}
use booth.Dce.Run.{no_func}
use booth.Tensix.Coarsen.{
  count_dim, count_inst, analyse_insts, analyse_blocks, analyse_function, pattern_elementwise,
  pattern_reduction, classify_pattern, TtMfunc, compute_grid_mapping, coarsen_one, tensix_coarsen,
}
use booth.Tensix.Patterns.{rounds, IsCoarsened, tensix_coarsen-IsCoarsened}

abbrev inst : ℕ → BirInst
inst op = record { op = op; num_operands = 0; subop = 0; type = 0; operands = [] }

abbrev reading : ℕ → BirModule ℕ
reading op = record {
  types = [];
  type_fields = [];
  consts = [];
  insts = inst op_thread_id ∷ inst op ∷ inst op_ret ∷ [];
  inst_lines = [];
  extra_operands = [];
  blocks = record { name = 0; first_inst = 0; num_insts = 3 } ∷ [];
  funcs = record no_func { total_insts = 3; num_blocks = 1 } ∷ [];
  globals = [];
  asms = [];
  strings = [];
  pool_full = 0;
}

abbrev kernel : TtMfunc
kernel = record {
  name = 0;
  is_kernel = 1;
  launch_bounds_max = 96;
  tiles_per_core = 0;
  bir_func = 0;
  coarsen_pattern = 0;
}

elementwise :
    tensix_coarsen (reading op_load) (kernel ∷ [])
    ≡ record kernel { tiles_per_core = 3; coarsen_pattern = pattern_elementwise } ∷ []
unfolding tensix_coarsen coarsen_one compute_grid_mapping classify_pattern analyse_function
    analyse_blocks analyse_insts count_inst count_dim any_eq slot
elementwise = refl

reduction :
    tensix_coarsen (reading op_barrier) (kernel ∷ [])
    ≡ record kernel { tiles_per_core = 3; coarsen_pattern = pattern_reduction } ∷ []
unfolding tensix_coarsen coarsen_one compute_grid_mapping classify_pattern analyse_function
    analyse_blocks analyse_insts count_inst count_dim any_eq slot
reduction = refl

-- The sum of the threads and 31 leaves 32 bits.
too_many :
    tensix_coarsen (reading op_load) (record kernel { launch_bounds_max = 0xFFFFFFFF } ∷ [])
    ≡ record kernel {
      launch_bounds_max = 0xFFFFFFFF;
      tiles_per_core = 1;
      coarsen_pattern = pattern_elementwise;
    }
      ∷ []
unfolding tensix_coarsen coarsen_one compute_grid_mapping classify_pattern analyse_function
    analyse_blocks analyse_insts count_inst count_dim any_eq slot
too_many = refl

few_rounds : rounds (reading op_barrier) 0 0 1 ≡ 4
unfolding rounds
few_rounds = refl

tensix_coarsen-IsCoarsened_example :
    (MF' : TtMfunc) × (get_elem? (tensix_coarsen (reading op_barrier) (kernel ∷ [])) 0 ≡ some MF')
    × IsCoarsened (reading op_barrier) kernel MF'
tensix_coarsen-IsCoarsened_example =
    tensix_coarsen-IsCoarsened (reading op_barrier) kernel (omega arith) (omega arith) (omega arith)
      (omega (arith, few_rounds)) (kernel ∷ []) 0 refl

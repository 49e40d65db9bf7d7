-- ===== src/Tdf/Kernel.antt =====
-- td_fission_tensix of src/tdf/tdf_fission.c on a kernel that copies one buffer to another.
use mathlib.Core.Option
use booth.Base.{ℕ, ◌≡◌, ◌↔◌, refl, none, some, List, [], ◌∷◌, length, find_index, bc_ok}
use booth.Bir.Defs.{
  BirInst, BirModule, zero_type, type_void, type_ptr, bir_val_is_const, bir_val_index,
}
use booth.Bir.Consts.{slot}
use booth.Bir.Opcodes.{op_load, op_store, op_param, op_gep, op_ret, op_call}
use booth.Dce.Run.{no_func}
use booth.Tdf.Defs.{TdMod, td_tgt_tensix, td_rg_solo}
use booth.Tdf.Build.{td_init, td_mkrgn, td_link, td_mkarc, new_rgn}
use booth.Tdf.Orchestrate.{td_noc_orchestrate}
use booth.Tdf.Fission.{
  only_store, alsrc, no_value, isloc_loop, isloc, trace_loop, trace_to_param, find_kernel, update,
  is_global_ptr, mark_ptrs, mark_access, scan_insts, scan_blocks, blank, classify_params,
  input_channel, output_channel, param_channels, all_channels, set_core, set_body, rebuild,
  td_fission_tensix, as_global, cuda_global,
}
use booth.Tdf.Pipeline.{input, output, pipeline}
use booth.Tdf.Divided.{Divides, td_fission_tensix_iff}
use booth.Tdf.Routed.{td_fission_tensix-td_noc_orchestrate}

abbrev inst : (op subop type : ℕ) → List ℕ → BirInst
inst op subop type operands = record {
  op = op;
  num_operands = length operands;
  subop = subop;
  type = type;
  operands = operands;
}

-- The instruction `last` stands in place of the store.
abbrev copying : BirInst → BirModule ℕ
copying last = record {
  types =
      record zero_type { kind = type_void }
      ∷ record zero_type { kind = type_ptr; addrspace = as_global }
      ∷ [];
  type_fields = [];
  consts = [];
  insts =
      inst op_param 0 1 []
      ∷ inst op_param 1 1 []
      ∷ inst op_gep 0 1 (0 ∷ [])
      ∷ inst op_load 0 0 (2 ∷ [])
      ∷ last
      ∷ inst op_ret 0 0 []
      ∷ [];
  inst_lines = [];
  extra_operands = [];
  blocks = record { name = 0; first_inst = 0; num_insts = 6 } ∷ [];
  funcs =
      record no_func { num_params = 2; cuda_flags = cuda_global; total_insts = 6; num_blocks = 1 }
      ∷ [];
  globals = [];
  asms = [];
  strings = [];
  pool_full = 0;
}

abbrev solo : BirInst → TdMod (BirModule ℕ)
solo last = record {
  rgns = record (new_rgn 0 td_rg_solo) { body = some (copying last) } ∷ [];
  chans = [];
  arcs = [];
  target = td_tgt_tensix;
}

abbrev store : BirInst
store = inst op_store 0 0 (3 ∷ 1 ∷ [])

abbrev two_links : TdMod (BirModule ℕ)
two_links = pipeline (copying store) (input ∷ output ∷ [])

divided : td_fission_tensix (solo store) ≡ some two_links
unfolding td_fission_tensix rebuild set_body set_core all_channels param_channels output_channel
    input_channel classify_params blank scan_blocks scan_insts mark_access mark_ptrs is_global_ptr
    update find_kernel find_index trace_to_param trace_loop isloc isloc_loop no_value alsrc
    only_store Option.bind td_init td_mkrgn td_link td_mkarc slot bir_val_is_const bir_val_index
divided = refl

-- A call leaves the kernel as it is.
left_alone : td_fission_tensix (solo (inst op_call 0 0 [])) ≡ none
unfolding td_fission_tensix rebuild set_body set_core all_channels param_channels output_channel
    input_channel classify_params blank scan_blocks scan_insts mark_access mark_ptrs is_global_ptr
    update find_kernel find_index trace_to_param trace_loop isloc isloc_loop no_value alsrc
    only_store Option.bind td_init td_mkrgn td_link td_mkarc slot bir_val_is_const bir_val_index
left_alone = refl

td_fission_tensix_iff_example :
    (td_fission_tensix (solo store) ≡ some two_links) ↔ Divides (solo store) two_links
td_fission_tensix_iff_example = td_fission_tensix_iff (solo store) two_links

td_fission_tensix-td_noc_orchestrate_example : (td_noc_orchestrate two_links).1 ≡ bc_ok
td_fission_tensix-td_noc_orchestrate_example =
    td_fission_tensix-td_noc_orchestrate (solo store) two_links divided

-- ===== src/Bir/Calls.antt =====
-- The calls by which the passes and the front ends change the type pool of src/ir/bir.c, as data.
use booth.Base.{ℕ, List, [], ◌∷◌}
use booth.Bir.Defs.{BirModule}
use booth.Bir.Types.{
  bir_type_void, bir_type_int, bir_type_float, bir_type_bfloat, bir_type_ptr, bir_type_array,
  bir_type_vector, bir_type_struct, bir_type_func, bir_sfwd, bir_sfin, bir_umrk, bir_salg, bir_tcst,
}

pub data TypeCall : Type 0 where
  void_call : TypeCall
  int_call : (width_bits : ℕ) → TypeCall
  float_call : (width_bits : ℕ) → TypeCall
  bfloat_call : TypeCall
  ptr_call : (pointee addrspace : ℕ) → TypeCall
  array_call : (elem count : ℕ) → TypeCall
  vector_call : (elem count : ℕ) → TypeCall
  struct_call : (fields : List ℕ) → TypeCall
  func_call : (ret : ℕ) (params : List ℕ) → TypeCall
  sfwd_call : TypeCall
  sfin_call : (ty : ℕ) (fields : List ℕ) → TypeCall
  umrk_call : (ty : ℕ) → TypeCall
  salg_call : (ty a : ℕ) → TypeCall
  tcst_call : (ty : ℕ) → TypeCall

module _ {D : Type 0} where
  unfoldable pub run_call : BirModule D → TypeCall → BirModule D
  run_call M void_call = (bir_type_void M).1
  run_call M (int_call w) = (bir_type_int M w).1
  run_call M (float_call w) = (bir_type_float M w).1
  run_call M bfloat_call = (bir_type_bfloat M).1
  run_call M (ptr_call p a) = (bir_type_ptr M p a).1
  run_call M (array_call e n) = (bir_type_array M e n).1
  run_call M (vector_call e n) = (bir_type_vector M e n).1
  run_call M (struct_call fs) = (bir_type_struct M fs).1
  run_call M (func_call r ps) = (bir_type_func M r ps).1
  run_call M sfwd_call = (bir_sfwd M).1
  run_call M (sfin_call ty fs) = (bir_sfin M ty fs).1
  run_call M (umrk_call ty) = (bir_umrk M ty).1
  run_call M (salg_call ty a) = (bir_salg M ty a).1
  run_call M (tcst_call ty) = (bir_tcst M ty).1

  unfoldable pub run_calls : BirModule D → List TypeCall → BirModule D
  run_calls M [] = M
  run_calls M (c ∷ cs) = run_calls (run_call M c) cs

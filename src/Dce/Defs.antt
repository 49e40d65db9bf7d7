-- ===== src/Dce/Defs.antt =====
-- Which operands and opcodes src/ir/bir_dce.c looks at, and the values that an instruction reads.
use booth.Base.{
  ℕ, zero, suc, ◌+◌, ◌%◌, ◌^◌, Bool, false, not, ◌&&◌, ◌||◌, ◌==◌, leb, if◌then◌else◌, List, [],
  ◌∷◌, length,
}
use booth.Bir.Defs.{
  BirInst, BirModule, bir_val_none, bir_val_index, bir_val_is_const, bir_operands_overflow,
  bir_operands_inline,
}
use booth.Bir.Consts.{slot}
use booth.Bir.Opcodes.{
  op_br, op_br_cond, op_switch, op_call, op_load, op_add, op_alloca, op_and, op_ashr, op_bitcast,
  op_block_dim, op_block_id, op_ceil, op_cos, op_exp2, op_fabs, op_fadd, op_fcmp, op_fdiv, op_floor,
  op_fmax, op_fmin, op_fmul, op_fnref, op_fpext, op_fptosi, op_fptoui, op_fptrunc, op_frem, op_fsub,
  op_ftrunc, op_gep, op_global_ref, op_grid_dim, op_icmp, op_inttoptr, op_log2, op_lshr, op_mul,
  op_or, op_phi, op_ptrtoint, op_rcp, op_rndne, op_rsq, op_sdiv, op_select, op_sext,
  op_shared_alloc, op_shl, op_sin, op_sitofp, op_sqrt, op_srem, op_sub, op_thread_id, op_trunc,
  op_udiv, op_uitofp, op_urem, op_xor, op_zext,
}

unfoldable pub is_inline_block_ref : (op j : ℕ) → Bool
is_inline_block_ref op j =
    if op == op_br
    then j == 0
    else if op == op_br_cond
    then leb 1 j && leb j 3
    else if op == op_switch
    then j == 1
    else if op == op_phi
    then j % 2 == 0
    else if op == op_call
    then j == 0
    else if op == op_fnref
    then j == 0
    else if op == op_global_ref
    then j == 0
    else false

unfoldable pub is_extra_block_ref : (op j : ℕ) → Bool
is_extra_block_ref op j =
    if op == op_phi
    then j % 2 == 0
    else if op == op_switch
    then j == 1 || leb 3 j && j % 2 == 1
    else if op == op_call
    then j == 0
    else false

abbrev pub pure_ops : List ℕ
pure_ops =
    op_add ∷ op_sub ∷ op_mul ∷ op_sdiv ∷ op_udiv ∷ op_srem ∷ op_urem ∷ op_fadd ∷ op_fsub ∷ op_fmul
    ∷ op_fdiv ∷ op_frem ∷ op_and ∷ op_or ∷ op_xor ∷ op_shl ∷ op_lshr ∷ op_ashr ∷ op_icmp ∷ op_fcmp
    ∷ op_trunc ∷ op_zext ∷ op_sext ∷ op_fptrunc ∷ op_fpext ∷ op_fptosi ∷ op_fptoui ∷ op_sitofp
    ∷ op_uitofp ∷ op_ptrtoint ∷ op_inttoptr ∷ op_bitcast ∷ op_sqrt ∷ op_rsq ∷ op_rcp ∷ op_exp2
    ∷ op_log2 ∷ op_sin ∷ op_cos ∷ op_fabs ∷ op_floor ∷ op_ceil ∷ op_ftrunc ∷ op_rndne ∷ op_fmax
    ∷ op_fmin ∷ op_phi ∷ op_alloca ∷ op_shared_alloc ∷ op_global_ref ∷ op_gep ∷ op_thread_id
    ∷ op_block_id ∷ op_block_dim ∷ op_grid_dim ∷ op_select ∷ op_fnref ∷ []

unfoldable pub any_eq : ℕ → List ℕ → Bool
any_eq op [] = false
any_eq op (x ∷ xs) = op == x || any_eq op xs

unfoldable pub is_pure_op : ℕ → Bool
is_pure_op op = any_eq op pure_ops

-- A load that is not volatile may go too.
unfoldable pub removable : BirInst → Bool
removable I = is_pure_op I.op || I.op == op_load && I.subop == 0

-- The instruction of another function's result, of a constant or of nothing is not counted.
unfoldable pub add_value : ℕ → List ℕ → List ℕ
add_value ref rest =
    if not (ref == bir_val_none) && not (bir_val_is_const ref)
    then bir_val_index ref ∷ rest
    else rest

-- The loop over the operands in the instruction, from operand `j` on.
unfoldable pub inline_values : (operands : List ℕ) → (op j left : ℕ) → List ℕ
inline_values operands op j zero = []
inline_values operands op j (suc left) =
    let rest = inline_values operands op (suc j) left in
    if is_inline_block_ref op j then rest else add_value (slot operands j) rest

-- The loop over the operands that stand in the pool, which ends where the pool does.
unfoldable pub extra_values : (extra : List ℕ) → (op start j left : ℕ) → List ℕ
extra_values extra op start j zero = []
extra_values extra op start j (suc left) =
    let here = (start + j) % 2 ^ 32 in
    let rest = extra_values extra op start (suc j) left in
    if leb (length extra) here
    then []
    else if is_extra_block_ref op j
    then rest
    else add_value (slot extra here) rest

module _ {D : Type 0} where
  -- The indices of the values that an instruction reads, in order.
  unfoldable pub values : BirModule D → BirInst → List ℕ
  values M I =
      if I.num_operands == bir_operands_overflow
      then extra_values M.extra_operands I.op (slot I.operands 0) 0 (slot I.operands 1)
      else inline_values I.operands I.op 0
          (if leb I.num_operands bir_operands_inline then I.num_operands else bir_operands_inline)

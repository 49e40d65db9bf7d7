-- ===== src/Verify/Defs.antt =====
-- What the verifier of src/ir/bir.c reads of an instruction, of a block and of a function.
use mathlib.Core.Option
use booth.Base.{
  ℕ, zero, suc, ◌+◌, ◌-◌, ◌*◌, ◌/◌, ◌%◌, ◌^◌, Bool, true, false, not, ◌&&◌, ◌||◌, ◌==◌, ltb, leb,
  if◌then◌else◌, Option, none, some, length, get_elem?,
}
use booth.Bir.Defs.{
  zero_type, BirType, BirInst, BirBlock, BirModule, type_void, type_ptr, type_func, bir_val_none,
  bir_val_index, bir_val_is_const, bir_operands_overflow,
}
use booth.Bir.Consts.{slot, bir_oper}
use booth.Bir.Opcodes.{op_br, op_br_cond, op_switch, op_phi, op_call, op_fnref, op_global_ref}
use booth.Dce.Pass.{inst_at}
use booth.Dce.Blocks.{block_at}
use booth.Dce.Run.{func_at}

-- What a slot of an instruction names.
pub data SlotKind : Type 0 where
  vch_val : SlotKind
  vch_blk : SlotKind
  vch_fun : SlotKind
  vch_glb : SlotKind

unfoldable pub vslot : (op j : ℕ) → SlotKind
vslot op j =
    if op == op_br
    then (if j == 0 then vch_blk else vch_val)
    else if op == op_br_cond
    then (if j == 0 then vch_val else vch_blk)
    else if op == op_switch
    then (if j == 0 then vch_val else if j == 1 || j % 2 == 1 then vch_blk else vch_val)
    else if op == op_phi
    then (if j % 2 == 1 then vch_val else vch_blk)
    else if op == op_call || op == op_fnref
    then (if j == 0 then vch_fun else vch_val)
    else if op == op_global_ref
    then (if j == 0 then vch_glb else vch_val)
    else vch_val

unfoldable pub vnop : BirInst → ℕ
vnop I = if I.num_operands == bir_operands_overflow then slot I.operands 1 else I.num_operands

-- The number of arguments of a call; a negative `int` is none.
unfoldable pub vnarg : BirInst → Option ℕ
vnarg I =
    let c = slot I.operands 1 in
    if I.num_operands == bir_operands_overflow
    then (if c == 0 || leb (2 ^ 31) (c - 1) then none else some (c - 1))
    else if I.num_operands == 0
    then none
    else some (I.num_operands - 1)

module _ {D : Type 0} (M : BirModule D) where
  abbrev pub type_at : ℕ → BirType
  type_at t = Option.get_or (get_elem? M.types t) zero_type

  -- The type of a value; the number of types stands for none.
  unfoldable pub bvty : ℕ → ℕ
  bvty v =
      let i = bir_val_index v in
      if v == bir_val_none
      then length M.types
      else if bir_val_is_const v
      then elim (get_elem? M.consts i) [ none ↦ length M.types | some c ↦ c.type ]
      else elim (get_elem? M.insts i) [ none ↦ length M.types | some I ↦ I.type ]

  unfoldable pub vfret : ℕ → ℕ
  vfret fi =
      let ft = (func_at M fi).type in
      if leb (length M.funcs) fi
      then length M.types
      else if leb (length M.types) ft || not ((type_at ft).kind == type_func)
      then length M.types
      else (type_at ft).inner

  unfoldable pub vsame : (a b : ℕ) → Bool
  vsame a b =
      if a == b
      then true
      else if leb (length M.types) a || leb (length M.types) b
      then false
      else (type_at a).kind == type_ptr && (type_at b).kind == type_ptr

  -- Whether the return `I` of function `fi` is refused.
  unfoldable pub vret1 : (fi : ℕ) → BirInst → Bool
  vret1 fi I =
      let rt = vfret fi in
      if leb (length M.types) rt
      then false
      else if (type_at rt).kind == type_void
      then not (I.num_operands == 0)
      else if I.num_operands == 0
      then true
      else not (vsame (bvty (slot I.operands 0)) rt)

  -- Whether the call `I` is refused.
  unfoldable pub vcal1 : BirInst → Bool
  vcal1 I =
      let ce = bir_oper M I 0 in
      let rt = vfret ce in
      let bad = ltb rt (length M.types) && not (vsame I.type rt) in
      let wrong : Bool = elim (vnarg I) [
        | none ↦ false
        | some na ↦ not (na == (func_at M ce).num_params)
      ] in
      if leb (length M.funcs) ce then false else bad || wrong

  unfoldable pub vnsuc : BirBlock → ℕ
  vnsuc B =
      let I = inst_at M (B.first_inst + B.num_insts - 1) in
      let c = slot I.operands 1 in
      if B.num_insts == 0 || leb (length M.insts) B.first_inst
      then 0
      else if ltb (length M.insts - 1 - B.first_inst) (B.num_insts - 1)
      then 0
      else if I.op == op_br
      then 1
      else if I.op == op_br_cond
      then 2
      else if not (I.op == op_switch)
      then 0
      else if not (I.num_operands == bir_operands_overflow)
      then 1
      else if ltb c 2
      then 0
      else 1 + (c - 2) / 2

  unfoldable pub vsuc : BirBlock → ℕ → ℕ
  vsuc B k =
      let I = inst_at M (B.first_inst + B.num_insts - 1) in
      if I.op == op_br
      then bir_oper M I 0
      else if I.op == op_br_cond
      then bir_oper M I ((1 + k) % 2 ^ 32)
      else if not (I.num_operands == bir_operands_overflow)
      then bir_oper M I 1
      else if k == 0
      then bir_oper M I 1
      else bir_oper M I ((2 * k + 1) % 2 ^ 32)

  -- The successors from the `k`-th on: whether `tgt` is one.
  unfoldable pub any_suc : BirBlock → (tgt k left : ℕ) → Bool
  any_suc B tgt k zero = false
  any_suc B tgt k (suc left) = vsuc B k == tgt || any_suc B tgt (suc k) left

  unfoldable pub vsucis : (b tgt : ℕ) → Bool
  unfolding any_suc
  vsucis b tgt = any_suc (block_at M b) tgt 0 (vnsuc (block_at M b))

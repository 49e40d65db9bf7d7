-- ===== src/Cfold/Run.antt =====
-- try_fold, cf_run_func and bir_cfold of src/ir/bir_cfold.c: one forward pass over each function.
-- What an instruction is replaced by is a function of its index; `none` is a division by zero on
-- the compiling machine, which ends the program.
use mathlib.Core.Option
use booth.Base.{
  ℕ, zero, suc, ◌+◌, Bool, false, not, ◌&&◌, ◌||◌, ◌==◌, ltb, leb, if◌then◌else◌, Option, none,
  some, length, set, get_elem?,
}
use booth.Bir.Defs.{
  BirConst, int, float, null, undef, zeros, bytes, BirInst, BirModule, bir_val_none, bir_val_index,
  bir_val_is_const, bir_make_const, bir_operands_overflow,
}
use booth.Bir.Consts.{slot, bir_oper}
use booth.Bir.Opcodes.{op_phi, op_select, op_br_cond, op_br}
use booth.Dce.Pass.{inst_at}
use booth.Dce.Blocks.{block_at}
use booth.Dce.Compact.{map_inst}
use booth.Dce.Run.{func_at}
use booth.Cfold.Ints.{kept, folded, faults}
use booth.Cfold.Floats.{DoubleOps}
use booth.Cfold.Phi.{cfpe}
use booth.Cfold.Consts.{fold_consts}

unfoldable pub rewrite_val : (val_rewrite : ℕ → ℕ) → (ref : ℕ) → ℕ
rewrite_val val_rewrite ref =
    let rw' = val_rewrite (bir_val_index ref) in
    if ref == bir_val_none || bir_val_is_const ref
    then ref
    else if not (rw' == bir_val_none)
    then rw'
    else ref

-- `cf_t`, with the number of changes.
pub record CfState (D : Type 0) : Type 0 where
  pub module_ : BirModule D
  pub val_rewrite : ℕ → ℕ
  pub changes : ℕ

module _ {D : Type 0} where
  -- The constant that operand 0 names.
  unfoldable pub condition : BirModule D → BirInst → Option (BirConst D)
  condition M I =
      let cond = slot I.operands 0 in
      if bir_val_is_const cond then get_elem? M.consts (bir_val_index cond) else none

  -- Whether a constant condition of a select holds, if it is an integer.
  unfoldable pub select_holds : BirConst D → Option Bool
  select_holds c = elim c.value [
    | int v ↦ some (not (v == 0))
    | float d ↦ none
    | null ↦ none
    | undef ↦ none
    | zeros ↦ none
    | bytes off len ↦ none
  ]

  -- A branch takes the constant of zeros as well.
  unfoldable pub branch_holds : BirConst D → Option Bool
  branch_holds c = elim c.value [
    | int v ↦ some (not (v == 0))
    | float d ↦ none
    | null ↦ none
    | undef ↦ none
    | zeros ↦ some false
    | bytes off len ↦ none
  ]

  unfoldable pub replace : CfState D → (ii v : ℕ) → CfState D
  replace S ii v = record S {
    val_rewrite = λ k. if k == ii then v else S.val_rewrite k;
    changes = S.changes + 1;
  }

  unfoldable pub fold_phi : CfState D → BirInst → (ii : ℕ) → CfState D
  unfolding replace
  fold_phi S I ii =
      let n =
        if I.num_operands == bir_operands_overflow then slot I.operands 1 else I.num_operands in
      if not (n == 2) then S else replace S ii (bir_oper S.module_ I 1)

  unfoldable pub fold_select : CfState D → BirInst → (ii : ℕ) → CfState D
  unfolding replace
  fold_select S I ii = elim (Option.bind (condition S.module_ I) select_holds) [
    | none ↦ S
    | some c ↦ replace S ii (slot I.operands (if c then 1 else 2))
  ]

  -- The branch that is left, and the phis of the block that it no longer goes to.
  unfoldable pub take_branch : BirModule D → BirInst → (ii ab : ℕ) → (taken : Bool) → BirModule D
  take_branch M I ii ab taken =
      let keep = slot I.operands (if taken then 1 else 2) in
      let lost = slot I.operands (if taken then 2 else 1) in
      let M₁ = record M {
        insts =
            set M.insts ii
              (record I { operands = set I.operands 0 keep; op = op_br; num_operands = 1 });
      } in
      if not (lost == keep) then cfpe M₁ ab lost else M₁

  unfoldable pub fold_branch : CfState D → BirInst → (ii ab : ℕ) → CfState D
  fold_branch S I ii ab = elim (Option.bind (condition S.module_ I) branch_holds) [
    | none ↦ S
    | some taken ↦ record S {
      module_ = take_branch S.module_ I ii ab taken;
      changes = S.changes + 1;
    }
  ]

module _ {D : Type 0} (F : DoubleOps D) where
  -- One instruction, at `ii` in block `ab`.
  unfoldable pub try_fold : CfState D → (ii ab : ℕ) → Option (CfState D)
  try_fold S ii ab =
      let I = inst_at S.module_ ii in
      if I.op == op_phi
      then some (fold_phi S I ii)
      else if I.op == op_select && leb 3 I.num_operands
      then some (fold_select S I ii)
      else if I.op == op_br_cond && leb 3 I.num_operands
      then some (fold_branch S I ii ab)
      else elim (fold_consts F S.module_ I) [
        | kept ↦ some S
        | folded (ci, M₁) ↦ some (replace (record S { module_ = M₁ }) ii (bir_make_const ci))
        | faults ↦ none
      ]

  -- The instructions of a block from place `j` on.
  unfoldable pub fold_insts : (ab first j left : ℕ) → CfState D → Option (CfState D)
  fold_insts ab first j zero S = some S
  fold_insts ab first j (suc left) S =
      let i = first + j in
      let M₁ = map_inst (rewrite_val S.val_rewrite) S.module_ i in
      Option.bind (try_fold (record S { module_ = M₁ }) i ab) (fold_insts ab first (suc j) left)

  unfoldable pub fold_blocks : (first_block bi left : ℕ) → CfState D → Option (CfState D)
  fold_blocks first_block bi zero S = some S
  fold_blocks first_block bi (suc left) S =
      let ab = first_block + bi in
      let BB = block_at S.module_ ab in
      Option.bind (fold_insts ab BB.first_inst 0 BB.num_insts S)
        (fold_blocks first_block (suc bi) left)

  unfoldable pub cf_run_func : CfState D → (fi : ℕ) → Option (CfState D)
  cf_run_func S fi =
      let F₁ = func_at S.module_ fi in
      let base = (block_at S.module_ F₁.first_block).first_inst in
      let reset = λ (k : ℕ).
        if leb base k && ltb k (base + F₁.total_insts) then bir_val_none else S.val_rewrite k in
      if F₁.num_blocks == 0 || F₁.total_insts == 0
      then some S
      else fold_blocks F₁.first_block 0 F₁.num_blocks (record S { val_rewrite = reset })

  unfoldable pub fold_funcs : (fi left : ℕ) → CfState D → Option (CfState D)
  fold_funcs fi zero S = some S
  fold_funcs fi (suc left) S = Option.bind (cf_run_func S fi) (fold_funcs (suc fi) left)

  -- The number of changes, and the module.
  unfoldable pub bir_cfold : BirModule D → Option (ℕ × BirModule D)
  bir_cfold M =
      let S : CfState D = record { module_ = M; val_rewrite = λ k. 0; changes = 0 } in
      Option.map (λ (T : CfState D). (T.changes, T.module_)) (fold_funcs 0 (length M.funcs) S)

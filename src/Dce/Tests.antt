-- ===== src/Dce/Tests.antt =====
-- Dead code elimination on a function of three blocks, the last of which the entry does not reach.
use booth.Base.{
  get_elem?, ◌==◌, ℕ, ◌≤◌, ◌<◌, ◌≡◌, ◌↔◌, ◌⊎◌, refl, arith, Bool, true, false, List, [], ◌∷◌,
  length, find_index,
}
use booth.Bir.Defs.{
  BirInst, BirFunc, BirModule, zero_type, type_void, bir_val_is_const, bir_val_index,
}
use booth.Bir.Opcodes.{op_add, op_br, op_ret}
use booth.Bir.Consts.{slot, bir_oper}
use booth.Dce.Defs.{
  removable, values, inline_values, extra_values, add_value, is_inline_block_ref, is_pure_op,
  any_eq,
}
use booth.Dce.Pass.{inst_at, dce_pass, dce_loop, round, sweep, count_uses, bump_all, bump, mark}
use booth.Dce.Counts.{reads, occurs}
use booth.Dce.Safe.{Closed, NoOverflow}
use booth.Dce.Effects.{MayGo}
use booth.Dce.Sound.{dce_pass_removes, dce_pass-Closed, dce_pass_thorough}
use booth.Dce.Blocks.{
  rmark, rmark_loop, mark_round, visit_block, visit_all, visit, targets, targets_from, nsuc, suc_of,
  plive,
}
use booth.Dce.Reach.{Reach}
use booth.Dce.Walks.{Laid}
use booth.Dce.Compacted.{total, compact_keeps}
use booth.Dce.Marked.{rmark_iff}
use booth.Dce.Run.{no_func, bir_dce, run_funcs, opt_run_func, clear_dead, close_gaps, take}
use booth.Dce.Unreached.{
  rchk, empty_blocks, empty_block, prune_blocks, prune_insts, phix, mark_insts,
}
use booth.Dce.Compact.{
  opt_undef, compact, renum_blocks, renum_insts, move_blocks, move_insts, map_insts, map_inst,
  map_inline, remap_operand,
}
use booth.Bir.Types.{bir_type_void, intern_type, type_eq_simple}

abbrev inst : ℕ → List ℕ → BirInst
inst op operands = record {
  op = op;
  num_operands = length operands;
  subop = 0;
  type = 0;
  operands = operands;
}

abbrev func : BirFunc
func = record no_func { total_insts = 6; num_blocks = 3 }

-- Two sums that nothing reads, one through the other; a sum that is returned; a block apart.
abbrev three_blocks : BirModule ℕ
three_blocks = record {
  types = record zero_type { kind = type_void } ∷ [];
  type_fields = [];
  consts = [];
  insts =
      inst op_add (0x80000000 ∷ 0x80000000 ∷ [])
      ∷ inst op_add (0 ∷ 0 ∷ [])
      ∷ inst op_add (0x80000000 ∷ 0x80000000 ∷ [])
      ∷ inst op_br (1 ∷ [])
      ∷ inst op_ret (2 ∷ [])
      ∷ inst op_ret (2 ∷ [])
      ∷ [];
  inst_lines = 1 ∷ 2 ∷ 3 ∷ 4 ∷ 5 ∷ 6 ∷ [];
  extra_operands = [];
  blocks =
      record { name = 0; first_inst = 0; num_insts = 4 }
      ∷ record { name = 0; first_inst = 4; num_insts = 1 }
      ∷ record { name = 0; first_inst = 5; num_insts = 1 }
      ∷ [];
  funcs = func ∷ [];
  globals = [];
  asms = [];
  strings = [];
  pool_full = 0;
}

abbrev nothing_dead : ℕ → Bool
nothing_dead k = false

sum_is_dead : (dce_pass three_blocks 0 6 nothing_dead).0 1 ≡ true
unfolding dce_pass dce_loop round sweep count_uses bump_all bump mark values inline_values
    extra_values add_value is_inline_block_ref removable is_pure_op any_eq bir_val_is_const
    bir_val_index slot
sum_is_dead = refl

sum_is_left : (dce_pass three_blocks 0 6 nothing_dead).0 2 ≡ false
unfolding dce_pass dce_loop round sweep count_uses bump_all bump mark values inline_values
    extra_values add_value is_inline_block_ref removable is_pure_op any_eq bir_val_is_const
    bir_val_index slot
sum_is_left = refl

sum-removable : removable (inst_at three_blocks 2) ≡ true
unfolding removable is_pure_op any_eq
sum-removable = refl

dce_pass_removes_example : (nothing_dead 1 ≡ true) ⊎ MayGo three_blocks 0 6 1
dce_pass_removes_example = dce_pass_removes three_blocks 0 6 nothing_dead 1 sum_is_dead

few_reads : NoOverflow three_blocks 0 6
unfolding NoOverflow reads occurs values inline_values add_value is_inline_block_ref
    bir_val_is_const bir_val_index slot
few_reads v = ground arith

nothing_dead-Closed : Closed three_blocks 0 6 nothing_dead
unfolding Closed
nothing_dead-Closed i v a b c d e f = refl

dce_pass-Closed_example : Closed three_blocks 0 6 (dce_pass three_blocks 0 6 nothing_dead).0
dce_pass-Closed_example =
    dce_pass-Closed three_blocks 0 6 few_reads nothing_dead nothing_dead-Closed

dce_pass_thorough_example :
    (0 < reads three_blocks (dce_pass three_blocks 0 6 nothing_dead).0 0 6 2)
    ⊎ (99 ≤ (dce_pass three_blocks 0 6 nothing_dead).1)
dce_pass_thorough_example =
    dce_pass_thorough three_blocks 0 6 few_reads nothing_dead 2 (omega arith) (omega arith)
      sum_is_left sum-removable

rmark_iff_example : (rmark three_blocks 0 3 1 ≡ true) ↔ Reach three_blocks 0 3 1
rmark_iff_example = rmark_iff three_blocks 0 3 1 (omega arith)

-- Two sums are gone, the block apart is emptied, and the lines have moved with the instructions.
lines-bir_dce : (bir_dce three_blocks).1.inst_lines ≡ 3 ∷ 4 ∷ 5 ∷ 6 ∷ []
unfolding bir_dce run_funcs opt_run_func rchk empty_blocks empty_block prune_blocks prune_insts phix
    rmark rmark_loop mark_round visit_block visit_all visit targets targets_from nsuc suc_of plive
    dce_pass dce_loop round sweep count_uses bump_all bump mark mark_insts values inline_values
    add_value is_inline_block_ref removable is_pure_op any_eq bir_val_is_const bir_val_index slot
    bir_oper compact renum_blocks renum_insts move_blocks move_insts map_insts map_inst map_inline
    remap_operand clear_dead close_gaps take bir_type_void intern_type type_eq_simple find_index
lines-bir_dce = refl

-- The second sum of the first block is dead.
abbrev first_dead : ℕ → Bool
first_dead k = k == 1

three_blocks-Laid : Laid three_blocks 0 0 0 (4 ∷ 1 ∷ 1 ∷ [])
unfolding Laid
three_blocks-Laid = (refl, refl, (refl, refl, (refl, refl, tt)))

total-three_blocks : total (4 ∷ 1 ∷ 1 ∷ []) ≡ 6
unfolding total
total-three_blocks = refl

compact_keeps_example :
    get_elem?
      (move_blocks first_dead 0 0 3 (three_blocks, 0)).0.insts
      ((renum_blocks first_dead three_blocks 0 0 3 ((λ i. opt_undef), 0)).0 4)
    ≡ get_elem? three_blocks.insts 4
compact_keeps_example =
    compact_keeps first_dead three_blocks 0 0 4 (4 ∷ 1 ∷ 1 ∷ []) three_blocks-Laid
      (omega (arith, total-three_blocks)) (omega arith) (omega (arith, total-three_blocks)) refl

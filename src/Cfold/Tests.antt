-- ===== src/Cfold/Tests.antt =====
-- The folding of src/ir/bir_cfold.c at concrete values.
use mathlib.Core.Option
use booth.Base.{
  ℕ, ◌+◌, ◌-◌, ◌*◌, ◌/◌, ◌%◌, ◌^◌, ◌≡◌, ◌≢◌, ◌↔◌, refl, arith, true, false, ltb, leb, ◌==◌, Option,
  none, some, List, [], ◌∷◌, to_u32, find_index,
}
use booth.Bir.Defs.{
  BirConst, int, BirInst, BirModule, zero_type, type_int, type_void, bir_make_const, bir_val_index,
  bir_val_is_const,
}
use booth.Bir.Opcodes.{op_add, op_mul, op_udiv, op_phi, op_br}
use booth.Dce.Run.{no_func}
use booth.Dce.Defs.{is_inline_block_ref, is_extra_block_ref}
use booth.Dce.Compact.{map_inst, map_inline}
use booth.Bir.Consts.{slot, bir_const_int, is_int, push_const}
use booth.Dce.Pass.{inst_at}
use booth.Cfold.Ints.{
  folded, faults, int_sdiv, int_udiv, fold_binary, fold_int, int_op, fold_conv, signed_division,
  unsigned_division,
}
use booth.Cfold.Floats.{DoubleOps}
use booth.Cfold.Values.{int_value, fold_binary_lem}
use booth.Cfold.Faults.{IsDivision, fold_binary-faults_iff}
use booth.Cfold.Consts.{
  fold_consts, all_const, fold_pair, const_at, int_of, float_of, fold_two_ints, fold_one_int,
  put_int, put_float, int_width, float_width, kind_width, source_width, type_of,
}
use booth.Cfold.Typed.{HasType, fold_consts-HasType}
use booth.Cfold.Phi.{cfpe}
use booth.Cfold.Arms.{phi_arms, without}
use booth.Cfold.Pruned.{IsInlinePhi, cfpe-phi_arms}
use booth.Cfold.Run.{
  bir_cfold, fold_funcs, cf_run_func, fold_blocks, fold_insts, rewrite_val, try_fold, replace,
}
use booth.Cfold.Width.{sign_extend, mask_to_width, icmp_slt, icmp_ult, fold_icmp}
use booth.Cfold.Extend.{icmp, fold_icmp_lem}

-- 0xFF as 8 bits is below 1 as a signed number and above it as an unsigned one.
minus_one_below : fold_icmp icmp_slt 8 0xFF 1 ≡ true
unfolding fold_icmp sign_extend mask_to_width
minus_one_below = refl

not_below : fold_icmp icmp_ult 8 0xFF 1 ≡ false
unfolding fold_icmp sign_extend mask_to_width
not_below = refl

fold_icmp_lem_example : fold_icmp icmp_slt 8 0x1FF 1 ≡ icmp icmp_slt 8 (0x1FF % 2 ^ 8) (1 % 2 ^ 8)
fold_icmp_lem_example =
    fold_icmp_lem 8 0x1FF 1 (omega arith) (omega arith) (omega arith) (omega arith) icmp_slt

fold_binary_lem_example :
    fold_binary int_sdiv 8 8 0x180 0xFF ≡ int_value int_sdiv 8 (0x180 % 2 ^ 8) (0xFF % 2 ^ 8)
fold_binary_lem_example =
    fold_binary_lem 8 3 0x180 0xFF refl (omega arith) (omega arith) (omega arith)
      (λ e. absurd (omega (arith, e))) int_sdiv

fold_binary-faults_iff_example :
    (fold_binary int_udiv 8 8 7 256 ≡ faults)
    ↔ (IsDivision int_udiv × (◌≢◌ {A = ℕ} 256 0) × (256 % 2 ^ 8 ≡ 0))
fold_binary-faults_iff_example =
    fold_binary-faults_iff 8 3 7 256 refl (omega arith) (omega arith) (omega arith) int_udiv

-- Whole numbers in the place of `double`.
abbrev whole_numbers : DoubleOps ℕ
whole_numbers = record {
  eq = λ a b. a == b;
  lt = λ a b. ltb a b;
  le = λ a b. leb a b;
  add = λ a b. a + b;
  sub = λ a b. a - b;
  mul = λ a b. a * b;
  div = λ a b. a / b;
  fmod = λ a b. a % b;
  to_float = λ a. a;
  of_int64 = to_u32;
  of_uint64 = λ a. a;
  to_int64 = λ a. a;
  to_uint64 = λ a. a;
}

abbrev inst : ℕ → ℕ → List ℕ → BirInst
inst op n operands = record { op = op; num_operands = n; subop = 0; type = 1; operands = operands }

abbrev constant : ℕ → BirConst ℕ
constant v = record { type = 1; value = int v }

-- One block, with an operation on two constants of 8 bits and one on its result.
abbrev one_block : (op b : ℕ) → BirModule ℕ
one_block op b = record {
  types =
      record zero_type { kind = type_void } ∷ record zero_type { kind = type_int; width = 8 } ∷ [];
  type_fields = [];
  consts = constant 250 ∷ constant b ∷ [];
  insts =
      inst op 2 (bir_make_const 0 ∷ bir_make_const 1 ∷ 0 ∷ 0 ∷ 0 ∷ 0 ∷ [])
      ∷ inst op_mul 2 (0 ∷ bir_make_const 1 ∷ 0 ∷ 0 ∷ 0 ∷ 0 ∷ [])
      ∷ [];
  inst_lines = 1 ∷ 2 ∷ [];
  extra_operands = [];
  blocks = record { name = 0; first_inst = 0; num_insts = 2 } ∷ [];
  funcs = record no_func { total_insts = 2; num_blocks = 1 } ∷ [];
  globals = [];
  asms = [];
  strings = [];
  pool_full = 0;
}

-- Both instructions are folded: 250 + 10 is 4 in 8 bits, and 4 * 10 is 40.
pool_after : Option (ℕ × BirModule ℕ) → List (BirConst ℕ)
pool_after none = []
pool_after (some (n, M)) = M.consts

both_folded :
    pool_after (bir_cfold whole_numbers (one_block op_add 10))
    ≡ constant 250 ∷ constant 10 ∷ constant 4 ∷ constant 40 ∷ []
unfolding pool_after bir_cfold fold_funcs cf_run_func fold_blocks fold_insts map_inst map_inline
    rewrite_val is_inline_block_ref is_extra_block_ref slot bir_val_index bir_val_is_const
    bir_make_const try_fold fold_consts all_const fold_pair const_at int_of float_of fold_two_ints
    fold_one_int put_int put_float fold_conv int_width float_width kind_width source_width type_of
    int_op fold_binary fold_int mask_to_width sign_extend signed_division unsigned_division
    bir_const_int is_int push_const find_index replace Option.bind
both_folded = refl

-- A divisor of 256 is 0 in 8 bits, and the guard does not see it.
divides_by_zero : bir_cfold whole_numbers (one_block op_udiv 256) ≡ none
unfolding bir_cfold fold_funcs cf_run_func fold_blocks fold_insts map_inst map_inline rewrite_val
    is_inline_block_ref is_extra_block_ref slot bir_val_index bir_val_is_const bir_make_const
    try_fold fold_consts all_const fold_pair const_at int_of float_of fold_two_ints fold_one_int
    put_int put_float fold_conv int_width float_width kind_width source_width type_of int_op
    fold_binary fold_int mask_to_width sign_extend signed_division unsigned_division bir_const_int
    is_int push_const find_index replace Option.bind
divides_by_zero = refl

first : BirInst
first = inst_at (one_block op_add 10) 0

folds_first :
    fold_consts whole_numbers (one_block op_add 10) first
    ≡ folded (bir_const_int (one_block op_add 10) 1 4)
unfolding first is_inline_block_ref is_extra_block_ref slot bir_val_index bir_val_is_const
    bir_make_const try_fold fold_consts all_const fold_pair const_at int_of float_of fold_two_ints
    fold_one_int put_int put_float fold_conv int_width float_width kind_width source_width type_of
    int_op fold_binary fold_int mask_to_width sign_extend signed_division unsigned_division
    bir_const_int is_int push_const find_index replace
folds_first = refl

fold_consts-HasType_example :
    HasType (one_block op_add 10) first.type (bir_const_int (one_block op_add 10) 1 4)
fold_consts-HasType_example =
    fold_consts-HasType (one_block op_add 10) (omega arith) whole_numbers first _ folds_first

-- A branch from block 0 that goes to block 1, whose phi has an arm for block 0 and one for block 2.
abbrev joined : BirModule ℕ
joined = record (one_block op_add 10) {
  insts =
      inst op_br 1 (1 ∷ 0 ∷ 0 ∷ 0 ∷ 0 ∷ 0 ∷ [])
      ∷ inst op_phi 4 (0 ∷ bir_make_const 0 ∷ 2 ∷ bir_make_const 1 ∷ 0 ∷ 0 ∷ [])
      ∷ [];
  blocks =
      record { name = 0; first_inst = 0; num_insts = 1 }
      ∷ record { name = 0; first_inst = 1; num_insts = 1 }
      ∷ [];
}

joined-IsInlinePhi : IsInlinePhi (inst_at joined 1)
joined-IsInlinePhi = record { is_phi = refl; whole = refl; in_use = omega arith }

cfpe-phi_arms_example :
    phi_arms (inst_at (cfpe joined 0 1) 1) ≡ without 0 (phi_arms (inst_at joined 1))
cfpe-phi_arms_example =
    cfpe-phi_arms 0 joined 1 0 (omega arith) (omega arith) (omega arith) joined-IsInlinePhi

one_arm_left : without 0 (phi_arms (inst_at joined 1)) ≡ (2, bir_make_const 1) ∷ []
unfolding slot
one_arm_left = refl

-- ===== src/Verify/Tests.antt =====
-- bir_vchk of src/ir/bir.c on a function whose last block joins two paths.
use booth.Base.{ℕ, negsuc, ◌≡◌, refl, arith, Bool, true, false, List, [], ◌∷◌, length, bc_ok}
use booth.Bir.Defs.{
  BirInst, BirBlock, BirModule, zero_type, type_void, type_int, type_func, bir_make_const,
  bir_val_is_const, bir_val_index,
}
use booth.Bir.Consts.{slot, bir_oper}
use booth.Bir.Opcodes.{op_br, op_br_cond, op_phi, op_ret, op_global_ref}
use booth.Dce.Pass.{inst_at}
use booth.Dce.Run.{no_func}
use booth.Verify.Defs.{
  vslot, vnop, vnarg, bvty, vfret, vsame, vret1, vcal1, vnsuc, vsuc, any_suc, vsucis,
}
use booth.Verify.Run.{
  range_blocks, vfrng, share_blocks, share_insts, overlaps, vovlp_from, vovlp, count_sucs,
  count_blocks, vpred, faulty, report, vops1, phi_arms, vphi1, vinst1, vinsts, in_arena, vfun1,
  func_range, vfuncs, bir_vchk,
}
use booth.Verify.Fine.{preds}
use booth.Verify.Phis.{IsSoundPhi, bir_vchk-IsSoundPhi}

abbrev inst : ℕ → List ℕ → BirInst
inst op operands = record {
  op = op;
  num_operands = length operands;
  subop = 0;
  type = 1;
  operands = operands;
}

abbrev block : (first_inst num_insts : ℕ) → BirBlock
block first_inst num_insts = record { name = 0; first_inst = first_inst; num_insts = num_insts }

-- The second arm of the phi comes from block `p`.
abbrev joined : ℕ → BirModule ℕ
joined p = record {
  types =
      record zero_type { kind = type_void }
      ∷ record zero_type { kind = type_int; width = 32 }
      ∷ record zero_type { kind = type_func }
      ∷ [];
  type_fields = [];
  consts = [];
  insts =
      inst op_br_cond (bir_make_const 0 ∷ 1 ∷ 2 ∷ [])
      ∷ inst op_br (2 ∷ [])
      ∷ inst op_phi (0 ∷ bir_make_const 0 ∷ p ∷ bir_make_const 1 ∷ [])
      ∷ inst op_ret []
      ∷ [];
  inst_lines = 1 ∷ 2 ∷ 3 ∷ 4 ∷ [];
  extra_operands = [];
  blocks = block 0 1 ∷ block 1 1 ∷ block 2 2 ∷ [];
  funcs = record no_func { type = 2; total_insts = 4; num_blocks = 3 } ∷ [];
  globals = [];
  asms = [];
  strings = [];
  pool_full = 0;
}

abbrev nothing_stale : ℕ → Bool
nothing_stale fi = false

accepted : bir_vchk (joined 1) nothing_stale ≡ bc_ok
unfolding bir_vchk vovlp vovlp_from overlaps share_blocks share_insts vfrng range_blocks vfuncs
    func_range vfun1 in_arena vinsts vinst1 vphi1 phi_arms vops1 report faulty vpred count_blocks
    count_sucs vsucis any_suc vsuc vnsuc vcal1 vret1 vsame vfret bvty vnarg vnop vslot bir_oper slot
    bir_val_is_const bir_val_index bir_make_const
accepted = refl

-- An arm from the block of the phi itself is none of its predecessors.
refused : bir_vchk (joined 2) nothing_stale ≡ negsuc 4
unfolding bir_vchk vovlp vovlp_from overlaps share_blocks share_insts vfrng range_blocks vfuncs
    func_range vfun1 in_arena vinsts vinst1 vphi1 phi_arms vops1 report faulty vpred count_blocks
    count_sucs vsucis any_suc vsuc vnsuc vcal1 vret1 vsame vfret bvty vnarg vnop vslot bir_oper slot
    bir_val_is_const bir_val_index bir_make_const
refused = refl

-- A reference to a global that is not there, in a function whose flag holds what another left.
abbrev global_ref : BirModule ℕ
global_ref = record (joined 1) {
  insts = inst op_global_ref (5 ∷ []) ∷ inst op_ret [] ∷ [];
  blocks = block 0 2 ∷ [];
  funcs = record no_func { type = 2; total_insts = 2; num_blocks = 1 } ∷ [];
}

global_unseen : bir_vchk global_ref (λ fi. true) ≡ bc_ok
unfolding bir_vchk vovlp vovlp_from overlaps share_blocks share_insts vfrng range_blocks vfuncs
    func_range vfun1 in_arena vinsts vinst1 vphi1 phi_arms vops1 report faulty vpred count_blocks
    count_sucs vsucis any_suc vsuc vnsuc vcal1 vret1 vsame vfret bvty vnarg vnop vslot bir_oper slot
    bir_val_is_const bir_val_index bir_make_const
global_unseen = refl

global_seen : bir_vchk global_ref nothing_stale ≡ negsuc 4
unfolding bir_vchk vovlp vovlp_from overlaps share_blocks share_insts vfrng range_blocks vfuncs
    func_range vfun1 in_arena vinsts vinst1 vphi1 phi_arms vops1 report faulty vpred count_blocks
    count_sucs vsucis any_suc vsuc vnsuc vcal1 vret1 vsame vfret bvty vnarg vnop vslot bir_oper slot
    bir_val_is_const bir_val_index bir_make_const
global_seen = refl

bir_vchk-IsSoundPhi_example :
    IsSoundPhi (joined 1) (func_range (joined 1) 0) (inst_at (joined 1) 2) 2 (preds (joined 1) 0 2)
unfolding func_range in_arena
bir_vchk-IsSoundPhi_example =
    bir_vchk-IsSoundPhi (joined 1) nothing_stale (λ fi. refl) accepted 0 2 0 (omega arith) refl
      (omega arith) (omega arith) refl

-- ===== src/Insert/Tests.antt =====
-- bir_insert of src/ir/bir_insert.c on two blocks, with an insertion into the first.
use booth.Base.{ℕ, zero, suc, ◌<◌, ◌≡◌, refl, arith, false, List, [], ◌∷◌, length, get_elem?, some}
use booth.Bir.Defs.{BirInst, BirBlock, BirModule, bir_val_is_const, bir_val_index, bir_val_none}
use booth.Bir.Consts.{slot}
use booth.Bir.Opcodes.{op_add, op_alloca, op_load, op_br, op_phi, op_ret, op_thread_id}
use booth.Dce.Defs.{is_inline_block_ref}
use booth.Dce.Run.{no_func}
use booth.Insert.Run.{
  rv, slide, slide_each, slide_second, names_first, remap_slots, remap_pool, remap_pools, splice,
  no_lines, slide_block, slide_blocks, grow_owner, insert_at, bir_insert,
}
use booth.Insert.Slots.{IsInline}
use booth.Insert.Reads.{moved, Names, Accepts, Renamed, bir_insert-Renamed}
use booth.Insert.Places.{after, Holds, bir_insert-Holds}

abbrev inst : ℕ → List ℕ → BirInst
inst op operands = record {
  op = op;
  num_operands = length operands;
  subop = 0;
  type = 0;
  operands = operands;
}

abbrev block : (first_inst num_insts : ℕ) → BirBlock
block first_inst num_insts = record { name = 0; first_inst = first_inst; num_insts = num_insts }

abbrev two_blocks : BirModule ℕ
two_blocks = record {
  types = [];
  type_fields = [];
  consts = [];
  insts =
      inst op_thread_id []
      ∷ inst op_add (0 ∷ 0 ∷ [])
      ∷ inst op_br (1 ∷ [])
      ∷ inst op_phi (0 ∷ 1 ∷ [])
      ∷ inst op_ret (3 ∷ [])
      ∷ [];
  inst_lines = 1 ∷ 2 ∷ 3 ∷ 4 ∷ 5 ∷ [];
  extra_operands = [];
  blocks = block 0 3 ∷ block 3 2 ∷ [];
  funcs = record no_func { total_insts = 5; num_blocks = 2 } ∷ [];
  globals = [];
  asms = [];
  strings = [];
  pool_full = 0;
}

-- In front of the addition.
inserted : bir_insert two_blocks 0 1 (inst op_alloca [] ∷ []) ≡ (
  1,
  record two_blocks {
    insts =
        inst op_thread_id []
        ∷ inst op_alloca []
        ∷ inst op_add (0 ∷ 0 ∷ [])
        ∷ inst op_br (1 ∷ [])
        ∷ inst op_phi (0 ∷ 2 ∷ [])
        ∷ inst op_ret (4 ∷ [])
        ∷ [];
    inst_lines = 1 ∷ 0 ∷ 2 ∷ 3 ∷ 4 ∷ 5 ∷ [];
    blocks = block 0 4 ∷ block 4 2 ∷ [];
    funcs = record no_func { total_insts = 6; num_blocks = 2 } ∷ [];
  },
)
unfolding bir_insert insert_at grow_owner slide_blocks slide_block no_lines splice remap_pools
    remap_pool remap_slots names_first slide_second slide_each slide rv slot bir_val_is_const
    bir_val_index
inserted = refl

-- A load of the alloca that is inserted with it, by its number after the insertion, is moved on
-- with the rest.
load_moved :
    get_elem? (bir_insert two_blocks 0 1 (inst op_alloca [] ∷ inst op_load (1 ∷ []) ∷ [])).1.insts 2
    ≡ some (inst op_load (3 ∷ []))
unfolding bir_insert insert_at grow_owner slide_blocks slide_block no_lines splice remap_pools
    remap_pool remap_slots names_first slide_second slide_each slide rv slot bir_val_is_const
    bir_val_index
load_moved = refl

outside : bir_insert two_blocks 0 4 (inst op_alloca [] ∷ []) ≡ (bir_val_none, two_blocks)
unfolding bir_insert
outside = refl

two_blocks-Accepts : Accepts two_blocks 0 1 (inst op_alloca [] ∷ []) (block 0 3)
two_blocks-Accepts = record {
  found = refl;
  inside = omega arith;
  some_src = omega arith;
  ends = omega arith;
  room = omega arith;
}

phi-IsInline : IsInline (inst op_phi (0 ∷ 1 ∷ []))
phi-IsInline = record {
  few = omega arith;
  there = omega arith;
  br = λ e. cc e;
  br_cond = λ e. cc e;
  switch = λ e. cc e;
}

phi-Names : (j : ℕ) → j < 2 → is_inline_block_ref op_phi j ≡ false → Names 5 (slot (0 ∷ 1 ∷ []) j)
unfolding slot bir_val_index
phi-Names zero h e = record { below = λ a b. omega arith }
phi-Names (suc zero) h e = record { below = λ a b. omega arith }
phi-Names (suc (suc j)) h e = absurd (omega arith)

bir_insert-Renamed_example :
    let (at, N) = bir_insert two_blocks 0 1 (inst op_alloca [] ∷ []) in
    (at ≡ 1)
    × (J : BirInst) × (get_elem? N.insts 4 ≡ some J)
    × Renamed two_blocks N (moved 1 1) (inst op_phi (0 ∷ 1 ∷ [])) J
bir_insert-Renamed_example =
    bir_insert-Renamed two_blocks 0 1 (inst op_alloca [] ∷ []) (block 0 3) two_blocks-Accepts 3
      (inst op_phi (0 ∷ 1 ∷ [])) refl phi-IsInline phi-Names

bir_insert-Holds_example :
    (C : BirBlock) × (get_elem? (bir_insert two_blocks 0 1 (inst op_alloca [] ∷ [])).1.blocks 1
      ≡ some C)
    × Holds (moved 1 1) (λ k. k) 0 (block 3 2) C
bir_insert-Holds_example =
    bir_insert-Holds two_blocks 0 1 (inst op_alloca [] ∷ []) (block 0 3) two_blocks-Accepts 1
      (block 3 2) refl (after refl (omega arith)) (omega arith)

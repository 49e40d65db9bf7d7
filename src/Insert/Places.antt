-- ===== src/Insert/Places.antt =====
-- After bir_insert of src/ir/bir_insert.c each block has its instructions where they were moved to.
use mathlib.Core.Option
use booth.Base.{
  ℕ, zero, suc, ◌+◌, ◌%◌, ◌^◌, ◌≤◌, ◌<◌, ◌≡◌, refl, ap, ◌∙◌, arith, ◌==◌, leb, if◌then◌else◌,
  Bool-cases, inl, inr, List, [], ◌∷◌, length, get_elem?, some, true, false,
}
use booth.Bir.Defs.{BirInst, BirBlock, BirModule}
use booth.Insert.Run.{slide_block, slide_blocks, insert_at, bir_insert}
use booth.Insert.Reads.{moved, Accepts, bir_insert-insert_at}

get_elem?-slide_blocks :
    (target at n b i : ℕ) (blocks : List BirBlock) (B : BirBlock)
    → get_elem? blocks i ≡ some B
    → get_elem? (slide_blocks target at n b blocks) i ≡ some (slide_block target at n (b + i) B)
unfolding slide_blocks
get_elem?-slide_blocks target at n b i [] B h = absurd (cc h)
get_elem?-slide_blocks target at n b zero (C ∷ blocks) B h =
    let here : b + 0 ≡ b = omega arith in
    rw here (ap (λ o. some (slide_block target at n b (Option.get_or o C))) h)
get_elem?-slide_blocks target at n b (suc i) (C ∷ blocks) B h =
    let next : b + suc i ≡ suc b + i = omega arith in
    rw next (get_elem?-slide_blocks target at n (suc b) i blocks B h)

-- A block apart from the target `TB`, or the target.
pub data IsApart (b target : ℕ) (B TB : BirBlock) : Type 0 where
  target : b ≡ target → B ≡ TB → IsApart b target B TB
  before :
      (b == target) ≡ false → B.first_inst + B.num_insts ≤ TB.first_inst → IsApart b target B TB
  after :
      (b == target) ≡ false → TB.first_inst + TB.num_insts ≤ B.first_inst → IsApart b target B TB

-- `C` has `more` instructions more than `B`, and those of `B` where `rename` puts them: instruction
-- `k` of `B` is `inner k` there.
pub record Holds (rename inner : ℕ → ℕ) (more : ℕ) (B C : BirBlock) : Type 0 where
  pub grown : C.num_insts ≡ B.num_insts + more
  pub place : (k : ℕ) → k < B.num_insts → C.first_inst + inner k ≡ rename (B.first_inst + k)

module _ {D : Type 0} (M : BirModule D) (block_idx pos : ℕ) (src : List BirInst) (TB : BirBlock)
    (accepts : Accepts M block_idx pos src TB) where
  abbrev at : ℕ
  at = TB.first_inst + pos

  abbrev pub inner : ℕ → ℕ → ℕ
  inner b = if b == block_idx then moved pos (length src) else (λ k. k)

  abbrev pub more : ℕ → ℕ
  more b = if b == block_idx then length src else 0

  target-Holds :
      Holds
        (moved at (length src))
        (moved pos (length src))
        (length src)
        TB
        (record TB { num_insts = (TB.num_insts + length src) % 2 ^ 32 })
  target-Holds = record {
    grown = omega (arith, accepts.ends, accepts.room);
    place = λ k h. elim (Bool-cases (leb pos k)) [
      | inl e ↦
          let e' : leb at (TB.first_inst + k) ≡ true = ground arith in rw (e, e') (omega arith)
      | inr e ↦ let e' : leb at (TB.first_inst + k) ≡ false = ground arith in rw (e, e') refl
    ];
  }

  -- A block that is not the target.
  abbrev slid : BirBlock → BirBlock
  slid B =
      if leb at B.first_inst
      then record B { first_inst = (B.first_inst + length src) % 2 ^ 32 }
      else B

  before-Holds :
      (B : BirBlock)
      → B.first_inst + B.num_insts ≤ TB.first_inst
      → B.first_inst + B.num_insts ≤ length M.insts
      → Holds (moved at (length src)) (λ k. k) 0 B (slid B)
  before-Holds B low ends = (elim (Bool-cases (leb at B.first_inst)) [
    | inl behind ↦ rw behind (record { grown = omega arith; place = λ k h. absurd (ground arith) })
    | inr stays ↦ rw stays (record {
      grown = omega arith;
      place = λ k h. let e' : leb at (B.first_inst + k) ≡ false = ground arith in rw e' refl;
    })
  ])

  after-Holds :
      (B : BirBlock)
      → TB.first_inst + TB.num_insts ≤ B.first_inst
      → B.first_inst + B.num_insts ≤ length M.insts
      → Holds (moved at (length src)) (λ k. k) 0 B (slid B)
  after-Holds B high ends =
      let behind : leb at B.first_inst ≡ true = ground (arith, accepts.inside) in
      let small : (B.first_inst + length src) % 2 ^ 32 ≡ B.first_inst + length src =
        omega (arith, accepts.room) in
      rw (behind, small)
        (record {
          grown = omega arith;
          place = λ k h.
              let e' : leb at (B.first_inst + k) ≡ true = ground arith in rw e' (omega arith);
        })

  slide_block-Holds :
      (b : ℕ) (B : BirBlock)
      → IsApart b block_idx B TB
      → B.first_inst + B.num_insts ≤ length M.insts
      → Holds
          (moved at (length src))
          (inner b)
          (more b)
          B
          (slide_block block_idx at (length src) b B)
  unfolding slide_block
  slide_block-Holds b B (target e same) ends =
      let here : (b == block_idx) ≡ true = ground arith in rw (same, here) target-Holds
  slide_block-Holds b B (before e low) ends = rw e (before-Holds B low ends)
  slide_block-Holds b B (after e high) ends = rw e (after-Holds B high ends)

  -- For an insertion that the function does, a block in the arena that is the target or lies
  -- apart from it has afterwards its own instructions at their new numbers, and the target as
  -- many more as were put in.
  pub bir_insert-Holds :
      (b : ℕ) (B : BirBlock)
      → get_elem? M.blocks b ≡ some B
      → IsApart b block_idx B TB
      → B.first_inst + B.num_insts ≤ length M.insts
      → (C : BirBlock) × (get_elem? (bir_insert M block_idx pos src).1.blocks b ≡ some C)
        × Holds (moved at (length src)) (inner b) (more b) B C
  unfolding insert_at
  bir_insert-Holds b B here apart ends =
      let C = slide_block block_idx at (length src) b B in
      let zeroth : 0 + b ≡ b = omega arith in
      let shifted =
        get_elem?-slide_blocks block_idx at (length src) 0 b M.blocks B here
        ∙ ap (λ i. some (slide_block block_idx at (length src) i B)) zeroth in
      rw (bir_insert-insert_at M block_idx pos src TB accepts)
        (C, shifted, slide_block-Holds b B apart ends)

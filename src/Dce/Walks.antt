-- ===== src/Dce/Walks.antt =====
-- What the second walk of compact of src/ir/bir_dce.c leaves as it is: the blocks, the number of
-- entries and what stands behind the block.
use mathlib.Core.Option
use booth.Base.{
  ℕ, zero, suc, ◌+◌, ◌≤◌, ◌<◌, ◌≡◌, refl, ap, ◌∙◌, arith, Bool, true, false, not, ◌==◌,
  if◌then◌else◌, if_cases, Option, List, [], ◌∷◌, length, length-set, get_elem?, get_elem?-set_ne,
  set,
}
use booth.Bir.Defs.{BirBlock, BirModule}
use booth.Bir.Consts.{slot}
use booth.Dce.Pass.{inst_at}
use booth.Dce.Blocks.{block_at, no_block}
use booth.Dce.Compact.{renum_insts, move_insts}

module _ {D : Type 0} where
  -- The blocks from the `bi`-th on have these numbers of instructions, the first of them at `at`.
  unfoldable pub Laid : BirModule D → (base bi at : ℕ) → List ℕ → Type 0
  Laid M base bi at [] = Unit {0}
  Laid M base bi at (n ∷ ns) =
      ((block_at M (base + bi)).first_inst ≡ at)
      × ((block_at M (base + bi)).num_insts ≡ n)
      × Laid M base (suc bi) (at + n) ns

module _ {D : Type 0} (dead : ℕ → Bool) where
  -- What a walk over a block leaves: the blocks, the size, and what stands behind the block.
  pub record Walked (first j left : ℕ) (M N : BirModule D) (wr wr' : ℕ) : Type 0 where
    pub same_blocks : N.blocks ≡ M.blocks
    pub same_length : length N.insts ≡ length M.insts
    pub ahead : (k : ℕ) → first + j + left ≤ k → get_elem? N.insts k ≡ get_elem? M.insts k
    pub low : wr ≤ wr'
    pub high : wr' ≤ wr + left

  -- A step and then the walk from the next instruction.
  widen :
      (first j left wr cur : ℕ) (M N R : BirModule D) (end : ℕ)
      → N.blocks ≡ M.blocks
      → length N.insts ≡ length M.insts
      → ((k : ℕ) → wr < k → get_elem? N.insts k ≡ get_elem? M.insts k)
      → wr ≤ first + j
      → wr ≤ cur
      → cur ≤ wr + 1
      → Walked first (suc j) left N R cur end
      → Walked first j (suc left) M R wr end
  widen first j left wr cur M N R end blocks len same h low high w =
      let (wlow, whigh) : (cur ≤ end) × (end ≤ cur + left) = (w.low, w.high) in
      record {
        same_blocks = w.same_blocks ∙ blocks;
        same_length = w.same_length ∙ len;
        ahead = λ k b. w.ahead k (omega arith) ∙ same k (omega arith);
        low = omega arith;
        high = omega arith;
      }

  pub walk :
      (first j left wr : ℕ) (M : BirModule D)
      → wr ≤ first + j
      → Walked first j left M
          (move_insts dead first j left (M, wr)).0
          wr
          (move_insts dead first j left (M, wr)).1
  unfolding move_insts
  walk first j zero wr M h = record {
    same_blocks = refl;
    same_length = refl;
    ahead = λ k b. refl;
    low = omega arith;
    high = omega arith;
  }
  walk first j (suc left) wr M h =
      let next =
        λ (N : BirModule D) (cur : ℕ) (p : cur ≤ first + suc j). walk first (suc j) left cur N p in
      let W = λ (s : BirModule D × ℕ).
        Walked first j (suc left) M (move_insts dead first (suc j) left s).0 wr
          (move_insts dead first (suc j) left s).1 in
      let moved : BirModule D = record M {
        insts = set M.insts wr (inst_at M (first + j));
        inst_lines = set M.inst_lines wr (slot M.inst_lines (first + j));
      } in
      if_cases W (dead (first + j))
        (λ gone.
          widen first j left wr wr M M (move_insts dead first (suc j) left (M, wr)).0
            (move_insts dead first (suc j) left (M, wr)).1 refl refl (λ k b. refl) h (omega arith)
            (omega arith) (next M wr (omega arith)))
        (λ live.
          if_cases (λ (N : BirModule D). W (N, wr + 1)) (not (wr == first + j))
            (λ away.
              widen first j left wr (wr + 1) M moved
                (move_insts dead first (suc j) left (moved, wr + 1)).0
                (move_insts dead first (suc j) left (moved, wr + 1)).1 refl
                (length-set M.insts wr (inst_at M (first + j)))
                (λ k b.
                  get_elem?-set_ne M.insts wr k (inst_at M (first + j))
                    (λ e. absurd (omega (arith, e))))
                h (omega arith) (omega arith) (next moved (wr + 1) (omega arith)))
            (λ here.
              widen first j left wr (wr + 1) M M (move_insts dead first (suc j) left (M, wr + 1)).0
                (move_insts dead first (suc j) left (M, wr + 1)).1 refl refl (λ k b. refl) h
                (omega arith) (omega arith) (next M (wr + 1) (omega arith))))

  pub cursors :
      (first j left wr : ℕ) (M : BirModule D) (renum : ℕ → ℕ)
      → (move_insts dead first j left (M, wr)).1 ≡ (renum_insts dead first j left (renum, wr)).1
  unfolding move_insts renum_insts
  cursors first j zero wr M renum = refl
  cursors first j (suc left) wr M renum =
      let N : BirModule D =
        if not (wr == first + j)
        then record M {
          insts = set M.insts wr (inst_at M (first + j));
          inst_lines = set M.inst_lines wr (slot M.inst_lines (first + j));
        }
        else M in
      let numbers : ℕ → ℕ = λ x. if x == first + j then wr else renum x in
      elim (dead (first + j))
        as (λ b.
          (move_insts dead first (suc j) left (if b then (M, wr) else (N, wr + 1))).1
          ≡ (renum_insts dead first (suc j) left
              (if b then (renum, wr) else (numbers, wr + 1))).1) [
                | true ↦ cursors first (suc j) left wr M renum
                | false ↦ cursors first (suc j) left (wr + 1) N numbers
              ]

  -- The blocks after the first are laid as before when the first has been rewritten.
  pub Laid-set :
      (M N : BirModule D) (base b bi at : ℕ) (B : BirBlock) (ns : List ℕ)
      → N.blocks ≡ set M.blocks b B
      → b < base + bi
      → Laid M base bi at ns
      → Laid N base bi at ns
  unfolding Laid
  Laid-set M N base b bi at B [] e h laid = tt
  Laid-set M N base b bi at B (n ∷ ns) e h laid =
      let same : block_at N (base + bi) ≡ block_at M (base + bi) =
        ap (λ (o : Option BirBlock). Option.get_or o no_block)
          (ap (λ (bs : List BirBlock). get_elem? bs (base + bi)) e
            ∙ get_elem?-set_ne M.blocks b (base + bi) B (λ q. absurd (omega (arith, q)))) in
      (
        ap (λ (x : BirBlock). x.first_inst) same ∙ laid.0,
        ap (λ (x : BirBlock). x.num_insts) same ∙ laid.1,
        Laid-set M N base b (suc bi) (at + n) B ns e (omega arith) laid.2,
      )

-- ===== src/Dce/Compacted.antt =====
-- compact of src/ir/bir_dce.c on the blocks of a function, which stand one behind the other: what is
-- left of them stands at the numbers that it is given.
use mathlib.Core.Path.{subst}
use native.Mathlib.Decide.{dec_le}
use booth.Base.{
  ℕ, zero, suc, ◌+◌, ◌-◌, ◌≤◌, ◌<◌, ◌≡◌, refl, sym, ap, ◌∙◌, arith, Bool, false, ◌==◌, ==_refl,
  if◌then◌else◌, if_cases, List, [], ◌∷◌, length, get_elem?, set,
}
use booth.Bir.Defs.{BirBlock, BirModule}
use booth.Dce.Blocks.{block_at}
use booth.Dce.Compact.{opt_undef, renum_insts, renum_blocks, move_insts, move_blocks}
use booth.Dce.Moves.{move_insts_below, renum_insts_before, move_insts-renum_insts}
use booth.Dce.Walks.{Laid, walk, cursors, Laid-set}

unfoldable pub total : List ℕ → ℕ
total [] = 0
total (n ∷ ns) = n + total ns

renum_insts_next :
    (dead : ℕ → Bool) (first j left : ℕ) (s : (ℕ → ℕ) × ℕ)
    → s.1 ≤ (renum_insts dead first j left s).1
unfolding renum_insts
renum_insts_next dead first j zero s = omega arith
renum_insts_next dead first j (suc left) s =
    let s₁ : (ℕ → ℕ) × ℕ =
      if dead (first + j)
      then (s.0, s.1)
      else ((λ k. if k == first + j then s.1 else s.0 k), s.1 + 1) in
    let step : s.1 ≤ s₁.1 =
      if_cases (λ (t : (ℕ → ℕ) × ℕ). s.1 ≤ t.1) (dead (first + j)) (λ gone. omega arith)
        (λ live. omega arith) in
    omega (arith, step, renum_insts_next dead first (suc j) left s₁)

-- The number that an instruction is given is below the next one.
renum_insts_lt :
    (dead : ℕ → Bool) (first j left k : ℕ) (s : (ℕ → ℕ) × ℕ)
    → j ≤ k
    → k < j + left
    → dead (first + k) ≡ false
    → (renum_insts dead first j left s).0 (first + k) < (renum_insts dead first j left s).1
unfolding renum_insts
renum_insts_lt dead first j zero k s low high live = absurd (omega arith)
renum_insts_lt dead first j (suc left) k s low high live = elim (dec_le (suc j) k) [
  | yes p ↦ renum_insts_lt dead first (suc j) left k _ p (omega arith) live
  | no p ↦
      let here : k ≡ j = omega arith in
      let now = subst (λ (x : ℕ). dead (first + x) ≡ false) here live in
      let s₁ : (ℕ → ℕ) × ℕ = ((λ x. if x == first + j then s.1 else s.0 x), s.1 + 1) in
      let number : (renum_insts dead first (suc j) left s₁).0 (first + k) ≡ s.1 =
        renum_insts_before dead first (suc j) left (first + k) s₁ (omega arith)
        ∙ rw (here, ==_refl (first + j)) refl in
      subst
        (λ (b : Bool).
          (renum_insts dead first (suc j) left (if b then (s.0, s.1) else s₁)).0 (first + k)
          < (renum_insts dead first (suc j) left (if b then (s.0, s.1) else s₁)).1)
        (sym now) (omega (arith, number, renum_insts_next dead first (suc j) left s₁))
]

module _ {D : Type 0} (dead : ℕ → Bool) where
  renum_blocks_before :
      (M : BirModule D) (base bi at k : ℕ) (ns : List ℕ) (s : (ℕ → ℕ) × ℕ)
      → Laid M base bi at ns
      → k < at
      → (renum_blocks dead M base bi (length ns) s).0 k ≡ s.0 k
  unfolding renum_blocks Laid
  renum_blocks_before M base bi at k [] s l h = refl
  renum_blocks_before M base bi at k (n ∷ ns) s l h =
      let B = block_at M (base + bi) in
      let first : B.first_inst ≡ at = l.0 in
      renum_blocks_before M base (suc bi) (at + n) k ns
        (renum_insts dead B.first_inst 0 B.num_insts s) l.2 (omega arith)
      ∙ renum_insts_before dead B.first_inst 0 B.num_insts k s (omega arith)

  move_blocks_below :
      (base bi left k : ℕ) (s : BirModule D × ℕ)
      → k < s.1
      → get_elem? (move_blocks dead base bi left s).0.insts k ≡ get_elem? s.0.insts k
  unfolding move_blocks
  move_blocks_below base bi zero k s h = refl
  move_blocks_below base bi (suc left) k (M, wr) h =
      let B = block_at M (base + bi) in
      let s₁ = move_insts dead B.first_inst 0 B.num_insts (M, wr) in
      let next = renum_insts_next dead B.first_inst 0 B.num_insts ((λ x. x), wr) in
      move_blocks_below base (suc bi) left k _
        (omega (arith, next, cursors dead B.first_inst 0 B.num_insts wr M (λ x. x)))
      ∙ move_insts_below dead B.first_inst 0 B.num_insts k (M, wr) h

  pub move_blocks-renum_blocks :
      (M₀ M : BirModule D) (base bi at wr k : ℕ) (ns : List ℕ) (renum : ℕ → ℕ)
      → Laid M₀ base bi at ns
      → Laid M base bi at ns
      → wr ≤ at
      → at + total ns ≤ length M.insts
      → at ≤ k
      → k < at + total ns
      → dead k ≡ false
      → get_elem?
          (move_blocks dead base bi (length ns) (M, wr)).0.insts
          ((renum_blocks dead M₀ base bi (length ns) (renum, wr)).0 k)
        ≡ get_elem? M.insts k
  unfolding move_blocks renum_blocks Laid total
  move_blocks-renum_blocks M₀ M base bi at wr k [] renum l₀ l h room low high live =
      absurd (omega arith)
  move_blocks-renum_blocks M₀ M base bi at wr k (n ∷ ns) renum l₀ l h room low high live =
      let B = block_at M (base + bi) in
      let f = B.first_inst in
      let m = B.num_insts in
      let start : f ≡ at = l.0 in
      let size : m ≡ n = l.1 in
      let S = move_insts dead f 0 m (M, wr) in
      let T = renum_insts dead f 0 m (renum, wr) in
      let B₁ : BirBlock = record B { first_inst = wr; num_insts = S.1 - wr } in
      let N : BirModule D = record S.0 { blocks = set S.0.blocks (base + bi) B₁ } in
      let w = walk dead f 0 m wr M (omega arith) in
      let (wlow, whigh) : (wr ≤ S.1) × (S.1 ≤ wr + m) = (w.low, w.high) in
      let cursor : S.1 ≡ T.1 = cursors dead f 0 m wr M renum in
      let after = λ (t : (ℕ → ℕ) × ℕ). (renum_blocks dead M₀ base (suc bi) (length ns) t).0 k in
      let same_walk : after _ ≡ after T =
        (λ i. after (renum_insts dead ((l₀.0 ∙ sym l.0) i) 0 ((l₀.1 ∙ sym l.1) i) (renum, wr))) in
      let result = move_blocks dead base (suc bi) (length ns) (N, S.1) in
      ap (get_elem? result.0.insts) same_walk ∙ elim (dec_le (at + n) k) [
        | yes p ↦
            ap (λ c. get_elem? result.0.insts (after (T.0, c))) (sym cursor)
            ∙ move_blocks-renum_blocks M₀ N base (suc bi) (at + n) S.1 k ns T.0 l₀.2
                (Laid-set dead M N base (base + bi) (suc bi) (at + n) B₁ ns
                  (ap (λ bs. set bs (base + bi) B₁) w.same_blocks) (omega arith) l.2)
                (omega arith) (omega (arith, w.same_length)) p (omega arith) live
            ∙ w.ahead k (omega arith)
        | no p ↦
            let here : f + (k - f) ≡ k = omega arith in
            let kept : dead (f + (k - f)) ≡ false =
              subst (λ (x : ℕ). dead x ≡ false) (sym here) live in
            let bound : T.0 k < S.1 =
              subst (λ (x : ℕ). T.0 x < S.1) here
                (omega (
                  arith,
                  cursor,
                  renum_insts_lt dead f 0 m (k - f) (renum, wr) (omega arith) (omega arith) kept,
                )) in
            ap (get_elem? result.0.insts)
              (renum_blocks_before M₀ base (suc bi) (at + n) k ns T l₀.2 (omega arith))
            ∙ move_blocks_below base (suc bi) (length ns) (T.0 k) (N, S.1) bound
            ∙ subst (λ (x : ℕ). get_elem? S.0.insts (T.0 x) ≡ get_elem? M.insts x) here
                (move_insts-renum_insts dead f 0 m (k - f) wr M renum (omega arith) (omega arith)
                  (omega arith) (omega arith) kept)
      ]

  -- For the blocks of a function that stand one behind the other within the arena, the two
  -- walks that compact makes from the first instruction agree: after the second, an instruction
  -- that is not dead stands at the number that the first gave it.
  pub compact_keeps :
      (M : BirModule D) (base base_inst k : ℕ) (ns : List ℕ)
      → Laid M base 0 base_inst ns
      → base_inst + total ns ≤ length M.insts
      → base_inst ≤ k
      → k < base_inst + total ns
      → dead k ≡ false
      → get_elem?
          (move_blocks dead base 0 (length ns) (M, base_inst)).0.insts
          ((renum_blocks dead M base 0 (length ns) ((λ i. opt_undef), base_inst)).0 k)
        ≡ get_elem? M.insts k
  compact_keeps M base base_inst k ns laid room low high live =
      move_blocks-renum_blocks M M base 0 base_inst base_inst k ns (λ i. opt_undef) laid laid
        (omega arith) room low high live

-- ===== src/Dce/Moves.antt =====
-- The two walks of compact of src/ir/bir_dce.c agree: an instruction that is left stands at the
-- number that it is given.
use mathlib.Core.Option
use mathlib.Core.Path.{subst}
use native.Mathlib.Decide.{dec_le}
use booth.Base.{
  ℕ, zero, suc, ◌+◌, ◌≤◌, ◌<◌, ◌≡◌, refl, sym, ap, ◌∙◌, arith, Bool, true, false, not, ◌==◌, ==_ne,
  if◌then◌else◌, if_cases, Bool-cases, inl, inr, List, [], ◌∷◌, length, length-set, get_elem?,
  get_elem?-set_ne, get_elem?-set_self, ==_refl, set, some,
}
use booth.Bir.Defs.{BirInst, BirModule}
use booth.Bir.Consts.{slot}
use booth.Dce.Pass.{inst_at, no_inst}
use booth.Dce.Compact.{renum_insts, move_insts}

get_or-get_elem? :
    (xs : List BirInst) (i : ℕ)
    → i < length xs
    → some (Option.get_or (get_elem? xs i) no_inst) ≡ get_elem? xs i
get_or-get_elem? [] i h = absurd (omega arith)
get_or-get_elem? (x ∷ xs) zero h = refl
get_or-get_elem? (x ∷ xs) (suc i) h = get_or-get_elem? xs i (omega arith)

-- The walk from an instruction on leaves the numbers of those before it.
pub renum_insts_before :
    (dead : ℕ → Bool) (first j left k : ℕ) (s : (ℕ → ℕ) × ℕ)
    → k < first + j
    → (renum_insts dead first j left s).0 k ≡ s.0 k
unfolding renum_insts
renum_insts_before dead first j zero k s h = refl
renum_insts_before dead first j (suc left) k s h =
    let other : k == first + j ≡ false = ==_ne k (first + j) (λ e. absurd (omega (arith, e))) in
    renum_insts_before dead first (suc j) left k _ (omega arith)
    ∙ if_cases (λ (t : (ℕ → ℕ) × ℕ). t.0 k ≡ s.0 k) (dead (first + j)) (λ gone. refl)
        (λ live. rw other refl)

module _ {D : Type 0} (dead : ℕ → Bool) where
  -- One step of the second walk, as the module and the cursor after it.
  move_one : ℕ → BirModule D × ℕ → BirModule D × ℕ
  move_one ii (M, wr) =
      let moved = record M {
        insts = set M.insts wr (inst_at M ii);
        inst_lines = set M.inst_lines wr (slot M.inst_lines ii);
      } in
      if dead ii then (M, wr) else ((if not (wr == ii) then moved else M), wr + 1)

  move_one_below :
      (ii k : ℕ) (s : BirModule D × ℕ)
      → k < s.1
      → (get_elem? (move_one ii s).0.insts k ≡ get_elem? s.0.insts k) × (s.1 ≤ (move_one ii s).1)
  unfolding move_one
  move_one_below ii k (M, wr) h =
      if_cases (λ (t : BirModule D × ℕ). (get_elem? t.0.insts k ≡ get_elem? M.insts k) × (wr ≤ t.1))
        (dead ii) (λ gone. (refl, omega arith))
        (λ live. (
          if_cases (λ (N : BirModule D). get_elem? N.insts k ≡ get_elem? M.insts k) (not (wr == ii))
              (λ away.
                get_elem?-set_ne M.insts wr k (inst_at M ii) (λ e. absurd (omega (arith, e))))
              (λ same. refl),
          omega arith,
        ))

  pub move_insts_below :
      (first j left k : ℕ) (s : BirModule D × ℕ)
      → k < s.1
      → get_elem? (move_insts dead first j left s).0.insts k ≡ get_elem? s.0.insts k
  unfolding move_insts move_one
  move_insts_below first j zero k s h = refl
  move_insts_below first j (suc left) k s h =
      let (same, later) = move_one_below (first + j) k s h in
      move_insts_below first (suc j) left k (move_one (first + j) s) (omega (arith, later)) ∙ same

  -- The module after an instruction that is left has moved.
  after_move : (ii wr : ℕ) → BirModule D → BirModule D
  after_move ii wr M =
      if not (wr == ii)
      then record M {
        insts = set M.insts wr (inst_at M ii);
        inst_lines = set M.inst_lines wr (slot M.inst_lines ii);
      }
      else M

  after_move_lem :
      (ii wr : ℕ) (M : BirModule D)
      → wr ≤ ii
      → ii < length M.insts
      → (get_elem? (after_move ii wr M).insts wr ≡ get_elem? M.insts ii)
        × (length (after_move ii wr M).insts ≡ length M.insts)
  unfolding after_move
  after_move_lem ii wr M low high = elim (Bool-cases (wr == ii)) [
    | inl e ↦ let same : wr ≡ ii = ground arith in rw e (ap (get_elem? M.insts) same, refl)
    | inr e ↦ rw e (
      get_elem?-set_self M.insts wr (inst_at M ii) (omega arith) ∙ get_or-get_elem? M.insts ii high,
      length-set M.insts wr (inst_at M ii),
    )
  ]

  after_move_ahead :
      (ii wr k : ℕ) (M : BirModule D)
      → wr < k
      → get_elem? (after_move ii wr M).insts k ≡ get_elem? M.insts k
  unfolding after_move
  after_move_ahead ii wr k M h =
      if_cases (λ (N : BirModule D). get_elem? N.insts k ≡ get_elem? M.insts k) (not (wr == ii))
        (λ away. get_elem?-set_ne M.insts wr k (inst_at M ii) (λ e. absurd (omega (arith, e))))
        (λ same. refl)

  -- Where the instruction at `first + j` is dead, or not, both walks go on from `suc j`.
  module _ (first j left wr : ℕ) (M : BirModule D) (renum : ℕ → ℕ) where
    Both : ℕ → List BirInst → (ℕ → ℕ) → Type 0
    Both k insts numbers = get_elem? insts (numbers (first + k)) ≡ get_elem? M.insts (first + k)

    step_gone :
        (k : ℕ)
        → dead (first + j) ≡ true
        → Both k
            (move_insts dead first (suc j) left (M, wr)).0.insts
            (renum_insts dead first (suc j) left (renum, wr)).0
        → Both k
            (move_insts dead first j (suc left) (M, wr)).0.insts
            (renum_insts dead first j (suc left) (renum, wr)).0
    unfolding move_insts renum_insts after_move
    step_gone k gone =
        subst
          (λ (b : Bool).
            Both k
              (move_insts dead first (suc j) left
                (if b then (M, wr) else (after_move (first + j) wr M, wr + 1))).0.insts
              (renum_insts dead first (suc j) left (
                if b
                then (renum, wr)
                else ((λ x. if x == first + j then wr else renum x), wr + 1))).0)
          (sym gone)

    step_live :
        (k : ℕ)
        → dead (first + j) ≡ false
        → Both k
            (move_insts dead first (suc j) left (after_move (first + j) wr M, wr + 1)).0.insts
            (renum_insts dead first
              (suc j)
              left
              ((λ x. if x == first + j then wr else renum x), wr + 1)).0
        → Both k
            (move_insts dead first j (suc left) (M, wr)).0.insts
            (renum_insts dead first j (suc left) (renum, wr)).0
    unfolding move_insts renum_insts after_move
    step_live k live =
        subst
          (λ (b : Bool).
            Both k
              (move_insts dead first (suc j) left
                (if b then (M, wr) else (after_move (first + j) wr M, wr + 1))).0.insts
              (renum_insts dead first (suc j) left (
                if b
                then (renum, wr)
                else ((λ x. if x == first + j then wr else renum x), wr + 1))).0)
          (sym live)

  -- The instruction that has just moved stays where it is.
  arrived :
      (first j left k wr : ℕ) (M : BirModule D) (renum : ℕ → ℕ)
      → wr ≤ first + j
      → first + j < length M.insts
      → k ≡ j
      → Both first j left wr M renum k
          (move_insts dead first (suc j) left (after_move (first + j) wr M, wr + 1)).0.insts
          (renum_insts dead first
            (suc j)
            left
            ((λ x. if x == first + j then wr else renum x), wr + 1)).0
  unfolding Both
  arrived first j left k wr M renum h room same =
      let numbers : (ℕ → ℕ) × ℕ = ((λ x. if x == first + j then wr else renum x), wr + 1) in
      let moved : BirModule D × ℕ = (after_move (first + j) wr M, wr + 1) in
      let here : first + k ≡ first + j = ap (λ (x : ℕ). first + x) same in
      let found : numbers.0 (first + j) ≡ wr = rw (==_refl (first + j)) refl in
      let number =
        ap (renum_insts dead first (suc j) left numbers).0 here
        ∙ renum_insts_before dead first (suc j) left (first + j) numbers (omega arith)
        ∙ found in
      ap (get_elem? (move_insts dead first (suc j) left moved).0.insts) number
      ∙ move_insts_below first (suc j) left wr moved (omega arith)
      ∙ (after_move_lem (first + j) wr M h room).0
      ∙ ap (get_elem? M.insts) (sym here)

  pub move_insts-renum_insts :
      (first j left k wr : ℕ) (M : BirModule D) (renum : ℕ → ℕ)
      → wr ≤ first + j
      → first + j + left ≤ length M.insts
      → j ≤ k
      → k < j + left
      → dead (first + k) ≡ false
      → get_elem?
          (move_insts dead first j left (M, wr)).0.insts
          ((renum_insts dead first j left (renum, wr)).0 (first + k))
        ≡ get_elem? M.insts (first + k)
  unfolding Both
  move_insts-renum_insts first j zero k wr M renum h room low high live = absurd (omega arith)
  move_insts-renum_insts first j (suc left) k wr M renum h room low high live =
      let ii = first + j in
      let N = after_move ii wr M in
      let renum₁ : ℕ → ℕ = λ x. if x == ii then wr else renum x in
      let (stands, kept) = after_move_lem ii wr M h (omega arith) in
      elim (Bool-cases (dead ii)) [
        | inl gone ↦ elim (dec_le (suc j) k) [
          | yes p ↦ step_gone first j left wr M renum k gone (
              move_insts-renum_insts first (suc j) left k wr M renum (omega arith) (omega arith) p
                (omega arith) live)
          | no p ↦
              let same : k ≡ j = omega arith in
              absurd (cc (gone, subst (λ (x : ℕ). dead (first + x) ≡ false) same live))
        ]
        | inr here ↦ step_live first j left wr M renum k here (elim (dec_le (suc j) k) [
          | yes p ↦
              move_insts-renum_insts first (suc j) left k (wr + 1) N renum₁ (omega arith)
                (omega (arith, kept)) p (omega arith) live
              ∙ after_move_ahead ii wr (first + k) M (omega arith)
          | no p ↦ arrived first j left k wr M renum h (omega arith) (omega arith)
        ])
      ]

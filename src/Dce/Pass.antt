-- ===== src/Dce/Pass.antt =====
-- dce_pass of src/ir/bir_dce.c. The bits of `dead` are a function of the index.
use mathlib.Core.Option
use booth.Base.{
  ℕ, zero, suc, ◌+◌, ◌%◌, ◌^◌, Bool, not, ◌&&◌, ◌||◌, ◌==◌, ltb, leb, if◌then◌else◌, List, [], ◌∷◌,
  get_elem?,
}
use booth.Bir.Defs.{BirInst, BirModule}
use booth.Dce.Defs.{removable, values}

-- An entry of the arena that is not in use is zeros.
abbrev pub no_inst : BirInst
no_inst = record { op = 0; num_operands = 0; subop = 0; type = 0; operands = [] }

unfoldable pub mark : (ℕ → Bool) → ℕ → ℕ → Bool
mark dead i k = k == i || dead k

unfoldable pub bump : (base end : ℕ) → (ℕ → ℕ) → ℕ → ℕ → ℕ
bump base end uses idx =
    if leb base idx && ltb idx end
    then (λ k. if k == idx then (uses k + 1) % 2 ^ 32 else uses k)
    else uses

unfoldable pub bump_all : (base end : ℕ) → List ℕ → (ℕ → ℕ) → ℕ → ℕ
bump_all base end [] uses = uses
bump_all base end (v ∷ vs) uses = bump_all base end vs (bump base end uses v)

module _ {D : Type 0} (M : BirModule D) where
  abbrev pub inst_at : ℕ → BirInst
  inst_at i = Option.get_or (get_elem? M.insts i) no_inst

  -- The first loop of a round, from instruction `i` on.
  unfoldable pub count_uses :
      (base end : ℕ) → (dead : ℕ → Bool) → (i left : ℕ) → (uses : ℕ → ℕ) → ℕ → ℕ
  count_uses base end dead i zero uses = uses
  count_uses base end dead i (suc left) uses =
      count_uses base end dead (suc i) left
        (if dead i then uses else bump_all base end (values M (inst_at i)) uses)

  -- The second loop of a round, and how many it marked.
  unfoldable pub sweep : (uses : ℕ → ℕ) → (i left : ℕ) → (dead : ℕ → Bool) → (ℕ → Bool) × ℕ
  sweep uses i zero dead = (dead, 0)
  sweep uses i (suc left) dead =
      let dies = not (dead i) && uses i == 0 && removable (inst_at i) in
      let rest = sweep uses (suc i) left (if dies then mark dead i else dead) in
      (rest.0, (if dies then 1 else 0) + rest.1)

  unfoldable pub round : (base num : ℕ) → (ℕ → Bool) → (ℕ → Bool) × ℕ
  round base num dead = sweep (count_uses base (base + num) dead base num (λ k. 0)) base num dead

  unfoldable pub dce_loop : (base num guard : ℕ) → (ℕ → Bool) → (ℕ → Bool) × ℕ
  dce_loop base num zero dead = (dead, 0)
  dce_loop base num (suc guard) dead =
      let (dead₁, changes) = round base num dead in
      let rest = dce_loop base num guard dead₁ in
      if changes == 0 then (dead₁, 0) else (rest.0, changes + rest.1)

  -- `while (changed && --guard)` from 100 on is 99 rounds at most.
  unfoldable pub dce_pass : (base num : ℕ) → (ℕ → Bool) → (ℕ → Bool) × ℕ
  dce_pass base num dead = dce_loop base num 99 dead

-- ===== src/Dce/Sound.antt =====
-- dce_pass of src/ir/bir_dce.c as a whole: its rounds one after another.
use mathlib.Core.Path.{subst}
use booth.Base.{
  ℕ, zero, suc, ◌+◌, ◌≤◌, ◌<◌, ◌≡◌, ◌⊎◌, inl, inr, sym, ap, ◌∙◌, arith, Bool, true, false, ◌==◌,
  if_cases,
}
use booth.Bir.Defs.{BirModule}
use booth.Dce.Defs.{removable}
use booth.Dce.Pass.{inst_at, count_uses, round, dce_loop, dce_pass}
use booth.Dce.Counts.{reads}
use booth.Dce.Safe.{
  Closed, NoOverflow, counted, round-Closed, sweep-marks, sweep-inside, sweep-none,
}
use booth.Dce.Effects.{MayGo, removable-quiet}

module _ {D : Type 0} (M : BirModule D) (base num : ℕ) where
  round_removes_lem :
      (dead : ℕ → Bool) (k : ℕ)
      → (round M base num dead).0 k ≡ true
      → (dead k ≡ true) ⊎ MayGo M base num k
  unfolding round
  round_removes_lem dead k h =
      let uses = count_uses M base (base + num) dead base num (λ j. 0) in
      elim (sweep-marks M uses base num dead k h) [
        | inl was ↦ inl was
        | inr (unused, gone) ↦ elim (sweep-inside M uses base num dead k h) [
          | inl was ↦ inl was
          | inr inside ↦
              let (quiet, plain) = removable-quiet (inst_at M k) gone in
              inr (record { inside = inside; quiet = quiet; plain = plain })
        ]
      ]

  loop_removes :
      (guard : ℕ) (dead : ℕ → Bool) (k : ℕ)
      → (dce_loop M base num guard dead).0 k ≡ true
      → (dead k ≡ true) ⊎ MayGo M base num k
  unfolding dce_loop round
  loop_removes zero dead k h = inl h
  loop_removes (suc guard) dead k h =
      let round_removes = round_removes_lem dead k in
      if_cases (λ (r : (ℕ → Bool) × ℕ). r.0 k ≡ true → (dead k ≡ true) ⊎ MayGo M base num k)
        ((round M base num dead).1 == 0) (λ done last. round_removes last)
        (λ more later. elim (loop_removes guard (round M base num dead).0 k later) [
          | inl now ↦ round_removes now
          | inr r ↦ inr r
        ])
        h

  -- What is dead after dce_pass was dead before, or is an instruction of the function that is
  -- no store, no control flow, no parameter, nothing that threads do together, no call and
  -- nothing that the environment sees, by a list of the opcodes with effects apart from the one
  -- of the code, and no volatile load.
  pub dce_pass_removes :
      (dead : ℕ → Bool) (k : ℕ)
      → (dce_pass M base num dead).0 k ≡ true
      → (dead k ≡ true) ⊎ MayGo M base num k
  unfolding dce_pass
  dce_pass_removes dead k h = loop_removes 99 dead k h

  module _ (small : NoOverflow M base num) where
    loop-Closed :
        (guard : ℕ) (dead : ℕ → Bool)
        → Closed M base num dead
        → Closed M base num (dce_loop M base num guard dead).0
    unfolding dce_loop
    loop-Closed zero dead closed = closed
    loop-Closed (suc guard) dead closed =
        let next = round-Closed M base num small dead closed in
        if_cases (λ (r : (ℕ → Bool) × ℕ). Closed M base num r.0) ((round M base num dead).1 == 0)
          (λ done. next) (λ more. loop-Closed guard (round M base num dead).0 next)

    -- Where no value is read 2 ^ 32 times, if no instruction that is not dead reads a dead one
    -- of the function before dce_pass, none does after it.
    pub dce_pass-Closed :
        (dead : ℕ → Bool) → Closed M base num dead → Closed M base num (dce_pass M base num dead).0
    unfolding dce_pass
    dce_pass-Closed dead closed = loop-Closed 99 dead closed

    -- After a round that marks nothing, what could go is read.
    quiet :
        (dead : ℕ → Bool) (k : ℕ)
        → base ≤ k
        → k < base + num
        → (round M base num dead).1 ≡ 0
        → (round M base num dead).0 k ≡ false
        → removable (inst_at M k) ≡ true
        → 0 < reads M (round M base num dead).0 base num k
    unfolding round
    quiet dead k low high none live pure =
        let uses = count_uses M base (base + num) dead base num (λ j. 0) in
        let (same, rest) = sweep-none M uses base num dead none in
        let alive : dead k ≡ false = sym (ap (λ (d : ℕ → Bool). d k) same) ∙ live in
        subst (λ (d : ℕ → Bool). 0 < reads M d base num k) (sym same)
          (omega (arith, rest k low high alive pure, counted M base num small dead k low high))

    loop_thorough :
        (guard : ℕ) (dead : ℕ → Bool) (k : ℕ)
        → base ≤ k
        → k < base + num
        → (dce_loop M base num guard dead).0 k ≡ false
        → removable (inst_at M k) ≡ true
        → (0 < reads M (dce_loop M base num guard dead).0 base num k)
          ⊎ (guard ≤ (dce_loop M base num guard dead).1)
    unfolding dce_loop round
    loop_thorough zero dead k low high live pure = inr (omega arith)
    loop_thorough (suc guard) dead k low high live pure =
        if_cases
          (λ (r : (ℕ → Bool) × ℕ). r.0 k ≡ false → (0 < reads M r.0 base num k) ⊎ (suc guard ≤ r.1))
          ((round M base num dead).1 == 0)
          (λ done last. inl (quiet dead k low high (ground arith) last pure))
          (λ more later.
            elim (loop_thorough guard (round M base num dead).0 k low high later pure) [
              | inl u ↦ inl u
              | inr g ↦ inr (ground arith)
            ])
          live

    -- Where no value is read 2 ^ 32 times, an instruction of the function that may go and is
    -- still there after dce_pass is read by one that is there, or the pass has marked at least
    -- 99, as its guard lets it.
    pub dce_pass_thorough :
        (dead : ℕ → Bool) (k : ℕ)
        → base ≤ k
        → k < base + num
        → (dce_pass M base num dead).0 k ≡ false
        → removable (inst_at M k) ≡ true
        → (0 < reads M (dce_pass M base num dead).0 base num k)
          ⊎ (99 ≤ (dce_pass M base num dead).1)
    unfolding dce_pass
    dce_pass_thorough dead k low high live pure = loop_thorough 99 dead k low high live pure

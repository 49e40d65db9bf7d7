-- ===== src/Tensix/Wait.antt =====
-- `tt_sem_wait_ge` of src/tensix/noc.c: the loop that it emits reads the counter until it is high
-- enough, and goes on then.
use mathlib.Core.Option
use mathlib.Core.Path.{subst}
use booth.Base.{
  ℕ, zero, suc, ◌+◌, ◌-◌, ◌*◌, ◌%◌, ◌^◌, ◌≤◌, ◌<◌, ◌≡◌, refl, ap, ◌∙◌, arith, ltb, if◌then◌else◌,
  some, List, [], ◌∷◌, ◌++◌, append_assoc, length, length-append, pos, negsuc, ==_ne,
}
use booth.RvEnc.Instr.{ImmOp, BranchOp, Instr, imm, branch, encode, encode_imm, encode_branch}
use booth.RvEnc.Ops.{rv_bltu}
use booth.Tensix.Buf.{RvBuf, rv_buf_max_words, rv_buf_n_words, rv_buf_offset}
use booth.Tensix.Noc.{emit, li32, tt_sem_wait_ge, to_i16, rv_t0, rv_t1, rv_t2}
use booth.Tensix.Machine.{Machine, Env, put, add_word, effect, taken, exec, step, run}
use booth.Tensix.Straight.{
  Emits, emit_lem, Emits-then, StandsAt, StandsAt-head, StandsAt-tail, step_at, run_add,
}
use booth.Tensix.Load.{li_instrs, li32-Emits}
use booth.Tensix.Program.{Holds}

abbrev pub reload : Instr
reload = imm ImmOp.lw rv_t1 rv_t0 (pos 0)

abbrev pub retry : Instr
retry = branch BranchOp.bltu rv_t1 rv_t2 (negsuc 3)

back_offset : (c : RvBuf) (l : ℕ) → l < 2 ^ 30 → to_i16 (rv_buf_offset c (l + 1) l) ≡ negsuc 3
unfolding rv_buf_offset
back_offset c l short =
    let e : (l + (2 ^ 32 - (l + 1))) % 2 ^ 32 ≡ 2 ^ 32 - 1 = omega arith in rw e refl

-- Where the branch goes, from a counter, a threshold and the address of the loop.
abbrev branch_target : (counter threshold loop : ℕ) → ℕ
branch_target counter threshold loop =
    if taken BranchOp.bltu counter threshold then add_word (loop + 4) (negsuc 3) else loop + 4 + 4

-- At the loop, with the address in t0 and the threshold in t2, and the words of the loop there.
pub record AtLoop (code : List ℕ) (l addr threshold : ℕ) (m : Machine) : Type 0 where
  pub pc : m.pc ≡ l * 4
  pub at_addr : m.regs rv_t0 ≡ addr
  pub at_threshold : m.regs rv_t2 ≡ threshold

module _ (env : Env) (code : List ℕ) (l addr threshold : ℕ) (word : addr < 2 ^ 32)
    (short : l < 2 ^ 20) (stands : StandsAt code l (encode reload ∷ encode retry ∷ [])) where
  -- The machine after one round.
  unfoldable pub round : Machine → Machine
  round m = record m {
    regs = put m.regs rv_t1 (env m.time addr);
    pc = if ltb (env m.time addr) threshold then l * 4 else (l + 2) * 4;
    time = m.time + 2;
  }

  branch_pc :
      (counter : ℕ)
      → branch_target counter threshold (l * 4)
        ≡ (if ltb counter threshold then l * 4 else (l + 2) * 4)
  unfolding taken
  branch_pc counter = ground arith

  pub run-round : (m : Machine) → AtLoop code l addr threshold m → run env code 2 m ≡ some (round m)
  unfolding run Option.bind round exec effect
  run-round m at =
      let m₁ = effect env reload m in
      let tail = StandsAt-tail code l (encode reload) (encode retry ∷ []) stands in
      let first : step env code m ≡ some m₁ =
        step_at env code l reload m
          (StandsAt-head code l (encode reload) (encode retry ∷ []) stands)
          (omega arith, omega arith, omega arith) at.pc in
      let second : step env code m₁ ≡ exec env retry m₁ =
        step_at env code (l + 1) retry m₁ (StandsAt-head code (l + 1) (encode retry) [] tail)
          (omega arith, omega arith, (omega arith, omega arith), omega arith)
          (omega (arith, at.pc)) in
      let value : env m.time (add_word (m.regs rv_t0) (pos 0)) ≡ env m.time addr =
        ap (env m.time) (omega (arith, at.at_addr)) in
      let later : m.time + 1 + 1 ≡ m.time + 2 = omega arith in
      let third : exec env retry m₁ ≡ some (round m) =
        (λ i. some (record {
          regs = put m.regs rv_t1 (value i);
          pc = branch_target (value i) (at.at_threshold i) (at.pc i);
          time = later i;
          stores = m.stores;
        }))
        ∙ ap (λ p. some (record (round m) { pc = p })) (branch_pc (env m.time addr)) in
      ap (λ o. Option.bind o (λ m'. run env code 1 m')) first
      ∙ ap (λ o. Option.bind o (λ m'. run env code 0 m')) (second ∙ third)

  round_short :
      (m : Machine)
      → AtLoop code l addr threshold m
      → env m.time addr < threshold
      → AtLoop code l addr threshold (round m)
  unfolding round
  round_short m at low = record {
    pc = ground (arith, low);
    at_addr = at.at_addr;
    at_threshold = at.at_threshold;
  }

  pub round-Holds : (m : Machine) → Holds m.regs (round m)
  unfolding round
  round-Holds m r low = rw (==_ne r rv_t1 (λ e. absurd (omega (arith, e)))) refl

  pub round-time : (m : Machine) → (round m).time ≡ m.time + 2
  unfolding round
  round-time m = refl

  -- As long as the counter is short, the core stays in the loop.
  pub spin :
      (k : ℕ) (m : Machine)
      → AtLoop code l addr threshold m
      → ((j : ℕ) → j < k → env (m.time + j * 2) addr < threshold)
      → (m' : Machine) × (run env code (k * 2) m ≡ some m')
        × AtLoop code l addr threshold m'
        × (m'.time ≡ m.time + k * 2)
        × Holds m.regs m'
        × (m'.stores ≡ m.stores)
  unfolding run round
  spin zero m at low = (m, refl, at, omega arith, (λ r h. refl), refl)
  spin (suc k) m at low =
      let now : env m.time addr < threshold =
        subst (λ t. env t addr < threshold) {x = m.time + 0 * 2} (omega arith)
          (low 0 (omega arith)) in
      let (m', ran, at', later, holds, quiet) = spin k (round m) (round_short m at now) (λ j lt.
        subst (λ t. env t addr < threshold) {x = m.time + suc j * 2} {y = m.time + 2 + j * 2}
          (omega arith) (low (suc j) (omega arith))) in
      (
        m',
        ap (λ n. run env code n m) {x = suc k * 2} {y = 2 + k * 2} (omega arith)
            ∙ run_add env code 2 (k * 2) m (round m) (run-round m at)
            ∙ ran,
        at',
        omega (arith, later),
        (λ r h. holds r h ∙ round-Holds m r h),
        quiet,
      )

  pub leave :
      (m : Machine)
      → AtLoop code l addr threshold m
      → threshold ≤ env m.time addr
      → (round m).pc ≡ (l + 2) * 4
  unfolding round
  leave m at high = ground arith

module _ (c : RvBuf) (addr threshold : ℕ) where
  unfoldable pub prologue : RvBuf
  prologue = li32 (li32 c rv_t0 addr) rv_t2 threshold

  pub prologue-Emits :
      Emits
        (λ b. li32 (li32 b rv_t0 addr) rv_t2 threshold)
        (li_instrs rv_t0 addr ++ li_instrs rv_t2 threshold)
  prologue-Emits =
      Emits-then (λ b. li32 b rv_t0 addr) (λ b. li32 b rv_t2 threshold) (li_instrs rv_t0 addr)
        (li_instrs rv_t2 threshold) (li32-Emits rv_t0 addr) (li32-Emits rv_t2 threshold)

  pub wait_words :
      length prologue.words + 2 ≤ rv_buf_max_words
      → (tt_sem_wait_ge c addr threshold).0
        ≡ record { words = prologue.words ++ encode reload ∷ encode retry ∷ [] }
  unfolding prologue tt_sem_wait_ge rv_buf_n_words encode encode_imm encode_branch
  wait_words room =
      let first = emit_lem prologue (encode reload) (omega arith) in
      let after : RvBuf = record { words = prologue.words ++ encode reload ∷ [] } in
      let grown : length after.words ≡ length prologue.words + 1 =
        length-append prologue.words (encode reload ∷ []) in
      let l = length prologue.words in
      let back : to_i16 (rv_buf_offset after (length after.words) l) ≡ negsuc 3 =
        rw grown (back_offset after l (omega arith)) in
      ap (λ (b : RvBuf). emit b (rv_bltu rv_t1 rv_t2 (to_i16 (rv_buf_offset b (length b.words) l))))
        first
      ∙ ap (λ z. emit after (rv_bltu rv_t1 rv_t2 z)) back
      ∙ emit_lem after (encode retry) (omega (arith, grown))
      ∙ ap (λ ws. record { words = ws })
          (append_assoc prologue.words (encode reload ∷ []) (encode retry ∷ []))

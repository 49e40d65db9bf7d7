-- ===== src/Tensix/Acquire.antt =====
-- The wait of src/tensix/noc.c as a whole: the emitted words stay in their loop while the counter is
-- short, and go on at the first reading that is not.
use booth.Base.{
  ℕ, ◌+◌, ◌*◌, ◌^◌, ◌≤◌, ◌<◌, ◌≡◌, ◌-◌, sym, ap, ◌∙◌, arith, some, List, [], ◌∷◌, ◌++◌,
  append_assoc, map, length, length-append, length-map,
}
use mathlib.Core.Path.{subst}
use booth.RvEnc.Instr.{Instr, encode}
use booth.Tensix.Buf.{RvBuf, rv_buf_max_words}
use booth.Tensix.Noc.{li32, tt_sem_wait_ge, rv_t0, rv_t2}
use booth.Tensix.Machine.{Machine, Env, effects, run}
use booth.Tensix.Straight.{
  Emits, IsBlock-append, StandsAt, StandsAt-append, Emits-run, run_add, effects-append,
  effects-time,
}
use booth.Tensix.Load.{li_instrs, length-li_instrs, li_instrs-IsBlock, li_instrs-Loads, Loads}
use booth.Tensix.Program.{Holds}
use booth.Tensix.Wait.{
  AtLoop, reload, retry, round, run-round, round-Holds, round-time, spin, leave, prologue,
  prologue-Emits, wait_words,
}

-- The counter is short at the first `k` readings, which are two rounds apart.
abbrev pub ShortFor : Env → (addr threshold start k : ℕ) → Type 0
ShortFor env addr threshold start k = (j : ℕ) → j < k → env (start + j * 2) addr < threshold

-- The machine gets to the byte address `pc` at `time`, with the registers from 8 on and the stores
-- as they were.
abbrev pub Arrives : Env → List ℕ → Machine → (pc time : ℕ) → Type 0
Arrives env code m pc time =
    (n : ℕ) × (m' : Machine) × (run env code n m ≡ some m')
    × (m'.pc ≡ pc)
    × (m'.time ≡ time)
    × Holds m.regs m'
    × (m'.stores ≡ m.stores)

-- The word at which the loop stands: the last two that are emitted.
abbrev pub loop_word : RvBuf → (addr threshold : ℕ) → ℕ
loop_word c addr threshold = length (tt_sem_wait_ge c addr threshold).0.words - 2

-- When the counter is read first: each word before the loop takes a step.
abbrev pub first_reading : RvBuf → (addr threshold : ℕ) → Machine → ℕ
first_reading c addr threshold m = m.time + (loop_word c addr threshold - length c.words)

module _ (c : RvBuf) (addr threshold : ℕ) (rest : List ℕ) (env : Env) (m : Machine)
    (word_addr : addr < 2 ^ 32) (word_threshold : threshold < 2 ^ 32)
    (room : length c.words + 6 ≤ rv_buf_max_words) (pc : m.pc ≡ length c.words * 4) where
  is : List Instr
  is = li_instrs rv_t0 addr ++ li_instrs rv_t2 threshold

  l : ℕ
  l = length (prologue c addr threshold).words

  code : List ℕ
  code = (tt_sem_wait_ge c addr threshold).0.words ++ rest

  entered : Machine
  entered = effects env is m

  length-is : length is ≤ 4
  unfolding is
  length-is = omega (
    arith,
    length-append (li_instrs rv_t0 addr) (li_instrs rv_t2 threshold),
    length-li_instrs rv_t0 addr,
    length-li_instrs rv_t2 threshold,
  )

  l-le : l ≤ length c.words + 4
  unfolding l prologue Emits is
  l-le = omega (
    arith,
    ap (λ (b : RvBuf). length b.words)
        (prologue-Emits c addr threshold c (omega (arith, length-is))),
    length-append c.words (map encode is),
    length-map is encode,
    length-is,
  )

  code_split :
      code ≡ (prologue c addr threshold).words ++ ((encode reload ∷ encode retry ∷ []) ++ rest)
  unfolding code l
  code_split =
      ap (λ (b : RvBuf). b.words ++ rest) (wait_words c addr threshold (omega (arith, l-le)))
      ∙ append_assoc (prologue c addr threshold).words (encode reload ∷ encode retry ∷ []) rest

  enter :
      (run env code (length is) m ≡ some entered)
      × AtLoop code l addr threshold entered
      × Holds m.regs entered
      × (entered.stores ≡ m.stores)
  unfolding is l entered Loads prologue
  enter =
      let m₁ = effects env (li_instrs rv_t0 addr) m in
      let (v₁, o₁, q₁) = li_instrs-Loads env rv_t0 addr m (omega arith) word_addr in
      let (v₂, o₂, q₂) = li_instrs-Loads env rv_t2 threshold m₁ (omega arith) word_threshold in
      let block =
        IsBlock-append (li_instrs rv_t0 addr) (li_instrs rv_t2 threshold)
          (li_instrs-IsBlock rv_t0 addr (omega arith) word_addr)
          (li_instrs-IsBlock rv_t2 threshold (omega arith) word_threshold) in
      let (ran, at) =
        Emits-run (λ b. li32 (li32 b rv_t0 addr) rv_t2 threshold) is c
          ((encode reload ∷ encode retry ∷ []) ++ rest) env m (prologue-Emits c addr threshold)
          block (omega (arith, length-is)) pc in
      let two = effects-append env (li_instrs rv_t0 addr) (li_instrs rv_t2 threshold) m in
      (
        ap (λ w. run env w (length is) m) code_split ∙ ran,
        record {
          pc = at;
          at_addr = ap (λ (x : Machine). x.regs rv_t0) two ∙ o₂ rv_t0 (omega arith) ∙ v₁;
          at_threshold = ap (λ (x : Machine). x.regs rv_t2) two ∙ v₂;
        },
        (λ r low.
            ap (λ (x : Machine). x.regs r) two
            ∙ o₂ r (λ e. absurd (omega (arith, e)))
            ∙ o₁ r (λ e. absurd (omega (arith, e)))),
        ap (λ (x : Machine). x.stores) two ∙ q₂ ∙ q₁,
      )

  stands : StandsAt code l (encode reload ∷ encode retry ∷ [])
  unfolding l
  stands =
      subst (λ w. StandsAt w l (encode reload ∷ encode retry ∷ [])) (sym code_split)
        (StandsAt-append (prologue c addr threshold).words (encode reload ∷ encode retry ∷ []) rest)

  after_length : length (tt_sem_wait_ge c addr threshold).0.words ≡ l + 2
  unfolding l
  after_length =
      ap (λ (b : RvBuf). length b.words) (wait_words c addr threshold (omega (arith, l-le)))
      ∙ length-append (prologue c addr threshold).words (encode reload ∷ encode retry ∷ [])

  reached : entered.time ≡ first_reading c addr threshold m
  unfolding entered l is prologue Emits
  reached = omega (
    arith,
    effects-time env is m (
        IsBlock-append (li_instrs rv_t0 addr) (li_instrs rv_t2 threshold)
          (li_instrs-IsBlock rv_t0 addr (omega arith) word_addr)
          (li_instrs-IsBlock rv_t2 threshold (omega arith) word_threshold)),
    after_length,
    ap (λ (b : RvBuf). length b.words)
        (prologue-Emits c addr threshold c (omega (arith, length-is))),
    length-append c.words (map encode is),
    length-map is encode,
  )

  module _ (k : ℕ) (low : ShortFor env addr threshold (first_reading c addr threshold m) k) where
    -- The rounds of the loop that the short readings make.
    spun :
        (m' : Machine) × (run env code (length is + k * 2) m ≡ some m')
        × AtLoop code l addr threshold m'
        × (m'.time ≡ first_reading c addr threshold m + k * 2)
        × Holds m.regs m'
        × (m'.stores ≡ m.stores)
    spun =
        let (ran, at, held, quiet) = enter in
        let (m', ran', at', later, held', quiet') =
          spin env code l addr threshold word_addr (omega (arith, l-le)) stands k entered at
            (subst (λ t. ShortFor env addr threshold t k) (sym reached) low) in
        (
          m',
          run_add env code (length is) (k * 2) m entered ran ∙ ran',
          at',
          omega (arith, later, reached),
          (λ r h. held' r h ∙ held r h),
          quiet' ∙ quiet,
        )

    -- Where six more words fit, a machine that starts at the words tt_sem_wait_ge emits,
    -- whatever stands behind them, and whose counter is below the threshold at the first k
    -- readings, two steps apart, stands at the head of the loop after them, with the registers
    -- from 8 on and the stores as they were.
    pub tt_sem_wait_ge_stays :
        Arrives env
          ((tt_sem_wait_ge c addr threshold).0.words ++ rest)
          m
          (loop_word c addr threshold * 4)
          (first_reading c addr threshold m + k * 2)
    unfolding code
    tt_sem_wait_ge_stays =
        let (m', ran, at, later, held, quiet) = spun in
        (length is + k * 2, m', ran, omega (arith, at.pc, after_length), later, held, quiet)

    -- Where six more words fit, a machine that starts at the words tt_sem_wait_ge emits,
    -- whatever stands behind them, and whose counter is below the threshold at the first k
    -- readings, two steps apart, and not at the next, gets to the word after them two steps
    -- after that reading, with the registers from 8 on and the stores as they were.
    pub tt_sem_wait_ge_lem :
        threshold ≤ env (first_reading c addr threshold m + k * 2) addr
        → Arrives env
            ((tt_sem_wait_ge c addr threshold).0.words ++ rest)
            m
            (length (tt_sem_wait_ge c addr threshold).0.words * 4)
            (first_reading c addr threshold m + k * 2 + 2)
    unfolding code
    tt_sem_wait_ge_lem high =
        let (m', ran, at, later, held, quiet) = spun in
        let enough = subst (λ t. threshold ≤ env t addr) (sym later) high in
        let fits : l < 2 ^ 20 = omega (arith, l-le) in
        (
          length is + k * 2 + 2,
          round env code l addr threshold word_addr fits stands m',
          run_add env code (length is + k * 2) 2 m m' ran
              ∙ run-round env code l addr threshold word_addr fits stands m' at,
          omega (
            arith,
            leave env code l addr threshold word_addr fits stands m' at enough,
            after_length,
          ),
          omega (arith, later, round-time env code l addr threshold word_addr fits stands m'),
          (λ r h. round-Holds env code l addr threshold word_addr fits stands m' r h ∙ held r h),
          (unfold round in quiet),
        )

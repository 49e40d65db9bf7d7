-- ===== src/Tensix/Transfers.antt =====
-- The register writes that start a request: `noc_xfer`, `tt_sem_inc` and `tt_noc_xfer_reg` of
-- src/tensix/noc.c as one shape, and the trace that it leaves.
use booth.Base.{
  ℕ, ◌+◌, ◌*◌, ◌^◌, ◌≤◌, ◌<◌, ◌≡◌, sym, ap, ◌∙◌, arith, List, [], ◌∷◌, ◌++◌, append-nil,
  append_assoc, map, length, length-append, length-map, some, pos,
}
use booth.RvEnc.Instr.{StoreOp, Instr, store, encode}
use booth.RvEnc.Ops.{rv_sw}
use booth.Tensix.Buf.{RvBuf, rv_buf_max_words}
use booth.Tensix.Noc.{emit, li32, store_reg, rv_t0, rv_t1}
use booth.Tensix.Machine.{Machine, Env, add_word, effects, run}
use booth.Tensix.Straight.{Emits, IsBlock, Emits-run, run_add}
use booth.Tensix.Load.{
  li_instrs, length-li_instrs, li32-Emits, li_instrs-IsBlock, li_instrs-Loads, Loads,
}
use booth.Tensix.Program.{
  Holds, Sends, IsProgram, IsProgram-then, sw-IsProgram, store_reg-IsProgram,
}

pub data NiuWrite : Type 0 where
  of_value : (v off : ℕ) → NiuWrite
  of_reg : (r off : ℕ) → NiuWrite

unfoldable pub write : RvBuf → NiuWrite → RvBuf
write c (of_value v off) = store_reg c v off
write c (of_reg r off) = emit c (rv_sw r rv_t0 (pos off))

unfoldable pub write_all : RvBuf → List NiuWrite → RvBuf
write_all c [] = c
write_all c (w ∷ ws) = write_all (write c w) ws

unfoldable pub write_instrs : List NiuWrite → List Instr
write_instrs [] = []
write_instrs (of_value v off ∷ ws) =
    (li_instrs rv_t1 v ++ store StoreOp.sw rv_t1 rv_t0 (pos off) ∷ []) ++ write_instrs ws
write_instrs (of_reg r off ∷ ws) = store StoreOp.sw r rv_t0 (pos off) ∷ write_instrs ws

-- The value is a word, the register one that the sequences leave alone, the offset positive.
abbrev pub IsWrite : NiuWrite → Type 0
IsWrite (of_value v off) = (v < 2 ^ 32) × (off < 2 ^ 11)
IsWrite (of_reg r off) = (8 ≤ r) × (r < 32) × (off < 2 ^ 11)

abbrev pub AreWrites : List NiuWrite → Type 0
AreWrites [] = Unit {0}
AreWrites (w ∷ ws) = IsWrite w × AreWrites ws

abbrev pub written : (ℕ → ℕ) → ℕ → NiuWrite → ℕ × ℕ
written regs base (of_value v off) = (add_word base (pos off), v)
written regs base (of_reg r off) = (add_word base (pos off), regs r)

length-write_instrs : (ws : List NiuWrite) → length (write_instrs ws) ≤ length ws * 3
unfolding write_instrs
length-write_instrs [] = omega arith
length-write_instrs (of_value v off ∷ ws) = omega (
  arith,
  length-append (li_instrs rv_t1 v ++ store StoreOp.sw rv_t1 rv_t0 (pos off) ∷ [])
      (write_instrs ws),
  length-append (li_instrs rv_t1 v) (store StoreOp.sw rv_t1 rv_t0 (pos off) ∷ []),
  length-li_instrs rv_t1 v,
  length-write_instrs ws,
)
length-write_instrs (of_reg r off ∷ ws) = omega (arith, length-write_instrs ws)

write_all-IsProgram :
    (regs : ℕ → ℕ) (base : ℕ) (ws : List NiuWrite)
    → AreWrites ws
    → IsProgram regs base (λ c. write_all c ws) (write_instrs ws) (map (written regs base) ws)
unfolding write_all write write_instrs Emits Sends IsBlock effects
write_all-IsProgram regs base [] ok = record {
  emits = λ c room. ap (λ ws. record { words = ws }) (sym (append-nil c.words));
  block = tt;
  sends = λ env m at_base holds. (at_base, holds, sym (append-nil m.stores));
}
write_all-IsProgram regs base (of_value v off ∷ ws) ok =
    IsProgram-then regs base (λ c. store_reg c v off) (λ c. write_all c ws) _ (write_instrs ws) _ _
      (store_reg-IsProgram regs base v off ok.0.0 ok.0.1) (write_all-IsProgram regs base ws ok.1)
write_all-IsProgram regs base (of_reg r off ∷ ws) ok =
    IsProgram-then regs base (λ c. emit c (rv_sw r rv_t0 (pos off))) (λ c. write_all c ws) _
      (write_instrs ws) _ _ (sw-IsProgram regs base r off ok.0.0 ok.0.1 ok.0.2)
      (write_all-IsProgram regs base ws ok.1)

-- A request: the base is loaded, then the registers are written in order. Where there is room, the
-- words emitted do exactly these stores, end behind the last, and leave the registers from 8 on.
pub request_lem :
    (c : RvBuf) (base : ℕ) (ws : List NiuWrite) (rest : List ℕ) (env : Env) (m : Machine)
    → base < 2 ^ 32
    → AreWrites ws
    → length c.words + 2 + length ws * 3 ≤ rv_buf_max_words
    → m.pc ≡ length c.words * 4
    → (n : ℕ) × (m' : Machine) × (run env ((write_all (li32 c rv_t0 base) ws).words ++ rest) n m
        ≡ some m')
      × (m'.pc ≡ length (write_all (li32 c rv_t0 base) ws).words * 4)
      × Holds m.regs m'
      × (m'.stores ≡ m.stores ++ map (written m.regs base) ws)
unfolding Emits Sends Loads
request_lem c base ws rest env m word ok room pc =
    let is = li_instrs rv_t0 base in
    let js = write_instrs ws in
    let c₁ = li32 c rv_t0 base in
    let m₁ = effects env is m in
    let p = write_all-IsProgram m.regs base ws ok in
    let short = length-li_instrs rv_t0 base in
    let few = length-write_instrs ws in
    let grown : length c₁.words ≡ length c.words + length is =
      ap (λ b. length b.words) (li32-Emits rv_t0 base c (omega arith))
      ∙ omega (arith, length-append c.words (map encode is), length-map is encode) in
    let code : (write_all c₁ ws).words ++ rest ≡ c₁.words ++ (map encode js ++ rest) =
      ap (λ b. b.words ++ rest) (p.emits c₁ (omega arith))
      ∙ append_assoc c₁.words (map encode js) rest in
    let (first, at_end) =
      Emits-run (λ b. li32 b rv_t0 base) is c (map encode js ++ rest) env m (li32-Emits rv_t0 base)
        (li_instrs-IsBlock rv_t0 base (omega arith) word) (omega arith) pc in
    let (second, at_last) =
      Emits-run (λ b. write_all b ws) js c₁ rest env m₁ p.emits p.block (omega arith) at_end in
    let (value, others, quiet) = li_instrs-Loads env rv_t0 base m (omega arith) word in
    let (_, holds, sent) =
      p.sends env m₁ value (λ r low. others r (λ e. absurd (omega (arith, e)))) in
    (
      length is + length js,
      effects env js m₁,
      run_add env ((write_all c₁ ws).words ++ rest) (length is) (length js) m m₁ (rw code first)
          ∙ second,
      at_last,
      holds,
      sent ∙ ap (λ x. x ++ map (written m.regs base) ws) quiet,
    )

-- ===== src/Tensix/Straight.antt =====
-- Words that are emitted one after another are fetched, decoded and executed in that order.
use mathlib.Core.Option
use booth.Base.{
  ℕ, ℤ, zero, suc, ◌+◌, ◌*◌, ◌/◌, ◌≤◌, ◌<◌, ◌≡◌, refl, sym, ap, ◌∙◌, arith, true, leb, inl, inr,
  if_cases, append_assoc, length-map, some, List, [], ◌∷◌, ◌++◌, map, map-append, length,
  length-append, get_elem?, get_elem?-append_right, get_elem?-append_left, Option-cases,
}
use booth.RvEnc.Instr.{
  AluOp, ImmOp, StoreOp, UpperOp, Instr, alu, imm, shift, store, branch, upper, encode,
}
use booth.RvEnc.RoundTrip.{IsEncodable, decode-encode}
use booth.Tensix.Buf.{RvBuf, rv_buf_max_words, rv_buf_emit}
use booth.Tensix.Noc.{emit}
use booth.Tensix.Machine.{Machine, Env, is_straight, effect, exec, step, run, effects}

-- What the emitter `f` appends to a buffer that has room for it.
unfoldable pub Emits : (RvBuf → RvBuf) → List Instr → Type 0
Emits f is =
    (c : RvBuf)
    → length c.words + length is ≤ rv_buf_max_words
    → f c ≡ record { words = c.words ++ map encode is }

pub emit_lem :
    (c : RvBuf) (word : ℕ)
    → length c.words < rv_buf_max_words
    → emit c word ≡ record { words = c.words ++ word ∷ [] }
unfolding emit rv_buf_emit
emit_lem c word room =
    if_cases (λ (r : RvBuf × ℤ). r.0 ≡ record { words = c.words ++ word ∷ [] })
      (leb rv_buf_max_words (length c.words)) (λ full. absurd (ground arith)) (λ fits. refl)

pub emit-Emits : (i : Instr) → Emits (λ c. emit c (encode i)) (i ∷ [])
unfolding Emits
emit-Emits i c room = emit_lem c (encode i) (omega arith)

pub Emits-then :
    (f g : RvBuf → RvBuf) (is js : List Instr)
    → Emits f is
    → Emits g js
    → Emits (λ c. g (f c)) (is ++ js)
unfolding Emits
Emits-then f g is js p q c room =
    let first = p c (omega (arith, length-append is js)) in
    let second : RvBuf = record { words = c.words ++ map encode is } in
    ap g first
    ∙ q second (
        omega
          (arith, length-append is js, length-append c.words (map encode is), length-map is encode))
    ∙ ap (λ ws. record { words = ws })
        (append_assoc c.words (map encode is) (map encode js)
          ∙ ap (λ ws. c.words ++ ws) (sym (map-append encode is js)))

-- The straight instructions that a core can be given.
unfoldable pub IsBlock : List Instr → Type 0
IsBlock [] = Unit {0}
IsBlock (i ∷ is) = (is_straight i ≡ true) × IsEncodable i × IsBlock is

pub IsBlock-append : (is js : List Instr) → IsBlock is → IsBlock js → IsBlock (is ++ js)
unfolding IsBlock
IsBlock-append [] js p q = q
IsBlock-append (i ∷ is) js p q = (p.0, p.1, IsBlock-append is js p.2 q)

effect-pc :
    (env : Env) (i : Instr) (m : Machine)
    → is_straight i ≡ true
    → ((effect env i m).pc ≡ m.pc + 4) × ((effect env i m).time ≡ m.time + 1)
unfolding effect
effect-pc env (alu AluOp.add rd rs1 rs2) m h = (refl, refl)
effect-pc env (imm ImmOp.addi rd rs1 i) m h = (refl, refl)
effect-pc env (imm ImmOp.lw rd rs1 i) m h = (refl, refl)
effect-pc env (store StoreOp.sw rs2 rs1 i) m h = (refl, refl)
effect-pc env (upper UpperOp.lui rd hi20) m h = (refl, refl)
effect-pc env _ m h = cc h

exec-straight :
    (env : Env) (i : Instr) (m : Machine)
    → is_straight i ≡ true
    → exec env i m ≡ some (effect env i m)
unfolding exec
exec-straight env (alu o rd rs1 rs2) m h = rw h refl
exec-straight env (imm o rd rs1 i) m h = rw h refl
exec-straight env (shift o rd rs1 k) m h = cc h
exec-straight env (store o rs2 rs1 i) m h = rw h refl
exec-straight env (branch o rs1 rs2 i) m h = cc h
exec-straight env (upper o rd hi20) m h = rw h refl
exec-straight env (Instr.jal rd i) m h = cc h
exec-straight env (Instr.fence pre post) m h = cc h
exec-straight env Instr.ecall m h = cc h
exec-straight env Instr.ebreak m h = cc h
exec-straight env Instr.unimp m h = cc h

-- One round at a word that the encoder wrote.
pub step_at :
    (env : Env) (code : List ℕ) (k : ℕ) (i : Instr) (m : Machine)
    → get_elem? code k ≡ some (encode i)
    → IsEncodable i
    → m.pc ≡ k * 4
    → step env code m ≡ exec env i m
unfolding step Option.bind
step_at env code k i m at ok pc =
    let here : m.pc / 4 ≡ k = omega arith in rw (here, at, decode-encode i ok) refl

-- Where the words of a block stand at word `k`, running as many rounds has its effects.
unfoldable pub StandsAt : List ℕ → ℕ → List ℕ → Type 0
StandsAt code k ws = (i : ℕ) → i < length ws → get_elem? code (k + i) ≡ get_elem? ws i

pub StandsAt-head :
    (code : List ℕ) (k w : ℕ) (ws : List ℕ) → StandsAt code k (w ∷ ws) → get_elem? code k ≡ some w
unfolding StandsAt
StandsAt-head code k w ws stands =
    ap (get_elem? code) {x = k} {y = k + 0} (omega arith) ∙ stands 0 (omega arith)

pub StandsAt-tail :
    (code : List ℕ) (k w : ℕ) (ws : List ℕ) → StandsAt code k (w ∷ ws) → StandsAt code (k + 1) ws
unfolding StandsAt
StandsAt-tail code k w ws stands i lt =
    ap (get_elem? code) {x = k + 1 + i} {y = k + suc i} (omega arith) ∙ stands (suc i) (omega arith)

pub run-block :
    (env : Env) (code : List ℕ) (is : List Instr) (k : ℕ) (m : Machine)
    → IsBlock is
    → StandsAt code k (map encode is)
    → m.pc ≡ k * 4
    → run env code (length is) m ≡ some (effects env is m)
unfolding IsBlock run effects Option.bind
run-block env code [] k m block stands pc = refl
run-block env code (i ∷ is) k m block stands pc =
    ap (λ o. Option.bind o (λ m'. run env code (length is) m'))
      (step_at env code k i m (StandsAt-head code k _ _ stands) block.1 pc
        ∙ exec-straight env i m block.0)
    ∙ run-block env code is (k + 1) (effect env i m) block.2 (StandsAt-tail code k _ _ stands)
        (omega (arith, (effect-pc env i m block.0).0))

pub effects-append :
    (env : Env) (is js : List Instr) (m : Machine)
    → effects env (is ++ js) m ≡ effects env js (effects env is m)
unfolding effects
effects-append env [] js m = refl
effects-append env (i ∷ is) js m = effects-append env is js (effect env i m)

pub effects-pc :
    (env : Env) (is : List Instr) (m : Machine)
    → IsBlock is
    → (effects env is m).pc ≡ m.pc + length is * 4
unfolding effects IsBlock
effects-pc env [] m block = omega arith
effects-pc env (i ∷ is) m block =
    omega (arith, (effect-pc env i m block.0).0, effects-pc env is (effect env i m) block.2)

pub effects-time :
    (env : Env) (is : List Instr) (m : Machine)
    → IsBlock is
    → (effects env is m).time ≡ m.time + length is
unfolding effects IsBlock
effects-time env [] m block = omega arith
effects-time env (i ∷ is) m block =
    omega (arith, (effect-pc env i m block.0).1, effects-time env is (effect env i m) block.2)

pub run_add :
    (env : Env) (code : List ℕ) (n k : ℕ) (m m' : Machine)
    → run env code n m ≡ some m'
    → run env code (n + k) m ≡ run env code k m'
unfolding run Option.bind
run_add env code zero k m m' h =
    let same : m ≡ m' = cc in
    ap (λ n. run env code n m) {x = 0 + k} {y = k} (omega arith) ∙ ap (run env code k) same
run_add env code (suc n) k m m' h = elim (Option-cases (step env code m)) [
  | inl e ↦ absurd (cc (rw e at h))
  | inr (m₁, e) ↦
      ap (λ n. run env code n m) {x = suc n + k} {y = suc (n + k)} (omega arith)
      ∙ rw e (run_add env code n k m₁ m' (rw e at h))
]

pub StandsAt-append : (pre ws rest : List ℕ) → StandsAt (pre ++ (ws ++ rest)) (length pre) ws
unfolding StandsAt
StandsAt-append pre ws rest i lt =
    get_elem?-append_right pre (ws ++ rest) i ∙ get_elem?-append_left ws rest i lt

-- Run from where it was emitted, a block has its effects and ends behind its last word.
pub Emits-run :
    (f : RvBuf → RvBuf) (is : List Instr) (c : RvBuf) (rest : List ℕ) (env : Env) (m : Machine)
    → Emits f is
    → IsBlock is
    → length c.words + length is ≤ rv_buf_max_words
    → m.pc ≡ length c.words * 4
    → (run env ((f c).words ++ rest) (length is) m ≡ some (effects env is m))
      × ((effects env is m).pc ≡ length (f c).words * 4)
unfolding Emits
Emits-run f is c rest env m emits block room pc =
    let code : (f c).words ++ rest ≡ c.words ++ (map encode is ++ rest) =
      ap (λ b. b.words ++ rest) (emits c room) ∙ append_assoc c.words (map encode is) rest in
    let end : length (f c).words ≡ length c.words + length is =
      ap (λ b. length b.words) (emits c room)
      ∙ omega (arith, length-append c.words (map encode is), length-map is encode) in
    (
      rw code (
          run-block env (c.words ++ (map encode is ++ rest)) is (length c.words) m block
            (StandsAt-append c.words (map encode is) rest) pc),
      omega (arith, end, effects-pc env is m block),
    )

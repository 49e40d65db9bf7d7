-- ===== src/Tensix/Program.antt =====
-- Emitters behind one interface: what they append, and what it does to the trace while the base
-- register stands. `t0`, `t1` and `t2` are the registers that a sequence may use.
use booth.Base.{
  ℕ, ◌^◌, ◌≤◌, ◌<◌, ◌≡◌, refl, ap, ◌∙◌, arith, List, [], ◌∷◌, ◌++◌, append_assoc, ==_ne, pos,
}
use booth.RvEnc.Instr.{StoreOp, Instr, store, encode, encode_store}
use booth.RvEnc.Ops.{rv_sw}
use booth.Tensix.Buf.{RvBuf}
use booth.Tensix.Noc.{emit, li32, store_reg, rv_t0, rv_t1}
use booth.Tensix.Machine.{Machine, Env, reg, add_word, effect, effects}
use booth.Tensix.Straight.{Emits, emit-Emits, Emits-then, IsBlock, IsBlock-append, effects-append}
use booth.Tensix.Load.{li_instrs, li32-Emits, li_instrs-IsBlock, li_instrs-Loads, Loads}

-- `regs` is what the registers from 8 on hold.
abbrev pub Holds : (ℕ → ℕ) → Machine → Type 0
Holds regs m = (r : ℕ) → 8 ≤ r → m.regs r ≡ regs r

-- From a machine that holds `regs` and has `base` in t0, the block adds `trace` and leaves both.
unfoldable pub Sends : (ℕ → ℕ) → ℕ → List Instr → List (ℕ × ℕ) → Type 0
Sends regs base is trace =
    (env : Env) (m : Machine)
    → m.regs rv_t0 ≡ base
    → Holds regs m
    → ((effects env is m).regs rv_t0 ≡ base)
      × Holds regs (effects env is m)
      × ((effects env is m).stores ≡ m.stores ++ trace)

pub record IsProgram (regs : ℕ → ℕ) (base : ℕ) (f : RvBuf → RvBuf) (is : List Instr)
    (trace : List (ℕ × ℕ)) : Type 0 where
  pub emits : Emits f is
  pub block : IsBlock is
  pub sends : Sends regs base is trace

module _ (regs : ℕ → ℕ) (base : ℕ) where
  Sends-append :
      (is js : List Instr) (s t : List (ℕ × ℕ))
      → Sends regs base is s
      → Sends regs base js t
      → Sends regs base (is ++ js) (s ++ t)
  unfolding Sends
  Sends-append is js s t p q env m at_base holds =
      let (at_base₁, holds₁, sent₁) = p env m at_base holds in
      let (at_base₂, holds₂, sent₂) = q env (effects env is m) at_base₁ holds₁ in
      rw (effects-append env is js m)
        (at_base₂, holds₂, sent₂ ∙ ap (λ x. x ++ t) sent₁ ∙ append_assoc m.stores s t)

  pub IsProgram-then :
      (f g : RvBuf → RvBuf) (is js : List Instr) (s t : List (ℕ × ℕ))
      → IsProgram regs base f is s
      → IsProgram regs base g js t
      → IsProgram regs base (λ c. g (f c)) (is ++ js) (s ++ t)
  IsProgram-then f g is js s t p q = record {
    emits = Emits-then f g is js p.emits q.emits;
    block = IsBlock-append is js p.block q.block;
    sends = Sends-append is js s t p.sends q.sends;
  }

  -- A store of a register that the sequences leave alone.
  pub sw-IsProgram :
      (r off : ℕ)
      → 8 ≤ r
      → r < 32
      → off < 2 ^ 11
      → IsProgram regs base
          (λ c. emit c (rv_sw r rv_t0 (pos off)))
          (store StoreOp.sw r rv_t0 (pos off) ∷ [])
          ((add_word base (pos off), regs r) ∷ [])
  unfolding Sends encode encode_store effects effect IsBlock
  sw-IsProgram r off low high fits = record {
    emits = emit-Emits (store StoreOp.sw r rv_t0 (pos off));
    block = (refl, (high, omega arith, omega arith), tt);
    sends = λ env m at_base holds. (
      at_base,
      holds,
      (let value : reg m r ≡ regs r =
            rw (==_ne r 0 (λ e. absurd (omega (arith, e)))) (holds r low) in
          λ i. m.stores ++ (add_word (at_base i) (pos off), value i) ∷ []),
    );
  }

  pub store_reg-IsProgram :
      (v off : ℕ)
      → v < 2 ^ 32
      → off < 2 ^ 11
      → IsProgram regs base
          (λ c. store_reg c v off)
          (li_instrs rv_t1 v ++ store StoreOp.sw rv_t1 rv_t0 (pos off) ∷ [])
          ((add_word base (pos off), v) ∷ [])
  unfolding Sends encode encode_store IsBlock store_reg effects effect Loads
  store_reg-IsProgram v off word fits = record {
    emits =
        Emits-then (λ c. li32 c rv_t1 v) (λ c. emit c (rv_sw rv_t1 rv_t0 (pos off)))
          (li_instrs rv_t1 v) (store StoreOp.sw rv_t1 rv_t0 (pos off) ∷ []) (li32-Emits rv_t1 v)
          (emit-Emits (store StoreOp.sw rv_t1 rv_t0 (pos off)));
    block =
        IsBlock-append (li_instrs rv_t1 v) (store StoreOp.sw rv_t1 rv_t0 (pos off) ∷ [])
          (li_instrs-IsBlock rv_t1 v (omega arith) word)
          (refl, (omega arith, omega arith, omega arith), tt);
    sends = λ env m at_base holds.
        let m₁ = effects env (li_instrs rv_t1 v) m in
        let (value, others, trace) = li_instrs-Loads env rv_t1 v m (omega arith) word in
        let at_base₁ = others rv_t0 (omega arith) ∙ at_base in
        rw (effects-append env (li_instrs rv_t1 v) (store StoreOp.sw rv_t1 rv_t0 (pos off) ∷ []) m)
          (
            at_base₁,
            (λ r low. others r (λ e. absurd (omega (arith, e))) ∙ holds r low),
            (λ i. trace i ++ (add_word (at_base₁ i) (pos off), value i) ∷ []),
          );
  }

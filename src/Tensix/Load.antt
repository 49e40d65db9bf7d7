-- ===== src/Tensix/Load.antt =====
-- `li32` and `store_reg` of src/tensix/noc.c: what they append, and what it does.
use booth.Base.{
  ℕ, ◌+◌, ◌-◌, ◌*◌, ◌/◌, ◌%◌, ◌^◌, ◌≤◌, ◌<◌, ◌≡◌, ◌≢◌, refl, sym, ◌∙◌, arith, bit_and_mask,
  bit_and_bit, true, not, ◌==◌, ==_refl, ==_ne, ltb, leb, Bool-cases, inl, inr, if◌then◌else◌,
  if_cases, List, [], ◌∷◌, length, ℤ, pos, negsuc,
}
use booth.RvEnc.Instr.{ImmOp, UpperOp, Instr, imm, upper, encode, encode_imm, encode_upper}
use booth.RvEnc.Reads.{Fits}
use booth.Tensix.Noc.{li_negative, li_lo, li_hi, is_zero_int, li32, to_i16, rv_x0}
use booth.Tensix.Machine.{Machine, Env, add_word, effect, effects}
use booth.Tensix.Straight.{Emits, emit-Emits, Emits-then, IsBlock}

-- The low twelve bits, as the sign-extended number that `addi` adds.
low_part : ℕ → ℤ
low_part v = if ltb (v % 2 ^ 12) 0x800 then pos (v % 2 ^ 12) else negsuc (0xFFF - v % 2 ^ 12)

li_negative_lem : (v : ℕ) → li_negative v ≡ leb 0x800 (v % 2 ^ 12)
unfolding li_negative
li_negative_lem v = rw (bit_and_mask 12 v) (ground (arith, bit_and_bit 11 (v % 2 ^ 12)))

li_lo_lem : (v : ℕ) → li_lo v ≡ low_part v
unfolding li_lo low_part
li_lo_lem v = rw (bit_and_mask 12 v) (ground (arith, bit_and_bit 11 (v % 2 ^ 12)))

to_i16-li_lo : (v : ℕ) → to_i16 (li_lo v) ≡ low_part v
unfolding low_part
to_i16-li_lo v = rw (li_lo_lem v) (ground arith)

low_part-Fits : (v : ℕ) → Fits 12 (low_part v)
unfolding low_part
low_part-Fits v = ground arith

li_hi_lem : (v : ℕ) → v < 2 ^ 32 → li_hi v ≡ (v + 0x800) / 2 ^ 12 % 2 ^ 20
unfolding li_hi
li_hi_lem v h =
    rw
      (
        li_negative_lem v,
        bit_and_mask 20 (v / 2 ^ 12),
        bit_and_mask 20 ((v / 2 ^ 12 % 2 ^ 20 + 1) % 2 ^ 32),
      )
      (ground arith)

li_value :
    (v : ℕ)
    → v < 2 ^ 32
    → add_word ((v + 0x800) / 2 ^ 12 % 2 ^ 20 * 2 ^ 12 % 2 ^ 32) (low_part v) ≡ v
unfolding low_part
li_value v h = ground arith

-- The instructions that `li32` chooses.
pub li_instrs : (rd v : ℕ) → List Instr
li_instrs rd v =
    if not (li_hi v == 0)
    then (if not (is_zero_int (li_lo v))
        then upper UpperOp.lui rd (li_hi v) ∷ imm ImmOp.addi rd rd (to_i16 (li_lo v)) ∷ []
        else upper UpperOp.lui rd (li_hi v) ∷ [])
    else imm ImmOp.addi rd rv_x0 (to_i16 (li_lo v)) ∷ []

pub li32-Emits : (rd v : ℕ) → Emits (λ c. li32 c rd v) (li_instrs rd v)
unfolding Emits li32 li_instrs encode encode_upper encode_imm
li32-Emits rd v = elim (Bool-cases (not (li_hi v == 0))) [
  | inl h ↦ elim (Bool-cases (not (is_zero_int (li_lo v)))) [
    | inl l ↦
        rw (h, l)
          (Emits-then _ _ (upper UpperOp.lui rd (li_hi v) ∷ [])
            (imm ImmOp.addi rd rd (to_i16 (li_lo v)) ∷ [])
            (emit-Emits (upper UpperOp.lui rd (li_hi v)))
            (emit-Emits (imm ImmOp.addi rd rd (to_i16 (li_lo v)))))
    | inr l ↦ rw (h, l) (emit-Emits (upper UpperOp.lui rd (li_hi v)))
  ]
  | inr h ↦ rw h (emit-Emits (imm ImmOp.addi rd rv_x0 (to_i16 (li_lo v))))
]

pub li_instrs-IsBlock : (rd v : ℕ) → rd < 32 → v < 2 ^ 32 → IsBlock (li_instrs rd v)
unfolding li_instrs IsBlock
li_instrs-IsBlock rd v small word =
    let hi : li_hi v < 2 ^ 20 = rw (li_hi_lem v word) (omega arith) in
    let lo : Fits 12 (to_i16 (li_lo v)) = rw (to_i16-li_lo v) (low_part-Fits v) in
    if_cases IsBlock (not (li_hi v == 0))
      (λ h.
        if_cases IsBlock (not (is_zero_int (li_lo v)))
          (λ l. (refl, (small, hi), (refl, (small, small, lo), tt))) (λ l. (refl, (small, hi), tt)))
      (λ h. (refl, (small, omega arith, lo), tt))

pub length-li_instrs : (rd v : ℕ) → length (li_instrs rd v) ≤ 2
unfolding li_instrs
length-li_instrs rd v = ground arith

-- After the block the register holds the value, and the others and the trace are as before.
unfoldable pub Loads : ℕ → ℕ → Machine → Machine → Type 0
Loads rd v m m' =
    (m'.regs rd ≡ v) × ((r : ℕ) → r ≢ rd → m'.regs r ≡ m.regs r) × (m'.stores ≡ m.stores)

module _ (env : Env) (rd hi v : ℕ) (lo : ℤ) (m : Machine) (nz : rd ≢ 0) where
  lui_addi-Loads :
      add_word (hi * 2 ^ 12 % 2 ^ 32) lo ≡ v
      → Loads rd v m (effects env (upper UpperOp.lui rd hi ∷ imm ImmOp.addi rd rd lo ∷ []) m)
  unfolding Loads effects effect
  lui_addi-Loads e = (rw (==_refl rd, ==_ne rd 0 nz) e, (λ r ne. rw (==_ne r rd ne) refl), refl)

  lui-Loads : hi * 2 ^ 12 % 2 ^ 32 ≡ v → Loads rd v m (effects env (upper UpperOp.lui rd hi ∷ []) m)
  unfolding Loads effects effect
  lui-Loads e = (rw (==_refl rd) e, (λ r ne. rw (==_ne r rd ne) refl), refl)

  addi-Loads : add_word 0 lo ≡ v → Loads rd v m (effects env (imm ImmOp.addi rd rv_x0 lo ∷ []) m)
  unfolding Loads effects effect
  addi-Loads e = (rw (==_refl rd) e, (λ r ne. rw (==_ne r rd ne) refl), refl)

is_zero_int_only : (z : ℤ) → is_zero_int z ≡ true → z ≡ pos 0
unfolding is_zero_int
is_zero_int_only (pos n) h = ground arith
is_zero_int_only (negsuc n) h = cc

zero_low : (v a : ℕ) → is_zero_int (li_lo v) ≡ true → a < 2 ^ 32 → add_word a (to_i16 (li_lo v)) ≡ a
zero_low v a h fits = rw (is_zero_int_only (li_lo v) h) (omega arith)

pub li_instrs-Loads :
    (env : Env) (rd v : ℕ) (m : Machine)
    → rd ≢ 0
    → v < 2 ^ 32
    → Loads rd v m (effects env (li_instrs rd v) m)
unfolding li_instrs
li_instrs-Loads env rd v m nz word =
    let value : add_word (li_hi v * 2 ^ 12 % 2 ^ 32) (to_i16 (li_lo v)) ≡ v =
      rw (li_hi_lem v word, to_i16-li_lo v) (li_value v word) in
    if_cases (λ is. Loads rd v m (effects env is m)) (not (li_hi v == 0))
      (λ h.
        if_cases (λ is. Loads rd v m (effects env is m)) (not (is_zero_int (li_lo v)))
          (λ l. lui_addi-Loads env rd (li_hi v) v (to_i16 (li_lo v)) m nz value)
          (λ l. lui-Loads env rd (li_hi v) v (to_i16 (li_lo v)) m nz (
            sym (zero_low v (li_hi v * 2 ^ 12 % 2 ^ 32) (ground (arith, l)) (omega arith))
            ∙ value)))
      (λ h.
        addi-Loads env rd (li_hi v) v (to_i16 (li_lo v)) m nz
          (let none_high : li_hi v ≡ 0 = ground (arith, h) in rw none_high at value))

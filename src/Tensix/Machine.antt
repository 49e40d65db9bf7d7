-- ===== src/Tensix/Machine.antt =====
-- What a baby core does with the words of a code buffer: the part of RV32I that the emitted
-- sequences use, from the ISA document. Other cores and the network write the memory that a load
-- reads, so what it answers depends on the time; what a store writes is kept as a trace.
use mathlib.Core.Option
use booth.Base.{
  ℕ, zero, suc, ◌+◌, ◌*◌, ◌/◌, ◌%◌, ◌^◌, Bool, true, false, not, ◌==◌, ltb, if◌then◌else◌, Option,
  none, some, List, [], ◌∷◌, ◌++◌, get_elem?, ℤ, ltb_ℤ, to_u32, signed,
}
use booth.RvEnc.Instr.{
  AluOp, ImmOp, StoreOp, BranchOp, UpperOp, Instr, alu, imm, store, branch, upper,
}
use booth.RvEnc.Decode.{decode}

pub record Machine : Type 0 where
  pub regs : ℕ → ℕ
  pub pc : ℕ
  pub time : ℕ
  pub stores : List (ℕ × ℕ)

-- The word that a load of an address answers at a time.
abbrev pub Env : Type 0
Env = ℕ → ℕ → ℕ

-- Register 0 reads as 0, and a write to it is lost.
abbrev pub reg : Machine → ℕ → ℕ
reg m r = if r == 0 then 0 else m.regs r

abbrev pub put : (ℕ → ℕ) → ℕ → ℕ → ℕ → ℕ
put regs rd v x = if x == rd then v else regs x

abbrev pub add_word : ℕ → ℤ → ℕ
add_word a z = (a + to_u32 z) % 2 ^ 32

abbrev pub advance : Machine → Machine
advance m = record m { pc = m.pc + 4; time = m.time + 1 }

abbrev pub is_straight : Instr → Bool
is_straight (alu AluOp.add rd rs1 rs2) = true
is_straight (imm ImmOp.addi rd rs1 i) = true
is_straight (imm ImmOp.lw rd rs1 i) = true
is_straight (store StoreOp.sw rs2 rs1 i) = true
is_straight (upper UpperOp.lui rd hi20) = true
is_straight _ = false

-- An instruction that goes on to the next one.
unfoldable pub effect : Env → Instr → Machine → Machine
effect env (alu AluOp.add rd rs1 rs2) m =
    advance (record m { regs = put m.regs rd ((reg m rs1 + reg m rs2) % 2 ^ 32) })
effect env (imm ImmOp.addi rd rs1 i) m =
    advance (record m { regs = put m.regs rd (add_word (reg m rs1) i) })
effect env (imm ImmOp.lw rd rs1 i) m =
    advance (record m { regs = put m.regs rd (env m.time (add_word (reg m rs1) i)) })
effect env (store StoreOp.sw rs2 rs1 i) m =
    advance (record m { stores = m.stores ++ (add_word (reg m rs1) i, reg m rs2) ∷ [] })
effect env (upper UpperOp.lui rd hi20) m =
    advance (record m { regs = put m.regs rd (hi20 * 2 ^ 12 % 2 ^ 32) })
effect env _ m = m

unfoldable pub taken : BranchOp → ℕ → ℕ → Bool
taken BranchOp.beq a b = a == b
taken BranchOp.bne a b = not (a == b)
taken BranchOp.blt a b = ltb_ℤ (signed 32 a) (signed 32 b)
taken BranchOp.bge a b = not (ltb_ℤ (signed 32 a) (signed 32 b))
taken BranchOp.bltu a b = ltb a b
taken BranchOp.bgeu a b = not (ltb a b)

unfoldable pub exec : Env → Instr → Machine → Option Machine
exec env (branch o rs1 rs2 off) m = some (record m {
  pc = if taken o (reg m rs1) (reg m rs2) then add_word m.pc off else m.pc + 4;
  time = m.time + 1;
})
exec env (Instr.jal rd off) m =
    some (record m { regs = put m.regs rd (m.pc + 4); pc = add_word m.pc off; time = m.time + 1 })
exec env i m = if is_straight i then some (effect env i m) else none

-- Fetch, decode, execute; the code stands at address 0.
unfoldable pub step : Env → List ℕ → Machine → Option Machine
step env code m =
    Option.bind (get_elem? code (m.pc / 4)) λ word. Option.bind (decode word) λ i. exec env i m

unfoldable pub run : Env → List ℕ → ℕ → Machine → Option Machine
run env code zero m = some m
run env code (suc n) m = Option.bind (step env code m) (λ m'. run env code n m')

-- The effects of a straight sequence.
unfoldable pub effects : Env → List Instr → Machine → Machine
effects env [] m = m
effects env (i ∷ is) m = effects env is (effect env i m)

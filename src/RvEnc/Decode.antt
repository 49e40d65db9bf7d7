-- ===== src/RvEnc/Decode.antt =====
-- A decoder of RV32IM words, written from the field layouts and opcode tables of the Unprivileged
-- ISA document: the independent description that the encoder is held to.
use mathlib.Core.Option
use booth.Base.{ℕ, ◌+◌, ◌*◌, ◌/◌, ◌%◌, ◌^◌, Option, none, some, ◌==◌, if◌then◌else◌, ℤ, signed}
use booth.RvEnc.Instr.{
  AluOp, ImmOp, ShiftOp, StoreOp, BranchOp, UpperOp, Instr, alu, imm, shift, store, branch, upper,
}

-- Bits [lo + w - 1 : lo] of a word.
abbrev pub bits : ℕ → ℕ → ℕ → ℕ
bits word lo w = word / 2 ^ lo % 2 ^ w

-- The scattered immediates, put together.
abbrev pub imm_i : ℕ → ℤ
imm_i word = signed 12 (bits word 20 12)

abbrev pub imm_s : ℕ → ℤ
imm_s word = signed 12 (bits word 25 7 * 2 ^ 5 + bits word 7 5)

abbrev pub imm_b : ℕ → ℤ
imm_b word =
    signed 13 (
      bits word 31 1 * 2 ^ 12 + bits word 7 1 * 2 ^ 11 + bits word 25 6 * 2 ^ 5 + bits word 8 4 * 2)

abbrev pub imm_j : ℕ → ℤ
imm_j word = signed 21 (
    bits word 31 1 * 2 ^ 20
    + bits word 12 8 * 2 ^ 12
    + bits word 20 1 * 2 ^ 11
    + bits word 21 10 * 2)

unfoldable pub alu_of : ℕ → ℕ → Option AluOp
alu_of f7 f3 =
    if f7 == 0x00
    then (if f3 == 0
        then some AluOp.add
        else if f3 == 1
        then some AluOp.sll
        else if f3 == 2
        then some AluOp.slt
        else if f3 == 3
        then some AluOp.sltu
        else if f3 == 4
        then some AluOp.xor
        else if f3 == 5
        then some AluOp.srl
        else if f3 == 6
        then some AluOp.or
        else if f3 == 7
        then some AluOp.and
        else none)
    else if f7 == 0x20
    then (if f3 == 0 then some AluOp.sub else if f3 == 5 then some AluOp.sra else none)
    else if f7 == 0x01
    then (if f3 == 0
        then some AluOp.mul
        else if f3 == 1
        then some AluOp.mulh
        else if f3 == 2
        then some AluOp.mulhsu
        else if f3 == 3
        then some AluOp.mulhu
        else if f3 == 4
        then some AluOp.div
        else if f3 == 5
        then some AluOp.divu
        else if f3 == 6
        then some AluOp.rem
        else if f3 == 7
        then some AluOp.remu
        else none)
    else none

unfoldable pub load_of : ℕ → Option ImmOp
load_of f3 =
    if f3 == 0
    then some ImmOp.lb
    else if f3 == 1
    then some ImmOp.lh
    else if f3 == 2
    then some ImmOp.lw
    else if f3 == 4
    then some ImmOp.lbu
    else if f3 == 5
    then some ImmOp.lhu
    else none

-- OP-IMM, but for the shifts, which share funct3 1 and 5.
unfoldable pub imm_of : ℕ → Option ImmOp
imm_of f3 =
    if f3 == 0
    then some ImmOp.addi
    else if f3 == 2
    then some ImmOp.slti
    else if f3 == 3
    then some ImmOp.sltiu
    else if f3 == 4
    then some ImmOp.xori
    else if f3 == 6
    then some ImmOp.ori
    else if f3 == 7
    then some ImmOp.andi
    else none

unfoldable pub shift_of : ℕ → ℕ → Option ShiftOp
shift_of f7 f3 =
    if f3 == 1
    then (if f7 == 0x00 then some ShiftOp.slli else none)
    else if f3 == 5
    then (if f7 == 0x00 then some ShiftOp.srli else if f7 == 0x20 then some ShiftOp.srai else none)
    else none

unfoldable pub store_of : ℕ → Option StoreOp
store_of f3 =
    if f3 == 0
    then some StoreOp.sb
    else if f3 == 1
    then some StoreOp.sh
    else if f3 == 2
    then some StoreOp.sw
    else none

unfoldable pub branch_of : ℕ → Option BranchOp
branch_of f3 =
    if f3 == 0
    then some BranchOp.beq
    else if f3 == 1
    then some BranchOp.bne
    else if f3 == 4
    then some BranchOp.blt
    else if f3 == 5
    then some BranchOp.bge
    else if f3 == 6
    then some BranchOp.bltu
    else if f3 == 7
    then some BranchOp.bgeu
    else none

-- The word's fields, each cut out once.
pub record Fields : Type 0 where
  pub opcode : ℕ
  pub rd : ℕ
  pub f3 : ℕ
  pub rs1 : ℕ
  pub rs2 : ℕ
  pub f7 : ℕ

abbrev pub fields : ℕ → Fields
fields word = record {
  opcode = bits word 0 7;
  rd = bits word 7 5;
  f3 = bits word 12 3;
  rs1 = bits word 15 5;
  rs2 = bits word 20 5;
  f7 = bits word 25 7;
}

-- Dispatch on the major opcode, given the fields and the immediates of every format.
unfoldable pub decode_fields : Fields → (i s b j : ℤ) → (hi20 : ℕ) → Option Instr
unfolding alu_of load_of imm_of shift_of store_of branch_of
decode_fields w i s b j hi20 =
    if w.opcode == 0x33
    then Option.map (λ o. alu o w.rd w.rs1 w.rs2) (alu_of w.f7 w.f3)
    else if w.opcode == 0x13
    then (if w.f3 == 1
        then Option.map (λ o. shift o w.rd w.rs1 w.rs2) (shift_of w.f7 w.f3)
        else if w.f3 == 5
        then Option.map (λ o. shift o w.rd w.rs1 w.rs2) (shift_of w.f7 w.f3)
        else Option.map (λ o. imm o w.rd w.rs1 i) (imm_of w.f3))
    else if w.opcode == 0x03
    then Option.map (λ o. imm o w.rd w.rs1 i) (load_of w.f3)
    else if w.opcode == 0x23
    then Option.map (λ o. store o w.rs2 w.rs1 s) (store_of w.f3)
    else if w.opcode == 0x63
    then Option.map (λ o. branch o w.rs1 w.rs2 b) (branch_of w.f3)
    else if w.opcode == 0x67
    then (if w.f3 == 0 then some (imm ImmOp.jalr w.rd w.rs1 i) else none)
    else if w.opcode == 0x6f
    then some (Instr.jal w.rd j)
    else if w.opcode == 0x37
    then some (upper UpperOp.lui w.rd hi20)
    else if w.opcode == 0x17
    then some (upper UpperOp.auipc w.rd hi20)
    else none

-- A fence that is not reserved has fm, rd, funct3 and rs1 all zero.
unfoldable pub decode : ℕ → Option Instr
unfolding decode_fields
decode word =
    if word == 0x00000073
    then some Instr.ecall
    else if word == 0x00100073
    then some Instr.ebreak
    else if word == 0xC0001073
    then some Instr.unimp
    else if bits word 0 20 == 0x0f
    then (if bits word 28 4 == 0
        then some (Instr.fence (bits word 24 4) (bits word 20 4))
        else none)
    else decode_fields (fields word) (imm_i word) (imm_s word) (imm_b word) (imm_j word)
        (bits word 12 20)

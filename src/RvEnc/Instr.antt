-- ===== src/RvEnc/Instr.antt =====
-- The instructions of RV32IM as data, and their encoding by the functions of
-- src/tensix/rv_enc.c. `unimp` is the word that the toolchains call so, a write of a read-only CSR.
use booth.Base.{ℕ, ℤ}
use booth.RvEnc.Ops

pub data AluOp : Type 0 where
  add sub and or xor sll srl sra slt sltu mul mulh mulhsu mulhu div divu rem remu : AluOp

pub data ImmOp : Type 0 where
  addi andi ori xori slti sltiu lw lh lhu lb lbu jalr : ImmOp

pub data ShiftOp : Type 0 where
  slli srli srai : ShiftOp

pub data StoreOp : Type 0 where
  sw sh sb : StoreOp

pub data BranchOp : Type 0 where
  beq bne blt bge bltu bgeu : BranchOp

pub data UpperOp : Type 0 where
  lui auipc : UpperOp

pub data Instr : Type 0 where
  alu : AluOp → (rd rs1 rs2 : ℕ) → Instr
  imm : ImmOp → (rd rs1 : ℕ) → ℤ → Instr
  shift : ShiftOp → (rd rs1 shamt : ℕ) → Instr
  store : StoreOp → (rs2 rs1 : ℕ) → ℤ → Instr
  branch : BranchOp → (rs1 rs2 : ℕ) → ℤ → Instr
  upper : UpperOp → (rd hi20 : ℕ) → Instr
  jal : (rd : ℕ) → ℤ → Instr
  fence : (pre post : ℕ) → Instr
  ecall ebreak unimp : Instr

unfoldable pub encode_alu : AluOp → ℕ → ℕ → ℕ → ℕ
encode_alu add rd rs1 rs2 = Ops.rv_add rd rs1 rs2
encode_alu sub rd rs1 rs2 = Ops.rv_sub rd rs1 rs2
encode_alu and rd rs1 rs2 = Ops.rv_and rd rs1 rs2
encode_alu or rd rs1 rs2 = Ops.rv_or rd rs1 rs2
encode_alu xor rd rs1 rs2 = Ops.rv_xor rd rs1 rs2
encode_alu sll rd rs1 rs2 = Ops.rv_sll rd rs1 rs2
encode_alu srl rd rs1 rs2 = Ops.rv_srl rd rs1 rs2
encode_alu sra rd rs1 rs2 = Ops.rv_sra rd rs1 rs2
encode_alu slt rd rs1 rs2 = Ops.rv_slt rd rs1 rs2
encode_alu sltu rd rs1 rs2 = Ops.rv_sltu rd rs1 rs2
encode_alu mul rd rs1 rs2 = Ops.rv_mul rd rs1 rs2
encode_alu mulh rd rs1 rs2 = Ops.rv_mulh rd rs1 rs2
encode_alu mulhsu rd rs1 rs2 = Ops.rv_mulhsu rd rs1 rs2
encode_alu mulhu rd rs1 rs2 = Ops.rv_mulhu rd rs1 rs2
encode_alu div rd rs1 rs2 = Ops.rv_div rd rs1 rs2
encode_alu divu rd rs1 rs2 = Ops.rv_divu rd rs1 rs2
encode_alu rem rd rs1 rs2 = Ops.rv_rem rd rs1 rs2
encode_alu remu rd rs1 rs2 = Ops.rv_remu rd rs1 rs2

unfoldable pub encode_imm : ImmOp → ℕ → ℕ → ℤ → ℕ
encode_imm addi rd rs1 i = Ops.rv_addi rd rs1 i
encode_imm andi rd rs1 i = Ops.rv_andi rd rs1 i
encode_imm ori rd rs1 i = Ops.rv_ori rd rs1 i
encode_imm xori rd rs1 i = Ops.rv_xori rd rs1 i
encode_imm slti rd rs1 i = Ops.rv_slti rd rs1 i
encode_imm sltiu rd rs1 i = Ops.rv_sltiu rd rs1 i
encode_imm lw rd rs1 i = Ops.rv_lw rd rs1 i
encode_imm lh rd rs1 i = Ops.rv_lh rd rs1 i
encode_imm lhu rd rs1 i = Ops.rv_lhu rd rs1 i
encode_imm lb rd rs1 i = Ops.rv_lb rd rs1 i
encode_imm lbu rd rs1 i = Ops.rv_lbu rd rs1 i
encode_imm jalr rd rs1 i = Ops.rv_jalr rd rs1 i

unfoldable pub encode_shift : ShiftOp → ℕ → ℕ → ℕ → ℕ
encode_shift slli rd rs1 shamt = Ops.rv_slli rd rs1 shamt
encode_shift srli rd rs1 shamt = Ops.rv_srli rd rs1 shamt
encode_shift srai rd rs1 shamt = Ops.rv_srai rd rs1 shamt

unfoldable pub encode_store : StoreOp → ℕ → ℕ → ℤ → ℕ
encode_store sw rs2 rs1 i = Ops.rv_sw rs2 rs1 i
encode_store sh rs2 rs1 i = Ops.rv_sh rs2 rs1 i
encode_store sb rs2 rs1 i = Ops.rv_sb rs2 rs1 i

unfoldable pub encode_branch : BranchOp → ℕ → ℕ → ℤ → ℕ
encode_branch beq rs1 rs2 off = Ops.rv_beq rs1 rs2 off
encode_branch bne rs1 rs2 off = Ops.rv_bne rs1 rs2 off
encode_branch blt rs1 rs2 off = Ops.rv_blt rs1 rs2 off
encode_branch bge rs1 rs2 off = Ops.rv_bge rs1 rs2 off
encode_branch bltu rs1 rs2 off = Ops.rv_bltu rs1 rs2 off
encode_branch bgeu rs1 rs2 off = Ops.rv_bgeu rs1 rs2 off

unfoldable pub encode_upper : UpperOp → ℕ → ℕ → ℕ
encode_upper lui rd hi20 = Ops.rv_lui rd hi20
encode_upper auipc rd hi20 = Ops.rv_auipc rd hi20

unfoldable pub encode : Instr → ℕ
encode (alu o rd rs1 rs2) = encode_alu o rd rs1 rs2
encode (imm o rd rs1 i) = encode_imm o rd rs1 i
encode (shift o rd rs1 shamt) = encode_shift o rd rs1 shamt
encode (store o rs2 rs1 i) = encode_store o rs2 rs1 i
encode (branch o rs1 rs2 off) = encode_branch o rs1 rs2 off
encode (upper o rd hi20) = encode_upper o rd hi20
encode (jal rd off) = Ops.rv_jal rd off
encode (fence pre post) = Ops.rv_fence pre post
encode ecall = Ops.rv_ecall
encode ebreak = Ops.rv_ebreak
encode unimp = Ops.rv_unimp

-- ===== src/RvEnc/Ops.antt =====
-- The instruction functions of src/tensix/rv_enc.c: each fills opcode, funct3 and funct7 of one
-- format from the tables of the specification.
use booth.Base.{ℕ, bit_and, bit_or, ℤ, pos}
use booth.RvEnc.Format.{◌<<◌, enc_r, enc_i, enc_ish, enc_s, enc_b, enc_u, enc_j}

unfoldable pub rv_add : ℕ → ℕ → ℕ → ℕ
rv_add rd rs1 rs2 = enc_r 0x00 rs2 rs1 0 rd 0x33

unfoldable pub rv_sub : ℕ → ℕ → ℕ → ℕ
rv_sub rd rs1 rs2 = enc_r 0x20 rs2 rs1 0 rd 0x33

unfoldable pub rv_and : ℕ → ℕ → ℕ → ℕ
rv_and rd rs1 rs2 = enc_r 0x00 rs2 rs1 0x7 rd 0x33

unfoldable pub rv_or : ℕ → ℕ → ℕ → ℕ
rv_or rd rs1 rs2 = enc_r 0x00 rs2 rs1 0x6 rd 0x33

unfoldable pub rv_xor : ℕ → ℕ → ℕ → ℕ
rv_xor rd rs1 rs2 = enc_r 0x00 rs2 rs1 0x4 rd 0x33

unfoldable pub rv_sll : ℕ → ℕ → ℕ → ℕ
rv_sll rd rs1 rs2 = enc_r 0x00 rs2 rs1 0x1 rd 0x33

unfoldable pub rv_srl : ℕ → ℕ → ℕ → ℕ
rv_srl rd rs1 rs2 = enc_r 0x00 rs2 rs1 0x5 rd 0x33

unfoldable pub rv_sra : ℕ → ℕ → ℕ → ℕ
rv_sra rd rs1 rs2 = enc_r 0x20 rs2 rs1 0x5 rd 0x33

unfoldable pub rv_slt : ℕ → ℕ → ℕ → ℕ
rv_slt rd rs1 rs2 = enc_r 0x00 rs2 rs1 0x2 rd 0x33

unfoldable pub rv_sltu : ℕ → ℕ → ℕ → ℕ
rv_sltu rd rs1 rs2 = enc_r 0x00 rs2 rs1 0x3 rd 0x33

-- I-type ALU (OP-IMM, opcode=0x13)

unfoldable pub rv_addi : ℕ → ℕ → ℤ → ℕ
rv_addi rd rs1 imm = enc_i imm rs1 0 rd 0x13

unfoldable pub rv_andi : ℕ → ℕ → ℤ → ℕ
rv_andi rd rs1 imm = enc_i imm rs1 0x7 rd 0x13

unfoldable pub rv_ori : ℕ → ℕ → ℤ → ℕ
rv_ori rd rs1 imm = enc_i imm rs1 0x6 rd 0x13

unfoldable pub rv_xori : ℕ → ℕ → ℤ → ℕ
rv_xori rd rs1 imm = enc_i imm rs1 0x4 rd 0x13

unfoldable pub rv_slti : ℕ → ℕ → ℤ → ℕ
rv_slti rd rs1 imm = enc_i imm rs1 0x2 rd 0x13

unfoldable pub rv_sltiu : ℕ → ℕ → ℤ → ℕ
rv_sltiu rd rs1 imm = enc_i imm rs1 0x3 rd 0x13

unfoldable pub rv_slli : ℕ → ℕ → ℕ → ℕ
rv_slli rd rs1 shamt = enc_ish 0x00 shamt rs1 0x1 rd 0x13

unfoldable pub rv_srli : ℕ → ℕ → ℕ → ℕ
rv_srli rd rs1 shamt = enc_ish 0x00 shamt rs1 0x5 rd 0x13

unfoldable pub rv_srai : ℕ → ℕ → ℕ → ℕ
rv_srai rd rs1 shamt = enc_ish 0x20 shamt rs1 0x5 rd 0x13

-- Loads (LOAD, opcode=0x03)

unfoldable pub rv_lw : ℕ → ℕ → ℤ → ℕ
rv_lw rd rs1 imm = enc_i imm rs1 0x2 rd 0x03

unfoldable pub rv_lh : ℕ → ℕ → ℤ → ℕ
rv_lh rd rs1 imm = enc_i imm rs1 0x1 rd 0x03

unfoldable pub rv_lhu : ℕ → ℕ → ℤ → ℕ
rv_lhu rd rs1 imm = enc_i imm rs1 0x5 rd 0x03

unfoldable pub rv_lb : ℕ → ℕ → ℤ → ℕ
rv_lb rd rs1 imm = enc_i imm rs1 0 rd 0x03

unfoldable pub rv_lbu : ℕ → ℕ → ℤ → ℕ
rv_lbu rd rs1 imm = enc_i imm rs1 0x4 rd 0x03

-- Stores (STORE, opcode=0x23)

unfoldable pub rv_sw : ℕ → ℕ → ℤ → ℕ
rv_sw rs2 rs1 imm = enc_s imm rs2 rs1 0x2 0x23

unfoldable pub rv_sh : ℕ → ℕ → ℤ → ℕ
rv_sh rs2 rs1 imm = enc_s imm rs2 rs1 0x1 0x23

unfoldable pub rv_sb : ℕ → ℕ → ℤ → ℕ
rv_sb rs2 rs1 imm = enc_s imm rs2 rs1 0 0x23

-- Branches (BRANCH, opcode=0x63)

unfoldable pub rv_beq : ℕ → ℕ → ℤ → ℕ
rv_beq rs1 rs2 off = enc_b off rs1 rs2 0 0x63

unfoldable pub rv_bne : ℕ → ℕ → ℤ → ℕ
rv_bne rs1 rs2 off = enc_b off rs1 rs2 0x1 0x63

unfoldable pub rv_blt : ℕ → ℕ → ℤ → ℕ
rv_blt rs1 rs2 off = enc_b off rs1 rs2 0x4 0x63

unfoldable pub rv_bge : ℕ → ℕ → ℤ → ℕ
rv_bge rs1 rs2 off = enc_b off rs1 rs2 0x5 0x63

unfoldable pub rv_bltu : ℕ → ℕ → ℤ → ℕ
rv_bltu rs1 rs2 off = enc_b off rs1 rs2 0x6 0x63

unfoldable pub rv_bgeu : ℕ → ℕ → ℤ → ℕ
rv_bgeu rs1 rs2 off = enc_b off rs1 rs2 0x7 0x63

-- Jumps and upper immediates

unfoldable pub rv_jal : ℕ → ℤ → ℕ
rv_jal rd off = enc_j off rd 0x6F

unfoldable pub rv_jalr : ℕ → ℕ → ℤ → ℕ
rv_jalr rd rs1 imm = enc_i imm rs1 0 rd 0x67

unfoldable pub rv_lui : ℕ → ℕ → ℕ
rv_lui rd hi20 = enc_u hi20 rd 0x37

unfoldable pub rv_auipc : ℕ → ℕ → ℕ
rv_auipc rd hi20 = enc_u hi20 rd 0x17

-- M extension

unfoldable pub rv_mul : ℕ → ℕ → ℕ → ℕ
rv_mul rd rs1 rs2 = enc_r 0x01 rs2 rs1 0 rd 0x33

unfoldable pub rv_mulh : ℕ → ℕ → ℕ → ℕ
rv_mulh rd rs1 rs2 = enc_r 0x01 rs2 rs1 0x1 rd 0x33

unfoldable pub rv_mulhsu : ℕ → ℕ → ℕ → ℕ
rv_mulhsu rd rs1 rs2 = enc_r 0x01 rs2 rs1 0x2 rd 0x33

unfoldable pub rv_mulhu : ℕ → ℕ → ℕ → ℕ
rv_mulhu rd rs1 rs2 = enc_r 0x01 rs2 rs1 0x3 rd 0x33

unfoldable pub rv_div : ℕ → ℕ → ℕ → ℕ
rv_div rd rs1 rs2 = enc_r 0x01 rs2 rs1 0x4 rd 0x33

unfoldable pub rv_divu : ℕ → ℕ → ℕ → ℕ
rv_divu rd rs1 rs2 = enc_r 0x01 rs2 rs1 0x5 rd 0x33

unfoldable pub rv_rem : ℕ → ℕ → ℕ → ℕ
rv_rem rd rs1 rs2 = enc_r 0x01 rs2 rs1 0x6 rd 0x33

unfoldable pub rv_remu : ℕ → ℕ → ℕ → ℕ
rv_remu rd rs1 rs2 = enc_r 0x01 rs2 rs1 0x7 rd 0x33

-- System / synchronisation

unfoldable pub rv_ecall : ℕ
rv_ecall = 0x00000073

unfoldable pub rv_ebreak : ℕ
rv_ebreak = 0x00100073

unfoldable pub rv_unimp : ℕ
rv_unimp = 0xC0001073

unfoldable pub rv_fence : ℕ → ℕ → ℕ
rv_fence pre post = bit_or (bit_or (bit_and pre 0xf << 24) (bit_and post 0xf << 20)) 0x0f

unfoldable pub rv_nop : ℕ
rv_nop = rv_addi 0 0 (pos 0)

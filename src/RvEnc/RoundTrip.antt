-- ===== src/RvEnc/RoundTrip.antt =====
-- What the encoder of src/tensix/rv_enc.c writes, the decoder of the specification reads back.
use booth.Base.{
  ℕ, ◌*◌, ◌%◌, ◌^◌, ◌+◌, ◌<◌, ◌≡◌, refl, inl, inr, arith, some, ℤ, ==_ne, bit_or_add, bit_and_mask,
}
use booth.RvEnc.Format.{◌<<◌, ◌¦◌}
use booth.RvEnc.Ops
use booth.RvEnc.Instr.{
  AluOp, ImmOp, ShiftOp, StoreOp, BranchOp, UpperOp, Instr, alu, imm, shift, store, branch, upper,
  encode_alu, encode_imm, encode_shift, encode_store, encode_branch, encode_upper, encode,
}
use booth.RvEnc.Decode.{
  bits, alu_of, load_of, imm_of, shift_of, store_of, branch_of, decode_fields, decode,
}
use booth.RvEnc.Reads.{
  Fits, IsAligned, decode-enc_r, decode-enc_ish, decode-enc_i, decode-enc_s, decode-enc_b,
  decode-enc_j, decode-enc_u,
}

-- What the instruction selector has to see to before it calls the encoder, which masks.
abbrev pub IsEncodable : Instr → Type 0
IsEncodable (alu o rd rs1 rs2) = (rd < 32) × (rs1 < 32) × (rs2 < 32)
IsEncodable (imm o rd rs1 i) = (rd < 32) × (rs1 < 32) × Fits 12 i
IsEncodable (shift o rd rs1 shamt) = (rd < 32) × (rs1 < 32) × (shamt < 32)
IsEncodable (store o rs2 rs1 i) = (rs2 < 32) × (rs1 < 32) × Fits 12 i
IsEncodable (branch o rs1 rs2 i) = (rs1 < 32) × (rs2 < 32) × Fits 13 i × IsAligned i
IsEncodable (upper o rd hi20) = (rd < 32) × (hi20 < 2 ^ 20)
IsEncodable (Instr.jal rd i) = (rd < 32) × Fits 21 i × IsAligned i
IsEncodable (Instr.fence pre post) = (pre < 16) × (post < 16)
IsEncodable _ = Unit {0}

decode-encode_alu :
    (o : AluOp) (rd rs1 rs2 : ℕ)
    → rd < 32
    → rs1 < 32
    → rs2 < 32
    → decode (encode_alu o rd rs1 rs2) ≡ some (alu o rd rs1 rs2)
unfolding encode_alu alu_of Ops.rv_add Ops.rv_sub Ops.rv_and Ops.rv_or Ops.rv_xor Ops.rv_sll
    Ops.rv_srl Ops.rv_sra Ops.rv_slt Ops.rv_sltu Ops.rv_mul Ops.rv_mulh Ops.rv_mulhsu Ops.rv_mulhu
    Ops.rv_div Ops.rv_divu Ops.rv_rem Ops.rv_remu
decode-encode_alu AluOp.add rd rs1 rs2 hd h1 h2 =
    decode-enc_r rs1 0 h1 (omega arith) 0 rs2 rd (omega arith) h2 hd
decode-encode_alu AluOp.sub rd rs1 rs2 hd h1 h2 =
    decode-enc_r rs1 0 h1 (omega arith) 32 rs2 rd (omega arith) h2 hd
decode-encode_alu AluOp.and rd rs1 rs2 hd h1 h2 =
    decode-enc_r rs1 7 h1 (omega arith) 0 rs2 rd (omega arith) h2 hd
decode-encode_alu AluOp.or rd rs1 rs2 hd h1 h2 =
    decode-enc_r rs1 6 h1 (omega arith) 0 rs2 rd (omega arith) h2 hd
decode-encode_alu AluOp.xor rd rs1 rs2 hd h1 h2 =
    decode-enc_r rs1 4 h1 (omega arith) 0 rs2 rd (omega arith) h2 hd
decode-encode_alu AluOp.sll rd rs1 rs2 hd h1 h2 =
    decode-enc_r rs1 1 h1 (omega arith) 0 rs2 rd (omega arith) h2 hd
decode-encode_alu AluOp.srl rd rs1 rs2 hd h1 h2 =
    decode-enc_r rs1 5 h1 (omega arith) 0 rs2 rd (omega arith) h2 hd
decode-encode_alu AluOp.sra rd rs1 rs2 hd h1 h2 =
    decode-enc_r rs1 5 h1 (omega arith) 32 rs2 rd (omega arith) h2 hd
decode-encode_alu AluOp.slt rd rs1 rs2 hd h1 h2 =
    decode-enc_r rs1 2 h1 (omega arith) 0 rs2 rd (omega arith) h2 hd
decode-encode_alu AluOp.sltu rd rs1 rs2 hd h1 h2 =
    decode-enc_r rs1 3 h1 (omega arith) 0 rs2 rd (omega arith) h2 hd
decode-encode_alu AluOp.mul rd rs1 rs2 hd h1 h2 =
    decode-enc_r rs1 0 h1 (omega arith) 1 rs2 rd (omega arith) h2 hd
decode-encode_alu AluOp.mulh rd rs1 rs2 hd h1 h2 =
    decode-enc_r rs1 1 h1 (omega arith) 1 rs2 rd (omega arith) h2 hd
decode-encode_alu AluOp.mulhsu rd rs1 rs2 hd h1 h2 =
    decode-enc_r rs1 2 h1 (omega arith) 1 rs2 rd (omega arith) h2 hd
decode-encode_alu AluOp.mulhu rd rs1 rs2 hd h1 h2 =
    decode-enc_r rs1 3 h1 (omega arith) 1 rs2 rd (omega arith) h2 hd
decode-encode_alu AluOp.div rd rs1 rs2 hd h1 h2 =
    decode-enc_r rs1 4 h1 (omega arith) 1 rs2 rd (omega arith) h2 hd
decode-encode_alu AluOp.divu rd rs1 rs2 hd h1 h2 =
    decode-enc_r rs1 5 h1 (omega arith) 1 rs2 rd (omega arith) h2 hd
decode-encode_alu AluOp.rem rd rs1 rs2 hd h1 h2 =
    decode-enc_r rs1 6 h1 (omega arith) 1 rs2 rd (omega arith) h2 hd
decode-encode_alu AluOp.remu rd rs1 rs2 hd h1 h2 =
    decode-enc_r rs1 7 h1 (omega arith) 1 rs2 rd (omega arith) h2 hd

decode-encode_imm :
    (o : ImmOp) (rd rs1 : ℕ) (i : ℤ)
    → rd < 32
    → rs1 < 32
    → Fits 12 i
    → decode (encode_imm o rd rs1 i) ≡ some (imm o rd rs1 i)
unfolding encode_imm imm_of load_of decode_fields Ops.rv_addi Ops.rv_andi Ops.rv_ori Ops.rv_xori
    Ops.rv_slti Ops.rv_sltiu Ops.rv_lw Ops.rv_lh Ops.rv_lhu Ops.rv_lb Ops.rv_lbu Ops.rv_jalr
decode-encode_imm ImmOp.addi rd rs1 i hd h1 fits =
    decode-enc_i rs1 0 h1 (omega arith) i rd 0x13 fits hd (omega arith) (omega arith) (omega arith)
decode-encode_imm ImmOp.andi rd rs1 i hd h1 fits =
    decode-enc_i rs1 7 h1 (omega arith) i rd 0x13 fits hd (omega arith) (omega arith) (omega arith)
decode-encode_imm ImmOp.ori rd rs1 i hd h1 fits =
    decode-enc_i rs1 6 h1 (omega arith) i rd 0x13 fits hd (omega arith) (omega arith) (omega arith)
decode-encode_imm ImmOp.xori rd rs1 i hd h1 fits =
    decode-enc_i rs1 4 h1 (omega arith) i rd 0x13 fits hd (omega arith) (omega arith) (omega arith)
decode-encode_imm ImmOp.slti rd rs1 i hd h1 fits =
    decode-enc_i rs1 2 h1 (omega arith) i rd 0x13 fits hd (omega arith) (omega arith) (omega arith)
decode-encode_imm ImmOp.sltiu rd rs1 i hd h1 fits =
    decode-enc_i rs1 3 h1 (omega arith) i rd 0x13 fits hd (omega arith) (omega arith) (omega arith)
decode-encode_imm ImmOp.lw rd rs1 i hd h1 fits =
    decode-enc_i rs1 2 h1 (omega arith) i rd 0x03 fits hd (omega arith) (omega arith) (omega arith)
decode-encode_imm ImmOp.lh rd rs1 i hd h1 fits =
    decode-enc_i rs1 1 h1 (omega arith) i rd 0x03 fits hd (omega arith) (omega arith) (omega arith)
decode-encode_imm ImmOp.lhu rd rs1 i hd h1 fits =
    decode-enc_i rs1 5 h1 (omega arith) i rd 0x03 fits hd (omega arith) (omega arith) (omega arith)
decode-encode_imm ImmOp.lb rd rs1 i hd h1 fits =
    decode-enc_i rs1 0 h1 (omega arith) i rd 0x03 fits hd (omega arith) (omega arith) (omega arith)
decode-encode_imm ImmOp.lbu rd rs1 i hd h1 fits =
    decode-enc_i rs1 4 h1 (omega arith) i rd 0x03 fits hd (omega arith) (omega arith) (omega arith)
decode-encode_imm ImmOp.jalr rd rs1 i hd h1 fits =
    decode-enc_i rs1 0 h1 (omega arith) i rd 0x67 fits hd (omega arith) (omega arith) (omega arith)

decode-encode_shift :
    (o : ShiftOp) (rd rs1 shamt : ℕ)
    → rd < 32
    → rs1 < 32
    → shamt < 32
    → decode (encode_shift o rd rs1 shamt) ≡ some (shift o rd rs1 shamt)
unfolding encode_shift shift_of Ops.rv_slli Ops.rv_srli Ops.rv_srai
decode-encode_shift ShiftOp.slli rd rs1 shamt hd h1 hs =
    decode-enc_ish rs1 1 h1 (omega arith) 0 shamt rd (omega arith) hs hd (inl refl)
decode-encode_shift ShiftOp.srli rd rs1 shamt hd h1 hs =
    decode-enc_ish rs1 5 h1 (omega arith) 0 shamt rd (omega arith) hs hd (inr refl)
decode-encode_shift ShiftOp.srai rd rs1 shamt hd h1 hs =
    decode-enc_ish rs1 5 h1 (omega arith) 32 shamt rd (omega arith) hs hd (inr refl)

decode-encode_store :
    (o : StoreOp) (rs2 rs1 : ℕ) (i : ℤ)
    → rs2 < 32
    → rs1 < 32
    → Fits 12 i
    → decode (encode_store o rs2 rs1 i) ≡ some (store o rs2 rs1 i)
unfolding encode_store store_of Ops.rv_sw Ops.rv_sh Ops.rv_sb
decode-encode_store StoreOp.sw rs2 rs1 i h2 h1 fits =
    decode-enc_s rs1 2 h1 (omega arith) i rs2 fits h2
decode-encode_store StoreOp.sh rs2 rs1 i h2 h1 fits =
    decode-enc_s rs1 1 h1 (omega arith) i rs2 fits h2
decode-encode_store StoreOp.sb rs2 rs1 i h2 h1 fits =
    decode-enc_s rs1 0 h1 (omega arith) i rs2 fits h2

decode-encode_branch :
    (o : BranchOp) (rs1 rs2 : ℕ) (i : ℤ)
    → rs1 < 32
    → rs2 < 32
    → Fits 13 i
    → IsAligned i
    → decode (encode_branch o rs1 rs2 i) ≡ some (branch o rs1 rs2 i)
unfolding encode_branch branch_of Ops.rv_beq Ops.rv_bne Ops.rv_blt Ops.rv_bge Ops.rv_bltu
    Ops.rv_bgeu
decode-encode_branch BranchOp.beq rs1 rs2 i h1 h2 fits even =
    decode-enc_b rs1 0 h1 (omega arith) i rs2 fits even h2
decode-encode_branch BranchOp.bne rs1 rs2 i h1 h2 fits even =
    decode-enc_b rs1 1 h1 (omega arith) i rs2 fits even h2
decode-encode_branch BranchOp.blt rs1 rs2 i h1 h2 fits even =
    decode-enc_b rs1 4 h1 (omega arith) i rs2 fits even h2
decode-encode_branch BranchOp.bge rs1 rs2 i h1 h2 fits even =
    decode-enc_b rs1 5 h1 (omega arith) i rs2 fits even h2
decode-encode_branch BranchOp.bltu rs1 rs2 i h1 h2 fits even =
    decode-enc_b rs1 6 h1 (omega arith) i rs2 fits even h2
decode-encode_branch BranchOp.bgeu rs1 rs2 i h1 h2 fits even =
    decode-enc_b rs1 7 h1 (omega arith) i rs2 fits even h2

rv_fence-sum :
    (pre post : ℕ)
    → pre < 16
    → post < 16
    → Ops.rv_fence pre post ≡ pre * 2 ^ 24 + post * 2 ^ 20 + 0x0f
unfolding Ops.rv_fence
rv_fence-sum pre post hp hs =
    let s : ((pre % 2 ^ 4) << 24 ¦ (post % 2 ^ 4) << 20) ≡ pre * 2 ^ 24 + post * 2 ^ 20 = omega (
      arith,
      bit_or_add 24 ((pre % 2 ^ 4) << 24) ((post % 2 ^ 4) << 20) (omega arith) (omega arith),
    ) in
    rw (bit_and_mask 4 pre, bit_and_mask 4 post, s)
      (bit_or_add 20 (pre * 2 ^ 24 + post * 2 ^ 20) 0x0f (omega arith) (omega arith))

decode-rv_fence :
    (pre post : ℕ)
    → pre < 16
    → post < 16
    → decode (Ops.rv_fence pre post) ≡ some (Instr.fence pre post)
unfolding decode
decode-rv_fence pre post hp hs =
    let w = pre * 2 ^ 24 + post * 2 ^ 20 + 0x0f in
    let lower : bits w 0 20 ≡ 0x0f = omega arith in
    let fm : bits w 28 4 ≡ 0 = omega arith in
    let f_pre : bits w 24 4 ≡ pre = omega arith in
    let f_post : bits w 20 4 ≡ post = omega arith in
    rw (
      rv_fence-sum pre post hp hs,
      ==_ne w 0x00000073 (omega arith),
      ==_ne w 0x00100073 (omega arith),
      ==_ne w 0xC0001073 (omega arith),
      lower,
      fm,
      f_pre,
      f_post,
    )

-- Every instruction whose registers and immediates fit their fields, encoded by its rv_
-- function and decoded by the tables of the specification, is itself: no field overlaps
-- another, and the scattered branch and jump immediates come together again.
pub decode-encode : (i : Instr) → IsEncodable i → decode (encode i) ≡ some i
unfolding encode
decode-encode (alu o rd rs1 rs2) h = decode-encode_alu o rd rs1 rs2 h.0 h.1 h.2
decode-encode (imm o rd rs1 i) h = decode-encode_imm o rd rs1 i h.0 h.1 h.2
decode-encode (shift o rd rs1 shamt) h = decode-encode_shift o rd rs1 shamt h.0 h.1 h.2
decode-encode (store o rs2 rs1 i) h = decode-encode_store o rs2 rs1 i h.0 h.1 h.2
decode-encode (branch o rs1 rs2 i) h = decode-encode_branch o rs1 rs2 i h.0 h.1 h.2 h.3
decode-encode (upper UpperOp.lui rd hi20) h =
    unfold encode_upper Ops.rv_lui decode_fields in decode-enc_u hi20 rd 0x37 h.1 h.0 (inl refl)
decode-encode (upper UpperOp.auipc rd hi20) h =
    unfold encode_upper Ops.rv_auipc decode_fields in decode-enc_u hi20 rd 0x17 h.1 h.0 (inr refl)
decode-encode (Instr.jal rd i) h = unfold Ops.rv_jal in decode-enc_j i rd h.1 h.2 h.0
decode-encode (Instr.fence pre post) h = decode-rv_fence pre post h.0 h.1
decode-encode Instr.ecall h = unfold Ops.rv_ecall decode in refl
decode-encode Instr.ebreak h = unfold Ops.rv_ebreak decode in refl
decode-encode Instr.unimp h = unfold Ops.rv_unimp decode in refl

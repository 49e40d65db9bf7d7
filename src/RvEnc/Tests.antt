-- ===== src/RvEnc/Tests.antt =====
-- The encoder at words that the toolchains print, and the theorems at concrete instructions.
use booth.Base.{◌≡◌, refl, arith, some, pos, negsuc}
use booth.RvEnc.Format.{enc_r, enc_i, enc_s, enc_b, enc_u, enc_j}
use booth.RvEnc.Ops.{rv_add, rv_addi, rv_sw, rv_beq, rv_jal, rv_lui, rv_fence, rv_nop, rv_mul}
use booth.RvEnc.Instr.{Instr, branch, BranchOp, encode}
use booth.RvEnc.Decode.{decode}
use booth.RvEnc.RoundTrip.{decode-encode}

words :
    (rv_add 1 2 3 ≡ 0x003100B3)
    × (rv_addi 2 2 (negsuc 15) ≡ 0xFF010113)
    × (rv_sw 1 2 (pos 12) ≡ 0x00112623)
    × (rv_beq 0 0 (negsuc 3) ≡ 0xFE000EE3)
    × (rv_jal 0 (negsuc 3) ≡ 0xFFDFF06F)
    × (rv_lui 5 0x12345 ≡ 0x123452B7)
    × (rv_fence 15 15 ≡ 0x0FF0000F)
    × (rv_nop ≡ 0x00000013)
    × (rv_mul 10 11 12 ≡ 0x02C58533)
unfolding rv_add rv_addi rv_sw rv_beq rv_jal rv_lui rv_fence rv_nop rv_mul enc_r enc_i enc_s enc_b
    enc_u enc_j
words = (refl, refl, refl, refl, refl, refl, refl, refl, refl)

abbrev back_branch : Instr
back_branch = branch BranchOp.bne 7 30 (negsuc 4093)

decode-encode_example : decode (encode back_branch) ≡ some back_branch
decode-encode_example = decode-encode back_branch (omega arith)

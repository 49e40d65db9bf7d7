-- ===== src/RvEnc/Reads.antt =====
-- The decoder on each format of src/tensix/rv_enc.c: fields and immediates come back.
use mathlib.Core.Option
use booth.Base.{
  ℕ, ◌+◌, ◌-◌, ◌*◌, ◌/◌, ◌%◌, ◌^◌, ◌<◌, ◌≡◌, ◌≢◌, ◌⊎◌, refl, ap, ◌∙◌, arith, ==_ne, some, ℤ, pos,
  negsuc, ◌≤ℤ◌, to_u32, signed,
}
use booth.RvEnc.Format.{enc_r, enc_i, enc_ish, enc_s, enc_b, enc_u, enc_j}
use booth.RvEnc.Fields.{
  enc_r-sum, enc_ish-sum, enc_i-sum, enc_s-sum, enc_b-sum, enc_j-sum, enc_u-sum,
}
use booth.RvEnc.Instr.{Instr, alu, shift, store, branch}
use booth.RvEnc.Decode.{
  bits, imm_i, imm_s, imm_b, imm_j, Fields, fields, alu_of, shift_of, store_of, branch_of,
  decode_fields, decode,
}

decode_major :
    (w : ℕ) (f : Fields)
    → fields w ≡ f
    → f.opcode ≢ 0x73
    → f.opcode ≢ 0x0f
    → decode w ≡ decode_fields f (imm_i w) (imm_s w) (imm_b w) (imm_j w) (bits w 12 20)
unfolding decode
decode_major w f e system misc =
    let major : bits w 0 7 ≡ f.opcode = ap (λ (r : Fields). r.opcode) e in
    rw
      (
        ==_ne w 0x00000073 (omega arith),
        ==_ne w 0x00100073 (omega arith),
        ==_ne w 0xC0001073 (omega arith),
        ==_ne (bits w 0 20) 0x0f (omega arith),
      )
      (ap (λ (r : Fields). decode_fields r (imm_i w) (imm_s w) (imm_b w) (imm_j w) (bits w 12 20))
        e)

-- A `w`-bit signed field holds the integer.
abbrev pub Fits : ℕ → ℤ → Type 0
Fits w i = (negsuc (2 ^ (w - 1) - 1) ≤ℤ i) × (i ≤ℤ pos (2 ^ (w - 1) - 1))

-- Branch and jump targets are 2-byte aligned.
abbrev pub IsAligned : ℤ → Type 0
IsAligned i = to_u32 i % 2 ≡ 0

signed_12 : (i : ℤ) → Fits 12 i → signed 12 (to_u32 i % 2 ^ 12) ≡ i
signed_12 i h = ground arith

signed_13 : (i : ℤ) → Fits 13 i → signed 13 (to_u32 i % 2 ^ 13) ≡ i
signed_13 i h = ground arith

signed_21 : (i : ℤ) → Fits 21 i → signed 21 (to_u32 i % 2 ^ 21) ≡ i
signed_21 i h = ground arith

-- The decoder with one immediate named, at a word of a given format.
module _ (w : ℕ) (f : Fields) (e : fields w ≡ f) (system : f.opcode ≢ 0x73)
    (misc : f.opcode ≢ 0x0f) where
  decode_imm :
      (i s b j : ℤ)
      → imm_i w ≡ i
      → imm_s w ≡ s
      → imm_b w ≡ b
      → imm_j w ≡ j
      → decode w ≡ decode_fields f i s b j (bits w 12 20)
  decode_imm i s b j hi hs hb hj = rw (← hi, ← hs, ← hb, ← hj) (decode_major w f e system misc)

module _ (rs1 f3 : ℕ) (h1 : rs1 < 32) (h3 : f3 < 8) where
  pub decode-enc_r :
      (f7 rs2 rd : ℕ)
      → f7 < 128
      → rs2 < 32
      → rd < 32
      → decode (enc_r f7 rs2 rs1 f3 rd 0x33) ≡ Option.map (λ o. alu o rd rs1 rs2) (alu_of f7 f3)
  unfolding decode_fields
  decode-enc_r f7 rs2 rd h7 h2 hd =
      decode_major (enc_r f7 rs2 rs1 f3 rd 0x33)
        (record { opcode = 0x33; rd = rd; f3 = f3; rs1 = rs1; rs2 = rs2; f7 = f7 })
        (ground (arith, enc_r-sum f7 rs2 rs1 f3 rd 0x33)) (omega arith) (omega arith)

  pub decode-enc_ish :
      (f7 shamt rd : ℕ)
      → f7 < 128
      → shamt < 32
      → rd < 32
      → (f3 ≡ 1) ⊎ (f3 ≡ 5)
      → decode (enc_ish f7 shamt rs1 f3 rd 0x13)
        ≡ Option.map (λ o. shift o rd rs1 shamt) (shift_of f7 f3)
  unfolding decode_fields
  decode-enc_ish f7 shamt rd h7 h2 hd which =
      let w = enc_r f7 shamt rs1 f3 rd 0x13 in
      rw (enc_ish-sum f7 shamt rs1 f3 rd 0x13) (
        decode_major w (record { opcode = 0x13; rd = rd; f3 = f3; rs1 = rs1; rs2 = shamt; f7 = f7 })
          (ground (arith, enc_r-sum f7 shamt rs1 f3 rd 0x13)) (omega arith) (omega arith)
        ∙ ground arith)

  pub decode-enc_i :
      (i : ℤ) (rd op : ℕ)
      → Fits 12 i
      → rd < 32
      → op < 128
      → op ≢ 0x73
      → op ≢ 0x0f
      → let w = enc_i i rs1 f3 rd op in
        decode w
        ≡ decode_fields
            (record {
              opcode = op;
              rd = rd;
              f3 = f3;
              rs1 = rs1;
              rs2 = to_u32 i % 2 ^ 5;
              f7 = to_u32 i / 2 ^ 5 % 2 ^ 7;
            })
            i
            (imm_s w)
            (imm_b w)
            (imm_j w)
            (bits w 12 20)
  decode-enc_i i rd op fits hd ho system misc =
      let w = enc_i i rs1 f3 rd op in
      let field : bits w 20 12 ≡ to_u32 i % 2 ^ 12 = omega (arith, enc_i-sum i rs1 f3 rd op) in
      decode_imm w _ (ground (arith, enc_i-sum i rs1 f3 rd op)) (omega arith) (omega arith) i
        (imm_s w) (imm_b w) (imm_j w) (ap (signed 12) field ∙ signed_12 i fits) refl refl refl

  pub decode-enc_s :
      (i : ℤ) (rs2 : ℕ)
      → Fits 12 i
      → rs2 < 32
      → decode (enc_s i rs2 rs1 f3 0x23) ≡ Option.map (λ o. store o rs2 rs1 i) (store_of f3)
  unfolding decode_fields
  decode-enc_s i rs2 fits h2 =
      let w = enc_s i rs2 rs1 f3 0x23 in
      let sum = enc_s-sum i rs2 rs1 f3 0x23 in
      let field : bits w 25 7 * 2 ^ 5 + bits w 7 5 ≡ to_u32 i % 2 ^ 12 = omega (arith, sum) in
      decode_imm w
        (record {
          opcode = 0x23;
          rd = to_u32 i % 2 ^ 5;
          f3 = f3;
          rs1 = rs1;
          rs2 = rs2;
          f7 = to_u32 i / 2 ^ 5 % 2 ^ 7;
        })
        (ground (arith, sum)) (omega arith) (omega arith) (imm_i w) i (imm_b w) (imm_j w) refl
        (ap (signed 12) field ∙ signed_12 i fits) refl refl

  pub decode-enc_b :
      (i : ℤ) (rs2 : ℕ)
      → Fits 13 i
      → IsAligned i
      → rs2 < 32
      → decode (enc_b i rs1 rs2 f3 0x63) ≡ Option.map (λ o. branch o rs1 rs2 i) (branch_of f3)
  unfolding decode_fields
  decode-enc_b i rs2 fits even h2 =
      let w = enc_b i rs1 rs2 f3 0x63 in
      let sum = enc_b-sum i rs1 rs2 f3 0x63 in
      let field : bits w 31 1 * 2 ^ 12 + bits w 7 1 * 2 ^ 11 + bits w 25 6 * 2 ^ 5 + bits w 8 4 * 2
          ≡ to_u32 i % 2 ^ 13 =
        omega (arith, sum) in
      decode_imm w
        (record { opcode = 0x63; rd = bits w 7 5; f3 = f3; rs1 = rs1; rs2 = rs2; f7 = bits w 25 7 })
        (ground (arith, sum)) (omega arith) (omega arith) (imm_i w) (imm_s w) i (imm_j w) refl refl
        (ap (signed 13) field ∙ signed_13 i fits) refl

pub decode-enc_j :
    (i : ℤ) (rd : ℕ)
    → Fits 21 i
    → IsAligned i
    → rd < 32
    → decode (enc_j i rd 0x6f) ≡ some (Instr.jal rd i)
unfolding decode_fields
decode-enc_j i rd fits even hd =
    let w = enc_j i rd 0x6f in
    let sum = enc_j-sum i rd 0x6f in
    let field : bits w 31 1 * 2 ^ 20
          + bits w 12 8 * 2 ^ 12
          + bits w 20 1 * 2 ^ 11
          + bits w 21 10 * 2
        ≡ to_u32 i % 2 ^ 21 =
      omega (arith, sum) in
    decode_imm w
      (record {
        opcode = 0x6f;
        rd = rd;
        f3 = bits w 12 3;
        rs1 = bits w 15 5;
        rs2 = bits w 20 5;
        f7 = bits w 25 7;
      })
      (ground (arith, sum)) (omega arith) (omega arith) (imm_i w) (imm_s w) (imm_b w) i refl refl
      refl (ap (signed 21) field ∙ signed_21 i fits)

pub decode-enc_u :
    (hi20 rd op : ℕ)
    → hi20 < 2 ^ 20
    → rd < 32
    → (op ≡ 0x37) ⊎ (op ≡ 0x17)
    → let w = enc_u hi20 rd op in
      decode w
      ≡ decode_fields
          (record {
            opcode = op;
            rd = rd;
            f3 = bits w 12 3;
            rs1 = bits w 15 5;
            rs2 = bits w 20 5;
            f7 = bits w 25 7;
          })
          (imm_i w)
          (imm_s w)
          (imm_b w)
          (imm_j w)
          hi20
decode-enc_u hi20 rd op hh hd which =
    let w = enc_u hi20 rd op in
    let sum = enc_u-sum hi20 rd op in
    let f : Fields = record {
      opcode = op;
      rd = rd;
      f3 = bits w 12 3;
      rs1 = bits w 15 5;
      rs2 = bits w 20 5;
      f7 = bits w 25 7;
    } in
    let field : bits w 12 20 ≡ hi20 = omega (arith, sum) in
    decode_major w f (ground (arith, sum)) (omega arith) (omega arith)
    ∙ ap (λ h. decode_fields f (imm_i w) (imm_s w) (imm_b w) (imm_j w) h) field

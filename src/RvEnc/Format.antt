-- ===== src/RvEnc/Format.antt =====
-- The format helpers of src/tensix/rv_enc.c, one for each encoding shape. A `uint8_t` or
-- `uint32_t` is a number, an `int16_t` or `int32_t` the integer that it stands for.
use booth.Base.{ℕ, ◌*◌, ◌/◌, ◌%◌, ◌^◌, bit_and, bit_or, ℤ, to_u32}

-- `<<` on `uint32_t`.
infixl 72 ◌<<◌
abbrev pub ◌<<◌ : ℕ → ℕ → ℕ
x << k = x * 2 ^ k % 2 ^ 32

infixl 72 ◌>>◌
abbrev pub ◌>>◌ : ℕ → ℕ → ℕ
x >> k = x / 2 ^ k

infixl 45 ◌¦◌
abbrev pub ◌¦◌ : ℕ → ℕ → ℕ
a ¦ b = bit_or a b

infixl 60 ◌&◌
abbrev pub ◌&◌ : ℕ → ℕ → ℕ
a & b = bit_and a b

unfoldable pub enc_r : ℕ → ℕ → ℕ → ℕ → ℕ → ℕ → ℕ
enc_r f7 rs2 rs1 f3 rd op =
    (f7 & 0x7f) << 25
    ¦ (rs2 & 0x1f) << 20
    ¦ (rs1 & 0x1f) << 15
    ¦ (f3 & 0x7) << 12
    ¦ (rd & 0x1f) << 7
    ¦ (op & 0x7f)

unfoldable pub enc_i : ℤ → ℕ → ℕ → ℕ → ℕ → ℕ
enc_i imm rs1 f3 rd op =
    (to_u32 imm & 0xfff) << 20
    ¦ (rs1 & 0x1f) << 15
    ¦ (f3 & 0x7) << 12
    ¦ (rd & 0x1f) << 7
    ¦ (op & 0x7f)

unfoldable pub enc_ish : ℕ → ℕ → ℕ → ℕ → ℕ → ℕ → ℕ
enc_ish f7 shamt rs1 f3 rd op =
    (f7 & 0x7f) << 25
    ¦ (shamt & 0x1f) << 20
    ¦ (rs1 & 0x1f) << 15
    ¦ (f3 & 0x7) << 12
    ¦ (rd & 0x1f) << 7
    ¦ (op & 0x7f)

unfoldable pub enc_s : ℤ → ℕ → ℕ → ℕ → ℕ → ℕ
enc_s imm rs2 rs1 f3 op =
    let u = to_u32 imm & 0xfff in
    u >> 5 << 25
    ¦ (rs2 & 0x1f) << 20
    ¦ (rs1 & 0x1f) << 15
    ¦ (f3 & 0x7) << 12
    ¦ (u & 0x1f) << 7
    ¦ (op & 0x7f)

unfoldable pub enc_b : ℤ → ℕ → ℕ → ℕ → ℕ → ℕ
enc_b offset rs1 rs2 f3 op =
    let u = to_u32 offset & 0x1fff in
    let b12 = u >> 12 & 0x1 in
    let b11 = u >> 11 & 0x1 in
    let b10_5 = u >> 5 & 0x3f in
    let b4_1 = u >> 1 & 0xf in
    b12 << 31
    ¦ b10_5 << 25
    ¦ (rs2 & 0x1f) << 20
    ¦ (rs1 & 0x1f) << 15
    ¦ (f3 & 0x7) << 12
    ¦ b4_1 << 8
    ¦ b11 << 7
    ¦ (op & 0x7f)

unfoldable pub enc_u : ℕ → ℕ → ℕ → ℕ
enc_u imm_hi20 rd op = (imm_hi20 & 0xfffff) << 12 ¦ (rd & 0x1f) << 7 ¦ (op & 0x7f)

unfoldable pub enc_j : ℤ → ℕ → ℕ → ℕ
enc_j offset rd op =
    let u = to_u32 offset & 0x1fffff in
    let b20 = u >> 20 & 0x1 in
    let b19_12 = u >> 12 & 0xff in
    let b11 = u >> 11 & 0x1 in
    let b10_1 = u >> 1 & 0x3ff in
    b20 << 31 ¦ b10_1 << 21 ¦ b11 << 20 ¦ b19_12 << 12 ¦ (rd & 0x1f) << 7 ¦ (op & 0x7f)

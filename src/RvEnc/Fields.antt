-- ===== src/RvEnc/Fields.antt =====
-- The formats as sums of shifted fields: the words that the `|` chains of src/tensix/rv_enc.c build.
use booth.Base.{
  ℕ, ◌+◌, ◌*◌, ◌/◌, ◌%◌, ◌^◌, ◌<◌, ◌≡◌, refl, ◌∙◌, arith, bit_or_add, bit_and_mask, ℤ, to_u32,
}
use booth.RvEnc.Format.{◌<<◌, ◌¦◌, enc_r, enc_i, enc_ish, enc_s, enc_b, enc_u, enc_j}

-- The layout that R, S and the shifts share.
six_fields :
    (a b c d e f : ℕ)
    → a < 128
    → b < 32
    → c < 32
    → d < 8
    → e < 32
    → f < 128
    → (a << 25 ¦ b << 20 ¦ c << 15 ¦ d << 12 ¦ e << 7 ¦ f)
      ≡ a * 2 ^ 25 + b * 2 ^ 20 + c * 2 ^ 15 + d * 2 ^ 12 + e * 2 ^ 7 + f
six_fields a b c d e f ha hb hc hd he hf =
    let s₁ : (a << 25 ¦ b << 20) ≡ a * 2 ^ 25 + b * 2 ^ 20 =
      omega (arith, bit_or_add 25 (a << 25) (b << 20) (omega arith) (omega arith)) in
    let t₁ = a * 2 ^ 25 + b * 2 ^ 20 in
    let s₂ : (t₁ ¦ c << 15) ≡ t₁ + c * 2 ^ 15 =
      omega (arith, bit_or_add 20 t₁ (c << 15) (omega arith) (omega arith)) in
    let t₂ = t₁ + c * 2 ^ 15 in
    let s₃ : (t₂ ¦ d << 12) ≡ t₂ + d * 2 ^ 12 =
      omega (arith, bit_or_add 15 t₂ (d << 12) (omega arith) (omega arith)) in
    let t₃ = t₂ + d * 2 ^ 12 in
    let s₄ : (t₃ ¦ e << 7) ≡ t₃ + e * 2 ^ 7 =
      omega (arith, bit_or_add 12 t₃ (e << 7) (omega arith) (omega arith)) in
    rw (s₁, s₂, s₃, s₄) (bit_or_add 7 (t₃ + e * 2 ^ 7) f (omega arith) (omega arith))

pub enc_r-sum :
    (f7 rs2 rs1 f3 rd op : ℕ)
    → enc_r f7 rs2 rs1 f3 rd op
      ≡ f7 % 2 ^ 7 * 2 ^ 25
        + rs2 % 2 ^ 5 * 2 ^ 20
        + rs1 % 2 ^ 5 * 2 ^ 15
        + f3 % 2 ^ 3 * 2 ^ 12
        + rd % 2 ^ 5 * 2 ^ 7
        + op % 2 ^ 7
unfolding enc_r
enc_r-sum f7 rs2 rs1 f3 rd op =
    rw
      (
        bit_and_mask 7 f7,
        bit_and_mask 5 rs2,
        bit_and_mask 5 rs1,
        bit_and_mask 3 f3,
        bit_and_mask 5 rd,
        bit_and_mask 7 op,
      )
      (six_fields (f7 % 2 ^ 7) (rs2 % 2 ^ 5) (rs1 % 2 ^ 5) (f3 % 2 ^ 3) (rd % 2 ^ 5) (op % 2 ^ 7)
        (omega arith) (omega arith) (omega arith) (omega arith) (omega arith) (omega arith))

i_fields :
    (a c d e f : ℕ)
    → a < 4096
    → c < 32
    → d < 8
    → e < 32
    → f < 128
    → (a << 20 ¦ c << 15 ¦ d << 12 ¦ e << 7 ¦ f)
      ≡ a * 2 ^ 20 + c * 2 ^ 15 + d * 2 ^ 12 + e * 2 ^ 7 + f
i_fields a c d e f ha hc hd he hf =
    let s₁ : (a << 20 ¦ c << 15) ≡ a * 2 ^ 20 + c * 2 ^ 15 =
      omega (arith, bit_or_add 20 (a << 20) (c << 15) (omega arith) (omega arith)) in
    let t₁ = a * 2 ^ 20 + c * 2 ^ 15 in
    let s₂ : (t₁ ¦ d << 12) ≡ t₁ + d * 2 ^ 12 =
      omega (arith, bit_or_add 15 (t₁) (d << 12) (omega arith) (omega arith)) in
    let t₂ = t₁ + d * 2 ^ 12 in
    let s₃ : (t₂ ¦ e << 7) ≡ t₂ + e * 2 ^ 7 =
      omega (arith, bit_or_add 12 (t₂) (e << 7) (omega arith) (omega arith)) in
    let t₃ = t₂ + e * 2 ^ 7 in rw (s₁, s₂, s₃) (bit_or_add 7 t₃ f (omega arith) (omega arith))

b_fields :
    (a b c d e f g h : ℕ)
    → a < 2
    → b < 64
    → c < 32
    → d < 32
    → e < 8
    → f < 16
    → g < 2
    → h < 128
    → (a << 31 ¦ b << 25 ¦ c << 20 ¦ d << 15 ¦ e << 12 ¦ f << 8 ¦ g << 7 ¦ h)
      ≡ a * 2 ^ 31 + b * 2 ^ 25 + c * 2 ^ 20 + d * 2 ^ 15 + e * 2 ^ 12 + f * 2 ^ 8 + g * 2 ^ 7 + h
b_fields a b c d e f g h ha hb hc hd he hf hg hh =
    let s₁ : (a << 31 ¦ b << 25) ≡ a * 2 ^ 31 + b * 2 ^ 25 =
      omega (arith, bit_or_add 31 (a << 31) (b << 25) (omega arith) (omega arith)) in
    let t₁ = a * 2 ^ 31 + b * 2 ^ 25 in
    let s₂ : (t₁ ¦ c << 20) ≡ t₁ + c * 2 ^ 20 =
      omega (arith, bit_or_add 25 (t₁) (c << 20) (omega arith) (omega arith)) in
    let t₂ = t₁ + c * 2 ^ 20 in
    let s₃ : (t₂ ¦ d << 15) ≡ t₂ + d * 2 ^ 15 =
      omega (arith, bit_or_add 20 (t₂) (d << 15) (omega arith) (omega arith)) in
    let t₃ = t₂ + d * 2 ^ 15 in
    let s₄ : (t₃ ¦ e << 12) ≡ t₃ + e * 2 ^ 12 =
      omega (arith, bit_or_add 15 (t₃) (e << 12) (omega arith) (omega arith)) in
    let t₄ = t₃ + e * 2 ^ 12 in
    let s₅ : (t₄ ¦ f << 8) ≡ t₄ + f * 2 ^ 8 =
      omega (arith, bit_or_add 12 (t₄) (f << 8) (omega arith) (omega arith)) in
    let t₅ = t₄ + f * 2 ^ 8 in
    let s₆ : (t₅ ¦ g << 7) ≡ t₅ + g * 2 ^ 7 =
      omega (arith, bit_or_add 8 (t₅) (g << 7) (omega arith) (omega arith)) in
    let t₆ = t₅ + g * 2 ^ 7 in
    rw (s₁, s₂, s₃, s₄, s₅, s₆) (bit_or_add 7 t₆ h (omega arith) (omega arith))

j_fields :
    (a b c d e f : ℕ)
    → a < 2
    → b < 1024
    → c < 2
    → d < 256
    → e < 32
    → f < 128
    → (a << 31 ¦ b << 21 ¦ c << 20 ¦ d << 12 ¦ e << 7 ¦ f)
      ≡ a * 2 ^ 31 + b * 2 ^ 21 + c * 2 ^ 20 + d * 2 ^ 12 + e * 2 ^ 7 + f
j_fields a b c d e f ha hb hc hd he hf =
    let s₁ : (a << 31 ¦ b << 21) ≡ a * 2 ^ 31 + b * 2 ^ 21 =
      omega (arith, bit_or_add 31 (a << 31) (b << 21) (omega arith) (omega arith)) in
    let t₁ = a * 2 ^ 31 + b * 2 ^ 21 in
    let s₂ : (t₁ ¦ c << 20) ≡ t₁ + c * 2 ^ 20 =
      omega (arith, bit_or_add 21 (t₁) (c << 20) (omega arith) (omega arith)) in
    let t₂ = t₁ + c * 2 ^ 20 in
    let s₃ : (t₂ ¦ d << 12) ≡ t₂ + d * 2 ^ 12 =
      omega (arith, bit_or_add 20 (t₂) (d << 12) (omega arith) (omega arith)) in
    let t₃ = t₂ + d * 2 ^ 12 in
    let s₄ : (t₃ ¦ e << 7) ≡ t₃ + e * 2 ^ 7 =
      omega (arith, bit_or_add 12 (t₃) (e << 7) (omega arith) (omega arith)) in
    let t₄ = t₃ + e * 2 ^ 7 in rw (s₁, s₂, s₃, s₄) (bit_or_add 7 t₄ f (omega arith) (omega arith))

pub enc_ish-sum :
    (f7 shamt rs1 f3 rd op : ℕ) → enc_ish f7 shamt rs1 f3 rd op ≡ enc_r f7 shamt rs1 f3 rd op
unfolding enc_ish enc_r
enc_ish-sum f7 shamt rs1 f3 rd op = refl

pub enc_i-sum :
    (imm : ℤ) (rs1 f3 rd op : ℕ)
    → enc_i imm rs1 f3 rd op
      ≡ to_u32 imm % 2 ^ 12 * 2 ^ 20
        + rs1 % 2 ^ 5 * 2 ^ 15
        + f3 % 2 ^ 3 * 2 ^ 12
        + rd % 2 ^ 5 * 2 ^ 7
        + op % 2 ^ 7
unfolding enc_i
enc_i-sum imm rs1 f3 rd op =
    rw
      (
        bit_and_mask 12 (to_u32 imm),
        bit_and_mask 5 rs1,
        bit_and_mask 3 f3,
        bit_and_mask 5 rd,
        bit_and_mask 7 op,
      )
      (i_fields (to_u32 imm % 2 ^ 12) (rs1 % 2 ^ 5) (f3 % 2 ^ 3) (rd % 2 ^ 5) (op % 2 ^ 7)
        (omega arith) (omega arith) (omega arith) (omega arith) (omega arith))

pub enc_s-sum :
    (imm : ℤ) (rs2 rs1 f3 op : ℕ)
    → enc_s imm rs2 rs1 f3 op
      ≡ to_u32 imm % 2 ^ 12 / 2 ^ 5 * 2 ^ 25
        + rs2 % 2 ^ 5 * 2 ^ 20
        + rs1 % 2 ^ 5 * 2 ^ 15
        + f3 % 2 ^ 3 * 2 ^ 12
        + to_u32 imm % 2 ^ 5 * 2 ^ 7
        + op % 2 ^ 7
unfolding enc_s
enc_s-sum imm rs2 rs1 f3 op =
    let u = to_u32 imm % 2 ^ 12 in
    rw
      (
        bit_and_mask 12 (to_u32 imm),
        bit_and_mask 5 rs2,
        bit_and_mask 5 rs1,
        bit_and_mask 3 f3,
        bit_and_mask 5 u,
        bit_and_mask 7 op,
      )
      (six_fields (u / 2 ^ 5) (rs2 % 2 ^ 5) (rs1 % 2 ^ 5) (f3 % 2 ^ 3) (u % 2 ^ 5) (op % 2 ^ 7)
          (omega arith) (omega arith) (omega arith) (omega arith) (omega arith) (omega arith)
        ∙ omega arith)

pub enc_b-sum :
    (offset : ℤ) (rs1 rs2 f3 op : ℕ)
    → let u = to_u32 offset in
      enc_b offset rs1 rs2 f3 op
      ≡ u / 2 ^ 12 % 2 * 2 ^ 31
        + u / 2 ^ 5 % 2 ^ 6 * 2 ^ 25
        + rs2 % 2 ^ 5 * 2 ^ 20
        + rs1 % 2 ^ 5 * 2 ^ 15
        + f3 % 2 ^ 3 * 2 ^ 12
        + u / 2 % 2 ^ 4 * 2 ^ 8
        + u / 2 ^ 11 % 2 * 2 ^ 7
        + op % 2 ^ 7
unfolding enc_b
enc_b-sum offset rs1 rs2 f3 op =
    let u = to_u32 offset % 2 ^ 13 in
    rw
      (
        bit_and_mask 13 (to_u32 offset),
        bit_and_mask 1 (u / 2 ^ 12),
        bit_and_mask 1 (u / 2 ^ 11),
        bit_and_mask 6 (u / 2 ^ 5),
        bit_and_mask 4 (u / 2 ^ 1),
        bit_and_mask 5 rs2,
        bit_and_mask 5 rs1,
        bit_and_mask 3 f3,
        bit_and_mask 7 op,
      )
      (b_fields (u / 2 ^ 12 % 2) (u / 2 ^ 5 % 2 ^ 6) (rs2 % 2 ^ 5) (rs1 % 2 ^ 5) (f3 % 2 ^ 3)
          (u / 2 % 2 ^ 4) (u / 2 ^ 11 % 2) (op % 2 ^ 7) (omega arith) (omega arith) (omega arith)
          (omega arith) (omega arith) (omega arith) (omega arith) (omega arith)
        ∙ omega arith)

pub enc_j-sum :
    (offset : ℤ) (rd op : ℕ)
    → let u = to_u32 offset in
      enc_j offset rd op
      ≡ u / 2 ^ 20 % 2 * 2 ^ 31
        + u / 2 % 2 ^ 10 * 2 ^ 21
        + u / 2 ^ 11 % 2 * 2 ^ 20
        + u / 2 ^ 12 % 2 ^ 8 * 2 ^ 12
        + rd % 2 ^ 5 * 2 ^ 7
        + op % 2 ^ 7
unfolding enc_j
enc_j-sum offset rd op =
    let u = to_u32 offset % 2 ^ 21 in
    rw
      (
        bit_and_mask 21 (to_u32 offset),
        bit_and_mask 1 (u / 2 ^ 20),
        bit_and_mask 8 (u / 2 ^ 12),
        bit_and_mask 1 (u / 2 ^ 11),
        bit_and_mask 10 (u / 2 ^ 1),
        bit_and_mask 5 rd,
        bit_and_mask 7 op,
      )
      (j_fields (u / 2 ^ 20 % 2) (u / 2 % 2 ^ 10) (u / 2 ^ 11 % 2) (u / 2 ^ 12 % 2 ^ 8) (rd % 2 ^ 5)
          (op % 2 ^ 7) (omega arith) (omega arith) (omega arith) (omega arith) (omega arith)
          (omega arith)
        ∙ omega arith)

pub enc_u-sum :
    (hi20 rd op : ℕ) → enc_u hi20 rd op ≡ hi20 % 2 ^ 20 * 2 ^ 12 + rd % 2 ^ 5 * 2 ^ 7 + op % 2 ^ 7
unfolding enc_u
enc_u-sum hi20 rd op =
    let t = hi20 % 2 ^ 20 * 2 ^ 12 + rd % 2 ^ 5 * 2 ^ 7 in
    let s : ((hi20 % 2 ^ 20) << 12 ¦ (rd % 2 ^ 5) << 7) ≡ t = omega (
      arith,
      bit_or_add 12 ((hi20 % 2 ^ 20) << 12) ((rd % 2 ^ 5) << 7) (omega arith) (omega arith),
    ) in
    rw (bit_and_mask 20 hi20, bit_and_mask 5 rd, bit_and_mask 7 op, s)
      (bit_or_add 7 t (op % 2 ^ 7) (omega arith) (omega arith))

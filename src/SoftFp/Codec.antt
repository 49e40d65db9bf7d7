-- ===== src/SoftFp/Codec.antt =====
-- `sfp_unpack` and `sfp_pack` of runtime/device/soft_fp.c in arithmetic, and their round trips.
use booth.Base.{
  ℕ, ◌+◌, ◌-◌, ◌*◌, ◌/◌, ◌%◌, ◌^◌, ◌≤◌, ◌<◌, ◌≡◌, refl, ◌∙◌, arith, bit_or, bit_and_mask,
  bit_or_add, bit_or_comm, Bool, true, false, ◌==◌, leb, if◌then◌else◌, ◌&&◌, not, ℤ, pos, sub_ℕ,
  ◌+ℤ◌, Bool-cases, inl, inr,
}
use booth.SoftFp.Format.{Unpacked, sfp_unpack, sfp_pack, sfp_canonical_nan, signed_zero}

-- The three fields of a pattern below 2 ^ 32.
abbrev pub sign_of : ℕ → Bool
sign_of b = leb (2 ^ 31) b

abbrev pub biased_of : ℕ → ℕ
biased_of b = b / 2 ^ 23 % 2 ^ 8

abbrev pub fraction_of : ℕ → ℕ
fraction_of b = b % 2 ^ 23

abbrev pub number : Bool → ℤ → ℕ → Unpacked
number s e m = record {
  exp = e;
  mant = m;
  sign = s;
  is_zero = false;
  is_inf = false;
  is_nan = false;
}

pub mantissa_lem : (b : ℕ) → bit_or (b % 2 ^ 23) 0x800000 ≡ b % 2 ^ 23 + 2 ^ 23
mantissa_lem b = omega (
  arith,
  bit_or_comm (b % 2 ^ 23) (2 ^ 23),
  bit_or_add 23 (2 ^ 23) (b % 2 ^ 23) (omega arith) (omega arith),
)

-- What `sfp_unpack` answers, with its masks and shifts read as arithmetic.
abbrev pub unpacked : ℕ → Unpacked
unpacked b =
    let s = sign_of b in
    if biased_of b == 255
    then record {
      exp = pos 0;
      mant = 0;
      sign = s;
      is_zero = false;
      is_inf = fraction_of b == 0;
      is_nan = not (fraction_of b == 0);
    }
    else if biased_of b == 0
    then record { exp = pos 0; mant = 0; sign = s; is_zero = true; is_inf = false; is_nan = false }
    else number s (sub_ℕ (biased_of b) 127) (fraction_of b + 2 ^ 23)

pub sfp_unpack_lem : (b : ℕ) → b < 2 ^ 32 → sfp_unpack b ≡ unpacked b
unfolding sfp_unpack
sfp_unpack_lem b h = ground (
  arith,
  bit_and_mask 1 (b / 2 ^ 31),
  bit_and_mask 8 (b / 2 ^ 23),
  bit_and_mask 23 b,
  mantissa_lem b,
)

-- A normal number packs to the sum of its fields.
pub sfp_pack-number :
    (s : Bool) (e m : ℕ)
    → 1 ≤ e
    → e < 255
    → 2 ^ 23 ≤ m
    → m < 2 ^ 24
    → sfp_pack (number s (sub_ℕ e 127) m) ≡ (if s then 2 ^ 31 else 0) + e * 2 ^ 23 + (m - 2 ^ 23)
unfolding sfp_pack ◌+ℤ◌
sfp_pack-number s e m lo hi mlo mhi =
    let bias : sub_ℕ e 127 +ℤ pos 127 ≡ pos e = ground arith in
    let top : ℕ = if s then 2 ^ 31 else 0 in
    let or₁ : bit_or top (e % 2 ^ 32 * 2 ^ 23 % 2 ^ 32) ≡ top + e * 2 ^ 23 =
      ground (arith, bit_or_add 31 top (e % 2 ^ 32 * 2 ^ 23 % 2 ^ 32)) in
    let or₂ : bit_or (top + e * 2 ^ 23) (m % 2 ^ 23) ≡ top + e * 2 ^ 23 + m % 2 ^ 23 =
      ground (arith, bit_or_add 23 (top + e * 2 ^ 23) (m % 2 ^ 23)) in
    rw (bias, bit_and_mask 23 m, or₁, or₂) (ground arith)

-- What is lost by going through the unpacked form: NaN payloads and subnormals.
abbrev pub canonical : ℕ → ℕ
canonical b =
    if (biased_of b == 255) && not (fraction_of b == 0)
    then sfp_canonical_nan
    else if biased_of b == 0
    then signed_zero (sign_of b)
    else b

sfp_pack_special :
    (b : ℕ)
    → b < 2 ^ 32
    → (biased_of b == 255) ≡ true
    → sfp_pack (record {
      exp = pos 0;
      mant = 0;
      sign = sign_of b;
      is_zero = false;
      is_inf = fraction_of b == 0;
      is_nan = not (fraction_of b == 0);
    })
      ≡ (if true && not (fraction_of b == 0)
          then sfp_canonical_nan
          else if biased_of b == 0
          then signed_zero (sign_of b)
          else b)
unfolding sfp_pack
sfp_pack_special b h e = elim (Bool-cases (fraction_of b == 0)) [
  | inl z ↦ rw z (ground arith)
  | inr nz ↦ rw nz
]

-- Packing what was unpacked gives every 32-bit pattern back, except that a NaN becomes the
-- canonical one and a subnormal the zero of its sign.
pub sfp_pack-sfp_unpack : (b : ℕ) → b < 2 ^ 32 → sfp_pack (sfp_unpack b) ≡ canonical b
sfp_pack-sfp_unpack b h = rw (sfp_unpack_lem b h) (elim (Bool-cases (biased_of b == 255)) [
  | inl e ↦ rw e (sfp_pack_special b h e)
  | inr ne ↦ elim (Bool-cases (biased_of b == 0)) [
    | inl z ↦ rw (ne, z) (unfold sfp_pack in refl)
    | inr nz ↦
        rw (ne, nz)
          (sfp_pack-number (sign_of b) (biased_of b) (fraction_of b + 2 ^ 23) (ground arith)
              (ground arith) (omega arith) (omega arith)
            ∙ ground arith)
  ]
])

-- ===== src/SoftFp/Format.antt =====
-- `sfp_unpack` and `sfp_pack` of runtime/device/soft_fp.c, built as by default (SFP_STRICT_IEEE is
-- 0). A `float` is its 32-bit pattern, for `sfp_to_bits` and `sfp_from_bits` only reinterpret; the
-- flags and the sign, which are 0 or 1 throughout, are Booleans.
use booth.Base.{
  ℕ, ◌*◌, ◌/◌, ◌%◌, ◌^◌, bit_and, bit_or, Bool, true, false, ◌==◌, if◌then◌else◌, ℤ, pos, sub_ℕ,
  ◌+ℤ◌, leb_ℤ, to_u32,
}

abbrev pub sfp_sign_bit : ℕ
sfp_sign_bit = 0x80000000

abbrev pub sfp_canonical_nan : ℕ
sfp_canonical_nan = 0x7FC00000

abbrev pub sfp_pos_inf : ℕ
sfp_pos_inf = 0x7F800000

abbrev pub sfp_neg_inf : ℕ
sfp_neg_inf = 0xFF800000

pub record Unpacked : Type 0 where
  pub exp : ℤ
  pub mant : ℕ
  pub sign : Bool
  pub is_zero : Bool
  pub is_inf : Bool
  pub is_nan : Bool

abbrev pub infinity : Bool → ℕ
infinity s = if s then sfp_neg_inf else sfp_pos_inf

abbrev pub signed_zero : Bool → ℕ
signed_zero s = if s then sfp_sign_bit else 0

-- The struct that the zero cases fill in.
abbrev pub zero_of : Bool → Unpacked
zero_of s = record {
  exp = pos 0;
  mant = 0;
  sign = s;
  is_zero = true;
  is_inf = false;
  is_nan = false;
}

unfoldable pub sfp_unpack : ℕ → Unpacked
sfp_unpack bits =
    let s = bit_and (bits / 2 ^ 31) 1 == 1 in
    let biased = bit_and (bits / 2 ^ 23) 0xff in
    let mant = bit_and bits 0x7fffff in
    let u : Unpacked = record {
      exp = pos 0;
      mant = 0;
      sign = s;
      is_zero = false;
      is_inf = false;
      is_nan = false;
    } in
    if biased == 255
    then (if mant == 0 then record u { is_inf = true } else record u { is_nan = true })
    else if biased == 0
    then (if mant == 0 then record u { is_zero = true } else record u { is_zero = true })
    else record u { exp = sub_ℕ biased 127; mant = bit_or mant 0x800000 }

unfoldable pub sfp_pack : Unpacked → ℕ
sfp_pack u =
    let biased = u.exp +ℤ pos 127 in
    if u.is_nan
    then sfp_canonical_nan
    else if u.is_inf
    then infinity u.sign
    else if u.is_zero
    then signed_zero u.sign
    else if leb_ℤ (pos 255) biased
    then infinity u.sign
    else if leb_ℤ biased (pos 0)
    then signed_zero u.sign
    else bit_or (bit_or (if u.sign then 2 ^ 31 else 0) (to_u32 biased * 2 ^ 23 % 2 ^ 32))
        (bit_and u.mant 0x7fffff)

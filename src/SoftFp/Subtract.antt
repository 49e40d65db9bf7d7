-- ===== src/SoftFp/Subtract.antt =====
-- `__subsf3` of runtime/device/soft_fp.c against `__addsf3` of the negated operand.
use booth.Base.{
  ℕ, ◌+◌, ◌-◌, ◌%◌, ◌^◌, ◌<◌, ◌≡◌, arith, Bool, not, ◌&&◌, ltb, leb, if◌then◌else◌, bit_xor_bit,
}
use booth.SoftFp.Format.{sfp_unpack}
use booth.SoftFp.Codec.{biased_of, fraction_of, sign_of, sfp_unpack_lem}
use booth.SoftFp.Arith.{negsf2, addsf3, subsf3, sfp_add_signed, add_cases}

-- The magnitude stays and the sign goes over.
pub negsf2_lem :
    (b : ℕ) → b < 2 ^ 32 → negsf2 b ≡ (if leb (2 ^ 31) b then b - 2 ^ 31 else b + 2 ^ 31)
unfolding negsf2
negsf2_lem b h = ground (arith, bit_xor_bit 31 b)

-- Negating a 32-bit pattern twice gives it back.
pub negsf2-negsf2 : (b : ℕ) → b < 2 ^ 32 → negsf2 (negsf2 b) ≡ b
negsf2-negsf2 b h = ground (arith, negsf2_lem b h, negsf2_lem (negsf2 b))

sfp_unpack-negsf2 :
    (b : ℕ)
    → b < 2 ^ 32
    → sfp_unpack (negsf2 b) ≡ record (sfp_unpack b) { sign = not (sfp_unpack b).sign }
sfp_unpack-negsf2 b h =
    let flip = negsf2_lem b h in
    let small : negsf2 b < 2 ^ 32 = ground (arith, flip) in
    let exponent : biased_of (negsf2 b) ≡ biased_of b = ground (arith, flip) in
    let fraction : fraction_of (negsf2 b) ≡ fraction_of b = ground (arith, flip) in
    let other : sign_of (negsf2 b) ≡ not (sign_of b) = ground (arith, flip) in
    rw (sfp_unpack_lem (negsf2 b) small, sfp_unpack_lem b h, exponent, fraction, other)
      (ground arith)

-- Zero or a subnormal; and a normal number.
abbrev pub is_flushed : ℕ → Bool
is_flushed a = ltb (a % 2 ^ 31) (2 ^ 23)

abbrev pub is_normal : ℕ → Bool
is_normal b = leb (2 ^ 23) (b % 2 ^ 31) && ltb (b % 2 ^ 31) 0x7f800000

-- For 32-bit patterns subtraction is addition of the negated second operand, except where the
-- first is a zero or a subnormal and the second a normal number: there the second comes back
-- with its sign as it was.
pub subsf3_lem :
    (a b : ℕ)
    → a < 2 ^ 32
    → b < 2 ^ 32
    → subsf3 a b ≡ (if is_flushed a && is_normal b then b else addsf3 a (negsf2 b))
unfolding subsf3 addsf3 sfp_add_signed add_cases
subsf3_lem a b ha hb =
    rw (sfp_unpack-negsf2 b hb, add_cases)
      (rw (sfp_unpack_lem a ha, sfp_unpack_lem b hb) (ground arith))

-- ===== src/SoftFp/Tests.antt =====
-- The soft-float routines at numbers that are easy to follow: 1.0 is 0x3F800000.
use booth.Base.{◌≡◌, refl, pos, negsuc, ◌+ℤ◌, ◌-ℤ◌}
use booth.SoftFp.Format.{sfp_unpack, sfp_pack}
use booth.SoftFp.Round.{normalise, drain, sfp_round_normal}
use booth.SoftFp.Arith.{
  negsf2, addsf3, subsf3, mulsf3, divsf3, sfp_add_signed, add_cases, add_finite, add_aligned,
}
use booth.SoftFp.Compare.{sfp_cmp, ltsf2, unordsf2, minus_one}
use booth.SoftFp.Convert.{floatsisf, fixsfsi, sfp_uint_to_float, find_top, magnitude}

program : Unit {0}
unfolding sfp_unpack sfp_pack normalise drain sfp_round_normal negsf2 addsf3 subsf3 mulsf3 divsf3
    sfp_add_signed add_cases add_finite add_aligned sfp_cmp ltsf2 unordsf2 floatsisf fixsfsi
    sfp_uint_to_float find_top magnitude ◌+ℤ◌ ◌-ℤ◌
program = tt

-- 1 + 2, 1 - 2, 1.5 * 2, 1 / 3, 0.1 + 0.2
sums :
    (addsf3 0x3F800000 0x40000000 ≡ 0x40400000)
    × (subsf3 0x3F800000 0x40000000 ≡ 0xBF800000)
    × (mulsf3 0x3FC00000 0x40000000 ≡ 0x40400000)
    × (divsf3 0x3F800000 0x40400000 ≡ 0x3EAAAAAB)
    × (addsf3 0x3DCCCCCD 0x3E4CCCCD ≡ 0x3E99999A)
unfolding program
sums = (refl, refl, refl, refl, refl)

orders : (sfp_cmp 0x3F800000 0x40000000 ≡ minus_one) × (ltsf2 0x80000000 0 ≡ pos 0)
unfolding program
orders = (refl, refl)

conversions :
    (floatsisf (negsuc 6) ≡ 0xC0E00000)
    × (fixsfsi 0xC0E00000 ≡ negsuc 6)
    × (floatsisf (pos 16777217) ≡ 0x4B800000)
    × (fixsfsi 0x3FF00000 ≡ pos 1)
unfolding program
conversions = (refl, refl, refl, refl)

-- 0 - 5 is 5.
sub_from_zero : subsf3 0 0x40A00000 ≡ 0x40A00000
unfolding program
sub_from_zero = refl

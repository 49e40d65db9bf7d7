-- ===== src/SoftFp/Witnesses.antt =====
-- The soft-float theorems at concrete numbers.
use booth.Base.{
  ℕ, suc, ◌+◌, ◌-◌, ◌*◌, ◌^◌, ◌≤◌, ◌<◌, ◌≡◌, refl, ◌↔◌, arith, true, false, pos, negsuc, ◌+ℤ◌, ◌≤ℤ◌,
  ◌<ℤ◌,
}
use booth.SoftFp.Format.{sfp_unpack, sfp_pack}
use booth.SoftFp.Round.{sfp_round_normal}
use booth.SoftFp.Arith.{addsf3, subsf3, mulsf3}
use booth.SoftFp.Compare.{ltsf2, lesf2, gtsf2, gesf2, eqsf2, nesf2}
use booth.SoftFp.Convert.{floatunsisf, fixsfsi}
use booth.SoftFp.Commute.{addsf3_comm}
use booth.SoftFp.Codec.{sfp_pack-sfp_unpack}
use booth.SoftFp.Order.{is_nan, key, comparisons_iff}
use booth.SoftFp.Subtract.{subsf3_lem}
use booth.SoftFp.Rounding.{Rounds, sfp_round_normal-Rounds}
use booth.SoftFp.Product.{significand, mulsf3-Rounds, floatunsisf-Rounds}
use booth.SoftFp.Truncate.{fixsfsi_lem}

addsf3_comm_example : addsf3 0x3F800000 0xC0490FDB ≡ addsf3 0xC0490FDB 0x3F800000
addsf3_comm_example = addsf3_comm 0x3F800000 0xC0490FDB

sfp_pack-sfp_unpack_example : sfp_pack (sfp_unpack 0xC0490FDB) ≡ 0xC0490FDB
sfp_pack-sfp_unpack_example = sfp_pack-sfp_unpack 0xC0490FDB (omega arith)

-- 0 - 5 is 5.
subsf3_lem_example : subsf3 0 0x40A00000 ≡ 0x40A00000
subsf3_lem_example = subsf3_lem 0 0x40A00000 (omega arith) (omega arith)

-- The mantissa 2 ^ 47 + 2 ^ 24 + 3, as a product of two 24-bit mantissas may be.
sfp_round_normal-Rounds_example :
    Rounds false
      (pos 0)
      (2 ^ 47 + 2 ^ 24 + 3)
      23
      (sfp_round_normal false (pos 0) (2 ^ 47 + 2 ^ 24 + 3) 23)
sfp_round_normal-Rounds_example =
    sfp_round_normal-Rounds false (pos 0) (2 ^ 47 + 2 ^ 24 + 3) 23 (omega arith) (omega arith)
      (omega arith) (omega arith)

mulsf3-Rounds_example :
    Rounds true (pos 0 +ℤ pos 1) (2 ^ 23 * significand 0xC0490FDB) 23 (mulsf3 0x3F800000 0xC0490FDB)
mulsf3-Rounds_example = mulsf3-Rounds 0x3F800000 0xC0490FDB (omega arith) (omega arith) refl refl

floatunsisf-Rounds_example :
    (top : ℕ) × (2 ^ top ≤ 16777217)
    × (16777217 < 2 ^ suc top)
    × Rounds false (pos top) (16777217 * 2 ^ (47 - top)) 24 (floatunsisf 16777217)
floatunsisf-Rounds_example = floatunsisf-Rounds 16777217 (omega arith) (omega arith)

fixsfsi_lem_example : fixsfsi 0xC0490FDB ≡ negsuc 2
fixsfsi_lem_example = fixsfsi_lem 0xC0490FDB (omega arith) refl

comparisons_iff_example :
    ((ltsf2 0xBF800000 0 <ℤ pos 0)
      ↔ ((is_nan 0xBF800000 ≡ false) × (is_nan 0 ≡ false) × (key 0xBF800000 <ℤ key 0)))
    × ((lesf2 0xBF800000 0 ≤ℤ pos 0)
        ↔ ((is_nan 0xBF800000 ≡ false) × (is_nan 0 ≡ false) × (key 0xBF800000 ≤ℤ key 0)))
    × ((pos 0 <ℤ gtsf2 0xBF800000 0)
        ↔ ((is_nan 0xBF800000 ≡ false) × (is_nan 0 ≡ false) × (key 0 <ℤ key 0xBF800000)))
    × ((pos 0 ≤ℤ gesf2 0xBF800000 0)
        ↔ ((is_nan 0xBF800000 ≡ false) × (is_nan 0 ≡ false) × (key 0 ≤ℤ key 0xBF800000)))
    × ((eqsf2 0xBF800000 0 ≡ pos 0)
        ↔ ((is_nan 0xBF800000 ≡ false) × (is_nan 0 ≡ false) × (key 0xBF800000 ≡ key 0)))
    × ((nesf2 0xBF800000 0 ≡ pos 0)
        ↔ ((is_nan 0xBF800000 ≡ false) × (is_nan 0 ≡ false) × (key 0xBF800000 ≡ key 0)))
comparisons_iff_example = comparisons_iff 0xBF800000 0 (omega arith) (omega arith)

-- ===== src/SoftFp/Order.antt =====
-- What the comparisons of runtime/device/soft_fp.c decide: the order of an integer that each
-- pattern stands for, with -0, +0 and the flushed subnormals all equal.
use booth.Base.{
  ℕ, ◌%◌, ◌^◌, ◌<◌, ◌≡◌, ◌↔◌, arith, bit_and_mask, Bool, false, ltb, if◌then◌else◌, ◌||◌, ℤ, pos,
  sub_ℕ, ◌<ℤ◌, ltb_ℤ, ◌≤ℤ◌,
}
use booth.SoftFp.Format.{sfp_unpack}
use booth.SoftFp.Codec.{sign_of, sfp_unpack_lem}
use booth.SoftFp.Compare.{sfp_cmp, unordsf2, eqsf2, nesf2, ltsf2, lesf2, gtsf2, gesf2, minus_one}

-- The signed magnitude of a pattern: for patterns that are no NaN, its order is the order of the
-- numbers that they stand for.
abbrev pub key : ℕ → ℤ
key b =
    let mag = b % 2 ^ 31 in
    if ltb mag (2 ^ 23) then pos 0 else if sign_of b then sub_ℕ 0 mag else pos mag

abbrev pub is_nan : ℕ → Bool
is_nan b = ltb 0x7f800000 (b % 2 ^ 31)

abbrev pub sign_of_difference : ℤ → ℤ → ℤ
sign_of_difference x y = if ltb_ℤ x y then minus_one else if ltb_ℤ y x then pos 1 else pos 0

module _ (b : ℕ) (h : b < 2 ^ 32) where
  is_nan_lem : (sfp_unpack b).is_nan ≡ is_nan b
  is_nan_lem = rw (sfp_unpack_lem b h) (ground arith)

  is_zero_lem : (sfp_unpack b).is_zero ≡ ltb (b % 2 ^ 31) (2 ^ 23)
  is_zero_lem = rw (sfp_unpack_lem b h) (ground arith)

  sign_lem : (sfp_unpack b).sign ≡ sign_of b
  sign_lem = rw (sfp_unpack_lem b h) (ground arith)

module _ (a b : ℕ) (ha : a < 2 ^ 32) (hb : b < 2 ^ 32) where
  -- On numbers the comparison answers the sign of the difference of the two keys.
  pub sfp_cmp_lem :
      is_nan a ≡ false → is_nan b ≡ false → sfp_cmp a b ≡ sign_of_difference (key a) (key b)
  unfolding sfp_cmp
  sfp_cmp_lem na nb =
      rw
        (
          is_nan_lem a ha,
          is_nan_lem b hb,
          is_zero_lem a ha,
          is_zero_lem b hb,
          sign_lem a ha,
          sign_lem b hb,
          bit_and_mask 31 a,
          bit_and_mask 31 b,
          na,
          nb,
        )
        (ground arith)

  unordsf2_lem : unordsf2 a b ≡ (if is_nan a || is_nan b then pos 1 else pos 0)
  unfolding unordsf2
  unordsf2_lem = rw (is_nan_lem a ha, is_nan_lem b hb)

  -- Neither is a NaN, and the keys stand in the relation.
  abbrev Ordered : Type 0 → Type 0
  Ordered P = (is_nan a ≡ false) × (is_nan b ≡ false) × P

  -- For 32-bit patterns each of the six comparisons, read by the convention of its caller,
  -- holds exactly when neither operand is a NaN and the signed magnitudes of the two, with
  -- zeros and subnormals all 0, stand in the relation of its name; nesf2 answers 0 exactly when
  -- eqsf2 does.
  pub comparisons_iff :
      ((ltsf2 a b <ℤ pos 0) ↔ Ordered (key a <ℤ key b))
      × ((lesf2 a b ≤ℤ pos 0) ↔ Ordered (key a ≤ℤ key b))
      × ((pos 0 <ℤ gtsf2 a b) ↔ Ordered (key b <ℤ key a))
      × ((pos 0 ≤ℤ gesf2 a b) ↔ Ordered (key b ≤ℤ key a))
      × ((eqsf2 a b ≡ pos 0) ↔ Ordered (key a ≡ key b))
      × ((nesf2 a b ≡ pos 0) ↔ Ordered (key a ≡ key b))
  unfolding ltsf2 lesf2 gtsf2 gesf2 eqsf2 nesf2
  comparisons_iff = ground (arith, unordsf2_lem, sfp_cmp_lem)

-- ===== src/SoftFp/Compare.antt =====
-- The comparisons of runtime/device/soft_fp.c. An `int` result is an integer.
use booth.Base.{
  ℕ, bit_and, Bool, true, ◌&&◌, ◌||◌, ◌==◌, ltb, if◌then◌else◌, differ, ℤ, pos, negsuc, not,
}
use booth.SoftFp.Format.{sfp_unpack}

abbrev pub minus_one : ℤ
minus_one = negsuc 0

unfoldable pub unordsf2 : ℕ → ℕ → ℤ
unordsf2 a b =
    let ua = sfp_unpack a in
    let ub = sfp_unpack b in if ua.is_nan || ub.is_nan then pos 1 else pos 0

unfoldable pub sfp_cmp : ℕ → ℕ → ℤ
sfp_cmp a b =
    let ua = sfp_unpack a in
    let ub = sfp_unpack b in
    if ua.is_nan || ub.is_nan
    then pos 1
    else if ua.is_zero && ub.is_zero
    then pos 0
    else if differ ua.sign ub.sign
    then (if ua.sign then minus_one else pos 1)
    else (let mag_a = bit_and a 0x7fffffff in
        let mag_b = bit_and b 0x7fffffff in
        if mag_a == mag_b
        then pos 0
        else if ltb mag_a mag_b
        then (if ua.sign then pos 1 else minus_one)
        else (if ua.sign then minus_one else pos 1))

-- `!= 0` of an `int`.
abbrev pub nonzero : ℤ → Bool
nonzero (pos n) = not (n == 0)
nonzero (negsuc n) = true

unfoldable pub eqsf2 : ℕ → ℕ → ℤ
eqsf2 a b = if nonzero (unordsf2 a b) then pos 1 else if nonzero (sfp_cmp a b) then pos 1 else pos 0

unfoldable pub nesf2 : ℕ → ℕ → ℤ
nesf2 a b = if nonzero (unordsf2 a b) then pos 1 else if nonzero (sfp_cmp a b) then pos 1 else pos 0

unfoldable pub ltsf2 : ℕ → ℕ → ℤ
ltsf2 a b = if nonzero (unordsf2 a b) then pos 1 else sfp_cmp a b

unfoldable pub lesf2 : ℕ → ℕ → ℤ
lesf2 a b = if nonzero (unordsf2 a b) then pos 1 else sfp_cmp a b

unfoldable pub gtsf2 : ℕ → ℕ → ℤ
gtsf2 a b = if nonzero (unordsf2 a b) then minus_one else sfp_cmp a b

unfoldable pub gesf2 : ℕ → ℕ → ℤ
gesf2 a b = if nonzero (unordsf2 a b) then minus_one else sfp_cmp a b

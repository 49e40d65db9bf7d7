-- ===== src/SoftFp/Arith.antt =====
-- Negation, addition, subtraction, multiplication and division of runtime/device/soft_fp.c. Each
-- step of the long functions has its name: the special cases, the alignment, the sum.
use booth.Base.{
  ℕ, ◌+◌, ◌-◌, ◌*◌, ◌/◌, ◌%◌, ◌^◌, bit_and, bit_or, bit_xor, Bool, true, false, not, ◌&&◌, ◌||◌,
  ◌==◌, leb, ltb, if◌then◌else◌, differ, pos_part, ◌+ℤ◌, ◌-ℤ◌, ltb_ℤ,
}
use booth.SoftFp.Format.{
  Unpacked, sfp_unpack, sfp_pack, sfp_sign_bit, sfp_canonical_nan, infinity, zero_of,
}
use booth.SoftFp.Round.{sfp_round_normal}

unfoldable pub negsf2 : ℕ → ℕ
negsf2 a = bit_xor a sfp_sign_bit

-- `mb` moved down by the difference of the exponents, with what is lost kept as sticky.
unfoldable pub align : (exp_diff mb : ℕ) → ℕ
align exp_diff mb =
    if leb 56 exp_diff
    then (let sticky : ℕ = if not (mb == 0) then 1 else 0 in
        if not (sticky == 0) then bit_or 0 1 else 0)
    else if ltb 0 exp_diff
    then (let sticky = bit_and mb (2 ^ exp_diff - 1) in
        let low = mb / 2 ^ exp_diff in if not (sticky == 0) then bit_or low 1 else low)
    else mb

-- From `uint64_t ma` on: `ua` has the larger or an equal exponent.
unfoldable pub add_aligned : Unpacked → Unpacked → ℕ
unfolding align
add_aligned ua ub =
    let exp_diff = pos_part (ua.exp -ℤ ub.exp) in
    let ma = ua.mant * 2 ^ 24 in
    let mb = align exp_diff (ub.mant * 2 ^ 24) in
    if not (differ ua.sign ub.sign)
    then sfp_round_normal ua.sign ua.exp (ma + mb) 24
    else (let result_mant = if leb mb ma then ma - mb else mb - ma in
        let result_sign = if leb mb ma then ua.sign else ub.sign in
        if result_mant == 0
        then sfp_pack (zero_of false)
        else sfp_round_normal result_sign ua.exp result_mant 24)

-- The swap that orders the operands.
unfoldable pub add_finite : Unpacked → Unpacked → ℕ
add_finite ua ub = if ltb_ℤ ua.exp ub.exp then add_aligned ub ua else add_aligned ua ub

-- The cases of `sfp_add_signed`, in order, on the operands as they are after the sign flip.
unfoldable pub add_cases : (a b : ℕ) → Unpacked → Unpacked → ℕ
add_cases a b ua ub =
    if ua.is_nan || ub.is_nan
    then sfp_canonical_nan
    else if ua.is_inf && ub.is_inf
    then (if differ ua.sign ub.sign then sfp_canonical_nan else infinity ua.sign)
    else if ua.is_inf
    then infinity ua.sign
    else if ub.is_inf
    then infinity ub.sign
    else if ua.is_zero && ub.is_zero
    then sfp_pack (zero_of (ua.sign && ub.sign))
    else if ua.is_zero
    then b
    else if ub.is_zero
    then a
    else add_finite ua ub

unfoldable pub sfp_add_signed : ℕ → ℕ → Bool → ℕ
sfp_add_signed a b subtract =
    let ua = sfp_unpack a in
    let ub = sfp_unpack b in
    let ub' = if subtract then record ub { sign = not ub.sign } else ub in add_cases a b ua ub'

unfoldable pub addsf3 : ℕ → ℕ → ℕ
addsf3 a b = sfp_add_signed a b false

unfoldable pub subsf3 : ℕ → ℕ → ℕ
subsf3 a b = sfp_add_signed a b true

unfoldable pub mulsf3 : ℕ → ℕ → ℕ
mulsf3 a b =
    let ua = sfp_unpack a in
    let ub = sfp_unpack b in
    let out_sign = differ ua.sign ub.sign in
    if ua.is_nan || ub.is_nan
    then sfp_canonical_nan
    else if (ua.is_inf && ub.is_zero) || (ua.is_zero && ub.is_inf)
    then sfp_canonical_nan
    else if ua.is_inf || ub.is_inf
    then infinity out_sign
    else if ua.is_zero || ub.is_zero
    then sfp_pack (zero_of out_sign)
    else sfp_round_normal out_sign (ua.exp +ℤ ub.exp) (ua.mant * ub.mant) 23

unfoldable pub divsf3 : ℕ → ℕ → ℕ
divsf3 a b =
    let ua = sfp_unpack a in
    let ub = sfp_unpack b in
    let out_sign = differ ua.sign ub.sign in
    if ua.is_nan || ub.is_nan
    then sfp_canonical_nan
    else if ua.is_inf && ub.is_inf
    then sfp_canonical_nan
    else if ua.is_zero && ub.is_zero
    then sfp_canonical_nan
    else if ua.is_inf
    then infinity out_sign
    else if ub.is_zero
    then infinity out_sign
    else if ua.is_zero || ub.is_inf
    then sfp_pack (zero_of out_sign)
    else (let num = ua.mant * 2 ^ 28 in
        let quot = num / ub.mant in
        let rem = num % ub.mant in
        let quot' = if not (rem == 0) then bit_or quot 1 else quot in
        sfp_round_normal out_sign (ua.exp -ℤ ub.exp) quot' 5)

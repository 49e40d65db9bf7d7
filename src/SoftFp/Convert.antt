-- ===== src/SoftFp/Convert.antt =====
-- The conversions of runtime/device/soft_fp.c between binary32 and 32-bit integers. An `int32_t`
-- is the integer that it stands for.
use booth.Base.{
  ℕ, zero, suc, ◌+◌, ◌-◌, ◌*◌, ◌/◌, ◌%◌, ◌^◌, bit_and, Bool, true, false, ◌==◌, if◌then◌else◌, ℤ,
  pos, negsuc, pos_part, leb_ℤ, ltb_ℤ, sub_ℕ,
}
use booth.SoftFp.Format.{Unpacked, sfp_unpack, sfp_pack, zero_of}
use booth.SoftFp.Round.{sfp_round_normal}

-- `int top = 31; while (((v >> top) & 1u) == 0u) top--;`, where `v` is not 0: the shift count
-- would go below 0 only for 0.
unfoldable pub find_top : ℕ → ℕ → ℕ
find_top v zero = 0
find_top v (suc top) = elim (bit_and (v / 2 ^ suc top) 1 == 0) [
  | true ↦ find_top v top
  | false ↦ suc top
]

unfoldable pub sfp_uint_to_float : ℕ → Bool → ℕ
sfp_uint_to_float v s =
    if v == 0
    then sfp_pack (zero_of s)
    else (let top = find_top v 31 in
        let wide = v * 2 ^ (47 - top) % 2 ^ 64 in sfp_round_normal s (pos top) wide 24)

unfoldable pub floatsisf : ℤ → ℕ
floatsisf (pos n) = sfp_uint_to_float n false
floatsisf (negsuc n) = sfp_uint_to_float ((n + 1) % 2 ^ 32) true

unfoldable pub floatunsisf : ℕ → ℕ
floatunsisf u = sfp_uint_to_float u false

abbrev pub int_min : ℤ
int_min = negsuc 0x7fffffff

abbrev pub int_max : ℤ
int_max = pos 0x7fffffff

-- The mantissa's leading bit is at 23; the shift puts the integer's at `exp`, which is below 32.
unfoldable pub magnitude : Unpacked → ℕ
magnitude u =
    if leb_ℤ (pos 23) u.exp
    then u.mant * 2 ^ (pos_part u.exp - 23) % 2 ^ 32
    else u.mant / 2 ^ (23 - pos_part u.exp)

unfoldable pub fixsfsi : ℕ → ℤ
fixsfsi a =
    let u = sfp_unpack a in
    if u.is_nan
    then pos 0
    else if u.is_zero
    then pos 0
    else if u.is_inf
    then (if u.sign then int_min else int_max)
    else if ltb_ℤ u.exp (pos 0)
    then pos 0
    else if leb_ℤ (pos 31) u.exp
    then (if u.sign then int_min else int_max)
    else (let mag = magnitude u in if u.sign then sub_ℕ 0 mag else pos mag)

unfoldable pub fixunssfsi : ℕ → ℕ
fixunssfsi a =
    let u = sfp_unpack a in
    if u.is_nan
    then 0
    else if u.is_zero
    then 0
    else if u.sign
    then 0
    else if u.is_inf
    then 0xffffffff
    else if ltb_ℤ u.exp (pos 0)
    then 0
    else if leb_ℤ (pos 32) u.exp
    then 0xffffffff
    else magnitude u

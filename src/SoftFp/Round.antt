-- ===== src/SoftFp/Round.antt =====
-- `sfp_round_normal` of runtime/device/soft_fp.c. The wide mantissa is a `uint64_t`.
use booth.Base.{
  ℕ, zero, suc, ◌+◌, ◌-◌, ◌*◌, ◌/◌, ◌%◌, ◌^◌, bit_and, bit_or, Bool, true, false, not, ◌&&◌, ◌||◌,
  ◌==◌, if◌then◌else◌, ℤ, pos, ◌+ℤ◌, ◌-ℤ◌,
}
use booth.SoftFp.Format.{Unpacked, sfp_pack}

-- `while (((wide_mant >> target_top) == 0u) && guard-- > 0)`
unfoldable pub normalise : (guard top wide : ℕ) → ℤ → ℕ × ℤ
normalise zero top wide exp = (wide, exp)
normalise (suc guard) top wide exp = elim (wide / 2 ^ top == 0) [
  | true ↦ normalise guard top (wide * 2 % 2 ^ 64) (exp -ℤ pos 1)
  | false ↦ (wide, exp)
]

-- `while (wide_mant >> (target_top + 1))`, with the lost bits kept in the lowest. A `uint64_t` is
-- drained by 64 rounds.
unfoldable pub drain : (fuel top wide : ℕ) → ℤ → ℕ × ℤ
drain zero top wide exp = (wide, exp)
drain (suc fuel) top wide exp = elim (wide / 2 ^ (top + 1) == 0) [
  | true ↦ (wide, exp)
  | false ↦ drain fuel top (bit_or (wide / 2) (bit_and wide 1)) (exp +ℤ pos 1)
]

-- The 24 bits kept, and whether the round and sticky bits ask for one more.
unfoldable pub kept : ℕ → ℕ → ℕ
kept wide shift_amount = wide / 2 ^ shift_amount % 2 ^ 32

unfoldable pub rounds_up : ℕ → ℕ → Bool
rounds_up wide shift_amount =
    let round_mask = 2 ^ (shift_amount - 1) in
    let sticky_mask = round_mask - 1 in
    let round_bit = not (bit_and wide round_mask == 0) in
    let sticky_bit = not (bit_and wide sticky_mask == 0) in
    round_bit && (sticky_bit || not (bit_and (kept wide shift_amount) 1 == 0))

unfoldable pub sfp_round_normal : Bool → ℤ → (wide shift_amount : ℕ) → ℕ
unfolding kept rounds_up
sfp_round_normal s exp wide shift_amount =
    let u : Unpacked = record {
      exp = exp;
      mant = 0;
      sign = s;
      is_zero = false;
      is_inf = false;
      is_nan = false;
    } in
    if wide == 0
    then sfp_pack (record u { is_zero = true })
    else (let target_top = 23 + shift_amount in
        let (wide₁, exp₁) = normalise 64 target_top wide exp in
        let (wide₂, exp₂) = drain 64 target_top wide₁ exp₁ in
        let mant24 = kept wide₂ shift_amount in
        if rounds_up wide₂ shift_amount
        then (if mant24 + 1 == 2 ^ 24
            then sfp_pack (record u { exp = exp₂ +ℤ pos 1; mant = (mant24 + 1) / 2 })
            else sfp_pack (record u { exp = exp₂; mant = mant24 + 1 }))
        else sfp_pack (record u { exp = exp₂; mant = mant24 }))

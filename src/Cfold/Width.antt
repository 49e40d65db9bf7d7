-- ===== src/Cfold/Width.antt =====
-- The integers of src/ir/bir_cfold.c. An `int64_t` is its bit pattern, below 2 ^ 64, and a
-- difference is taken modulo 2 ^ 64.
use booth.Base.{
  ℕ, ◌+◌, ◌-◌, ◌%◌, ◌^◌, bit_and, bit_xor, Bool, not, ◌==◌, ltb, leb, if◌then◌else◌, ltb_ℤ, leb_ℤ,
  signed,
}

unfoldable pub mask_to_width : ℕ → ℕ → ℕ
mask_to_width val w = if leb 64 w then val else bit_and val (2 ^ w - 1)

unfoldable pub sign_extend : ℕ → ℕ → ℕ
sign_extend val w =
    if leb 64 w
    then val
    else (let low = mask_to_width val w in
        let sign_bit = 2 ^ (w - 1) in (bit_xor low sign_bit + (2 ^ 64 - sign_bit)) % 2 ^ 64)

-- `bir_cmp_pred_t`, the predicates of integers.
pub data IcmpPred : Type 0 where
  icmp_eq : IcmpPred
  icmp_ne : IcmpPred
  icmp_slt : IcmpPred
  icmp_sle : IcmpPred
  icmp_sgt : IcmpPred
  icmp_sge : IcmpPred
  icmp_ult : IcmpPred
  icmp_ule : IcmpPred
  icmp_ugt : IcmpPred
  icmp_uge : IcmpPred

-- The switch on the predicate, for operands of `sw` bits.
unfoldable pub fold_icmp : IcmpPred → (sw a b : ℕ) → Bool
fold_icmp p sw a b =
    let sa = signed 64 (sign_extend a sw) in
    let sb = signed 64 (sign_extend b sw) in
    let ua = mask_to_width a sw in
    let ub = mask_to_width b sw in
    elim p [
      | icmp_eq ↦ ua == ub
      | icmp_ne ↦ not (ua == ub)
      | icmp_slt ↦ ltb_ℤ sa sb
      | icmp_sle ↦ leb_ℤ sa sb
      | icmp_sgt ↦ ltb_ℤ sb sa
      | icmp_sge ↦ leb_ℤ sb sa
      | icmp_ult ↦ ltb ua ub
      | icmp_ule ↦ leb ua ub
      | icmp_ugt ↦ ltb ub ua
      | icmp_uge ↦ leb ub ua
    ]

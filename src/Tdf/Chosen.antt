-- ===== src/Tdf/Chosen.antt =====
-- The chip of the command line (src/tdf/tdf.c), by its name.
use mathlib.Core.Option
use booth.Base.{
  ℕ, zero, suc, ◌<◌, ◌≡◌, ◌↔◌, refl, sym, ap, ◌∙◌, arith, true, some, List, [], ◌∷◌, find_index,
  find_index-some, negsuc, pos,
}
use booth.Tdf.Defs.{chipok, td_chip_count}
use booth.Tdf.Chips.{
  same_string, chip_names, td_cname, td_pchip, td_setchip, td_chip, g_chip, named, td_role_name,
  td_arc_kind_name,
}

same_string-eq : (s t : List ℕ) → same_string s t ≡ true → s ≡ t
unfolding same_string
same_string-eq [] [] h = refl
same_string-eq [] (y ∷ ys) h = cc h
same_string-eq (x ∷ xs) [] h = cc h
same_string-eq (x ∷ xs) (y ∷ ys) h =
    let head : x ≡ y = ground arith in
    let tail : same_string xs ys ≡ true = ground arith in λ i. head i ∷ same_string-eq xs ys tail i

-- Two chips have names that td_pchip tells apart.
td_pchip-td_cname : (c : ℕ) → c < td_chip_count → td_pchip (td_cname c) ≡ some c
unfolding td_pchip td_cname same_string chipok find_index
td_pchip-td_cname zero h = refl
td_pchip-td_cname (suc zero) h = refl
td_pchip-td_cname (suc (suc c)) h = absurd (omega arith)

td_cname-td_pchip :
    (s : List ℕ) (c : ℕ) → td_pchip s ≡ some c → (c < td_chip_count) × (td_cname c ≡ s)
unfolding td_pchip td_cname chipok
td_cname-td_pchip s zero h =
    let (a, e, t) = find_index-some (same_string s) chip_names 0 h in
    (omega arith, ap (λ o. Option.get_or o a) e ∙ sym (same_string-eq s a t))
td_cname-td_pchip s (suc zero) h =
    let (a, e, t) = find_index-some (same_string s) chip_names 1 h in
    (omega arith, ap (λ o. Option.get_or o a) e ∙ sym (same_string-eq s a t))
td_cname-td_pchip s (suc (suc c)) h =
    let (a, e, t) = find_index-some (same_string s) chip_names (suc (suc c)) h in cc e

-- A name is accepted as chip `c` exactly when it is the name of one of the two chips.
pub td_pchip_iff :
    (s : List ℕ) (c : ℕ) → (td_pchip s ≡ some c) ↔ ((c < td_chip_count) × (td_cname c ≡ s))
td_pchip_iff s c = (td_cname-td_pchip s c, (λ p. ap td_pchip (sym p.1) ∙ td_pchip-td_cname c p.0))

-- A chip number that is none of them stands for the default.
any_chip : td_chip (td_setchip g_chip 7) ≡ g_chip
unfolding td_chip td_setchip chipok
any_chip = refl

no_role : td_role_name (negsuc 0) ≡ td_arc_kind_name (pos 6)
unfolding td_role_name td_arc_kind_name named
no_role = refl

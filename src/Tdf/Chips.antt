-- ===== src/Tdf/Chips.antt =====
-- The chip that a compilation is for, and the name tables of src/tdf/tdf.c. A string is the list of
-- its bytes up to the terminating one, and strings are there.
use mathlib.Core.Option
use booth.Base.{
  ℕ, Bool, true, false, ◌&&◌, ◌==◌, Option, List, [], ◌∷◌, get_elem?, find_index, ℤ, pos, negsuc,
}
use booth.Tdf.Defs.{chipok, td_chip_bh}

-- `strcmp(s, t) == 0`.
unfoldable pub same_string : List ℕ → List ℕ → Bool
same_string [] [] = true
same_string [] (y ∷ ys) = false
same_string (x ∷ xs) [] = false
same_string (x ∷ xs) (y ∷ ys) = x == y && same_string xs ys

-- "wormhole" and "blackhole".
abbrev pub chip_names : List (List ℕ)
chip_names =
    (119 ∷ 111 ∷ 114 ∷ 109 ∷ 104 ∷ 111 ∷ 108 ∷ 101 ∷ [])
    ∷ (98 ∷ 108 ∷ 97 ∷ 99 ∷ 107 ∷ 104 ∷ 111 ∷ 108 ∷ 101 ∷ [])
    ∷ []

unfoldable pub td_cname : ℕ → List ℕ
unfolding chipok
td_cname c = Option.get_or (get_elem? chip_names (chipok c)) []

-- The chip of a name; an unknown one is BC_ERR_TDF.
unfoldable pub td_pchip : List ℕ → Option ℕ
unfolding same_string
td_pchip s = find_index (same_string s) chip_names

-- The variable `g_chip` is passed on; this is its first value.
abbrev pub g_chip : ℕ
g_chip = td_chip_bh

unfoldable pub td_setchip : (chosen c : ℕ) → ℕ
unfolding chipok
td_setchip chosen c = chipok c

unfoldable pub td_chip : (chosen : ℕ) → ℕ
td_chip chosen = chosen

-- The tables of names: NONE, RDR, CMP, WRT, SOLO, and RSV, PUSH, WAIT, POP, RD, WR.
abbrev pub k_role : List (List ℕ)
k_role =
    (78 ∷ 79 ∷ 78 ∷ 69 ∷ [])
    ∷ (82 ∷ 68 ∷ 82 ∷ [])
    ∷ (67 ∷ 77 ∷ 80 ∷ [])
    ∷ (87 ∷ 82 ∷ 84 ∷ [])
    ∷ (83 ∷ 79 ∷ 76 ∷ 79 ∷ [])
    ∷ []

abbrev pub k_arc : List (List ℕ)
k_arc =
    (82 ∷ 83 ∷ 86 ∷ [])
    ∷ (80 ∷ 85 ∷ 83 ∷ 72 ∷ [])
    ∷ (87 ∷ 65 ∷ 73 ∷ 84 ∷ [])
    ∷ (80 ∷ 79 ∷ 80 ∷ [])
    ∷ (82 ∷ 68 ∷ [])
    ∷ (87 ∷ 82 ∷ [])
    ∷ []

-- An `int` outside the table is "?".
unfoldable pub named : List (List ℕ) → ℤ → List ℕ
named table (pos k) = Option.get_or (get_elem? table k) (63 ∷ [])
named table (negsuc k) = 63 ∷ []

unfoldable pub td_role_name : ℤ → List ℕ
unfolding named
td_role_name = named k_role

unfoldable pub td_arc_kind_name : ℤ → List ℕ
unfolding named
td_arc_kind_name = named k_arc

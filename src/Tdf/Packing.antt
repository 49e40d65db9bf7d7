-- ===== src/Tdf/Packing.antt =====
-- Where td_place_l1 of src/tdf/tdf_place.c puts the circular buffers: the needed space as a sum
-- without bounds, and what it means that buffers do not overlap.
use native.Mathlib.Nat.{mul_assoc, add-mul, mod-add-div, add-mul-mod_self_left}
use native.Mathlib.Decide.{dec_le}
use mathlib.Core.Path.{subst}
use booth.Base.{
  ltb, ◌||◌, if_cases, ◌≢◌, ℕ, ◌+◌, ◌-◌, ◌*◌, ◌/◌, ◌%◌, ◌^◌, ◌≤◌, ◌<◌, ◌≡◌, refl, sym, ap, ◌∙◌,
  arith, bit_and, bit_and_above, bit_and_mask, Bool, true, false, leb, if◌then◌else◌, List, [], ◌∷◌,
  map, ℤ, bc_ok, bc_err_tdf,
}
use booth.Tdf.Defs.{TdChan, TdMod, td_l1end, td_shbase, td_l1_cb_base, td_l1_align, td_fifo_bytes}
use booth.Tdf.Place.{round_up, dtype_bytes, td_tile_bytes, place_total, place_from, td_place_l1}

-- `x` rounded up to the alignment.
abbrev pub aligned : ℕ → ℕ
aligned x = (x + 15) / 16 * 16

-- What a channel needs: its tiles and its header.
unfoldable pub channel_bytes : TdChan → ℕ
channel_bytes c = c.tag.rows * c.tag.cols * dtype_bytes c.tag.dtype * c.depth + td_fifo_bytes

-- No size of a channel leaves the range of `uint32_t`.
unfoldable pub NoWrap : List TdChan → Type 0
NoWrap [] = Unit {0}
NoWrap (c ∷ cs) = (channel_bytes c + 15 < 2 ^ 32) × NoWrap cs

-- The end of the last buffer when they stand one after another from `lo`.
unfoldable pub needed : ℕ → List TdChan → ℕ
needed lo [] = lo
needed lo (c ∷ cs) = needed (aligned lo + aligned (channel_bytes c)) cs

-- From `lo` to `top`: each buffer aligned and behind the one before.
unfoldable pub Packed : ℕ → ℕ → List TdChan → Type 0
Packed lo top [] = Unit {0}
Packed lo top (c ∷ cs) =
    (lo ≤ c.l1_off)
    × (c.l1_off % 16 ≡ 0)
    × (c.l1_off + channel_bytes c ≤ top)
    × Packed (c.l1_off + channel_bytes c) top cs

mask_lem : (y : ℕ) → y < 2 ^ 32 → bit_and y (2 ^ 32 - 16) ≡ y / 16 * 16
mask_lem y h = omega (arith, bit_and_above 4 y (2 ^ 28 - 1), bit_and_mask 28 (y / 2 ^ 4))

round_up_lem : (x : ℕ) → x + 15 < 2 ^ 32 → round_up x td_l1_align ≡ aligned x
unfolding round_up
round_up_lem x h =
    ap (λ (y : ℕ). bit_and y (2 ^ 32 - 16)) {y = x + 15} (omega arith) ∙ mask_lem (x + 15) h

-- A factor may be cut before the product is.
mod-mul : (a b w : ℕ) → a % w * b % w ≡ a * b % w
mod-mul a b w =
    let split : a * b ≡ a % w * b + w * (a / w * b) =
      ap (λ (x : ℕ). x * b) (sym (mod-add-div a w))
      ∙ add-mul (a % w) (w * (a / w)) b
      ∙ ap (λ (x : ℕ). a % w * b + x) (mul_assoc w (a / w) b) in
    sym (ap (λ (x : ℕ). x % w) split ∙ add-mul-mod_self_left (a % w * b) w (a / w * b))

tiles_lem :
    (c : TdChan)
    → td_tile_bytes c.tag * c.depth % 2 ^ 32
      ≡ c.tag.rows * c.tag.cols * dtype_bytes c.tag.dtype * c.depth % 2 ^ 32
unfolding td_tile_bytes
tiles_lem c =
    mod-mul (c.tag.rows * c.tag.cols % 2 ^ 32 * dtype_bytes c.tag.dtype) c.depth (2 ^ 32)
    ∙ ap (λ (x : ℕ). x % 2 ^ 32)
        (mul_assoc (c.tag.rows * c.tag.cols % 2 ^ 32) (dtype_bytes c.tag.dtype) c.depth)
    ∙ mod-mul (c.tag.rows * c.tag.cols) (dtype_bytes c.tag.dtype * c.depth) (2 ^ 32)
    ∙ ap (λ (x : ℕ). x % 2 ^ 32)
        (sym (mul_assoc (c.tag.rows * c.tag.cols) (dtype_bytes c.tag.dtype) c.depth))

place_total_lem :
    (c : TdChan) → channel_bytes c + 15 < 2 ^ 32 → place_total c ≡ aligned (channel_bytes c)
unfolding place_total td_tile_bytes channel_bytes
place_total_lem c h =
    ap (λ (x : ℕ). round_up ((x + td_fifo_bytes) % 2 ^ 32) td_l1_align) (tiles_lem c)
    ∙ ap (λ (x : ℕ). round_up x td_l1_align)
        {x = (c.tag.rows * c.tag.cols * dtype_bytes c.tag.dtype * c.depth % 2 ^ 32 + td_fifo_bytes)
          % 2 ^ 32}
        {y = channel_bytes c} (omega arith)
    ∙ round_up_lem (channel_bytes c) h

pub td_shbase_lem : (chip : ℕ) → (td_l1_cb_base ≤ td_shbase chip) × (td_shbase chip + 15 < 2 ^ 32)
unfolding td_shbase td_l1end
td_shbase_lem chip = ground arith

needed-ge : (lo : ℕ) (cs : List TdChan) → lo ≤ needed lo cs
unfolding needed
needed-ge lo [] = omega arith
needed-ge lo (c ∷ cs) = omega (arith, needed-ge (aligned lo + aligned (channel_bytes c)) cs)

le_test : (a b : ℕ) → a ≤ b → leb a b ≡ true
le_test a b h = ground arith

gt_test : (a b : ℕ) → b < a → leb a b ≡ false
gt_test a b h = ground arith

-- One round of the loop, where the buffer fits and where it does not.
place_from-fits :
    (chip lo : ℕ) (c : TdChan) (cs : List TdChan)
    → channel_bytes c + 15 < 2 ^ 32
    → aligned lo + aligned (channel_bytes c) ≤ td_shbase chip
    → place_from chip lo (c ∷ cs) ≡ (
        let rest = place_from chip (aligned lo + aligned (channel_bytes c)) cs in
        (record c { l1_off = aligned lo } ∷ rest.0, rest.1))
unfolding place_from
place_from-fits chip lo c cs small h =
    let fits = td_shbase_lem chip in
    let cut : (aligned lo + aligned (channel_bytes c)) % 2 ^ 32
        ≡ aligned lo + aligned (channel_bytes c) =
      omega arith in
    rw (round_up_lem lo (omega arith), place_total_lem c small, cut) (ground arith)

place_from-full :
    (chip lo : ℕ) (c : TdChan) (cs : List TdChan)
    → lo ≤ td_shbase chip
    → channel_bytes c + 15 < 2 ^ 32
    → td_shbase chip < aligned lo + aligned (channel_bytes c)
    → (place_from chip lo (c ∷ cs)).1 ≡ bc_err_tdf
unfolding place_from
place_from-full chip lo c cs low small h =
    let fits = td_shbase_lem chip in
    rw (round_up_lem lo (omega arith), place_total_lem c small) (ground arith)

-- The loop answers what the needed space says.
place_from_verdict :
    (chip lo : ℕ) (cs : List TdChan)
    → lo ≤ td_shbase chip
    → NoWrap cs
    → (place_from chip lo cs).1
      ≡ (if leb (needed lo cs) (td_shbase chip) then bc_ok else bc_err_tdf)
unfolding place_from needed NoWrap
place_from_verdict chip lo [] low small = rw (le_test lo (td_shbase chip) low) refl
place_from_verdict chip lo (c ∷ cs) low small =
    elim (dec_le (aligned lo + aligned (channel_bytes c)) (td_shbase chip)) [
      | yes p ↦
          ap (λ (r : List TdChan × ℤ). r.1) (place_from-fits chip lo c cs small.0 p)
          ∙ place_from_verdict chip (aligned lo + aligned (channel_bytes c)) cs p small.1
      | no p ↦
          place_from-full chip lo c cs low small.0 (omega arith)
          ∙ ap (λ (b : Bool). if b then bc_ok else bc_err_tdf)
              (sym (
                gt_test (needed (aligned lo + aligned (channel_bytes c)) cs) (td_shbase chip)
                  (omega (arith, needed-ge (aligned lo + aligned (channel_bytes c)) cs))))
    ]

-- The channel without the place it was given.
abbrev pub unplaced : TdChan → TdChan
unplaced c = record c { l1_off = 0 }

place_from-unplaced :
    (chip lo : ℕ) (cs : List TdChan) → map unplaced (place_from chip lo cs).0 ≡ map unplaced cs
unfolding place_from
place_from-unplaced chip lo [] = refl
place_from-unplaced chip lo (c ∷ cs) =
    let cur = round_up lo td_l1_align in
    if_cases (λ (r : List TdChan × ℤ). map unplaced r.0 ≡ map unplaced (c ∷ cs))
      (ltb (td_shbase chip) cur || ltb (td_shbase chip - cur) (place_total c)) (λ full. refl)
      (λ fits.
        ap (λ ds. unplaced c ∷ ds) (place_from-unplaced chip ((cur + place_total c) % 2 ^ 32) cs))

err_ne_ok : bc_err_tdf ≢ bc_ok
err_ne_ok e = cc e

Packed-lower : (lo lo' top : ℕ) (cs : List TdChan) → lo ≤ lo' → Packed lo' top cs → Packed lo top cs
unfolding Packed
Packed-lower lo lo' top [] h p = tt
Packed-lower lo lo' top (c ∷ cs) h p = (omega (arith, p.0), p.1, p.2, p.3)

place_from-Packed :
    (chip lo : ℕ) (cs : List TdChan)
    → lo ≤ td_shbase chip
    → NoWrap cs
    → (place_from chip lo cs).1 ≡ bc_ok
    → Packed lo (td_shbase chip) (place_from chip lo cs).0
unfolding NoWrap Packed place_from channel_bytes td_shbase
place_from-Packed chip lo [] low small ok = tt
place_from-Packed chip lo (c ∷ cs) low small ok =
    elim (dec_le (aligned lo + aligned (channel_bytes c)) (td_shbase chip)) [
      | yes p ↦
          let step = place_from-fits chip lo c cs small.0 p in
          let next = aligned lo + aligned (channel_bytes c) in
          let tail =
            place_from-Packed chip next cs p small.1
              (sym (ap (λ (r : List TdChan × ℤ). r.1) step) ∙ ok) in
          subst (λ (r : List TdChan × ℤ). Packed lo (td_shbase chip) r.0) (sym step)
            (
              omega arith,
              omega arith,
              omega arith,
              Packed-lower (aligned lo + channel_bytes c) next (td_shbase chip)
                  (place_from chip next cs).0 (omega arith) tail,
            )
      | no p ↦
          absurd (err_ne_ok (sym (place_from-full chip lo c cs low small.0 (omega arith)) ∙ ok))
    ]

module _ {B : Type 0} where
  -- Where no size of a channel leaves 32 bits, the placement answers BC_OK when the buffers,
  -- aligned one after another, end at or below the shared slab, and BC_ERR_TDF when they do
  -- not.
  pub td_place_l1_lem :
      (chip : ℕ) (M : TdMod B)
      → NoWrap M.chans
      → (td_place_l1 chip M).1
        ≡ (if leb (needed td_l1_cb_base M.chans) (td_shbase chip) then bc_ok else bc_err_tdf)
  unfolding td_place_l1
  td_place_l1_lem chip M small =
      place_from_verdict chip td_l1_cb_base M.chans (td_shbase_lem chip).0 small

  -- Where no size of a channel leaves 32 bits, a successful placement puts every circular
  -- buffer, its header included, at an aligned offset between the base of the buffers and the
  -- shared slab, behind the buffer before it, and changes nothing but the offsets.
  pub td_place_l1-Packed :
      (chip : ℕ) (M : TdMod B)
      → NoWrap M.chans
      → (td_place_l1 chip M).1 ≡ bc_ok
      → Packed td_l1_cb_base (td_shbase chip) (td_place_l1 chip M).0.chans
        × (map unplaced (td_place_l1 chip M).0.chans ≡ map unplaced M.chans)
        × ((td_place_l1 chip M).0.arcs ≡ M.arcs)
        × ((td_place_l1 chip M).0.rgns ≡ M.rgns)
  unfolding td_place_l1
  td_place_l1-Packed chip M small ok = (
    place_from-Packed chip td_l1_cb_base M.chans (td_shbase_lem chip).0 small ok,
    place_from-unplaced chip td_l1_cb_base M.chans,
    refl,
    refl,
  )

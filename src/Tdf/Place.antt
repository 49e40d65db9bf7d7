-- ===== src/Tdf/Place.antt =====
-- src/tdf/tdf_place.c. The sizes are `uint32_t`.
use booth.Base.{
  ℕ, ◌+◌, ◌-◌, ◌*◌, ◌%◌, ◌^◌, bit_and, ◌||◌, ◌==◌, ltb, if◌then◌else◌, List, [], ◌∷◌, ℤ, bc_ok,
  bc_err_tdf,
}
use booth.Bir.Defs.{type_float, type_bfloat, type_int}
use booth.Tdf.Defs.{TdTag, TdChan, TdMod, td_l1_cb_base, td_l1_align, td_fifo_bytes, td_shbase}

-- `(x + (a - 1u)) & ~(a - 1u)`
unfoldable pub round_up : ℕ → ℕ → ℕ
round_up x a = bit_and ((x + (a - 1)) % 2 ^ 32) (2 ^ 32 - 1 - (a - 1))

unfoldable pub dtype_bytes : ℕ → ℕ
dtype_bytes dt =
    if dt == type_float then 4 else if dt == type_bfloat then 2 else if dt == type_int then 4 else 4

unfoldable pub td_tile_bytes : TdTag → ℕ
td_tile_bytes tag = tag.rows * tag.cols % 2 ^ 32 * dtype_bytes tag.dtype % 2 ^ 32

-- The bytes that one channel takes, its header included.
unfoldable pub place_total : TdChan → ℕ
place_total c =
    let data_b = td_tile_bytes c.tag * c.depth % 2 ^ 32 in
    round_up ((data_b + td_fifo_bytes) % 2 ^ 32) td_l1_align

-- The loop from the running offset `cur`. The channel that does not fit has its offset already.
unfoldable pub place_from : ℕ → ℕ → List TdChan → List TdChan × ℤ
place_from chip cur [] = ([], bc_ok)
place_from chip cur (c ∷ cs) =
    let cur₁ = round_up cur td_l1_align in
    let c₁ = record c { l1_off = cur₁ } in
    let total = place_total c in
    let top = td_shbase chip in
    let rest = place_from chip ((cur₁ + total) % 2 ^ 32) cs in
    if ltb top cur₁ || ltb (top - cur₁) total then (c₁ ∷ cs, bc_err_tdf) else (c₁ ∷ rest.0, rest.1)

module _ {B : Type 0} where
  unfoldable pub td_place_l1 : ℕ → TdMod B → TdMod B × ℤ
  td_place_l1 chip M =
      let (chans, code) = place_from chip td_l1_cb_base M.chans in
      (record M { chans = chans }, code)

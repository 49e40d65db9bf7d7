-- ===== src/Tdf/Orchestrate.antt =====
-- The encoder of addresses and the orchestration pass of src/tdf/tdf_noc.c.
use booth.Base.{
  ℕ, ◌*◌, ◌^◌, bit_and, bit_or, not, ◌&&◌, ◌==◌, ltb, if◌then◌else◌, none, some, List, [], ◌∷◌,
  get_elem?, ℤ, bc_ok, bc_err_tdf,
}
use booth.Tdf.Defs.{TdChan, TdArc, TdMod, td_ar_rd, td_ar_wr, td_noc_max_xfer}
use booth.Tdf.Place.{td_tile_bytes}

unfoldable pub td_noc_addr : (x y local : ℕ) → ℕ
td_noc_addr x y local =
    bit_or (bit_or (bit_and local 0x0000000FFFFFFFFF) (bit_and x 0x3F * 2 ^ 36))
      (bit_and y 0x3F * 2 ^ 42)

-- The loop over the arcs. The arc that is refused for its length has its `noc_id` already.
unfoldable pub orchestrate_from : List TdChan → List TdArc → List TdArc × ℤ
orchestrate_from chans [] = ([], bc_ok)
orchestrate_from chans (a ∷ as') =
    let rest = orchestrate_from chans as' in
    if not (a.kind == td_ar_rd) && not (a.kind == td_ar_wr)
    then (a ∷ rest.0, rest.1)
    else elim (get_elem? chans a.chan) [
      | none ↦ (a ∷ as', bc_err_tdf)
      | some c ↦
          let a₁ = record a { noc_id = if a.kind == td_ar_rd then 0 else 1 } in
          let len = td_tile_bytes c.tag in
          if len == 0
          then (a₁ ∷ as', bc_err_tdf)
          else if ltb td_noc_max_xfer len
          then (a₁ ∷ as', bc_err_tdf)
          else (record a₁ { length = len } ∷ rest.0, rest.1)
    ]

module _ {B : Type 0} where
  unfoldable pub td_noc_orchestrate : TdMod B → TdMod B × ℤ
  td_noc_orchestrate M =
      let (arcs, code) = orchestrate_from M.chans M.arcs in (record M { arcs = arcs }, code)

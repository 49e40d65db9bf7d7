-- ===== src/Tdf/Tests.antt =====
-- Graphs of the kind that the fission of a tiled kernel builds.
use booth.Base.{
  ℕ, ◌≤◌, ◌≡◌, ◌↔◌, refl, arith, leb, if◌then◌else◌, List, [], ◌∷◌, map, bc_ok, bc_err_tdf,
}
use booth.Bir.Defs.{type_float, type_bfloat}
use booth.Tdf.Defs.{
  TdTag, TdChan, TdArc, TdMod, td_l1_cb_base, td_shbase, td_ar_push, td_ar_rd, td_ar_wr, td_chip_wh,
  td_chip_bh, td_tgt_tensix,
}
use booth.Tdf.Place.{td_place_l1, td_tile_bytes, dtype_bytes, place_from, round_up, place_total}
use booth.Tdf.Packing.{
  NoWrap, channel_bytes, needed, Packed, unplaced, td_place_l1_lem, td_place_l1-Packed,
}
use booth.Tdf.Build.{td_init}
use booth.Tdf.Graph.{Call, IsGraph, apply_all, apply_all-IsGraph}
use booth.Tdf.Lower.{td_lower}
use booth.Tdf.Solo.{IsSolo, td_lower_iff}

abbrev tile : TdTag
tile = record { rows = 32; cols = 32; dtype = type_bfloat; layout = 0 }

abbrev channel : ℕ → TdChan
channel id = record { id = id; prod = 0; cons = 1; depth = 2; tag = tile; l1_off = 0 }

abbrev arc : ℕ → ℕ → TdArc
arc kind chan = record {
  kind = kind;
  noc_id = 0;
  rgn = 0;
  chan = chan;
  cnt = 1;
  bir_inst = 0;
  length = 0;
}

-- A body is its number here.
abbrev two_channels : TdMod ℕ
two_channels = record {
  rgns = [];
  chans = channel 0 ∷ channel 1 ∷ [];
  arcs = arc td_ar_rd 0 ∷ arc td_ar_push 0 ∷ arc td_ar_wr 1 ∷ [];
  target = td_tgt_tensix;
}

two_channels-NoWrap : NoWrap two_channels.chans
unfolding NoWrap channel_bytes dtype_bytes
two_channels-NoWrap = (omega arith, (omega arith, tt))

fits : (td_place_l1 td_chip_wh two_channels).1 ≡ bc_ok
unfolding td_place_l1 place_from td_tile_bytes dtype_bytes round_up place_total td_shbase
fits = refl

td_place_l1_lem_example : (td_place_l1 td_chip_wh two_channels).1 ≡ (
    if leb (needed td_l1_cb_base two_channels.chans) (td_shbase td_chip_wh)
    then bc_ok
    else bc_err_tdf)
td_place_l1_lem_example = td_place_l1_lem td_chip_wh two_channels two_channels-NoWrap

td_place_l1-Packed_example :
    Packed td_l1_cb_base (td_shbase td_chip_wh) (td_place_l1 td_chip_wh two_channels).0.chans
    × (map unplaced (td_place_l1 td_chip_wh two_channels).0.chans ≡ map unplaced two_channels.chans)
    × ((td_place_l1 td_chip_wh two_channels).0.arcs ≡ two_channels.arcs)
    × ((td_place_l1 td_chip_wh two_channels).0.rgns ≡ two_channels.rgns)
td_place_l1-Packed_example = td_place_l1-Packed td_chip_wh two_channels two_channels-NoWrap fits

abbrev calls : List Call
calls =
    Call.mkrgn 0
    ∷ Call.mkrgn 1
    ∷ Call.link 0 1 tile 2
    ∷ Call.link 0 9 tile 2
    ∷ Call.mkarc 0 td_ar_push 0 1 7 (omega arith)
    ∷ Call.mkarc 1 td_ar_push 5 1 8 (omega arith)
    ∷ []

apply_all-IsGraph_example : IsGraph (apply_all calls (td_init {B = ℕ} td_tgt_tensix))
apply_all-IsGraph_example = apply_all-IsGraph td_tgt_tensix calls

td_lower_iff_example :
    (td_lower two_channels ≡ (record { mods = 5 ∷ []; owns = 0 ∷ [] }, bc_ok))
    ↔ ((td_tgt_tensix ≤ td_tgt_tensix) × IsSolo two_channels 5)
td_lower_iff_example = td_lower_iff two_channels 5

-- 16384 tiles of 256 by 256 floats are 2 ^ 32 bytes, and 0 of them as a `uint32_t`.
abbrev huge : TdMod ℕ
huge = record {
  rgns = [];
  chans =
      record (channel 0) {
        depth = 16384;
        tag = record { rows = 256; cols = 256; dtype = type_float; layout = 0 };
      }
      ∷ [];
  arcs = [];
  target = td_tgt_tensix;
}

huge-placed : (td_place_l1 td_chip_bh huge).1 ≡ bc_ok
unfolding td_place_l1 place_from td_tile_bytes dtype_bytes round_up place_total td_shbase
huge-placed = refl

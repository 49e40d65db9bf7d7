-- ===== src/Tdf/Defs.antt =====
-- The data of src/tdf/tdf.h. An arena with its count is the list of the entries in use, an
-- enumeration its number. `B` is the type of a region's body, a pointer to a BIR module.
use booth.Base.{ℕ, ◌-◌, ◌*◌, ◌==◌, ltb, if◌then◌else◌, Option, List}

abbrev pub td_max_rgns : ℕ
td_max_rgns = 64

abbrev pub td_max_chans : ℕ
td_max_chans = 128

abbrev pub td_max_arcs : ℕ
td_max_arcs = 1024

abbrev pub td_bad_id : ℕ
td_bad_id = 0xFFFF

abbrev pub td_l1_rtarg_base : ℕ
td_l1_rtarg_base = 0x00008000

-- `TD_L1_RTARG_BASE + TD_L1_RTARG_SIZE`
abbrev pub td_l1_cb_base : ℕ
td_l1_cb_base = 0x00008100

abbrev pub td_l1_shared_size : ℕ
td_l1_shared_size = 0x00010000

abbrev pub td_l1_align : ℕ
td_l1_align = 16

abbrev pub td_fifo_bytes : ℕ
td_fifo_bytes = 8

abbrev pub td_noc_max_xfer : ℕ
td_noc_max_xfer = 8192

-- `td_chip_t`
abbrev pub td_chip_wh : ℕ
td_chip_wh = 0

abbrev pub td_chip_bh : ℕ
td_chip_bh = 1

abbrev pub td_chip_count : ℕ
td_chip_count = 2

-- `td_role_t`
abbrev pub td_rg_solo : ℕ
td_rg_solo = 4

-- `td_arc_kind_t`
abbrev pub td_ar_rsv : ℕ
td_ar_rsv = 0

abbrev pub td_ar_push : ℕ
td_ar_push = 1

abbrev pub td_ar_wait : ℕ
td_ar_wait = 2

abbrev pub td_ar_pop : ℕ
td_ar_pop = 3

abbrev pub td_ar_rd : ℕ
td_ar_rd = 4

abbrev pub td_ar_wr : ℕ
td_ar_wr = 5

-- `td_target_t`
abbrev pub td_tgt_amd : ℕ
td_tgt_amd = 0

abbrev pub td_tgt_nvidia : ℕ
td_tgt_nvidia = 1

abbrev pub td_tgt_tensix : ℕ
td_tgt_tensix = 2

pub record TdTag : Type 0 where
  pub rows : ℕ
  pub cols : ℕ
  pub dtype : ℕ
  pub layout : ℕ

pub record TdRgn (B : Type 0) : Type 0 where
  pub id : ℕ
  pub role : ℕ
  pub core : ℕ
  pub x : ℕ
  pub y : ℕ
  pub twa_sz : ℕ
  pub args : List ℕ
  pub body : Option B

pub record TdChan : Type 0 where
  pub id : ℕ
  pub prod : ℕ
  pub cons : ℕ
  pub depth : ℕ
  pub tag : TdTag
  pub l1_off : ℕ

pub record TdArc : Type 0 where
  pub kind : ℕ
  pub noc_id : ℕ
  pub rgn : ℕ
  pub chan : ℕ
  pub cnt : ℕ
  pub bir_inst : ℕ
  pub length : ℕ

pub record TdMod (B : Type 0) : Type 0 where
  pub rgns : List (TdRgn B)
  pub chans : List TdChan
  pub arcs : List TdArc
  pub target : ℕ

-- `td_lout_t`: the first `nmods` entries.
pub record TdLout (B : Type 0) : Type 0 where
  pub mods : List B
  pub owns : List ℕ

-- The chip that the command line chose stands in a variable of tdf.c, and is an argument here.
unfoldable pub chipok : ℕ → ℕ
chipok c = if ltb c td_chip_count then c else td_chip_bh

unfoldable pub td_l1end : ℕ → ℕ
unfolding chipok
td_l1end c = if chipok c == td_chip_wh then 1464 * 1024 else 1536 * 1024

unfoldable pub td_txtmax : ℕ → ℕ
unfolding chipok
td_txtmax c = if chipok c == td_chip_wh then 16 * 1024 else 1497 * 1024

unfoldable pub td_shbase : ℕ → ℕ
unfolding td_l1end
td_shbase c = td_l1end c - td_l1_shared_size

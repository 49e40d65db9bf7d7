-- ===== src/Tdf/Arcs.antt =====
-- The emitters of src/tdf/tdf_noc.c: one arc, and the loop that transfers tiles.
use mathlib.Core.Option
use booth.Base.{
  ℕ, ◌+◌, ◌*◌, ◌/◌, ◌%◌, ◌^◌, Bool, ◌==◌, if◌then◌else◌, none, some, get_elem?, ℤ, pos, negsuc,
  to_u32, bc_ok, bc_err_tdf,
}
use booth.RvEnc.Ops.{rv_lw, rv_add, rv_addi, rv_bltu, rv_beq, rv_jal}
use booth.Tensix.Buf.{RvBuf, rv_buf_emit, rv_buf_patch, rv_buf_n_words, rv_buf_offset}
use booth.Tensix.Noc.{
  emit, to_i16, rv_t0, tt_li32, tt_sem_init, tt_cb_reserve_back, tt_cb_wait_front, tt_cb_push_back,
  tt_cb_pop_front, tt_noc_xfer_reg, tt_noc_barrier,
}
use booth.Tdf.Defs.{
  TdRgn, TdArc, TdMod, td_ar_rsv, td_ar_push, td_ar_wait, td_ar_pop, td_l1_rtarg_base,
}
use booth.Tdf.Build.{new_rgn}
use booth.Tdf.Place.{td_tile_bytes}
use booth.Tdf.Orchestrate.{td_noc_addr}

abbrev pub rv_a3 : ℕ
rv_a3 = 13

abbrev pub rv_a4 : ℕ
rv_a4 = 14

abbrev pub rv_a5 : ℕ
rv_a5 = 15

abbrev pub rv_a6 : ℕ
rv_a6 = 16

abbrev pub rv_a7 : ℕ
rv_a7 = 17

abbrev pub rv_zero : ℕ
rv_zero = 0

module _ {B : Type 0} where
  -- `&M->rgns[id]`, of an id that the builder has checked.
  abbrev pub rgn_at : TdMod B → ℕ → TdRgn B
  rgn_at M id = Option.get_or (get_elem? M.rgns id) (new_rgn 0 0)

  unfoldable pub td_emit_cb_arc : TdMod B → TdArc → RvBuf → RvBuf × ℤ
  td_emit_cb_arc M a code = elim (get_elem? M.chans a.chan) [
    | none ↦ (code, bc_err_tdf)
    | some c ↦
        let data_b = td_tile_bytes c.tag * c.depth % 2 ^ 32 in
        let recv = (c.l1_off + data_b) % 2 ^ 32 in
        let freec = (c.l1_off + data_b + 4) % 2 ^ 32 in
        if a.kind == td_ar_rsv
        then tt_cb_reserve_back code freec a.cnt
        else if a.kind == td_ar_wait
        then tt_cb_wait_front code recv a.cnt
        else if a.kind == td_ar_push
        then (let cons = rgn_at M c.cons in
            let na = td_noc_addr (cons.x % 2 ^ 8) (cons.y % 2 ^ 8) recv in
            tt_cb_push_back code (na % 2 ^ 32) (na / 2 ^ 32) a.cnt)
        else if a.kind == td_ar_pop
        then (let prod = rgn_at M c.prod in
            let na = td_noc_addr (prod.x % 2 ^ 8) (prod.y % 2 ^ 8) freec in
            tt_cb_pop_front code (na % 2 ^ 32) (na / 2 ^ 32) a.cnt)
        else (code, bc_err_tdf)
  ]

-- `(int16_t)RT_ARG_OFF_KARG(slot)`
unfoldable pub karg_offset : ℕ → ℤ
karg_offset slot = to_i16 (pos ((48 + slot * 4) % 2 ^ 32))

-- The counter that this core acquires, and the registers of the loop.
unfoldable pub dma_prologue :
    RvBuf
    → Bool
    → (dram_arg_slot ntiles_arg_slot l1_buf depth tile_bytes recv_addr free_addr : ℕ) → RvBuf
dma_prologue code is_write dram_arg_slot ntiles_arg_slot l1_buf depth tile_bytes recv_addr
      free_addr =
    let ring_end = (l1_buf + depth * tile_bytes % 2 ^ 32) % 2 ^ 32 in
    let c₀ =
      if is_write then (tt_sem_init code recv_addr 0).0 else (tt_sem_init code free_addr depth).0 in
    let c₁ = tt_li32 c₀ rv_t0 td_l1_rtarg_base in
    let c₂ = emit c₁ (rv_lw rv_a3 rv_t0 (karg_offset dram_arg_slot)) in
    let c₃ = emit c₂ (rv_lw rv_a5 rv_t0 (karg_offset ntiles_arg_slot)) in
    let c₄ = tt_li32 c₃ rv_a4 l1_buf in
    let c₅ = tt_li32 c₄ rv_a6 tile_bytes in tt_li32 c₅ rv_a7 ring_end

-- The gate, the transfer, its barrier and the signal.
unfoldable pub dma_transfer :
    RvBuf → Bool → (dram_mid l1_mid tile_bytes recv_addr free_addr : ℕ) → RvBuf
dma_transfer code is_write dram_mid l1_mid tile_bytes recv_addr free_addr =
    let c₁ =
      if is_write
      then (tt_cb_wait_front code recv_addr 1).0
      else (tt_cb_reserve_back code free_addr 1).0 in
    let c₂ =
      if is_write
      then (tt_noc_xfer_reg c₁ is_write rv_a4 rv_a3 l1_mid dram_mid tile_bytes).0
      else (tt_noc_xfer_reg c₁ is_write rv_a3 rv_a4 dram_mid l1_mid tile_bytes).0 in
    let c₃ = (tt_noc_barrier c₂ is_write).0 in
    if is_write then (tt_cb_pop_front c₃ free_addr 0 1).0 else (tt_cb_push_back c₃ recv_addr 0 1).0

unfoldable pub td_emit_dma_loop :
    RvBuf
    → Bool
    → (dram_arg_slot ntiles_arg_slot l1_buf depth dram_mid l1_mid tile_bytes recv_addr
        free_addr : ℕ)
    → RvBuf × ℤ
td_emit_dma_loop code is_write dram_arg_slot ntiles_arg_slot l1_buf depth dram_mid l1_mid tile_bytes
      recv_addr free_addr =
    let c₀ =
      dma_prologue code is_write dram_arg_slot ntiles_arg_slot l1_buf depth tile_bytes recv_addr
        free_addr in
    let loop = rv_buf_n_words c₀ in
    let (c₁, exit_index) = rv_buf_emit c₀ 0 in
    let br_exit = to_u32 exit_index in
    let c₂ = dma_transfer c₁ is_write dram_mid l1_mid tile_bytes recv_addr free_addr in
    let c₃ = emit c₂ (rv_add rv_a3 rv_a3 rv_a6) in
    let c₄ = emit c₃ (rv_add rv_a4 rv_a4 rv_a6) in
    let (c₅, wrap_index) = rv_buf_emit c₄ 0 in
    let br_wrap = to_u32 wrap_index in
    let c₆ = tt_li32 c₅ rv_a4 l1_buf in
    let nowrap = rv_buf_n_words c₆ in
    let c₇ =
      (rv_buf_patch c₆ br_wrap
        (rv_bltu rv_a4 rv_a7 (to_i16 (rv_buf_offset c₆ br_wrap nowrap)))).0 in
    let c₈ = emit c₇ (rv_addi rv_a5 rv_a5 (negsuc 0)) in
    let jback = rv_buf_n_words c₈ in
    let c₉ = emit c₈ (rv_jal rv_zero (rv_buf_offset c₈ jback loop)) in
    let done = rv_buf_n_words c₉ in
    (
      (rv_buf_patch c₉ br_exit (rv_beq rv_a5 rv_zero (to_i16 (rv_buf_offset c₉ br_exit done)))).0,
      bc_ok,
    )

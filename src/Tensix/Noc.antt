-- ===== src/Tensix/Noc.antt =====
-- src/tensix/noc.c. Each function answers the buffer after its calls of `rv_buf_emit`, whose
-- result it does not look at, and its own result code.
use booth.Base.{
  ℕ, ◌+◌, ◌-◌, ◌*◌, ◌/◌, ◌%◌, ◌^◌, bit_and, bit_or, Bool, false, not, ◌==◌, if◌then◌else◌, ℤ, pos,
  negsuc, sub_ℕ, to_u32, signed, bc_ok,
}
use booth.RvEnc.Ops.{rv_addi, rv_lui, rv_sw, rv_lw, rv_bltu, rv_bne}
use booth.Tensix.Buf.{RvBuf, rv_buf_emit, rv_buf_n_words, rv_buf_offset}

abbrev pub niu_base : ℕ
niu_base = 0xFFB20000

abbrev pub noc_targ_lo : ℕ
noc_targ_lo = 0x00

abbrev pub noc_targ_mid : ℕ
noc_targ_mid = 0x04

abbrev pub noc_ret_lo : ℕ
noc_ret_lo = 0x0C

abbrev pub noc_ret_mid : ℕ
noc_ret_mid = 0x10

abbrev pub noc_ctrl : ℕ
noc_ctrl = 0x1C

abbrev pub noc_at_len_be : ℕ
noc_at_len_be = 0x20

abbrev pub noc_at_data : ℕ
noc_at_data = 0x24

abbrev pub noc_cmd_ctrl : ℕ
noc_cmd_ctrl = 0x28

abbrev pub noc_cmd_rd : ℕ
noc_cmd_rd = 0

abbrev pub noc_cmd_at : ℕ
noc_cmd_at = 1

abbrev pub noc_cmd_wr : ℕ
noc_cmd_wr = 2

abbrev pub noc_cmd_resp_marked : ℕ
noc_cmd_resp_marked = 2 ^ 4

abbrev pub niu_cnt_base : ℕ
niu_cnt_base = 0xFFB20200

abbrev pub cnt_wr_ack : ℕ
cnt_wr_ack = 4

abbrev pub cnt_rd_resp : ℕ
cnt_rd_resp = 8

abbrev pub cnt_rd_req : ℕ
cnt_rd_req = 20

abbrev pub cnt_wr_sent : ℕ
cnt_wr_sent = 40

-- `(1u << 12) | (31u << 2)`
abbrev pub noc_at_inc_full : ℕ
noc_at_inc_full = bit_or (2 ^ 12) (31 * 2 ^ 2)

abbrev pub rv_x0 : ℕ
rv_x0 = 0

abbrev pub rv_t0 : ℕ
rv_t0 = 5

abbrev pub rv_t1 : ℕ
rv_t1 = 6

abbrev pub rv_t2 : ℕ
rv_t2 = 7

-- A call of `rv_buf_emit` for its effect.
unfoldable pub emit : RvBuf → ℕ → RvBuf
emit c word = (rv_buf_emit c word).0

-- `(int16_t)` of an `int32_t`.
abbrev pub to_i16 : ℤ → ℤ
to_i16 z = signed 16 (to_u32 z % 2 ^ 16)

-- The two parts of a value, after the correction for the sign of the low one.
unfoldable pub li_negative : ℕ → Bool
li_negative v = not (bit_and (bit_and v 0xFFF) 0x800 == 0)

unfoldable pub li_lo : ℕ → ℤ
unfolding li_negative
li_lo v = if li_negative v then sub_ℕ (bit_and v 0xFFF) 0x1000 else pos (bit_and v 0xFFF)

unfoldable pub li_hi : ℕ → ℕ
unfolding li_negative
li_hi v =
    let hi = bit_and (v / 2 ^ 12) 0xFFFFF in
    if li_negative v then bit_and ((hi + 1) % 2 ^ 32) 0xFFFFF else hi

unfoldable pub is_zero_int : ℤ → Bool
is_zero_int (pos n) = n == 0
is_zero_int (negsuc n) = false

unfoldable pub li32 : RvBuf → (reg v : ℕ) → RvBuf
li32 c reg v =
    if not (li_hi v == 0)
    then (let c₁ = emit c (rv_lui reg (li_hi v)) in
        if not (is_zero_int (li_lo v)) then emit c₁ (rv_addi reg reg (to_i16 (li_lo v))) else c₁)
    else emit c (rv_addi reg rv_x0 (to_i16 (li_lo v)))

unfoldable pub store_reg : RvBuf → (v off : ℕ) → RvBuf
store_reg c v off = emit (li32 c rv_t1 v) (rv_sw rv_t1 rv_t0 (pos off))

unfoldable pub noc_xfer : RvBuf → (ctrl tlo tmid rlo rmid len : ℕ) → RvBuf × ℤ
noc_xfer c ctrl tlo tmid rlo rmid len =
    let c₀ = li32 c rv_t0 niu_base in
    let c₁ = store_reg c₀ tlo noc_targ_lo in
    let c₂ = store_reg c₁ tmid noc_targ_mid in
    let c₃ = store_reg c₂ rlo noc_ret_lo in
    let c₄ = store_reg c₃ rmid noc_ret_mid in
    let c₅ = store_reg c₄ len noc_at_len_be in
    let c₆ = store_reg c₅ ctrl noc_ctrl in (store_reg c₆ 1 noc_cmd_ctrl, bc_ok)

unfoldable pub tt_noc_read : RvBuf → (tlo tmid rlo rmid len : ℕ) → RvBuf × ℤ
tt_noc_read c tlo tmid rlo rmid len = noc_xfer c noc_cmd_rd tlo tmid rlo rmid len

unfoldable pub tt_noc_write : RvBuf → (tlo tmid rlo rmid len : ℕ) → RvBuf × ℤ
tt_noc_write c tlo tmid rlo rmid len = noc_xfer c noc_cmd_wr tlo tmid rlo rmid len

unfoldable pub tt_sem_inc : RvBuf → (sem_lo sem_mid incr : ℕ) → RvBuf × ℤ
tt_sem_inc c sem_lo sem_mid incr =
    let c₀ = li32 c rv_t0 niu_base in
    let c₁ = store_reg c₀ sem_lo noc_targ_lo in
    let c₂ = store_reg c₁ sem_mid noc_targ_mid in
    let c₃ = store_reg c₂ noc_at_inc_full noc_at_len_be in
    let c₄ = store_reg c₃ incr noc_at_data in
    let c₅ = store_reg c₄ noc_cmd_at noc_ctrl in (store_reg c₅ 1 noc_cmd_ctrl, bc_ok)

unfoldable pub tt_sem_wait_ge : RvBuf → (sem_addr threshold : ℕ) → RvBuf × ℤ
tt_sem_wait_ge c sem_addr threshold =
    let c₁ = li32 (li32 c rv_t0 sem_addr) rv_t2 threshold in
    let loop = rv_buf_n_words c₁ in
    let c₂ = emit c₁ (rv_lw rv_t1 rv_t0 (pos 0)) in
    let off = rv_buf_offset c₂ (rv_buf_n_words c₂) loop in
    (emit c₂ (rv_bltu rv_t1 rv_t2 (to_i16 off)), bc_ok)

unfoldable pub tt_sem_init : RvBuf → (sem_addr val : ℕ) → RvBuf × ℤ
tt_sem_init c sem_addr val =
    (emit (li32 (li32 c rv_t0 sem_addr) rv_t1 val) (rv_sw rv_t1 rv_t0 (pos 0)), bc_ok)

-- `0u - n` on `uint32_t`.
unfoldable pub tt_sem_acquire : RvBuf → (sem_addr n : ℕ) → RvBuf × ℤ
tt_sem_acquire c sem_addr n =
    let c₁ = (tt_sem_wait_ge c sem_addr n).0 in
    let c₂ = (tt_sem_inc c₁ sem_addr 0 ((2 ^ 32 - n) % 2 ^ 32)).0 in (c₂, bc_ok)

unfoldable pub tt_cb_reserve_back : RvBuf → (free_addr credits : ℕ) → RvBuf × ℤ
tt_cb_reserve_back c free_addr credits = tt_sem_acquire c free_addr credits

unfoldable pub tt_cb_push_back : RvBuf → (recv_lo recv_mid n : ℕ) → RvBuf × ℤ
tt_cb_push_back c recv_lo recv_mid n = tt_sem_inc c recv_lo recv_mid n

unfoldable pub tt_cb_wait_front : RvBuf → (recv_addr n : ℕ) → RvBuf × ℤ
tt_cb_wait_front c recv_addr n = tt_sem_acquire c recv_addr n

unfoldable pub tt_cb_pop_front : RvBuf → (free_lo free_mid n : ℕ) → RvBuf × ℤ
tt_cb_pop_front c free_lo free_mid n = tt_sem_inc c free_lo free_mid n

unfoldable pub tt_li32 : RvBuf → (reg v : ℕ) → RvBuf
tt_li32 c reg v = li32 c reg v

unfoldable pub tt_noc_xfer_reg : RvBuf → Bool → (treg rreg tmid rmid len : ℕ) → RvBuf × ℤ
tt_noc_xfer_reg c is_write treg rreg tmid rmid len =
    let ctrl : ℕ = if is_write then bit_or noc_cmd_wr noc_cmd_resp_marked else noc_cmd_rd in
    let c₀ = li32 c rv_t0 niu_base in
    let c₁ = emit c₀ (rv_sw treg rv_t0 (pos noc_targ_lo)) in
    let c₂ = store_reg c₁ tmid noc_targ_mid in
    let c₃ = emit c₂ (rv_sw rreg rv_t0 (pos noc_ret_lo)) in
    let c₄ = store_reg c₃ rmid noc_ret_mid in
    let c₅ = store_reg c₄ len noc_at_len_be in
    let c₆ = store_reg c₅ ctrl noc_ctrl in (store_reg c₆ 1 noc_cmd_ctrl, bc_ok)

unfoldable pub tt_noc_barrier : RvBuf → Bool → RvBuf × ℤ
tt_noc_barrier c is_write =
    let sent : ℕ = if is_write then cnt_wr_sent else cnt_rd_req in
    let got : ℕ = if is_write then cnt_wr_ack else cnt_rd_resp in
    let c₁ = li32 c rv_t0 niu_base in
    let c₂ = emit c₁ (rv_lw rv_t1 rv_t0 (pos noc_cmd_ctrl)) in
    let c₃ = li32 c₂ rv_t0 niu_cnt_base in
    let loop = rv_buf_n_words c₃ in
    let c₄ = emit c₃ (rv_lw rv_t1 rv_t0 (pos sent)) in
    let c₅ = emit c₄ (rv_lw rv_t2 rv_t0 (pos got)) in
    let off = rv_buf_offset c₅ (rv_buf_n_words c₅) loop in
    (emit c₅ (rv_bne rv_t1 rv_t2 (to_i16 off)), bc_ok)

-- ===== src/Tensix/Requests.antt =====
-- The requests of src/tensix/noc.c at the registers of the network interface, in the order in which
-- it needs them: the trigger comes last.
use booth.Base.{
  ℕ, ◌+◌, ◌*◌, ◌^◌, ◌≤◌, ◌<◌, ◌≡◌, arith, bit_or, Bool, true, false, if◌then◌else◌, List, [], ◌∷◌,
  ◌++◌, length, some,
}
use booth.Tensix.Buf.{RvBuf, rv_buf_max_words}
use booth.Tensix.Noc.{
  noc_xfer, tt_sem_inc, tt_noc_xfer_reg, niu_base, noc_targ_lo, noc_targ_mid, noc_ret_lo,
  noc_ret_mid, noc_at_len_be, noc_at_data, noc_ctrl, noc_cmd_ctrl, noc_at_inc_full, noc_cmd_at,
  noc_cmd_wr, noc_cmd_rd, noc_cmd_resp_marked,
}
use booth.Tensix.Machine.{Machine, Env, run}
use booth.Tensix.Program.{Holds}
use booth.Tensix.Transfers.{of_value, of_reg, write, write_all, request_lem}

-- The machine runs the words of the buffer `after`, whatever stands behind them, does these stores
-- in this order and leaves the registers from 8 on.
abbrev pub Serves : Env → (after : RvBuf) → (rest : List ℕ) → Machine → List (ℕ × ℕ) → Type 0
Serves env after rest m trace =
    (n : ℕ) × (m' : Machine) × (run env (after.words ++ rest) n m ≡ some m')
    × (m'.pc ≡ length after.words * 4)
    × Holds m.regs m'
    × (m'.stores ≡ m.stores ++ trace)

module _ (c : RvBuf) (rest : List ℕ) (env : Env) (m : Machine) (pc : m.pc ≡ length c.words * 4)
    (room : length c.words + 23 ≤ rv_buf_max_words) where
  -- Where 23 more words fit, a machine that starts at the words noc_xfer emits runs through
  -- them, stores the two targets, the two returns, the length and the control word to the
  -- registers of the network interface and 1 to the trigger after all of them, nothing else,
  -- and keeps the registers from 8 on; each value is any 32-bit number.
  pub noc_xfer_lem :
      (ctrl tlo tmid rlo rmid len : ℕ)
      → ctrl < 2 ^ 32
      → tlo < 2 ^ 32
      → tmid < 2 ^ 32
      → rlo < 2 ^ 32
      → rmid < 2 ^ 32
      → len < 2 ^ 32
      → Serves env (noc_xfer c ctrl tlo tmid rlo rmid len).0 rest m (
          (0xFFB20000, tlo)
          ∷ (0xFFB20004, tmid)
          ∷ (0xFFB2000C, rlo)
          ∷ (0xFFB20010, rmid)
          ∷ (0xFFB20020, len)
          ∷ (0xFFB2001C, ctrl)
          ∷ (0xFFB20028, 1)
          ∷ [])
  unfolding noc_xfer write_all write
  noc_xfer_lem ctrl tlo tmid rlo rmid len h1 h2 h3 h4 h5 h6 =
      request_lem c niu_base
        (of_value tlo noc_targ_lo
          ∷ of_value tmid noc_targ_mid
          ∷ of_value rlo noc_ret_lo
          ∷ of_value rmid noc_ret_mid
          ∷ of_value len noc_at_len_be
          ∷ of_value ctrl noc_ctrl
          ∷ of_value 1 noc_cmd_ctrl
          ∷ [])
        rest env m (omega arith) (omega arith) (omega arith) pc

  -- Where 23 more words fit, a machine that starts at the words tt_sem_inc emits runs through
  -- them and stores the address of the counter, the code of a full-word increment, the
  -- increment and the atomic command to the registers of the network interface, and the trigger
  -- last.
  pub tt_sem_inc_lem :
      (sem_lo sem_mid incr : ℕ)
      → sem_lo < 2 ^ 32
      → sem_mid < 2 ^ 32
      → incr < 2 ^ 32
      → Serves env (tt_sem_inc c sem_lo sem_mid incr).0 rest m (
          (0xFFB20000, sem_lo)
          ∷ (0xFFB20004, sem_mid)
          ∷ (0xFFB20020, 0x107C)
          ∷ (0xFFB20024, incr)
          ∷ (0xFFB2001C, 1)
          ∷ (0xFFB20028, 1)
          ∷ [])
  unfolding tt_sem_inc write_all write
  tt_sem_inc_lem sem_lo sem_mid incr h1 h2 h3 =
      request_lem c niu_base
        (of_value sem_lo noc_targ_lo
          ∷ of_value sem_mid noc_targ_mid
          ∷ of_value noc_at_inc_full noc_at_len_be
          ∷ of_value incr noc_at_data
          ∷ of_value noc_cmd_at noc_ctrl
          ∷ of_value 1 noc_cmd_ctrl
          ∷ [])
        rest env m (omega arith) (omega arith) (omega arith) pc

  -- Where 23 more words fit, a machine that starts at the words tt_noc_xfer_reg emits runs
  -- through them and stores the two registers named, which are from 8 to 31, and the constants
  -- to the registers of the network interface, with the control word of the direction and the
  -- trigger last.
  pub tt_noc_xfer_reg_lem :
      (is_write : Bool) (treg rreg tmid rmid len : ℕ)
      → 8 ≤ treg
      → treg < 32
      → 8 ≤ rreg
      → rreg < 32
      → tmid < 2 ^ 32
      → rmid < 2 ^ 32
      → len < 2 ^ 32
      → Serves env (tt_noc_xfer_reg c is_write treg rreg tmid rmid len).0 rest m (
          (0xFFB20000, m.regs treg)
          ∷ (0xFFB20004, tmid)
          ∷ (0xFFB2000C, m.regs rreg)
          ∷ (0xFFB20010, rmid)
          ∷ (0xFFB20020, len)
          ∷ (0xFFB2001C, if is_write then 0x12 else 0)
          ∷ (0xFFB20028, 1)
          ∷ [])
  unfolding tt_noc_xfer_reg write_all write
  tt_noc_xfer_reg_lem true treg rreg tmid rmid len h1 h2 h3 h4 h5 h6 h7 =
      request_lem c niu_base
        (of_reg treg noc_targ_lo
          ∷ of_value tmid noc_targ_mid
          ∷ of_reg rreg noc_ret_lo
          ∷ of_value rmid noc_ret_mid
          ∷ of_value len noc_at_len_be
          ∷ of_value (bit_or noc_cmd_wr noc_cmd_resp_marked) noc_ctrl
          ∷ of_value 1 noc_cmd_ctrl
          ∷ [])
        rest env m (omega arith) (omega arith) (omega arith) pc
  tt_noc_xfer_reg_lem false treg rreg tmid rmid len h1 h2 h3 h4 h5 h6 h7 =
      request_lem c niu_base
        (of_reg treg noc_targ_lo
          ∷ of_value tmid noc_targ_mid
          ∷ of_reg rreg noc_ret_lo
          ∷ of_value rmid noc_ret_mid
          ∷ of_value len noc_at_len_be
          ∷ of_value noc_cmd_rd noc_ctrl
          ∷ of_value 1 noc_cmd_ctrl
          ∷ [])
        rest env m (omega arith) (omega arith) (omega arith) pc

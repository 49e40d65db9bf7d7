-- ===== src/Tensix/Tests.antt =====
-- Runs of the emitted sequences on a machine that starts at the first word.
use booth.Base.{
  ◌<◌, ◌≤◌, ◌↔◌, Option, some, bc_ok, ℕ, ◌+◌, ◌*◌, ◌≡◌, refl, arith, List, length, [], ◌∷◌, ◌++◌,
}
use booth.Tensix.Buf.{RvBuf, rv_buf_nbytes, rv_buf_emit, rv_buf_n_words}
use booth.Tensix.Noc.{noc_xfer, tt_sem_wait_ge, emit, li32, li_negative, li_lo, li_hi, is_zero_int}
use booth.Tdf.Defs.{td_txtmax}
use booth.Tensix.Elf.{plan, image, rv_elf_write}
use booth.Tensix.Layout.{IsLayout, plan-IsLayout, rv_elf_write_iff}
use booth.Tensix.Machine.{Machine, Env}
use booth.Tensix.Requests.{Serves, noc_xfer_lem}
use booth.Tensix.Acquire.{
  Arrives, loop_word, first_reading, tt_sem_wait_ge_stays, tt_sem_wait_ge_lem,
}

abbrev empty : RvBuf
empty = record { words = [] }

-- A machine with its register number in each register.
abbrev start : Machine
start = record { regs = (λ r. r); pc = 0; time = 0; stores = [] }

-- A counter that goes up by one at every step.
abbrev rising : Env
rising time addr = time

abbrev next : List ℕ
next = 0x00000013 ∷ []

noc_xfer_lem_example :
    Serves rising (noc_xfer empty 0x12 0x8100 0x41 0xFFFFF804 0x82 2048).0 next start (
      (0xFFB20000, 0x8100)
      ∷ (0xFFB20004, 0x41)
      ∷ (0xFFB2000C, 0xFFFFF804)
      ∷ (0xFFB20010, 0x82)
      ∷ (0xFFB20020, 2048)
      ∷ (0xFFB2001C, 0x12)
      ∷ (0xFFB20028, 1)
      ∷ [])
noc_xfer_lem_example =
    noc_xfer_lem empty next rising start (omega arith) (omega arith) 0x12 0x8100 0x41 0xFFFFF804
      0x82 2048 (omega arith) (omega arith) (omega arith) (omega arith) (omega arith) (omega arith)

length-wait : length (tt_sem_wait_ge empty 0x9000 8).0.words ≡ 4
unfolding tt_sem_wait_ge emit rv_buf_emit li32 li_negative li_lo li_hi is_zero_int rv_buf_n_words
length-wait = refl

-- The counter is 2, 4 and 6 at the first readings, and 8 at the one after.
tt_sem_wait_ge_stays_example :
    Arrives rising
      ((tt_sem_wait_ge empty 0x9000 8).0.words ++ next)
      start
      (loop_word empty 0x9000 8 * 4)
      (first_reading empty 0x9000 8 start + 6)
tt_sem_wait_ge_stays_example =
    tt_sem_wait_ge_stays empty 0x9000 8 next rising start (omega arith) (omega arith) (omega arith)
      (omega arith) 3 (λ j h. omega (arith, length-wait))

tt_sem_wait_ge_lem_example :
    Arrives rising
      ((tt_sem_wait_ge empty 0x9000 8).0.words ++ next)
      start
      (length (tt_sem_wait_ge empty 0x9000 8).0.words * 4)
      (first_reading empty 0x9000 8 start + 6 + 2)
tt_sem_wait_ge_lem_example =
    tt_sem_wait_ge_lem empty 0x9000 8 next rising start (omega arith) (omega arith) (omega arith)
      (omega arith) 3 (λ j h. omega (arith, length-wait)) (omega (arith, length-wait))

abbrev two_words : RvBuf
two_words = record { words = 0x00008537 ∷ 0x00000013 ∷ [] }

-- A file system that takes every byte.
abbrev takes_all : List ℕ → Option ℕ
takes_all bytes = some (length bytes)

plan-IsLayout_example : IsLayout 8 (plan 8)
plan-IsLayout_example = plan-IsLayout 8 (omega arith)

rv_elf_write_iff_example : (rv_elf_write 1 takes_all two_words ≡ bc_ok) ↔ (
    (0 < length two_words.words)
    × (length two_words.words * 4 ≤ td_txtmax 1)
    × (takes_all (image (td_txtmax 1) two_words) ≡ some (plan (rv_buf_nbytes two_words)).total))
rv_elf_write_iff_example = rv_elf_write_iff 1 takes_all two_words (omega arith)

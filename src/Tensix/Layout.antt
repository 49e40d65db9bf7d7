-- ===== src/Tensix/Layout.antt =====
-- Where the parts of an image of src/tensix/rv_elf.c stand, and when it is written.
use booth.Base.{
  ℕ, ◌+◌, ◌-◌, ◌*◌, ◌/◌, ◌%◌, ◌^◌, ◌≤◌, ◌<◌, ◌≡◌, ◌≢◌, ◌↔◌, refl, ap, ◌∙◌, arith, bit_and,
  bit_and_above, bit_and_mask, not, ◌==◌, ltb, if_cases, option_cases, ==_refl, false, Option, some,
  List, length, ℤ, bc_ok, bc_err_io,
}
use booth.Tensix.Buf.{RvBuf, rv_buf_nbytes, rv_buf_max_words}
use booth.Tdf.Defs.{td_txtmax}
use booth.Tensix.ElfConsts.{
  ehdr_size, phdr_size, shdr_size, sym_size, str_size, shstr_size, sec_count, rv_elf_seg_align,
}
use booth.Tensix.Elf.{alignup, Lay, plan, image, rv_elf_write}

-- The parts stand one behind the other, the code and the tables aligned, in the buffer of the image.
pub record IsLayout (code_bytes : ℕ) (l : Lay) : Type 0 where
  pub headers : ehdr_size + phdr_size ≤ l.text_off
  pub text_aligned : l.text_off % 16 ≡ 0
  pub text : l.text_sz ≡ code_bytes
  pub segs : l.text_off + code_bytes ≤ l.segs_off
  pub segs_aligned : l.segs_off % 4 ≡ 0
  pub rela : l.segs_off + 12 ≤ l.rela_off
  pub sym_aligned : l.sym_off % 4 ≡ 0
  pub symbols : l.rela_off ≤ l.sym_off
  pub strings : l.sym_off + 2 * sym_size ≤ l.str_off
  pub names : l.str_off + str_size ≤ l.shstr_off
  pub sections : l.shstr_off + shstr_size ≤ l.shdr_off
  pub sections_aligned : l.shdr_off % 4 ≡ 0
  pub all : l.total ≡ l.shdr_off + sec_count * shdr_size
  pub fits : l.total ≤ rv_buf_max_words * 4 + 512

alignup_lem : (x : ℕ) → x + 3 < 2 ^ 32 → alignup x 4 ≡ (x + 3) / 4 * 4
unfolding alignup
alignup_lem x h =
    ap (λ (y : ℕ). bit_and y (2 ^ 32 - 4)) {x = (x + 3) % 2 ^ 32} {y = x + 3} (omega arith)
    ∙ omega (arith, bit_and_above 2 (x + 3) (2 ^ 30 - 1), bit_and_mask 30 ((x + 3) / 2 ^ 2))

first_text : alignup (ehdr_size + phdr_size) rv_elf_seg_align ≡ 96
unfolding alignup
first_text = refl

-- For code that fits a code buffer, the parts of the image stand one behind the other without
-- overlap, the code and the tables at aligned places, and the image fits its buffer.
pub plan-IsLayout :
    (code_bytes : ℕ) → code_bytes ≤ rv_buf_max_words * 4 → IsLayout code_bytes (plan code_bytes)
unfolding plan
plan-IsLayout n h =
    let start : alignup (ehdr_size + phdr_size) rv_elf_seg_align ≡ 96 = first_text in
    let l = plan n in
    let end = (l.text_off + n) % 2 ^ 32 in
    let segs = alignup_lem end (omega (arith, start)) in
    let names = (l.shstr_off + shstr_size) % 2 ^ 32 in
    let shdr = alignup_lem names (omega (arith, start, segs)) in
    record {
      headers = omega (arith, start, segs, shdr);
      text_aligned = omega (arith, start, segs, shdr);
      text = refl;
      segs = omega (arith, start, segs, shdr);
      segs_aligned = omega (arith, start, segs, shdr);
      rela = omega (arith, start, segs, shdr);
      sym_aligned = omega (arith, start, segs, shdr);
      symbols = omega (arith, start, segs, shdr);
      strings = omega (arith, start, segs, shdr);
      names = omega (arith, start, segs, shdr);
      sections = omega (arith, start, segs, shdr);
      sections_aligned = omega (arith, start, segs, shdr);
      all = omega (arith, start, segs, shdr);
      fits = omega (arith, start, segs, shdr);
    }

err_ne_ok : bc_err_io ≢ bc_ok
err_ne_ok e = cc e

stored_whole : (a b : ℕ) → not (a == b) ≡ false → a ≡ b
stored_whole a b h = ground arith

-- For a code buffer within its bound, rv_elf_write answers BC_OK exactly when there is code,
-- its bytes are within the limit of the chip, and the file system takes all the bytes of the
-- image; the check of the image against its buffer never refuses.
pub rv_elf_write_iff :
    (chip : ℕ) (store : List ℕ → Option ℕ) (code : RvBuf)
    → length code.words ≤ rv_buf_max_words
    → (rv_elf_write chip store code ≡ bc_ok) ↔ (
        (0 < length code.words)
        × (length code.words * 4 ≤ td_txtmax chip)
        × (store (image (td_txtmax chip) code) ≡ some (plan (rv_buf_nbytes code)).total))
unfolding rv_elf_write rv_buf_nbytes
rv_elf_write_iff chip store code small =
    let n = rv_buf_nbytes code in
    let bytes : n ≡ length code.words * 4 = omega arith in
    let top = (plan-IsLayout n (omega (arith, bytes))).fits in
    let txtmax = td_txtmax chip in
    let Written =
      (0 < length code.words)
      × (length code.words * 4 ≤ txtmax)
      × (store (image txtmax code) ≡ some (plan n).total) in
    let Ok = λ (r : ℤ). r ≡ bc_ok → Written in
    (
      if_cases Ok (n == 0) (λ empty e. absurd (err_ne_ok e))
          (λ some_code.
            if_cases Ok (ltb txtmax n) (λ over e. absurd (err_ne_ok e))
              (λ within.
                if_cases Ok (ltb (rv_buf_max_words * 4 + 512) (plan n).total)
                  (λ over e. absurd (err_ne_ok e))
                  (λ room.
                    option_cases Ok (store (image txtmax code)) (λ failed e. absurd (err_ne_ok e))
                      (λ wrote stored.
                        if_cases Ok (not (wrote == (plan n).total))
                          (λ short e. absurd (err_ne_ok e))
                          (λ whole e. (
                            ground (arith, bytes),
                            ground (arith, bytes),
                            stored
                                ∙ ap (λ (x : ℕ). some x) (stored_whole wrote (plan n).total whole),
                          )))))),
      (λ w.
          let (some_code, within, stored) = w in
          let not_empty : n == 0 ≡ false = ground (arith, bytes) in
          let not_over : ltb txtmax n ≡ false = ground (arith, bytes) in
          let not_large : ltb (rv_buf_max_words * 4 + 512) (plan n).total ≡ false =
            ground (arith, top) in
          rw (not_empty, not_over, not_large, stored, ==_refl (plan n).total) refl),
    )

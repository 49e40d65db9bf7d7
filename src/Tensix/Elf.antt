-- ===== src/Tensix/Elf.antt =====
-- src/tensix/rv_elf.c: the image of a kernel. The buffer `out` is a list of bytes, a pointer into it
-- an index. The file system is a parameter: what it answers to the bytes of an image.
use booth.Base.{
  ℕ, zero, suc, ◌+◌, ◌-◌, ◌*◌, ◌/◌, ◌%◌, ◌^◌, bit_and, bit_or, not, ◌==◌, ltb, if◌then◌else◌,
  Option, none, some, List, [], ◌∷◌, set, ℤ, bc_ok, bc_err_io,
}
use booth.Tensix.Buf.{RvBuf, rv_buf_nbytes, rv_buf_data, rv_buf_max_words}
use booth.Tdf.Defs.{td_txtmax}
use booth.Tensix.ElfConsts.{
  elf_magic0, elf_magic1, elf_magic2, elf_magic3, elfclass32, elfdata2lsb, ev_current,
  elfosabi_none, et_exec, em_riscv, pt_load, pf_x, pf_r, sht_null, sht_progbits, sht_symtab,
  sht_strtab, sht_rela, shf_alloc, shf_execinstr, stb_global, stt_func, ehdr_size, phdr_size,
  shdr_size, sym_size, rela_size, sec_text, sec_symtab, sec_strtab, sec_shstr, sec_count,
  shstr_size, shstr_text, shstr_rela, shstr_symtab, shstr_strtab, shstr_segs, shstr_shstr, str_size,
  str_start, rv_elf_load_addr, rv_elf_seg_align,
}

-- The image and the place of the next byte.
abbrev pub Out : Type 0
Out = List ℕ × ℕ

unfoldable pub w8 : ℕ → Out → Out
w8 v (out, p) = (set out p (v % 2 ^ 8), p + 1)

unfoldable pub w16 : ℕ → Out → Out
w16 v (out, p) = (set (set out p (bit_and v 0xFF)) (p + 1) (bit_and (v / 2 ^ 8) 0xFF), p + 2)

unfoldable pub w32 : ℕ → Out → Out
w32 v (out, p) =
    let out₁ = set out p (bit_and v 0xFF) in
    let out₂ = set out₁ (p + 1) (bit_and (v / 2 ^ 8) 0xFF) in
    let out₃ = set out₂ (p + 2) (bit_and (v / 2 ^ 16) 0xFF) in
    (set out₃ (p + 3) (bit_and (v / 2 ^ 24) 0xFF), p + 4)

unfoldable pub alignup : ℕ → ℕ → ℕ
alignup x a = bit_and ((x + (a - 1)) % 2 ^ 32) (2 ^ 32 - 1 - (a - 1))

-- A writer for each value in turn.
unfoldable pub each : (ℕ → Out → Out) → List ℕ → Out → Out
each w [] o = o
each w (v ∷ vs) o = each w vs (w v o)

unfoldable pub w_ehdr : (shoff : ℕ) → Out → Out
w_ehdr shoff o =
    let ident =
      elf_magic0 ∷ elf_magic1 ∷ elf_magic2 ∷ elf_magic3 ∷ elfclass32 ∷ elfdata2lsb ∷ ev_current
      ∷ elfosabi_none ∷ 0 ∷ 0 ∷ 0 ∷ 0 ∷ 0 ∷ 0 ∷ 0 ∷ 0 ∷ [] in
    let o₁ = each w16 (et_exec ∷ em_riscv ∷ []) (each w8 ident o) in
    let o₂ = each w32 (ev_current ∷ rv_elf_load_addr ∷ ehdr_size ∷ shoff ∷ 0 ∷ []) o₁ in
    each w16 (ehdr_size ∷ phdr_size ∷ 1 ∷ shdr_size ∷ sec_count ∷ sec_shstr ∷ []) o₂

unfoldable pub w_phdr : (off sz : ℕ) → Out → Out
w_phdr off sz = each w32 (
    pt_load
    ∷ off
    ∷ rv_elf_load_addr
    ∷ rv_elf_load_addr
    ∷ sz
    ∷ sz
    ∷ bit_or pf_r pf_x
    ∷ rv_elf_seg_align
    ∷ [])

unfoldable pub w_shdr : (name type flags addr off sz link info align entsz : ℕ) → Out → Out
w_shdr name type flags addr off sz link info align entsz =
    each w32 (name ∷ type ∷ flags ∷ addr ∷ off ∷ sz ∷ link ∷ info ∷ align ∷ entsz ∷ [])

unfoldable pub w_sym : (name val sz info shndx : ℕ) → Out → Out
w_sym name val sz info shndx o =
    w16 shndx (each w8 (info ∷ 0 ∷ []) (each w32 (name ∷ val ∷ sz ∷ []) o))

-- `lay_t`
pub record Lay : Type 0 where
  pub text_off : ℕ
  pub text_sz : ℕ
  pub segs_off : ℕ
  pub rela_off : ℕ
  pub sym_off : ℕ
  pub str_off : ℕ
  pub shstr_off : ℕ
  pub shdr_off : ℕ
  pub total : ℕ

-- The sums are `uint32_t`.
unfoldable pub plan : ℕ → Lay
plan code_bytes =
    let text_off = alignup (ehdr_size + phdr_size) rv_elf_seg_align in
    let segs_off = alignup ((text_off + code_bytes) % 2 ^ 32) 4 in
    let rela_off = (segs_off + 12) % 2 ^ 32 in
    let str_off = (rela_off + 2 * sym_size) % 2 ^ 32 in
    let shstr_off = (str_off + str_size) % 2 ^ 32 in
    let shdr_off = alignup ((shstr_off + shstr_size) % 2 ^ 32) 4 in
    record {
      text_off = text_off;
      text_sz = code_bytes;
      segs_off = segs_off;
      rela_off = rela_off;
      sym_off = rela_off;
      str_off = str_off;
      shstr_off = shstr_off;
      shdr_off = shdr_off;
      total = (shdr_off + sec_count * shdr_size) % 2 ^ 32;
    }

unfoldable pub zero_bytes : ℕ → List ℕ
zero_bytes zero = []
zero_bytes (suc n) = 0 ∷ zero_bytes n

-- "\0_start\0" with its end.
abbrev pub k_str : List ℕ
k_str = 0 ∷ 95 ∷ 115 ∷ 116 ∷ 97 ∷ 114 ∷ 116 ∷ 0 ∷ []

-- The names of the sections, "\0.text\0.rela.text\0.symtab\0.strtab\0.segments\0.shstrtab\0".
abbrev pub k_shstr : List ℕ
k_shstr =
    0 ∷ 46 ∷ 116 ∷ 101 ∷ 120 ∷ 116 ∷ 0 ∷ 46 ∷ 114 ∷ 101 ∷ 108 ∷ 97 ∷ 46 ∷ 116 ∷ 101 ∷ 120 ∷ 116 ∷ 0
    ∷ 46 ∷ 115 ∷ 121 ∷ 109 ∷ 116 ∷ 97 ∷ 98 ∷ 0 ∷ 46 ∷ 115 ∷ 116 ∷ 114 ∷ 116 ∷ 97 ∷ 98 ∷ 0 ∷ 46 ∷ 115
    ∷ 101 ∷ 103 ∷ 109 ∷ 101 ∷ 110 ∷ 116 ∷ 115 ∷ 0 ∷ 46 ∷ 115 ∷ 104 ∷ 115 ∷ 116 ∷ 114 ∷ 116 ∷ 97 ∷ 98
    ∷ 0 ∷ []

unfoldable pub section_headers : (l : Lay) → (code_bytes : ℕ) → Out → Out
section_headers l code_bytes o =
    let o₀ = w_shdr 0 sht_null 0 0 0 0 0 0 0 0 o in
    let o₁ =
      w_shdr shstr_text sht_progbits (bit_or shf_alloc shf_execinstr) rv_elf_load_addr l.text_off
        code_bytes 0 0 4 0 o₀ in
    let o₂ = w_shdr shstr_rela sht_rela 0 0 l.rela_off 0 sec_symtab sec_text 4 rela_size o₁ in
    let o₃ =
      w_shdr shstr_symtab sht_symtab 0 0 l.sym_off (2 * sym_size) sec_strtab 1 4 sym_size o₂ in
    let o₄ = w_shdr shstr_strtab sht_strtab 0 0 l.str_off str_size 0 0 1 0 o₃ in
    let o₅ = w_shdr shstr_segs sht_progbits 0 0 l.segs_off 12 0 0 4 0 o₄ in
    w_shdr shstr_shstr sht_strtab 0 0 l.shstr_off shstr_size 0 0 1 0 o₅

-- The words of the code are copied as a little-endian host has them.
unfoldable pub image : (txtmax : ℕ) → RvBuf → List ℕ
image txtmax code =
    let code_bytes = rv_buf_nbytes code in
    let l = plan code_bytes in
    let o₁ = w_phdr l.text_off code_bytes (w_ehdr l.shdr_off (zero_bytes l.total, 0)) in
    let o₂ = each w32 (rv_buf_data code) (o₁.0, l.text_off) in
    let o₃ = each w32 (rv_elf_load_addr ∷ rv_elf_load_addr ∷ txtmax ∷ []) (o₂.0, l.segs_off) in
    let o₄ = w_sym 0 0 0 0 0 (o₃.0, l.sym_off) in
    let o₅ =
      w_sym str_start rv_elf_load_addr code_bytes (bit_or (stb_global * 2 ^ 4) stt_func) sec_text
        o₄ in
    let o₆ = each w8 k_str (o₅.0, l.str_off) in
    let o₇ = each w8 k_shstr (o₆.0, l.shstr_off) in
    (section_headers l code_bytes (o₇.0, l.shdr_off)).0

-- `store` is `fopen` and `fwrite` on the path: nothing, or how many bytes were written. Neither
-- argument is NULL.
unfoldable pub rv_elf_write : (chip : ℕ) → (store : List ℕ → Option ℕ) → RvBuf → ℤ
rv_elf_write chip store code =
    let code_bytes = rv_buf_nbytes code in
    let txtmax = td_txtmax chip in
    if code_bytes == 0
    then bc_err_io
    else if ltb txtmax code_bytes
    then bc_err_io
    else if ltb (rv_buf_max_words * 4 + 512) (plan code_bytes).total
    then bc_err_io
    else elim (store (image txtmax code)) [
      | none ↦ bc_err_io
      | some wrote ↦ if not (wrote == (plan code_bytes).total) then bc_err_io else bc_ok
    ]

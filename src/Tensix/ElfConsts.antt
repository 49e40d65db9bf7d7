-- ===== src/Tensix/ElfConsts.antt =====
-- The constants of src/tensix/rv_elf.c and rv_elf.h.
use booth.Base.{ℕ}

abbrev pub elf_magic0 : ℕ
elf_magic0 = 0x7F

abbrev pub elf_magic1 : ℕ
elf_magic1 = 69

abbrev pub elf_magic2 : ℕ
elf_magic2 = 76

abbrev pub elf_magic3 : ℕ
elf_magic3 = 70

abbrev pub elfclass32 : ℕ
elfclass32 = 1

abbrev pub elfdata2lsb : ℕ
elfdata2lsb = 1

abbrev pub ev_current : ℕ
ev_current = 1

abbrev pub elfosabi_none : ℕ
elfosabi_none = 0

abbrev pub et_exec : ℕ
et_exec = 2

abbrev pub em_riscv : ℕ
em_riscv = 243

abbrev pub pt_load : ℕ
pt_load = 1

abbrev pub pf_x : ℕ
pf_x = 1

abbrev pub pf_r : ℕ
pf_r = 4

abbrev pub sht_null : ℕ
sht_null = 0

abbrev pub sht_progbits : ℕ
sht_progbits = 1

abbrev pub sht_symtab : ℕ
sht_symtab = 2

abbrev pub sht_strtab : ℕ
sht_strtab = 3

abbrev pub sht_rela : ℕ
sht_rela = 4

abbrev pub shf_alloc : ℕ
shf_alloc = 2

abbrev pub shf_execinstr : ℕ
shf_execinstr = 4

abbrev pub stb_global : ℕ
stb_global = 1

abbrev pub stt_func : ℕ
stt_func = 2

abbrev pub ehdr_size : ℕ
ehdr_size = 52

abbrev pub phdr_size : ℕ
phdr_size = 32

abbrev pub shdr_size : ℕ
shdr_size = 40

abbrev pub sym_size : ℕ
sym_size = 16

abbrev pub rela_size : ℕ
rela_size = 12

abbrev pub sec_null : ℕ
sec_null = 0

abbrev pub sec_text : ℕ
sec_text = 1

abbrev pub sec_rela : ℕ
sec_rela = 2

abbrev pub sec_symtab : ℕ
sec_symtab = 3

abbrev pub sec_strtab : ℕ
sec_strtab = 4

abbrev pub sec_segs : ℕ
sec_segs = 5

abbrev pub sec_shstr : ℕ
sec_shstr = 6

abbrev pub sec_count : ℕ
sec_count = 7

abbrev pub shstr_size : ℕ
shstr_size = 54

abbrev pub shstr_text : ℕ
shstr_text = 1

abbrev pub shstr_rela : ℕ
shstr_rela = 7

abbrev pub shstr_symtab : ℕ
shstr_symtab = 18

abbrev pub shstr_strtab : ℕ
shstr_strtab = 26

abbrev pub shstr_segs : ℕ
shstr_segs = 34

abbrev pub shstr_shstr : ℕ
shstr_shstr = 44

abbrev pub str_size : ℕ
str_size = 8

abbrev pub str_start : ℕ
str_start = 1

abbrev pub rv_elf_load_addr : ℕ
rv_elf_load_addr = 0

abbrev pub rv_elf_seg_align : ℕ
rv_elf_seg_align = 16

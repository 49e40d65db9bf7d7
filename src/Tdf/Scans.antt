-- ===== src/Tdf/Scans.antt =====
-- The second pass of classify_params of src/tdf/tdf_fission.c, over the instructions of a kernel.
use mathlib.Core.Option
use booth.Base.{
  ℕ, zero, suc, ◌+◌, ◌≡◌, refl, Bool, true, false, ◌||◌, leb, ◌==◌, ltb, if◌then◌else◌, Option,
  none, some, Bool-cases, inl, inr, List, length, any_from,
}
use booth.Bir.Defs.{BirInst, BirBlock, BirModule}
use booth.Bir.Opcodes.{op_call}
use booth.Dce.Pass.{inst_at}
use booth.Dce.Blocks.{block_at}
use booth.Tdf.Fission.{FsParam, mark_access, scan_insts, scan_blocks}
use booth.Tdf.Tables.{Adds, Adds-none, Adds-both, nothing, loads, stores, mark_access-Adds}

-- A pass that meets a call answers nothing, and one that meets none has marked the table.
pub data Scanned (ps : List FsParam) (call : Bool) (l s : ℕ → Bool)
    : Option (List FsParam) → Type 0 where
  refused : call ≡ true → Scanned ps call l s none
  table :
      (qs : List FsParam) → call ≡ false → Adds ps qs nothing l s → Scanned ps call l s (some qs)

module _ (ps qs : List FsParam) (call : Bool) (l s l' s' : ℕ → Bool)
    (first : Adds ps qs nothing l s) where
  Scanned-after :
      (o : Option (List FsParam))
      → Scanned qs call l' s' o
      → Scanned ps call (λ i. l i || l' i) (λ i. s i || s' i) o
  Scanned-after o (refused c) = refused c
  Scanned-after o (table rs c more) =
      table rs c (Adds-both ps qs rs nothing l s nothing l' s' first more)

abbrev pub is_call : BirInst → Bool
is_call I = I.op == op_call

-- How many instructions of a block the pass looks at.
abbrev pub scanned : BirBlock → ℕ
scanned B = if ltb 65536 B.num_insts then 65536 else B.num_insts

module _ {D : Type 0} (bir : BirModule D) where
  -- Whether an instruction from place `ii` on passes a test.
  abbrev pub insts_any : (BirInst → Bool) → (first ii left : ℕ) → Bool
  insts_any t first ii left = any_from (λ j. t (inst_at bir (first + j))) ii left

  -- Whether an instruction of the blocks from place `bi` on does.
  unfoldable pub blocks_any : (BirInst → Bool) → (first_block bi left : ℕ) → Bool
  blocks_any t first_block bi zero = false
  blocks_any t first_block bi (suc left) =
      let B = block_at bir (first_block + bi) in
      let rest = insts_any t B.first_inst 0 (scanned B) || blocks_any t first_block (suc bi) left in
      if leb (length bir.blocks) (first_block + bi) then false else rest

  scan_insts-Scanned :
      (first ii left : ℕ) (ps : List FsParam)
      → Scanned ps
          (insts_any is_call first ii left)
          (λ i. insts_any (loads bir i) first ii left)
          (λ i. insts_any (stores bir i) first ii left)
          (scan_insts bir first ii left ps)
  unfolding scan_insts any_from
  scan_insts-Scanned first ii zero ps = table ps refl (Adds-none ps)
  scan_insts-Scanned first ii (suc left) ps =
      let I = inst_at bir (first + ii) in
      let qs = mark_access bir I ps in
      let rest = scan_insts-Scanned first (suc ii) left qs in
      elim (Bool-cases (I.op == op_call)) [
        | inl e ↦ rw e (refused refl)
        | inr e ↦ rw e (
            Scanned-after ps qs (insts_any is_call first (suc ii) left) (λ i. loads bir i I)
              (λ i. stores bir i I) (λ i. insts_any (loads bir i) first (suc ii) left)
              (λ i. insts_any (stores bir i) first (suc ii) left) (mark_access-Adds bir I ps)
              (scan_insts bir first (suc ii) left qs) rest)
      ]

  bind-Scanned :
      (ps : List FsParam) (c c' : Bool) (l s l' s' : ℕ → Bool) (o : Option (List FsParam))
      (f : List FsParam → Option (List FsParam))
      → Scanned ps c l s o
      → ((qs : List FsParam) → Scanned qs c' l' s' (f qs))
      → Scanned ps (c || c') (λ i. l i || l' i) (λ i. s i || s' i) (Option.bind o f)
  unfolding Option.bind
  bind-Scanned ps c c' l s l' s' o f (refused e) each = refused (rw e refl)
  bind-Scanned ps c c' l s l' s' o f (table qs e first) each =
      rw e (Scanned-after ps qs c' l s l' s' first (f qs) (each qs))

  pub scan_blocks-Scanned :
      (first_block bi left : ℕ) (ps : List FsParam)
      → Scanned ps
          (blocks_any is_call first_block bi left)
          (λ i. blocks_any (loads bir i) first_block bi left)
          (λ i. blocks_any (stores bir i) first_block bi left)
          (scan_blocks bir first_block bi left ps)
  unfolding scan_blocks blocks_any
  scan_blocks-Scanned first_block bi zero ps = table ps refl (Adds-none ps)
  scan_blocks-Scanned first_block bi (suc left) ps =
      let B = block_at bir (first_block + bi) in
      elim (Bool-cases (leb (length bir.blocks) (first_block + bi))) [
        | inl e ↦ rw e (table ps refl (Adds-none ps))
        | inr e ↦ rw e (
            bind-Scanned ps _ _ _ _ _ _ (scan_insts bir B.first_inst 0 (scanned B) ps)
              (scan_blocks bir first_block (suc bi) left)
              (scan_insts-Scanned B.first_inst 0 (scanned B) ps)
              (λ qs. scan_blocks-Scanned first_block (suc bi) left qs))
      ]

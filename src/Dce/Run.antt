-- ===== src/Dce/Run.antt =====
-- opt_run_func and bir_dce of src/ir/bir_dce.c: each function in turn, then the gaps between them.
use mathlib.Core.Option
use booth.Base.{
  ℕ, zero, suc, ◌+◌, ◌-◌, ◌/◌, ◌%◌, ◌^◌, Bool, false, ◌&&◌, ◌||◌, ◌==◌, ltb, leb, if◌then◌else◌,
  none, some, List, [], ◌∷◌, length, set, get_elem?,
}
use booth.Bir.Defs.{BirFunc, BirModule, bir_val_none, bir_val_index, bir_val_is_const}
use booth.Dce.Pass.{dce_pass}
use booth.Dce.Blocks.{block_at}
use booth.Dce.Unreached.{rchk}
use booth.Dce.Compact.{compact, map_insts}

abbrev pub no_func : BirFunc
no_func = record {
  name = 0;
  type = 0;
  first_block = 0;
  total_insts = 0;
  num_blocks = 0;
  num_params = 0;
  cuda_flags = 0;
  tu = 0;
  launch_bounds_max = 0;
  launch_bounds_min = 0;
  refm = 0;
  refq = 0;
  sret = 0;
}

-- The words of `dead` that hold a bit of the function are cleared.
unfoldable pub clear_dead : (base num : ℕ) → (ℕ → Bool) → ℕ → Bool
clear_dead base num dead k =
    if leb (base / 32) (k / 32) && ltb (k / 32) ((base + num + 31) / 32) then false else dead k

module _ {D : Type 0} where
  abbrev pub func_at : BirModule D → ℕ → BirFunc
  func_at M fi = Option.get_or (get_elem? M.funcs fi) no_func

  -- The number of changes, the module and the bits of `dead`.
  unfoldable pub opt_run_func : BirModule D → (ℕ → Bool) → (fi : ℕ) → ℕ × (BirModule D × (ℕ → Bool))
  opt_run_func M dead fi =
      let F = func_at M fi in
      let base = (block_at M F.first_block).first_inst in
      let (M₁, (dead₁, n₁)) =
        rchk M F.first_block F.num_blocks (clear_dead base F.total_insts dead) in
      let (dead₂, n₂) = dce_pass M₁ base F.total_insts dead₁ in
      let M₂ = compact dead₂ M₁ fi F.first_block F.num_blocks base in
      if F.num_blocks == 0 || F.total_insts == 0
      then (0, (M, dead))
      else (n₁ + n₂, ((if ltb 0 (n₁ + n₂) then M₂ else M₁), dead₂))

  unfoldable pub run_funcs :
      (fi left : ℕ) → BirModule D → (ℕ → Bool) → (total : ℕ) → ℕ × BirModule D
  run_funcs fi zero M dead total = (total, M)
  run_funcs fi (suc left) M dead total =
      let (n, (M₁, dead₁)) = opt_run_func M dead fi in run_funcs (suc fi) left M₁ dead₁ (total + n)

-- `memmove` of `left` entries, read from the array as it was.
unfoldable pub move_range {ℓ} : {A : Type ℓ} → (old new : List A) → (dst src left : ℕ) → List A
move_range old new dst src zero = new
move_range {A = A} old new dst src (suc left) =
    let new₁ : List A = elim (get_elem? old src) [ none ↦ new | some v ↦ set new dst v ] in
    move_range old new₁ (suc dst) (suc src) left

unfoldable pub shift_value : (src count dst : ℕ) → ℕ → ℕ
shift_value src count dst ref =
    let idx = bir_val_index ref in
    if bir_val_is_const ref || ref == bir_val_none
    then ref
    else if leb src idx && ltb idx (src + count)
    then (idx + (2 ^ 32 + dst - src)) % 2 ^ 32
    else ref

unfoldable pub take {ℓ} : {A : Type ℓ} → ℕ → List A → List A
take zero xs = []
take (suc n) [] = []
take (suc n) (x ∷ xs) = x ∷ take n xs

module _ {D : Type 0} where
  unfoldable pub shift_blocks : (src dst : ℕ) → (b left : ℕ) → BirModule D → BirModule D
  shift_blocks src dst b zero M = M
  shift_blocks src dst b (suc left) M =
      let B = block_at M b in
      let B₁ = record B { first_inst = (B.first_inst + (2 ^ 32 + dst - src)) % 2 ^ 32 } in
      shift_blocks src dst (suc b) left (record M { blocks = set M.blocks b B₁ })

  unfoldable pub close_func : BirModule D → (fi dst : ℕ) → BirModule D
  close_func M fi dst =
      let F = func_at M fi in
      let src = (block_at M F.first_block).first_inst in
      let count = F.total_insts in
      let M₁ = record M {
        insts = move_range M.insts M.insts dst src count;
        inst_lines = move_range M.inst_lines M.inst_lines dst src count;
      } in
      map_insts (shift_value src count dst) (shift_blocks src dst F.first_block F.num_blocks M₁) dst
        count

  unfoldable pub close_gaps : (fi left : ℕ) → BirModule D → (dst : ℕ) → BirModule D × ℕ
  close_gaps fi zero M dst = (M, dst)
  close_gaps fi (suc left) M dst =
      let F = func_at M fi in
      let M₁ =
        if F.num_blocks == 0 || (block_at M F.first_block).first_inst == dst
        then M
        else close_func M fi dst in
      close_gaps (suc fi) left M₁ (if F.num_blocks == 0 then dst else dst + F.total_insts)

  unfoldable pub bir_dce : BirModule D → ℕ × BirModule D
  bir_dce M =
      let (total, M₁) = run_funcs 0 (length M.funcs) M (λ k. false) 0 in
      let (M₂, dst) = close_gaps 0 (length M.funcs) M₁ 0 in
      if ltb 0 total
      then (total, record M₂ { insts = take dst M₂.insts; inst_lines = take dst M₂.inst_lines })
      else (total, M₁)

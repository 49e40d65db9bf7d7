-- ===== src/Verify/Hull.antt =====
-- What vfrng of src/ir/bir.c finds: the first and the last instruction of a function.
use native.Mathlib.Decide.{dec_le}
use booth.Base.{
  ℕ, zero, suc, ◌+◌, ◌%◌, ◌^◌, ◌<◌, ◌≤◌, ◌≡◌, ◌≢◌, ◌⊎◌, inl, inr, refl, ◌∙◌, arith, Bool, true,
  false, not, ◌&&◌, ◌||◌, ◌==◌, ltb, leb, if◌then◌else◌, length, Bool-cases,
}
use booth.Bir.Defs.{BirBlock, BirModule}
use booth.Dce.Blocks.{block_at}
use booth.Dce.Run.{func_at}
use booth.Verify.Run.{range_blocks, vfrng}

module _ {D : Type 0} (M : BirModule D) (first_block : ℕ) where
  abbrev pub place : ℕ → ℕ
  place b = (first_block + b) % 2 ^ 32

  abbrev pub nth : ℕ → BirBlock
  nth b = block_at M (place b)

  abbrev pub end_inst : ℕ → ℕ
  end_inst b = ((nth b).first_inst + (nth b).num_insts) % 2 ^ 32

  -- Block `b`, from `bi` on, has instructions, and no block up to it is missing.
  pub record Seen (bi left b : ℕ) : Type 0 where
    pub low : bi ≤ b
    pub high : b < bi + left
    pub known : (j : ℕ) → bi ≤ j → j ≤ b → place j < length M.blocks
    pub some_inst : (nth b).num_insts ≢ 0
    pub there : (nth b).first_inst < length M.insts

  abbrev skips : ℕ → Bool
  skips b = (nth b).num_insts == 0 || leb (length M.insts) (nth b).first_inst

  abbrev next_lo : (b lo : ℕ) → ℕ
  next_lo b lo = if not (skips b) && ltb (nth b).first_inst lo then (nth b).first_inst else lo

  abbrev next_hi : (b hi : ℕ) → ℕ
  next_hi b hi = if not (skips b) && ltb hi (end_inst b) then end_inst b else hi

  range_grows :
      (bi left lo hi : ℕ)
      → ((range_blocks M first_block bi left lo hi).0 ≤ lo)
        × (hi ≤ (range_blocks M first_block bi left lo hi).1)
  unfolding range_blocks
  range_grows bi zero lo hi = (omega arith, omega arith)
  range_grows bi (suc left) lo hi =
      let rest = range_grows (suc bi) left (next_lo bi lo) (next_hi bi hi) in
      let a : next_lo bi lo ≤ lo = ground arith in
      let b : hi ≤ next_hi bi hi = ground arith in
      elim (Bool-cases (leb (length M.blocks) (place bi))) [
        | inl e ↦ rw e (omega arith, omega arith)
        | inr e ↦ rw e (omega (arith, rest.0), omega (arith, rest.1))
      ]

  range_covers :
      (bi left lo hi b : ℕ)
      → Seen bi left b
      → ((range_blocks M first_block bi left lo hi).0 ≤ (nth b).first_inst)
        × (end_inst b ≤ (range_blocks M first_block bi left lo hi).1)
  unfolding range_blocks
  range_covers bi zero lo hi b s = absurd (omega (arith, s.low, s.high))
  range_covers bi (suc left) lo hi b s =
      let inside : leb (length M.blocks) (place bi) ≡ false =
        ground (arith, s.known bi (omega arith) s.low) in
      let later = range_covers (suc bi) left (next_lo bi lo) (next_hi bi hi) b in
      let grows = range_grows (suc bi) left (next_lo bi lo) (next_hi bi hi) in
      rw inside (elim (dec_le (suc bi) b) [
        | yes q ↦ later (record {
          low = q;
          high = omega (arith, s.high);
          known = λ j l h. s.known j (omega arith) h;
          some_inst = s.some_inst;
          there = s.there;
        })
        | no q ↦
            let same : b ≡ bi = omega (arith, s.low) in
            let used : skips b ≡ false = ground (arith, s.some_inst, s.there) in
            let used' : skips bi ≡ false = rw same at used in
            let lower : next_lo bi lo ≤ (nth bi).first_inst = ground arith in
            let upper : end_inst bi ≤ next_hi bi hi = ground arith in
            rw same (omega (arith, grows.0, lower), omega (arith, grows.1, upper))
      ])

  -- An end of the range is the one it began with, or that of a block.
  record Attained (bi left lo hi : ℕ) : Type 0 where
    lower :
        ((range_blocks M first_block bi left lo hi).0 ≡ lo)
        ⊎ ((b : ℕ) × Seen bi left b
            × ((range_blocks M first_block bi left lo hi).0 ≡ (nth b).first_inst))
    upper :
        ((range_blocks M first_block bi left lo hi).1 ≡ hi)
        ⊎ ((b : ℕ) × Seen bi left b × ((range_blocks M first_block bi left lo hi).1 ≡ end_inst b))

  Seen-here : (bi left : ℕ) → place bi < length M.blocks → skips bi ≡ false → Seen bi (suc left) bi
  Seen-here bi left inside used = record {
    low = omega arith;
    high = omega arith;
    known = λ j l h. let same : j ≡ bi = omega arith in rw same inside;
    some_inst = λ e. ground arith;
    there = ground arith;
  }

  Seen-later :
      (bi left b : ℕ) → place bi < length M.blocks → Seen (suc bi) left b → Seen bi (suc left) b
  Seen-later bi left b inside s = record {
    low = omega (arith, s.low);
    high = omega (arith, s.high);
    known = λ j l h. elim (dec_le (suc bi) j) [
      | yes q ↦ s.known j q h
      | no q ↦ let same : j ≡ bi = omega arith in rw same inside
    ];
    some_inst = s.some_inst;
    there = s.there;
  }

  range-Attained : (bi left lo hi : ℕ) → Attained bi left lo hi
  unfolding range_blocks
  range-Attained bi zero lo hi = record { lower = inl refl; upper = inl refl }
  range-Attained bi (suc left) lo hi =
      let rest = range-Attained (suc bi) left (next_lo bi lo) (next_hi bi hi) in
      elim (Bool-cases (leb (length M.blocks) (place bi))) [
        | inl e ↦ record { lower = rw e (inl refl); upper = rw e (inl refl) }
        | inr e ↦
            let inside : place bi < length M.blocks = ground arith in
            record {
              lower = rw e (elim (rest.lower) [
                | inr (b, s, v) ↦ inr (b, Seen-later bi left b inside s, v)
                | inl v ↦ elim (Bool-cases (not (skips bi) && ltb (nth bi).first_inst lo)) [
                  | inl t ↦ inr (bi, Seen-here bi left inside (ground arith), v ∙ rw t refl)
                  | inr t ↦ inl (v ∙ rw t refl)
                ]
              ]);
              upper = rw e (elim (rest.upper) [
                | inr (b, s, v) ↦ inr (b, Seen-later bi left b inside s, v)
                | inl v ↦ elim (Bool-cases (not (skips bi) && ltb hi (end_inst bi))) [
                  | inl t ↦ inr (bi, Seen-here bi left inside (ground arith), v ∙ rw t refl)
                  | inr t ↦ inl (v ∙ rw t refl)
                ]
              ]);
            }
      ]

-- The range of a function holds the instructions of each of its blocks, and begins and ends with some
-- of them; it is empty where there are none.
pub record IsRange {D : Type 0} (M : BirModule D) (fi : ℕ) : Type 0 where
  pub covers :
      (b : ℕ)
      → Seen M (func_at M fi).first_block 0 (func_at M fi).num_blocks b
      → (nth M (func_at M fi).first_block b).first_inst
          + (nth M (func_at M fi).first_block b).num_insts
        < 2 ^ 32
      → ((vfrng M fi).0 ≤ (nth M (func_at M fi).first_block b).first_inst)
        × ((nth M (func_at M fi).first_block b).first_inst
              + (nth M (func_at M fi).first_block b).num_insts
            ≤ (vfrng M fi).1)
  pub begins :
      (vfrng M fi).0 < (vfrng M fi).1
      → (b : ℕ) × Seen M (func_at M fi).first_block 0 (func_at M fi).num_blocks b
        × ((vfrng M fi).0 ≡ (nth M (func_at M fi).first_block b).first_inst)
  pub ends :
      (vfrng M fi).0 < (vfrng M fi).1
      → (b : ℕ) × Seen M (func_at M fi).first_block 0 (func_at M fi).num_blocks b
        × ((vfrng M fi).1 ≡ end_inst M (func_at M fi).first_block b)
  pub otherwise : (vfrng M fi).1 ≤ (vfrng M fi).0 → vfrng M fi ≡ (0, 0)

module _ {D : Type 0} (M : BirModule D) (fi : ℕ) where
  abbrev found : ℕ × ℕ
  found = range_blocks M (func_at M fi).first_block 0 (func_at M fi).num_blocks (length M.insts) 0

  found_ends :
      found.0 < found.1
      → (b : ℕ) × Seen M (func_at M fi).first_block 0 (func_at M fi).num_blocks b
        × (found.1 ≡ end_inst M (func_at M fi).first_block b)
  found_ends h =
      let F = func_at M fi in
      elim ((range-Attained M F.first_block 0 F.num_blocks (length M.insts) 0).upper) [
        | inr x ↦ x
        | inl e ↦ absurd (omega (arith, e, h))
      ]

  found_begins :
      found.0 < found.1
      → (b : ℕ) × Seen M (func_at M fi).first_block 0 (func_at M fi).num_blocks b
        × (found.0 ≡ (nth M (func_at M fi).first_block b).first_inst)
  found_begins h =
      let F = func_at M fi in
      let (b, s, v) = found_ends h in
      let low = range_covers M F.first_block 0 F.num_blocks (length M.insts) 0 b s in
      elim ((range-Attained M F.first_block 0 F.num_blocks (length M.insts) 0).lower) [
        | inr x ↦ x
        | inl e ↦ absurd (omega (arith, e, low.0, s.there))
      ]

  vfrng-kept : found.0 < found.1 → vfrng M fi ≡ found
  unfolding vfrng
  vfrng-kept h = let e : leb found.1 found.0 ≡ false = ground arith in rw e refl

  vfrng-none : found.1 ≤ found.0 → vfrng M fi ≡ (0, 0)
  unfolding vfrng
  vfrng-none h = let e : leb found.1 found.0 ≡ true = ground arith in rw e refl

  pub vfrng-IsRange : IsRange M fi
  vfrng-IsRange =
      let F = func_at M fi in
      elim (dec_le (suc found.0) found.1) [
        | yes q ↦
            let same = vfrng-kept q in
            record {
              covers = λ b s small.
                  let both = range_covers M F.first_block 0 F.num_blocks (length M.insts) 0 b s in
                  rw same (both.0, omega (arith, both.1, small));
              begins = λ h. rw same (found_begins q);
              ends = λ h. rw same (found_ends q);
              otherwise = λ h. let h' : found.1 ≤ found.0 = rw same at h in absurd (omega arith);
            }
        | no q ↦
            let same = vfrng-none (omega arith) in
            record {
              covers = λ b s small.
                  let both = range_covers M F.first_block 0 F.num_blocks (length M.insts) 0 b s in
                  let more = s.some_inst in absurd (omega (arith, both.0, both.1, small, more));
              begins = λ h. let h' : 0 < 0 = rw same at h in absurd (omega arith);
              ends = λ h. let h' : 0 < 0 = rw same at h in absurd (omega arith);
              otherwise = λ h. same;
            }
      ]

-- ===== src/Tdf/Described.antt =====
-- The table of parameters of src/tdf/tdf_fission.c, described by what the kernel's instructions do.
use native.Mathlib.Decide.{dec_le}
use booth.Base.{
  ℕ, zero, suc, ◌+◌, ◌≤◌, ◌<◌, ◌≡◌, ◌↔◌, refl, sym, ap, ◌∙◌, arith, Bool, true, false, leb, ltb,
  if◌then◌else◌, none, some, Option-cases, Bool-cases, inl, inr, length, any_from-true,
  any_from-some,
}
use booth.Bir.Defs.{BirInst, BirModule}
use booth.Bir.Consts.{slot}
use booth.Bir.Opcodes.{op_store, op_param, op_load}
use booth.Dce.Pass.{inst_at}
use booth.Dce.Blocks.{block_at}
use booth.Dce.Run.{func_at}
use booth.Tdf.Fission.{isloc, trace_to_param}
use booth.Tdf.Tables.{or_true, is_param, points, loads, stores}
use booth.Tdf.Scans.{insts_any, blocks_any, scanned}
use booth.Tdf.Reading.{IsLocal, Traces, IsGlobalPtr}
use booth.Tdf.Traced.{isloc_iff, trace_to_param_iff, is_global_ptr_iff}

module _ {D : Type 0} (bir : BirModule D) where
  -- An instruction of a block of the function. A block counts with 65536 instructions at most.
  pub record InKernel (fi : ℕ) (I : BirInst) : Type 0 where
    pub b : ℕ
    pub within : b < (func_at bir fi).num_blocks
    pub known : (func_at bir fi).first_block + b < length bir.blocks
    pub ii : ℕ
    pub early : ii < (block_at bir ((func_at bir fi).first_block + b)).num_insts
    pub near : ii < 65536
    pub here : inst_at bir ((block_at bir ((func_at bir fi).first_block + b)).first_inst + ii) ≡ I

  -- Where the function's instructions begin.
  unfoldable pub start : ℕ → ℕ
  start fi =
      let F = func_at bir fi in
      if ltb F.first_block (length bir.blocks) then (block_at bir F.first_block).first_inst else 0

  -- One of the 8192 instructions from there on.
  pub record InWindow (fi : ℕ) (I : BirInst) : Type 0 where
    pub k : ℕ
    pub from : start fi ≤ k
    pub near : k < start fi + 8192
    pub known : k < length bir.insts
    pub here : inst_at bir k ≡ I

  -- The instruction is parameter `i`, a pointer to memory that all threads see.
  pub record Points (i : ℕ) (I : BirInst) : Type 0 where
    pub op : I.op ≡ op_param
    pub pointer : IsGlobalPtr bir I.type
    pub number : I.subop ≡ i

  -- The instruction loads from, or stores to, an address that comes from parameter `i`.
  pub record Loads (i : ℕ) (I : BirInst) : Type 0 where
    pub op : I.op ≡ op_load
    pub shared : ¬ IsLocal bir 16 (slot I.operands 0)
    pub from : Traces bir 16 (slot I.operands 0) i

  pub record Stores (i : ℕ) (I : BirInst) : Type 0 where
    pub op : I.op ≡ op_store
    pub shared : ¬ IsLocal bir 16 (slot I.operands 1)
    pub from : Traces bir 16 (slot I.operands 1) i

  pub points-Points : (i : ℕ) (I : BirInst) → (points bir i I ≡ true) ↔ Points i I
  unfolding points
  points-Points i I = (
    (λ h. record {
      op = ground arith;
      pointer = (is_global_ptr_iff bir I.type).0 (ground arith);
      number = ground arith;
    }),
    (λ p. ground (arith, p.op, (is_global_ptr_iff bir I.type).1 p.pointer, p.number)),
  )

  is_param_iff : (val i : ℕ) → (is_param (trace_to_param bir val) i ≡ true) ↔ Traces bir 16 val i
  unfolding is_param
  is_param_iff val i = (
    (λ h. elim (Option-cases (trace_to_param bir val)) [
      | inl e ↦ let h' : is_param none i ≡ true = rw e at h in cc h'
      | inr (pi, e) ↦
          let h' : is_param (some pi) i ≡ true = rw e at h in
          let same : pi ≡ i = ground arith in (trace_to_param_iff bir val i).0 (e ∙ ap some same)
    ]),
    (λ t. rw ((trace_to_param_iff bir val i).1 t) (ground arith)),
  )

  shared_iff : (val : ℕ) → (isloc bir val ≡ false) ↔ (¬ IsLocal bir 16 val)
  shared_iff val = (
    (λ h l. cc (sym h ∙ (isloc_iff bir val).1 l)),
    (λ n. elim (Bool-cases (isloc bir val)) [
      | inl e ↦ absurd (n ((isloc_iff bir val).0 e))
      | inr e ↦ e
    ]),
  )

  pub loads-Loads : (i : ℕ) (I : BirInst) → (loads bir i I ≡ true) ↔ Loads i I
  unfolding loads
  loads-Loads i I =
      let val = slot I.operands 0 in
      (
        (λ h. record {
          op = ground arith;
          shared = (shared_iff val).0 (ground arith);
          from = (is_param_iff val i).0 (ground arith);
        }),
        (λ l. ground (arith, l.op, (shared_iff val).1 l.shared, (is_param_iff val i).1 l.from)),
      )

  pub stores-Stores : (i : ℕ) (I : BirInst) → (stores bir i I ≡ true) ↔ Stores i I
  unfolding stores
  stores-Stores i I =
      let val = slot I.operands 1 in
      (
        (λ h. record {
          op = ground arith;
          shared = (shared_iff val).0 (ground arith);
          from = (is_param_iff val i).0 (ground arith);
        }),
        (λ l. ground (arith, l.op, (shared_iff val).1 l.shared, (is_param_iff val i).1 l.from)),
      )

  -- Where an instruction that passes a test stands.
  record Found (t : BirInst → Bool) (first_block bi left : ℕ) : Type 0 where
    b : ℕ
    low : bi ≤ b
    high : b < bi + left
    known : first_block + b < length bir.blocks
    ii : ℕ
    early : ii < scanned (block_at bir (first_block + b))
    passes : t (inst_at bir ((block_at bir (first_block + b)).first_inst + ii)) ≡ true

  blocks_any-Found :
      (t : BirInst → Bool) (first_block bi left : ℕ)
      → blocks_any bir t first_block bi left ≡ true
      → Found t first_block bi left
  unfolding blocks_any
  blocks_any-Found t first_block bi zero h = cc h
  blocks_any-Found t first_block bi (suc left) h =
      let B = block_at bir (first_block + bi) in
      let next = blocks_any-Found t first_block (suc bi) left in
      elim (Bool-cases (leb (length bir.blocks) (first_block + bi))) [
        | inl e ↦ let h' : false ≡ true = rw e at h in cc h'
        | inr e ↦ elim (Bool-cases (insts_any bir t B.first_inst 0 (scanned B))) [
          | inl a ↦
              let (ii, low, high, p) = any_from-true _ 0 (scanned B) a in
              record {
                b = bi;
                low = omega arith;
                high = omega arith;
                known = ground arith;
                ii = ii;
                early = omega arith;
                passes = p;
              }
          | inr a ↦
              let f = next (rw (e, a) at h) in
              record {
                b = f.b;
                low = omega (arith, f.low);
                high = omega (arith, f.high);
                known = f.known;
                ii = f.ii;
                early = f.early;
                passes = f.passes;
              }
        ]
      ]

  blocks_any-some :
      (t : BirInst → Bool) (first_block bi left b ii : ℕ)
      → bi ≤ b
      → b < bi + left
      → first_block + b < length bir.blocks
      → ii < scanned (block_at bir (first_block + b))
      → t (inst_at bir ((block_at bir (first_block + b)).first_inst + ii)) ≡ true
      → blocks_any bir t first_block bi left ≡ true
  unfolding blocks_any
  blocks_any-some t first_block bi zero b ii low high known early p = absurd (omega arith)
  blocks_any-some t first_block bi (suc left) b ii low high known early p =
      let inside : leb (length bir.blocks) (first_block + bi) ≡ false = ground arith in
      let B = block_at bir (first_block + bi) in
      let next = blocks_any-some t first_block (suc bi) left b ii in
      rw inside (elim (dec_le (suc bi) b) [
        | yes q ↦ rw (next q (omega arith) known early p) (or_true _)
        | no q ↦
            let same : b ≡ bi = omega arith in
            let early' : ii < scanned B = rw same at early in
            let p' : t (inst_at bir (B.first_inst + ii)) ≡ true = rw same at p in
            rw
              (any_from-some (λ j. t (inst_at bir (B.first_inst + j))) 0 (scanned B) ii
                (omega arith) (omega arith) p')
              refl
      ])

  -- Some instruction of the kernel passes the test.
  pub kernel_any_iff :
      (t : BirInst → Bool) (fi : ℕ)
      → (blocks_any bir t (func_at bir fi).first_block 0 (func_at bir fi).num_blocks ≡ true)
        ↔ ((I : BirInst) × InKernel fi I × (t I ≡ true))
  kernel_any_iff t fi =
      let F = func_at bir fi in
      (
        (λ h.
            let f = blocks_any-Found t F.first_block 0 F.num_blocks h in
            (
              inst_at bir ((block_at bir (F.first_block + f.b)).first_inst + f.ii),
              record {
                b = f.b;
                within = omega (arith, f.high);
                known = f.known;
                ii = f.ii;
                early = ground (arith, f.early);
                near = ground (arith, f.early);
                here = refl;
              },
              f.passes,
            )),
        (λ (I, k, p).
            blocks_any-some t F.first_block 0 F.num_blocks k.b k.ii (omega arith)
              (omega (arith, k.within)) k.known (ground (arith, k.early, k.near))
              (ap t k.here ∙ p)),
      )

-- ===== src/Verify/Run.antt =====
-- vfrng, vovlp, vpred, vops1, vphi1, vfun1 and bir_vchk of src/ir/bir.c. What is printed is left
-- out; be_fail answers a number other than 0, which is `true` here. The arrays are functions of
-- the place. A stamp counts blocks and phis, and is taken to stay below 2 ^ 32.
use booth.Base.{
  ℕ, ℤ, negsuc, zero, suc, ◌+◌, ◌-◌, ◌/◌, ◌%◌, ◌^◌, Bool, true, false, not, ◌&&◌, ◌||◌, ◌==◌, ltb,
  leb, if◌then◌else◌, length, bc_ok,
}
use booth.Bir.Defs.{BirInst, BirBlock, BirFunc, BirModule, bir_val_none, bir_val_is_const}
use booth.Bir.Consts.{bir_oper}
use booth.Bir.Opcodes.{op_phi, op_call, op_ret}
use booth.Dce.Pass.{inst_at}
use booth.Dce.Blocks.{block_at}
use booth.Dce.Run.{func_at}
use booth.Verify.Defs.{
  SlotKind, vch_val, vch_blk, vch_fun, vch_glb, vslot, vnop, vret1, vcal1, vnsuc, vsuc, vsucis,
}

abbrev pub bir_func_max_blocks : ℕ
bir_func_max_blocks = 0xFFFF

-- The function under check: `fi`, `blo`, `nb`, `vlo` and `vhi` of `vfs_t`.
pub record FuncRange : Type 0 where
  pub fi : ℕ
  pub blo : ℕ
  pub nb : ℕ
  pub vlo : ℕ
  pub vhi : ℕ

-- The other fields of `vfs_t`: which kinds of fault have been reported.
pub record Reported : Type 0 where
  pub hb : Bool
  pub hv : Bool
  pub hp : Bool
  pub hc : Bool
  pub hg : Bool

-- `vps` and `vstm`.
pub record Stamps : Type 0 where
  pub vps : ℕ → ℕ
  pub vstm : ℕ

-- The kind of a fault is reported once.
unfoldable pub report : SlotKind → Reported → Bool × Reported
report vch_fun R = (false, R)
report vch_glb R = (not R.hg, record R { hg = true })
report vch_blk R = (not R.hb, record R { hb = true })
report vch_val R = (not R.hv, record R { hv = true })

module _ {D : Type 0} (M : BirModule D) where
  -- The loop of vfrng over the blocks of a function.
  unfoldable pub range_blocks : (first_block b left : ℕ) → (lo hi : ℕ) → ℕ × ℕ
  range_blocks first_block b zero lo hi = (lo, hi)
  range_blocks first_block b (suc left) lo hi =
      let bk = (first_block + b) % 2 ^ 32 in
      let B = block_at M bk in
      let skip = B.num_insts == 0 || leb (length M.insts) B.first_inst in
      let end = (B.first_inst + B.num_insts) % 2 ^ 32 in
      let rest =
        range_blocks first_block (suc b) left
          (if not skip && ltb B.first_inst lo then B.first_inst else lo)
          (if not skip && ltb hi end then end else hi) in
      if leb (length M.blocks) bk then (lo, hi) else rest

  -- `vflo` and `vfhi` of a function.
  unfoldable pub vfrng : (fi : ℕ) → ℕ × ℕ
  vfrng fi =
      let F = func_at M fi in
      let (lo, hi) = range_blocks F.first_block 0 F.num_blocks (length M.insts) 0 in
      if leb hi lo then (0, 0) else (lo, hi)

  -- Two functions that share a block, or an instruction.
  unfoldable pub share_blocks : (A C : BirFunc) → Bool
  share_blocks A C =
      ltb A.first_block ((C.first_block + C.num_blocks) % 2 ^ 32)
      && ltb C.first_block ((A.first_block + A.num_blocks) % 2 ^ 32)

  unfoldable pub share_insts : (fi fj : ℕ) → Bool
  share_insts fi fj = ltb (vfrng fj).0 (vfrng fi).1 && ltb (vfrng fi).0 (vfrng fj).1

  -- The inner loop of vovlp, from function `fj` on.
  unfoldable pub overlaps : (fi fj left : ℕ) → (hb hi : Bool) → Bool
  overlaps fi fj zero hb hi = false
  overlaps fi fj (suc left) hb hi =
      let C = func_at M fj in
      let blocks = not (C.num_blocks == 0) && not hb && share_blocks (func_at M fi) C in
      let insts = not (C.num_blocks == 0) && not hi && share_insts fi fj in
      let rest = overlaps fi (suc fj) left (hb || blocks) (hi || insts) in
      if hb && hi then false else blocks || insts || rest

  unfoldable pub vovlp_from : (fi left : ℕ) → Bool
  vovlp_from fi zero = false
  vovlp_from fi (suc left) =
      not ((func_at M fi).num_blocks == 0) && overlaps fi (suc fi) left false false
      || vovlp_from (suc fi) left

  unfoldable pub vovlp : Bool
  vovlp = vovlp_from 0 (length M.funcs)

  -- The loop of vpred over the successors of a block.
  unfoldable pub count_sucs :
      (blo nb : ℕ) → BirBlock → (k left : ℕ) → (vpc : ℕ → ℕ) × Stamps → (ℕ → ℕ) × Stamps
  count_sucs blo nb B k zero s = s
  count_sucs blo nb B k (suc left) (vpc, S) =
      let t = vsuc M B k in
      let lp = t - blo in
      let out = ltb t blo || leb nb lp || S.vps lp == S.vstm in
      let stamped = record S { vps = λ i. if i == lp then S.vstm else S.vps i } in
      let counted = λ (i : ℕ). if i == lp && ltb (vpc i) 0xFFFF then vpc i + 1 else vpc i in
      count_sucs blo nb B (suc k) left (if out then (vpc, S) else (counted, stamped))

  unfoldable pub count_blocks : (blo nb b left : ℕ) → (vpc : ℕ → ℕ) × Stamps → (ℕ → ℕ) × Stamps
  count_blocks blo nb b zero s = s
  count_blocks blo nb b (suc left) (vpc, S) =
      let B = block_at M (blo + b) in
      count_blocks blo nb (suc b) left
        (count_sucs blo nb B 0 (vnsuc M B) (vpc, record S { vstm = S.vstm + 1 }))

  -- `vpc` from zeros.
  unfoldable pub vpred : (blo nb : ℕ) → Stamps → (ℕ → ℕ) × Stamps
  vpred blo nb S = count_blocks blo nb 0 nb ((λ i. 0), S)

  -- How many instructions of a block stand in the arena.
  unfoldable pub in_arena : BirBlock → ℕ
  in_arena B =
      if leb (length M.insts) B.first_inst
      then 0
      else if ltb (length M.insts - B.first_inst) B.num_insts
      then length M.insts - B.first_inst
      else B.num_insts

  module _ (X : FuncRange) where
    -- Whether operand `k` is at fault.
    unfoldable pub faulty : BirInst → (k : ℕ) → Bool
    faulty I k =
        let o = bir_oper M I k in
        elim (vslot I.op k) [
          | vch_fun ↦ false
          | vch_glb ↦ leb (length M.globals) o
          | vch_blk ↦ not (leb X.blo o && ltb (o - X.blo) X.nb)
          | vch_val ↦
              not (o == bir_val_none || bir_val_is_const o) && not (leb X.vlo o && ltb o X.vhi)
        ]

    unfoldable pub vops1 : BirInst → (k left : ℕ) → Reported → Bool × Reported
    vops1 I k zero R = (false, R)
    vops1 I k (suc left) R =
        let (bad, R₁) = if faulty I k then report (vslot I.op k) R else (false, R) in
        let (rest, R₂) = vops1 I (suc k) left R₁ in (bad || rest, R₂)

    -- The loop of vphi1 over the arms: the stamps, `dist`, `bp` and `oor`.
    unfoldable pub phi_arms :
        BirInst
        → (b ps k left : ℕ) → (ℕ → ℕ)
        → (dist : ℕ) → (bp oor : Bool) → (ℕ → ℕ) × (ℕ × (Bool × Bool))
    phi_arms I b ps k zero vps dist bp oor = (vps, (dist, (bp, oor)))
    phi_arms I b ps k (suc left) vps dist bp oor =
        let p = bir_oper M I k in
        let lp = p - X.blo in
        let out = ltb p X.blo || leb X.nb lp in
        let again = vps lp == ps in
        phi_arms I b ps (k + 2) left
          (if out || again then vps else (λ i. if i == lp then ps else vps i))
          (if out || again then dist else dist + 1)
          (bp || not out && (not (vsucis M p (X.blo + b)) || again)) (oor || out)

    unfoldable pub vphi1 :
        (vpc : ℕ → ℕ) → (b : ℕ) → BirInst → (n : ℕ) → Reported × Stamps → Bool × (Reported × Stamps)
    vphi1 vpc b I n (R, S) =
        let ps = S.vstm + 1 in
        let (vps, (dist, (bp, oor))) = phi_arms I b ps 0 (n / 2) S.vps 0 false false in
        let count = not bp && not oor && not (dist == vpc b) in
        (
          bp && not R.hp || count && not R.hc,
          (record R { hp = R.hp || bp; hc = R.hc || count }, record { vps = vps; vstm = ps }),
        )

    -- One instruction of block `b`.
    unfoldable pub vinst1 :
        (vpc : ℕ → ℕ) → (b : ℕ) → BirInst → Reported × Stamps → Bool × (Reported × Stamps)
    vinst1 vpc b I (R, S) =
        let n = vnop I in
        let (ops, R₁) = vops1 I 0 n R in
        let (phi, T) = vphi1 vpc b I n (R₁, S) in
        let head = I.op == op_ret && vret1 M X.fi I || I.op == op_call && vcal1 M I in
        if I.op == op_phi then (head || ops || phi, T) else (head || ops, (R₁, S))

    unfoldable pub vinsts :
        (vpc : ℕ → ℕ) → (b first j left : ℕ) → Reported × Stamps → Bool × (Reported × Stamps)
    vinsts vpc b first j zero T = (false, T)
    vinsts vpc b first j (suc left) T =
        let (bad, T₁) = vinst1 vpc b (inst_at M (first + j)) T in
        let (rest, T₂) = vinsts vpc b first (suc j) left T₁ in (bad || rest, T₂)

    unfoldable pub vfun1 :
        (vpc : ℕ → ℕ) → (b left : ℕ) → Reported × Stamps → Bool × (Reported × Stamps)
    vfun1 vpc b zero T = (false, T)
    vfun1 vpc b (suc left) T =
        let B = block_at M (X.blo + b) in
        let (bad, T₁) = vinsts vpc b B.first_inst 0 (in_arena B) T in
        let (rest, T₂) = vfun1 vpc (suc b) left T₁ in (bad || rest, T₂)

  -- `vfs_t` of a function.
  unfoldable pub func_range : (fi : ℕ) → FuncRange
  func_range fi =
      let F = func_at M fi in
      let room = length M.blocks - F.first_block in
      let nb = if ltb room F.num_blocks then room else F.num_blocks in
      record {
        fi = fi;
        blo = F.first_block;
        nb = if ltb bir_func_max_blocks nb then bir_func_max_blocks else nb;
        vlo = (vfrng fi).0;
        vhi = (vfrng fi).1;
      }

  -- `hg` is not set before a function is checked: `stale` is what it holds.
  unfoldable pub vfuncs : (stale : ℕ → Bool) → (fi left : ℕ) → Stamps → Bool
  vfuncs stale fi zero S = false
  vfuncs stale fi (suc left) S =
      let F = func_at M fi in
      let X = func_range fi in
      let (vpc, S₁) = vpred X.blo X.nb S in
      let R : Reported = record { hb = false; hv = false; hp = false; hc = false; hg = stale fi } in
      let (bad, T) = vfun1 X vpc 0 X.nb (R, S₁) in
      let skip = F.num_blocks == 0 || leb (length M.blocks) F.first_block in
      let rest = vfuncs stale (suc fi) left (if skip then S else T.1) in not skip && bad || rest

  unfoldable pub bir_vchk : (stale : ℕ → Bool) → ℤ
  bir_vchk stale =
      if vovlp || vfuncs stale 0 (length M.funcs) (record { vps = λ i. 0; vstm = 0 })
      then negsuc 4
      else bc_ok

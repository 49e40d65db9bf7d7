-- ===== src/Verify/Checked.antt =====
-- bir_vchk of src/ir/bir.c answers for a module what the checks answer one by one.
use booth.Base.{
  any_from, ℕ, negsuc, zero, suc, ◌+◌, ◌-◌, ◌≡◌, ◌↔◌, refl, sym, ap, ◌∙◌, arith, Bool, true, false,
  not, ◌&&◌, ◌||◌, ◌==◌, ltb, leb, if◌then◌else◌, length, Bool-cases, inl, inr, ==_ne, bc_ok,
}
use booth.Bir.Defs.{BirBlock, BirModule}
use booth.Dce.Blocks.{block_at}
use booth.Dce.Run.{func_at}
use booth.Verify.Defs.{vsuc, vnsuc}
use booth.Verify.Run.{
  Reported, Stamps, vovlp, vpred, vfun1, func_range, count_sucs, count_blocks, vfuncs, bir_vchk,
}
use booth.Verify.Hull.{IsRange, vfrng-IsRange}
use booth.Verify.Fine.{
  unreported, no_stamps, block_fault, preds, func_fault, module_fault, IsFine, IsFine_iff,
}
use booth.Verify.Once.{
  Fresh, Agrees, found, clean, Kept, SameMarks, SameMarks-put, put, vfun1-Agrees,
}

-- The counts are the same whatever stamps are left from before.
record SameCounts (r r' : (ℕ → ℕ) × Stamps) : Type 0 where
  counts : r.0 ≡ r'.0
  left : Fresh r.1
  right : Fresh r'.1

module _ {D : Type 0} (M : BirModule D) (blo nb : ℕ) where
  sucs-SameCounts :
      (B : BirBlock) (k left : ℕ) (vpc : ℕ → ℕ) (S S' : Stamps)
      → Fresh S
      → Fresh S'
      → SameMarks S.vps S'.vps S.vstm S'.vstm
      → SameCounts (count_sucs M blo nb B k left (vpc, S)) (count_sucs M blo nb B k left (vpc, S'))
  unfolding count_sucs
  sucs-SameCounts B k zero vpc S S' h h' m = record { counts = refl; left = h; right = h' }
  sucs-SameCounts B k (suc left) vpc S S' h h' m =
      let t = vsuc M B k in
      let lp = t - blo in
      let counted = λ (i : ℕ). if i == lp && ltb (vpc i) 0xFFFF then vpc i + 1 else vpc i in
      elim (Bool-cases (ltb t blo || leb nb lp)) [
        | inl e ↦ rw (e, count_sucs) (sucs-SameCounts B (suc k) left vpc S S' h h' m)
        | inr e ↦ elim (Bool-cases (S.vps lp == S.vstm)) [
          | inl again ↦
              rw (e, again, sym (m lp) ∙ again, count_sucs)
                (sucs-SameCounts B (suc k) left vpc S S' h h' m)
          | inr anew ↦
              rw (e, anew, sym (m lp) ∙ anew, count_sucs)
                (sucs-SameCounts B (suc k) left counted (record S { vps = put lp S.vstm S.vps })
                  (record S' { vps = put lp S'.vstm S'.vps }) (λ i. ground (arith, h i))
                  (λ i. ground (arith, h' i)) (SameMarks-put S.vps S'.vps S.vstm S'.vstm lp m))
        ]
      ]

  next_stamp : (S : Stamps) → Fresh S → (i : ℕ) → (S.vps i == (S.vstm + 1)) ≡ false
  next_stamp S h i = ==_ne (S.vps i) (S.vstm + 1) (λ e. omega (arith, h i, e))

  blocks-SameCounts :
      (b left : ℕ) (vpc vpc' : ℕ → ℕ) (S S' : Stamps)
      → vpc ≡ vpc'
      → Fresh S
      → Fresh S'
      → SameCounts (count_blocks M blo nb b left (vpc, S)) (count_blocks M blo nb b left (vpc', S'))
  unfolding count_blocks
  blocks-SameCounts b zero vpc vpc' S S' e h h' = record { counts = e; left = h; right = h' }
  blocks-SameCounts b (suc left) vpc vpc' S S' e h h' =
      let B = block_at M (blo + b) in
      let T : Stamps = record S { vstm = S.vstm + 1 } in
      let T' : Stamps = record S' { vstm = S'.vstm + 1 } in
      let r =
        sucs-SameCounts B 0 (vnsuc M B) vpc T T' (λ i. omega (arith, h i))
          (λ i. omega (arith, h' i)) (λ i. next_stamp S h i ∙ sym (next_stamp S' h' i)) in
      blocks-SameCounts (suc b) left (count_sucs M blo nb B 0 (vnsuc M B) (vpc, T)).0
        (count_sucs M blo nb B 0 (vnsuc M B) (vpc', T')).0 _ _
        (r.counts ∙ ap (λ v. (count_sucs M blo nb B 0 (vnsuc M B) (v, T')).0) e) r.left
        (rw (← e) r.right)

not_refused : (b : Bool) → (if b then negsuc 4 else bc_ok) ≡ bc_ok → b ≡ false
not_refused true h = absurd (cc h)
not_refused false h = refl

-- One function after another.
module _ (fault : Bool) (r : Bool × (Reported × Stamps)) (later : Bool) (V : Stamps → Bool)
    (same : (S : Stamps) → Fresh S → V S ≡ later) where
  checked : Agrees (Reported × Stamps) Kept fault r → (r.0 || V r.1.1) ≡ (fault || later)
  checked (found f o) = rw (f, o) refl
  checked (clean f o (s, h)) = rw (f, o) (same r.1.1 h)

  maybe_checked :
      (skip : Bool) (S : Stamps)
      → Fresh S
      → Agrees (Reported × Stamps) Kept fault r
      → (not skip && r.0 || V (if skip then S else r.1.1)) ≡ (not skip && fault || later)
  maybe_checked true S h a = same S h
  maybe_checked false S h a = checked a

module _ {D : Type 0} (M : BirModule D) where
  vfuncs-any :
      (stale : ℕ → Bool)
      → ((fi : ℕ) → stale fi ≡ false)
      → (fi left : ℕ) (S : Stamps) → Fresh S
      → vfuncs M stale fi left S ≡ any_from (func_fault M) fi left
  unfolding vfuncs any_from func_fault preds vpred
  vfuncs-any stale none_stale fi zero S fresh = refl
  vfuncs-any stale none_stale fi (suc left) S fresh =
      let F = func_at M fi in
      let X = func_range M fi in
      let counts =
        blocks-SameCounts M X.blo X.nb 0 X.nb (λ i. 0) (λ i. 0) S no_stamps refl fresh
          (λ i. omega arith) in
      let vpc = preds M fi in
      let S₁ = (vpred M X.blo X.nb S).1 in
      let here : (vpred M X.blo X.nb S).0 ≡ vpc = counts.counts in
      rw (here, none_stale fi)
        (maybe_checked (any_from (block_fault M X vpc) 0 X.nb)
          (vfun1 M X vpc 0 X.nb (unreported, S₁)) (any_from (func_fault M) (suc fi) left)
          (vfuncs M stale (suc fi) left) (vfuncs-any stale none_stale (suc fi) left)
          (F.num_blocks == 0 || leb (length M.blocks) F.first_block) S fresh
          (vfun1-Agrees M X vpc 0 X.nb S₁ counts.left))

  pub bir_vchk_iff :
      (stale : ℕ → Bool)
      → ((fi : ℕ) → stale fi ≡ false)
      → ((fi : ℕ) → IsRange M fi) × ((bir_vchk M stale ≡ bc_ok) ↔ IsFine M)
  unfolding bir_vchk module_fault
  bir_vchk_iff stale none_stale =
      let same : (vovlp M || vfuncs M stale 0 (length M.funcs) no_stamps) ≡ module_fault M =
        ap (λ b. vovlp M || b)
          (vfuncs-any stale none_stale 0 (length M.funcs) no_stamps (λ i. omega arith)) in
      let answer : bir_vchk M stale ≡ (if module_fault M then negsuc 4 else bc_ok) = rw same refl in
      (
        vfrng-IsRange M,
        (
          (λ h. (IsFine_iff M).0 (not_refused (module_fault M) (sym answer ∙ h))),
          (λ h. answer ∙ rw ((IsFine_iff M).1 h) refl),
        ),
      )

-- ===== src/Verify/Once.antt =====
-- Reporting each kind of fault once, and stamps in the place of sets, do not change what the
-- verifier of src/ir/bir.c answers.
use booth.Base.{
  any_from, ℕ, zero, suc, ◌+◌, ◌-◌, ◌/◌, ◌≤◌, ◌≡◌, ◌≢◌, refl, sym, ◌∙◌, arith, Bool, true, false,
  not, ◌&&◌, ◌||◌, ◌==◌, ltb, leb, if◌then◌else◌, Bool-cases, inl, inr, ==_ne, ==_refl,
}
use booth.Bir.Defs.{BirInst, BirModule}
use booth.Bir.Consts.{bir_oper}
use booth.Bir.Opcodes.{op_phi, op_call, op_ret}
use booth.Dce.Pass.{inst_at}
use booth.Dce.Blocks.{block_at}
use booth.Verify.Defs.{SlotKind, vch_val, vch_blk, vch_fun, vch_glb, vslot, vnop, vret1, vcal1}
use booth.Verify.Run.{
  FuncRange, Reported, Stamps, faulty, report, vops1, phi_arms, vphi1, vinst1, vinsts, vfun1,
  in_arena,
}
use booth.Verify.Fine.{unreported, block_fault}
use booth.Verify.Passes.{phi_fault, inst_fault}

-- No stamp is ahead of the counter.
abbrev pub Fresh : Stamps → Type 0
Fresh S = (i : ℕ) → S.vps i ≤ S.vstm

-- A check that starts with nothing reported: it finds the fault, or leaves all as it was.
pub data Agrees (T : Type 0) (Same : T → Type 0) (fault : Bool) (r : Bool × T) : Type 0 where
  found : fault ≡ true → r.0 ≡ true → Agrees T Same fault r
  clean : fault ≡ false → r.0 ≡ false → Same r.1 → Agrees T Same fault r

abbrev pub Kept : Reported × Stamps → Type 0
Kept T = (T.0 ≡ unreported) × Fresh T.1

-- The marks of two pairs of stamps are on the same places.
abbrev pub SameMarks : (vps vps' : ℕ → ℕ) → (ps ps' : ℕ) → Type 0
SameMarks vps vps' ps ps' = (i : ℕ) → (vps i == ps) ≡ (vps' i == ps')

-- A mark at one more place.
abbrev pub put : ℕ → ℕ → (ℕ → ℕ) → ℕ → ℕ
put lp ps vps i = if i == lp then ps else vps i

pub SameMarks-put :
    (vps vps' : ℕ → ℕ) (ps ps' lp : ℕ)
    → SameMarks vps vps' ps ps'
    → SameMarks (put lp ps vps) (put lp ps' vps') ps ps'
SameMarks-put vps vps' ps ps' lp h i = elim (Bool-cases (i == lp)) [
  | inl e ↦ rw e (==_refl ps ∙ sym (==_refl ps'))
  | inr e ↦ rw e (h i)
]

report-reports : (s : SlotKind) → s ≢ vch_fun → (report s unreported).0 ≡ true
unfolding report
report-reports vch_val h = refl
report-reports vch_blk h = refl
report-reports vch_glb h = refl
report-reports vch_fun h = absurd (h refl)

report_once :
    (bp oor right : Bool) (S : Stamps)
    → Fresh S
    → Agrees (Reported × Stamps) Kept (bp || not oor && not right) (
      bp && true || (not bp && not oor && not right) && true,
      (record unreported { hp = bp; hc = not bp && not oor && not right }, S),
    )
report_once true oor right S h = found refl refl
report_once false true right S h = clean refl refl (refl, h)
report_once false false true S h = clean refl refl (refl, h)
report_once false false false S h = found refl refl

combine_inst :
    (is_phi head ops : Bool) (r : Bool × Reported) (phi : Bool)
    (V : Reported → Bool × (Reported × Stamps)) (S : Stamps)
    → Fresh S
    → Agrees Reported (λ R. R ≡ unreported) ops r
    → Agrees (Reported × Stamps) Kept phi (V unreported)
    → Agrees
        (Reported × Stamps)
        Kept
        (if is_phi then head || ops || phi else head || ops)
        (if is_phi then (head || r.0 || (V r.1).0, (V r.1).1) else (head || r.0, (r.1, S)))
combine_inst true true ops r phi V S h a q = found refl refl
combine_inst true false ops r phi V S h (found f o) q = found (rw f refl) (rw o refl)
combine_inst true false ops r phi V S h (clean f o s) q = rw (f, o, s) q
combine_inst false true ops r phi V S h a q = found refl refl
combine_inst false false ops r phi V S h (found f o) q = found f o
combine_inst false false ops r phi V S h (clean f o s) q = clean f o (s, h)

-- One check after another.
combine :
    (fault : Bool) (r : Bool × (Reported × Stamps)) (later : Bool)
    (V : Reported × Stamps → Bool × (Reported × Stamps))
    → Agrees (Reported × Stamps) Kept fault r
    → ((S : Stamps) → Fresh S → Agrees (Reported × Stamps) Kept later (V (unreported, S)))
    → Agrees (Reported × Stamps) Kept (fault || later) (r.0 || (V r.1).0, (V r.1).1)
combine fault r later V (found f o) q = found (rw f refl) (rw o refl)
combine fault r later V (clean f o (s, h)) q = rw (f, o, s) (q r.1.1 h)

module _ {D : Type 0} (M : BirModule D) (X : FuncRange) where
  -- The callee of a call is not looked at.
  faulty_kind : (I : BirInst) (k : ℕ) → faulty M X I k ≡ true → vslot I.op k ≢ vch_fun
  unfolding faulty
  faulty_kind I k h e = absurd (cc (rw (e, faulty) at h))

  vops1-Agrees :
      (I : BirInst) (k left : ℕ)
      → Agrees Reported
          (λ R. R ≡ unreported)
          (any_from (faulty M X I) k left)
          (vops1 M X I k left unreported)
  unfolding vops1 any_from
  vops1-Agrees I k zero = clean refl refl refl
  vops1-Agrees I k (suc left) = elim (Bool-cases (faulty M X I k)) [
    | inl e ↦ found (rw e) (rw e (rw (report-reports (vslot I.op k) (faulty_kind I k e))))
    | inr e ↦ rw e (vops1-Agrees I (suc k) left)
  ]

  phi_arms-same :
      (I : BirInst) (b : ℕ) (ps ps' k left : ℕ) (vps vps' : ℕ → ℕ) (dist : ℕ) (bp oor : Bool)
      → SameMarks vps vps' ps ps'
      → (phi_arms M X I b ps k left vps dist bp oor).1
        ≡ (phi_arms M X I b ps' k left vps' dist bp oor).1
  unfolding phi_arms
  phi_arms-same I b ps ps' k zero vps vps' dist bp oor h = refl
  phi_arms-same I b ps ps' k (suc left) vps vps' dist bp oor h =
      let p = bir_oper M I k in
      let lp = p - X.blo in
      elim (Bool-cases (ltb p X.blo || leb X.nb lp)) [
        | inl out ↦ rw (out, phi_arms) (phi_arms-same I b ps ps' (k + 2) left vps vps' dist _ _ h)
        | inr inside ↦ elim (Bool-cases (vps lp == ps)) [
          | inl again ↦
              rw (inside, again, sym (h lp) ∙ again, phi_arms)
                (phi_arms-same I b ps ps' (k + 2) left vps vps' dist _ _ h)
          | inr anew ↦
              rw (inside, anew, sym (h lp) ∙ anew, phi_arms)
                (phi_arms-same I b ps ps' (k + 2) left (put lp ps vps) (put lp ps' vps') (dist + 1)
                  _ _ (SameMarks-put vps vps' ps ps' lp h))
        ]
      ]

  phi_arms-bounded :
      (I : BirInst) (b ps k left : ℕ) (vps : ℕ → ℕ) (dist : ℕ) (bp oor : Bool)
      → ((i : ℕ) → vps i ≤ ps)
      → (i : ℕ) → (phi_arms M X I b ps k left vps dist bp oor).0 i ≤ ps
  unfolding phi_arms
  phi_arms-bounded I b ps k zero vps dist bp oor h = h
  phi_arms-bounded I b ps k (suc left) vps dist bp oor h =
      let p = bir_oper M I k in
      let lp = p - X.blo in
      elim (Bool-cases (ltb p X.blo || leb X.nb lp || vps lp == ps)) [
        | inl e ↦ rw (e, phi_arms) (phi_arms-bounded I b ps (k + 2) left vps dist _ _ h)
        | inr e ↦
            rw (e, phi_arms)
              (phi_arms-bounded I b ps (k + 2) left (put lp ps vps) (dist + 1) _ _
                (λ i. ground (arith, h i)))
      ]

  module _ (vpc : ℕ → ℕ) (b : ℕ) where
    vphi1-Agrees :
        (I : BirInst) (S : Stamps)
        → Fresh S
        → Agrees
            (Reported × Stamps)
            Kept
            (phi_fault M X vpc b I)
            (vphi1 M X vpc b I (vnop I) (unreported, S))
    unfolding vphi1 phi_fault
    vphi1-Agrees I S fresh =
        let ps = S.vstm + 1 in
        let n = vnop I / 2 in
        let bounded =
          phi_arms-bounded I b ps 0 n S.vps 0 false false (λ i. omega (arith, fresh i)) in
        let same =
          phi_arms-same I b ps 1 0 n S.vps (λ i. 0) 0 false false
            (λ i. ==_ne (S.vps i) ps (λ e. omega (arith, fresh i, e))) in
        rw (same) (
          report_once _ _ _
            (record { vps = (phi_arms M X I b ps 0 n S.vps 0 false false).0; vstm = ps }) bounded)

    vinst1-Agrees :
        (I : BirInst) (S : Stamps)
        → Fresh S
        → Agrees
            (Reported × Stamps)
            Kept
            (inst_fault M X vpc b I)
            (vinst1 M X vpc b I (unreported, S))
    unfolding vinst1 inst_fault
    vinst1-Agrees I S fresh =
        combine_inst (I.op == op_phi)
          (I.op == op_ret && vret1 M X.fi I || I.op == op_call && vcal1 M I)
          (any_from (faulty M X I) 0 (vnop I)) (vops1 M X I 0 (vnop I) unreported)
          (phi_fault M X vpc b I) (λ R. vphi1 M X vpc b I (vnop I) (R, S)) S fresh
          (vops1-Agrees I 0 (vnop I)) (vphi1-Agrees I S fresh)

    vinsts-Agrees :
        (first j left : ℕ) (S : Stamps)
        → Fresh S
        → Agrees
            (Reported × Stamps)
            Kept
            (any_from (λ i. inst_fault M X vpc b (inst_at M (first + i))) j left)
            (vinsts M X vpc b first j left (unreported, S))
    unfolding vinsts any_from
    vinsts-Agrees first j zero S fresh = clean refl refl (refl, fresh)
    vinsts-Agrees first j (suc left) S fresh =
        combine _ (vinst1 M X vpc b (inst_at M (first + j)) (unreported, S)) _
          (λ T. vinsts M X vpc b first (suc j) left T)
          (vinst1-Agrees (inst_at M (first + j)) S fresh)
          (λ S'. vinsts-Agrees first (suc j) left S')

  pub vfun1-Agrees :
      (vpc : ℕ → ℕ) (b left : ℕ) (S : Stamps)
      → Fresh S
      → Agrees
          (Reported × Stamps)
          Kept
          (any_from (block_fault M X vpc) b left)
          (vfun1 M X vpc b left (unreported, S))
  unfolding vfun1 block_fault any_from
  vfun1-Agrees vpc b zero S fresh = clean refl refl (refl, fresh)
  vfun1-Agrees vpc b (suc left) S fresh =
      let B = block_at M (X.blo + b) in
      combine _ (vinsts M X vpc b B.first_inst 0 (in_arena M B) (unreported, S)) _
        (λ T. vfun1 M X vpc (suc b) left T)
        (vinsts-Agrees vpc b B.first_inst 0 (in_arena M B) S fresh)
        (λ S'. vfun1-Agrees vpc (suc b) left S')

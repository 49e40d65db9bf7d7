-- ===== src/Verify/Fine.antt =====
-- What the verifier of src/ir/bir.c asks of a module, each check for itself: nothing is reported
-- once only, and no stamp is left from an earlier check.
use booth.Base.{
  ℕ, ◌+◌, ◌<◌, ◌≡◌, ◌↔◌, arith, Bool, false, not, ◌&&◌, ◌||◌, ◌==◌, leb, any_from, any_from-false,
  any_from-none, length, Bool-cases, inl, inr,
}
use booth.Bir.Defs.{BirModule}
use booth.Dce.Pass.{inst_at}
use booth.Dce.Blocks.{block_at}
use booth.Dce.Run.{func_at}
use booth.Verify.Passes.{inst_fault, FineInst, FineInst-iff}
use booth.Verify.Apart.{IsApart, vovlp_iff}
use booth.Verify.Run.{FuncRange, Reported, Stamps, vovlp, vpred, in_arena, func_range}

abbrev pub no_stamps : Stamps
no_stamps = record { vps = λ i. 0; vstm = 0 }

abbrev pub unreported : Reported
unreported = record { hb = false; hv = false; hp = false; hc = false; hg = false }

module _ {D : Type 0} (M : BirModule D) where
  unfoldable pub block_fault : FuncRange → (vpc : ℕ → ℕ) → (b : ℕ) → Bool
  unfolding inst_fault any_from
  block_fault X vpc b =
      let B = block_at M (X.blo + b) in
      any_from (λ j. inst_fault M X vpc b (inst_at M (B.first_inst + j))) 0 (in_arena M B)

  -- The predecessors of each block of a function.
  unfoldable pub preds : (fi : ℕ) → ℕ → ℕ
  preds fi = let X = func_range M fi in (vpred M X.blo X.nb no_stamps).0

  unfoldable pub func_fault : (fi : ℕ) → Bool
  unfolding block_fault preds any_from
  func_fault fi =
      let F = func_at M fi in
      let X = func_range M fi in
      not (F.num_blocks == 0 || leb (length M.blocks) F.first_block)
      && any_from (block_fault X (preds fi)) 0 X.nb

  unfoldable pub module_fault : Bool
  unfolding func_fault any_from
  module_fault = vovlp M || any_from func_fault 0 (length M.funcs)

  pub record IsFine : Type 0 where
    pub apart : IsApart M
    pub fine :
        (fi b j : ℕ)
        → fi < length M.funcs
        → ((func_at M fi).num_blocks == 0 || leb (length M.blocks) (func_at M fi).first_block)
          ≡ false
        → b < (func_range M fi).nb
        → j < in_arena M (block_at M ((func_range M fi).blo + b))
        → FineInst M
            (func_range M fi)
            (preds fi)
            b
            (inst_at M ((block_at M ((func_range M fi).blo + b)).first_inst + j))

  fine-func_fault : (h : IsFine) (fi : ℕ) → fi < length M.funcs → func_fault fi ≡ false
  unfolding func_fault block_fault
  fine-func_fault h fi known =
      let F = func_at M fi in
      elim (Bool-cases (F.num_blocks == 0 || leb (length M.blocks) F.first_block)) [
        | inl e ↦ rw e
        | inr e ↦ rw e (
            any_from-none (block_fault (func_range M fi) (preds fi)) 0 (func_range M fi).nb
              (λ b low high.
                any_from-none
                  (λ j.
                    inst_fault M (func_range M fi) (preds fi) b
                      (inst_at M ((block_at M ((func_range M fi).blo + b)).first_inst + j)))
                  0 _
                  (λ j low' high'.
                    (FineInst-iff M _ _ b _).1
                      (h.fine fi b j known e (omega arith) (omega arith)))))
      ]

  pub IsFine_iff : (module_fault ≡ false) ↔ IsFine
  unfolding module_fault func_fault block_fault
  IsFine_iff = (
    (λ h. record {
      apart = (vovlp_iff M).0 (ground arith);
      fine = λ fi b j known e low high.
          let whole : func_fault fi ≡ false =
            any_from-false func_fault 0 (length M.funcs) (ground arith) fi (omega arith)
              (omega arith) in
          let blocks : any_from (block_fault (func_range M fi) (preds fi)) 0 (func_range M fi).nb
              ≡ false =
            rw e at whole in
          let inside =
            any_from-false (block_fault (func_range M fi) (preds fi)) 0 (func_range M fi).nb blocks
              b (omega arith) (omega arith) in
          (FineInst-iff M _ _ b _).0 (
            any_from-false
              (λ x.
                inst_fault M (func_range M fi) (preds fi) b
                  (inst_at M ((block_at M ((func_range M fi).blo + b)).first_inst + x)))
              0 (in_arena M (block_at M ((func_range M fi).blo + b))) inside j (omega arith)
              (omega arith));
    }),
    (λ h. rw ((vovlp_iff M).1 h.apart) (
        any_from-none func_fault 0 (length M.funcs)
          (λ fi low high. fine-func_fault h fi (omega arith)))),
  )

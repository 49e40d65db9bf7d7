-- ===== src/Verify/Apart.antt =====
-- What vovlp of src/ir/bir.c makes sure of: any two functions lie apart.
use booth.Base.{
  ℕ, zero, suc, ◌+◌, ◌-◌, ◌%◌, ◌^◌, ◌<◌, ◌≤◌, ◌≡◌, ◌≢◌, ◌↔◌, ◌⊎◌, inl, inr, refl, sym, ◌∙◌, arith,
  Bool, false, not, ◌&&◌, ◌||◌, ◌==◌, length, Bool-cases, any_from, any_from-false, any_from-none,
}
use booth.Bir.Defs.{BirFunc, BirModule}
use booth.Dce.Run.{func_at}
use booth.Verify.Run.{vfrng, share_blocks, share_insts, overlaps, vovlp_from, vovlp}

-- The block behind those of a function, as a `uint32_t`.
abbrev pub end_block : BirFunc → ℕ
end_block F = (F.first_block + F.num_blocks) % 2 ^ 32

-- The blocks of two functions, and their ranges from the first to the last instruction, do not meet.
pub record LiesApart {D : Type 0} (M : BirModule D) (fi fj : ℕ) : Type 0 where
  pub blocks :
      (end_block (func_at M fj) ≤ (func_at M fi).first_block)
      ⊎ (end_block (func_at M fi) ≤ (func_at M fj).first_block)
  pub insts : ((vfrng M fi).1 ≤ (vfrng M fj).0) ⊎ ((vfrng M fj).1 ≤ (vfrng M fi).0)

-- Any two functions that have blocks.
pub record IsApart {D : Type 0} (M : BirModule D) : Type 0 where
  pub pairs :
      (fi fj : ℕ)
      → fi < fj
      → fj < length M.funcs
      → (func_at M fi).num_blocks ≢ 0
      → (func_at M fj).num_blocks ≢ 0
      → LiesApart M fi fj

module _ {D : Type 0} (M : BirModule D) where
  meets : (fi fj : ℕ) → Bool
  meets fi fj =
      not ((func_at M fj).num_blocks == 0)
      && (share_blocks M (func_at M fi) (func_at M fj) || share_insts M fi fj)

  overlaps-any : (fi fj left : ℕ) → overlaps M fi fj left false false ≡ any_from (meets fi) fj left
  unfolding overlaps any_from meets
  overlaps-any fi fj zero = refl
  overlaps-any fi fj (suc left) =
      let rest = overlaps-any fi (suc fj) left in
      elim (Bool-cases ((func_at M fj).num_blocks == 0)) [
        | inl e ↦ rw e rest
        | inr e ↦ elim (Bool-cases (share_blocks M (func_at M fi) (func_at M fj))) [
          | inl b ↦ rw (e, b) refl
          | inr b ↦ elim (Bool-cases (share_insts M fi fj)) [
            | inl i ↦ rw (e, b, i) refl
            | inr i ↦ rw (e, b, i) rest
          ]
        ]
      ]

  faulty_func : (fi : ℕ) → Bool
  faulty_func fi =
      not ((func_at M fi).num_blocks == 0) && any_from (meets fi) (suc fi) (length M.funcs - suc fi)

  vovlp-any :
      (fi left : ℕ)
      → fi + left ≡ length M.funcs
      → vovlp_from M fi left ≡ any_from faulty_func fi left
  unfolding vovlp_from any_from faulty_func
  vovlp-any fi zero h = refl
  vovlp-any fi (suc left) h =
      let rest : length M.funcs - suc fi ≡ left = omega arith in
      rw (rest, overlaps-any fi (suc fi) left, vovlp-any (suc fi) left (omega arith)) refl

  meets-LiesApart :
      (fi fj : ℕ) → (func_at M fj).num_blocks ≢ 0 → (meets fi fj ≡ false) ↔ LiesApart M fi fj
  unfolding meets share_blocks share_insts
  meets-LiesApart fi fj some_blocks =
      let has : ((func_at M fj).num_blocks == 0) ≡ false = ground arith in
      (
        (λ h. record { blocks = ground arith; insts = ground arith }),
        (λ h. ground (arith, h.blocks, h.insts)),
      )

  pub vovlp_iff : (vovlp M ≡ false) ↔ IsApart M
  unfolding vovlp faulty_func meets
  vovlp_iff =
      let n = length M.funcs in
      let all = vovlp-any 0 n (omega arith) in
      (
        (λ h. record {
          pairs = λ fi fj low high some_fi some_fj.
              let has : ((func_at M fi).num_blocks == 0) ≡ false = ground arith in
              let this =
                any_from-false faulty_func 0 n (sym all ∙ h) fi (omega arith) (omega arith) in
              let later : any_from (meets fi) (suc fi) (n - suc fi) ≡ false = rw has at this in
              (meets-LiesApart fi fj some_fj).0 (
                any_from-false (meets fi) (suc fi) (n - suc fi) later fj (omega arith)
                  (omega arith));
        }),
        (λ h.
            all
            ∙ any_from-none faulty_func 0 n (λ fi low high.
              elim (Bool-cases ((func_at M fi).num_blocks == 0)) [
                | inl e ↦ rw e refl
                | inr e ↦ rw e (
                    any_from-none (meets fi) (suc fi) (n - suc fi) (λ fj low' high'.
                      elim (Bool-cases ((func_at M fj).num_blocks == 0)) [
                        | inl e' ↦ rw (e', meets) refl
                        | inr e' ↦ (meets-LiesApart fi fj (ground arith)).1 (
                            h.pairs fi fj (omega arith) (omega arith) (ground arith) (ground arith))
                      ]))
              ])),
      )

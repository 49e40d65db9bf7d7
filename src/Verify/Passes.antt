-- ===== src/Verify/Passes.antt =====
-- What an instruction has to be for the verifier of src/ir/bir.c: its return, its call, its operands
-- and its phi.
use booth.Base.{
  ltb, ◌-◌, some, true, Option-cases, ℕ, ◌+◌, ◌/◌, ◌<◌, ◌≤◌, ◌≡◌, ◌↔◌, refl, arith, Bool, false,
  not, ◌&&◌, ◌||◌, ◌==◌, leb, ◌≢◌, any_from, any_from-false, any_from-none, if◌then◌else◌, length,
  Bool-cases, inl, inr,
}
use booth.Bir.Consts.{slot, bir_oper}
use booth.Bir.Defs.{bir_val_none, bir_val_is_const, type_void, BirInst, BirModule}
use booth.Bir.Opcodes.{op_phi, op_call, op_ret}
use booth.Dce.Run.{func_at}
use booth.Verify.Defs.{
  vnop, SlotKind, vch_val, vch_blk, vch_fun, vch_glb, vslot, vret1, vcal1, vfret, vsame, bvty,
  vnarg, type_at,
}
use booth.Verify.Run.{FuncRange, faulty, phi_arms}

module _ {D : Type 0} (M : BirModule D) where
  -- A phi of block `b` with an arm that is no predecessor or comes again, or whose arms, all of
  -- the function, are not as many as the predecessors.
  unfoldable pub phi_fault : FuncRange → (vpc : ℕ → ℕ) → (b : ℕ) → BirInst → Bool
  phi_fault X vpc b I =
      let r = phi_arms M X I b 1 0 (vnop I / 2) (λ i. 0) 0 false false in
      r.1.1.0 || not r.1.1.1 && not (r.1.0 == vpc b)

  unfoldable pub inst_fault : FuncRange → (vpc : ℕ → ℕ) → (b : ℕ) → BirInst → Bool
  unfolding phi_fault any_from
  inst_fault X vpc b I =
      let head = I.op == op_ret && vret1 M X.fi I || I.op == op_call && vcal1 M I in
      let ops = any_from (faulty M X I) 0 (vnop I) in
      if I.op == op_phi then head || ops || phi_fault X vpc b I else head || ops

  -- A function that has a result returns a value of it, and one that has none returns nothing.
  pub record FineReturn (fi : ℕ) (I : BirInst) : Type 0 where
    pub nothing :
        vfret M fi < length M.types → (type_at M (vfret M fi)).kind ≡ type_void → I.num_operands ≡ 0
    pub something :
        vfret M fi < length M.types
        → (type_at M (vfret M fi)).kind ≢ type_void
        → (I.num_operands ≢ 0) × (vsame M (bvty M (slot I.operands 0)) (vfret M fi) ≡ true)

  -- A call of a function that is there has its result and as many arguments as it has parameters.
  pub record FineCall (I : BirInst) : Type 0 where
    pub result :
        bir_oper M I 0 < length M.funcs
        → vfret M (bir_oper M I 0) < length M.types
        → vsame M I.type (vfret M (bir_oper M I 0)) ≡ true
    pub arguments :
        bir_oper M I 0 < length M.funcs
        → (na : ℕ) → vnarg I ≡ some na
        → na ≡ (func_at M (bir_oper M I 0)).num_params

  -- A global is one of the module, a block one of the function, and a value that is computed one
  -- from the range of the function.
  pub record FineOperand (X : FuncRange) (I : BirInst) (k : ℕ) : Type 0 where
    pub global : vslot I.op k ≡ vch_glb → bir_oper M I k < length M.globals
    pub block : vslot I.op k ≡ vch_blk → (X.blo ≤ bir_oper M I k) × (bir_oper M I k < X.blo + X.nb)
    pub value :
        vslot I.op k ≡ vch_val
        → bir_oper M I k ≢ bir_val_none
        → bir_val_is_const (bir_oper M I k) ≡ false
        → (X.vlo ≤ bir_oper M I k) × (bir_oper M I k < X.vhi)

  pub record FineInst (X : FuncRange) (vpc : ℕ → ℕ) (b : ℕ) (I : BirInst) : Type 0 where
    pub return : I.op ≡ op_ret → FineReturn X.fi I
    pub call : I.op ≡ op_call → FineCall I
    pub operand : (k : ℕ) → k < vnop I → FineOperand X I k
    pub phi : I.op ≡ op_phi → phi_fault X vpc b I ≡ false

  vret1_iff : (fi : ℕ) (I : BirInst) → (vret1 M fi I ≡ false) ↔ FineReturn fi I
  unfolding vret1
  vret1_iff fi I = (
    (λ h. record {
      nothing = λ known void. ground arith;
      something = λ known value. (λ e. absurd (ground arith), ground arith);
    }),
    (λ f. elim (Bool-cases (leb (length M.types) (vfret M fi))) [
      | inl e ↦ rw e refl
      | inr e ↦ elim (Bool-cases ((type_at M (vfret M fi)).kind == type_void)) [
        | inl v ↦ rw (e, v, f.nothing (ground arith) (ground arith)) refl
        | inr v ↦
            let (some_op, same) = f.something (ground arith) (λ q. absurd (ground arith)) in
            let has : (I.num_operands == 0) ≡ false = ground arith in rw (e, v, has, same) refl
      ]
    ]),
  )

  kinds :
      (X : FuncRange) (I : BirInst) (k : ℕ)
      → FineOperand X I k
      → (s : SlotKind) → vslot I.op k ≡ s
      → faulty M X I k ≡ false
  unfolding faulty
  kinds X I k f vch_fun e = rw (e, faulty) refl
  kinds X I k f vch_glb e = let g = f.global e in rw (e, faulty) (ground arith)
  kinds X I k f vch_blk e = let g = f.block e in rw (e, faulty) (ground arith)
  kinds X I k f vch_val e = elim (Bool-cases (bir_oper M I k == bir_val_none)) [
    | inl n ↦ rw (e, n, faulty) refl
    | inr n ↦ elim (Bool-cases (bir_val_is_const (bir_oper M I k))) [
      | inl c ↦ rw (e, n, c, faulty) refl
      | inr c ↦
          let g = f.value e (λ q. absurd (ground arith)) c in rw (e, n, c, faulty) (ground arith)
    ]
  ]

  operand_iff : (X : FuncRange) (I : BirInst) (k : ℕ) → (faulty M X I k ≡ false) ↔ FineOperand X I k
  unfolding faulty
  operand_iff X I k = (
    (λ h. record {
      global = λ e.
          let h' : leb (length M.globals) (bir_oper M I k) ≡ false = rw (e, faulty) at h in
          ground arith;
      block = λ e.
          let o = bir_oper M I k in
          let h' : not (leb X.blo o && ltb (o - X.blo) X.nb) ≡ false = rw (e, faulty) at h in
          (ground arith, ground arith);
      value = λ e n c.
          let o = bir_oper M I k in
          let n' : (o == bir_val_none) ≡ false = ground arith in
          let h' : not (leb X.vlo o && ltb o X.vhi) ≡ false = rw (e, n', c, faulty) at h in
          (ground arith, ground arith);
    }),
    (λ f. kinds X I k f (vslot I.op k) refl),
  )

  vcal1_iff : (I : BirInst) → (vcal1 M I ≡ false) ↔ FineCall I
  unfolding vcal1
  vcal1_iff I =
      let ce = bir_oper M I 0 in
      let rt = vfret M ce in
      (
        (λ h. record {
          result = λ known typed. ground arith;
          arguments = λ known na e.
              let low : leb (length M.funcs) ce ≡ false = ground arith in
              let h' : ((ltb rt (length M.types) && not (vsame M I.type rt))
                    || not (na == (func_at M ce).num_params))
                  ≡ false =
                rw (low, e) at h in
              ground arith;
        }),
        (λ f. elim (Bool-cases (leb (length M.funcs) ce)) [
          | inl e ↦ rw e refl
          | inr e ↦
              let known : ce < length M.funcs = ground arith in
              let typed : (ltb rt (length M.types) && not (vsame M I.type rt)) ≡ false =
                elim (Bool-cases (ltb rt (length M.types))) [
                  | inl t ↦ rw (t, f.result known (ground arith)) refl
                  | inr t ↦ rw t refl
                ] in
              elim (Option-cases (vnarg I)) [
                | inl n ↦ rw (e, typed, n) refl
                | inr (na, n) ↦
                    let count = f.arguments known na n in rw (e, typed, n) (ground arith)
              ]
        ]),
      )

  pub FineInst-iff :
      (X : FuncRange) (vpc : ℕ → ℕ) (b : ℕ) (I : BirInst)
      → (inst_fault X vpc b I ≡ false) ↔ FineInst X vpc b I
  unfolding inst_fault
  FineInst-iff X vpc b I =
      let ops = any_from (faulty M X I) 0 (vnop I) in
      (
        (λ h. record {
          return = λ e. (vret1_iff X.fi I).0 (ground arith);
          call = λ e. (vcal1_iff I).0 (ground arith);
          operand = λ k low. (operand_iff X I k).0 (
              any_from-false (faulty M X I) 0 (vnop I) (ground arith) k (omega arith)
                (omega arith));
          phi = λ e. ground arith;
        }),
        (λ f.
            let all : ops ≡ false =
              any_from-none (faulty M X I) 0 (vnop I)
                (λ k low high. (operand_iff X I k).1 (f.operand k (omega arith))) in
            let ret : (I.op == op_ret && vret1 M X.fi I) ≡ false =
              elim (Bool-cases (I.op == op_ret)) [
                | inl e ↦ rw (e, (vret1_iff X.fi I).1 (f.return (ground arith))) refl
                | inr e ↦ rw e refl
              ] in
            let call : (I.op == op_call && vcal1 M I) ≡ false =
              elim (Bool-cases (I.op == op_call)) [
                | inl e ↦ rw (e, (vcal1_iff I).1 (f.call (ground arith))) refl
                | inr e ↦ rw e refl
              ] in
            elim (Bool-cases (I.op == op_phi)) [
              | inl e ↦ rw (ret, call, all, e) (f.phi (ground arith))
              | inr e ↦ rw (ret, call, all, e) refl
            ]),
      )

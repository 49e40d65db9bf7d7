-- ===== src/Cfold/Typed.antt =====
-- The constant that src/ir/bir_cfold.c puts in the place of an instruction has the type of the
-- instruction, whichever fold is taken.
use mathlib.Core.Path.{subst}
use booth.Base.{
  ℕ, ◌<◌, ◌≡◌, refl, arith, Bool, true, false, ◌||◌, not, ◌==◌, ltb, leb, if◌then◌else◌, Option,
  some, ◌∙◌, ◌∷◌, [], length, get_elem?, if_cases, option_cases, find_index, find_index-some,
  get_elem?-append_left, get_elem?-append_last, lt-length_of_get_elem?,
}
use booth.Bir.Defs.{
  BirConst, ConstValue, int, float, BirInst, BirModule, bir_max_consts, bir_operands_inline,
  bir_operands_overflow,
}
use booth.Bir.Consts.{push_const, is_int, is_float, bir_const_int, bir_const_float}
use booth.Bir.Opcodes.{op_icmp, op_fcmp}
use booth.Cfold.Ints.{Fold, kept, folded, faults, int_op}
use booth.Cfold.Floats.{DoubleOps}
use booth.Cfold.Consts.{
  int_of, float_of, icmp_pred, fcmp_pred, put_int, put_float, fold_one_int, fold_two_ints,
  fold_one_float, fold_two_floats, fold_pair, fold_consts, const_at, int_width, float_width,
  all_const,
}

module _ {D : Type 0} where
  -- The constant `i` of a module has a type, and the constants of `M` are where they were.
  pub record HasType (M : BirModule D) (type : ℕ) (r : ℕ × BirModule D) : Type 0 where
    pub entry : BirConst D
    pub found : get_elem? r.1.consts r.0 ≡ some entry
    pub typed : entry.type ≡ type
    pub grown :
        (i : ℕ) (c : BirConst D) → get_elem? M.consts i ≡ some c → get_elem? r.1.consts i ≡ some c

  data AllTyped (M : BirModule D) (type : ℕ) : Fold (ℕ × BirModule D) → Type 0 where
    left_alone : AllTyped M type kept
    replaced : {r : ℕ × BirModule D} → HasType M type r → AllTyped M type (folded r)
    stopped : AllTyped M type faults

  all-HasType :
      (M : BirModule D) (type : ℕ) (r : ℕ × BirModule D)
      → AllTyped M type (folded r)
      → HasType M type r
  all-HasType M type r (replaced h) = h

  push_const-HasType :
      (M : BirModule D) (c : BirConst D)
      → length M.consts < bir_max_consts
      → HasType M c.type (push_const M c)
  unfolding push_const
  push_const-HasType M c room =
      let test : leb bir_max_consts (length M.consts) ≡ false = ground arith in
      rw test (record {
        entry = c;
        found = get_elem?-append_last M.consts c;
        typed = refl;
        grown = λ i c' h.
            get_elem?-append_left M.consts (c ∷ []) i (lt-length_of_get_elem? M.consts i c' h) ∙ h;
      })

  is_int-type :
      (type val u : ℕ) (v : ConstValue D)
      → is_int type val (record { type = u; value = v }) ≡ true
      → u ≡ type
  unfolding is_int
  is_int-type type val u (int w) h = ground arith
  is_int-type type val u _ h = absurd (cc h)

  is_float-type :
      (same : D → D → Bool) (type : ℕ) (val : D) (u : ℕ) (v : ConstValue D)
      → is_float same type val (record { type = u; value = v }) ≡ true
      → u ≡ type
  unfolding is_float
  is_float-type same type val u (float w) h = ground arith
  is_float-type same type val u _ h = absurd (cc h)

  -- A constant that a scan finds, of the type that the scan tests.
  found-HasType :
      (p : BirConst D → Bool) (M : BirModule D) (type i : ℕ)
      → ((c : BirConst D) → p c ≡ true → c.type ≡ type)
      → find_index p M.consts ≡ some i
      → HasType M type (i, M)
  found-HasType p M type i typed h =
      let (c, e, t) = find_index-some p M.consts i h in
      record { entry = c; found = e; typed = typed c t; grown = λ j c' q. q }

  module _ (M : BirModule D) (room : length M.consts < bir_max_consts) where
    const_int-HasType : (type val : ℕ) → HasType M type (bir_const_int M type val)
    unfolding bir_const_int
    const_int-HasType type val =
        option_cases (HasType M type) (find_index (is_int type val) M.consts)
          (λ e. push_const-HasType M (record { type = type; value = int val }) room)
          (λ i e.
            found-HasType (is_int type val) M type i (λ c. is_int-type type val c.type c.value) e)

    const_float-HasType :
        (same : D → D → Bool) (type : ℕ) (val : D)
        → HasType M type (bir_const_float same M type val)
    unfolding bir_const_float
    const_float-HasType same type val =
        option_cases (HasType M type) (find_index (is_float same type val) M.consts)
          (λ e. push_const-HasType M (record { type = type; value = float val }) room)
          (λ i e.
            found-HasType (is_float same type val) M type i
              (λ c. is_float-type same type val c.type c.value) e)

    module _ (F : DoubleOps D) (I : BirInst) where
      abbrev Good : Fold (ℕ × BirModule D) → Type 0
      Good = AllTyped M I.type

      put_int-typed : (r : Fold ℕ) → Good (put_int F M I r)
      unfolding put_int
      put_int-typed kept = left_alone
      put_int-typed (folded v) = replaced (const_int-HasType I.type v)
      put_int-typed faults = stopped

      put_float-typed : (r : Fold D) → Good (put_float F M I r)
      unfolding put_float
      put_float-typed kept = left_alone
      put_float-typed (folded v) = replaced (const_float-HasType F.eq I.type v)
      put_float-typed faults = stopped

      one_int-typed : (c0 : Option (BirConst D)) (a : ℕ) → Good (fold_one_int F M I c0 a)
      unfolding fold_one_int
      one_int-typed c0 a =
          if_cases Good (ltb 0 (int_width M I.type)) (λ h. put_int-typed _)
            (λ h.
              if_cases Good (ltb 0 (float_width M I.type)) (λ g. put_float-typed _)
                (λ g. left_alone))

      two_ints-typed : (c0 : Option (BirConst D)) (a b : ℕ) → Good (fold_two_ints F M I c0 a b)
      unfolding fold_two_ints
      two_ints-typed c0 a b =
          if_cases Good (I.op == op_icmp)
            (λ h. option_cases Good (icmp_pred I.subop) (λ e. left_alone) (λ p e. put_int-typed _))
            (λ h.
              if_cases Good (ltb 0 (int_width M I.type))
                (λ g. option_cases Good (int_op I.op) (λ e. left_alone) (λ op e. put_int-typed _))
                (λ g. one_int-typed c0 a))

      one_float-typed : (a : D) → Good (fold_one_float F M I a)
      unfolding fold_one_float
      one_float-typed a =
          if_cases Good (ltb 0 (int_width M I.type)) (λ h. put_int-typed _)
            (λ h.
              if_cases Good (ltb 0 (float_width M I.type)) (λ g. put_float-typed _)
                (λ g. left_alone))

      two_floats-typed : (a b : D) → Good (fold_two_floats F M I a b)
      unfolding fold_two_floats
      two_floats-typed a b =
          if_cases Good (I.op == op_fcmp)
            (λ h. option_cases Good (fcmp_pred I.subop) (λ e. left_alone) (λ p e. put_int-typed _))
            (λ h.
              if_cases Good (ltb 0 (float_width M I.type)) (λ g. put_float-typed _)
                (λ g. one_float-typed a))

      pair-typed : (c0 c1 : Option (BirConst D)) → Good (fold_pair F M I c0 c1)
      unfolding fold_pair
      pair-typed c0 c1 =
          option_cases Good (int_of c0)
            (λ e.
              option_cases Good (float_of c0) (λ d. left_alone)
                (λ a d.
                  option_cases Good (float_of c1) (λ g. one_float-typed a)
                    (λ b g. two_floats-typed a b)))
            (λ a e.
              option_cases Good (int_of c1) (λ g. one_int-typed c0 a)
                (λ b g. two_ints-typed c0 a b))

      -- Where the pool of constants has room, the constant that a fold puts in the place of an
      -- instruction, whichever fold it is, has the type of the instruction, and the constants
      -- before it stay where they are.
      pub fold_consts-HasType :
          (r : ℕ × BirModule D) → fold_consts F M I ≡ folded r → HasType M I.type r
      unfolding fold_consts
      fold_consts-HasType r h = all-HasType M I.type r (
          subst Good (h) (
            if_cases Good (I.num_operands == 0 || I.num_operands == bir_operands_overflow)
              (λ e. left_alone)
              (λ e.
                if_cases Good
                  (not (
                    all_const I.operands I.op 0 (
                      if leb I.num_operands bir_operands_inline
                      then I.num_operands
                      else bir_operands_inline)))
                  (λ g. left_alone) (λ g. pair-typed (const_at M I 0) (const_at M I 1)))))

-- ===== src/Insert/Reads.antt =====
-- After bir_insert of src/ir/bir_insert.c every instruction reads what it read before.
use mathlib.Core.Option
use booth.Base.{
  ℕ, zero, suc, ◌+◌, ◌-◌, ◌%◌, ◌^◌, ◌≤◌, ◌<◌, ◌≡◌, ◌≢◌, refl, ap, ◌∙◌, arith, true, false, ◌==◌,
  ltb, leb, if◌then◌else◌, Bool-cases, inl, inr, List, [], ◌∷◌, length, get_elem?, map, bit_and,
  if_cases, some, get_elem?-append_right, bit_and_mask, bit_and_bit,
}
use booth.Bir.Defs.{
  BirInst, BirBlock, BirModule, bir_operands_inline, bir_operands_overflow, bir_val_none,
  bir_val_index, bir_val_is_const,
}
use booth.Bir.Consts.{slot}
use booth.Dce.Defs.{is_inline_block_ref, add_value, inline_values, values}
use booth.Insert.Run.{rv, remap_slots, names_first, splice, insert_at, bir_insert, bir_max_insts}
use booth.Bir.Opcodes.{op_br, op_br_cond, op_switch, op_phi}
use booth.Insert.Slots.{IsInline, Slid, remap_slots-Slid}

-- The number of instruction `i` after `n` others are put in front of number `at`.
abbrev pub moved : (at n i : ℕ) → ℕ
moved at n i = if leb at i then i + n else i

small_value :
    (k : ℕ)
    → k < 2 ^ 31
    → ((k == bir_val_none) ≡ false) × (bir_val_is_const k ≡ false) × (bir_val_index k ≡ k)
unfolding bir_val_is_const bir_val_index
small_value k h =
    let bit : bit_and k (2 ^ 31) ≡ 0 = omega (arith, bit_and_bit 31 k) in
    let mask : bit_and k (2 ^ 31 - 1) ≡ k = omega (arith, bit_and_mask 31 k) in
    (ground arith, rw bit refl, mask)

-- A value that is read is an instruction below `limit`.
pub record Names (limit ref : ℕ) : Type 0 where
  pub below : ref ≢ bir_val_none → bir_val_is_const ref ≡ false → bir_val_index ref < limit

module _ (at n limit : ℕ) (room : limit + n ≤ bir_max_insts) where
  add_value-rv :
      (ref : ℕ) (rest : List ℕ)
      → Names limit ref
      → add_value (rv at n ref) (map (moved at n) rest) ≡ map (moved at n) (add_value ref rest)
  unfolding add_value rv
  add_value-rv ref rest names = elim (Bool-cases (ref == bir_val_none)) [
    | inl e ↦ rw e (rw e refl)
    | inr some_value ↦ elim (Bool-cases (bir_val_is_const ref)) [
      | inl e ↦ rw (some_value, e) (rw (some_value, e) refl)
      | inr e ↦
          let idx = bir_val_index ref in
          let below : idx < limit = names.below (λ q. ground arith) e in
          elim (Bool-cases (leb at idx)) [
            | inl behind ↦
                let small : (idx + n) % 2 ^ 32 ≡ idx + n = omega arith in
                let (a, b, c) = small_value (idx + n) (omega arith) in
                rw (some_value, e, behind, small) (rw (a, b, c) refl)
            | inr before ↦ rw (some_value, e, before) (rw (some_value, e) refl)
          ]
    ]
  ]

  module _ (xs ys : List ℕ) (op : ℕ) where
    inline_values-moved :
        (j left : ℕ)
        → ((k : ℕ)
            → k < j + left
            → is_inline_block_ref op k ≡ false
            → (slot ys k ≡ rv at n (slot xs k)) × Names limit (slot xs k))
        → inline_values ys op j left ≡ map (moved at n) (inline_values xs op j left)
    unfolding inline_values
    inline_values-moved j zero each = refl
    inline_values-moved j (suc left) each =
        let rest = inline_values-moved (suc j) left (λ k h. each k (omega arith)) in
        elim (Bool-cases (is_inline_block_ref op j)) [
          | inl e ↦ rw e rest
          | inr e ↦
              let (slid, names) = each j (omega arith) e in
              rw (e, slid, rest) (add_value-rv (slot xs j) (inline_values xs op (suc j) left) names)
        ]

module _ {ℓ} {A : Type ℓ} where
  get_elem?-splice :
      (k i : ℕ) (src xs : List A) (a : A)
      → get_elem? xs i ≡ some a
      → get_elem? (splice k src xs) (moved k (length src) i) ≡ some a
  unfolding splice
  get_elem?-splice k i src [] a h = absurd (cc h)
  get_elem?-splice zero i src (x ∷ xs) a h =
      let place : i + length src ≡ length src + i = omega arith in
      let behind : leb 0 i ≡ true = ground arith in
      rw (behind, place) (get_elem?-append_right src (x ∷ xs) i ∙ h)
  get_elem?-splice (suc k) zero src (x ∷ xs) a h =
      let before : leb (suc k) 0 ≡ false = ground arith in rw before h
  get_elem?-splice (suc k) (suc i) src (x ∷ xs) a h =
      let rest = get_elem?-splice k i src xs a h in
      elim (Bool-cases (leb k i)) [
        | inl e ↦
            let place : suc i + length src ≡ suc (i + length src) = omega arith in
            let e' : leb (suc k) (suc i) ≡ true = ground arith in
            let tail : get_elem? (splice k src xs) (i + length src) ≡ some a = rw e at rest in
            rw (e', place) tail
        | inr e ↦
            let e' : leb (suc k) (suc i) ≡ false = ground arith in
            let tail : get_elem? (splice k src xs) i ≡ some a = rw e at rest in rw e' tail
      ]

  get_elem?-map :
      {B : Type ℓ} (f : A → B) (xs : List A) (i : ℕ) (a : A)
      → get_elem? xs i ≡ some a
      → get_elem? (map f xs) i ≡ some (f a)
  get_elem?-map f [] i a h = absurd (cc h)
  get_elem?-map f (x ∷ xs) zero a h = ap (λ o. some (f (Option.get_or o x))) h
  get_elem?-map f (x ∷ xs) (suc i) a h = get_elem?-map f xs i a h

-- The insertion is one that the function does, into the block `TB`.
pub record Accepts {D : Type 0} (M : BirModule D) (block_idx pos : ℕ) (src : List BirInst)
    (TB : BirBlock) : Type 0 where
  pub found : get_elem? M.blocks block_idx ≡ some TB
  pub inside : pos ≤ TB.num_insts
  pub some_src : 0 < length src
  pub ends : TB.first_inst + TB.num_insts ≤ length M.insts
  pub room : length M.insts + length src ≤ bir_max_insts

-- `J` is `I`, with each value that it reads numbered anew.
pub record Renamed {D : Type 0} (M N : BirModule D) (rename : ℕ → ℕ) (I J : BirInst) : Type 0 where
  pub op : J.op ≡ I.op
  pub subop : J.subop ≡ I.subop
  pub type : J.type ≡ I.type
  pub reads : values N J ≡ map rename (values M I)

remap_slots-kept :
    (at n : ℕ) (I : BirInst)
    → remap_slots at n I ≡ record I { operands = (remap_slots at n I).operands }
unfolding remap_slots
remap_slots-kept at n I =
    let P : BirInst → Type 0 = λ J. J ≡ record I { operands = J.operands } in
    if_cases P (I.op == op_br) (λ e. refl)
      (λ e.
        if_cases P (I.op == op_br_cond) (λ e. refl)
          (λ e.
            if_cases P (I.num_operands == bir_operands_overflow) (λ e. refl)
              (λ e.
                if_cases P (I.op == op_switch) (λ e. refl)
                  (λ e.
                    if_cases P (I.op == op_phi) (λ e. refl)
                      (λ e. if_cases P (names_first I.op) (λ e. refl) (λ e. refl))))))

values-renamed :
    {D : Type 0} (M N : BirModule D) (rename : ℕ → ℕ) (I J : BirInst)
    → I.num_operands ≤ bir_operands_inline
    → J.num_operands ≡ I.num_operands
    → J.op ≡ I.op
    → inline_values J.operands I.op 0 I.num_operands
      ≡ map rename (inline_values I.operands I.op 0 I.num_operands)
    → values N J ≡ map rename (values M I)
unfolding values
values-renamed M N rename I J few same op reads =
    let full : (I.num_operands == bir_operands_overflow) ≡ false = ground arith in
    let cut : leb I.num_operands bir_operands_inline ≡ true = ground arith in
    rw (same, op, full, cut) reads

module _ {D : Type 0} (M : BirModule D) (block_idx pos : ℕ) (src : List BirInst) (TB : BirBlock)
    (accepts : Accepts M block_idx pos src TB) where
  pub bir_insert-insert_at :
      bir_insert M block_idx pos src
      ≡ (TB.first_inst + pos, insert_at M block_idx (TB.first_inst + pos) src)
  unfolding bir_insert
  bir_insert-insert_at =
      let present : (length src == 0) ≡ false = ground (arith, accepts.some_src) in
      let place : (TB.first_inst + pos) % 2 ^ 32 ≡ TB.first_inst + pos =
        omega (arith, accepts.inside, accepts.ends, accepts.room) in
      let sum : (length M.insts + length src) % 2 ^ 32 ≡ length M.insts + length src =
        omega (arith, accepts.room) in
      let fits : ltb bir_max_insts (length M.insts + length src) ≡ false =
        ground (arith, accepts.room) in
      let before : ltb TB.num_insts pos ≡ false = ground (arith, accepts.inside) in
      rw (present, accepts.found, place, sum) (rw (fits, before) refl)

  -- For an insertion that the function does, an instruction whose operands stand in it and that
  -- reads instructions of the module stands afterwards at its new number, with its opcode, and
  -- reads, by the classification of operands that dead code elimination has, the same
  -- instructions in order, at their new numbers.
  pub bir_insert-Renamed :
      (i : ℕ) (I : BirInst)
      → get_elem? M.insts i ≡ some I
      → IsInline I
      → ((j : ℕ)
          → j < I.num_operands
          → is_inline_block_ref I.op j ≡ false
          → Names (length M.insts) (slot I.operands j))
      → let at = TB.first_inst + pos in
        let (place, N) = bir_insert M block_idx pos src in
        (place ≡ at)
        × (J : BirInst) × (get_elem? N.insts (moved at (length src) i) ≡ some J)
        × Renamed M N (moved at (length src)) I J
  unfolding insert_at Slid
  bir_insert-Renamed i I here shaped names =
      let at = TB.first_inst + pos in
      let n = length src in
      let J = remap_slots at n I in
      let kept = remap_slots-kept at n I in
      let same : J.num_operands ≡ I.num_operands = ap (λ (x : BirInst). x.num_operands) kept in
      let moved_values =
        inline_values-moved at n (length M.insts) accepts.room I.operands J.operands I.op 0
          I.num_operands
          (λ k h e. (remap_slots-Slid at n I shaped k (omega arith) e, names k (omega arith) e)) in
      rw bir_insert-insert_at (
        refl,
        J,
        get_elem?-map (remap_slots at n) (splice at src M.insts) (moved at n i) I
            (get_elem?-splice at i src M.insts I here),
        record {
          op = ap (λ (x : BirInst). x.op) kept;
          subop = ap (λ (x : BirInst). x.subop) kept;
          type = ap (λ (x : BirInst). x.type) kept;
          reads =
              values-renamed M (insert_at M block_idx at src) (moved at n) I J shaped.few same
                (ap (λ (x : BirInst). x.op) kept) moved_values;
        },
      )

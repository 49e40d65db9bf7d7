-- ===== src/Insert/Slots.antt =====
-- What remap_inst of src/ir/bir_insert.c leaves in the slots of an instruction.
use native.Mathlib.Decide.{dec_le}
use booth.Base.{
  ℕ, zero, suc, ◌+◌, ◌-◌, ◌*◌, ◌/◌, ◌%◌, ◌^◌, ◌≤◌, ◌<◌, ◌≡◌, ◌≢◌, refl, sym, ap, ◌∙◌, arith, false,
  ◌==◌, ltb, Bool-cases, inl, inr, List, length, length-set, get_elem?-set_self, get_elem?-set_ne,
}
use booth.Bir.Defs.{BirInst, bir_operands_inline, bir_operands_overflow}
use booth.Bir.Consts.{slot}
use booth.Bir.Opcodes.{op_br, op_br_cond, op_switch, op_phi}
use booth.Dce.Defs.{is_inline_block_ref}
use booth.Insert.Run.{rv, slide, slide_each, slide_second, names_first, remap_slots}

module _ (at n : ℕ) where
  slot-slide_self :
      (xs : List ℕ) (i : ℕ) → i < length xs → slot (slide at n xs i) i ≡ rv at n (slot xs i)
  unfolding slide slot
  slot-slide_self xs i h = rw (get_elem?-set_self xs i (rv at n (slot xs i)) h) refl

  slot-slide_ne : (xs : List ℕ) (i j : ℕ) → i ≢ j → slot (slide at n xs i) j ≡ slot xs j
  unfolding slide slot
  slot-slide_ne xs i j h = rw (get_elem?-set_ne xs i j (rv at n (slot xs i)) h) refl

  length-slide : (xs : List ℕ) (i : ℕ) → length (slide at n xs i) ≡ length xs
  unfolding slide
  length-slide xs i = length-set xs i (rv at n (slot xs i))

  -- A loop leaves what stands before the place where it is.
  slide_each-before :
      (xs : List ℕ) (i left j : ℕ)
      → i + left ≤ 2 ^ 32
      → j < i
      → slot (slide_each at n xs 0 i left) j ≡ slot xs j
  unfolding slide_each
  slide_each-before xs i zero j small h = refl
  slide_each-before xs i (suc left) j small h =
      let same : (0 + i) % 2 ^ 32 ≡ i = omega arith in
      rw same (
        slide_each-before (slide at n xs i) (suc i) left j (omega arith) (omega arith)
        ∙ slot-slide_ne xs i j (omega arith))

  slide_each-inside :
      (xs : List ℕ) (i left j : ℕ)
      → i + left ≤ 2 ^ 32
      → i ≤ j
      → j < i + left
      → j < length xs
      → slot (slide_each at n xs 0 i left) j ≡ rv at n (slot xs j)
  unfolding slide_each
  slide_each-inside xs i zero j small low high inside = absurd (omega arith)
  slide_each-inside xs i (suc left) j small low high inside =
      let same : (0 + i) % 2 ^ 32 ≡ i = omega arith in
      rw same (elim (dec_le (suc i) j) [
        | no p ↦
            let e : i ≡ j = omega arith in
            slide_each-before (slide at n xs i) (suc i) left j (omega arith) (omega arith)
            ∙ (let own = slot-slide_self xs i (omega arith) in
                ap (slot (slide at n xs i)) (sym e) ∙ own ∙ ap (λ k. rv at n (slot xs k)) e)
        | yes p ↦
            let e : i ≢ j = λ q. omega arith in
            let ys = slide at n xs i in
            slide_each-inside ys (suc i) left j (omega arith) (omega arith) (omega arith)
              (omega (arith, length-slide xs i))
            ∙ ap (rv at n) (slot-slide_ne xs i j e)
      ])

  slide_second-before :
      (xs : List ℕ) (i left j : ℕ)
      → i + 2 * left ≤ 2 ^ 32
      → j < i
      → slot (slide_second at n xs 0 i left) j ≡ slot xs j
  unfolding slide_second
  slide_second-before xs i zero j small h = refl
  slide_second-before xs i (suc left) j small h =
      let same : (0 + i) % 2 ^ 32 ≡ i = omega arith in
      rw same (
        slide_second-before (slide at n xs i) (suc (suc i)) left j (omega arith) (omega arith)
        ∙ slot-slide_ne xs i j (omega arith))

  -- The place `i + 2 * k` is one of those of the loop.
  slide_second-inside :
      (xs : List ℕ) (i left k : ℕ)
      → i + 2 * left ≤ 2 ^ 32
      → k < left
      → i + 2 * k < length xs
      → slot (slide_second at n xs 0 i left) (i + 2 * k) ≡ rv at n (slot xs (i + 2 * k))
  unfolding slide_second
  slide_second-inside xs i zero k small high inside = absurd (omega arith)
  slide_second-inside xs i (suc left) zero small high inside =
      let same : (0 + i) % 2 ^ 32 ≡ i = omega arith in
      let here : i + 2 * 0 ≡ i = omega arith in
      rw (same, here)
        (slide_second-before (slide at n xs i) (suc (suc i)) left i (omega arith) (omega arith)
          ∙ slot-slide_self xs i (omega arith))
  slide_second-inside xs i (suc left) (suc k) small high inside =
      let same : (0 + i) % 2 ^ 32 ≡ i = omega arith in
      let here : i + 2 * suc k ≡ suc (suc i) + 2 * k = omega arith in
      let ys = slide at n xs i in
      rw (same, here)
        (slide_second-inside ys (suc (suc i)) left k (omega arith) (omega arith)
            (omega (arith, length-slide xs i))
          ∙ ap (rv at n) (slot-slide_ne xs i (suc (suc i) + 2 * k) (omega arith)))

-- The operands stand in the instruction, and a branch has no more of them than its form.
pub record IsInline (I : BirInst) : Type 0 where
  pub few : I.num_operands ≤ bir_operands_inline
  pub there : I.num_operands ≤ length I.operands
  pub br : I.op ≡ op_br → I.num_operands ≤ 1
  pub br_cond : I.op ≡ op_br_cond → I.num_operands ≤ 4
  pub switch : I.op ≡ op_switch → I.num_operands ≤ 2

-- `J` reads at place `j` what `I` reads there, numbered anew.
unfoldable pub Slid : (at n : ℕ) (I : BirInst) (j : ℕ) → BirInst → Type 0
Slid at n I j J = slot J.operands j ≡ rv at n (slot I.operands j)

module _ (at n : ℕ) (I : BirInst) (shaped : IsInline I) (j : ℕ) (inside : j < I.num_operands)
    (value : is_inline_block_ref I.op j ≡ false) where
  alone : j ≡ 0 → Slid at n I j (record I { operands = slide at n I.operands 0 })
  unfolding Slid
  alone zeroth = rw zeroth (slot-slide_self at n I.operands 0 (omega (arith, shaped.there)))

  every :
      (i left : ℕ)
      → i ≤ j
      → i + left ≡ I.num_operands
      → Slid at n I j (record I { operands = slide_each at n I.operands 0 i left })
  unfolding Slid
  every i left low sum =
      slide_each-inside at n I.operands i left j (omega (arith, shaped.few)) low (omega arith)
        (omega (arith, shaped.there))

  second :
      I.op ≡ op_phi
      → Slid at n I j
          (record I { operands = slide_second at n I.operands 0 1 (I.num_operands / 2) })
  unfolding Slid is_inline_block_ref
  second phi =
      let odd : (j % 2 == 0) ≡ false = rw phi at value in
      let place : j ≡ 1 + 2 * (j / 2) = ground arith in
      rw place (
        slide_second-inside at n I.operands 1 (I.num_operands / 2) (j / 2)
          (omega (arith, shaped.few)) (omega arith) (omega (arith, shaped.there)))

  pub remap_slots-Slid : Slid at n I j (remap_slots at n I)
  unfolding remap_slots names_first is_inline_block_ref
  remap_slots-Slid =
      let full : (I.num_operands == bir_operands_overflow) ≡ false = ground (arith, shaped.few) in
      let cut : ltb bir_operands_inline I.num_operands ≡ false = ground (arith, shaped.few) in
      elim (Bool-cases (I.op == op_br)) [
        | inl e ↦ let first : I.num_operands ≤ 1 = shaped.br (ground arith) in absurd (ground arith)
        | inr br ↦ elim (Bool-cases (I.op == op_br_cond)) [
          | inl e ↦
              let first : I.num_operands ≤ 4 = shaped.br_cond (ground arith) in
              rw (br, e) (alone (ground arith))
          | inr br_cond ↦ elim (Bool-cases (I.op == op_switch)) [
            | inl e ↦
                let first : I.num_operands ≤ 2 = shaped.switch (ground arith) in
                rw (br, br_cond, full, e) (alone (ground arith))
            | inr switch ↦ elim (Bool-cases (I.op == op_phi)) [
              | inl e ↦ rw (br, br_cond, full, switch, e) (second (ground arith))
              | inr phi ↦ elim (Bool-cases (names_first I.op)) [
                | inl e ↦
                    rw (br, br_cond, full, switch, phi, e)
                      (every 1 (I.num_operands - 1) (ground arith) (omega arith))
                | inr e ↦
                    rw (br, br_cond, full, switch, phi, e, cut)
                      (every 0 I.num_operands (omega arith) (omega arith))
              ]
            ]
          ]
        ]
      ]

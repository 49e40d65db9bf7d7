-- ===== src/Verify/Phis.antt =====
-- What bir_vchk of src/ir/bir.c makes sure of a phi.
use mathlib.Core.Path.{subst}
use booth.Base.{
  any_from-false, any_from, ℕ, zero, suc, ◌+◌, ◌-◌, ◌*◌, ◌/◌, ◌%◌, ◌<◌, ◌≤◌, ◌≡◌, ◌≢◌, refl, sym,
  ap, ◌∙◌, arith, Bool, true, false, not, ◌&&◌, ◌||◌, ◌==◌, ltb, leb, length, Bool-cases, inl, inr,
  ==_ne, ==_refl, bc_ok,
}
use booth.Bir.Defs.{BirInst, BirModule}
use booth.Bir.Consts.{bir_oper}
use booth.Bir.Opcodes.{op_phi, op_call, op_ret}
use booth.Dce.Pass.{inst_at}
use booth.Dce.Blocks.{block_at}
use booth.Dce.Run.{func_at}
use booth.Verify.Defs.{vret1, vcal1, vslot, vch_blk, vnop, vsucis}
use booth.Verify.Run.{FuncRange, faulty, phi_arms, in_arena, func_range, bir_vchk}
use booth.Verify.Fine.{preds}
use booth.Verify.Passes.{phi_fault, inst_fault, FineInst-iff}
use booth.Verify.Checked.{bir_vchk_iff}
use booth.Verify.Once.{put}

first_false : (bp r : Bool) → (bp || r) ≡ false → bp ≡ false
first_false true r h = h
first_false false r h = refl

or_false : (b : Bool) → (b || false) ≡ b
or_false true = refl
or_false false = refl

edge_true : (bp e : Bool) → (bp || (not e || false)) ≡ false → e ≡ true
edge_true true e h = absurd (cc h)
edge_true false true h = refl
edge_true false false h = absurd (cc h)

last_true : (bp e : Bool) → (bp || (not e || true)) ≡ false → ⊥
last_true true e h = cc h
last_true false true h = cc h
last_true false false h = cc h

unmarked :
    (ps lp : ℕ) (vps : ℕ → ℕ) (i : ℕ) → (put lp ps vps i == ps) ≡ false → (vps i == ps) ≡ false
unmarked ps lp vps i h = elim (Bool-cases (i == lp)) [
  | inl e ↦ absurd (cc (sym (==_refl ps) ∙ rw e at h))
  | inr e ↦ rw e at h
]

marked_apart : (ps lp : ℕ) (vps : ℕ → ℕ) (i : ℕ) → (put lp ps vps i == ps) ≡ false → lp ≢ i
marked_apart ps lp vps i h e =
    absurd (cc (sym (==_refl ps) ∙ rw (sym (ap (λ j. j == lp) e) ∙ ==_refl lp) at h))

-- The first arm and the others.
by_arm :
    (P : ℕ → Type 0) (left : ℕ)
    → P 0
    → ((m : ℕ) → m < left → P (suc m))
    → (m : ℕ) → m < suc left
    → P m
by_arm P left first later zero h = first
by_arm P left first later (suc m) h = later m (omega arith)

module _ {D : Type 0} (M : BirModule D) (X : FuncRange) (I : BirInst) (b : ℕ) where
  -- The block of arm `m`, counted from place `k`.
  abbrev arm : (k m : ℕ) → ℕ
  arm k m = bir_oper M I (k + 2 * m)

  abbrev Inside : ℕ → Type 0
  Inside p = (ltb p X.blo || leb X.nb (p - X.blo)) ≡ false

  next_arm : (k m : ℕ) → arm (k + 2) m ≡ arm k (suc m)
  next_arm k m = ap (bir_oper M I) {x = k + 2 + 2 * m} {y = k + 2 * suc m} (omega arith)

  -- What a walk over arms of the function that finds no fault has seen.
  record Seen (ps k left : ℕ) (vps : ℕ → ℕ) (dist : ℕ) (bp : Bool) (last : ℕ) : Type 0 where
    before : bp ≡ false
    edge : (m : ℕ) → m < left → vsucis M (arm k m) (X.blo + b) ≡ true
    anew : (m : ℕ) → m < left → (vps (arm k m - X.blo) == ps) ≡ false
    distinct : (m m' : ℕ) → m < m' → m' < left → arm k m ≢ arm k m'
    count : last ≡ dist + left

  Seen-cons :
      (ps k left : ℕ) (vps : ℕ → ℕ) (dist : ℕ) (bp : Bool) (last : ℕ)
      → (vps (arm k 0 - X.blo) == ps) ≡ false
      → Seen ps
          (k + 2)
          left
          (put (arm k 0 - X.blo) ps vps)
          (dist + 1)
          (bp || (not (vsucis M (arm k 0) (X.blo + b)) || false))
          last
      → Seen ps k (suc left) vps dist bp last
  Seen-cons ps k left vps dist bp last new ih =
      let lp = arm k 0 - X.blo in
      let marked : (m : ℕ) → m < left → (put lp ps vps (arm k (suc m) - X.blo) == ps) ≡ false =
        λ m low. ap (λ p. put lp ps vps (p - X.blo) == ps) (sym (next_arm k m)) ∙ ih.anew m low in
      record {
        before = first_false bp _ ih.before;
        edge =
            by_arm (λ m. vsucis M (arm k m) (X.blo + b) ≡ true) left (edge_true bp _ ih.before)
              (λ m low. ap (λ p. vsucis M p (X.blo + b)) (sym (next_arm k m)) ∙ ih.edge m low);
        anew =
            by_arm (λ m. (vps (arm k m - X.blo) == ps) ≡ false) left new
              (λ m low. unmarked ps lp vps _ (marked m low));
        distinct = λ m m' lt low.
            by_arm (λ j. (i : ℕ) → i < j → arm k i ≢ arm k j) left (λ i none. absurd (omega arith))
              (λ j below.
                by_arm (λ i. arm k i ≢ arm k (suc j)) j
                  (λ e. marked_apart ps lp vps _ (marked j below) (ap (λ p. p - X.blo) e))
                  (λ i less e. ih.distinct i j less below (next_arm k i ∙ e ∙ sym (next_arm k j))))
              m' low m lt;
        count = omega (arith, ih.count);
      }

  walk-Seen :
      (ps k left : ℕ) (vps : ℕ → ℕ) (dist : ℕ) (bp oor : Bool)
      → ((m : ℕ) → m < left → Inside (arm k m))
      → (phi_arms M X I b ps k left vps dist bp oor).1.1.0 ≡ false
      → Seen ps k left vps dist bp (phi_arms M X I b ps k left vps dist bp oor).1.0
  unfolding phi_arms
  walk-Seen ps k zero vps dist bp oor all h = record {
    before = h;
    edge = λ m low. absurd (omega arith);
    anew = λ m low. absurd (omega arith);
    distinct = λ m m' lt low. absurd (omega arith);
    count = omega arith;
  }
  walk-Seen ps k (suc left) vps dist bp oor all h =
      let here : arm k 0 ≡ bir_oper M I k = ap (bir_oper M I) (omega arith) in
      let inside = rw here at (all 0 (omega arith)) in
      let later : (m : ℕ) → m < left → Inside (arm (k + 2) m) =
        λ m low. subst Inside (sym (next_arm k m)) (all (suc m) (omega arith)) in
      elim (Bool-cases (vps (bir_oper M I k - X.blo) == ps)) [
        | inl again ↦
            let ih =
              walk-Seen ps (k + 2) left vps dist
                (bp || (not (vsucis M (bir_oper M I k) (X.blo + b)) || true)) (oor || false) later
                (rw (inside, again, phi_arms) at h) in
            absurd (last_true bp _ ih.before)
        | inr new ↦
            let ih =
              walk-Seen ps (k + 2) left (put (bir_oper M I k - X.blo) ps vps) (dist + 1)
                (bp || (not (vsucis M (bir_oper M I k) (X.blo + b)) || false)) (oor || false) later
                (rw (inside, new, phi_arms) at h) in
            rw (inside, new, phi_arms)
              (Seen-cons ps k left vps dist bp _ (rw here new) (rw here ih))
      ]

  walk-oor :
      (ps k left : ℕ) (vps : ℕ → ℕ) (dist : ℕ) (bp oor : Bool)
      → ((m : ℕ) → m < left → Inside (arm k m))
      → (phi_arms M X I b ps k left vps dist bp oor).1.1.1 ≡ oor
  unfolding phi_arms
  walk-oor ps k zero vps dist bp oor all = refl
  walk-oor ps k (suc left) vps dist bp oor all =
      let here : arm k 0 ≡ bir_oper M I k = ap (bir_oper M I) (omega arith) in
      let inside = rw here at (all 0 (omega arith)) in
      let later : (m : ℕ) → m < left → Inside (arm (k + 2) m) =
        λ m low. subst Inside (sym (next_arm k m)) (all (suc m) (omega arith)) in
      rw (inside, phi_arms) (walk-oor ps (k + 2) left _ _ _ (oor || false) later ∙ or_false oor)

or_parts : (a b c : Bool) → (a || b || c) ≡ false → (b ≡ false) × (c ≡ false)
or_parts true b c h = absurd (cc h)
or_parts false true c h = absurd (cc h)
or_parts false false true h = absurd (cc h)
or_parts false false false h = (refl, refl)

counted : (oor : Bool) (dist n : ℕ) → oor ≡ false → (not oor && not (dist == n)) ≡ false → dist ≡ n
counted true dist n e h = absurd (cc e)
counted false dist n e h = ground (arith, h)

-- A phi of block `b`, with its arms from the blocks that branch to it, each once.
pub record IsSoundPhi {D : Type 0} (M : BirModule D) (X : FuncRange) (I : BirInst) (b preds : ℕ)
    : Type 0 where
  pub within :
      (m : ℕ)
      → m < vnop I / 2
      → (X.blo ≤ bir_oper M I (2 * m)) × (bir_oper M I (2 * m) < X.blo + X.nb)
  pub edge : (m : ℕ) → m < vnop I / 2 → vsucis M (bir_oper M I (2 * m)) (X.blo + b) ≡ true
  pub distinct :
      (m m' : ℕ) → m < m' → m' < vnop I / 2 → bir_oper M I (2 * m) ≢ bir_oper M I (2 * m')
  pub count : vnop I / 2 ≡ preds

module _ {D : Type 0} (M : BirModule D) (X : FuncRange) (I : BirInst) (phi : I.op ≡ op_phi) where
  from_zero : (m : ℕ) → bir_oper M I (0 + 2 * m) ≡ bir_oper M I (2 * m)
  from_zero m = ap (bir_oper M I) {x = 0 + 2 * m} {y = 2 * m} (omega arith)

  even_slot : (m : ℕ) → vslot I.op (2 * m) ≡ vch_blk
  unfolding vslot
  even_slot m = rw phi (rw (==_ne (2 * m % 2) 1 (omega arith)) refl)

  arm-within :
      (m : ℕ)
      → faulty M X I (2 * m) ≡ false
      → (X.blo ≤ bir_oper M I (2 * m)) × (bir_oper M I (2 * m) < X.blo + X.nb)
  unfolding faulty
  arm-within m h = let g = rw (even_slot m, faulty) at h in ground (arith, g)

  fine-IsSoundPhi :
      (vpc : ℕ → ℕ) (b : ℕ) → inst_fault M X vpc b I ≡ false → IsSoundPhi M X I b (vpc b)
  unfolding inst_fault phi_fault
  fine-IsSoundPhi vpc b h =
      let n = vnop I / 2 in
      let r = phi_arms M X I b 1 0 n (λ i. 0) 0 false false in
      let is : (I.op == op_phi) ≡ true = ap (λ o. o == op_phi) phi in
      let head = I.op == op_ret && vret1 M X.fi I || I.op == op_call && vcal1 M I in
      let given = any_from (faulty M X I) 0 (vnop I) in
      let h' = rw (is, inst_fault) at h in
      let ops : any_from (faulty M X I) 0 (vnop I) ≡ false =
        (or_parts head given (phi_fault M X vpc b I) h').0 in
      let clear =
        or_parts false r.1.1.0 (not r.1.1.1 && not (r.1.0 == vpc b))
          (or_parts head given (phi_fault M X vpc b I) h').1 in
      let all : (m : ℕ)
          → m < n
          → (X.blo ≤ bir_oper M I (2 * m)) × (bir_oper M I (2 * m) < X.blo + X.nb) =
        λ m low.
          arm-within m
            (any_from-false (faulty M X I) 0 (vnop I) ops (2 * m) (omega arith) (omega arith)) in
      let inside : (m : ℕ) → m < n → Inside M X I b (arm M X I b 0 m) =
        λ m low. subst (Inside M X I b) (sym (from_zero m)) (ground (arith, all m low)) in
      let seen = walk-Seen M X I b 1 0 n (λ i. 0) 0 false false inside clear.0 in
      let none_out = walk-oor M X I b 1 0 n (λ i. 0) 0 false false inside in
      record {
        within = all;
        edge = λ m low. ap (λ p. vsucis M p (X.blo + b)) (sym (from_zero m)) ∙ seen.edge m low;
        distinct =
            λ m m' lt low e. seen.distinct m m' lt low (from_zero m ∙ e ∙ sym (from_zero m'));
        count = omega (arith, seen.count, counted r.1.1.1 r.1.0 (vpc b) none_out clear.1);
      }

-- Where no function finds the flag for globals set and bir_vchk accepts, each phi of a function
-- has arms that come from different blocks of the function, each of which branches to the block
-- of the phi, and has as many as vpred counts predecessors.
pub bir_vchk-IsSoundPhi :
    {D : Type 0} (M : BirModule D) (stale : ℕ → Bool)
    → ((fi : ℕ) → stale fi ≡ false)
    → bir_vchk M stale ≡ bc_ok
    → (fi b j : ℕ) → fi < length M.funcs
    → ((func_at M fi).num_blocks == 0 || leb (length M.blocks) (func_at M fi).first_block) ≡ false
    → b < (func_range M fi).nb
    → j < in_arena M (block_at M ((func_range M fi).blo + b))
    → (inst_at M ((block_at M ((func_range M fi).blo + b)).first_inst + j)).op ≡ op_phi
    → IsSoundPhi M
        (func_range M fi)
        (inst_at M ((block_at M ((func_range M fi).blo + b)).first_inst + j))
        b
        (preds M fi b)
bir_vchk-IsSoundPhi M stale none_stale h fi b j known some here inside phi =
    fine-IsSoundPhi M (func_range M fi) _ phi (preds M fi) b (
      (FineInst-iff M _ _ b _).1
        (((bir_vchk_iff M stale none_stale).1.0 h).fine fi b j known some here inside))

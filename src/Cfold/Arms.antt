-- ===== src/Cfold/Arms.antt =====
-- What cfpe of src/ir/bir_cfold.c leaves of the phis of a block.
use booth.Base.{
  ℕ, zero, suc, ◌+◌, ◌*◌, ◌/◌, ◌<◌, ◌≤◌, ◌≡◌, ◌≢◌, refl, ap, ◌∙◌, arith, true, false, ◌==◌,
  if◌then◌else◌, Bool-cases, inl, inr, List, [], ◌∷◌, length, set, length-set, get_elem?-set_self,
  get_elem?-set_ne,
}
use booth.Bir.Defs.{BirInst}
use booth.Bir.Consts.{slot}
use booth.Cfold.Phi.{prune_arms}

slot-set_self : (xs : List ℕ) (i v : ℕ) → i < length xs → slot (set xs i v) i ≡ v
unfolding slot
slot-set_self xs i v h = rw (get_elem?-set_self xs i v h) refl

slot-set_ne : (xs : List ℕ) (i j v : ℕ) → i ≢ j → slot (set xs i v) j ≡ slot xs j
unfolding slot
slot-set_ne xs i j v h = rw (get_elem?-set_ne xs i j v h) refl

-- The arms from place `k` on, `left` of them.
abbrev pub arms : List ℕ → (k left : ℕ) → List (ℕ × ℕ)
arms ops k zero = []
arms ops k (suc left) = (slot ops k, slot ops (k + 1)) ∷ arms ops (k + 2) left

-- The arms that come from another block.
abbrev pub without : ℕ → List (ℕ × ℕ) → List (ℕ × ℕ)
without from [] = []
without from ((b, v) ∷ rest) = if b == from then without from rest else (b, v) ∷ without from rest

abbrev pub phi_arms : BirInst → List (ℕ × ℕ)
phi_arms I = arms I.operands 0 (I.num_operands / 2)

pub length-without : (from : ℕ) (rest : List (ℕ × ℕ)) → length (without from rest) ≤ length rest
length-without from [] = omega arith
length-without from ((b, v) ∷ rest) = ground (arith, length-without from rest)

pub length-arms : (ops : List ℕ) (k left : ℕ) → length (arms ops k left) ≡ left
length-arms ops k zero = refl
length-arms ops k (suc left) = ap suc (length-arms ops (k + 2) left)

-- A write below the arms does not touch them.
arms-set : (ops : List ℕ) (i v k left : ℕ) → i < k → arms (set ops i v) k left ≡ arms ops k left
arms-set ops i v k zero h = refl
arms-set ops i v k (suc left) h =
    rw
      (
        slot-set_ne ops i k v (omega arith),
        slot-set_ne ops i (k + 1) v (omega arith),
        arms-set ops i v (k + 2) left (omega arith),
      )
      refl

module _ (from : ℕ) where
  abbrev prune : (k w left : ℕ) → List ℕ → List ℕ × ℕ
  prune k w left ops = prune_arms (λ i. i) (λ p. false) from k w left ops

  pub record Prunes (k w left : ℕ) (ops : List ℕ) (r : List ℕ × ℕ) : Type 0 where
    pub count : r.1 ≡ w + 2 * length (without from (arms ops k left))
    pub stays : (i : ℕ) → i < w → slot r.0 i ≡ slot ops i
    pub result :
        arms r.0 w (length (without from (arms ops k left))) ≡ without from (arms ops k left)

  -- The arm at `k` goes, or is copied to `w`.
  abbrev copy : (k w : ℕ) → List ℕ → List ℕ
  copy k w ops = set (set ops w (slot ops k)) (w + 1) (slot (set ops w (slot ops k)) (k + 1))

  length-copy : (k w : ℕ) (ops : List ℕ) → length (copy k w ops) ≡ length ops
  length-copy k w ops = length-set _ (w + 1) _ ∙ length-set ops w (slot ops k)

  drop :
      (k w left : ℕ) (ops : List ℕ)
      → slot ops k == from ≡ true
      → {r : List ℕ × ℕ} → Prunes (k + 2) w left ops r
      → Prunes k w (suc left) ops r
  drop k w left ops e p = record { count = rw e p.count; stays = p.stays; result = rw e p.result }

  keep :
      (k w left : ℕ) (ops : List ℕ)
      → w ≤ k
      → k + 2 * suc left ≤ length ops
      → slot ops k == from ≡ false
      → {r : List ℕ × ℕ} → Prunes (k + 2) (w + 2) left (copy k w ops) r
      → Prunes k w (suc left) ops r
  keep k w left ops h fits e {r} p =
      let value = slot (set ops w (slot ops k)) (k + 1) in
      let same : arms (copy k w ops) (k + 2) left ≡ arms ops (k + 2) left =
        arms-set (set ops w (slot ops k)) (w + 1) value (k + 2) left (omega arith)
        ∙ arms-set ops w (slot ops k) (k + 2) left (omega arith) in
      let read : value ≡ slot ops (k + 1) = slot-set_ne ops w (k + 1) (slot ops k) (omega arith) in
      let block : slot (copy k w ops) w ≡ slot ops k =
        slot-set_ne (set ops w (slot ops k)) (w + 1) w value (omega arith)
        ∙ slot-set_self ops w (slot ops k) (omega arith) in
      let came : slot (copy k w ops) (w + 1) ≡ slot ops (k + 1) =
        slot-set_self (set ops w (slot ops k)) (w + 1) value
          (omega (arith, length-set ops w (slot ops k)))
        ∙ read in
      let later = rw same at p.count in
      let rest = rw same at p.result in
      record {
        count = rw e (omega arith);
        stays = λ i below.
            p.stays i (omega arith)
            ∙ slot-set_ne (set ops w (slot ops k)) (w + 1) i value (omega arith)
            ∙ slot-set_ne ops w i (slot ops k) (omega arith);
        result =
            rw (e, p.stays w (omega arith), p.stays (w + 1) (omega arith), block, came, rest) refl;
      }

  pub prune-Prunes :
      (k w left : ℕ) (ops : List ℕ)
      → w ≤ k
      → k + 2 * left ≤ length ops
      → Prunes k w left ops (prune k w left ops)
  unfolding prune_arms
  prune-Prunes k w zero ops h fits = record {
    count = omega arith;
    stays = λ i below. refl;
    result = refl;
  }
  prune-Prunes k w (suc left) ops h fits = elim (Bool-cases (slot ops k == from)) [
    | inl e ↦
        rw (e) (drop k w left ops e (prune-Prunes (k + 2) w left ops (omega arith) (omega arith)))
    | inr e ↦ rw (e) (
        keep k w left ops h fits e (
          prune-Prunes (k + 2) (w + 2) left (copy k w ops) (omega arith)
            (omega (arith, length-copy k w ops))))
  ]

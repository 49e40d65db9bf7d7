-- ===== src/Tensix/Syncs.antt =====
-- Which opcodes tensix_coarsen of src/tensix/coarsen.c counts as a reduction's.
use booth.Base.{
  ℕ, zero, suc, ◌+◌, ◌≡◌, refl, sym, ap, ◌∙◌, arith, Bool, true, false, ◌&&◌, ◌||◌, ◌==◌, ltb, leb,
  if_cases, List, [], ◌∷◌,
}
use booth.Bir.Defs.{BirInst}
use booth.Bir.Opcodes.{
  op_barrier, op_barrier_group, op_atomic_add, op_atomic_cas, op_shfl, op_vote_all, op_thread_id,
  op_block_id, op_block_dim, op_grid_dim, op_load, op_store,
}
use booth.Dce.Defs.{any_eq}
use booth.Tensix.Coarsen.{CoarsenStats, barrier_ops, atomic_ops, shuffle_ops, count_inst}

-- Threads wait for one another or share a value there.
abbrev between : (low high op : ℕ) → Bool
between low high op = leb low op && leb op high

-- The enumeration has the barriers, the atomic read-modify-writes, and the shuffles, ballots and
-- votes each in one row.
unfoldable pub syncs : ℕ → Bool
syncs op =
    between op_barrier op_barrier_group op
    || between op_atomic_add op_atomic_cas op
    || between op_shfl op_vote_all op

-- The numbers from `a` on.
row : (a n : ℕ) → List ℕ
row a zero = []
row a (suc n) = a ∷ row (suc a) n

any_eq-row : (op a n : ℕ) → any_eq op (row a n) ≡ (leb a op && ltb op (a + n))
unfolding any_eq row
any_eq-row op a zero = ground arith
any_eq-row op a (suc n) =
    let here : a + suc n ≡ suc a + n = omega arith in
    rw (any_eq-row op (suc a) n, here) (ground arith)

barriers_lem : (op : ℕ) → any_eq op barrier_ops ≡ between op_barrier op_barrier_group op
unfolding row
barriers_lem op = any_eq-row op op_barrier 2 ∙ ground arith

atomics_lem : (op : ℕ) → any_eq op atomic_ops ≡ between op_atomic_add op_atomic_cas op
unfolding row
atomics_lem op = any_eq-row op op_atomic_add 9 ∙ ground arith

shuffles_lem : (op : ℕ) → any_eq op shuffle_ops ≡ between op_shfl op_vote_all op
unfolding row
shuffles_lem op = any_eq-row op op_shfl 7 ∙ ground arith

listed :
    (op : ℕ) → syncs op ≡ (any_eq op barrier_ops || any_eq op atomic_ops || any_eq op shuffle_ops)
unfolding syncs
listed op = rw (barriers_lem op, atomics_lem op, shuffles_lem op) refl

unfoldable pub synced : CoarsenStats → Bool
synced s = ltb 0 s.num_barriers || ltb 0 s.num_atomics || ltb 0 s.num_shuffles

plain : (op k : ℕ) → (op == k) ≡ true → syncs k ≡ false → syncs op ≡ false
plain op k e h = ap syncs {y = k} (ground arith) ∙ h

or_true : (b : Bool) → (b || true) ≡ true
or_true true = refl
or_true false = refl

pub or_false : (b : Bool) → (b || false) ≡ b
or_false true = refl
or_false false = refl

pub or_assoc : (a b c : Bool) → ((a || b) || c) ≡ (a || (b || c))
or_assoc true b c = refl
or_assoc false b c = refl

positive : (n : ℕ) → ltb 0 (n + 1) ≡ true
positive n = ground arith

module _ (op : ℕ) (s : CoarsenStats) where
  -- The statistics are a sign of waiting when they were or when this opcode is.
  unfoldable pub Counts : CoarsenStats → Type 0
  Counts t = synced t ≡ (synced s || syncs op)

  other : (t : CoarsenStats) → synced t ≡ synced s → syncs op ≡ false → Counts t
  unfolding Counts
  other t same e = rw e (same ∙ sym (or_false (synced s)))

  wait : (t : CoarsenStats) → synced t ≡ true → syncs op ≡ true → Counts t
  unfolding Counts
  wait t now e = rw e (now ∙ sym (or_true (synced s)))

  barrier : any_eq op barrier_ops ≡ true → Counts (record s { num_barriers = s.num_barriers + 1 })
  unfolding synced
  barrier e =
      wait (record s { num_barriers = s.num_barriers + 1 }) (rw (positive s.num_barriers) refl)
        (listed op ∙ rw e refl)

  atomic : any_eq op atomic_ops ≡ true → Counts (record s { num_atomics = s.num_atomics + 1 })
  unfolding synced
  atomic e =
      wait (record s { num_atomics = s.num_atomics + 1 })
        (rw (positive s.num_atomics) (rw (or_true (ltb 0 s.num_barriers)) refl))
        (listed op ∙ rw e (rw (or_true (any_eq op barrier_ops)) refl))

  shuffle : any_eq op shuffle_ops ≡ true → Counts (record s { num_shuffles = s.num_shuffles + 1 })
  unfolding synced
  shuffle e =
      wait (record s { num_shuffles = s.num_shuffles + 1 })
        (rw (positive s.num_shuffles) (or_true (ltb 0 s.num_barriers || ltb 0 s.num_atomics)))
        (listed op ∙ rw e (or_true (any_eq op barrier_ops || any_eq op atomic_ops)))

  none_left :
      any_eq op barrier_ops ≡ false
      → any_eq op atomic_ops ≡ false
      → any_eq op shuffle_ops ≡ false
      → syncs op ≡ false
  none_left a b c = listed op ∙ rw (a, b, c) refl

pub count_inst-synced : (I : BirInst) (s : CoarsenStats) → Counts I.op s (count_inst I s)
unfolding count_inst synced syncs any_eq
count_inst-synced I s =
    let op = I.op in
    let P = Counts op s in
    if_cases P (op == op_thread_id) (λ e. other op s _ refl (plain op op_thread_id e refl))
      (λ _.
        if_cases P (op == op_block_id) (λ e. other op s _ refl (plain op op_block_id e refl))
          (λ _.
            if_cases P (op == op_block_dim) (λ e. other op s _ refl (plain op op_block_dim e refl))
              (λ _.
                if_cases P (op == op_grid_dim)
                  (λ e. other op s _ refl (plain op op_grid_dim e refl))
                  (λ _.
                    if_cases P (op == op_load) (λ e. other op s _ refl (plain op op_load e refl))
                      (λ _.
                        if_cases P (op == op_store)
                          (λ e. other op s _ refl (plain op op_store e refl))
                          (λ _. if_cases P (any_eq op barrier_ops) (barrier op s) (λ a.
                            if_cases P (any_eq op atomic_ops) (atomic op s) (λ b.
                              if_cases P (any_eq op shuffle_ops) (shuffle op s)
                                (λ c. other op s s refl (none_left op s a b c))))))))))

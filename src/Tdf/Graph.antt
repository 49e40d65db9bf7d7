-- ===== src/Tdf/Graph.antt =====
-- The builders of src/tdf/tdf.c keep the arenas within their bounds and every reference in them.
use native.Mathlib.Decide.{dec_le}
use booth.Base.{
  ◌⊎◌, inl, inr, ℕ, ◌%◌, ◌^◌, ◌≤◌, ◌<◌, arith, ◌&&◌, ◌||◌, leb, if_cases, List, [], ◌∷◌, ◌++◌,
  length, length-append,
}
use booth.Tdf.Defs.{TdTag, TdChan, TdArc, TdMod, td_max_rgns, td_max_chans, td_max_arcs, td_ar_pop}
use booth.Tdf.Build.{td_init, td_mkrgn, td_link, td_mkarc, new_rgn}

-- The producer and the consumer of each channel are regions, of `n`.
unfoldable pub Linked : ℕ → List TdChan → Type 0
Linked n [] = Unit {0}
Linked n (c ∷ cs) = (c.prod < n) × (c.cons < n) × Linked n cs

-- Each arc stands in a region, and where it moves a buffer's counters its channel exists.
unfoldable pub Anchored : (n k : ℕ) → List TdArc → Type 0
Anchored n k [] = Unit {0}
Anchored n k (a ∷ as') = (a.rgn < n) × ((td_ar_pop < a.kind) ⊎ (a.chan < k)) × Anchored n k as'

module _ {B : Type 0} where
  pub record IsGraph (M : TdMod B) : Type 0 where
    pub rgns_bound : length M.rgns ≤ td_max_rgns
    pub chans_bound : length M.chans ≤ td_max_chans
    pub arcs_bound : length M.arcs ≤ td_max_arcs
    pub linked : Linked (length M.rgns) M.chans
    pub anchored : Anchored (length M.rgns) (length M.chans) M.arcs

-- A call of a builder, with its arguments.
pub data Call : Type 0 where
  mkrgn : (role : ℕ) → Call
  link : (prod cons : ℕ) → TdTag → (depth : ℕ) → Call
  mkarc : (rgn kind chan cnt anchor : ℕ) → kind < 2 ^ 8 → Call

module _ {B : Type 0} where
  unfoldable pub apply : Call → TdMod B → TdMod B
  apply (mkrgn role) M = (td_mkrgn M role).1
  apply (link prod cons tag depth) M = (td_link M prod cons tag depth).1
  apply (mkarc rgn kind chan cnt anchor small) M = (td_mkarc M rgn kind chan cnt anchor).1

  unfoldable pub apply_all : List Call → TdMod B → TdMod B
  apply_all [] M = M
  apply_all (c ∷ cs) M = apply_all cs (apply c M)

Linked-grows : (n m : ℕ) (cs : List TdChan) → n ≤ m → Linked n cs → Linked m cs
unfolding Linked
Linked-grows n m [] h p = tt
Linked-grows n m (c ∷ cs) h p = (omega (arith, p.0), omega (arith, p.1), Linked-grows n m cs h p.2)

Linked-append : (n : ℕ) (cs ds : List TdChan) → Linked n cs → Linked n ds → Linked n (cs ++ ds)
unfolding Linked
Linked-append n [] ds p q = q
Linked-append n (c ∷ cs) ds p q = (p.0, p.1, Linked-append n cs ds p.2 q)

Anchored-grows :
    (n m k l : ℕ) (as' : List TdArc) → n ≤ m → k ≤ l → Anchored n k as' → Anchored m l as'
unfolding Anchored
Anchored-grows n m k l [] h h' p = tt
Anchored-grows n m k l (a ∷ as') h h' p = (
  omega (arith, p.0),
  elim p.1 [ inl q ↦ inl q | inr q ↦ inr (omega arith) ],
  Anchored-grows n m k l as' h h' p.2,
)

Anchored-append :
    (n k : ℕ) (as' bs : List TdArc) → Anchored n k as' → Anchored n k bs → Anchored n k (as' ++ bs)
unfolding Anchored
Anchored-append n k [] bs p q = q
Anchored-append n k (a ∷ as') bs p q = (p.0, p.1, Anchored-append n k as' bs p.2 q)

module _ {B : Type 0} where
  td_mkrgn-IsGraph : (M : TdMod B) (role : ℕ) → IsGraph M → IsGraph (td_mkrgn M role).1
  unfolding td_mkrgn
  td_mkrgn-IsGraph M role g =
      if_cases (λ (r : ℕ × TdMod B). IsGraph r.1) (leb td_max_rgns (length M.rgns)) (λ full. g)
        (λ room.
          let one = length-append M.rgns (new_rgn (length M.rgns) role ∷ []) in
          let more : length M.rgns ≤ length (M.rgns ++ new_rgn (length M.rgns) role ∷ []) =
            omega (arith, one) in
          record {
            rgns_bound = ground (arith, one);
            chans_bound = g.chans_bound;
            arcs_bound = g.arcs_bound;
            linked = Linked-grows (length M.rgns) _ M.chans more g.linked;
            anchored =
                Anchored-grows (length M.rgns) _ (length M.chans) _ M.arcs more (omega arith)
                  g.anchored;
          })

  td_link-IsGraph :
      (M : TdMod B) (prod cons : ℕ) (tag : TdTag) (depth : ℕ)
      → IsGraph M
      → IsGraph (td_link M prod cons tag depth).1
  unfolding td_link Linked
  td_link-IsGraph M prod cons tag depth g =
      if_cases (λ (r : ℕ × TdMod B). IsGraph r.1) (leb td_max_chans (length M.chans)) (λ full. g)
        (λ room.
          if_cases (λ (r : ℕ × TdMod B). IsGraph r.1)
            (leb (length M.rgns) prod || leb (length M.rgns) cons) (λ bad. g)
            (λ good.
              let c : TdChan = record {
                id = length M.chans;
                prod = prod;
                cons = cons;
                depth = depth;
                tag = tag;
                l1_off = 0;
              } in
              let one = length-append M.chans (c ∷ []) in
              record {
                rgns_bound = g.rgns_bound;
                chans_bound = ground (arith, one);
                arcs_bound = g.arcs_bound;
                linked =
                    Linked-append (length M.rgns) M.chans (c ∷ []) g.linked
                      (ground arith, ground arith, tt);
                anchored =
                    Anchored-grows (length M.rgns) _ (length M.chans) _ M.arcs (omega arith)
                      (omega (arith, one)) g.anchored;
              }))

  td_mkarc-IsGraph :
      (M : TdMod B) (rgn kind chan cnt anchor : ℕ)
      → kind < 2 ^ 8
      → IsGraph M
      → IsGraph (td_mkarc M rgn kind chan cnt anchor).1
  unfolding td_mkarc Anchored
  td_mkarc-IsGraph M rgn kind chan cnt anchor small g =
      if_cases (λ (r : ℕ × TdMod B). IsGraph r.1) (leb td_max_arcs (length M.arcs)) (λ full. g)
        (λ room.
          if_cases (λ (r : ℕ × TdMod B). IsGraph r.1) (leb (length M.rgns) rgn) (λ bad. g)
            (λ inside.
              if_cases (λ (r : ℕ × TdMod B). IsGraph r.1)
                (leb kind td_ar_pop && leb (length M.chans) chan) (λ bad. g)
                (λ good.
                  let a : TdArc = record {
                    kind = kind % 2 ^ 8;
                    noc_id = 0;
                    rgn = rgn;
                    chan = chan;
                    cnt = cnt;
                    bir_inst = anchor;
                    length = 0;
                  } in
                  let one = length-append M.arcs (a ∷ []) in
                  record {
                    rgns_bound = g.rgns_bound;
                    chans_bound = g.chans_bound;
                    arcs_bound = ground (arith, one);
                    linked = g.linked;
                    anchored =
                        Anchored-append (length M.rgns) (length M.chans) M.arcs (a ∷ []) g.anchored
                          (
                            ground arith,
                            elim (dec_le kind td_ar_pop) [
                              | yes p ↦ inr (ground arith)
                              | no p ↦ inl (omega arith)
                            ],
                            tt,
                          );
                  })))

  apply-IsGraph : (c : Call) (M : TdMod B) → IsGraph M → IsGraph (apply c M)
  unfolding apply
  apply-IsGraph (mkrgn role) M g = td_mkrgn-IsGraph M role g
  apply-IsGraph (link prod cons tag depth) M g = td_link-IsGraph M prod cons tag depth g
  apply-IsGraph (mkarc rgn kind chan cnt anchor small) M g =
      td_mkarc-IsGraph M rgn kind chan cnt anchor small g

  keeps : (cs : List Call) (M : TdMod B) → IsGraph M → IsGraph (apply_all cs M)
  unfolding apply_all
  keeps [] M g = g
  keeps (c ∷ cs) M g = keeps cs (apply c M) (apply-IsGraph c M g)

  td_init-IsGraph : (target : ℕ) → IsGraph (td_init {B = B} target)
  unfolding td_init Linked Anchored
  td_init-IsGraph target = record {
    rgns_bound = omega arith;
    chans_bound = omega arith;
    arcs_bound = omega arith;
    linked = tt;
    anchored = tt;
  }

-- After td_init and any calls of td_mkrgn, td_link and td_mkarc with kinds of 8 bits, refused
-- ones included, the arenas are within their bounds, each channel joins regions of the graph,
-- and each arc stands in one of them and, where it moves the counters of a buffer, names a
-- channel of the graph.
pub apply_all-IsGraph :
    {B : Type 0} (target : ℕ) (cs : List Call) → IsGraph (apply_all cs (td_init {B = B} target))
apply_all-IsGraph target cs = keeps cs (td_init target) (td_init-IsGraph target)

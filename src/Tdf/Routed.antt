-- ===== src/Tdf/Routed.antt =====
-- The graph of src/tdf/tdf_fission.c goes through td_noc_orchestrate of src/tdf/tdf_noc.c.
use booth.Base.{
  ℕ, suc, ◌+◌, ◌≡◌, refl, ap, ◌∙◌, arith, some, List, [], ◌∷◌, ◌++◌, get_elem?, ℤ, bc_ok,
}
use booth.Bir.Defs.{BirModule}
use booth.Tdf.Defs.{TdChan, TdArc, TdMod, td_ar_push, td_ar_wait, td_ar_rd, td_ar_wr}
use booth.Tdf.Place.{td_tile_bytes, dtype_bytes}
use booth.Tdf.Orchestrate.{td_noc_orchestrate}
use booth.Tdf.Routes.{Transfer, Routes, AllRoutes, td_noc_orchestrate_iff}
use booth.Tdf.Fission.{td_fission_tensix}
use booth.Tdf.Pipeline.{
  Link, input, output, link_chan, link_arcs, arc_of, chans_of, arcs_of, links, pipeline,
}
use booth.Tdf.Split.{Splits, split, Splits_lem}

module _ (chans : List TdChan) where
  -- The channels of the links from number `id` on.
  Holds : ℕ → List Link → Type 0
  Holds id ls =
      (k : ℕ) (c : TdChan)
      → get_elem? (chans_of id ls) k ≡ some c
      → get_elem? chans (id + k) ≡ some c

  Holds-tail : (id : ℕ) (l : Link) (ls : List Link) → Holds id (l ∷ ls) → Holds (id + 1) ls
  unfolding Holds
  Holds-tail id l ls h k c e =
      let same : id + 1 + k ≡ id + suc k = omega arith in ap (get_elem? chans) same ∙ h (suc k) c e

  moved :
      (id : ℕ) (l : Link) (ls : List Link) (r kind : ℕ)
      → Holds id (l ∷ ls)
      → Transfer chans (arc_of r kind id) (link_chan id l)
  unfolding Holds td_tile_bytes dtype_bytes
  moved id l ls r kind h =
      let same : id ≡ id + 0 = omega arith in
      record {
        found = ap (get_elem? chans) same ∙ h 0 (link_chan id l) refl;
        positive = omega arith;
        bounded = omega arith;
      }

  -- The arcs of a link and of the ones after it.
  link-routed :
      (id : ℕ) (l : Link) (ls : List Link) (bs : List TdArc)
      → Holds id (l ∷ ls)
      → AllRoutes chans (arcs_of (id + 1) ls) bs
      → (cs : List TdArc) × AllRoutes chans (link_arcs id l ++ arcs_of (id + 1) ls) cs
  link-routed id input ls bs h rs =
      let read =
        Routes.read (arc_of 0 td_ar_rd id) (link_chan id input) refl
          (moved id input ls 0 td_ar_rd h) in
      let push : Routes chans (arc_of 0 td_ar_push id) (arc_of 0 td_ar_push id) =
        Routes.sync (arc_of 0 td_ar_push id) (λ e. cc e) (λ e. cc e) in
      let wait : Routes chans (arc_of 1 td_ar_wait id) (arc_of 1 td_ar_wait id) =
        Routes.sync (arc_of 1 td_ar_wait id) (λ e. cc e) (λ e. cc e) in
      (
        _,
        AllRoutes.more _ _ _ _ read (AllRoutes.more _ _ _ _ push (AllRoutes.more _ _ _ _ wait rs)),
      )
  link-routed id output ls bs h rs =
      let write =
        Routes.write (arc_of 2 td_ar_wr id) (link_chan id output) refl
          (moved id output ls 2 td_ar_wr h) in
      let push : Routes chans (arc_of 1 td_ar_push id) (arc_of 1 td_ar_push id) =
        Routes.sync (arc_of 1 td_ar_push id) (λ e. cc e) (λ e. cc e) in
      let wait : Routes chans (arc_of 2 td_ar_wait id) (arc_of 2 td_ar_wait id) =
        Routes.sync (arc_of 2 td_ar_wait id) (λ e. cc e) (λ e. cc e) in
      (
        _,
        AllRoutes.more _ _ _ _ push (AllRoutes.more _ _ _ _ wait (AllRoutes.more _ _ _ _ write rs)),
      )

  all-routed :
      (id : ℕ) (ls : List Link)
      → Holds id ls
      → (bs : List TdArc) × AllRoutes chans (arcs_of id ls) bs
  all-routed id [] h = ([], AllRoutes.end)
  all-routed id (l ∷ ls) h =
      let (bs, rs) = all-routed (id + 1) ls (Holds-tail id l ls h) in link-routed id l ls bs h rs

chans-Holds : (ls : List Link) → Holds (chans_of 0 ls) 0 ls
unfolding Holds
chans-Holds ls k c e = let same : 0 + k ≡ k = omega arith in ap (get_elem? (chans_of 0 ls)) same ∙ e

module _ {D : Type 0} where
  pipeline-routed :
      (body : BirModule D) (ls : List Link) → (td_noc_orchestrate (pipeline body ls)).1 ≡ bc_ok
  pipeline-routed body ls =
      let M = pipeline body ls in
      let (bs, rs) = all-routed M.chans 0 ls (chans-Holds ls) in
      ap (λ (r : TdMod (BirModule D) × ℤ). r.1) ((td_noc_orchestrate_iff M bs).1 rs)

  Splits-routed : (M N : TdMod (BirModule D)) → Splits M N → (td_noc_orchestrate N).1 ≡ bc_ok
  Splits-routed M N (split body params s) = pipeline-routed body (links params)

  -- The graph that td_fission_tensix answers is one that td_noc_orchestrate accepts.
  pub td_fission_tensix-td_noc_orchestrate :
      (M N : TdMod (BirModule D)) → td_fission_tensix M ≡ some N → (td_noc_orchestrate N).1 ≡ bc_ok
  td_fission_tensix-td_noc_orchestrate M N e = Splits-routed M N ((Splits_lem M N).0 e)

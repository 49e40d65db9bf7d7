-- ===== src/Tdf/Solo.antt =====
-- src/tdf/tdf_lower.c on the graph of a kernel in one piece, and what td_build_solo_from_bir of
-- src/tdf/tdf.c has to do with it.
use mathlib.Core.Path.{subst}
use booth.Base.{
  ℕ, suc, ◌≤◌, ◌≡◌, ◌≢◌, ◌↔◌, refl, sym, ap, ◌∙◌, arith, false, not, ◌==◌, ◌&&◌, ◌||◌, if_cases,
  option_cases, some, List, [], ◌∷◌, length, ℤ, bc_ok, bc_err_tdf,
}
use booth.Tdf.Defs.{
  TdRgn, TdChan, TdArc, TdMod, TdLout, td_rg_solo, td_tgt_amd, td_tgt_nvidia, td_tgt_tensix,
}
use booth.Tdf.Build.{td_init, td_mkrgn, td_build_solo_from_bir, new_rgn}
use booth.Tdf.Lower.{no_output, lower_solo_passthrough, lower_tensix, td_lower}

err_ne_ok : bc_err_tdf ≢ bc_ok
err_ne_ok e = cc e

none_left : {A : Type 0} (xs : List A) → not (length xs == 0) ≡ false → xs ≡ []
none_left [] h = refl
none_left (x ∷ xs) h = absurd (ground arith)

module _ {B : Type 0} where
  -- One region that holds a whole kernel, and nothing that connects it.
  pub record IsSolo (M : TdMod B) (b : B) : Type 0 where
    rgn : TdRgn B
    alone : M.rgns ≡ rgn ∷ []
    solo : rgn.role ≡ td_rg_solo
    body : rgn.body ≡ some b
    no_chans : M.chans ≡ []
    no_arcs : M.arcs ≡ []

  whole : B → TdLout B × ℤ
  whole b = (record { mods = b ∷ []; owns = 0 ∷ [] }, bc_ok)

  passes : (M : TdMod B) (b : B) → IsSolo M b → lower_solo_passthrough M ≡ whole b
  unfolding lower_solo_passthrough whole
  passes M b s = rw (s.alone, s.solo, s.body, s.no_chans, s.no_arcs) refl

  passes_tensix : (M : TdMod B) (b : B) → IsSolo M b → lower_tensix M ≡ whole b
  unfolding lower_tensix lower_solo_passthrough whole
  passes_tensix M b s = rw (s.alone, s.solo, s.body, s.no_chans, s.no_arcs) refl

  abbrev graph : List (TdRgn B) → List TdChan → List TdArc → ℕ → TdMod B
  graph rgns chans arcs target = record { rgns = rgns; chans = chans; arcs = arcs; target = target }

  -- What is handed on is the body of a graph in one piece.
  Handed : TdMod B → TdLout B × ℤ → Type 0
  Handed M r = r.1 ≡ bc_ok → (b : B) × IsSolo M b

  refused : (M : TdMod B) → Handed M (no_output, bc_err_tdf)
  unfolding Handed
  refused M ok = absurd (err_ne_ok ok)

  passes_only :
      (rgns : List (TdRgn B)) (chans : List TdChan) (arcs : List TdArc) (target : ℕ)
      → Handed
          (graph rgns chans arcs target)
          (lower_solo_passthrough (graph rgns chans arcs target))
  unfolding lower_solo_passthrough Handed
  passes_only [] chans arcs target = refused (graph [] chans arcs target)
  passes_only (r ∷ s ∷ rs) chans arcs target =
      if_cases (Handed (graph (r ∷ s ∷ rs) chans arcs target)) (not (suc (length rs) == 0))
        (λ more. refused (graph (r ∷ s ∷ rs) chans arcs target)) (λ one. absurd (ground arith))
  passes_only (r ∷ []) chans arcs target =
      let M = graph (r ∷ []) chans arcs target in
      if_cases (Handed M) (not (r.role == td_rg_solo)) (λ other. refused M)
        (λ is_solo.
          option_cases (Handed M) r.body (λ gone. refused M)
            (λ b held.
              if_cases (Handed M) (not (length chans == 0) || not (length arcs == 0))
                (λ joined. refused M)
                (λ alone ok. (
                  b,
                  record {
                    rgn = r;
                    alone = refl;
                    solo = ground arith;
                    body = held;
                    no_chans = none_left chans (ground arith);
                    no_arcs = none_left arcs (ground arith);
                  },
                ))))

  tensix_only :
      (rgns : List (TdRgn B)) (chans : List TdChan) (arcs : List TdArc) (target : ℕ)
      → Handed (graph rgns chans arcs target) (lower_tensix (graph rgns chans arcs target))
  unfolding lower_tensix
  tensix_only [] chans arcs target = refused (graph [] chans arcs target)
  tensix_only (r ∷ rs) chans arcs target =
      if_cases (Handed (graph (r ∷ rs) chans arcs target)) (length rs == 0 && r.role == td_rg_solo)
        (λ solo. passes_only (r ∷ rs) chans arcs target)
        (λ other. refused (graph (r ∷ rs) chans arcs target))

  lowered_only :
      (M : TdMod B) → (td_lower M).1 ≡ bc_ok → (M.target ≤ td_tgt_tensix) × ((b : B) × IsSolo M b)
  unfolding td_lower Handed
  lowered_only M =
      if_cases
        (λ (r : TdLout B × ℤ). r.1 ≡ bc_ok → (M.target ≤ td_tgt_tensix) × ((b : B) × IsSolo M b))
        (M.target == td_tgt_amd)
        (λ t ok. (ground arith, passes_only M.rgns M.chans M.arcs M.target ok))
        (λ n.
          if_cases
            (λ (r : TdLout B × ℤ).
              r.1 ≡ bc_ok → (M.target ≤ td_tgt_tensix) × ((b : B) × IsSolo M b))
            (M.target == td_tgt_nvidia)
            (λ t ok. (ground arith, passes_only M.rgns M.chans M.arcs M.target ok))
            (λ n'.
              if_cases
                (λ (r : TdLout B × ℤ).
                  r.1 ≡ bc_ok → (M.target ≤ td_tgt_tensix) × ((b : B) × IsSolo M b))
                (M.target == td_tgt_tensix)
                (λ t ok. (ground arith, tensix_only M.rgns M.chans M.arcs M.target ok))
                (λ n'' ok. absurd (err_ne_ok ok))))

  lowered : (M : TdMod B) (b : B) → M.target ≤ td_tgt_tensix → IsSolo M b → td_lower M ≡ whole b
  unfolding td_lower
  lowered M b h s =
      if_cases (λ r. r ≡ whole b) (M.target == td_tgt_amd) (λ t. passes M b s)
        (λ n.
          if_cases (λ r. r ≡ whole b) (M.target == td_tgt_nvidia) (λ t. passes M b s)
            (λ n'.
              if_cases (λ r. r ≡ whole b) (M.target == td_tgt_tensix) (λ t. passes_tensix M b s)
                (λ n''. absurd (ground arith))))

  first : B → List B → B
  first b [] = b
  first b (x ∷ xs) = x

  -- td_lower succeeds and hands back exactly one body exactly when the target is one of the
  -- three and the graph is one region of role SOLO with that body, no channel and no arc.
  pub td_lower_iff :
      (M : TdMod B) (b : B)
      → (td_lower M ≡ (record { mods = b ∷ []; owns = 0 ∷ [] }, bc_ok))
        ↔ ((M.target ≤ td_tgt_tensix) × IsSolo M b)
  unfolding whole first
  td_lower_iff M b = (
    (λ e.
        let (h, (b', s)) = lowered_only M (ap (λ (r : TdLout B × ℤ). r.1) e) in
        let same = sym (lowered M b' h s) ∙ e in
        (h, subst (IsSolo M) (ap (λ (r : TdLout B × ℤ). first b r.0.mods) same) s)),
    (λ p. lowered M b p.0 p.1),
  )

  -- For each of the three targets, the graph that td_build_solo_from_bir makes of a kernel is
  -- lowered to that kernel again.
  pub td_lower-td_build_solo_from_bir :
      (M : TdMod B) (target : ℕ) (b : B)
      → target ≤ td_tgt_tensix
      → ((td_build_solo_from_bir M target (some b)).0 ≡ bc_ok)
        × (td_lower (td_build_solo_from_bir M target (some b)).1
            ≡ (record { mods = b ∷ []; owns = 0 ∷ [] }, bc_ok))
  unfolding td_build_solo_from_bir td_mkrgn td_init whole
  td_lower-td_build_solo_from_bir M target b h = (
    refl,
    lowered (td_build_solo_from_bir M target (some b)).1 b (omega arith) (record {
      rgn = record (new_rgn 0 td_rg_solo) { body = some b };
      alone = refl;
      solo = refl;
      body = refl;
      no_chans = refl;
      no_arcs = refl;
    }),
  )

-- ===== src/Tdf/Pipeline.antt =====
-- The graph that src/tdf/tdf_fission.c builds.
use mathlib.Core.Option
use mathlib.Core.Path.{fun_ext}
use booth.Base.{
  ℕ, ◌+◌, ◌*◌, ◌%◌, ◌^◌, ◌<◌, ◌≤◌, ◌≡◌, refl, sym, ap, ◌∙◌, arith, Bool, true, false, not, ◌&&◌,
  ◌||◌, ◌==◌, leb, if◌then◌else◌, Option, none, some, List, [], ◌∷◌, ◌++◌, length, length-append,
  append_assoc, append-nil,
}
use booth.Tdf.Defs.{
  TdRgn, TdChan, TdArc, TdMod, td_tgt_tensix, td_bad_id, td_ar_push, td_ar_wait, td_ar_rd, td_ar_wr,
}
use booth.Tdf.Build.{td_init, td_mkrgn, td_link, td_mkarc, new_rgn}
use booth.Tdf.Fission.{
  FsParam, td_rg_rdr, td_rg_cmp, td_rg_wrt, default_tile, fs_cb_depth, input_channel,
  output_channel, param_channels, all_channels, rebuild, set_core, set_body,
}

-- A channel of the pipeline: from the reader to the compute region, or on to the writer.
pub data Link : Type 0 where
  input : Link
  output : Link

-- The channels of a parameter, an input before an output, and none of one that is no pointer.
abbrev pub param_links : FsParam → List Link
param_links p =
    if not p.is_ptr
    then []
    else if p.loaded
    then (if p.stored then input ∷ output ∷ [] else input ∷ [])
    else if p.stored
    then output ∷ []
    else []

abbrev pub links : List FsParam → List Link
links [] = []
links (p ∷ ps) = param_links p ++ links ps

abbrev pub source : Link → ℕ
source input = 0
source output = 1

abbrev pub link_chan : (id : ℕ) → Link → TdChan
link_chan id l = record {
  id = id;
  prod = source l;
  cons = source l + 1;
  depth = fs_cb_depth;
  tag = default_tile;
  l1_off = 0;
}

abbrev pub arc_of : (rgn kind chan : ℕ) → TdArc
arc_of rgn kind chan = record {
  kind = kind;
  noc_id = 0;
  rgn = rgn;
  chan = chan;
  cnt = 1;
  bir_inst = 0;
  length = 0;
}

-- The transfer, and the signal from the producer to the consumer.
abbrev pub link_arcs : (id : ℕ) → Link → List TdArc
link_arcs id input = arc_of 0 td_ar_rd id ∷ arc_of 0 td_ar_push id ∷ arc_of 1 td_ar_wait id ∷ []
link_arcs id output = arc_of 1 td_ar_push id ∷ arc_of 2 td_ar_wait id ∷ arc_of 2 td_ar_wr id ∷ []

abbrev pub chans_of : (id : ℕ) → List Link → List TdChan
chans_of id [] = []
chans_of id (l ∷ ls) = link_chan id l ∷ chans_of (id + 1) ls

abbrev pub arcs_of : (id : ℕ) → List Link → List TdArc
arcs_of id [] = []
arcs_of id (l ∷ ls) = link_arcs id l ++ arcs_of (id + 1) ls

and_false : (b : Bool) → (b && false) ≡ false
and_false true = refl
and_false false = refl

module _ {B : Type 0} where
  -- Three regions, on their cores, with the body in the second.
  abbrev pub stages : B → List (TdRgn B)
  stages body =
      record (new_rgn 0 td_rg_rdr) { core = 0 }
      ∷ record (new_rgn 1 td_rg_cmp) { core = 1; body = some body }
      ∷ record (new_rgn 2 td_rg_wrt) { core = 4 }
      ∷ []

  abbrev pub pipeline : B → List Link → TdMod B
  pipeline body ls = record {
    rgns = stages body;
    chans = chans_of 0 ls;
    arcs = arcs_of 0 ls;
    target = td_tgt_tensix;
  }

  abbrev grown : TdMod B → List Link → TdMod B
  grown M ls = record M {
    chans = M.chans ++ chans_of (length M.chans) ls;
    arcs = M.arcs ++ arcs_of (length M.chans) ls;
  }

  add_link : Link → TdMod B → Option (TdMod B)
  add_link input M = input_channel 0 1 M
  add_link output M = output_channel 1 2 M

  mkarc-room :
      (M : TdMod B) (rgn kind : ℕ)
      → length M.arcs < 1024
      → rgn < length M.rgns
      → kind < 2 ^ 8
      → (ch : ℕ) → ch < length M.chans
      → (td_mkarc M rgn kind ch 1 0).1 ≡ record M { arcs = M.arcs ++ arc_of rgn kind ch ∷ [] }
  unfolding td_mkarc
  mkarc-room M rgn kind room inside small ch known =
      let full : leb 1024 (length M.arcs) ≡ false = ground arith in
      let here : leb (length M.rgns) rgn ≡ false = ground arith in
      let named : leb (length M.chans) ch ≡ false = ground arith in
      let cut : kind % 2 ^ 8 ≡ kind = omega arith in
      rw (full, here, named, and_false (leb kind 3), cut) refl

  module _ (M : TdMod B) (three : length M.rgns ≡ 3) (room : length M.chans < 128)
      (arcs : length M.arcs + 3 ≤ 1024) where
    source-inside :
        (l : Link) → (leb (length M.rgns) (source l) || leb (length M.rgns) (source l + 1)) ≡ false
    source-inside input = rw three refl
    source-inside output = rw three refl

    link-room :
        (l : Link)
        → td_link M (source l) (source l + 1) default_tile fs_cb_depth
          ≡ (length M.chans, record M { chans = M.chans ++ link_chan (length M.chans) l ∷ [] })
    unfolding td_link
    link-room l =
        let full : leb 128 (length M.chans) ≡ false = ground arith in
        rw (full, source-inside l) refl

    -- After the channel, its arcs.
    abbrev linked : Link → TdMod B
    linked l = record M { chans = M.chans ++ link_chan (length M.chans) l ∷ [] }

    arcs-room :
        (l : Link) (r r' r'' k k' k'' : ℕ)
        → r < 3
        → r' < 3
        → r'' < 3
        → k < 2 ^ 8
        → k' < 2 ^ 8
        → k'' < 2 ^ 8
        → let ch = length M.chans in
          let M₂ = (td_mkarc (linked l) r k ch 1 0).1 in
          let M₃ = (td_mkarc M₂ r' k' ch 1 0).1 in
          (td_mkarc M₃ r'' k'' ch 1 0).1 ≡ record (linked l) {
            arcs = M.arcs ++ (arc_of r k ch ∷ arc_of r' k' ch ∷ arc_of r'' k'' ch ∷ []);
          }
    arcs-room l r r' r'' k k' k'' h h' h'' s s' s'' =
        let ch = length M.chans in
        let a = arc_of r k ch in
        let a' = arc_of r' k' ch in
        let known = length-append M.chans (link_chan ch l ∷ []) in
        let one = length-append M.arcs (a ∷ []) in
        let two = length-append (M.arcs ++ a ∷ []) (a' ∷ []) in
        let M₂ : TdMod B = record (linked l) { arcs = M.arcs ++ a ∷ [] } in
        let M₃ : TdMod B = record M₂ { arcs = (M.arcs ++ a ∷ []) ++ a' ∷ [] } in
        rw
          (
            mkarc-room (linked l) r k (omega arith) (omega (arith, three)) s ch
                (omega (arith, known)),
            mkarc-room M₂ r' k' (omega (arith, one)) (omega (arith, three)) s' ch
                (omega (arith, known)),
            mkarc-room M₃ r'' k'' (omega (arith, one, two)) (omega (arith, three)) s'' ch
                (omega (arith, known)),
            append_assoc (M.arcs ++ a ∷ []) (a' ∷ []) (arc_of r'' k'' ch ∷ []),
            append_assoc M.arcs (a ∷ []) (a' ∷ arc_of r'' k'' ch ∷ []),
          )
          refl

    add_link-room : (l : Link) → add_link l M ≡ some (grown M (l ∷ []))
    unfolding add_link input_channel output_channel
    add_link-room input =
        let valid : (length M.chans == td_bad_id) ≡ false = ground arith in
        rw (link-room input) (
          rw valid (
            ap some (
              arcs-room input 0 0 1 td_ar_rd td_ar_push td_ar_wait (omega arith) (omega arith)
                (omega arith) (omega arith) (omega arith) (omega arith))))
    add_link-room output =
        let valid : (length M.chans == td_bad_id) ≡ false = ground arith in
        rw (link-room output) (
          rw valid (
            ap some (
              arcs-room output 1 2 2 td_ar_push td_ar_wait td_ar_wr (omega arith) (omega arith)
                (omega arith) (omega arith) (omega arith) (omega arith))))

bind-some {ℓ} : {A : Type ℓ} (o : Option A) → Option.bind o some ≡ o
unfolding Option.bind
bind-some none = refl
bind-some (some a) = refl

bind-bind {ℓ} :
    {A : Type ℓ} (o : Option A) (f g : A → Option A)
    → Option.bind (Option.bind o f) g ≡ Option.bind o (λ a. Option.bind (f a) g)
unfolding Option.bind
bind-bind none f g = refl
bind-bind (some a) f g = refl

length-link_arcs : (id : ℕ) (l : Link) → length (link_arcs id l ++ []) ≡ 3
length-link_arcs id input = refl
length-link_arcs id output = refl

length-param_links :
    (is_ptr loaded stored : Bool)
    → length (param_links (record { is_ptr = is_ptr; loaded = loaded; stored = stored })) ≤ 2
length-param_links false loaded stored = omega arith
length-param_links true true true = omega arith
length-param_links true true false = omega arith
length-param_links true false true = omega arith
length-param_links true false false = omega arith

length-links : (ps : List FsParam) → length (links ps) ≤ 2 * length ps
length-links [] = omega arith
length-links (p ∷ ps) = omega (
  arith,
  length-append (param_links p) (links ps),
  length-param_links p.is_ptr p.loaded p.stored,
  length-links ps,
)

module _ {B : Type 0} where
  run_links : List Link → TdMod B → Option (TdMod B)
  run_links [] M = some M
  run_links (l ∷ ls) M = Option.bind (add_link l M) (run_links ls)

  run_links-append :
      (xs ys : List Link) (M : TdMod B)
      → run_links (xs ++ ys) M ≡ Option.bind (run_links xs M) (run_links ys)
  unfolding run_links Option.bind
  run_links-append [] ys M = refl
  run_links-append (x ∷ xs) ys M =
      ap (Option.bind (add_link x M)) (fun_ext (λ M'. run_links-append xs ys M'))
      ∙ sym (bind-bind (add_link x M) (run_links xs) (run_links ys))

  flags-links :
      (is_ptr loaded stored : Bool) (M : TdMod B)
      → let p : FsParam = record { is_ptr = is_ptr; loaded = loaded; stored = stored } in
        param_channels 0 1 2 p M ≡ run_links (param_links p) M
  unfolding param_channels run_links add_link Option.bind
  flags-links false loaded stored M = refl
  flags-links true true true M =
      ap (Option.bind (input_channel 0 1 M))
        (fun_ext (λ M'. sym (bind-some (output_channel 1 2 M'))))
  flags-links true true false M = refl
  flags-links true false true M = sym (bind-some (output_channel 1 2 M))
  flags-links true false false M = refl

  param_channels-links :
      (p : FsParam) (M : TdMod B) → param_channels 0 1 2 p M ≡ run_links (param_links p) M
  param_channels-links p M = flags-links p.is_ptr p.loaded p.stored M

  all_channels-links :
      (ps : List FsParam) (M : TdMod B) → all_channels 0 1 2 ps M ≡ run_links (links ps) M
  unfolding all_channels run_links
  all_channels-links [] M = refl
  all_channels-links (p ∷ ps) M = rw (param_channels-links p M) (
      ap (Option.bind (run_links (param_links p) M)) (fun_ext (λ M'. all_channels-links ps M'))
      ∙ sym (run_links-append (param_links p) (links ps) M))

  run_links_lem :
      (ls : List Link) (M : TdMod B)
      → length M.rgns ≡ 3
      → length M.chans + length ls ≤ 128
      → length M.arcs ≡ 3 * length M.chans
      → run_links ls M ≡ some (grown M ls)
  unfolding run_links Option.bind
  run_links_lem [] M three room arcs =
      ap some
        (λ i. record M { chans = sym (append-nil M.chans) i; arcs = sym (append-nil M.arcs) i })
  run_links_lem (l ∷ ls) M three room arcs =
      let id = length M.chans in
      let M₁ = grown M (l ∷ []) in
      let c = link_chan id l in
      let one = length-append M.chans (c ∷ []) in
      let next : length M₁.chans ≡ id + 1 = omega (arith, one) in
      let more : length M₁.arcs ≡ 3 * length M₁.chans = omega (
        arith,
        length-append M.arcs (link_arcs id l ++ []),
        length-link_arcs id l,
        append-nil (link_arcs id l),
        one,
      ) in
      rw (add_link-room M three (omega arith) (omega arith) l) (
        run_links_lem ls M₁ three (omega arith) more
        ∙ ap some (λ i. record M {
          chans =
              (ap (λ n. (M.chans ++ c ∷ []) ++ chans_of n ls) next
                  ∙ append_assoc M.chans (c ∷ []) (chans_of (id + 1) ls))
                i;
          arcs =
              (ap (λ n. (M.arcs ++ (link_arcs id l ++ [])) ++ arcs_of n ls) next
                  ∙ ap (λ as'. (M.arcs ++ as') ++ arcs_of (id + 1) ls) (append-nil (link_arcs id l))
                  ∙ append_assoc M.arcs (link_arcs id l) (arcs_of (id + 1) ls))
                i;
        }))

  pub rebuild-pipeline :
      (body : B) (params : List FsParam)
      → length params ≤ 64
      → rebuild body params ≡ some (pipeline body (links params))
  unfolding rebuild set_core set_body td_init td_mkrgn
  rebuild-pipeline body params few =
      let M : TdMod B = record {
        rgns = stages body;
        chans = [];
        arcs = [];
        target = td_tgt_tensix;
      } in
      all_channels-links params M
      ∙ run_links_lem (links params) M refl (omega (arith, length-links params)) refl

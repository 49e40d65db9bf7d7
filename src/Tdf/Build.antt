-- ===== src/Tdf/Build.antt =====
-- The builders and lookups of src/tdf/tdf.c. A `uint16_t` that is stored is cut to its width.
use booth.Base.{
  ℕ, ◌%◌, ◌^◌, ◌&&◌, ◌||◌, ◌==◌, leb, if◌then◌else◌, Option, none, some, [], ◌∷◌, ◌++◌, length,
  get_elem?, set, ℤ, bc_ok, bc_err_tdf,
}
use booth.Tdf.Defs.{
  TdTag, TdRgn, TdChan, TdArc, TdMod, td_max_rgns, td_max_chans, td_max_arcs, td_bad_id, td_ar_pop,
  td_rg_solo,
}

module _ {B : Type 0} where
  unfoldable pub td_init : ℕ → TdMod B
  td_init target = record { rgns = []; chans = []; arcs = []; target = target % 2 ^ 8 }

  -- A region after `memset`, with its id and role.
  abbrev pub new_rgn : ℕ → ℕ → TdRgn B
  new_rgn id role = record {
    id = id;
    role = role % 2 ^ 8;
    core = 0;
    x = 0;
    y = 0;
    twa_sz = 0;
    args = 0 ∷ 0 ∷ 0 ∷ 0 ∷ 0 ∷ 0 ∷ 0 ∷ 0 ∷ 0 ∷ 0 ∷ 0 ∷ 0 ∷ 0 ∷ 0 ∷ 0 ∷ 0 ∷ [];
    body = none;
  }

  unfoldable pub td_mkrgn : TdMod B → ℕ → ℕ × TdMod B
  td_mkrgn M role =
      if leb td_max_rgns (length M.rgns)
      then (td_bad_id, M)
      else (length M.rgns, record M { rgns = M.rgns ++ new_rgn (length M.rgns) role ∷ [] })

  unfoldable pub td_link : TdMod B → (prod cons : ℕ) → TdTag → (depth : ℕ) → ℕ × TdMod B
  td_link M prod cons tag depth =
      if leb td_max_chans (length M.chans)
      then (td_bad_id, M)
      else if leb (length M.rgns) prod || leb (length M.rgns) cons
      then (td_bad_id, M)
      else (let c : TdChan = record {
        id = length M.chans;
        prod = prod;
        cons = cons;
        depth = depth;
        tag = tag;
        l1_off = 0;
      } in
          (length M.chans, record M { chans = M.chans ++ c ∷ [] }))

  unfoldable pub td_mkarc : TdMod B → (rgn kind chan cnt anchor : ℕ) → ℕ × TdMod B
  td_mkarc M rgn kind chan cnt anchor =
      if leb td_max_arcs (length M.arcs)
      then (td_bad_id, M)
      else if leb (length M.rgns) rgn
      then (td_bad_id, M)
      else if leb kind td_ar_pop && leb (length M.chans) chan
      then (td_bad_id, M)
      else (let a : TdArc = record {
        kind = kind % 2 ^ 8;
        noc_id = 0;
        rgn = rgn;
        chan = chan;
        cnt = cnt;
        bir_inst = anchor;
        length = 0;
      } in
          (length M.arcs, record M { arcs = M.arcs ++ a ∷ [] }))

  -- `NULL` is a body that is not there.
  unfoldable pub td_build_solo_from_bir : TdMod B → ℕ → Option B → ℤ × TdMod B
  td_build_solo_from_bir M target body = elim body [
    | none ↦ (bc_err_tdf, M)
    | some b ↦
        let (r, M₁) = td_mkrgn (td_init target) td_rg_solo in
        if r == td_bad_id then (bc_err_tdf, M₁) else (
          bc_ok,
          record M₁ {
            rgns = elim (get_elem? M₁.rgns r) [
              | none ↦ M₁.rgns
              | some g ↦ set M₁.rgns r (record g { body = some b })
            ];
          },
        )
  ]

  unfoldable pub td_rgn : TdMod B → ℕ → Option (TdRgn B)
  td_rgn M id = if leb (length M.rgns) id then none else get_elem? M.rgns id

  unfoldable pub td_chan : TdMod B → ℕ → Option TdChan
  td_chan M id = if leb (length M.chans) id then none else get_elem? M.chans id

  unfoldable pub td_arc : TdMod B → ℕ → Option TdArc
  td_arc M id = if leb (length M.arcs) id then none else get_elem? M.arcs id

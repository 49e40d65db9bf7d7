-- ===== src/Tdf/Lower.antt =====
-- src/tdf/tdf_lower.c. Nothing of `out` is in use until a body is handed back.
use booth.Base.{
  not, ◌&&◌, ◌||◌, ◌==◌, if◌then◌else◌, none, some, [], ◌∷◌, length, ℤ, bc_ok, bc_err_tdf,
}
use booth.Tdf.Defs.{TdMod, TdLout, td_rg_solo, td_tgt_amd, td_tgt_nvidia, td_tgt_tensix}

module _ {B : Type 0} where
  abbrev pub no_output : TdLout B
  no_output = record { mods = []; owns = [] }

  unfoldable pub lower_solo_passthrough : TdMod B → TdLout B × ℤ
  lower_solo_passthrough M = elim M.rgns [
    | [] ↦ (no_output, bc_err_tdf)
    | r ∷ rs ↦
        if not (length rs == 0)
        then (no_output, bc_err_tdf)
        else if not (r.role == td_rg_solo)
        then (no_output, bc_err_tdf)
        else elim r.body [
          | none ↦ (no_output, bc_err_tdf)
          | some b ↦
              if not (length M.chans == 0) || not (length M.arcs == 0)
              then (no_output, bc_err_tdf)
              else (record { mods = b ∷ []; owns = 0 ∷ [] }, bc_ok)
        ]
  ]

  unfoldable pub lower_tensix : TdMod B → TdLout B × ℤ
  lower_tensix M = elim M.rgns [
    | [] ↦ (no_output, bc_err_tdf)
    | r ∷ rs ↦
        if length rs == 0 && r.role == td_rg_solo
        then lower_solo_passthrough M
        else (no_output, bc_err_tdf)
  ]

  unfoldable pub td_lower : TdMod B → TdLout B × ℤ
  td_lower M =
      if M.target == td_tgt_amd
      then lower_solo_passthrough M
      else if M.target == td_tgt_nvidia
      then lower_solo_passthrough M
      else if M.target == td_tgt_tensix
      then lower_tensix M
      else (no_output, bc_err_tdf)

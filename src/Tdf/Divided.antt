-- ===== src/Tdf/Divided.antt =====
-- td_fission_tensix of src/tdf/tdf_fission.c, by what the kernel's instructions do.
use booth.Base.{ℕ, ◌≡◌, ◌↔◌, some, List, [], ◌∷◌}
use booth.Bir.Defs.{BirModule}
use booth.Tdf.Defs.{TdRgn, TdMod, td_tgt_tensix, td_rg_solo}
use booth.Tdf.Fission.{FsParam, td_fission_tensix}
use booth.Tdf.Found.{IsKernel, IsKernel-find_kernel, find_kernel-IsKernel}
use booth.Tdf.Pipeline.{pipeline, links}
use booth.Tdf.Split.{Splits, split, Splits_lem}
use booth.Tdf.Classified.{IsTable, IsTable-iff}

module _ {D : Type 0} (M : TdMod (BirModule D)) where
  -- The graph is one region of Tensix code, whose kernel has the table of parameters `params`.
  pub record IsDivided (body : BirModule D) (params : List FsParam) : Type 0 where
    pub region : TdRgn (BirModule D)
    pub kernel : ℕ
    pub tensix : M.target ≡ td_tgt_tensix
    pub alone : M.rgns ≡ region ∷ []
    pub solo : region.role ≡ td_rg_solo
    pub has : region.body ≡ some body
    pub entry : IsKernel body kernel
    pub table : IsTable body kernel params

  -- The graph becomes `N`.
  pub data Divides : TdMod (BirModule D) → Type 0 where
    divide :
        (body : BirModule D) (params : List FsParam)
        → IsDivided body params
        → Divides (pipeline body (links params))

  Splits-Divides : (N : TdMod (BirModule D)) → Splits M N → Divides N
  Splits-Divides N (split body params s) = divide body params (record {
    region = s.region;
    kernel = s.kernel;
    tensix = s.tensix;
    alone = s.alone;
    solo = s.solo;
    has = s.has;
    entry = find_kernel-IsKernel body s.kernel s.entry;
    table = (IsTable-iff body s.kernel params).0 s.table;
  })

  Divides-Splits : (N : TdMod (BirModule D)) → Divides N → Splits M N
  Divides-Splits N (divide body params s) = split body params (record {
    region = s.region;
    kernel = s.kernel;
    tensix = s.tensix;
    alone = s.alone;
    solo = s.solo;
    has = s.has;
    entry = IsKernel-find_kernel body s.kernel s.entry;
    table = (IsTable-iff body s.kernel params).1 s.table;
  })

  -- td_fission_tensix answers a graph exactly when the one given is a single Tensix region with
  -- a body and a kernel, the first function marked as one or else the first function, none of
  -- whose instructions is a call. The graph is then the pipeline of reader, compute region with
  -- the body, and writer, with, for each of the first 64 parameters in turn that has a
  -- parameter instruction of type pointer to global or generic memory among the 8192 from the
  -- start of the kernel on, a channel in when an instruction of the kernel loads from an
  -- address that comes from it and a channel out when one stores to such an address. An address
  -- comes from a parameter in 16 steps through computed addresses, casts, loads and the only
  -- value stored to a local, and is no local itself; a block counts with 65536 instructions at
  -- most.
  pub td_fission_tensix_iff : (N : TdMod (BirModule D)) → (td_fission_tensix M ≡ some N) ↔ Divides N
  td_fission_tensix_iff N = (
    (λ h. Splits-Divides N ((Splits_lem M N).0 h)),
    (λ d. (Splits_lem M N).1 (Divides-Splits N d)),
  )

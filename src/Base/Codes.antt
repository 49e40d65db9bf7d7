-- ===== src/Base/Codes.antt =====
-- The result codes of src/barracuda.h, as `int`s.
use booth.Base.Int.{ℤ, pos, negsuc}

abbrev pub bc_ok : ℤ
bc_ok = pos 0

abbrev pub bc_err_io : ℤ
bc_err_io = negsuc 0

abbrev pub bc_err_tdf : ℤ
bc_err_tdf = negsuc 10

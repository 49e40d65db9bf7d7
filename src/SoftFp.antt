-- ===== src/SoftFp.antt =====
-- runtime/device/soft_fp.c: IEEE-754 binary32 arithmetic in integers, for cores with no FPU.
pub mod Format
pub mod Round
pub mod Arith
pub mod Compare
pub mod Convert
pub mod Commute
pub mod Codec
pub mod Nearest
pub mod Loops
pub mod Rounding
pub mod Order
pub mod Subtract
pub mod Product
pub mod Truncate
mod Tests
mod Witnesses

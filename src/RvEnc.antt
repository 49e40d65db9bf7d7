-- ===== src/RvEnc.antt =====
-- src/tensix/rv_enc.c: the RV32IM instruction encoder of the Tensix backend.
pub mod Format
pub mod Ops
pub mod Fields
pub mod Instr
pub mod Decode
pub mod Reads
pub mod RoundTrip
mod Tests

-- ===== src/Bir.antt =====
-- src/ir/bir.h and src/ir/bir.c: the intermediate representation, its interning pools and the
-- accessors that every pass goes through.
pub mod Defs
pub mod Opcodes
pub mod Types
mod Interning
mod Compound
mod Quals
pub mod Consts
mod Pools
pub mod Calls
mod Pinned
mod Tests

-- ===== src/Insert.antt =====
-- src/ir/bir_insert.c: instructions are put into a block, and what is read is numbered anew.
pub mod Run
mod Slots
mod Reads
mod Places
mod Tests

-- ===== src/Dce.antt =====
-- src/ir/bir_dce.c: dead code elimination.
pub mod Defs
pub mod Pass
pub mod Blocks
pub mod Unreached
pub mod Compact
pub mod Run
pub mod Counts
mod Effects
pub mod Safe
pub mod Sound
pub mod Reach
pub mod Marking
pub mod Marked
pub mod Moves
pub mod Walks
pub mod Compacted
mod Tests

-- ===== src/Verify.antt =====
-- src/ir/bir.c, bir_vchk: the checks of a module between the passes.
pub mod Defs
pub mod Run
mod Apart
mod Hull
mod Passes
mod Fine
mod Once
mod Checked
mod Phis
mod Tests

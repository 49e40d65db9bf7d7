-- ===== src/Cfold.antt =====
-- src/ir/bir_cfold.c: constant folding.
pub mod Width
pub mod Ints
pub mod Floats
pub mod Phi
pub mod Consts
pub mod Run
mod Extend
mod Values
mod Faults
mod Arms
mod Pruned
mod Typed
mod Tests

-- ===== src/Tensix.antt =====
-- src/tensix/rv_buf.c, noc.c and rv_elf.c: the code buffer of the Tensix backend, the instruction
-- sequences that drive the network between cores, and the image of a kernel.
pub mod Buf
pub mod Noc
pub mod ElfConsts
pub mod Elf
pub mod Machine
pub mod Straight
pub mod Load
pub mod Program
pub mod Transfers
pub mod Requests
pub mod Wait
pub mod Acquire
pub mod Layout
pub mod Coarsen
mod Syncs
mod Patterns
mod Tests
mod Kernels

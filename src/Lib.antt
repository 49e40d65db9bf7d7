-- ===== src/Lib.antt =====
-- Booth compiles CUDA, HIP and Triton kernels for several targets. The front ends (src/fe,
-- src/triton) lower a syntax tree to one intermediate representation, BIR (src/ir), whose passes
-- rewrite it; a backend (src/amdgpu, src/nvidia, src/tensix, src/cpu, src/metal, src/intel) selects
-- instructions and encodes them. Code for Tensix cores, which have no floating-point unit, is linked
-- with the routines of runtime/device; what moves tiles between them is a graph (src/tdf) that is placed
-- in the memory of a core and emitted as words (src/tensix). This library models the pools of BIR,
-- constant folding, dead code elimination, the insertion of instructions, the verifier, the tile
-- graph, and the way to an image for a Tensix core.
--
-- Base: the helpers that the parts share: Boolean tests, bitwise operations by powers of two,
--   lists read by native indices, integers, and in Codes the result codes of src/barracuda.h.
-- RvEnc: src/tensix/rv_enc.c, the RV32IM encoder. Format has the rv_enc_r, _i, _s, _b, _u and _j
--   helpers, Ops one function for each rv_ function, Instr the instructions as data. Decode is
--   independent of the source: the tables of the ISA, read backwards. A word is a number, an
--   immediate an integer that is taken modulo 2 ^ 32 as the C casts do.
-- SoftFp: runtime/device/soft_fp.c and soft_fp_internal.h, single-precision arithmetic on bit
--   patterns. Format has sfp_unpack and sfp_pack, Round sfp_round_normal, Arith the arithmetic,
--   Compare the comparisons, Convert the conversions; a function __addsf3 is addsf3 here. The other
--   modules hold the proofs; Rounding states what rounding to nearest, ties to even, means of
--   an exact mantissa. The model is of the default build, SFP_STRICT_IEEE = 0.
-- Bir: src/ir/bir.h and src/ir/bir.c. Defs has the structs, a pool with its count being the list of
--   the entries in use; Opcodes the opcodes that the passes name; Types the type pool; Consts
--   constants, strings and operands. A function that
--   writes the module answers its result and the module after. A refused entry sets its bit of
--   pool_full and answers index 0, as in the source.
-- Cfold: src/ir/bir_cfold.c. Width has mask_to_width, sign_extend and the integer comparisons, Ints the
--   integer operations, Floats the floating ones over a record of the operations of double, Phi is cfpe,
--   Consts the part of try_fold that needs constants, Run the rest of try_fold, cf_run_func and
--   bir_cfold. An int64_t is its bit pattern, and a signed overflow of a sum or a product, which C
--   leaves open, wraps around. A division by zero of the compiler is a result of its own. Extend and
--   Values hold the proofs on widths and operations, Faults that on divisors, Arms and Pruned those on
--   phis, Typed that on types.
-- Insert: src/ir/bir_insert.c in Run. What remap_inst does to the slots of an instruction and to the
--   pool are two functions; a list with entries put in stands for the arena after memmove. Slots, Reads
--   and Places hold the proofs.
-- Verify: bir_vchk of src/ir/bir.c. Defs has what it reads, Run the checks with the flags of vfs_t and
--   the stamps vps and vstm passed on; vpc, vflo and vfhi are functions of the place. Hull, Apart,
--   Passes and Fine state each check by itself, Once and Checked prove that the flags and stamps do
--   not matter, Phis what holds of the phis of an accepted module. What is printed with a refusal is
--   left out.
-- Dce: src/ir/bir_dce.c. Defs says which operands are values, Pass is dce_pass, Blocks the successors
--   and rmark, Unreached phix and rchk, Compact compact, Run opt_run_func and bir_dce. The static state
--   G is passed on: the bits of dead are a function of the index, and rch of the block's place; the
--   scratch arrays use_count and inst_renum are values. Counts, Safe and Sound hold the proofs on the
--   pass, Reach, Marking and Marked those on the marks, Moves, Walks and Compacted those on compact.
--   An entry of an arena beyond its count is zeros.
-- Tensix: src/tensix/rv_buf.c in Buf and src/tensix/noc.c in Noc, function by function. Machine is
--   independent of the source: the RV32I instructions that are emitted, with loads from an
--   environment that may answer differently at each step, and a trace of stores. The words emitted are
--   decoded by RvEnc.Decode and run; Straight, Load, Program and Transfers are the lemmas on words
--   without branches, Wait on the loop, Requests and Acquire state what the functions do. Elf is
--   src/tensix/rv_elf.c on a list of bytes, with the file system as a parameter; Layout has its
--   proofs. Coarsen is src/tensix/coarsen.c, and Syncs and Patterns what it finds out.
-- Tdf: the tile dataflow graph. Defs is src/tdf/tdf.h, Build the builders of tdf.c, Place tdf_place.c,
--   Orchestrate and Arcs tdf_noc.c (Arcs emits with the functions of Tensix.Noc), Lower tdf_lower.c.
--   Chips is the choice of the part and the names. The
--   chip is an argument elsewhere; the body of a region is of any type. Fission is
--   tdf_fission.c, whose regions have a BIR module as their body. Packing, Routes, Graph, Solo, Pipeline,
--   Split, Routed and Divided hold the specifications and the proofs; Reading, Found, Described and
--   Classified state what the table of a kernel's parameters says, and Traced, Tables and Scans
--   prove that the loops find it.
--
-- Loops. The normalising loop of sfp_round_normal keeps the guard of 64 that the source gives it. The
-- draining loop has no guard there; it runs here on 64 rounds, and a uint64_t is 0 after 64 halvings.
-- The search for the top bit in sfp_uint_to_float descends from 31. The scans of the pools are
-- recursion on the list, and so are the loops over channels and arcs. The loop of dce_pass runs at most
-- 99 rounds, as its guard has it, and the loop of rmark one more than there are blocks. A type `double`
-- is a parameter of the BIR module, compared by a parameter.
--
-- Not modelled: the inexact and underflow paths of SFP_STRICT_IEEE; of bir.c the sizes and layouts of
-- types, inline assembly, symbol lookup and diagnostics; the other passes of src/ir; the front ends;
-- the other backends and the rest of src/tensix; of src/tdf the dump; the driver, the host runtime
-- and the OCaml kernel language. Those are files, text emission, or later parts of this library.
mod Base
pub mod RvEnc
pub mod SoftFp
pub mod Bir
pub mod Cfold
pub mod Dce
pub mod Insert
pub mod Verify
pub mod Tensix
pub mod Tdf

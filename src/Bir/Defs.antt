-- ===== src/Bir/Defs.antt =====
-- The data of src/ir/bir.h. An enumeration is its number, as the structs store it; an arena with
-- its count is the list of the entries in use. `D` is the type `double`, which only the folding
-- pass computes with.
use booth.Base.{ℕ, ◌^◌, bit_and, bit_or, Bool, List, ◌==◌, not}

-- Limits.
abbrev pub bir_max_types : ℕ
bir_max_types = 2 ^ 14

abbrev pub bir_max_type_fields : ℕ
bir_max_type_fields = 2 ^ 16

abbrev pub bir_max_consts : ℕ
bir_max_consts = 2 ^ 16

abbrev pub bir_max_strings : ℕ
bir_max_strings = 2 ^ 22

-- Value references: bit 31 tells a constant from an instruction.
abbrev pub bir_val_const_bit : ℕ
bir_val_const_bit = 0x80000000

abbrev pub bir_val_none : ℕ
bir_val_none = 0xFFFFFFFF

unfoldable pub bir_val_index : ℕ → ℕ
bir_val_index v = bit_and v 0x7FFFFFFF

unfoldable pub bir_val_is_const : ℕ → Bool
bir_val_is_const v = not (bit_and v bir_val_const_bit == 0)

unfoldable pub bir_make_const : ℕ → ℕ
bir_make_const i = bit_or bir_val_const_bit i

-- `bir_type_kind_t`.
abbrev pub type_void : ℕ
type_void = 0

abbrev pub type_int : ℕ
type_int = 1

abbrev pub type_float : ℕ
type_float = 2

abbrev pub type_bfloat : ℕ
type_bfloat = 3

abbrev pub type_ptr : ℕ
type_ptr = 4

abbrev pub type_vector : ℕ
type_vector = 5

abbrev pub type_struct : ℕ
type_struct = 6

abbrev pub type_array : ℕ
type_array = 7

abbrev pub type_func : ℕ
type_func = 8

-- `bir_type_t`. `kind` to `cst` are its fields, each a number of its width.
pub record BirType : Type 0 where
  pub kind : ℕ
  pub addrspace : ℕ
  pub width : ℕ
  pub inner : ℕ
  pub count : ℕ
  pub num_fields : ℕ
  pub uni : ℕ
  pub cst : ℕ

-- The struct after `memset(&t, 0, sizeof(t))`.
abbrev pub zero_type : BirType
zero_type = record {
  kind = 0;
  addrspace = 0;
  width = 0;
  inner = 0;
  count = 0;
  num_fields = 0;
  uni = 0;
  cst = 0;
}

-- `bir_const_t`: the kind and the union it selects. An `int64_t` is its bit pattern.
pub data ConstValue (D : Type 0) : Type 0 where
  int : ℕ → ConstValue D
  float : D → ConstValue D
  null : ConstValue D
  undef : ConstValue D
  zeros : ConstValue D
  bytes : (off len : ℕ) → ConstValue D

pub record BirConst (D : Type 0) : Type 0 where
  pub type : ℕ
  pub value : ConstValue D

-- `bir_inst_t`: `operands` are the six inline slots.
abbrev pub bir_operands_inline : ℕ
bir_operands_inline = 6

abbrev pub bir_operands_overflow : ℕ
bir_operands_overflow = 0xFF

pub record BirInst : Type 0 where
  pub op : ℕ
  pub num_operands : ℕ
  pub subop : ℕ
  pub type : ℕ
  pub operands : List ℕ

pub record BirBlock : Type 0 where
  pub name : ℕ
  pub first_inst : ℕ
  pub num_insts : ℕ

-- `bir_func_t`; `spad` is padding.
pub record BirFunc : Type 0 where
  pub name : ℕ
  pub type : ℕ
  pub first_block : ℕ
  pub total_insts : ℕ
  pub num_blocks : ℕ
  pub num_params : ℕ
  pub cuda_flags : ℕ
  pub tu : ℕ
  pub launch_bounds_max : ℕ
  pub launch_bounds_min : ℕ
  pub refm : ℕ
  pub refq : ℕ
  pub sret : ℕ

-- `bir_global_t`.
pub record BirGlobal : Type 0 where
  pub name : ℕ
  pub type : ℕ
  pub initializer : ℕ
  pub cuda_flags : ℕ
  pub addrspace : ℕ
  pub is_const : ℕ
  pub tu : ℕ

-- `bir_asm_t`.
pub record BirAsm : Type 0 where
  pub tmpl : ℕ
  pub cons : ℕ
  pub nout : ℕ
  pub nops : ℕ
  pub vol : ℕ

-- `bir_module_t`.
pub record BirModule (D : Type 0) : Type 0 where
  pub types : List BirType
  pub type_fields : List ℕ
  pub consts : List (BirConst D)
  pub insts : List BirInst
  pub inst_lines : List ℕ
  pub extra_operands : List ℕ
  pub blocks : List BirBlock
  pub funcs : List BirFunc
  pub globals : List BirGlobal
  pub asms : List BirAsm
  pub strings : List ℕ
  pub pool_full : ℕ

abbrev pub bir_p_types : ℕ
bir_p_types = 0x001

abbrev pub bir_p_tfields : ℕ
bir_p_tfields = 0x002

abbrev pub bir_p_strings : ℕ
bir_p_strings = 0x004

abbrev pub bir_p_consts : ℕ
bir_p_consts = 0x008

-- `bir_pfull`, of a module that is there.
unfoldable pub bir_pfull : {D : Type 0} → BirModule D → ℕ → BirModule D
bir_pfull M bit = record M { pool_full = bit_or M.pool_full bit }

-- ===== src/Bir/Opcodes.antt =====
-- The opcodes of src/ir/bir.h that the passes name. An opcode is its place in the enumeration.
use booth.Base.{ℕ}

abbrev pub op_add : ℕ
op_add = 0

abbrev pub op_sub : ℕ
op_sub = 1

abbrev pub op_mul : ℕ
op_mul = 2

abbrev pub op_sdiv : ℕ
op_sdiv = 3

abbrev pub op_udiv : ℕ
op_udiv = 4

abbrev pub op_srem : ℕ
op_srem = 5

abbrev pub op_urem : ℕ
op_urem = 6

abbrev pub op_fadd : ℕ
op_fadd = 7

abbrev pub op_fsub : ℕ
op_fsub = 8

abbrev pub op_fmul : ℕ
op_fmul = 9

abbrev pub op_fdiv : ℕ
op_fdiv = 10

abbrev pub op_frem : ℕ
op_frem = 11

abbrev pub op_and : ℕ
op_and = 12

abbrev pub op_or : ℕ
op_or = 13

abbrev pub op_xor : ℕ
op_xor = 14

abbrev pub op_shl : ℕ
op_shl = 15

abbrev pub op_lshr : ℕ
op_lshr = 16

abbrev pub op_ashr : ℕ
op_ashr = 17

abbrev pub op_icmp : ℕ
op_icmp = 18

abbrev pub op_fcmp : ℕ
op_fcmp = 19

abbrev pub op_trunc : ℕ
op_trunc = 20

abbrev pub op_zext : ℕ
op_zext = 21

abbrev pub op_sext : ℕ
op_sext = 22

abbrev pub op_fptrunc : ℕ
op_fptrunc = 23

abbrev pub op_fpext : ℕ
op_fpext = 24

abbrev pub op_fptosi : ℕ
op_fptosi = 25

abbrev pub op_fptoui : ℕ
op_fptoui = 26

abbrev pub op_sitofp : ℕ
op_sitofp = 27

abbrev pub op_uitofp : ℕ
op_uitofp = 28

abbrev pub op_ptrtoint : ℕ
op_ptrtoint = 29

abbrev pub op_inttoptr : ℕ
op_inttoptr = 30

abbrev pub op_bitcast : ℕ
op_bitcast = 31

abbrev pub op_sqrt : ℕ
op_sqrt = 32

abbrev pub op_rsq : ℕ
op_rsq = 33

abbrev pub op_rcp : ℕ
op_rcp = 34

abbrev pub op_exp2 : ℕ
op_exp2 = 35

abbrev pub op_log2 : ℕ
op_log2 = 36

abbrev pub op_sin : ℕ
op_sin = 37

abbrev pub op_cos : ℕ
op_cos = 38

abbrev pub op_fabs : ℕ
op_fabs = 39

abbrev pub op_floor : ℕ
op_floor = 40

abbrev pub op_ceil : ℕ
op_ceil = 41

abbrev pub op_ftrunc : ℕ
op_ftrunc = 42

abbrev pub op_rndne : ℕ
op_rndne = 43

abbrev pub op_fmax : ℕ
op_fmax = 44

abbrev pub op_fmin : ℕ
op_fmin = 45

abbrev pub op_alloca : ℕ
op_alloca = 46

abbrev pub op_shared_alloc : ℕ
op_shared_alloc = 47

abbrev pub op_global_ref : ℕ
op_global_ref = 48

abbrev pub op_load : ℕ
op_load = 49

abbrev pub op_gep : ℕ
op_gep = 51

abbrev pub op_br : ℕ
op_br = 52

abbrev pub op_br_cond : ℕ
op_br_cond = 53

abbrev pub op_switch : ℕ
op_switch = 54

abbrev pub op_unreachable : ℕ
op_unreachable = 56

abbrev pub op_phi : ℕ
op_phi = 57

abbrev pub op_thread_id : ℕ
op_thread_id = 59

abbrev pub op_block_id : ℕ
op_block_id = 60

abbrev pub op_block_dim : ℕ
op_block_dim = 61

abbrev pub op_grid_dim : ℕ
op_grid_dim = 62

abbrev pub op_call : ℕ
op_call = 89

abbrev pub op_select : ℕ
op_select = 90

abbrev pub op_fnref : ℕ
op_fnref = 98

abbrev pub op_ret : ℕ
op_ret = 55

abbrev pub op_param : ℕ
op_param = 58

abbrev pub op_store : ℕ
op_store = 50

abbrev pub op_barrier : ℕ
op_barrier = 63

abbrev pub op_barrier_group : ℕ
op_barrier_group = 64

abbrev pub op_atomic_add : ℕ
op_atomic_add = 65

abbrev pub op_atomic_sub : ℕ
op_atomic_sub = 66

abbrev pub op_atomic_and : ℕ
op_atomic_and = 67

abbrev pub op_atomic_or : ℕ
op_atomic_or = 68

abbrev pub op_atomic_xor : ℕ
op_atomic_xor = 69

abbrev pub op_atomic_min : ℕ
op_atomic_min = 70

abbrev pub op_atomic_max : ℕ
op_atomic_max = 71

abbrev pub op_atomic_xchg : ℕ
op_atomic_xchg = 72

abbrev pub op_atomic_cas : ℕ
op_atomic_cas = 73

abbrev pub op_shfl : ℕ
op_shfl = 76

abbrev pub op_shfl_up : ℕ
op_shfl_up = 77

abbrev pub op_shfl_down : ℕ
op_shfl_down = 78

abbrev pub op_shfl_xor : ℕ
op_shfl_xor = 79

abbrev pub op_ballot : ℕ
op_ballot = 80

abbrev pub op_vote_any : ℕ
op_vote_any = 81

abbrev pub op_vote_all : ℕ
op_vote_all = 82

abbrev pub op_atomic_load : ℕ
op_atomic_load = 74

abbrev pub op_atomic_store : ℕ
op_atomic_store = 75

abbrev pub op_mfma : ℕ
op_mfma = 83

abbrev pub op_mma : ℕ
op_mma = 84

abbrev pub op_mfrg : ℕ
op_mfrg = 85

abbrev pub op_wld : ℕ
op_wld = 86

abbrev pub op_wst : ℕ
op_wst = 87

abbrev pub op_wmma : ℕ
op_wmma = 88

abbrev pub op_inline_asm : ℕ
op_inline_asm = 91

abbrev pub op_trap : ℕ
op_trap = 97

abbrev pub op_printf : ℕ
op_printf = 99

abbrev pub op_fence : ℕ
op_fence = 100

abbrev pub op_nanoslp : ℕ
op_nanoslp = 101

abbrev pub op_barred : ℕ
op_barred = 102

abbrev pub op_gridbar : ℕ
op_gridbar = 103

-- ===== src/Vm/Opcode.antt =====
-- The opcodes of src/nc_int.h, in the order of their numbers.
use nanoc.Base.{ℕ, Option, List, [], ◌∷◌, get_elem?}

pub data Opcode : Type 0 where
  op_end push_str push_num5 push_num2 push_var pop_var pop_str dim_arr op_break_instr add sub mul :
      Opcode
  div op_mod op_and op_or op_not neg band bor bxor shl shr equal not_equal less less_equ greater :
      Opcode
  greater_equ goto gosub reti for next op_if set_arr_elem get_arr_elem set_arr_1byte : Opcode
  get_arr_1byte set_arr_2byte get_arr_2byte set_arr_4byte get_arr_4byte op_copy param params :
      Opcode
  xfunc push_param free rnd abs add_str str_equal str_not_equ str_less str_less_equ str_greater :
      Opcode
  str_greater_equ left_str right_str mid_str str_len str_to_val val_to_str val_to_hex instr : Opcode
  alloc_str printf inc_var dec_var enter leave push_ret push_local pop_local inc_local dec_local :
      Opcode
  get_arr_elem_s set_arr_elem_s get_arr_1byte_s set_arr_1byte_s get_arr_2byte_s set_arr_2byte_s :
      Opcode
  get_arr_4byte_s set_arr_4byte_s dispatch dispatch_jmp next_local dbg_trap break_for for_leave :
      Opcode
  str2arr arr2str for_check for_check_local pop : Opcode

-- The opcode with each number.
unfoldable pub opcodes : List Opcode
opcodes =
    op_end ∷ push_str ∷ push_num5 ∷ push_num2 ∷ push_var ∷ pop_var ∷ pop_str ∷ dim_arr
    ∷ op_break_instr ∷ add ∷ sub ∷ mul ∷ div ∷ op_mod ∷ op_and ∷ op_or ∷ op_not ∷ neg ∷ band ∷ bor
    ∷ bxor ∷ shl ∷ shr ∷ equal ∷ not_equal ∷ less ∷ less_equ ∷ greater ∷ greater_equ ∷ goto ∷ gosub
    ∷ reti ∷ for ∷ next ∷ op_if ∷ set_arr_elem ∷ get_arr_elem ∷ set_arr_1byte ∷ get_arr_1byte
    ∷ set_arr_2byte ∷ get_arr_2byte ∷ set_arr_4byte ∷ get_arr_4byte ∷ op_copy ∷ param ∷ params
    ∷ xfunc ∷ push_param ∷ free ∷ rnd ∷ abs ∷ add_str ∷ str_equal ∷ str_not_equ ∷ str_less
    ∷ str_less_equ ∷ str_greater ∷ str_greater_equ ∷ left_str ∷ right_str ∷ mid_str ∷ str_len
    ∷ str_to_val ∷ val_to_str ∷ val_to_hex ∷ instr ∷ alloc_str ∷ printf ∷ inc_var ∷ dec_var ∷ enter
    ∷ leave ∷ push_ret ∷ push_local ∷ pop_local ∷ inc_local ∷ dec_local ∷ get_arr_elem_s
    ∷ set_arr_elem_s ∷ get_arr_1byte_s ∷ set_arr_1byte_s ∷ get_arr_2byte_s ∷ set_arr_2byte_s
    ∷ get_arr_4byte_s ∷ set_arr_4byte_s ∷ dispatch ∷ dispatch_jmp ∷ next_local ∷ dbg_trap
    ∷ break_for ∷ for_leave ∷ str2arr ∷ arr2str ∷ for_check ∷ for_check_local ∷ pop ∷ []

unfoldable pub decode : ℕ → Option Opcode
unfolding opcodes
decode n = get_elem? opcodes n

-- The number of each opcode.
unfoldable pub number : Opcode → ℕ
number op_end = 0
number push_str = 1
number push_num5 = 2
number push_num2 = 3
number push_var = 4
number pop_var = 5
number pop_str = 6
number dim_arr = 7
number op_break_instr = 8
number add = 9
number sub = 10
number mul = 11
number div = 12
number op_mod = 13
number op_and = 14
number op_or = 15
number op_not = 16
number neg = 17
number band = 18
number bor = 19
number bxor = 20
number shl = 21
number shr = 22
number equal = 23
number not_equal = 24
number less = 25
number less_equ = 26
number greater = 27
number greater_equ = 28
number goto = 29
number gosub = 30
number reti = 31
number for = 32
number next = 33
number op_if = 34
number set_arr_elem = 35
number get_arr_elem = 36
number set_arr_1byte = 37
number get_arr_1byte = 38
number set_arr_2byte = 39
number get_arr_2byte = 40
number set_arr_4byte = 41
number get_arr_4byte = 42
number op_copy = 43
number param = 44
number params = 45
number xfunc = 46
number push_param = 47
number free = 48
number rnd = 49
number abs = 50
number add_str = 51
number str_equal = 52
number str_not_equ = 53
number str_less = 54
number str_less_equ = 55
number str_greater = 56
number str_greater_equ = 57
number left_str = 58
number right_str = 59
number mid_str = 60
number str_len = 61
number str_to_val = 62
number val_to_str = 63
number val_to_hex = 64
number instr = 65
number alloc_str = 66
number printf = 67
number inc_var = 68
number dec_var = 69
number enter = 70
number leave = 71
number push_ret = 72
number push_local = 73
number pop_local = 74
number inc_local = 75
number dec_local = 76
number get_arr_elem_s = 77
number set_arr_elem_s = 78
number get_arr_1byte_s = 79
number set_arr_1byte_s = 80
number get_arr_2byte_s = 81
number set_arr_2byte_s = 82
number get_arr_4byte_s = 83
number set_arr_4byte_s = 84
number dispatch = 85
number dispatch_jmp = 86
number next_local = 87
number dbg_trap = 88
number break_for = 89
number for_leave = 90
number str2arr = 91
number arr2str = 92
number for_check = 93
number for_check_local = 94
number pop = 95

-- ===== src/Vm/Step.antt =====
-- `nc_run` of src/nc_runtime.c: the switch over the opcode at `code[pc]`, and the loop around it.
use nanoc.Base.{ℕ, zero, suc, ◌-◌, ◌*◌, Option, none, some, Run, done}
use nanoc.Base.Outcome
use nanoc.Memory
use nanoc.Vm.State.{
  Vm, M, gets, ◌>>=◌, ◌>>◌, code_byte, advance, print, fail, unknown_opcode, bytes_free, Flow, next,
  return_vm, nb_busy, max_code_size, num_variables,
}
use nanoc.Vm.Opcode.{Opcode, decode}
use nanoc.Vm.Opcode.{
  op_end, push_str, push_num5, push_num2, push_var, pop_var, pop_str, dim_arr, op_break_instr, add,
  sub, mul, div, op_mod, op_and, op_or, op_not, neg, band, bor, bxor, shl, shr, equal, not_equal,
  less, less_equ, greater, greater_equ, goto, gosub, reti, for, next, op_if, set_arr_elem,
  get_arr_elem, set_arr_1byte, get_arr_1byte, set_arr_2byte, get_arr_2byte, set_arr_4byte,
  get_arr_4byte, op_copy, param, params, xfunc, push_param, free, rnd, abs, add_str, str_equal,
  str_not_equ, str_less, str_less_equ, str_greater, str_greater_equ, left_str, right_str, mid_str,
  str_len, str_to_val, val_to_str, val_to_hex, instr, alloc_str, printf, inc_var, dec_var, enter,
  leave, push_ret, push_local, pop_local, inc_local, dec_local, get_arr_elem_s, set_arr_elem_s,
  get_arr_1byte_s, set_arr_1byte_s, get_arr_2byte_s, set_arr_2byte_s, get_arr_4byte_s,
  set_arr_4byte_s, dispatch, dispatch_jmp, next_local, dbg_trap, break_for, for_leave, str2arr,
  arr2str, for_check, for_check_local, pop,
}
use nanoc.Vm.Arith.{
  exec_add, exec_sub, exec_mul, exec_div, exec_mod, exec_and, exec_or, exec_not, exec_neg,
  exec_band, exec_bor, exec_bxor, exec_shl, exec_shr, exec_equal, exec_not_equal, exec_less,
  exec_less_equ, exec_greater, exec_greater_equ, exec_rnd, exec_abs,
}
use nanoc.Vm.Control.{
  exec_end, exec_push_str, exec_push_num5, exec_push_num2, exec_push_var, exec_pop_var,
  exec_inc_var, exec_dec_var, exec_enter, exec_leave, exec_push_ret, exec_push_local,
  exec_pop_local, exec_pop, exec_inc_local, exec_dec_local, exec_break, exec_break_for,
  exec_for_leave, exec_goto, exec_gosub, exec_reti, exec_for_check, exec_for_check_local, exec_for,
  exec_next, exec_next_local, exec_if, exec_dispatch, exec_dispatch_jmp, exec_param, exec_xfunc,
  exec_push_param,
}
use nanoc.Vm.Arrays.{
  exec_set_arr_elem, exec_get_arr_elem, exec_get_arr_elem_s, exec_set_arr_elem_s, exec_get_arr_s,
  exec_set_arr_s, exec_set_arr, exec_get_arr, exec_dim_arr, exec_copy,
}
use nanoc.Vm.Strings.{
  exec_add_str, exec_str_equal, exec_str_not_equ, exec_str_less, exec_str_less_equ,
  exec_str_greater, exec_str_greater_equ, exec_left_str, exec_right_str, exec_mid_str, exec_str_len,
  exec_str_to_val, exec_val_to_str, exec_val_to_hex, exec_instr, exec_alloc_str, exec_pop_str,
  exec_str2arr, exec_arr2str,
}
use nanoc.Vm.Printf.{exec_printf}

unfoldable pub exec_free : M Flow
exec_free = do
  heap_free ← (λ vm. Outcome.◌>>=◌ (Memory.get_free vm.mem) (λ n. done (n, vm)))
  code ← gets (λ vm. max_code_size - vm.code_size)
  vars ← gets (λ vm. num_variables * 4 - vm.num_vars * 4)
  print (bytes_free code vars heap_free)
  advance 1

-- The `default` case. The opcode of the debugger is one of these: cfg_DEBUG_SUPPORT is not set.
unfoldable pub exec_unknown : ℕ → M Flow
exec_unknown op = fail (unknown_opcode op)

-- The cases of the `switch`; `r` is what `rand()` returns, if it is called.
unfoldable pub exec : ℕ → Opcode → M Flow
exec r op_end = exec_end
exec r push_str = exec_push_str
exec r push_num5 = exec_push_num5
exec r push_num2 = exec_push_num2
exec r push_var = exec_push_var
exec r pop_var = exec_pop_var
exec r pop_str = exec_pop_str
exec r dim_arr = exec_dim_arr
exec r op_break_instr = exec_break
exec r add = exec_add
exec r sub = exec_sub
exec r mul = exec_mul
exec r div = exec_div
exec r op_mod = exec_mod
exec r op_and = exec_and
exec r op_or = exec_or
exec r op_not = exec_not
exec r neg = exec_neg
exec r band = exec_band
exec r bor = exec_bor
exec r bxor = exec_bxor
exec r shl = exec_shl
exec r shr = exec_shr
exec r equal = exec_equal
exec r not_equal = exec_not_equal
exec r less = exec_less
exec r less_equ = exec_less_equ
exec r greater = exec_greater
exec r greater_equ = exec_greater_equ
exec r goto = exec_goto
exec r gosub = exec_gosub
exec r reti = exec_reti
exec r for = exec_for
exec r next = exec_next
exec r op_if = exec_if
exec r set_arr_elem = exec_set_arr_elem
exec r get_arr_elem = exec_get_arr_elem
exec r set_arr_1byte = exec_set_arr 1
exec r get_arr_1byte = exec_get_arr 1
exec r set_arr_2byte = exec_set_arr 2
exec r get_arr_2byte = exec_get_arr 2
exec r set_arr_4byte = exec_set_arr 4
exec r get_arr_4byte = exec_get_arr 4
exec r op_copy = exec_copy
exec r param = exec_param
exec r params = exec_param
exec r xfunc = exec_xfunc
exec r push_param = exec_push_param
exec r free = exec_free
exec r rnd = exec_rnd r
exec r abs = exec_abs
exec r add_str = exec_add_str
exec r str_equal = exec_str_equal
exec r str_not_equ = exec_str_not_equ
exec r str_less = exec_str_less
exec r str_less_equ = exec_str_less_equ
exec r str_greater = exec_str_greater
exec r str_greater_equ = exec_str_greater_equ
exec r left_str = exec_left_str
exec r right_str = exec_right_str
exec r mid_str = exec_mid_str
exec r str_len = exec_str_len
exec r str_to_val = exec_str_to_val
exec r val_to_str = exec_val_to_str
exec r val_to_hex = exec_val_to_hex
exec r instr = exec_instr
exec r alloc_str = exec_alloc_str
exec r printf = exec_printf
exec r inc_var = exec_inc_var
exec r dec_var = exec_dec_var
exec r enter = exec_enter
exec r leave = exec_leave
exec r push_ret = exec_push_ret
exec r push_local = exec_push_local
exec r pop_local = exec_pop_local
exec r inc_local = exec_inc_local
exec r dec_local = exec_dec_local
exec r get_arr_elem_s = exec_get_arr_elem_s
exec r set_arr_elem_s = exec_set_arr_elem_s
exec r get_arr_1byte_s = exec_get_arr_s 1
exec r set_arr_1byte_s = exec_set_arr_s 1
exec r get_arr_2byte_s = exec_get_arr_s 2
exec r set_arr_2byte_s = exec_set_arr_s 2
exec r get_arr_4byte_s = exec_get_arr_s 4
exec r set_arr_4byte_s = exec_set_arr_s 4
exec r dispatch = exec_dispatch
exec r dispatch_jmp = exec_dispatch_jmp
exec r next_local = exec_next_local
exec r dbg_trap = exec_unknown 88
exec r break_for = exec_break_for
exec r for_leave = exec_for_leave
exec r str2arr = exec_str2arr
exec r arr2str = exec_arr2str
exec r for_check = exec_for_check
exec r for_check_local = exec_for_check_local
exec r pop = exec_pop

abbrev pub exec_code : ℕ → ℕ → Option Opcode → M Flow
exec_code r n none = exec_unknown n
exec_code r n (some op) = exec r op

-- One round of the loop of `nc_run`.
unfoldable pub step : ℕ → M Flow
step r = do pc ← gets (λ vm. vm.pc); n ← code_byte pc; exec_code r n (decode n)

-- What `nc_run` returns, and what it stores in `*p_cycles`.
pub record Stop : Type 0 where
  pub result : ℕ
  pub cycles : ℕ

-- `nc_run` with `cycles` in `*p_cycles`. The n-th last round takes `rand n` from `rand()`. The loop
-- leaves 0 in the counter, or 65535 if it was 0 at the start.
unfoldable pub run : (ℕ → ℕ) → ℕ → Vm → Run (Stop × Vm)
run rand zero vm = done (record { result = nb_busy; cycles = 65535 }, vm)
run rand (suc zero) vm = done (record { result = nb_busy; cycles = 0 }, vm)
run rand (suc (suc c)) vm = Outcome.◌>>=◌ (step (rand (suc c)) vm) λ r. elim (r.0) [
  | next ↦ run rand (suc c) (r.1)
  | return_vm v ↦ done (record { result = v; cycles = suc c }, r.1)
]

-- ===== src/Vm/Control.antt =====
-- The cases of `nc_run` (src/nc_runtime.c) that move values, jump, call, return and loop.
use nanoc.Base.{ℕ, ◌+◌, ◌-◌, ◌*◌, Bool, true, false, ◌&&◌, ◌||◌, ltb, ◌==◌, if◌then◌else◌}
use nanoc.Base.Word.{u8, u16, u32, slt, sle, is_neg}
use nanoc.Vm.State.{
  M, pure, gets, modify, ◌>>=◌, ◌>>◌, push, pop, top, peek2, ppush, ppop, get_local, set_local,
  get_var, set_var, code16, operand, operand16, operand32, set_pc, advance, jump, fail, stack_size,
  max_for_loops, call_stack_overflow, too_many_loops, Flow, next, return_vm, nb_end, nb_break,
  nb_reti, nb_xfunc,
}

unfoldable pub exec_end : M Flow
exec_end = pure (return_vm nb_end)

-- The address of the string is that of the byte after its length.
unfoldable pub exec_push_str : M Flow
exec_push_str = do len ← operand 1; pc ← gets (λ vm. vm.pc); push (pc + 2); advance (len + 2)

unfoldable pub exec_push_num5 : M Flow
exec_push_num5 = do n ← operand32 1; push n; advance 5

unfoldable pub exec_push_num2 : M Flow
exec_push_num2 = do n ← operand 1; push n; advance 2

unfoldable pub exec_push_var : M Flow
exec_push_var = do var ← operand 1; x ← get_var var; push x; advance 2

unfoldable pub exec_pop_var : M Flow
exec_pop_var = do var ← operand 1; x ← pop; set_var var x; advance 2

unfoldable pub exec_inc_var : M Flow
exec_inc_var = do var ← operand 1; x ← get_var var; set_var var (u32 (x + 1)); advance 2

unfoldable pub exec_dec_var : M Flow
exec_dec_var = do var ← operand 1; x ← get_var var; set_var var (u32 (x + 4294967295)); advance 2

-- Saves the frame pointer and reserves the local variables.
unfoldable pub exec_enter : M Flow
exec_enter = do
  var ← operand 1
  fp ← gets (λ vm. vm.fp)
  push fp
  modify (λ vm. record vm { fp = vm.sp; sp = u16 (vm.sp + var) })
  advance 2

-- Discards the frame and returns; what stands above the frame pointer is the return value.
unfoldable pub exec_leave : M Flow
exec_leave = do
  above ← gets (λ vm. ltb vm.fp vm.sp)
  if above then (do r ← pop; modify (λ vm. record vm { ret_val = r })) else pure tt
  modify (λ vm. record vm { sp = vm.fp })
  old ← pop
  modify (λ vm. record vm { fp = u16 old })
  addr ← pop
  jump addr

unfoldable pub exec_push_ret : M Flow
exec_push_ret = do r ← gets (λ vm. vm.ret_val); push r; advance 1

unfoldable pub exec_push_local : M Flow
exec_push_local = do var ← operand 1; x ← get_local var; push x; advance 2

unfoldable pub exec_pop_local : M Flow
exec_pop_local = do var ← operand 1; x ← pop; set_local var x; advance 2

abbrev drop_param : Bool → M (Unit {0})
drop_param true = do _ ← ppop; pure tt
drop_param false = pure tt

unfoldable pub exec_pop : M Flow
exec_pop = do some_left ← gets (λ vm. ltb 0 vm.psp); drop_param some_left; advance 1

unfoldable pub exec_inc_local : M Flow
exec_inc_local = do var ← operand 1; x ← get_local var; set_local var (u32 (x + 1)); advance 2

unfoldable pub exec_dec_local : M Flow
exec_dec_local = do
  var ← operand 1
  x ← get_local var
  set_local var (u32 (x + 4294967295))
  advance 2

-- PPUSHes the line number.
unfoldable pub exec_break : M Flow
exec_break = do line ← operand16 1; ppush line; _ ← advance 3; pure (return_vm nb_break)

-- `(void)POP(); (void)POP(); vm->nested_loop_idx--;`
abbrev pub leave_loop : M (Unit {0})
leave_loop = do
  _ ← pop
  _ ← pop
  modify (λ vm. record vm { nested_loop_idx = u8 (vm.nested_loop_idx + 255) })

unfoldable pub exec_break_for : M Flow
exec_break_for = do leave_loop; target ← operand16 1; jump target

unfoldable pub exec_for_leave : M Flow
exec_for_leave = do
  n ← operand 1
  modify (λ vm. record vm { nested_loop_idx = u8 (vm.nested_loop_idx + 256 - n) })
  advance 2

unfoldable pub exec_goto : M Flow
exec_goto = do target ← operand16 1; jump target

unfoldable pub exec_gosub : M Flow
exec_gosub = do
  room ← gets (λ vm. ltb vm.sp stack_size)
  if room
      then (do pc ← gets (λ vm. vm.pc); push (pc + 3); target ← operand16 1; jump target)
      else fail call_stack_overflow

unfoldable pub exec_reti : M Flow
exec_reti = do
  modify (λ vm. record vm { sp = vm.fp })
  old ← pop
  modify (λ vm. record vm { fp = u16 old })
  addr ← pop
  set_pc addr
  pure (return_vm nb_reti)

-- The range `loopval .. end` is empty in the direction of the step.
abbrev pub is_empty_range : ℕ → ℕ → ℕ → Bool
is_empty_range step loopval end = (slt 0 step && slt end loopval) || (slt step 0 && slt loopval end)

-- Both opcodes of the check: `read` reads the loop variable.
abbrev pub for_check : (ℕ → M ℕ) → M Flow
for_check read = do
  target ← operand16 1
  var ← operand 3
  loopval ← read var
  step ← top
  end ← peek2
  if is_empty_range step loopval end then (do leave_loop; jump target) else advance 4

unfoldable pub exec_for_check : M Flow
exec_for_check = for_check get_var

unfoldable pub exec_for_check_local : M Flow
exec_for_check_local = for_check get_local

unfoldable pub exec_for : M Flow
exec_for = do
  modify (λ vm. record vm { nested_loop_idx = u8 (vm.nested_loop_idx + 1) })
  over ← gets (λ vm. ltb max_for_loops vm.nested_loop_idx)
  if over then fail too_many_loops else advance 1

-- The loop goes on with this value of its variable.
abbrev pub goes_on : ℕ → ℕ → ℕ → Bool
goes_on step loopval end = if is_neg step then sle end loopval else sle loopval end

unfoldable pub exec_next : M Flow
exec_next = do
  start ← operand16 1
  var ← operand 3
  step ← top
  x ← get_var var
  set_var var (u32 (x + step))
  end ← peek2
  if goes_on step (u32 (x + step)) end
      then jump start
      else (do _ ← advance 4; leave_loop; pure next)

unfoldable pub exec_next_local : M Flow
exec_next_local = do
  start ← operand16 1
  var ← operand 3
  step ← top
  x ← get_local var
  set_local var (u32 (x + step))
  y ← get_local var
  end ← peek2
  if goes_on step y end then jump start else (do _ ← advance 4; leave_loop; pure next)

unfoldable pub exec_if : M Flow
exec_if = do c ← pop; target ← operand16 1; if c == 0 then jump target else advance 3

-- Pushes the return address and jumps to the function at this index of the table.
abbrev pub call_entry : ℕ → ℕ → M Flow
call_entry count index = do
  pc ← gets (λ vm. vm.pc)
  push (pc + (2 + count * 2))
  target ← code16 (u16 (pc + 2 + index * 2))
  jump target

-- The index is in range if its pattern is below the count; a negative one is not.
unfoldable pub exec_dispatch : M Flow
exec_dispatch = do
  count ← operand 1
  index ← pop
  room ← gets (λ vm. ltb vm.sp stack_size)
  if ltb index count
      then (if room then call_entry count index else fail call_stack_overflow)
      else advance (2 + count * 2)

unfoldable pub exec_dispatch_jmp : M Flow
exec_dispatch_jmp = do
  count ← operand 1
  table ← operand16 2
  index ← pop
  if ltb index count
      then (do target ← code16 (table + index * 2); jump target)
      else jump (table + count * 2)

-- `k_PARAM_N1` and `k_PARAMS_N1`: 0 where no parameter is left.
abbrev pub take_param : Bool → M ℕ
take_param true = ppop
take_param false = pure 0

unfoldable pub exec_param : M Flow
exec_param = do some_left ← gets (λ vm. ltb 0 vm.psp); x ← take_param some_left; push x; advance 1

unfoldable pub exec_xfunc : M Flow
exec_xfunc = do val ← operand 1; _ ← advance 2; pure (return_vm (nb_xfunc + val))

unfoldable pub exec_push_param : M Flow
exec_push_param = do x ← pop; ppush x; advance 1

-- ===== src/Compiler/Stmt.antt =====
-- The statements of src/nc_compiler.c that hold no other statements. `expr` compiles an expression
-- of a type, and `fuel` is for the arguments of a call.
use nanoc.Base.{
  ℕ, zero, suc, ◌+◌, ◌-◌, true, false, not, ◌&&◌, List, [], ◌∷◌, ◌++◌, ltb, leb, ◌==◌,
  if◌then◌else◌, length, take, drop, get_elem?, none, some,
}
use nanoc.Base.Word.{u8, u16, u32, neg32}
use nanoc.Vm.Opcode.{Opcode}
use nanoc.Compiler.State.{
  Symbol, M, ◌>>=◌, ◌>>◌, gets, modify, raise, symbol, set_symbol, skip, when, emit, emit_op,
  emit_text, patch16, reserve, local_string_not_writable, type_mismatch, unknown_variable_type,
  string_identifier_expected, identifier_expected, local_arrays_not_supported,
  increment_not_supported, decrement_not_supported, return_outside_function, void_cannot_return,
  must_return_value, format_expected, missing_argument, code_size_exceeded, break_outside_loop,
  too_many_breaks,
}
use nanoc.Compiler.Tokens.{
  tok_inc, tok_dec, tok_strid, tok_id, tok_eq, tok_arr, tok_lbracket, tok_rbracket, tok_rbrace,
  tok_nc_int32, tok_str, tok_num, tok_cnst, tok_for, e_none, e_num, e_str, e_any, e_ref,
}
use nanoc.Compiler.Symbols.{sym_get}
use nanoc.Compiler.Lexer.{lookahead, next, match}
use nanoc.Compiler.Emit.{max_code_size}
use nanoc.Compiler.Call.{
  current_symbol, emit_access, push_if_local, access_array, compile_func_call, compile_xfunc,
}

-- k_MAX_BREAKS
abbrev pub max_breaks : ℕ
max_breaks = 16

-- `local_var_count++` as the new index of a variable.
abbrev pub new_local : ℕ → M (Unit {0})
new_local idx = do
  n ← gets λ c. c.local_var_count
  set_symbol idx λ s. record s { is_local = true; value = n }
  modify λ c. record c { local_var_count = u8 (n + 1) }

unfoldable pub compile_for_leave : M (Unit {0})
compile_for_leave = do
  depth ← gets λ c. c.for_depth
  when (ltb 0 depth) (do emit_op Opcode.for_leave; emit depth)

unfoldable pub compile_break : M (Unit {0})
compile_break = do
  loop ← gets λ c. c.loop_type
  count ← gets λ c. length c.breaks
  when (loop == 0) (raise break_outside_loop)
  when (leb max_breaks count) (raise too_many_breaks)
  emit_op (if loop == tok_for then Opcode.break_for else Opcode.goto)
  modify λ c. record c { breaks = c.breaks ++ c.pc ∷ [] }
  reserve 2

unfoldable pub compile_breakpoint : M (Unit {0})
compile_breakpoint = do
  match b'('
  match b')'
  emit_op Opcode.op_break_instr
  pc ← gets λ c. c.pc
  line ← gets λ c. c.linenum
  patch16 pc line
  reserve 2

unfoldable pub compile_reti : M (Unit {0})
compile_reti = do compile_for_leave; emit_op Opcode.reti

unfoldable pub compile_free : M (Unit {0})
compile_free = do match b'('; match b')'; emit_op Opcode.free

unfoldable pub compile_const : M (Unit {0})
compile_const = do
  _ ← next
  idx ← gets λ c. c.sym_idx
  match tok_eq
  tok ← lookahead
  when (tok == b'-') (match b'-')
  match tok_num
  v ← gets λ c. c.value
  set_symbol idx λ s. record s { type = tok_cnst; value = if tok == b'-' then neg32 v else v }

-- The conversions in a format, as `compile_printf` counts them.
unfoldable pub count_specs : List ℕ → ℕ
count_specs [] = 0
count_specs (c ∷ []) = 0
count_specs (c ∷ d ∷ s) =
    let behind = count_specs s in
    let after = count_specs (d ∷ s) in
    if c == 92
    then behind
    else if c == b'%'
    then (if d == b'%' then behind else suc behind)
    else after

module _ (expr : ℕ → M ℕ) where
  -- `var` and `++`, `var` and `--`.
  abbrev pub step_variable : Symbol → ℕ → Opcode → Opcode → M (Unit {0})
  step_variable s tok on_local on_global = do
    match tok
    emit_access s.is_local on_local on_global s.value

  -- An assignment to the variable `s` whose name had the token `tok`.
  unfoldable pub assign : ℕ → Symbol → M (Unit {0})
  assign tok s =
      if tok == tok_strid
      then (do
        when s.is_local (raise local_string_not_writable)
        match tok_eq
        _ ← expr e_str
        emit_op Opcode.pop_str
        emit s.value)
      else if tok == tok_id
      then (do
        match tok_eq
        type ← expr e_num
        if type == e_num
            then emit_access s.is_local Opcode.pop_local Opcode.pop_var s.value
            else (if type == e_str
                then (do emit_op Opcode.pop_str; emit s.value)
                else raise type_mismatch))
      else raise unknown_variable_type

  -- A variable that the function has just created becomes local.
  unfoldable pub localize : ℕ → M (Unit {0})
  localize idx = do
    s ← symbol idx
    in_func ← gets λ c. c.in_func
    newest ← gets λ c. u32 (c.curr_var_idx + 4294967295)
    when (in_func && not s.is_local && (s.value == newest)) (new_local idx)

  unfoldable pub compile_var : ℕ → ℕ → M (Unit {0})
  compile_var fuel tok = do
    idx ← gets λ c. c.sym_idx
    next_tok ← lookahead
    if next_tok == b'(' then compile_func_call expr fuel idx false else (do
      localize idx
      s ← symbol idx
      if next_tok == tok_inc
          then step_variable s tok_inc Opcode.inc_local Opcode.inc_var
          else (if next_tok == tok_dec
              then step_variable s tok_dec Opcode.dec_local Opcode.dec_var
              else assign tok s))

  unfoldable pub compile_str8_var : M (Unit {0})
  compile_str8_var = do
    tok ← next
    when (not (tok == tok_strid) && not (tok == tok_id)) (raise string_identifier_expected)
    idx ← gets λ c. c.sym_idx
    set_symbol idx λ s. record s { type = tok_strid }
    match tok_eq
    _ ← expr e_str
    emit_op Opcode.pop_str
    s ← symbol idx
    emit s.value

  unfoldable pub compile_int32_decl : ℕ → M (Unit {0})
  compile_int32_decl fuel = do
    tok ← next
    when (not (tok == tok_id)) (raise identifier_expected)
    idx ← gets λ c. c.sym_idx
    next_tok ← lookahead
    if next_tok == tok_lbracket
        then (do
          in_func ← gets λ c. c.in_func
          when in_func (raise local_arrays_not_supported)
          set_symbol idx λ s. record s { type = tok_arr }
          match tok_lbracket
          _ ← expr e_num
          match tok_rbracket
          emit_op Opcode.dim_arr
          s ← symbol idx
          emit s.value)
        else compile_var fuel tok

  unfoldable pub compile_arr_access : M (Unit {0})
  compile_arr_access = do
    s ← current_symbol
    push_if_local s.is_local s.value
    match tok_lbracket
    _ ← expr e_num
    match tok_rbracket
    tok ← lookahead
    when (tok == tok_inc) (do match tok_inc; raise increment_not_supported)
    when (tok == tok_dec) (do match tok_dec; raise decrement_not_supported)
    match tok_eq
    _ ← expr e_num
    access_array s.is_local Opcode.set_arr_elem_s Opcode.set_arr_elem s.value

  unfoldable pub compile_return : M (Unit {0})
  compile_return = do
    in_func ← gets λ c. c.in_func
    when (not in_func) (raise return_outside_function)
    tok ← lookahead
    type ← gets λ c. c.func_return_type
    if not (tok == 0) && not (tok == tok_rbrace) && not (tok == b':')
        then (do
          when (type == 0) (raise void_cannot_return)
          _ ← expr (if type == tok_nc_int32 then e_num else e_str)
          skip)
        else when (not (type == 0)) (raise must_return_value)
    compile_for_leave
    emit_op Opcode.leave

  unfoldable pub printf_args : ℕ → ℕ → M (Unit {0})
  printf_args zero tok = skip
  printf_args (suc n) tok = do
    when (not (tok == b',')) (raise missing_argument)
    match b','
    _ ← expr e_any
    tok' ← lookahead
    printf_args n tok'

  unfoldable pub compile_printf : M (Unit {0})
  compile_printf = do
    match b'('
    tok ← lookahead
    when (not (tok == tok_str)) (raise format_expected)
    match tok_str
    buff ← gets λ c. c.buff
    modify λ c. record c { buff = take (length buff - 1) buff }
    let fmt = take (length buff - 2) (drop 1 buff)
    let num_args = u8 (count_specs fmt)
    tok' ← lookahead
    printf_args num_args tok'
    match b')'
    full ← gets λ c. ltb max_code_size (c.pc + 3 + (length fmt + 1))
    when full (raise code_size_exceeded)
    emit_op Opcode.printf
    emit num_args
    emit (length fmt + 1)
    emit_text (fmt ++ 0 ∷ [])

  unfoldable pub compile_copy : M (Unit {0})
  compile_copy = do
    match b'('
    _ ← expr e_ref
    match b','
    _ ← expr e_num
    match b','
    _ ← expr e_ref
    match b','
    _ ← expr e_num
    match b','
    _ ← expr e_num
    match b')'
    emit_op Opcode.op_copy

  unfoldable pub compile_str2arr : M (Unit {0})
  compile_str2arr = do
    match b'('
    _ ← expr e_ref
    match b','
    _ ← expr e_num
    match b','
    _ ← expr e_str
    match b')'
    emit_op Opcode.str2arr

  -- `compile_u8_stmt` and its like for 2 and 4 bytes.
  unfoldable pub compile_set : Opcode → Opcode → M (Unit {0})
  compile_set on_var on_stack = do
    match b'('
    match tok_arr
    s ← current_symbol
    push_if_local s.is_local s.value
    match b','
    _ ← expr e_num
    match b','
    _ ← expr e_num
    match b')'
    access_array s.is_local on_stack on_var s.value

  -- A call of an external function as a statement; its result is dropped.
  unfoldable pub compile_xfunc_stmt : M (Unit {0})
  compile_xfunc_stmt = do
    buff ← gets λ c. c.buff
    idx ← sym_get buff
    f ← gets λ c. get_elem? c.xfuncs (u16 idx)
    let type : ℕ = elim f [ none ↦ 0 | some x ↦ x.return_type ]
    _ ← compile_xfunc expr (if type == 0 then e_none else e_any)
    when (not (type == 0)) (emit_op Opcode.pop)

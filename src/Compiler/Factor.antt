-- ===== src/Compiler/Factor.antt =====
-- `compile_factor` of src/nc_compiler.c. The compiler of an expression of a
-- type is a parameter, `expr`; `fuel` is for the loop over the arguments of a call.
use nanoc.Base.{ℕ, ◌+◌, ◌-◌, true, [], ◌∷◌, ◌++◌, ltb, ◌==◌, if◌then◌else◌, length, take, drop}
use nanoc.Vm.Opcode.{Opcode}
use nanoc.Compiler.State.{
  M, ◌>>=◌, ◌>>◌, pure, gets, modify, raise, symbol, when, emit, emit_op, emit_text,
  function_without_value, syntax_error, code_size_exceeded,
}
use nanoc.Compiler.Tokens.{
  tok_cnst, tok_num, tok_id, tok_strid, tok_str, tok_arr, tok_label, tok_xfunc, tok_nil, tok_params,
  tok_param, tok_u8, tok_u16, tok_u32, tok_lefts, tok_rights, tok_mids, tok_len, tok_val, tok_strs,
  tok_hexs, tok_instr, tok_strings, tok_arr2strs, tok_rnd, tok_abs, tok_lbracket, tok_rbracket,
  e_num, e_str, e_any, e_ref,
}
use nanoc.Compiler.Lexer.{lookahead, match}
use nanoc.Compiler.Emit.{push_number, max_code_size}
use nanoc.Compiler.Call.{
  current_symbol, push_variable, push_if_local, access_array, result_type, compile_func_call,
  compile_xfunc, compile_get,
}

-- A string literal: `a_buff` holds it with its quotes.
unfoldable pub compile_string : M (Unit {0})
compile_string = do
  buff ← gets λ c. c.buff
  modify λ c. record c { buff = take (length buff - 1) buff }
  full ← gets λ c. ltb max_code_size (c.pc + 2 + length buff - 1)
  when full (raise code_size_exceeded)
  emit_op Opcode.push_str
  emit (length buff - 1)
  emit_text (take (length buff - 2) (drop 1 buff) ++ 0 ∷ [])

module _ (expr : ℕ → M ℕ) where
  -- Functions of one, two and three arguments.
  unfoldable pub call1 : ℕ → ℕ → Opcode → ℕ → M ℕ
  call1 tok t₁ op type = do match tok; match b'('; _ ← expr t₁; match b')'; emit_op op; pure type

  unfoldable pub call2 : ℕ → ℕ → ℕ → Opcode → ℕ → M ℕ
  call2 tok t₁ t₂ op type = do
    match tok
    match b'('
    _ ← expr t₁
    match b','
    _ ← expr t₂
    match b')'
    emit_op op
    pure type

  unfoldable pub call3 : ℕ → ℕ → ℕ → ℕ → Opcode → ℕ → M ℕ
  call3 tok t₁ t₂ t₃ op type = do
    match tok
    match b'('
    _ ← expr t₁
    match b','
    _ ← expr t₂
    match b','
    _ ← expr t₃
    match b')'
    emit_op op
    pure type

  unfoldable pub factor_paren : M ℕ
  factor_paren = do match b'('; type ← expr e_num; match b')'; pure type

  unfoldable pub factor_const : M ℕ
  factor_const = do
    s ← current_symbol
    modify λ c. record c { value = s.value }
    match tok_cnst
    v ← gets λ c. c.value
    push_number v
    pure e_num

  unfoldable pub factor_number : M ℕ
  factor_number = do match tok_num; v ← gets (λ c. c.value); push_number v; pure e_num

  unfoldable pub factor_variable : ℕ → M ℕ
  factor_variable fuel = do
    i ← gets λ c. c.sym_idx
    match tok_id
    tok ← lookahead
    s ← symbol i
    if tok == b'('
        then (if s.return_type == 0
            then raise function_without_value
            else (do compile_func_call expr fuel i true; pure (result_type s.return_type)))
        else (do push_variable s.is_local s.value; pure e_num)

  unfoldable pub factor_array : M ℕ
  factor_array = do
    s ← current_symbol
    match tok_arr
    tok ← lookahead
    if tok == tok_lbracket
        then (do
          push_if_local s.is_local s.value
          match tok_lbracket
          _ ← expr e_num
          match tok_rbracket
          access_array s.is_local Opcode.get_arr_elem_s Opcode.get_arr_elem s.value
          pure e_num)
        else (do push_variable s.is_local s.value; pure e_ref)

  -- `params` and `param`.
  unfoldable pub factor_param : ℕ → Opcode → ℕ → M ℕ
  factor_param tok op type = do match tok; match b'('; match b')'; emit_op op; pure type

  unfoldable pub factor_string : M ℕ
  factor_string = do match tok_str; compile_string; pure e_str

  unfoldable pub factor_string_variable : M ℕ
  factor_string_variable = do
    match tok_strid
    s ← current_symbol
    push_variable s.is_local s.value
    pure e_str

  unfoldable pub factor_call : ℕ → M ℕ
  factor_call fuel = do
    match tok_label
    i ← gets λ c. c.sym_idx
    s ← symbol i
    if s.return_type == 0
        then raise function_without_value
        else (do compile_func_call expr fuel i true; pure (result_type s.return_type))

  unfoldable pub factor_xfunc : M ℕ
  factor_xfunc = do
    match tok_xfunc
    type ← compile_xfunc expr e_any
    emit_op Opcode.param
    pure type

  unfoldable pub factor_null : M ℕ
  factor_null = do match tok_nil; emit_op Opcode.push_num2; emit 0; pure e_ref

  -- The string functions of the `switch`, and those on numbers.
  unfoldable pub factor_function : ℕ → M ℕ
  factor_function tok =
      if tok == tok_lefts
      then call2 tok_lefts e_str e_num Opcode.left_str e_str
      else if tok == tok_rights
      then call2 tok_rights e_str e_num Opcode.right_str e_str
      else if tok == tok_mids
      then call3 tok_mids e_str e_num e_num Opcode.mid_str e_str
      else if tok == tok_len
      then call1 tok_len e_str Opcode.str_len e_num
      else if tok == tok_val
      then call1 tok_val e_str Opcode.str_to_val e_num
      else if tok == tok_strs
      then call1 tok_strs e_num Opcode.val_to_str e_str
      else if tok == tok_hexs
      then call1 tok_hexs e_num Opcode.val_to_hex e_str
      else if tok == tok_instr
      then call3 tok_instr e_num e_str e_str Opcode.instr e_num
      else if tok == tok_strings
      then call2 tok_strings e_num e_str Opcode.alloc_str e_str
      else if tok == tok_arr2strs
      then call2 tok_arr2strs e_ref e_num Opcode.arr2str e_str
      else if tok == tok_rnd
      then call1 tok_rnd e_num Opcode.rnd e_num
      else if tok == tok_abs
      then call1 tok_abs e_num Opcode.abs e_num
      else raise syntax_error

  -- The access functions and the rest of the `switch`.
  unfoldable pub factor_access : ℕ → ℕ → M ℕ
  factor_access fuel tok =
      if tok == tok_u8
      then compile_get expr tok_u8 Opcode.get_arr_1byte Opcode.get_arr_1byte_s
      else if tok == tok_u16
      then compile_get expr tok_u16 Opcode.get_arr_2byte Opcode.get_arr_2byte_s
      else if tok == tok_u32
      then compile_get expr tok_u32 Opcode.get_arr_4byte Opcode.get_arr_4byte_s
      else if tok == tok_params
      then factor_param tok_params Opcode.params e_str
      else if tok == tok_param
      then factor_param tok_param Opcode.param e_num
      else if tok == tok_label
      then factor_call fuel
      else if tok == tok_xfunc
      then factor_xfunc
      else if tok == tok_nil
      then factor_null
      else factor_function tok

  unfoldable pub factor_at : ℕ → ℕ → M ℕ
  factor_at fuel tok =
      if tok == b'('
      then factor_paren
      else if tok == tok_cnst
      then factor_const
      else if tok == tok_num
      then factor_number
      else if tok == tok_id
      then factor_variable fuel
      else if tok == tok_arr
      then factor_array
      else if tok == tok_str
      then factor_string
      else if tok == tok_strid
      then factor_string_variable
      else factor_access fuel tok

  unfoldable pub compile_factor : ℕ → M ℕ
  compile_factor fuel = do tok ← lookahead; factor_at fuel tok

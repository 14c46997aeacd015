-- ===== src/Compiler/Call.antt =====
-- Accesses to variables and calls in src/nc_compiler.c: `compile_func_call`, `compile_xfunc` and
-- `compile_get`. The compiler of an expression of a type is a parameter, `expr`; `fuel` is for the loop
-- over the arguments of a call.
use nanoc.Base.{
  ℕ, zero, suc, ◌+◌, Bool, false, not, ◌&&◌, ◌||◌, Option, none, some, List, [], ◌∷◌, ◌==◌,
  if◌then◌else◌, length, get_elem?,
}
use nanoc.Base.Word.{u8}
use nanoc.Vm.Opcode.{Opcode}
use nanoc.Compiler.State.{
  Symbol, XFunc, M, ◌>>=◌, ◌>>◌, pure, gets, exhausted, raise, symbol, skip, when, emit, emit_op,
  emit16, wrong_number_of_arguments, unknown_external_function, syntax_error, parameter_required,
}
use nanoc.Compiler.Tokens.{tok_arr, tok_label, tok_nc_int32, e_num, e_str, e_any, e_ref_str}
use nanoc.Compiler.Symbols.{sym_get}
use nanoc.Compiler.Lexer.{lookahead, match}
use nanoc.Compiler.Emit.{add_default_params, forward_declaration}

abbrev pub current_symbol : M Symbol
current_symbol = do i ← gets (λ c. c.sym_idx); symbol i

-- An instruction on a local variable or on a global one.
abbrev pub emit_access : Bool → Opcode → Opcode → ℕ → M (Unit {0})
emit_access is_local on_local on_global v = do
  emit_op (if is_local then on_local else on_global)
  emit v

abbrev pub push_variable : Bool → ℕ → M (Unit {0})
push_variable is_local v = emit_access is_local Opcode.push_local Opcode.push_var v

-- The address of a local array goes to the stack before the index.
abbrev pub push_if_local : Bool → ℕ → M (Unit {0})
push_if_local is_local v = when is_local (do emit_op Opcode.push_local; emit v)

-- An access to an array: through the stack if it is local.
abbrev pub access_array : Bool → Opcode → Opcode → ℕ → M (Unit {0})
access_array is_local on_stack on_var v =
    if is_local then emit_op on_stack else (do emit_op on_var; emit v)

-- `NC_INT32` or `STR8` as the type of a call.
abbrev pub result_type : ℕ → ℕ
result_type rt = if rt == tok_nc_int32 then e_num else e_str

-- A GOSUB to the function with symbol `idx`, as which it was declared (`s`) before the arguments.
unfoldable pub emit_call : ℕ → Symbol → Bool → M (Unit {0})
emit_call idx s want_value = do
  let defined = s.type == tok_label
  pc ← gets λ c. c.pc
  when (not defined) (forward_declaration idx (pc + 1))
  emit_op Opcode.gosub
  emit16 (if defined then s.value else 0)
  when want_value (emit_op Opcode.push_ret)

unfoldable pub check_count : ℕ → ℕ → M (Unit {0})
check_count idx count = do
  s ← symbol idx
  when (not (s.param_count == 255) && not (count == s.param_count))
      (raise wrong_number_of_arguments)

unfoldable pub xfunc_found : Option XFunc → M XFunc
xfunc_found none = raise unknown_external_function
xfunc_found (some f) = pure f

unfoldable pub xfunc_at : ℕ → M XFunc
xfunc_at idx = do x ← gets (λ c. get_elem? c.xfuncs idx); xfunc_found x

unfoldable pub has_required : List ℕ → Bool
has_required [] = false
has_required (t ∷ types) = t == e_ref_str || has_required types

module _ (expr : ℕ → M ℕ) where
  -- The arguments of a call, up to the closing parenthesis; `tok` is the token ahead.
  unfoldable pub arguments : ℕ → ℕ → ℕ → M ℕ
  arguments zero tok count = exhausted
  arguments (suc fuel) tok count =
      let more = (do
        _ ← expr e_any
        emit_op Opcode.push_param
        sep ← lookahead
        when (sep == b',') (match b',')
        tok' ← lookahead
        arguments fuel tok' (u8 (count + 1))) in
      if tok == b')' then pure count else more

  unfoldable pub compile_func_call : ℕ → ℕ → Bool → M (Unit {0})
  compile_func_call fuel idx want_value = do
    s ← symbol idx
    match b'('
    tok ← lookahead
    count ← arguments fuel tok 0
    match b')'
    check_count idx count
    emit_call idx s want_value

  -- The parameters of an external function; omitted ones at the end become 0.
  unfoldable pub xfunc_args : List ℕ → M (Unit {0})
  xfunc_args [] = skip
  xfunc_args (t ∷ types) =
      let more = xfunc_args types in
      do
        _ ← expr t
        emit_op Opcode.push_param
        tok ← lookahead
        if tok == b','
            then (do match b','; more)
            else (if tok == b')'
                then (do
                  when (has_required types) (raise parameter_required)
                  add_default_params (length types))
                else raise syntax_error)

  unfoldable pub compile_xfunc : ℕ → M ℕ
  compile_xfunc type = do
    buff ← gets λ c. c.buff
    v ← sym_get buff
    let idx = u8 v
    f ← xfunc_at idx
    when (not (type == e_any) && not (type == f.return_type)) (raise syntax_error)
    match b'('
    xfunc_args f.types
    emit_op Opcode.xfunc
    emit idx
    match b')'
    pure f.return_type

  unfoldable pub compile_get : ℕ → Opcode → Opcode → M ℕ
  compile_get tok on_var on_stack = do
    match tok
    match b'('
    match tok_arr
    s ← current_symbol
    push_if_local s.is_local s.value
    match b','
    _ ← expr e_num
    match b')'
    access_array s.is_local on_stack on_var s.value
    pure e_num

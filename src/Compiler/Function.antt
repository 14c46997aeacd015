-- ===== src/Compiler/Function.antt =====
-- Functions in src/nc_compiler.c: `compile_func`. The statements of a block are a parameter, `stmts`, and
-- `fuel` is for the lines of the body.
use nanoc.Base.{
  ℕ, zero, suc, ◌+◌, ◌-◌, Bool, true, false, not, ◌&&◌, ◌||◌, List, [], ◌∷◌, ltb, ◌==◌,
  if◌then◌else◌, length,
}
use nanoc.Base.Word.{u8, u32}
use nanoc.Vm.Opcode.{Opcode}
use nanoc.Compiler.State.{
  Symbol, M, ◌>>=◌, ◌>>◌, pure, gets, modify, raise, symbol, set_symbol, skip, when, emit, emit_op,
  patch, function_name_expected, type_expected, parameter_name_expected,
}
use nanoc.Compiler.Tokens.{
  tok_id, tok_label, tok_lbrace, tok_nc_int32, tok_str8, tok_lbracket, tok_rbracket, tok_arr,
  tok_strid,
}
use nanoc.Compiler.Symbols.{sym_add_local}
use nanoc.Compiler.Lexer.{lookahead, next, match}
use nanoc.Compiler.Emit.{patch_here}
use nanoc.Compiler.Block.{here, set_loop, set_depth, block_body}

module _ (stmts : M (Unit {0})) where
  -- The name of a parameter that is a global variable gets an entry of its own.
  unfoldable pub shadow : ℕ → M (Unit {0})
  shadow vars_before = do
    i ← gets λ c. c.sym_idx
    s ← symbol i
    vars ← gets λ c. c.curr_var_idx
    when ((vars == vars_before) && not s.is_local)
        (do j ← sym_add_local s.name s.type; modify λ c. record c { sym_idx = j })

  abbrev pub parameter_type : Bool → ℕ → ℕ → ℕ
  parameter_type is_array tok old =
      if is_array then tok_arr else if tok == tok_str8 then tok_strid else old

  -- One parameter; `tok` is the token of its type.
  unfoldable pub parameter : ℕ → M ℕ
  parameter tok = do
    when (not (tok == tok_nc_int32) && not (tok == tok_str8)) (raise type_expected)
    vars_before ← gets λ c. c.curr_var_idx
    match tok
    bracket ← lookahead
    let is_array = (tok == tok_nc_int32) && (bracket == tok_lbracket)
    when is_array (do match tok_lbracket; match tok_rbracket)
    name ← lookahead
    when (not (name == tok_id) && not (name == tok_strid)) (raise parameter_name_expected)
    match name
    shadow vars_before
    i ← gets λ c. c.sym_idx
    n ← gets λ c. c.local_var_count
    set_symbol i
        λ s. record s { is_local = true; value = n; type = parameter_type is_array tok s.type }
    modify λ c. record c { local_var_count = u8 (n + 1) }
    sep ← lookahead
    when (sep == b',') (match b',')
    pure i

  -- At most `room` parameters; the indices of their symbols, the last one first.
  unfoldable pub parameters : ℕ → List ℕ → M (List ℕ)
  parameters zero indices = pure indices
  parameters (suc room) indices =
      let more = λ (tok : ℕ). (do i ← parameter tok; parameters room (i ∷ indices)) in
      do tok ← lookahead; if tok == b')' then pure indices else more tok

  -- Takes the parameters off the parameter stack, the last one first.
  unfoldable pub pop_parameters : List ℕ → M (Unit {0})
  pop_parameters [] = skip
  pop_parameters (i ∷ indices) = do
    emit_op Opcode.param
    emit_op Opcode.pop_local
    s ← symbol i
    emit s.value
    pop_parameters indices

  -- The table without the local symbols from index `start` on, and how many there were.
  unfoldable pub without_locals : ℕ → ℕ → List Symbol → List Symbol × ℕ
  without_locals start i [] = ([], 0)
  without_locals start i (s ∷ table) =
      let (rest, n) = without_locals start (i + 1) table in
      if not (ltb i start) && s.is_local
      then (record s { name = []; is_local = false } ∷ rest, suc n)
      else (s ∷ rest, n)

  abbrev pub drop_locals : M (Unit {0})
  drop_locals = modify λ c.
      let (table, n) = without_locals c.start_of_vars 0 c.symbols in
      record c { symbols = table; curr_var_idx = u8 (c.curr_var_idx + 65536 - n) }

  -- The name of the function becomes a label, at the code behind the GOTO that skips the function.
  unfoldable pub declare_function : ℕ → M ℕ
  declare_function return_type = do
    idx ← gets λ c. c.sym_idx
    s ← symbol idx
    modify λ c. record c {
      curr_var_idx =
          if (s.type == tok_id) && (s.value == u32 (c.curr_var_idx + 4294967295))
          then u8 (c.curr_var_idx + 255)
          else c.curr_var_idx;
    }
    pc ← here
    set_symbol idx λ t. record t { type = tok_label; value = pc; return_type = return_type }
    modify λ c. record c { in_func = true; local_var_count = 0; func_return_type = return_type }
    pure idx

  -- From the opening brace of the body to LEAVE.
  unfoldable pub function_body : ℕ → ℕ → ℕ → M (Unit {0})
  function_body fuel enter_pos return_type = do
    match tok_lbrace
    outer_loop ← gets λ c. c.loop_type
    outer_depth ← gets λ c. c.for_depth
    set_loop 0
    set_depth 0
    block_body stmts fuel
    set_loop outer_loop
    set_depth outer_depth
    count ← gets λ c. c.local_var_count
    patch (enter_pos + 1) count
    when (not (return_type == 0)) (do emit_op Opcode.push_num2; emit 0)
    emit_op Opcode.leave

  unfoldable pub compile_func : ℕ → M (Unit {0})
  compile_func fuel = do
    tok ← next
    skip_pos ← here
    emit_op Opcode.goto
    emit 0
    emit 0
    let has_type = tok == tok_nc_int32 || tok == tok_str8
    name ← if has_type then next else pure tok
    when (not (name == tok_id)) (raise function_name_expected)
    let return_type : ℕ = if has_type then tok else 0
    func_idx ← declare_function return_type
    match b'('
    indices ← parameters 8 []
    match b')'
    enter_pos ← here
    emit_op Opcode.enter
    emit 0
    pop_parameters indices
    function_body fuel enter_pos return_type
    patch_here (skip_pos + 1)
    drop_locals
    set_symbol func_idx λ s. record s { param_count = length indices }
    modify λ c. record c { in_func = false; local_var_count = 0; func_return_type = 0 }

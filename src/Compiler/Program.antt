-- ===== src/Compiler/Program.antt =====
-- `compile_stmt`, `compile_stmts` and `nc_compile` of src/nc_compiler.c.
use nanoc.Base.{
  ℕ, zero, suc, ◌+◌, ◌-◌, Bool, true, false, ◌||◌, Option, none, some, List, [], ◌∷◌, ltb, leb,
  ◌==◌, if◌then◌else◌,
}
use nanoc.Vm.Opcode.{Opcode}
use nanoc.Compiler.State.{
  Comp, Symbol, ok, raised, fault, out_of_fuel, M, ◌>>=◌, ◌>>◌, pure, gets, modify, exhausted,
  raise, skip, when, emit, syntax_error, code_size_exceeded,
}
use nanoc.Compiler.Tokens.{
  tok_for, tok_if, tok_nc_int32, tok_str8, tok_func, tok_ret, tok_id, tok_label, tok_strid, tok_arr,
  tok_printf, tok_nc_const, tok_while, tok_end, tok_xfunc, tok_break, tok_breakpoint, tok_reti,
  tok_copy, tok_u8, tok_u16, tok_u32, tok_str2arr, tok_free, tok_dispatch, tok_semicolon,
}
use nanoc.Compiler.Symbols.{get_num_vars}
use nanoc.Compiler.Lexer.{lookahead, next, get_line, block_end, max_line_len}
use nanoc.Compiler.Emit.{
  compile_end, append_data_to_code, resolve_forward_declarations, max_code_size,
}
use nanoc.Compiler.Expr.{compile_expression}
use nanoc.Compiler.Stmt.{
  compile_var, compile_int32_decl, compile_str8_var, compile_return, compile_arr_access,
  compile_printf, compile_const, compile_xfunc_stmt, compile_break, compile_breakpoint,
  compile_reti, compile_copy, compile_str2arr, compile_set, compile_free,
}
use nanoc.Compiler.Block.{compile_line, compile_for, compile_while, compile_if}
use nanoc.Compiler.Function.{compile_func}
use nanoc.Compiler.Dispatch.{compile_dispatch}

-- An expression stands on one line, and a line has less than 128 characters.
abbrev pub expr_fuel : ℕ
expr_fuel = max_line_len

abbrev pub expression : ℕ → M ℕ
expression = compile_expression expr_fuel

-- The `switch` of `compile_stmt`: the statements that hold no others.
unfoldable pub simple_stmt : ℕ → M (Unit {0})
simple_stmt tok =
    if tok == tok_nc_int32
    then compile_int32_decl expression expr_fuel
    else if tok == tok_str8
    then compile_str8_var expression
    else if tok == tok_ret
    then compile_return expression
    else if tok == tok_id
    then compile_var expression expr_fuel tok_id
    else if tok == tok_label
    then compile_var expression expr_fuel tok_id
    else if tok == tok_strid
    then compile_var expression expr_fuel tok_strid
    else if tok == tok_arr
    then compile_arr_access expression
    else if tok == tok_printf
    then compile_printf expression
    else if tok == tok_nc_const
    then compile_const
    else if tok == tok_end
    then compile_end
    else if tok == tok_xfunc
    then compile_xfunc_stmt expression
    else if tok == tok_break
    then compile_break
    else if tok == tok_breakpoint
    then compile_breakpoint
    else if tok == tok_reti
    then compile_reti
    else if tok == tok_copy
    then compile_copy expression
    else if tok == tok_u8
    then compile_set expression Opcode.set_arr_1byte Opcode.set_arr_1byte_s
    else if tok == tok_u16
    then compile_set expression Opcode.set_arr_2byte Opcode.set_arr_2byte_s
    else if tok == tok_u32
    then compile_set expression Opcode.set_arr_4byte Opcode.set_arr_4byte_s
    else if tok == tok_str2arr
    then compile_str2arr expression
    else if tok == tok_free
    then compile_free
    else if tok == b':'
    then skip
    else raise syntax_error

-- The whole `switch`; `stmts` and `fuel` are for the blocks.
unfoldable pub compile_stmt : M (Unit {0}) → ℕ → M (Unit {0})
compile_stmt stmts fuel = do
  tok ← next
  if tok == tok_for
      then compile_for stmts expression fuel
      else if tok == tok_if
      then compile_if stmts expression fuel
      else if tok == tok_func
      then compile_func stmts fuel
      else if tok == tok_while
      then compile_while stmts expression fuel
      else if tok == tok_dispatch
      then compile_dispatch stmts fuel expression
      else simple_stmt tok

-- MAX_CODE_PER_LINE
unfoldable pub check_code_size : M (Unit {0})
check_code_size = do
  full ← gets λ c. leb (max_code_size - max_line_len) c.pc
  when full (raise code_size_exceeded)

unfoldable pub skip_semicolon : M (Unit {0})
skip_semicolon = do tok ← lookahead; when (tok == tok_semicolon) (do _ ← next; skip)

-- `compile_stmts`: up to the end of the line or of the block.
unfoldable pub compile_stmts : ℕ → M (Unit {0})
compile_stmts zero = exhausted
compile_stmts (suc fuel) =
    let semicolon = (do _ ← next; compile_stmts fuel) in
    let statement = (do
      compile_stmt (compile_stmts fuel) fuel
      skip_semicolon
      check_code_size
      compile_stmts fuel) in
    do
      tok ← lookahead
      if tok == 0 || block_end tok
          then skip
          else if tok == tok_semicolon
          then semicolon
          else statement

-- One round of the loop of `nc_compile`; `false` at the end of the program.
unfoldable pub compile_round : ℕ → M Bool
compile_round fuel = do got ← get_line; when got (compile_line (compile_stmts fuel)); pure got

-- That loop: `error` comes back to its start by `longjmp`.
unfoldable pub compile_lines : ℕ → M (Unit {0})
compile_lines zero c = out_of_fuel
compile_lines (suc fuel) c = elim (compile_round fuel c) [
  | ok got c' ↦ if got then compile_lines fuel c' else ok tt c'
  | raised c' ↦ compile_lines fuel c'
  | fault ↦ fault
  | out_of_fuel ↦ out_of_fuel
]

-- What is left of a former compilation; `is_local` and the counts of a symbol stay.
abbrev pub cleared : Symbol → Symbol
cleared s = record s { name = []; type = 0; value = 0 }

unfoldable pub clear_from : ℕ → ℕ → List Symbol → List Symbol
clear_from start i [] = []
clear_from start i (s ∷ table) =
    (if ltb i start then s else cleared s) ∷ clear_from start (i + 1) table

-- A new `comp_inst_t` (its memory is assumed to be there), for a VM with this code and trace.
unfoldable pub start : List (List ℕ) → List ℕ → List ℕ → Comp → Comp
start program code trace c = record {
  symbols = clear_from c.start_of_vars 0 c.symbols;
  curr_var_idx = 0;
  start_of_vars = c.start_of_vars;
  xfuncs = c.xfuncs;
  running = true;
  lines = program;
  forward_decl = [];
  code = code;
  trace = trace;
  pc = 0;
  linenum = 0;
  err_count = 0;
  sym_idx = 0;
  buff = [];
  constants = [];
  pos = none;
  next_pos = none;
  value = 0;
  next_tok = 0;
  in_func = false;
  local_var_count = 0;
  func_return_type = 0;
  loop_type = 0;
  for_depth = 0;
  breaks = [];
  messages = c.messages;
}

-- What `nc_compile` returns and writes to the VM; `num_vars` is written only without errors.
pub record Compiled : Type 0 where
  pub errors : ℕ
  pub code_size : ℕ
  pub num_vars : Option ℕ

unfoldable pub stop : M (Unit {0})
stop = modify λ c. record c { running = false }

-- The end of a compilation with errors, and of one without.
unfoldable pub give_up : M Compiled
give_up = do
  n ← gets λ c. c.err_count
  stop
  pure (record { errors = n; code_size = 0; num_vars = none })

unfoldable pub finish : M Compiled
finish = do
  compile_end
  append_data_to_code
  resolve_forward_declarations
  size ← gets λ c. c.pc
  vars ← get_num_vars
  n ← gets λ c. c.err_count
  stop
  pure (record { errors = n; code_size = size; num_vars = some vars })

-- An error in `finish` goes back to the loop too, which then ends at once.
unfoldable pub finish_or_give_up : M Compiled
finish_or_give_up c = elim (finish c) [
  | ok r c' ↦ ok r c'
  | raised c' ↦ give_up c'
  | fault ↦ fault
  | out_of_fuel ↦ out_of_fuel
]

unfoldable pub nc_compile : ℕ → List (List ℕ) → List ℕ → List ℕ → M Compiled
nc_compile fuel program code trace = do
  modify (start program code trace)
  emit 0
  compile_lines fuel
  failed ← gets λ c. ltb 0 c.err_count
  if failed then give_up else finish_or_give_up

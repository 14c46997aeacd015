-- ===== src/Compiler/Block.antt =====
-- The statements of src/nc_compiler.c that hold other statements: loops, `if`, and functions. `stmts`
-- stands for `compile_stmts`, and `fuel` is for the lines of a block.
use nanoc.Base.{ℕ, zero, suc, ◌+◌, not, ◌&&◌, ◌||◌, ◌==◌, if◌then◌else◌, length}
use nanoc.Base.Word.{u8}
use nanoc.Vm.Opcode.{Opcode}
use nanoc.Compiler.State.{
  M, ◌>>=◌, ◌>>◌, pure, gets, modify, exhausted, symbol, set_symbol, skip, when, emit, emit_op,
  emit16, patch16, reserve,
}
use nanoc.Compiler.Tokens.{
  tok_id, tok_label, tok_eq, tok_to, tok_step, tok_lbrace, tok_rbrace, tok_for, tok_while, tok_else,
  tok_if, e_num,
}
use nanoc.Compiler.Lexer.{lookahead, lookfurther, match, label, block_end, get_line}
use nanoc.Compiler.Emit.{patch_breaks, patch_here}
use nanoc.Compiler.Call.{emit_access}
use nanoc.Compiler.Stmt.{new_local}

abbrev pub here : M ℕ
here = gets λ c. c.pc

abbrev pub set_loop : ℕ → M (Unit {0})
set_loop type = modify λ c. record c { loop_type = type }

abbrev pub set_depth : ℕ → M (Unit {0})
set_depth n = modify λ c. record c { for_depth = n }

module _ (stmts : M (Unit {0})) where
  -- A label and a colon may stand before the statements of a line.
  unfoldable pub compile_line : M (Unit {0})
  compile_line = do
    tok ← lookahead
    when (tok == tok_id || tok == tok_label) (do
      idx ← gets λ c. c.sym_idx
      behind ← lookfurther
      when (behind == b':')
          (do label; match b':'; pc ← here; set_symbol idx λ s. record s { value = pc }))
    stmts

  -- The lines of a block behind the first one.
  unfoldable pub block_lines : ℕ → M (Unit {0})
  block_lines zero = exhausted
  block_lines (suc fuel) =
      let more = (do got ← get_line; when got (do compile_line; block_lines fuel)) in
      do tok ← lookahead; when (not (block_end tok)) more

  -- The statements of a block and its closing brace.
  unfoldable pub block_body : ℕ → M (Unit {0})
  block_body fuel = do stmts; block_lines fuel; match tok_rbrace

  module _ (expr : ℕ → M ℕ) where
    -- The loop variable; one that is new in a function is local.
    unfoldable pub loop_variable : M ℕ
    loop_variable = do
      num_vars ← gets λ c. c.curr_var_idx
      match tok_id
      idx ← gets λ c. c.sym_idx
      s ← symbol idx
      in_func ← gets λ c. c.in_func
      created ← gets λ c. not (c.curr_var_idx == num_vars)
      when (in_func && not s.is_local && created) (new_local idx)
      pure idx

    unfoldable pub compile_for : ℕ → M (Unit {0})
    compile_for fuel = do
      emit_op Opcode.for
      idx ← loop_variable
      s ← symbol idx
      match tok_eq
      _ ← expr e_num
      at_start ← symbol idx
      emit_access s.is_local Opcode.pop_local Opcode.pop_var at_start.value
      match tok_to
      _ ← expr e_num
      tok ← lookahead
      if tok == tok_step
          then (do match tok_step; _ ← expr e_num; skip)
          else (do emit_op Opcode.push_num2; emit 1)
      check_pos ← here
      emit_op (if s.is_local then Opcode.for_check_local else Opcode.for_check)
      emit 0
      emit 0
      at_check ← symbol idx
      emit at_check.value
      start ← here
      outer_loop ← gets λ c. c.loop_type
      first_break ← gets λ c. length c.breaks
      set_loop tok_for
      modify λ c. record c { for_depth = u8 (c.for_depth + 1) }
      match tok_lbrace
      block_body fuel
      set_loop outer_loop
      modify λ c. record c { for_depth = u8 (c.for_depth + 255) }
      emit_op (if s.is_local then Opcode.next_local else Opcode.next)
      emit16 start
      at_end ← symbol idx
      emit at_end.value
      patch_here (check_pos + 1)
      patch_breaks first_break

    unfoldable pub compile_while : ℕ → M (Unit {0})
    compile_while fuel = do
      start ← here
      _ ← expr e_num
      emit_op Opcode.op_if
      exit ← here
      reserve 2
      outer_loop ← gets λ c. c.loop_type
      first_break ← gets λ c. length c.breaks
      set_loop tok_while
      match tok_lbrace
      block_body fuel
      set_loop outer_loop
      emit_op Opcode.goto
      emit16 start
      patch_here exit
      patch_breaks first_break

    -- An `else if` is the `if` of its else branch.
    unfoldable pub compile_if : ℕ → M (Unit {0})
    compile_if zero = exhausted
    compile_if (suc fuel) =
        let otherwise = (do
          tok ← lookahead
          if tok == tok_if
              then (do match tok_if; compile_if fuel)
              else (do match tok_lbrace; block_body fuel)) in
        let else_branch = λ (pos : ℕ). (do
          match tok_else
          emit_op Opcode.goto
          pc ← here
          patch16 pos (pc + 2)
          reserve 2
          otherwise
          patch_here pc) in
        do
          _ ← expr e_num
          emit_op Opcode.op_if
          pos ← here
          reserve 2
          match tok_lbrace
          block_body fuel
          patch_here pos
          tok ← lookahead
          when (tok == tok_else) (else_branch pos)

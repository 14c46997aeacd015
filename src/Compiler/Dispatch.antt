-- ===== src/Compiler/Dispatch.antt =====
-- `compile_dispatch` of src/nc_compiler.c: a jump table over cases or over functions.
use nanoc.Base.{
  ℕ, zero, suc, ◌+◌, ◌*◌, not, ◌&&◌, ◌||◌, List, [], ◌∷◌, ◌++◌, leb, ◌==◌, if◌then◌else◌, get_or,
  set, replicate, take,
}
use nanoc.Base.Word.{u8, u16}
use nanoc.Vm.Opcode.{Opcode}
use nanoc.Compiler.State.{
  M, ◌>>=◌, ◌>>◌, pure, gets, exhausted, raise, symbol, skip, when, emit, emit_op, emit16, patch,
  patch16, reserve, case_value_expected, case_value_out_of_range, duplicate_case_value,
  comma_expected, function_name_expected,
}
use nanoc.Compiler.Tokens.{tok_lbrace, tok_rbrace, tok_num, tok_cnst, tok_label, tok_id, e_num}
use nanoc.Compiler.Lexer.{lookahead, next, match, get_line}
use nanoc.Compiler.Emit.{forward_declaration, patch_all}
use nanoc.Compiler.Call.{current_symbol}
use nanoc.Compiler.Block.{block_body, here}

-- The next token, on a later line if this one is at its end; 0 if there is no further line.
unfoldable pub next_entry : ℕ → M ℕ
next_entry zero = exhausted
next_entry (suc fuel) =
    let more = (do got ← get_line; if got then next_entry fuel else pure 0) in
    do tok ← lookahead; if tok == 0 then more else pure tok

-- `case_addrs`, `goto_patches` and `count`.
pub record Cases : Type 0 where
  pub addrs : List ℕ
  pub patches : List ℕ
  pub count : ℕ

abbrev pub no_cases : Cases
no_cases = record { addrs = replicate 32 0; patches = []; count = 0 }

unfoldable pub case_value : M ℕ
case_value = do
  tok ← next
  if tok == tok_num
      then gets (λ c. c.value)
      else (if tok == tok_cnst
          then (do s ← current_symbol; pure s.value)
          else raise case_value_expected)

unfoldable pub emit_table : ℕ → List ℕ → M (Unit {0})
emit_table end [] = skip
emit_table end (a ∷ addrs) = do emit16 (if a == 0 then end else a); emit_table end addrs

module _ (stmts : M (Unit {0})) (fuel : ℕ) where
  -- One case: its value, a colon, its statements, and the jump to the end.
  unfoldable pub compile_case : Cases → M Cases
  compile_case cs = do
    value ← case_value
    when (leb 32 value) (raise case_value_out_of_range)
    when (not (get_or cs.addrs value 0 == 0)) (raise duplicate_case_value)
    match b':'
    addr ← here
    tok ← lookahead
    if tok == tok_lbrace
        then (do match tok_lbrace; block_body stmts fuel)
        else when (not (tok == 0)) stmts
    emit_op Opcode.goto
    pos ← here
    reserve 2
    pure (record {
      addrs = set cs.addrs value addr;
      patches = cs.patches ++ pos ∷ [];
      count = if leb cs.count value then value + 1 else cs.count;
    })

  unfoldable pub compile_cases : ℕ → Cases → M Cases
  compile_cases zero cs = exhausted
  compile_cases (suc rounds) cs =
      let more = (do cs' ← compile_case cs; compile_cases rounds cs') in
      do tok ← next_entry fuel; if tok == tok_rbrace || tok == 0 then pure cs else more

  unfoldable pub inline_dispatch : M (Unit {0})
  inline_dispatch = do
    emit_op Opcode.dispatch_jmp
    count_pos ← here
    emit 0
    table_ref ← here
    reserve 2
    cs ← compile_cases fuel no_cases
    match tok_rbrace
    table ← here
    let end = u16 (table + cs.count * 2)
    emit_table end (take cs.count cs.addrs)
    patch count_pos cs.count
    patch16 table_ref table
    patch_all end cs.patches

  -- One function of the table; its address is patched at the end of the compilation.
  unfoldable pub dispatch_entry : M (Unit {0})
  dispatch_entry = do
    tok ← next
    when (not (tok == tok_label) && not (tok == tok_id)) (raise function_name_expected)
    idx ← gets λ c. c.sym_idx
    s ← symbol idx
    pc ← here
    forward_declaration idx pc
    emit16 s.value
    sep ← next_entry fuel
    if sep == b','
        then (do _ ← next; skip)
        else when (not (sep == tok_rbrace)) (raise comma_expected)

  unfoldable pub dispatch_entries : ℕ → ℕ → M ℕ
  dispatch_entries zero count = exhausted
  dispatch_entries (suc rounds) count =
      let more = (do dispatch_entry; dispatch_entries rounds (u8 (count + 1))) in
      do tok ← next_entry fuel; if tok == tok_rbrace || tok == 0 then pure count else more

  unfoldable pub function_dispatch : M (Unit {0})
  function_dispatch = do
    emit_op Opcode.dispatch
    count_pos ← here
    emit 0
    count ← dispatch_entries fuel 0
    match tok_rbrace
    patch count_pos count

  unfoldable pub compile_dispatch : (ℕ → M ℕ) → M (Unit {0})
  compile_dispatch expr = do
    match b'('
    _ ← expr e_num
    match b')'
    match tok_lbrace
    tok ← next_entry fuel
    if tok == tok_num || tok == tok_cnst then inline_dispatch else function_dispatch

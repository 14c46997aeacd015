-- ===== src/Compiler/Taken/Dispatch.antt =====
-- A dispatch table does not run out of fuel.
use nanoc.Base.{ℕ, zero, suc, ◌+◌, ◌≤◌, ◌||◌, List, [], ◌∷◌, ◌==◌, arith}
use nanoc.Base.Word.{u8}
use nanoc.Compiler.State.{M, pure, case_value_expected, function_name_expected}
use nanoc.Compiler.Tokens.{tok_rbrace}
use nanoc.Compiler.Lexer.{lookahead}
use nanoc.Compiler.Emit.{forward_declaration}
use nanoc.Compiler.Dispatch.{
  next_entry, Cases, case_value, emit_table, compile_case, compile_cases, inline_dispatch,
  dispatch_entry, dispatch_entries, function_dispatch, compile_dispatch,
}
use nanoc.Compiler.Contract.{
  Eats-Keeps, Takes-less, Takes-zero, Keeps-bind, Eats-first, Takes-if, Keeps-pure, Takes-raise,
  Eats-firstly,
}
use nanoc.Compiler.Whole.{program, Runs, Advances, from_line, Runs-lookahead}
use nanoc.Compiler.Taken.Lines.{Advances-next}
use nanoc.Compiler.Taken.NextLine.{Runs-get_line}
use nanoc.Compiler.Taken.Factor.{forward_declaration-Keeps}
use nanoc.Compiler.Taken.Block.{block_rules, Runs-block_body}

Runs-entry : (n g : ℕ) → g ≤ n → Runs g (next_entry n)
unfolding next_entry
Runs-entry n zero le = Takes-zero program 0 (next_entry n)
Runs-entry zero (suc g) le = absurd (omega arith)
Runs-entry (suc n) (suc g) le =
    let rest = Runs-entry n g (omega arith) in
    Keeps-bind program (suc g) lookahead _ (Runs-lookahead (suc g)) λ tok.
      Takes-if program 0 (suc g) (tok == 0) _ (pure tok)
        (Runs-get_line g _ rest (Keeps-pure program (suc g) 0)) (Keeps-pure program (suc g) tok)

Runs-forward : (g idx pos : ℕ) → Runs g (forward_declaration idx pos)
Runs-forward g idx pos =
    from_line 0 g (forward_declaration idx pos) (forward_declaration-Keeps 128 idx pos)

Advances-case_value : (g : ℕ) → Advances (suc g) case_value
unfolding case_value
Advances-case_value g =
    Advances-next g _ (λ t ne. search block_rules depth 14)
      (Takes-raise program 1 (suc g) case_value_expected)

Runs-emit_table : (g end : ℕ) (addrs : List ℕ) → Runs g (emit_table end addrs)
unfolding emit_table
Runs-emit_table g end [] = search block_rules
Runs-emit_table g end (a ∷ addrs) =
    let rest = Runs-emit_table g end addrs in search block_rules depth 14

module _ (stmts : M (Unit {0})) (f : ℕ) (stmts-Runs : Runs f stmts) (n : ℕ) (enough : f ≤ n) where
  Advances-case : (g : ℕ) (cs : Cases) → g ≤ f → Advances (suc g) (compile_case stmts n cs)
  unfolding compile_case
  Advances-case g cs le =
      let now = Takes-less program 0 f g stmts le stmts-Runs in
      let body = Runs-block_body stmts f stmts-Runs n g (omega arith) le in
      Eats-first program g case_value _ (Advances-case_value g) (λ v. search block_rules depth 40)

  Runs-cases : (r g : ℕ) (cs : Cases) → g ≤ r → g ≤ f → Runs g (compile_cases stmts n r cs)
  unfolding compile_cases
  Runs-cases r zero cs le le' = Takes-zero program 0 (compile_cases stmts n r cs)
  Runs-cases zero (suc g) cs le le' = absurd (omega arith)
  Runs-cases (suc r) (suc g) cs le le' =
      Keeps-bind program (suc g) (next_entry n) _ (Runs-entry n (suc g) (omega arith)) λ tok.
        Takes-if program 0 (suc g) (tok == tok_rbrace || tok == 0) (pure cs) _
          (Keeps-pure program (suc g) cs)
          (Eats-Keeps program (suc g) _ (
            Eats-first program g (compile_case stmts n cs) _ (Advances-case g cs (omega arith))
              (λ cs'. Runs-cases r g cs' (omega arith) (omega arith))))

  Runs-inline : (g : ℕ) → g ≤ f → Runs g (inline_dispatch stmts n)
  unfolding inline_dispatch
  Runs-inline g le =
      let cases : (cs : Cases) → Runs g (compile_cases stmts n n cs) =
        λ cs. Runs-cases n g cs (omega arith) le in
      search (block_rules, Runs-emit_table, cases) depth 40

  Advances-entry : (g : ℕ) → suc g ≤ f → Advances (suc g) (dispatch_entry stmts n)
  unfolding dispatch_entry
  Advances-entry g le =
      let entry = Runs-entry n g (omega arith) in
      Advances-next g _ (λ t ne. search (block_rules, Runs-forward) depth 40)
        (Eats-firstly program (suc g) _ _ (Takes-raise program 1 (suc g) function_name_expected)
          (λ _.
            let entry' = Runs-entry n (suc g) (omega arith) in
            search (block_rules, Runs-forward) depth 40))

  Runs-entries : (r g count : ℕ) → g ≤ r → g ≤ f → Runs g (dispatch_entries stmts n r count)
  unfolding dispatch_entries
  Runs-entries r zero count le le' = Takes-zero program 0 (dispatch_entries stmts n r count)
  Runs-entries zero (suc g) count le le' = absurd (omega arith)
  Runs-entries (suc r) (suc g) count le le' =
      Keeps-bind program (suc g) (next_entry n) _ (Runs-entry n (suc g) (omega arith)) λ tok.
        Takes-if program 0 (suc g) (tok == tok_rbrace || tok == 0) (pure count) _
          (Keeps-pure program (suc g) count)
          (Eats-Keeps program (suc g) _ (
            Eats-first program g (dispatch_entry stmts n) _ (Advances-entry g le')
              (λ _. Runs-entries r g (u8 (count + 1)) (omega arith) (omega arith))))

  Runs-function : (g : ℕ) → g ≤ f → Runs g (function_dispatch stmts n)
  unfolding function_dispatch
  Runs-function g le =
      let entries : (count : ℕ) → Runs g (dispatch_entries stmts n n count) =
        λ count. Runs-entries n g count (omega arith) le in
      search (block_rules, entries) depth 40

  pub Runs-dispatch :
      (expr : ℕ → M ℕ)
      → ((g t : ℕ) → Runs g (expr t))
      → (g : ℕ) → g ≤ f
      → Runs g (compile_dispatch stmts n expr)
  unfolding compile_dispatch
  Runs-dispatch expr expr-Runs g le =
      let entry = Runs-entry n g (omega arith) in
      let inline = Runs-inline g le in
      let function = Runs-function g le in search (block_rules, expr-Runs) depth 40

-- ===== src/Compiler/Taken/Program.antt =====
-- The compilation of a program ends, whatever the program is.
use nanoc.Base.{
  ℕ, zero, suc, ◌<◌, ◌≤◌, ◌≡◌, refl, Bool, true, false, ◌||◌, ◌==◌, if◌then◌else◌, arith,
}
use nanoc.Vm.Opcode.{Opcode}
use nanoc.Compiler.State.{
  Comp, Result, M, ok, raised, fault, out_of_fuel, continue, ◌>>=◌, ◌>>◌, pure, skip, when,
  syntax_error,
}
use nanoc.Compiler.Tokens.{
  tok_for, tok_if, tok_func, tok_while, tok_dispatch, tok_semicolon, tok_nc_int32, tok_str8,
  tok_ret, tok_id, tok_label, tok_strid, tok_arr, tok_printf, tok_nc_const, tok_end, tok_xfunc,
  tok_break, tok_breakpoint, tok_reti, tok_copy, tok_u8, tok_u16, tok_u32, tok_str2arr, tok_free,
}
use nanoc.Compiler.Lexer.{next, get_line, block_end}
use nanoc.Compiler.Emit.{compile_end}
use nanoc.Compiler.Block.{compile_line, compile_for, compile_while, compile_if}
use nanoc.Compiler.Function.{compile_func}
use nanoc.Compiler.Dispatch.{compile_dispatch}
use nanoc.Compiler.Program.{
  expression, simple_stmt, compile_stmt, check_code_size, skip_semicolon, compile_stmts,
  compile_round, compile_lines,
}
use nanoc.Compiler.Contract.{
  Sound, Sound-weaken, Sound-trans, Eats-Keeps, Takes-less, Takes-zero, Keeps-bind, Eats-first,
  Takes-if, Keeps-pure, Takes-raise,
}
use nanoc.Compiler.Whole.{Fit, total, program, Runs, Advances, program_rules, from_line, Runs-emit}
use nanoc.Compiler.Taken.Lines.{Runs-next, Advances-next, Runs-ahead, next-Ahead, Since-next}
use nanoc.Compiler.Taken.Tokens.{Ahead}
use nanoc.Compiler.Taken.NextLine.{Got-line, Got, get_line-Got}
use nanoc.Compiler.Taken.Expr.{compile_expression-Eats}
use nanoc.Compiler.Taken.Stmt.{
  Runs-break, Runs-breakpoint, Runs-reti, Runs-free, Runs-const, Runs-var, Runs-str8_var,
  Runs-int32_decl, Runs-arr_access, Runs-return, Runs-printf, Runs-copy, Runs-str2arr, Runs-set,
  Runs-xfunc_stmt,
}
use nanoc.Compiler.Taken.Block.{Runs-line, Runs-for, Runs-while, Runs-if, Runs-func}
use nanoc.Compiler.Taken.Dispatch.{Runs-dispatch}

Advances-expression : (g t : ℕ) → Advances g (expression t)
Advances-expression g t = from_line 1 g (expression t) (compile_expression-Eats 128 t)

Runs-expression : (g t : ℕ) → Runs g (expression t)
Runs-expression g t = Eats-Keeps program g (expression t) (Advances-expression g t)

branch : (g : ℕ) (b : Bool) (m n : M (Unit {0})) → Runs g m → Runs g n → Runs g (if b then m else n)
branch g = Takes-if program 0 g

Runs-simple : (g tok : ℕ) → Runs g (simple_stmt tok)
unfolding simple_stmt compile_end
Runs-simple g tok =
    let eats = compile_expression-Eats 128 in
    let var = Runs-var g expression eats in
    let put = Runs-set g expression eats in
    branch g (tok == tok_nc_int32) _ _ (Runs-int32_decl g expression eats) (
      branch g (tok == tok_str8) _ _ (Runs-str8_var g expression eats) (
        branch g (tok == tok_ret) _ _ (Runs-return g expression eats) (
          branch g (tok == tok_id) _ _ (var tok_id) (
            branch g (tok == tok_label) _ _ (var tok_id) (
              branch g (tok == tok_strid) _ _ (var tok_strid) (
                branch g (tok == tok_arr) _ _ (Runs-arr_access g expression eats) (
                  branch g (tok == tok_printf) _ _ (Runs-printf g expression eats) (
                    branch g (tok == tok_nc_const) _ _ (Runs-const g) (
                      branch g (tok == tok_end) _ _ (Runs-emit g _) (
                        branch g (tok == tok_xfunc) _ _ (Runs-xfunc_stmt g expression eats) (
                          branch g (tok == tok_break) _ _ (Runs-break g) (
                            branch g (tok == tok_breakpoint) _ _ (Runs-breakpoint g) (
                              branch g (tok == tok_reti) _ _ (Runs-reti g) (
                                branch g (tok == tok_copy) _ _ (Runs-copy g expression eats) (
                                  branch g (tok == tok_u8) _ _
                                    (put Opcode.set_arr_1byte Opcode.set_arr_1byte_s)
                                    (branch g (tok == tok_u16) _ _
                                      (put Opcode.set_arr_2byte Opcode.set_arr_2byte_s)
                                      (branch g (tok == tok_u32) _ _
                                        (put Opcode.set_arr_4byte Opcode.set_arr_4byte_s)
                                        (branch g (tok == tok_str2arr) _ _
                                          (Runs-str2arr g expression eats)
                                          (branch g (tok == tok_free) _ _ (Runs-free g) (
                                            branch g (tok == b':') _ _ (Keeps-pure program g tt) (
                                              Takes-raise program 0 g
                                                syntax_error)))))))))))))))))))))

module _ (stmts : M (Unit {0})) (f : ℕ) (stmts-Runs : Runs f stmts) where
  Advances-stmt : Advances (suc f) (compile_stmt stmts f)
  unfolding compile_stmt simple_stmt
  Advances-stmt =
      let loop : Runs f (compile_for stmts expression f) =
        Runs-for stmts f stmts-Runs expression Advances-expression f f (omega arith)
          (omega arith) in
      let while : Runs f (compile_while stmts expression f) =
        Runs-while stmts f stmts-Runs expression Advances-expression f f (omega arith)
          (omega arith) in
      let branch_if : Runs f (compile_if stmts expression f) =
        Runs-if stmts f stmts-Runs expression Advances-expression f f (omega arith) (omega arith) in
      let func : Runs f (compile_func stmts f) =
        Runs-func stmts f stmts-Runs f f (omega arith) (omega arith) in
      let table : Runs f (compile_dispatch stmts f expression) =
        Runs-dispatch stmts f stmts-Runs f (omega arith) expression Runs-expression f
          (omega arith) in
      Advances-next f _
        (λ t ne. branch f (t == tok_for) _ _ loop (
          branch f (t == tok_if) _ _ branch_if (
            branch f (t == tok_func) _ _ func (
              branch f (t == tok_while) _ _ while
                (branch f (t == tok_dispatch) _ _ table (Runs-simple f t))))))
        (Takes-raise program 1 (suc f) syntax_error)

Runs-check_code_size : (g : ℕ) → Runs g check_code_size
unfolding check_code_size
Runs-check_code_size g = search program_rules depth 8

Runs-semicolon : (g : ℕ) → Runs g skip_semicolon
unfolding skip_semicolon
Runs-semicolon g = search (program_rules, Runs-next) depth 8

Sound-branch :
    (b : Bool) (m n : M (Unit {0})) (c : Comp)
    → (b ≡ true → Sound program 0 c (m c))
    → (b ≡ false → Sound program 0 c (n c))
    → Sound program 0 c ((if b then m else n) c)
Sound-branch true m n c h k = h refl
Sound-branch false m n c h k = k refl

after_semicolon :
    (g : ℕ) (m : M (Unit {0}))
    → Runs g m
    → (c : Comp) → Fit c
    → total c < suc g
    → Ahead c
    → Sound program 0 c ((next >>= λ _. m) c)
unfolding ◌>>=◌
after_semicolon g m h c fit lt a =
    let c' = record c { pos = c.next_pos } in
    let s = Since-next c fit a in
    let le = s.shorter in
    rw (next-Ahead c a) (
      Sound-weaken program 1 c (m c')
        (Sound-trans program 1 0 c c' (m c') s (h.at c' s.fit (omega arith))))

pub Runs-stmts : (n g : ℕ) → g ≤ n → Runs g (compile_stmts n)
unfolding compile_stmts
Runs-stmts n zero le = Takes-zero program 0 (compile_stmts n)
Runs-stmts zero (suc g) le = absurd (omega arith)
Runs-stmts (suc n) (suc g) le =
    let rest = Runs-stmts n g (omega arith) in
    let statement =
      Takes-less program 1 (suc n) (suc g) _ le
        (Advances-stmt (compile_stmts n) n (Runs-stmts n n (omega arith))) in
    let after : Runs g (skip_semicolon >> (check_code_size >> compile_stmts n)) =
      Keeps-bind program g skip_semicolon _ (Runs-semicolon g)
        (λ _. Keeps-bind program g check_code_size _ (Runs-check_code_size g) (λ _. rest)) in
    let block =
      Eats-Keeps program (suc g) _
        (Eats-first program g (compile_stmt (compile_stmts n) n) _ statement (λ _. after)) in
    Runs-ahead (suc g) _ λ t c fit lt e ahead.
      Sound-branch (t == 0 || block_end t) skip _ c
        (λ _. (Keeps-pure program (suc g) tt).at c fit lt)
        (λ _.
          Sound-branch (t == tok_semicolon) _ _ c
            (λ s. after_semicolon g (compile_stmts n) rest c fit lt (ahead (λ z. ground arith)))
            (λ _. block.at c fit lt))

-- A round of `nc_compile` takes a line, also if it ends with an error.
after_get_line :
    (n : ℕ) (c : Comp) (r : Result Bool)
    → total c < suc n
    → Got c r
    → Got c (continue r (λ got. when got (compile_line (compile_stmts n)) >> pure got))
unfolding ◌>>=◌ pure
after_get_line n c (ok true c') lt h =
    let le = h.shorter in
    let body = Runs-line (compile_stmts n) n (Runs-stmts n n (omega arith)) n (omega arith) in
    Got-line c c' (compile_line (compile_stmts n) c') h (body.at c' h.fit (omega arith))
after_get_line n c (ok false c') lt h = h
after_get_line n c (raised c') lt h = h
after_get_line n c fault lt h = tt
after_get_line n c out_of_fuel lt h = h

pub round-Got : (n : ℕ) (c : Comp) → Fit c → total c < suc n → Got c (compile_round n c)
unfolding compile_round ◌>>=◌
round-Got n c h lt = after_get_line n c (get_line c) lt (get_line-Got c h)

-- The rounds have ended, or C leaves an access undefined.
abbrev pub Passed : Result (Unit {0}) → Type 0
Passed (ok u c) = Fit c
Passed (raised c) = ⊥
Passed fault = Unit {0}
Passed out_of_fuel = ⊥

module _ (n : ℕ) (rest : (c : Comp) → Fit c → total c < n → Passed (compile_lines n c)) where
  after_round :
      (c : Comp) (r : Result Bool)
      → total c < suc n
      → Got c r
      → Passed (elim r [
        | ok got c' ↦ if got then compile_lines n c' else ok tt c'
        | raised c' ↦ compile_lines n c'
        | fault ↦ fault
        | out_of_fuel ↦ out_of_fuel
      ])
  after_round c (ok true c') lt h = let le = h.shorter in rest c' h.fit (omega arith)
  after_round c (ok false c') lt h = h.fit
  after_round c (raised c') lt h = let le = h.shorter in rest c' h.fit (omega arith)
  after_round c fault lt h = tt
  after_round c out_of_fuel lt h = h

pub compile_lines-Passed : (n : ℕ) (c : Comp) → Fit c → total c < n → Passed (compile_lines n c)
unfolding compile_lines
compile_lines-Passed zero c h lt = absurd (omega arith)
compile_lines-Passed (suc n) c h lt =
    after_round n (compile_lines-Passed n) c (compile_round n c) lt (round-Got n c h lt)

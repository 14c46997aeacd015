-- ===== src/Compiler/Taken/Block.antt =====
-- Blocks, loops, branches and functions do not run out of fuel. The statements of a block are a
-- parameter that is good for the fuel `f`.
use nanoc.Base.{
  ℕ, zero, suc, ◌≤◌, ◌≡◌, false, not, ◌&&◌, Option, none, some, List, [], ◌∷◌, ◌==◌, arith,
}
use nanoc.Compiler.State.{Comp, M, ok, fault, skip}
use nanoc.Compiler.Tokens.{tok_id, tok_nc_int32, tok_str8, tok_strid}
use nanoc.Compiler.Symbols.{sym_add_local, add_local}
use nanoc.Compiler.Lexer.{lookahead, lookfurther, match, label, block_end, first_char}
use nanoc.Compiler.Emit.{patch_all, patch_breaks}
use nanoc.Compiler.Block.{
  compile_line, block_lines, block_body, loop_variable, compile_for, compile_while, compile_if,
}
use nanoc.Compiler.Function.{
  shadow, parameter, parameters, pop_parameters, declare_function, function_body, compile_func,
}
use nanoc.Compiler.Contract.{
  Sound, Eats-Keeps, Takes-less, Takes-zero, Keeps-bind, Eats-first, Takes-if, Keeps-pure,
  Takes-guard, Keeps-gets,
}
use nanoc.Compiler.Whole.{
  Fit, Since-refl, program, Runs, Advances, program_rules, from_line, Runs-lookahead, Runs-match,
}
use nanoc.Compiler.Taken.Lines.{Runs-next}
use nanoc.Compiler.Taken.NextLine.{Runs-get_line}

looked_further :
    (c : Comp) (p : Option (List ℕ))
    → Fit c
    → Sound program 0 c (elim p [ none ↦ fault | some s ↦ ok (first_char s) c ])
looked_further c none h = tt
looked_further c (some s) h = Since-refl c h

module _ (f : ℕ) where
  pub Runs-lookfurther : Runs f lookfurther
  unfolding lookfurther
  Runs-lookfurther = record { at = λ c h lt. looked_further c c.next_pos h }

  pub Runs-label : Runs f label
  unfolding label
  Runs-label = search program_rules depth 14

  Runs-add_local : (id : List ℕ) (type : ℕ) (o : Option ℕ) → Runs f (add_local id type o)
  unfolding add_local
  Runs-add_local id type none = search program_rules
  Runs-add_local id type (some i) = search program_rules

  pub Runs-sym_add_local : (id : List ℕ) (type : ℕ) → Runs f (sym_add_local id type)
  unfolding sym_add_local
  Runs-sym_add_local id type = search (program_rules, Runs-add_local)

  pub Runs-patch_all : (target : ℕ) (ps : List ℕ) → Runs f (patch_all target ps)
  unfolding patch_all
  Runs-patch_all target [] = search program_rules
  Runs-patch_all target (p ∷ ps) =
      let rest = Runs-patch_all target ps in search program_rules depth 8

  pub Runs-patch_breaks : (first_break : ℕ) → Runs f (patch_breaks first_break)
  unfolding patch_breaks
  Runs-patch_breaks first_break = search (program_rules, Runs-patch_all) depth 8

pub ruleset block_rules = (
  program_rules, Runs-lookfurther, Runs-label, Runs-sym_add_local, Runs-patch_all,
  Runs-patch_breaks, Runs-next,
)

-- The tokens that a parameter may start with, and its name.
type_nonzero : (t : ℕ) → (not (t == tok_nc_int32) && not (t == tok_str8)) ≡ false → (t == 0) ≡ false
type_nonzero zero h = absurd (cc)
type_nonzero (suc n) h = ground arith

name_nonzero : (t : ℕ) → (not (t == tok_id) && not (t == tok_strid)) ≡ false → (t == 0) ≡ false
name_nonzero zero h = absurd (cc)
name_nonzero (suc n) h = ground arith

module _ (stmts : M (Unit {0})) (f : ℕ) (stmts-Runs : Runs f stmts) where
  Runs-stmts : (g : ℕ) → g ≤ f → Runs g stmts
  Runs-stmts g le = Takes-less program 0 f g stmts le stmts-Runs

  pub Runs-line : (g : ℕ) → g ≤ f → Runs g (compile_line stmts)
  unfolding compile_line
  Runs-line g le = let body = Runs-stmts g le in search block_rules depth 20

  Runs-block_lines : (n g : ℕ) → g ≤ n → g ≤ f → Runs g (block_lines stmts n)
  unfolding block_lines
  Runs-block_lines n zero le le' = Takes-zero program 0 (block_lines stmts n)
  Runs-block_lines zero (suc g) le le' = absurd (omega arith)
  Runs-block_lines (suc n) (suc g) le le' =
      let line = Runs-line g (omega arith) in
      let rest = Runs-block_lines n g (omega arith) (omega arith) in
      Keeps-bind program (suc g) lookahead _ (Runs-lookahead (suc g)) λ tok.
        Takes-if program 0 (suc g) (not (block_end tok)) _ skip
          (Runs-get_line g _ (Keeps-bind program g _ _ line (λ _. rest))
            (Keeps-pure program (suc g) tt))
          (Keeps-pure program (suc g) tt)

  pub Runs-block_body : (n g : ℕ) → g ≤ n → g ≤ f → Runs g (block_body stmts n)
  unfolding block_body
  Runs-block_body n g le le' =
      let body = Runs-stmts g le' in
      let lines = Runs-block_lines n g le le' in search block_rules depth 8

  Runs-shadow : (g vars : ℕ) → Runs g (shadow stmts vars)
  unfolding shadow
  Runs-shadow g vars = search block_rules depth 14

  Runs-parameter : (g tok : ℕ) → Runs g (parameter stmts tok)
  unfolding parameter
  Runs-parameter g tok = Takes-guard program 0 g _ _ _ λ h.
      let ne = type_nonzero tok h in
      Keeps-bind program g _ _ (Keeps-gets program g _) λ vars.
        Keeps-bind program g (match tok) _ (Runs-match g tok ne) λ _.
          Keeps-bind program g lookahead _ (Runs-lookahead g) λ bracket.
            Keeps-bind program g _ _ (search block_rules depth 8) λ _.
              Keeps-bind program g lookahead _ (Runs-lookahead g) λ name.
                Takes-guard program 0 g _ _ _ λ h'.
                  let ne' = name_nonzero name h' in
                  Keeps-bind program g (match name) _ (Runs-match g name ne')
                    λ _. search (block_rules, Runs-shadow) depth 30

  Runs-parameters : (g n : ℕ) (is : List ℕ) → Runs g (parameters stmts n is)
  unfolding parameters
  Runs-parameters g zero is = search block_rules
  Runs-parameters g (suc n) is =
      let rest : (js : List ℕ) → Runs g (parameters stmts n js) = Runs-parameters g n in
      search (block_rules, Runs-parameter) depth 14

  Runs-pop_parameters : (g : ℕ) (is : List ℕ) → Runs g (pop_parameters stmts is)
  unfolding pop_parameters
  Runs-pop_parameters g [] = search block_rules
  Runs-pop_parameters g (i ∷ is) =
      let rest = Runs-pop_parameters g is in search block_rules depth 14

  Runs-declare_function : (g type : ℕ) → Runs g (declare_function stmts type)
  unfolding declare_function
  Runs-declare_function g type = search block_rules depth 20

  Runs-function_body : (n g pos type : ℕ) → g ≤ n → g ≤ f → Runs g (function_body stmts n pos type)
  unfolding function_body
  Runs-function_body n g pos type le le' =
      let body = Runs-block_body n g le le' in search block_rules depth 30

  pub Runs-func : (n g : ℕ) → g ≤ n → g ≤ f → Runs g (compile_func stmts n)
  unfolding compile_func
  Runs-func n g le le' =
      let body : (pos type : ℕ) → Runs g (function_body stmts n pos type) =
        λ pos type. Runs-function_body n g pos type le le' in
      search (block_rules, Runs-declare_function, Runs-parameters, Runs-pop_parameters, body) depth
        60 fits 5000

  module _ (expr : ℕ → M ℕ) (expr-Advances : (g t : ℕ) → Advances g (expr t)) where
    Runs-expr : (g t : ℕ) → Runs g (expr t)
    Runs-expr g t = Eats-Keeps program g (expr t) (expr-Advances g t)

    Runs-loop_variable : (g : ℕ) → Runs g (loop_variable stmts expr)
    unfolding loop_variable
    Runs-loop_variable g = search block_rules depth 20

    pub Runs-for : (n g : ℕ) → g ≤ n → g ≤ f → Runs g (compile_for stmts expr n)
    unfolding compile_for
    Runs-for n g le le' =
        let body = Runs-block_body n g le le' in
        search (block_rules, Runs-expr, Runs-loop_variable) depth 60 fits 5000

    pub Runs-while : (n g : ℕ) → g ≤ n → g ≤ f → Runs g (compile_while stmts expr n)
    unfolding compile_while
    Runs-while n g le le' =
        let body = Runs-block_body n g le le' in search (block_rules, Runs-expr) depth 40

    pub Runs-if : (n g : ℕ) → g ≤ n → g ≤ f → Runs g (compile_if stmts expr n)
    unfolding compile_if
    Runs-if n zero le le' = Takes-zero program 0 (compile_if stmts expr n)
    Runs-if zero (suc g) le le' = absurd (omega arith)
    Runs-if (suc n) (suc g) le le' =
        let body = Runs-block_body n g (omega arith) (omega arith) in
        let nested = Runs-if n g (omega arith) (omega arith) in
        Eats-Keeps program (suc g) _ (
          Eats-first program g (expr _) _ (expr-Advances (suc g) _)
            (λ _. search block_rules depth 40))

-- ===== src/Compiler/Taken/Expr.antt =====
-- The levels of an expression take a token at least; `compile_expression` does not run out of fuel.
use nanoc.Base.{ℕ, zero, suc, ◌≤◌, ◌≡◌, refl, Bool, true, false, ◌==◌, arith}
use nanoc.Vm.Opcode.{Opcode}
use nanoc.Compiler.State.{M, pure}
use nanoc.Compiler.Tokens.{tok_not}
use nanoc.Compiler.Lexer.{lookahead, match}
use nanoc.Compiler.Expr.{
  binary_loop, level, on_numbers, is_mul_op, mul_opcode, is_add_op, finish_add, is_shift_op,
  is_comp_op, finish_comp, check_type, compile_neg_factor, compile_term, compile_add_expr,
  compile_shift_expr, compile_bin_and_expr, compile_bin_xor_expr, compile_bin_or_expr,
  compile_comp_expr, compile_not_expr, compile_and_expr, compile_or_expr, compile_expression,
}
use nanoc.Compiler.Contract.{
  Keeps-bind, Eats-first, Eats-later, Eats-Keeps, Takes-less, Takes-zero, Takes-if, Takes-branch,
  Eats-firstly, Keeps-pure,
}
use nanoc.Compiler.Takes.{line, Keeps, Eats, takes_rules}
use nanoc.Compiler.Taken.Tokens.{Keeps-lookahead, Eats-match}
use nanoc.Compiler.Taken.Factor.{compile_factor-Eats}

-- The end of the line is no operator.
abbrev NoEnd : (ℕ → Bool) → Type 0
NoEnd is_op = is_op 0 ≡ false

on_numbers-Keeps : (f : ℕ) (o : Opcode) (t u : ℕ) → Keeps f (on_numbers o t u)
unfolding on_numbers
on_numbers-Keeps f o t u = search takes_rules depth 8

finish_add-Keeps : (f op t u : ℕ) → Keeps f (finish_add op t u)
unfolding finish_add
finish_add-Keeps f op t u = search takes_rules depth 8

finish_comp-Keeps : (f op t u : ℕ) → Keeps f (finish_comp op t u)
unfolding finish_comp
finish_comp-Keeps f op t u = search takes_rules depth 8

check_type-Keeps : (f wanted type : ℕ) → Keeps f (check_type wanted type)
unfolding check_type
check_type-Keeps f wanted type = search takes_rules depth 8

operator_nonzero : (is_op : ℕ → Bool) (op : ℕ) → NoEnd is_op → is_op op ≡ true → (op == 0) ≡ false
operator_nonzero is_op zero h e = absurd (cc)
operator_nonzero is_op (suc n) h e = ground arith

module _ (is_op : ℕ → Bool) (finish : ℕ → ℕ → ℕ → M ℕ) (no_end : NoEnd is_op)
    (finish-Keeps : (f op t u : ℕ) → Keeps f (finish op t u)) (f : ℕ) (operand : M ℕ)
    (operand-Eats : Eats f operand) where
  binary_loop-Keeps :
      (n g type : ℕ) → g ≤ n → g ≤ f → Keeps g (binary_loop is_op operand finish n type)
  unfolding binary_loop
  binary_loop-Keeps n zero type le le' = Takes-zero line 0 (binary_loop is_op operand finish n type)
  binary_loop-Keeps zero (suc g) type le le' = absurd (omega arith)
  binary_loop-Keeps (suc n) (suc g) type le le' =
      let operand-Keeps =
        Eats-Keeps line g operand (Takes-less line 1 f g operand (omega arith) operand-Eats) in
      let rest : (t : ℕ) → Keeps g (binary_loop is_op operand finish n t) =
        λ t. binary_loop-Keeps n g t (omega arith) (omega arith) in
      Keeps-bind line (suc g) lookahead _ (Keeps-lookahead (suc g)) λ op.
        Takes-branch line 0 (suc g) (is_op op) _ (pure type)
          (λ e. Eats-Keeps line (suc g) _ (
            Eats-first line g (match op) _
              (Eats-match (suc g) op (operator_nonzero is_op op no_end e))
              (λ _.
                Keeps-bind line g operand _ operand-Keeps
                  (λ u. Keeps-bind line g (finish op type u) _ (finish-Keeps g op type u) rest))))
          (λ _. Keeps-pure line (suc g) type)

  level-Eats : (n : ℕ) → f ≤ n → Eats f (level is_op finish n operand)
  unfolding level
  level-Eats n le =
      Eats-firstly line f operand _ operand-Eats
        (λ type. binary_loop-Keeps n f type le (omega arith))

module _ (expr : ℕ → M ℕ) (f : ℕ) (expr-Eats : (t : ℕ) → Eats f (expr t)) where
  neg_factor-Eats : Eats (suc f) (compile_neg_factor expr (suc f))
  unfolding compile_neg_factor
  neg_factor-Eats =
      let factor = compile_factor-Eats expr f expr-Eats (suc f) (omega arith) in
      let factor-Keeps =
        Takes-less line 0 (suc f) f _ (omega arith) (Eats-Keeps line (suc f) _ factor) in
      Eats-later line (suc f) lookahead _ (Keeps-lookahead (suc f)) λ tok.
        Takes-if line 1 (suc f) (tok == b'-') _ _
          (Eats-first line f (match b'-') _ (Eats-match (suc f) b'-' refl)
            (λ _. Keeps-bind line f _ _ factor-Keeps (λ type. search takes_rules)))
          factor

  term-Eats : Eats (suc f) (compile_term expr (suc f))
  unfolding compile_term
  term-Eats =
      level-Eats is_mul_op _ refl (λ g op. on_numbers-Keeps g (mul_opcode op)) (suc f) _
        neg_factor-Eats (suc f) (omega arith)

  add_expr-Eats : Eats (suc f) (compile_add_expr expr (suc f))
  unfolding compile_add_expr
  add_expr-Eats =
      level-Eats is_add_op _ refl finish_add-Keeps (suc f) _ term-Eats (suc f) (omega arith)

  shift_expr-Eats : Eats (suc f) (compile_shift_expr expr (suc f))
  unfolding compile_shift_expr
  shift_expr-Eats =
      level-Eats is_shift_op _ refl (λ g op. on_numbers-Keeps g _) (suc f) _ add_expr-Eats (suc f)
        (omega arith)

  bin_and_expr-Eats : Eats (suc f) (compile_bin_and_expr expr (suc f))
  unfolding compile_bin_and_expr
  bin_and_expr-Eats =
      level-Eats _ _ refl (λ g op. on_numbers-Keeps g _) (suc f) _ shift_expr-Eats (suc f)
        (omega arith)

  bin_xor_expr-Eats : Eats (suc f) (compile_bin_xor_expr expr (suc f))
  unfolding compile_bin_xor_expr
  bin_xor_expr-Eats =
      level-Eats _ _ refl (λ g op. on_numbers-Keeps g _) (suc f) _ bin_and_expr-Eats (suc f)
        (omega arith)

  bin_or_expr-Eats : Eats (suc f) (compile_bin_or_expr expr (suc f))
  unfolding compile_bin_or_expr
  bin_or_expr-Eats =
      level-Eats _ _ refl (λ g op. on_numbers-Keeps g _) (suc f) _ bin_xor_expr-Eats (suc f)
        (omega arith)

  comp_expr-Eats : Eats (suc f) (compile_comp_expr expr (suc f))
  unfolding compile_comp_expr
  comp_expr-Eats =
      level-Eats is_comp_op _ refl finish_comp-Keeps (suc f) _ bin_or_expr-Eats (suc f)
        (omega arith)

  not_expr-Eats : Eats (suc f) (compile_not_expr expr (suc f))
  unfolding compile_not_expr
  not_expr-Eats =
      let comp_expr-Keeps =
        Takes-less line 0 (suc f) f _ (omega arith) (Eats-Keeps line (suc f) _ comp_expr-Eats) in
      Eats-later line (suc f) lookahead _ (Keeps-lookahead (suc f)) λ tok.
        Takes-if line 1 (suc f) (tok == tok_not) _ _
          (Eats-first line f (match tok_not) _ (Eats-match (suc f) tok_not refl)
            (λ _. Keeps-bind line f _ _ comp_expr-Keeps (λ type. search takes_rules depth 8)))
          comp_expr-Eats

  and_expr-Eats : Eats (suc f) (compile_and_expr expr (suc f))
  unfolding compile_and_expr
  and_expr-Eats =
      level-Eats _ _ refl (λ g op. on_numbers-Keeps g _) (suc f) _ not_expr-Eats (suc f)
        (omega arith)

  or_expr-Eats : Eats (suc f) (compile_or_expr expr (suc f))
  unfolding compile_or_expr
  or_expr-Eats =
      level-Eats _ _ refl (λ g op. on_numbers-Keeps g _) (suc f) _ and_expr-Eats (suc f)
        (omega arith)

pub compile_expression-Eats : (f wanted : ℕ) → Eats f (compile_expression f wanted)
unfolding compile_expression
compile_expression-Eats zero wanted = Takes-zero line 1 (compile_expression 0 wanted)
compile_expression-Eats (suc f) wanted =
    Eats-firstly line (suc f) _ _
      (or_expr-Eats (compile_expression f) f (compile_expression-Eats f))
      (λ type. search (takes_rules, check_type-Keeps))

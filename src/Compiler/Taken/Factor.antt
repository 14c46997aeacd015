-- ===== src/Compiler/Taken/Factor.antt =====
-- `compile_factor` takes a token at least. The compiler of an inner expression is a parameter that
-- does so with the fuel `f`; the factor has one more.
use nanoc.Base.{ℕ, zero, suc, ◌≤◌, ◌≡◌, Bool, false, Option, none, some, List, [], ◌∷◌, ◌==◌, arith}
use nanoc.Vm.Opcode.{Opcode}
use nanoc.Compiler.State.{Symbol, XFunc, M, pure, emit, emit_text}
use nanoc.Compiler.Symbols.{value_found, sym_get}
use nanoc.Compiler.Emit.{push_number, emit32, add_default_params, forward_declaration}
use nanoc.Compiler.Lexer.{lookahead, match}
use nanoc.Compiler.Factor.{
  compile_string, call1, call2, call3, factor_paren, factor_const, factor_number, factor_variable,
  factor_array, factor_param, factor_string, factor_string_variable, factor_call, factor_xfunc,
  factor_null, factor_function, factor_access, factor_at, compile_factor,
}
use nanoc.Compiler.Call.{
  emit_call, check_count, xfunc_found, xfunc_at, arguments, compile_func_call, xfunc_args,
  compile_xfunc, compile_get,
}
use nanoc.Compiler.Contract.{Keeps-bind, Eats-later, Eats-Keeps, Takes-less, Takes-zero, Takes-if}
use nanoc.Compiler.Takes.{line, Keeps, Eats, takes_rules, Keeps-emit}
use nanoc.Compiler.Taken.Tokens.{Keeps-lookahead, Eats-match}

module _ (f : ℕ) where
  pub Keeps-match : (t : ℕ) → (t == 0) ≡ false → Keeps f (match t)
  Keeps-match t ne = Eats-Keeps line f (match t) (Eats-match f t ne)

  pub emit_text-Keeps : (s : List ℕ) → Keeps f (emit_text s)
  unfolding emit_text
  emit_text-Keeps [] = search takes_rules
  emit_text-Keeps (b ∷ s) =
      Keeps-bind line f (emit b) (λ _. emit_text s) (Keeps-emit f b) (λ _. emit_text-Keeps s)

  pub push_number-Keeps : (v : ℕ) → Keeps f (push_number v)
  unfolding push_number emit32
  push_number-Keeps v = search takes_rules depth 14

  pub add_default_params-Keeps : (n : ℕ) → Keeps f (add_default_params n)
  unfolding add_default_params
  add_default_params-Keeps zero = search takes_rules
  add_default_params-Keeps (suc n) =
      let rest = add_default_params-Keeps n in search takes_rules depth 14

  pub forward_declaration-Keeps : (idx pos : ℕ) → Keeps f (forward_declaration idx pos)
  unfolding forward_declaration
  forward_declaration-Keeps idx pos = search takes_rules

  pub compile_string-Keeps : Keeps f compile_string
  unfolding compile_string
  compile_string-Keeps = search (takes_rules, emit_text-Keeps) depth 14

  pub emit_call-Keeps :
      (idx : ℕ) (s : Symbol) (want_value : Bool) → Keeps f (emit_call idx s want_value)
  unfolding emit_call
  emit_call-Keeps idx s want_value = search (takes_rules, forward_declaration-Keeps) depth 14

  pub check_count-Keeps : (idx count : ℕ) → Keeps f (check_count idx count)
  unfolding check_count
  check_count-Keeps idx count = search takes_rules

  value_found-Keeps : (o : Option ℕ) → Keeps f (value_found o)
  unfolding value_found
  value_found-Keeps none = search takes_rules
  value_found-Keeps (some v) = search takes_rules

  pub sym_get-Keeps : (id : List ℕ) → Keeps f (sym_get id)
  unfolding sym_get
  sym_get-Keeps id = search (takes_rules, value_found-Keeps)

  xfunc_found-Keeps : (x : Option XFunc) → Keeps f (xfunc_found x)
  unfolding xfunc_found
  xfunc_found-Keeps none = search takes_rules
  xfunc_found-Keeps (some g) = search takes_rules

  pub xfunc_at-Keeps : (idx : ℕ) → Keeps f (xfunc_at idx)
  unfolding xfunc_at
  xfunc_at-Keeps idx = search (takes_rules, xfunc_found-Keeps)

  pub ruleset factor_rules = (
    takes_rules, Keeps-lookahead, Keeps-match, Eats-match, push_number-Keeps,
    add_default_params-Keeps, compile_string-Keeps, emit_call-Keeps, check_count-Keeps,
    sym_get-Keeps, xfunc_at-Keeps,
  )

module _ (expr : ℕ → M ℕ) (f : ℕ) (expr-Eats : (t : ℕ) → Eats f (expr t)) where
  expr-Keeps : (t : ℕ) → Keeps f (expr t)
  expr-Keeps t = Eats-Keeps line f (expr t) (expr-Eats t)

  arguments-Keeps : (n g tok count : ℕ) → g ≤ n → g ≤ f → Keeps g (arguments expr n tok count)
  unfolding arguments
  arguments-Keeps n zero tok count le le' = Takes-zero line 0 (arguments expr n tok count)
  arguments-Keeps zero (suc g) tok count le le' = absurd (omega arith)
  arguments-Keeps (suc n) (suc g) tok count le le' =
      let first : (t : ℕ) → Eats (suc g) (expr t) =
        λ t. Takes-less line 1 f (suc g) (expr t) le' (expr-Eats t) in
      let rest : (tok count : ℕ) → Keeps g (arguments expr n tok count) =
        λ tok count. arguments-Keeps n g tok count (omega arith) (omega arith) in
      Takes-if line 0 (suc g) (tok == b')') (pure count) _ (search takes_rules)
        (Eats-Keeps line (suc g) _ (search (factor_rules, first, rest) depth 20))

  call1-Eats :
      (tok t₁ : ℕ) (op : Opcode) (type : ℕ)
      → (tok == 0) ≡ false
      → Eats (suc f) (call1 expr tok t₁ op type)
  unfolding call1
  call1-Eats tok t₁ op type ne = search (factor_rules, expr-Keeps) depth 14

  call2-Eats :
      (tok t₁ t₂ : ℕ) (op : Opcode) (type : ℕ)
      → (tok == 0) ≡ false
      → Eats (suc f) (call2 expr tok t₁ t₂ op type)
  unfolding call2
  call2-Eats tok t₁ t₂ op type ne = search (factor_rules, expr-Keeps) depth 20

  call3-Eats :
      (tok t₁ t₂ t₃ : ℕ) (op : Opcode) (type : ℕ)
      → (tok == 0) ≡ false
      → Eats (suc f) (call3 expr tok t₁ t₂ t₃ op type)
  unfolding call3
  call3-Eats tok t₁ t₂ t₃ op type ne = search (factor_rules, expr-Keeps) depth 20

  compile_get-Eats :
      (tok : ℕ) (op op' : Opcode) → (tok == 0) ≡ false → Eats (suc f) (compile_get expr tok op op')
  unfolding compile_get
  compile_get-Eats tok op op' ne = search (factor_rules, expr-Keeps) depth 24

  pub compile_func_call-Keeps :
      (n idx : ℕ) (want_value : Bool) → f ≤ n → Keeps f (compile_func_call expr n idx want_value)
  unfolding compile_func_call
  compile_func_call-Keeps n idx want_value le =
      let args : (tok count : ℕ) → Keeps f (arguments expr n tok count) =
        λ tok count. arguments-Keeps n f tok count le (omega arith) in
      search (factor_rules, args) depth 20

  xfunc_args-Keeps : (types : List ℕ) → Keeps f (xfunc_args expr types)
  unfolding xfunc_args
  xfunc_args-Keeps [] = search takes_rules
  xfunc_args-Keeps (t ∷ types) =
      let rest = xfunc_args-Keeps types in search (factor_rules, expr-Keeps) depth 20

  pub compile_xfunc-Keeps : (type : ℕ) → Keeps f (compile_xfunc expr type)
  unfolding compile_xfunc
  compile_xfunc-Keeps type = search (factor_rules, xfunc_args-Keeps) depth 24

  factor_param-Eats :
      (tok : ℕ) (op : Opcode) (type : ℕ)
      → (tok == 0) ≡ false
      → Eats (suc f) (factor_param expr tok op type)
  unfolding factor_param
  factor_param-Eats tok op type ne = search factor_rules depth 14

  factor_function-Eats : (tok : ℕ) → Eats (suc f) (factor_function expr tok)
  unfolding factor_function
  factor_function-Eats tok = search (takes_rules, call1-Eats, call2-Eats, call3-Eats) depth 20

  module _ (n : ℕ) (enough : f ≤ n) where
    factor_const-Eats : Eats (suc f) (factor_const expr)
    unfolding factor_const
    factor_const-Eats = search (factor_rules, Eats-later) depth 20

    factor_variable-Eats : Eats (suc f) (factor_variable expr n)
    unfolding factor_variable
    factor_variable-Eats = search (factor_rules, Eats-later, compile_func_call-Keeps) depth 24

    factor_array-Eats : Eats (suc f) (factor_array expr)
    unfolding factor_array
    factor_array-Eats = search (factor_rules, expr-Keeps, Eats-later) depth 30

    factor_call-Eats : Eats (suc f) (factor_call expr n)
    unfolding factor_call
    factor_call-Eats = search (factor_rules, compile_func_call-Keeps) depth 20

    factor_access-Eats : (tok : ℕ) → Eats (suc f) (factor_access expr n tok)
    unfolding factor_access factor_xfunc factor_null
    factor_access-Eats tok =
        search
          (
            factor_rules, compile_get-Eats, factor_param-Eats, factor_call-Eats,
            compile_xfunc-Keeps, factor_function-Eats,
          )
          depth 30

    factor_at-Eats : (tok : ℕ) → Eats (suc f) (factor_at expr n tok)
    unfolding factor_at factor_paren factor_number factor_string factor_string_variable
    factor_at-Eats tok =
        search
          (
            factor_rules, expr-Keeps, factor_const-Eats, factor_variable-Eats, factor_array-Eats,
            factor_access-Eats,
          )
          depth 30

    pub compile_factor-Eats : Eats (suc f) (compile_factor expr n)
    unfolding compile_factor
    compile_factor-Eats =
        Eats-later line (suc f) lookahead (factor_at expr n) (Keeps-lookahead (suc f))
          factor_at-Eats

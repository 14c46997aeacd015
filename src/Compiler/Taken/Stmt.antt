-- ===== src/Compiler/Taken/Stmt.antt =====
-- The simple statements do not run out of fuel, and do not go back in the program.
use nanoc.Base.{ℕ, zero, suc, Bool, List, arith}
use nanoc.Vm.Opcode.{Opcode}
use nanoc.Compiler.State.{Symbol, M, emit_text}
use nanoc.Compiler.Symbols.{sym_get}
use nanoc.Compiler.Call.{compile_func_call, compile_xfunc}
use nanoc.Compiler.Stmt.{
  compile_for_leave, compile_break, compile_breakpoint, compile_reti, compile_free, compile_const,
  assign, localize, compile_var, compile_str8_var, compile_int32_decl, compile_arr_access,
  compile_return, printf_args, compile_printf, compile_copy, compile_str2arr, compile_set,
  compile_xfunc_stmt,
}
use nanoc.Compiler.Contract.{Eats-Keeps}
use nanoc.Compiler.Takes.{Eats}
use nanoc.Compiler.Whole.{program, Runs, program_rules, from_line}
use nanoc.Compiler.Taken.Lines.{Runs-next}
use nanoc.Compiler.Taken.Factor.{
  emit_text-Keeps, sym_get-Keeps, compile_func_call-Keeps, compile_xfunc-Keeps,
}

module _ (f : ℕ) where
  Runs-emit_text : (s : List ℕ) → Runs f (emit_text s)
  Runs-emit_text s = from_line 0 f (emit_text s) (emit_text-Keeps 128 s)

  Runs-sym_get : (id : List ℕ) → Runs f (sym_get id)
  Runs-sym_get id = from_line 0 f (sym_get id) (sym_get-Keeps 128 id)

  pub Runs-for_leave : Runs f compile_for_leave
  unfolding compile_for_leave
  Runs-for_leave = search program_rules depth 8

  pub Runs-break : Runs f compile_break
  unfolding compile_break
  Runs-break = search program_rules depth 20

  pub Runs-breakpoint : Runs f compile_breakpoint
  unfolding compile_breakpoint
  Runs-breakpoint = search program_rules depth 20

  pub Runs-reti : Runs f compile_reti
  unfolding compile_reti
  Runs-reti = search (program_rules, Runs-for_leave)

  pub Runs-free : Runs f compile_free
  unfolding compile_free
  Runs-free = search program_rules depth 8

  pub Runs-const : Runs f compile_const
  unfolding compile_const
  Runs-const = search (program_rules, Runs-next) depth 20

  module _ (expr : ℕ → M ℕ) (expr-Eats : (t : ℕ) → Eats 128 (expr t)) where
    Runs-expr : (t : ℕ) → Runs f (expr t)
    Runs-expr t = Eats-Keeps program f (expr t) (from_line 1 f (expr t) (expr-Eats t))

    Runs-call : (idx : ℕ) (want : Bool) → Runs f (compile_func_call expr 128 idx want)
    Runs-call idx want =
        from_line 0 f (compile_func_call expr 128 idx want)
          (compile_func_call-Keeps expr 128 expr-Eats 128 idx want (omega arith))

    Runs-xfunc : (type : ℕ) → Runs f (compile_xfunc expr type)
    Runs-xfunc type =
        from_line 0 f (compile_xfunc expr type) (compile_xfunc-Keeps expr 128 expr-Eats type)

    Runs-assign : (tok : ℕ) (s : Symbol) → Runs f (assign expr tok s)
    unfolding assign
    Runs-assign tok s = search (program_rules, Runs-expr) depth 20

    Runs-localize : (idx : ℕ) → Runs f (localize expr idx)
    unfolding localize
    Runs-localize idx = search program_rules depth 20

    pub Runs-var : (tok : ℕ) → Runs f (compile_var expr 128 tok)
    unfolding compile_var
    Runs-var tok = search (program_rules, Runs-call, Runs-localize, Runs-assign) depth 20

    pub Runs-str8_var : Runs f (compile_str8_var expr)
    unfolding compile_str8_var
    Runs-str8_var = search (program_rules, Runs-next, Runs-expr) depth 24

    pub Runs-int32_decl : Runs f (compile_int32_decl expr 128)
    unfolding compile_int32_decl
    Runs-int32_decl = search (program_rules, Runs-next, Runs-expr, Runs-var) depth 24

    pub Runs-arr_access : Runs f (compile_arr_access expr)
    unfolding compile_arr_access
    Runs-arr_access = search (program_rules, Runs-expr) depth 30

    pub Runs-return : Runs f (compile_return expr)
    unfolding compile_return
    Runs-return = search (program_rules, Runs-expr, Runs-for_leave) depth 24

    Runs-printf_args : (n tok : ℕ) → Runs f (printf_args expr n tok)
    unfolding printf_args
    Runs-printf_args zero tok = search program_rules
    Runs-printf_args (suc n) tok =
        let rest : (t : ℕ) → Runs f (printf_args expr n t) = Runs-printf_args n in
        search (program_rules, Runs-expr, rest) depth 20

    pub Runs-printf : Runs f (compile_printf expr)
    unfolding compile_printf
    Runs-printf = search (program_rules, Runs-printf_args, Runs-emit_text) depth 30

    pub Runs-copy : Runs f (compile_copy expr)
    unfolding compile_copy
    Runs-copy = search (program_rules, Runs-expr) depth 30

    pub Runs-str2arr : Runs f (compile_str2arr expr)
    unfolding compile_str2arr
    Runs-str2arr = search (program_rules, Runs-expr) depth 30

    pub Runs-set : (on_var on_stack : Opcode) → Runs f (compile_set expr on_var on_stack)
    unfolding compile_set
    Runs-set on_var on_stack = search (program_rules, Runs-expr) depth 30

    pub Runs-xfunc_stmt : Runs f (compile_xfunc_stmt expr)
    unfolding compile_xfunc_stmt
    Runs-xfunc_stmt = search (program_rules, Runs-sym_get, Runs-xfunc) depth 20

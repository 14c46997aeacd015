-- ===== src/Compiler/Tests.antt =====
-- Programs that src/nc_compiler.c compiles, and the witnesses of the theorems on the compiler.
use nanoc.Base.{set, refl, ◌≡◌, ℕ, true, false, List, [], ◌∷◌, none, some, replicate, arith}
use nanoc.Compiler.State.{Comp, blank, patch, ok, set_symbol, gets, modify, pure, ◌>>=◌}
use nanoc.Compiler.Symbols.{sym_add, sym_found, find, first_free, add_new, fresh}
use nanoc.Compiler.Interning.{sym_add-sym_add}
use nanoc.Compiler.Tokens.{e_num, tok_id}
use nanoc.Compiler.Expr.{compile_expression}
use nanoc.Vm.State.{Vm}
use nanoc.Compiler.Emit.{push_number, patch_all, patch_breaks}
use nanoc.Compiler.Patches.{Lead, patch_breaks-Lead}
use nanoc.Compiler.OnVm.{Pushes, step-push_number}
use nanoc.Compiler.Program.{nc_compile}
use nanoc.Compiler.Contract.{Sound}
use nanoc.Compiler.Takes.{line}
use nanoc.Compiler.Taken.Ends.{Returned, nc_compile-Returned, compile_expression-Sound}

abbrev idle : Comp
idle = record {
  symbols = replicate 8 blank;
  curr_var_idx = 0;
  start_of_vars = 0;
  xfuncs = [];
  running = true;
  lines = [];
  forward_decl = [];
  code = replicate 64 0;
  trace = replicate 64 0;
  pc = 1;
  linenum = 0;
  err_count = 0;
  sym_idx = 0;
  buff = [];
  constants = [];
  pos = none;
  next_pos = none;
  value = 0;
  next_tok = 0;
  in_func = false;
  local_var_count = 0;
  func_return_type = 0;
  loop_type = 0;
  for_depth = 0;
  breaks = [];
  messages = [];
}

-- `(1 + x) * 3`
abbrev sum_of : List ℕ
sum_of = 40 ∷ 49 ∷ 43 ∷ 120 ∷ 41 ∷ 42 ∷ 51 ∷ []

abbrev on_line : List ℕ → Comp
on_line s = record idle { pos = some s; next_pos = some s }

-- A first line, and one behind it.
abbrev two_lines : Comp
two_lines = record (on_line sum_of) { lines = (120 ∷ 61 ∷ 49 ∷ []) ∷ [] }

compile_expression-Sound_example :
    Sound line 1 (on_line sum_of) (compile_expression 9 e_num (on_line sum_of))
compile_expression-Sound_example =
    compile_expression-Sound 9 e_num (on_line sum_of)
      (record { fits = omega arith; ahead = omega arith }) (omega arith)

nc_compile-Returned_example :
    Returned (
      nc_compile 20 ((120 ∷ 61 ∷ 49 ∷ []) ∷ (125 ∷ []) ∷ []) (replicate 64 0) (replicate 64 0) idle)
nc_compile-Returned_example =
    nc_compile-Returned 20 ((120 ∷ 61 ∷ 49 ∷ []) ∷ (125 ∷ []) ∷ []) (replicate 64 0)
      (replicate 64 0) idle (omega arith) (omega arith)

-- A VM without memory, and a compiler in front of an empty line.
abbrev machine : Vm
machine = record {
  code_size = 64;
  num_vars = 0;
  pc = 0;
  sp = 3;
  fp = 0;
  ret_val = 0;
  psp = 0;
  nested_loop_idx = 0;
  stack = replicate 128 0;
  paramstack = replicate 8 0;
  variables = [];
  code = [];
  mem = record { heap = []; mem_start_addr = 0 };
  strbuf1 = [];
  strbuf2 = [];
  strbuf1_used = false;
  printed = [];
}

step-push_number_example :
    (c' : Comp) × (push_number 70000 idle ≡ ok tt c') × Pushes 0 70000 idle c' machine
step-push_number_example =
    step-push_number 0 70000 idle machine (omega arith) (omega arith) (omega arith)

-- The first variable of a program.
abbrev with_x : Comp
with_x = record idle {
  symbols = set (replicate 8 blank) 0 (fresh (120 ∷ []) 0 tok_id blank);
  curr_var_idx = 1;
}

added_x : sym_add (120 ∷ []) 0 tok_id idle ≡ ok 0 with_x
unfolding sym_add sym_found find first_free add_new set_symbol gets modify pure ◌>>=◌
added_x = refl

sym_add-sym_add_example :
    (c'' : Comp) × (sym_add (120 ∷ []) 5 tok_id with_x ≡ ok 0 c'') × (c''.curr_var_idx ≡ 1)
sym_add-sym_add_example =
    sym_add-sym_add (120 ∷ []) 0 tok_id 5 tok_id 0 idle with_x (λ e. absurd (cc)) added_x

-- Two breaks of a loop that ends at 1.
abbrev with_breaks : Comp
with_breaks = record idle { breaks = 5 ∷ 10 ∷ [] }

abbrev without_breaks : Comp
without_breaks = record idle { code = set (set (set (set (replicate 64 0) 5 1) 6 0) 10 1) 11 0 }

patched_breaks : patch_breaks 0 with_breaks ≡ ok tt without_breaks
unfolding patch_breaks patch_all patch gets modify pure ◌>>=◌
patched_breaks = refl

patch_breaks-Lead_example : Lead 1 (5 ∷ 10 ∷ []) without_breaks.code
patch_breaks-Lead_example =
    patch_breaks-Lead 0 with_breaks without_breaks (omega arith)
      (
        ((λ e. omega arith), (λ e. omega arith), tt),
        ((λ e. omega arith), (λ e. omega arith), tt),
        (tt, tt, tt),
      )
      patched_breaks

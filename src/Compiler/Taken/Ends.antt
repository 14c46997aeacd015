-- ===== src/Compiler/Taken/Ends.antt =====
-- `nc_compile` ends, and `compile_expression` is sound.
use nanoc.Base.{ℕ, suc, ◌<◌, Bool, true, false, List, [], ◌∷◌, ltb, if◌then◌else◌, arith, length}
use nanoc.Compiler.State.{
  Comp, Forward, Result, ok, raised, fault, out_of_fuel, continue, ◌>>=◌, ◌>>◌, pure, gets, modify,
  emit,
}
use nanoc.Compiler.Symbols.{get_num_vars}
use nanoc.Compiler.Emit.{
  compile_end, append_constants, emit32, append_data_to_code, resolve_one, resolve_all,
  resolve_forward_declarations,
}
use nanoc.Compiler.Expr.{compile_expression}
use nanoc.Compiler.Program.{
  compile_lines, start, Compiled, stop, give_up, finish, finish_or_give_up, nc_compile,
}
use nanoc.Compiler.Contract.{Sound}
use nanoc.Compiler.Takes.{left, Ready, line}
use nanoc.Compiler.Whole.{sum, total, Fit, program, Runs, program_rules, Runs-emit}
use nanoc.Compiler.Taken.Expr.{compile_expression-Eats}
use nanoc.Compiler.Taken.Program.{Passed, compile_lines-Passed}

module _ (f : ℕ) where
  Runs-append : (vs : List ℕ) → Runs f (append_constants vs)
  unfolding append_constants emit32
  Runs-append [] = search program_rules
  Runs-append (v ∷ vs) = let rest = Runs-append vs in search program_rules depth 14

  Runs-resolve_one : (d : Forward) → Runs f (resolve_one d)
  unfolding resolve_one
  Runs-resolve_one d = search program_rules depth 14

  Runs-resolve_all : (ds : List Forward) → Runs f (resolve_all ds)
  unfolding resolve_all
  Runs-resolve_all [] = search program_rules
  Runs-resolve_all (d ∷ ds) =
      let rest = Runs-resolve_all ds in search (program_rules, Runs-resolve_one)

  Runs-finish : Runs f finish
  unfolding finish stop get_num_vars resolve_forward_declarations append_data_to_code compile_end
  Runs-finish = search (program_rules, Runs-append, Runs-resolve_all) depth 30

-- A run that returned, or met an access that C leaves undefined.
abbrev pub Returned : {A : Type 0} → Result A → Type 0
Returned (ok a c) = Unit {0}
Returned (raised c) = ⊥
Returned fault = Unit {0}
Returned out_of_fuel = ⊥

finished :
    (c : Comp) (r : Result Compiled)
    → Sound program 0 c r
    → Returned (elim r [
      | ok a c' ↦ ok a c'
      | raised c' ↦ give_up c'
      | fault ↦ fault
      | out_of_fuel ↦ out_of_fuel
    ])
unfolding give_up gets stop modify pure ◌>>=◌
finished c (ok a c') h = tt
finished c (raised c') h = tt
finished c fault h = tt
finished c out_of_fuel h = h

finish-Returned : (c : Comp) → Fit c → Returned (finish_or_give_up c)
unfolding finish_or_give_up
finish-Returned c h = finished c (finish c) ((Runs-finish (suc (total c))).at c h (omega arith))

ended :
    (c : Comp) (failed : Bool)
    → Fit c
    → Returned ((if failed then give_up else finish_or_give_up) c)
unfolding give_up gets stop modify pure ◌>>=◌
ended c true h = tt
ended c false h = finish-Returned c h

compiled :
    (r : Result (Unit {0}))
    → Passed r
    → Returned (
        continue r (λ _. gets (λ c. ltb 0 c.err_count) >>= λ failed.
        if failed then give_up else finish_or_give_up))
unfolding gets ◌>>=◌
compiled (ok u c) h = ended c (ltb 0 c.err_count) h
compiled (raised c) h = h
compiled fault h = tt
compiled out_of_fuel h = h

start-Fit :
    (lines : List (List ℕ)) (code trace : List ℕ) (c : Comp)
    → length code < 65536
    → Fit (start lines code trace c)
unfolding start
start-Fit lines code trace c lt = record {
  ready = record { fits = lt; ahead = omega arith };
  short = omega arith;
}

start-total :
    (n : ℕ) (lines : List (List ℕ)) (code trace : List ℕ) (c : Comp)
    → sum lines < n
    → total (start lines code trace c) < n
unfolding start
start-total n lines code trace c lt = omega arith

-- `emit` raises no error.
abbrev Started : Result (Unit {0}) → Type 0
Started (raised c) = ⊥
Started _ = Unit {0}

emit_cases : (b : Bool) (c : Comp) → Started (if b then ok tt c else fault)
emit_cases true c = tt
emit_cases false c = tt

emit-Started : (c : Comp) → Started (emit 0 c)
unfolding emit
emit-Started c = emit_cases (ltb c.pc (length c.code)) _

started :
    (n : ℕ) (r : Result (Unit {0})) (c : Comp)
    → total c < n
    → Sound program 0 c r
    → Started r
    → Returned (
        continue r (λ _.
          compile_lines n
          >> (gets (λ c. ltb 0 c.err_count) >>= λ failed.
              if failed then give_up else finish_or_give_up)))
unfolding ◌>>=◌
started n (ok u c') c lt h s =
    let le = h.shorter in
    compiled (compile_lines n c') (compile_lines-Passed n c' h.fit (omega arith))
started n (raised c') c lt h s = s
started n fault c lt h s = tt
started n out_of_fuel c lt h s = h

-- Let the code have a 16-bit size, the next token not lie before p_pos, and the fuel be more than
-- the bytes left on the line with its end. Then compile_expression does not run out of fuel. If it
-- returns it took at least a byte of the line, and if it raises an error it took none back; in both
-- cases it read no further line, the pc is no smaller, and the code below the old pc is unchanged.
pub compile_expression-Sound :
    (fuel wanted : ℕ) (c : Comp)
    → Ready c
    → left c.pos < fuel
    → Sound line 1 c (compile_expression fuel wanted c)
compile_expression-Sound fuel wanted c h lt = (compile_expression-Eats fuel wanted).at c h lt

-- Let the code of the VM have a 16-bit size, and let the fuel be more than the bytes of the program
-- with two more for each line. Then nc_compile returns, from any state of the compiler and for any
-- program, with or without errors in it, or meets an access that C leaves undefined; it does not
-- run out of fuel, and no error leaves it.
pub nc_compile-Returned :
    (fuel : ℕ) (lines : List (List ℕ)) (code trace : List ℕ) (c : Comp)
    → length code < 65536
    → sum lines < fuel
    → Returned (nc_compile fuel lines code trace c)
unfolding nc_compile modify ◌>>=◌
nc_compile-Returned fuel lines code trace c small enough =
    let c' = start lines code trace c in
    let fit = start-Fit lines code trace c small in
    started fuel (emit 0 c') c' (start-total fuel lines code trace c enough)
      ((Runs-emit (suc (total c')) 0).at c' fit (omega arith)) (emit-Started c')

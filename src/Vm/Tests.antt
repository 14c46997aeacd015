-- ===== src/Vm/Tests.antt =====
-- A VM of src/nc_runtime.c with the code of a subroutine call.
use nanoc.Base.{
  ℕ, ◌+◌, ◌-◌, ◌*◌, ◌/◌, ◌%◌, ◌≡◌, ◌≢◌, get_or, refl, false, List, [], ◌∷◌, arith, set, replicate,
  Run, done, Returns, length-set, get_or-set_ne, ◌>>=◌,
}
use nanoc.Base.Word.{u32}
use nanoc.Vm.State.{
  Vm, next, return_vm, push, code16, code_byte, get_var, set_var, out_of_bounds, advance, ◌>>◌,
  nb_error,
}
use nanoc.Vm.Control.{exec_push_num2, exec_gosub, exec_enter, exec_leave, exec_inc_var}
use nanoc.Vm.Opcode.{opcodes, decode}
use nanoc.Vm.Step.{step, exec, run}
use nanoc.Vm.Budget.{used_up, before_last, run_resume}
use nanoc.Vm.Calls.{Frame, call-Frame, call_return}
use nanoc.Memory.Layout.{used, vacant, Holds}
use nanoc.Memory.Sample.{one_run, one_run-Holds}
use nanoc.Vm.Arrays.{get_elem, set_elem}
use nanoc.Vm.Elements.{
  stored, OtherBytes, get_elem-set_elem, set_elem_outside, set_elem_negative, set_elem_overlap,
}
use nanoc.Vm.Host.{nc_push_num, nc_pop_num, nc_peek_num}
use nanoc.Vm.Strings.{alloc_temp_string}
use nanoc.Vm.Params.{nc_pop_num-nc_push_num, alloc_temp_string_lem}
use nanoc.Vm.Next.{Loop, IsLoop, InLoop, Left}
use nanoc.Vm.Loops.{passes, passes_up, passes_forever}

abbrev zeros : ℕ → List ℕ
zeros n = replicate n 0

abbrev with_code : List ℕ → Vm
with_code code = record {
  code_size = 16;
  num_vars = 4;
  pc = 0;
  sp = 3;
  fp = 1;
  ret_val = 0;
  psp = 0;
  nested_loop_idx = 0;
  stack = zeros 128;
  paramstack = zeros 8;
  variables = zeros 256;
  code = code;
  mem = record { heap = []; mem_start_addr = 0 };
  strbuf1 = zeros 128;
  strbuf2 = zeros 128;
  strbuf1_used = false;
  printed = [];
}

-- GOSUB 6; at 6: ENTER 2.
abbrev before_call : Vm
before_call = with_code (30 ∷ 6 ∷ 0 ∷ 0 ∷ 0 ∷ 0 ∷ 70 ∷ 2 ∷ [])

abbrev in_gosub : Vm
in_gosub = record before_call { stack = set (zeros 128) 3 3; sp = 4; pc = 6 }

abbrev in_callee : Vm
in_callee = record before_call { stack = set (set (zeros 128) 3 3) 4 1; sp = 7; fp = 5; pc = 8 }

gosub_runs : exec_gosub before_call ≡ done (next, in_gosub)
unfolding exec_gosub push code16 code_byte
gosub_runs = refl

enter_runs : exec_enter in_gosub ≡ done (next, in_callee)
unfolding exec_enter push code_byte
enter_runs = refl

call-Frame_example : Frame in_callee (0 + 3) 1 × (5 ≡ 3 + 2)
call-Frame_example = call-Frame before_call in_gosub in_callee refl gosub_runs enter_runs

call_return_example :
    Returns
      (exec_leave in_callee)
      (λ r. (r.0 ≡ next) × (r.1.pc ≡ 0 + 3) × (r.1.sp ≡ 3) × (r.1.fp ≡ 1))
call_return_example =
    call_return before_call in_gosub in_callee in_callee refl (omega arith) (omega arith) gosub_runs
      enter_runs refl refl refl

-- PUSH_NUM 7; PUSH_NUM 8
abbrev two_numbers : Vm
two_numbers = with_code (3 ∷ 7 ∷ 3 ∷ 8 ∷ [])

abbrev one_number : Vm
one_number = record two_numbers { stack = set (zeros 128) 3 7; sp = 4; pc = 2 }

abbrev no_random : ℕ → ℕ
no_random k = 0

one_round_runs : run (before_last 1 no_random) 2 two_numbers ≡ done (used_up, one_number)
unfolding run step decode opcodes exec exec_push_num2 push code_byte
one_round_runs = refl

run_resume_example : run no_random 3 two_numbers ≡ run no_random 2 one_number
run_resume_example = run_resume no_random 1 1 two_numbers one_number one_round_runs

abbrev bad_code : Vm
bad_code = with_code (200 ∷ [])

-- `for i = -1 to end { inc j }`: FOR_CHECK 10 i; INC_VAR j; NEXT 4 i.
abbrev loop_code : List ℕ
loop_code = 93 ∷ 10 ∷ 0 ∷ 1 ∷ 68 ∷ 5 ∷ 33 ∷ 4 ∷ 0 ∷ 1 ∷ []

abbrev loop_to : ℕ → Loop
loop_to end = record {
  code = loop_code;
  check = 0;
  behind = 6;
  target = 10;
  var = 1;
  step = 1;
  end = end;
  sp = 3;
  depth = 1;
}

loop_to-IsLoop : (end : ℕ) → IsLoop (loop_to end)
loop_to-IsLoop end = record {
  order = omega arith;
  room = omega arith;
  outside = omega arith;
  byte = omega arith;
  at_check = (refl, (refl, (refl, (refl, tt))));
  at_next = (refl, (refl, (refl, (refl, tt))));
}

-- The VM at the given position, with i = -1.
abbrev in_loop : ℕ → ℕ → Vm
in_loop pos end = record (with_code loop_code) {
  pc = pos;
  nested_loop_idx = 1;
  stack = set (set (zeros 128) 1 end) 2 1;
  variables = set (zeros 256) 1 4294967295;
}

in_loop-InLoop : (pos end : ℕ) → InLoop (loop_to end) pos 4294967295 (in_loop pos end)
in_loop-InLoop pos end = record {
  pc = refl;
  code = refl;
  sp = refl;
  depth = refl;
  step = refl;
  end = refl;
  exists = omega arith;
  value = refl;
}

-- The body is the round of nc_run at INC_VAR.
abbrev increment : Vm → Run Vm
increment vm = step 0 vm >>= λ q. done q.1

increment-InLoop :
    (end x : ℕ) (vm : Vm)
    → InLoop (loop_to end) 4 x vm
    → Returns (increment vm) (InLoop (loop_to end) 6 x)
unfolding step code_byte exec exec_inc_var decode opcodes get_var set_var
increment-InLoop end x vm h =
    let y = u32 (get_or vm.variables 5 0 + 1) in
    rw (h.pc, h.code)
      (record {
        pc = refl;
        code = refl;
        sp = h.sp;
        depth = h.depth;
        step = h.step;
        end = h.end;
        exists = rw (length-set vm.variables 5 y) h.exists;
        value = rw (get_or-set_ne vm.variables 5 1 y 0 (omega arith)) h.value;
      })

passes_up_example : Returns (step 0 (in_loop 0 1)) (λ q.
    (q.0 ≡ next)
    × Returns
        (passes 0 increment 4 5 q.1)
        (λ z. (z.0 ≡ 3) × Left (loop_to 1) 10 (u32 (4294967295 + 3 * 1)) z.1))
passes_up_example =
    passes_up (loop_to 1) (loop_to-IsLoop 1) 0 increment (increment-InLoop 1) 2 5 4294967295
      (in_loop 0 1) (in_loop-InLoop 0 1) (omega arith) (omega arith) (omega arith) (omega arith)
      (omega arith) (omega arith) (omega arith)

passes_forever_example :
    Returns
      (passes 0 increment 4 4 (in_loop 4 2147483647))
      (λ z. (z.0 ≡ 4) × InLoop (loop_to 2147483647) 4 (u32 (4294967295 + 4)) z.1)
passes_forever_example =
    passes_forever (loop_to 2147483647) (loop_to-IsLoop 2147483647) 0 increment
      (increment-InLoop 2147483647) 4 4294967295 (in_loop 4 2147483647) refl refl (omega arith)
      (in_loop-InLoop 4 2147483647)

-- A VM whose heap has an array at its start, of 3 blocks and 6 words.
abbrev with_array : Vm
with_array = record (with_code []) { mem = one_run 8190 }

abbrev refused : Vm
refused = record with_array { printed = out_of_bounds ∷ [] }

get_elem-set_elem_example : Returns (set_elem 2 (0 + 2) 4 7 with_array) (λ r.
    (r.0 ≡ next)
    × Holds r.1.mem (used 3 6 ∷ []) (replicate 1021 vacant)
    × OtherBytes with_array r.1 (0 + 2 + 4)
    × (get_elem 2 (0 + 2) 4 r.1 ≡ (push 7 >> advance 2) r.1))
get_elem-set_elem_example =
    get_elem-set_elem with_array (used 3 6 ∷ []) (replicate 1021 vacant) [] (replicate 1021 vacant)
      3 6 2 4 7 (one_run-Holds 8190 1021 refl refl) refl (omega arith) (omega arith)

set_elem_outside_example :
    (set_elem 2 (0 + 2) 24 7 with_array ≡ done (return_vm nb_error, refused))
    × (get_elem 2 (0 + 2) 24 with_array ≡ done (return_vm nb_error, refused))
set_elem_outside_example =
    set_elem_outside with_array (used 3 6 ∷ []) (replicate 1021 vacant) [] (replicate 1021 vacant) 3
      6 (one_run-Holds 8190 1021 refl refl) refl 2 24 7 (omega arith) (omega arith)

set_elem_negative_example :
    set_elem 2 (0 + 2) (4294967296 - 2) 7 with_array
    ≡ done (next, stored with_array 2 (0 + 2 - 2) 7)
set_elem_negative_example =
    set_elem_negative with_array (used 3 6 ∷ []) (replicate 1021 vacant) [] (replicate 1021 vacant)
      3 6 (one_run-Holds 8190 1021 refl refl) refl 2 2 7 (omega arith) (omega arith)

set_elem_overlap_example :
    Returns
      (set_elem 2 (0 + 2) (6 * 4 - 4) 9000000 with_array)
      (λ r. (r.0 ≡ next) × (get_or r.1.mem.heap (0 + 3 * 8) 0 ≡ 9000000 / 65536 % 256))
set_elem_overlap_example =
    set_elem_overlap with_array (used 3 6 ∷ []) (replicate 1021 vacant) [] (replicate 1021 vacant) 3
      6 (one_run-Holds 8190 1021 refl refl) refl 2 9000000 refl (omega arith)

nc_pop_num-nc_push_num_example : Returns (nc_push_num 42 bad_code) (λ r.
    (r.1.psp ≡ 0 + 1)
    × Returns (nc_peek_num 1 r.1) (λ q. q.0 ≡ 42)
    × Returns (nc_pop_num r.1) (λ q. (q.0 ≡ 42) × (q.1.psp ≡ 0)))
nc_pop_num-nc_push_num_example = nc_pop_num-nc_push_num bad_code 42 refl (omega arith)

alloc_temp_string_lem_example : Returns (alloc_temp_string bad_code) (λ r.
    Returns
      (alloc_temp_string r.1)
      (λ q. (q.0 ≢ r.0) × Returns (alloc_temp_string q.1) (λ p. p.0 ≡ r.0)))
alloc_temp_string_lem_example = alloc_temp_string_lem bad_code

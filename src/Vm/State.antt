-- ===== src/Vm/State.antt =====
-- `t_VM` of src/nc_int.h and the stack macros of src/nc_runtime.c. `nc_run` keeps pc, sp and fp in
-- registers and writes them back when it returns; the model changes the fields at once.
use nanoc.Base.{
  ℕ, ◌+◌, ◌*◌, ◌%◌, ◌≡◌, Bool, some, List, [], ◌∷◌, ltb, if◌then◌else◌, length, get_elem?, get_or,
  set, Run, done, fault,
}
use nanoc.Base.Outcome
use nanoc.Base.Word.{u8, u16}
use nanoc.Memory.{Mem}

-- What the VM hands to `nc_print`, the output function of the host.
pub data Print : Type 0 where
  division_by_zero out_of_memory out_of_bounds call_stack_overflow too_many_loops : Print
  unknown_opcode : ℕ → Print
  bytes_free : ℕ → ℕ → ℕ → Print
  char : ℕ → Print
  -- Conversion, `-` flag, `0` flag, width and value; and a text with flag and width.
  number : ℕ → Bool → Bool → ℕ → ℕ → Print
  text : Bool → ℕ → List ℕ → Print

pub record Vm : Type 0 where
  pub code_size : ℕ
  pub num_vars : ℕ
  pub pc : ℕ
  pub sp : ℕ
  pub fp : ℕ
  pub ret_val : ℕ
  pub psp : ℕ
  pub nested_loop_idx : ℕ
  pub stack : List ℕ
  pub paramstack : List ℕ
  pub variables : List ℕ
  pub code : List ℕ
  pub mem : Mem
  pub strbuf1 : List ℕ
  pub strbuf2 : List ℕ
  pub strbuf1_used : Bool
  -- The calls of `nc_print` so far, the last one first.
  pub printed : List Print

-- The bytes stand in `code` from `i` on.
abbrev pub At : List ℕ → ℕ → List ℕ → Type 0
At [] i code = Unit {0}
At (b ∷ bs) i code = (get_elem? code i ≡ some (b % 256)) × At bs (i + 1) code

-- cfg_STACK_SIZE, cfg_PARAMSTACK_SIZE, cfg_NUM_VARS, cfg_MAX_CODE_SIZE, cfg_MAX_FOR_LOOPS.
abbrev pub stack_size : ℕ
stack_size = 128

abbrev pub paramstack_size : ℕ
paramstack_size = 8

abbrev pub num_variables : ℕ
num_variables = 256

abbrev pub max_code_size : ℕ
max_code_size = 16384

abbrev pub max_for_loops : ℕ
max_for_loops = 8

-- Code that reads and changes the VM.
abbrev pub M : Type 0 → Type 0
M A = Vm → Run (A × Vm)

abbrev pub pure : {A : Type 0} → A → M A
pure a vm = done (a, vm)

infixl 5 ◌>>=◌ ◌>>◌
abbrev pub ◌>>=◌ : {A B : Type 0} → M A → (A → M B) → M B
◌>>=◌ m f vm = Outcome.◌>>=◌ (m vm) (λ r. f r.0 r.1)

abbrev pub ◌>>◌ : {B : Type 0} → M (Unit {0}) → M B → M B
m >> k = m >>= λ _. k

abbrev pub lift : {A : Type 0} → Run A → M A
lift r vm = Outcome.◌>>=◌ r (λ a. done (a, vm))

abbrev pub gets : {A : Type 0} → (Vm → A) → M A
gets f vm = done (f vm, vm)

abbrev pub modify : (Vm → Vm) → M (Unit {0})
modify f vm = done (tt, f vm)

abbrev pub undefined : {A : Type 0} → M A
undefined vm = fault

-- `PUSH`, `POP`, `TOP` and `PEEK(-2)`: the index is taken modulo the stack size.
unfoldable pub push : ℕ → M (Unit {0})
push x =
    modify λ vm. record vm { stack = set vm.stack (vm.sp % stack_size) x; sp = u16 (vm.sp + 1) }

unfoldable pub pop : M ℕ
pop vm =
    let sp' = u16 (vm.sp + 65535) in
    done (get_or vm.stack (sp' % stack_size) 0, record vm { sp = sp' })

unfoldable pub top : M ℕ
top = gets λ vm. get_or vm.stack (u16 (vm.sp + 65535) % stack_size) 0

unfoldable pub set_top : ℕ → M (Unit {0})
set_top x = modify λ vm. record vm { stack = set vm.stack (u16 (vm.sp + 65535) % stack_size) x }

unfoldable pub peek2 : M ℕ
peek2 = gets λ vm. get_or vm.stack (u16 (vm.sp + 65534) % stack_size) 0

-- `PPUSH` and `PPOP`.
unfoldable pub ppush : ℕ → M (Unit {0})
ppush x = modify λ vm. record vm {
  paramstack = set vm.paramstack (vm.psp % paramstack_size) x;
  psp = u8 (vm.psp + 1);
}

unfoldable pub ppop : M ℕ
ppop vm =
    let psp' = u8 (vm.psp + 255) in
    done (get_or vm.paramstack (psp' % paramstack_size) 0, record vm { psp = psp' })

-- `vm->stack[fp + var]` has no modulo.
unfoldable pub get_local : ℕ → M ℕ
get_local var vm =
    Outcome.◌>>=◌ (Outcome.checked (get_elem? vm.stack (vm.fp + var))) (λ x. done (x, vm))

unfoldable pub set_local : ℕ → ℕ → M (Unit {0})
set_local var x vm =
    if ltb (vm.fp + var) (length vm.stack)
    then done (tt, record vm { stack = set vm.stack (vm.fp + var) x })
    else fault

-- `vm->variables[var]` for a byte `var`.
unfoldable pub get_var : ℕ → M ℕ
get_var var = gets λ vm. get_or vm.variables var 0

unfoldable pub set_var : ℕ → ℕ → M (Unit {0})
set_var var x = modify λ vm. record vm { variables = set vm.variables var x }

-- `code[i]` and `ACS16`, `ACS32` of the code, little-endian.
unfoldable pub code_byte : ℕ → M ℕ
code_byte i vm = Outcome.◌>>=◌ (Outcome.checked (get_elem? vm.code i)) (λ x. done (x, vm))

unfoldable pub code16 : ℕ → M ℕ
code16 i = do a ← code_byte i; b ← code_byte (i + 1); pure (a + b * 256)

unfoldable pub code32 : ℕ → M ℕ
code32 i = do a ← code16 i; b ← code16 (i + 2); pure (a + b * 65536)

-- `code[pc + n]`.
abbrev pub operand : ℕ → M ℕ
operand n = do pc ← gets (λ vm. vm.pc); code_byte (pc + n)

abbrev pub operand16 : ℕ → M ℕ
operand16 n = do pc ← gets (λ vm. vm.pc); code16 (pc + n)

abbrev pub operand32 : ℕ → M ℕ
operand32 n = do pc ← gets (λ vm. vm.pc); code32 (pc + n)

abbrev pub print : Print → M (Unit {0})
print p = modify λ vm. record vm { printed = p ∷ vm.printed }

-- How a case of the `switch` ends: `break`, or `RETURN_VM` with a value.
pub data Flow : Type 0 where
  next : Flow
  return_vm : ℕ → Flow

-- The values of `nc_run`.
abbrev pub nb_end : ℕ
nb_end = 0

abbrev pub nb_error : ℕ
nb_error = 1

abbrev pub nb_break : ℕ
nb_break = 2

abbrev pub nb_busy : ℕ
nb_busy = 3

abbrev pub nb_reti : ℕ
nb_reti = 4

abbrev pub nb_xfunc : ℕ
nb_xfunc = 5

abbrev pub set_pc : ℕ → M (Unit {0})
set_pc a = modify λ vm. record vm { pc = u16 a }

-- `pc += n; break;` and `pc = a; break;`.
abbrev pub advance : ℕ → M Flow
advance n = do modify (λ vm. record vm { pc = u16 (vm.pc + n) }); pure next

abbrev pub jump : ℕ → M Flow
jump a = do set_pc a; pure next

-- `nc_print(...); RETURN_VM(NB_ERROR);`
abbrev pub fail : Print → M Flow
fail p = do print p; pure (return_vm nb_error)

-- ===== src/Compiler/State.antt =====
-- The state of src/nc_compiler.c: its static variables and `comp_inst_t`, as one record, and the
-- actions on it. `error` leaves the compiler by `longjmp`, with what was written so far; that is
-- the outcome `raised`.
use nanoc.Base.{
  ℕ, ◌+◌, ◌/◌, Bool, false, Option, none, some, List, [], ◌∷◌, ltb, if◌then◌else◌, length, get_or,
  set, Run, done,
}
use nanoc.Base.Outcome
use nanoc.Base.Word.{u8, u16}
use nanoc.Vm.Opcode.{Opcode, number}

-- `sym_t`; a free entry has the empty name.
pub record Symbol : Type 0 where
  pub name : List ℕ
  pub type : ℕ
  pub is_local : Bool
  pub param_count : ℕ
  pub return_type : ℕ
  pub value : ℕ

abbrev pub blank : Symbol
blank = record {
  name = [];
  type = 0;
  is_local = false;
  param_count = 0;
  return_type = 0;
  value = 0;
}

-- `xfunc_t`; the list of types has `num_params` elements.
pub record XFunc : Type 0 where
  pub return_type : ℕ
  pub types : List ℕ

-- `fwdecl_t`
pub record Forward : Type 0 where
  pub idx : ℕ
  pub pos : ℕ

-- The messages of `error`, without the name that some of them quote.
pub data Error : Type 0 where
  line_too_long unknown_character syntax_error label_expected code_size_exceeded : Error
  wrong_number_of_arguments local_string_not_writable type_mismatch unknown_variable_type : Error
  string_identifier_expected identifier_expected local_arrays_not_supported : Error
  increment_not_supported decrement_not_supported function_name_expected type_expected : Error
  parameter_name_expected return_outside_function void_cannot_return must_return_value : Error
  format_expected missing_argument unknown_external_function parameter_required : Error
  break_outside_loop too_many_breaks case_value_expected case_value_out_of_range : Error
  duplicate_case_value comma_expected symbol_table_full unknown_symbol : Error
  too_many_forward_declarations label_not_found declaration_not_resolved : Error
  array_or_string_expected function_without_value unknown_operator : Error

pub record Message : Type 0 where
  pub line : ℕ
  pub error : Error

-- `running` is `pCi != NULL`. `lines` is what `nc_get_code_line` of the host has still to return. A
-- pointer into the line is the text from there on, or `none` for NULL. The arrays with a counter
-- are lists of the elements in use.
pub record Comp : Type 0 where
  pub symbols : List Symbol
  pub curr_var_idx : ℕ
  pub start_of_vars : ℕ
  pub xfuncs : List XFunc
  pub running : Bool
  pub lines : List (List ℕ)
  pub forward_decl : List Forward
  pub code : List ℕ
  pub trace : List ℕ
  pub pc : ℕ
  pub linenum : ℕ
  pub err_count : ℕ
  pub sym_idx : ℕ
  pub buff : List ℕ
  pub constants : List ℕ
  pub pos : Option (List ℕ)
  pub next_pos : Option (List ℕ)
  pub value : ℕ
  pub next_tok : ℕ
  pub in_func : Bool
  pub local_var_count : ℕ
  pub func_return_type : ℕ
  pub loop_type : ℕ
  pub for_depth : ℕ
  pub breaks : List ℕ
  pub messages : List Message

pub data Result (A : Type 0) : Type 0 where
  ok : A → Comp → Result A
  raised : Comp → Result A
  fault out_of_fuel : Result A

abbrev pub M : Type 0 → Type 0
M A = Comp → Result A

-- What comes after the outcome of the first part of a block.
abbrev pub continue : {A B : Type 0} → Result A → (A → M B) → Result B
continue (ok a c) f = f a c
continue (raised c) f = raised c
continue fault f = fault
continue out_of_fuel f = out_of_fuel

infixl 5 ◌>>=◌ ◌>>◌
unfoldable pub ◌>>=◌ : {A B : Type 0} → M A → (A → M B) → M B
◌>>=◌ m f c = continue (m c) f

abbrev pub ◌>>◌ : {B : Type 0} → M (Unit {0}) → M B → M B
m >> k = m >>= λ _. k

unfoldable pub pure : {A : Type 0} → A → M A
pure a c = ok a c

unfoldable pub gets : {A : Type 0} → (Comp → A) → M A
gets f c = ok (f c) c

unfoldable pub modify : (Comp → Comp) → M (Unit {0})
modify f c = ok tt (f c)

unfoldable pub lift : {A : Type 0} → Run A → M A
lift (done a) c = ok a c
lift Outcome.fault c = fault

unfoldable pub exhausted : {A : Type 0} → M A
exhausted c = out_of_fuel

-- `p_pos = p_next; p_pos[0] = '\0'`
abbrev pub cut : Option (List ℕ) → Option (List ℕ)
cut none = none
cut (some s) = some []

-- `error`; outside a compilation it would use a NULL pointer.
unfoldable pub raise : {A : Type 0} → Error → M A
raise e c =
    if c.running
    then raised (record c {
      messages = record { line = c.linenum; error = e } ∷ c.messages;
      err_count = u16 (c.err_count + 1);
      pos = cut c.next_pos;
      next_pos = cut c.next_pos;
    })
    else fault

abbrev pub skip : M (Unit {0})
skip = pure tt

abbrev pub when : Bool → M (Unit {0}) → M (Unit {0})
when b m = if b then m else skip

-- `a_Symbol[i]`, and a change of it.
unfoldable pub symbol : ℕ → M Symbol
symbol i = gets λ c. get_or c.symbols i blank

unfoldable pub set_symbol : ℕ → (Symbol → Symbol) → M (Unit {0})
set_symbol i f = modify λ c. record c { symbols = set c.symbols i (f (get_or c.symbols i blank)) }

-- `p_code[pc++] = b`
unfoldable pub emit : ℕ → M (Unit {0})
emit b c =
    if ltb c.pc (length c.code)
    then ok tt (record c { code = set c.code c.pc (u8 b); pc = u16 (c.pc + 1) })
    else fault

abbrev pub emit_op : Opcode → M (Unit {0})
emit_op o = emit (number o)

-- `p_code[i] = b`, and `ACS16(p_code[i]) = v` for a `v` below 2 ^ 16.
unfoldable pub patch : ℕ → ℕ → M (Unit {0})
patch i b c =
    if ltb i (length c.code) then ok tt (record c { code = set c.code i (u8 b) }) else fault

abbrev pub patch16 : ℕ → ℕ → M (Unit {0})
patch16 i v = patch i v >> patch (i + 1) (v / 256)

-- `pc += n`
unfoldable pub reserve : ℕ → M (Unit {0})
reserve n = modify λ c. record c { pc = u16 (c.pc + n) }

-- Two bytes, the low one first.
abbrev pub emit16 : ℕ → M (Unit {0})
emit16 v = emit v >> emit (v / 256)

-- `memcpy(&p_code[pc], s, n); pc += n`
unfoldable pub emit_text : List ℕ → M (Unit {0})
emit_text [] = skip
emit_text (b ∷ s) = emit b >> emit_text s

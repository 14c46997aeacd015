-- ===== src/Compiler/Symbols.antt =====
-- The symbol table of src/nc_compiler.c.
use Prim.Native.Char.{code}
use Prim.Native.String.{String}
use nanoc.Base.{
  ℕ, ◌+◌, ◌-◌, Bool, true, false, not, ◌&&◌, ◌||◌, Option, none, some, List, [], ◌∷◌, ◌++◌, ltb,
  ◌==◌, if◌then◌else◌, length, take, replicate,
}
use nanoc.Base.Word.{u8, u16}
use nanoc.Compiler.State.{
  Symbol, blank, M, ◌>>=◌, ◌>>◌, pure, gets, modify, raise, symbol, set_symbol, symbol_table_full,
  unknown_symbol, skip, when,
}
use nanoc.Compiler.Tokens.{
  tok_label, tok_xfunc, tok_nc_int32, tok_str8, tok_func, tok_ret, tok_for, tok_to, tok_step,
  tok_if, tok_else, tok_end, tok_while, tok_and, tok_or, tok_not, tok_mod, tok_break,
  tok_breakpoint, tok_reti, tok_copy, tok_u8, tok_u16, tok_u32, tok_lefts, tok_rights, tok_mids,
  tok_len, tok_val, tok_strs, tok_hexs, tok_nil, tok_strings, tok_str2arr, tok_arr2strs,
  tok_nc_const, tok_instr, tok_free, tok_rnd, tok_abs, tok_printf, tok_dispatch,
}

abbrev pub codes : String → List ℕ
codes String.[] = []
codes (String.◌∷◌ c s) = code c ∷ codes s

-- cfg_MAX_NUM_SYM, k_MAX_SYM_LEN, cfg_MAX_NUM_XFUNC and MAX_XFUNC_PARAMS.
abbrev pub max_num_sym : ℕ
max_num_sym = 256

abbrev pub max_sym_len : ℕ
max_sym_len = 16

abbrev pub max_num_xfunc : ℕ
max_num_xfunc = 32

abbrev pub max_xfunc_params : ℕ
max_xfunc_params = 8

-- `strcmp(s, t) == 0`
unfoldable pub same_text : List ℕ → List ℕ → Bool
same_text [] [] = true
same_text [] (d ∷ t) = false
same_text (c ∷ s) [] = false
same_text (c ∷ s) (d ∷ t) = (c == d) && same_text s t

abbrev pub is_free : Symbol → Bool
is_free s = length s.name == 0

-- The name that the table keeps.
abbrev pub short_name : List ℕ → List ℕ
short_name id = take (max_sym_len - 1) id

-- The first free entry from index `i` on.
unfoldable pub first_free : ℕ → List Symbol → Option ℕ
first_free i [] = none
first_free i (s ∷ table) = if is_free s then some i else first_free (i + 1) table

abbrev pub or_else : Option ℕ → ℕ → Option ℕ
or_else none i = some i
or_else (some j) i = some j

-- The search of `sym_add`: outside a function (`pCi == NULL || !pCi->in_func`) the first match,
-- inside one the first local match or else the first match.
unfoldable pub find : Bool → List ℕ → Option ℕ → ℕ → List Symbol → Option ℕ
find in_func sym found i [] = found
find in_func sym found i (s ∷ table) =
    let matches = not (is_free s) && same_text s.name sym in
    let later = find in_func sym (if matches then or_else found i else found) (i + 1) table in
    if matches && (s.is_local || not in_func) then some i else later

abbrev pub fresh : List ℕ → ℕ → ℕ → Symbol → Symbol
fresh sym val type s = record s {
  name = sym;
  value = val;
  type = type;
  is_local = false;
  param_count = 255;
}

-- A new entry; all but labels take a variable index.
unfoldable pub add_new : List ℕ → ℕ → ℕ → Option ℕ → M ℕ
add_new sym val type none = raise symbol_table_full
add_new sym val type (some i) = do
  set_symbol i (fresh sym val type)
  when (not (type == tok_label)) (modify λ c. record c { curr_var_idx = u8 (c.curr_var_idx + 1) })
  pure i

unfoldable pub sym_found : List ℕ → ℕ → ℕ → Option ℕ → M ℕ
sym_found sym val type none = do
  free ← gets (λ c. first_free 0 c.symbols)
  add_new sym val type free
sym_found sym val type (some i) = do
  s ← symbol i
  when ((s.value == 0) && (s.type == tok_label) && ltb 0 val)
      (set_symbol i λ t. record t { value = val })
  pure i

unfoldable pub sym_add : List ℕ → ℕ → ℕ → M ℕ
sym_add id val type = do
  found ← gets (λ c. find (c.running && c.in_func) (short_name id) none 0 c.symbols)
  sym_found (short_name id) val type found

unfoldable pub first_free_from : ℕ → ℕ → List Symbol → Option ℕ
first_free_from start i [] = none
first_free_from start i (s ∷ table) =
    if not (ltb i start) && is_free s then some i else first_free_from start (i + 1) table

unfoldable pub add_local : List ℕ → ℕ → Option ℕ → M ℕ
add_local id type none = raise symbol_table_full
add_local id type (some i) = do
  set_symbol i λ s. record s {
    name = short_name id;
    value = 0;
    type = type;
    is_local = true;
    param_count = 255;
  }
  modify λ c. record c { curr_var_idx = u8 (c.curr_var_idx + 1) }
  pure i

unfoldable pub sym_add_local : List ℕ → ℕ → M ℕ
sym_add_local id type = do
  free ← gets (λ c. first_free_from c.start_of_vars 0 c.symbols)
  add_local id type free

-- The search of `sym_get` ends at a free entry.
unfoldable pub get_value : List ℕ → List Symbol → Option ℕ
get_value sym [] = none
get_value sym (s ∷ table) =
    if same_text s.name sym then some s.value else if is_free s then none else get_value sym table

unfoldable pub value_found : Option ℕ → M ℕ
value_found none = raise unknown_symbol
value_found (some v) = pure v

unfoldable pub sym_get : List ℕ → M ℕ
sym_get id = do v ← gets (λ c. get_value (short_name id) c.symbols); value_found v

-- The keywords in the order of `nc_init`.
abbrev pub keywords : List (String × ℕ)
keywords =
    ("int32", tok_nc_int32)
    ∷ ("str8", tok_str8)
    ∷ ("func", tok_func)
    ∷ ("return", tok_ret)
    ∷ ("for", tok_for)
    ∷ ("to", tok_to)
    ∷ ("step", tok_step)
    ∷ ("if", tok_if)
    ∷ ("else", tok_else)
    ∷ ("end", tok_end)
    ∷ ("while", tok_while)
    ∷ ("and", tok_and)
    ∷ ("or", tok_or)
    ∷ ("not", tok_not)
    ∷ ("mod", tok_mod)
    ∷ ("break", tok_break)
    ∷ ("breakpoint", tok_breakpoint)
    ∷ ("reti", tok_reti)
    ∷ ("copy", tok_copy)
    ∷ ("u8", tok_u8)
    ∷ ("u16", tok_u16)
    ∷ ("u32", tok_u32)
    ∷ ("left$", tok_lefts)
    ∷ ("right$", tok_rights)
    ∷ ("mid$", tok_mids)
    ∷ ("len", tok_len)
    ∷ ("val", tok_val)
    ∷ ("str$", tok_strs)
    ∷ ("hex$", tok_hexs)
    ∷ ("NULL", tok_nil)
    ∷ ("string$", tok_strings)
    ∷ ("left", tok_lefts)
    ∷ ("right", tok_rights)
    ∷ ("mid", tok_mids)
    ∷ ("str", tok_strs)
    ∷ ("hex", tok_hexs)
    ∷ ("string", tok_strings)
    ∷ ("str2arr", tok_str2arr)
    ∷ ("arr2str$", tok_arr2strs)
    ∷ ("arr2str", tok_arr2strs)
    ∷ ("const", tok_nc_const)
    ∷ ("instr", tok_instr)
    ∷ ("free", tok_free)
    ∷ ("rnd", tok_rnd)
    ∷ ("abs", tok_abs)
    ∷ ("printf", tok_printf)
    ∷ ("dispatch", tok_dispatch)
    ∷ []

unfoldable pub add_keywords : List (String × ℕ) → M (Unit {0})
add_keywords [] = skip
add_keywords ((word, tok) ∷ rest) = do _ ← sym_add (codes word) 0 tok; add_keywords rest

abbrev start_vars : M (Unit {0})
start_vars = modify λ c. record c { start_of_vars = c.curr_var_idx }

unfoldable pub nc_init : M (Unit {0})
nc_init = do
  modify λ c. record c {
    xfuncs = [];
    curr_var_idx = 0;
    start_of_vars = 0;
    symbols = replicate max_num_sym blank;
  }
  add_keywords keywords
  start_vars

-- `types` holds `num_params` elements. 0 is returned for a refusal, else NB_XFUNC (5) plus the index.
unfoldable pub nc_define_external_function : List ℕ → List ℕ → ℕ → M ℕ
nc_define_external_function name types return_type = do
  num ← gets (λ c. length c.xfuncs)
  if not (ltb num max_num_xfunc)
      then pure 0
      else (if ltb max_xfunc_params (length types) then pure 0 else (do
        _ ← sym_add name num tok_xfunc
        modify λ c. record c {
          xfuncs = c.xfuncs ++ (record { return_type = return_type; types = types } ∷ []);
        }
        start_vars
        pure (u8 (5 + num))))

-- The entries from StartOfVars on that are in use and are no labels.
unfoldable pub count_vars : ℕ → ℕ → List Symbol → ℕ
count_vars start i [] = 0
count_vars start i (s ∷ table) =
    (if not (ltb i start) && not (is_free s) && not (s.type == tok_label) then 1 else 0)
    + count_vars start (i + 1) table

unfoldable pub get_num_vars : M ℕ
get_num_vars = gets λ c. u8 (count_vars c.start_of_vars 0 c.symbols)

unfoldable pub label_address : ℕ → ℕ → List ℕ → List Symbol → ℕ
label_address start i name [] = 0
label_address start i name (s ∷ table) =
    if not (ltb i start) && not (is_free s) && (s.type == tok_label) && same_text s.name name
    then s.value
    else label_address start (i + 1) name table

-- A name of 16 or more characters differs from all names of the table.
unfoldable pub nc_get_label_address : List ℕ → M ℕ
nc_get_label_address name = gets λ c. u16 (label_address c.start_of_vars 0 name c.symbols)

-- ===== src/Compiler/Lexer.antt =====
-- The token stream of src/nc_compiler.c: one token of lookahead on the current line, and the next
-- line of the program.
use nanoc.Base.{
  ℕ, zero, suc, ◌+◌, ◌-◌, ◌*◌, min, Bool, true, false, ◌&&◌, ◌||◌, Option, none, some, List, [],
  ◌∷◌, leb, ltb, ◌==◌, if◌then◌else◌, length, get_or, set, drop,
}
use nanoc.Base.Word.{u8, u16, u32}
use nanoc.Scanner.{nc_scanner}
use nanoc.Vm.Text.{atoi}
use nanoc.Compiler.State.{
  M, ◌>>=◌, ◌>>◌, pure, gets, modify, lift, exhausted, fault, raise, symbol, set_symbol, skip, when,
  ok, unknown_character, syntax_error, label_expected, line_too_long,
}
use nanoc.Compiler.Tokens.{
  tok_semicolon, tok_str, tok_num, tok_id, tok_strid, tok_lbrace, tok_rbrace, tok_lbracket,
  tok_rbracket, tok_eq, tok_nq, tok_not, tok_and, tok_or, tok_shl, tok_shr, tok_le, tok_lq, tok_gr,
  tok_gq, tok_inc, tok_dec, tok_label, tok_else, tok_next,
}
use nanoc.Compiler.Symbols.{sym_add}

-- k_MAX_LINE_LEN
abbrev pub max_line_len : ℕ
max_line_len = 128

abbrev pub is_alpha : ℕ → Bool
is_alpha c = (leb b'A' c && leb c b'Z') || (leb b'a' c && leb c b'z')

abbrev pub is_digit : ℕ → Bool
is_digit c = leb b'0' c && leb c b'9'

abbrev pub hex_digit : ℕ → ℕ
hex_digit c = if is_digit c then c - b'0' else if leb b'a' c then c - b'a' + 10 else c - b'A' + 10

-- The scanner has cut the number off, so all that follows the prefix are digits.
unfoldable pub hex_digits : ℕ → List ℕ → ℕ
hex_digits acc [] = acc
hex_digits acc (c ∷ s) = hex_digits (acc * 16 + hex_digit c) s

-- `(uint32_t)strtol(a_buff, NULL, 16)`, where `long` has 64 bits.
unfoldable pub hex_value : List ℕ → ℕ
hex_value buff = u32 (min (hex_digits 0 (drop 2 buff)) 9223372036854775807)

abbrev pub last_char : List ℕ → ℕ
last_char buff = get_or buff (length buff - 1) 0

abbrev pub first_char : List ℕ → ℕ
first_char buff = get_or buff 0 0

abbrev pub second_char : List ℕ → ℕ
second_char buff = get_or buff 1 0

-- The tokens that are operators and brackets, by their first two characters.
unfoldable pub operator_token : List ℕ → Option ℕ
operator_token buff =
    let c = first_char buff in
    let d = second_char buff in
    if c == b'{'
    then some tok_lbrace
    else if c == b'}'
    then some tok_rbrace
    else if c == b'['
    then some tok_lbracket
    else if c == b']'
    then some tok_rbracket
    else if c == b'='
    then some tok_eq
    else if c == b'!'
    then some (if d == b'=' then tok_nq else tok_not)
    else if c == b'&'
    then some (if d == b'&' then tok_and else b'&')
    else if c == b'|'
    then some (if d == b'|' then tok_or else b'|')
    else if c == b'<'
    then some (
        if d == b'<'
        then tok_shl
        else if d == b'='
        then tok_lq
        else if d == b'>'
        then tok_nq
        else tok_le)
    else if c == b'>'
    then some (if d == b'>' then tok_shr else if d == b'=' then tok_gq else tok_gr)
    else if c == b'+'
    then some (if d == b'+' then tok_inc else b'+')
    else if c == b'-'
    then some (if d == b'-' then tok_dec else b'-')
    else if length buff == 1
    then some c
    else none

unfoldable pub operator_or_error : Option ℕ → M ℕ
operator_or_error none = raise unknown_character
operator_or_error (some tok) = pure tok

abbrev pub set_value : ℕ → M (Unit {0})
set_value v = modify λ c. record c { value = v }

-- The part of `next_token` behind the call of the scanner.
unfoldable pub classify : List ℕ → M ℕ
classify [] = pure 0
classify (c ∷ s) =
    if c == b';'
    then pure tok_semicolon
    else if c == 34
    then pure tok_str
    else if is_digit c
    then (if (c == b'0') && (first_char s == b'x' || first_char s == b'X')
        then (do set_value (hex_value (c ∷ s)); pure tok_num)
        else (do v ← lift (atoi (c ∷ s)); set_value v; pure tok_num))
    else if is_alpha c || c == b'_'
    then (do
      var ← gets λ c. c.curr_var_idx
      i ← sym_add (c ∷ s) var (if last_char (c ∷ s) == b'$' then tok_strid else tok_id)
      modify λ c. record c { sym_idx = i }
      t ← symbol i
      pure t.type)
    else operator_or_error (operator_token (c ∷ s))

-- Scans at `p_pos`: the token goes to `a_buff`, and `p_next` behind it.
unfoldable pub scan_token : List ℕ → M ℕ
scan_token s = do
  r ← lift (nc_scanner s)
  modify λ c. record c { buff = r.0; next_pos = r.1 }
  classify (r.0)

unfoldable pub token_from : Option (List ℕ) → M ℕ
token_from none = pure 0
token_from (some []) = pure 0
token_from (some (c ∷ s)) = scan_token (c ∷ s)

unfoldable pub next_token : M ℕ
next_token = do p ← gets (λ c. c.pos); token_from p

-- `p_pos == p_next`: both are NULL, or as many characters follow on the line.
abbrev pub same_place : Option (List ℕ) → Option (List ℕ) → Bool
same_place none none = true
same_place none (some t) = false
same_place (some s) none = false
same_place (some s) (some t) = length s == length t

-- Reads a token, if there is none ahead.
unfoldable pub fetch : M (Unit {0})
fetch = do
  empty ← gets λ c. same_place c.pos c.next_pos
  when empty (do tok ← next_token; modify λ c. record c { next_tok = tok })

unfoldable pub lookahead : M ℕ
lookahead = do fetch; gets λ c. c.next_tok

-- `p_next[0]`
unfoldable pub lookfurther : M ℕ
lookfurther c = elim (c.next_pos) [ none ↦ fault | some s ↦ ok (first_char s) c ]

unfoldable pub next : M ℕ
next = do fetch; modify (λ c. record c { pos = c.next_pos }); gets λ c. c.next_tok

unfoldable pub match : ℕ → M (Unit {0})
match expected = do tok ← next; if tok == expected then skip else raise syntax_error

-- A name that was taken for a variable becomes a label.
unfoldable pub label : M (Unit {0})
label = do
  tok ← lookahead
  if tok == tok_id
      then (do
        i ← gets λ c. c.sym_idx
        set_symbol i λ s. record s { type = tok_label }
        modify λ c. record c { next_tok = tok_label; curr_var_idx = u8 (c.curr_var_idx + 255) })
      else (if tok == tok_label then skip else raise label_expected)
  match tok_label

-- BLOCKEND
abbrev pub block_end : ℕ → Bool
block_end tok = tok == tok_else || tok == tok_next || tok == tok_rbrace

-- `p_trace[pc] = linenum`
unfoldable pub trace_print : M (Unit {0})
trace_print c =
    if ltb c.pc (length c.trace)
    then ok tt (record c { trace = set c.trace c.pc c.linenum })
    else fault

-- The blanks and tabs before a directive.
unfoldable pub skip_blanks : List ℕ → List ℕ
skip_blanks [] = []
skip_blanks (c ∷ s) = if c == 32 || c == 9 then skip_blanks s else c ∷ s

-- The text behind `//#line `.
unfoldable pub after_prefix : List ℕ → List ℕ → Option (List ℕ)
after_prefix [] s = some s
after_prefix (c ∷ p) [] = none
after_prefix (c ∷ p) (d ∷ s) = if c == d then after_prefix p s else none

abbrev pub directive : List ℕ
directive = b'/' ∷ b'/' ∷ b'#' ∷ b'l' ∷ b'i' ∷ b'n' ∷ b'e' ∷ 32 ∷ []

-- `while(next_tok == ':') ...`; each round takes a colon off the line.
unfoldable pub skip_colons : ℕ → M (Unit {0})
skip_colons zero = exhausted
skip_colons (suc fuel) = do
  tok ← gets λ c. c.next_tok
  let more = (do
    modify λ c. record c { pos = c.next_pos }
    tok' ← next_token
    modify λ c. record c { next_tok = tok' }
    skip_colons fuel)
  when (tok == b':') more

-- Makes `line` the current line and reads its first token.
unfoldable pub start_line : List ℕ → M (Unit {0})
start_line line = do
  modify λ c. record c { pos = some line; next_pos = some line }
  tok ← next_token
  modify λ c. record c { next_tok = tok }
  skip_colons (suc (suc (length line)))
  modify λ c. record c { linenum = u16 (c.linenum + 1) }
  trace_print

-- `get_line`: takes lines until one is no directive; `false` if there is none left.
unfoldable pub take_lines : List (List ℕ) → M Bool
take_lines [] = do modify (λ c. record c { lines = [] }); pure false
take_lines (line ∷ rest) =
    let go_on = take_lines rest in
    let number = λ (s : List ℕ). (do
      n ← lift (atoi s)
      modify λ c. record c { linenum = u16 (n + 65535) }
      go_on) in
    do
      modify λ c. record c { lines = rest }
      when (ltb (max_line_len - 2) (length line)) (raise line_too_long)
      elim (after_prefix directive (skip_blanks line)) [
        | some s ↦ number s
        | none ↦ (do start_line line; pure true)
      ]

unfoldable pub get_line : M Bool
get_line = do lines ← gets (λ c. c.lines); take_lines lines

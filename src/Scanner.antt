-- ===== src/Scanner.antt =====
-- src/nc_scanner.c: one call of `nc_scanner` cuts the next token off a line. The line is the list
-- of the bytes before its terminator; where the code reads at the end it reads 0, and a read past
-- the terminator is a `fault`. The token written to `p_out` is returned beside the rest of the line
-- (`none` is NULL).
pub mod Progress
mod Tests
use nanoc.Base.{
  ℕ, ◌%◌, bit_and, Bool, true, false, not, ◌&&◌, ◌||◌, Option, none, some, List, [], ◌∷◌, ◌++◌,
  ◌==◌, if◌then◌else◌, get_or, Run, done, fault, ◌>>=◌,
}

-- The classes of the 128 characters.
unfoldable pub ascii : List ℕ
ascii =
    0x00 ∷ 0x00 ∷ 0x00 ∷ 0x00 ∷ 0x00 ∷ 0x00 ∷ 0x00 ∷ 0x00 ∷ 0x04 ∷ 0x04 ∷ 0x00 ∷ 0x00 ∷ 0x00 ∷ 0x04
    ∷ 0x00 ∷ 0x00 ∷ 0x00 ∷ 0x00 ∷ 0x00 ∷ 0x00 ∷ 0x00 ∷ 0x00 ∷ 0x00 ∷ 0x00 ∷ 0x00 ∷ 0x00 ∷ 0x04
    ∷ 0x00 ∷ 0x00 ∷ 0x04 ∷ 0x00 ∷ 0x00 ∷ 0x04 ∷ 0x08 ∷ 0x00 ∷ 0x00 ∷ 0x00 ∷ 0x10 ∷ 0x10 ∷ 0x00
    ∷ 0x00 ∷ 0x00 ∷ 0x10 ∷ 0x10 ∷ 0x00 ∷ 0x10 ∷ 0x00 ∷ 0x10 ∷ 0x22 ∷ 0x22 ∷ 0x22 ∷ 0x22 ∷ 0x22
    ∷ 0x22 ∷ 0x22 ∷ 0x22 ∷ 0x22 ∷ 0x22 ∷ 0x00 ∷ 0x00 ∷ 0x08 ∷ 0x08 ∷ 0x08 ∷ 0x00 ∷ 0x00 ∷ 0x21
    ∷ 0x21 ∷ 0x21 ∷ 0x21 ∷ 0x21 ∷ 0x21 ∷ 0x01 ∷ 0x01 ∷ 0x01 ∷ 0x01 ∷ 0x01 ∷ 0x01 ∷ 0x01 ∷ 0x01
    ∷ 0x01 ∷ 0x01 ∷ 0x01 ∷ 0x01 ∷ 0x01 ∷ 0x01 ∷ 0x01 ∷ 0x01 ∷ 0x01 ∷ 0x01 ∷ 0x01 ∷ 0x01 ∷ 0x00
    ∷ 0x00 ∷ 0x00 ∷ 0x10 ∷ 0x01 ∷ 0x00 ∷ 0x21 ∷ 0x21 ∷ 0x21 ∷ 0x21 ∷ 0x21 ∷ 0x21 ∷ 0x01 ∷ 0x01
    ∷ 0x01 ∷ 0x01 ∷ 0x01 ∷ 0x01 ∷ 0x01 ∷ 0x01 ∷ 0x01 ∷ 0x01 ∷ 0x01 ∷ 0x01 ∷ 0x01 ∷ 0x01 ∷ 0x01
    ∷ 0x01 ∷ 0x01 ∷ 0x01 ∷ 0x01 ∷ 0x01 ∷ 0x00 ∷ 0x10 ∷ 0x00 ∷ 0x00 ∷ 0x00 ∷ []

unfoldable pub has_class : ℕ → ℕ → Bool
unfolding ascii
has_class mask c = not (bit_and (get_or ascii (c % 128) 0) mask == 0)

abbrev pub is_alpha : ℕ → Bool
is_alpha = has_class 1

abbrev pub is_digit : ℕ → Bool
is_digit = has_class 2

abbrev pub is_wspace : ℕ → Bool
is_wspace = has_class 4

abbrev pub is_alnum : ℕ → Bool
is_alnum = has_class 3

abbrev pub is_comp : ℕ → Bool
is_comp = has_class 8

abbrev pub is_arith : ℕ → Bool
is_arith = has_class 16

abbrev pub is_hexdigit : ℕ → Bool
is_hexdigit = has_class 32

abbrev pub Token : Type 0
Token = List ℕ × Option (List ℕ)

-- `while(test(*p_in)) p_in++;`
unfoldable pub skip : (ℕ → Bool) → List ℕ → List ℕ
skip p [] = []
skip p (c ∷ s) = if p c then skip p s else c ∷ s

-- `while(test(*p_in)) *p_out++ = *p_in++;`, in front of what was written before.
unfoldable pub take_while : (ℕ → Bool) → List ℕ → List ℕ × List ℕ
take_while p [] = ([], [])
take_while p (c ∷ s) = let (t, rest) = take_while p s in if p c then (c ∷ t, rest) else ([], c ∷ s)

abbrev pub token : List ℕ → List ℕ × List ℕ → Run Token
token first (t, rest) = done (first ++ t, some rest)

-- A name, with the `$` of a string after it.
abbrev pub with_suffix : List ℕ × List ℕ → List ℕ × List ℕ
with_suffix (t, []) = (t, [])
with_suffix (t, c ∷ rest) = if c == b'$' then (t ++ (c ∷ []), rest) else (t, c ∷ rest)

-- A number that begins with `c`: hexadecimal after 0x or 0X.
abbrev pub number : ℕ → List ℕ → Run Token
number c [] = done (c ∷ [], some [])
number c (d ∷ s) =
    if (c == b'0') && (d == b'x' || d == b'X')
    then token (c ∷ d ∷ []) (take_while is_hexdigit s)
    else token (c ∷ []) (take_while is_digit (d ∷ s))

-- The rest of a string literal, its closing quote included.
unfoldable pub literal : List ℕ → Run (List ℕ × List ℕ)
literal [] = fault
literal (c ∷ s) =
    let more = literal s >>= λ r. done (c ∷ r.0, r.1) in if c == 34 then done (c ∷ [], s) else more

-- `*p_in` is this character.
abbrev pub next_is : ℕ → List ℕ → Bool
next_is c [] = false
next_is c (d ∷ s) = d == c

abbrev pub skip_one : List ℕ → List ℕ
skip_one [] = []
skip_one (c ∷ s) = s

-- A comment reaches up to the end of the line, where the loop ends with no token.
abbrev pub is_comment : ℕ → List ℕ → Bool
is_comment c s = c == 39 || (c == b'/' && next_is b'/' s)

-- The body of the loop at the character `c`.
unfoldable pub scan_at : ℕ → List ℕ → Run Token
scan_at c s =
    if is_comment c s
    then done ([], none)
    else if c == b';'
    then done (c ∷ [], some s)
    else if is_alpha c
    then token (c ∷ []) (with_suffix (take_while is_alnum s))
    else if is_digit c
    then number c s
    else if is_comp c
    then token (c ∷ []) (take_while is_comp s)
    else if c == b'+' && next_is b'+' s
    then done (c ∷ b'+' ∷ [], some (skip_one s))
    else if c == b'-' && next_is b'-' s
    then done (c ∷ b'-' ∷ [], some (skip_one s))
    else if is_arith c
    then token (c ∷ []) (take_while is_arith s)
    else if c == 34
    then (literal s >>= token (c ∷ []))
    else if c == 10 || c == 13
    then done ([], none)
    else done (c ∷ [], some s)

unfoldable pub scan_line : List ℕ → Run Token
scan_line [] = done ([], none)
scan_line (c ∷ s) = scan_at c s

unfoldable pub nc_scanner : List ℕ → Run Token
nc_scanner s = scan_line (skip is_wspace s)

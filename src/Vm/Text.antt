-- ===== src/Vm/Text.antt =====
-- What src/nc_runtime.c uses of the C library on strings, on lists of bytes: `strlen` and the
-- bytes up to the terminator, `strcmp`, `strstr`, `atoi`, and the formats %d and %X of `snprintf`.
use nanoc.Base.{
  ℕ, zero, suc, ◌+◌, ◌-◌, ◌*◌, ◌/◌, ◌%◌, Bool, true, false, ◌&&◌, ◌||◌, Option, none, some, List,
  [], ◌∷◌, ◌++◌, ltb, leb, ◌==◌, if◌then◌else◌, length, Run, done, fault, ◌>>=◌, replicate, take,
}
use nanoc.Base.Word.{is_neg, magnitude, neg32}

-- The bytes up to the first 0; `fault` if there is none.
unfoldable pub c_string : List ℕ → Run (List ℕ)
c_string [] = fault
c_string (c ∷ s) = if c == 0 then done [] else (c_string s >>= λ t. done (c ∷ t))

-- `strncpy (dst, s, n)` writes these bytes: at most `n` of the string, then zeros.
unfoldable pub padded : ℕ → List ℕ → List ℕ
padded n s = take n s ++ replicate (n - length s) 0

pub data Order : Type 0 where
  less equal greater : Order

unfoldable pub compare_text : List ℕ → List ℕ → Order
compare_text [] [] = equal
compare_text [] (d ∷ t) = less
compare_text (c ∷ s) [] = greater
compare_text (c ∷ s) (d ∷ t) =
    if c == d then compare_text s t else if ltb c d then less else greater

unfoldable pub starts_with : List ℕ → List ℕ → Bool
starts_with [] s = true
starts_with (c ∷ p) [] = false
starts_with (c ∷ p) (d ∷ s) = (c == d) && starts_with p s

-- `strstr`: the index of the first occurrence.
unfoldable pub find_text : List ℕ → List ℕ → Option ℕ
find_text p [] = if starts_with p [] then some 0 else none
find_text p (d ∷ s) =
    let later : Option ℕ = elim (find_text p s) [ none ↦ none | some i ↦ some (suc i) ] in
    if starts_with p (d ∷ s) then some 0 else later

abbrev pub is_digit : ℕ → Bool
is_digit c = leb b'0' c && leb c b'9'

-- `isspace`.
abbrev pub is_space : ℕ → Bool
is_space c = (c == 32) || (leb 9 c && leb c 13)

unfoldable pub skip_spaces : List ℕ → List ℕ
skip_spaces [] = []
skip_spaces (c ∷ s) = if is_space c then skip_spaces s else c ∷ s

unfoldable pub digits_value : ℕ → List ℕ → ℕ
digits_value acc [] = acc
digits_value acc (c ∷ s) =
    let more = digits_value (acc * 10 + (c - b'0')) s in if is_digit c then more else acc

-- A value that `int` does not hold is undefined.
abbrev pub positive_int : ℕ → Run ℕ
positive_int n = if ltb n 2147483648 then done n else fault

abbrev pub negative_int : ℕ → Run ℕ
negative_int n = if leb n 2147483648 then done (neg32 n) else fault

unfoldable pub signed_value : List ℕ → Run ℕ
signed_value [] = done 0
signed_value (c ∷ s) =
    if c == b'-'
    then negative_int (digits_value 0 s)
    else if c == b'+'
    then positive_int (digits_value 0 s)
    else positive_int (digits_value 0 (c ∷ s))

unfoldable pub atoi : List ℕ → Run ℕ
atoi s = signed_value (skip_spaces s)

-- The digits of a number in a base up to 16, upper case; ten rounds are enough for 32 bits.
abbrev pub digit : ℕ → ℕ
digit d = if ltb d 10 then b'0' + d else 55 + d

unfoldable pub digits_of : ℕ → ℕ → ℕ → List ℕ → List ℕ
digits_of base zero n acc = acc
digits_of base (suc fuel) n acc =
    let more = digits_of base fuel (n / base) (digit (n % base) ∷ acc) in
    if ltb n base then digit n ∷ acc else more

unfoldable pub decimal : ℕ → List ℕ
decimal n = if is_neg n then b'-' ∷ digits_of 10 10 (magnitude n) [] else digits_of 10 10 n []

unfoldable pub hexadecimal : ℕ → List ℕ
hexadecimal n = digits_of 16 10 n []

-- ===== src/Vm/Printf.antt =====
-- The `k_PRINTF_Nx` case of `nc_run` (src/nc_runtime.c): the format is read from the code up to its
-- terminator, and each piece goes to `nc_print` of the host.
use nanoc.Base.{
  ℕ, zero, suc, ◌+◌, ◌-◌, ◌*◌, Bool, false, ◌&&◌, List, [], ◌∷◌, ltb, leb, ◌==◌, if◌then◌else◌,
  length, get_elem?, drop, done, checked,
}
use nanoc.Base.Outcome
use nanoc.Vm.State.{
  M, pure, gets, undefined, ◌>>=◌, ◌>>◌, pop, operand, print, char, number, text, advance, Flow,
}
use nanoc.Vm.Strings.{get_string}

-- Pops `n` arguments; the last popped is the first.
unfoldable pub pop_args : ℕ → List ℕ → M (List ℕ)
pop_args zero args = pure args
pop_args (suc n) args = do a ← pop; pop_args n (a ∷ args)

-- What follows a `%`: the flags `-` and `0`, the width, and the rest from the conversion on.
pub record Spec : Type 0 where
  pub left : Bool
  pub zeros : Bool
  pub width : ℕ
  pub rest : List ℕ

unfoldable pub parse_width : ℕ → List ℕ → ℕ × List ℕ
parse_width w [] = (w, [])
parse_width w (c ∷ s) =
    let more = parse_width (w * 10 + (c - b'0')) s in
    if leb b'0' c && leb c b'9' then more else (w, c ∷ s)

abbrev pub has_flag : ℕ → List ℕ → Bool
has_flag f [] = false
has_flag f (c ∷ s) = c == f

abbrev pub after_flag : ℕ → List ℕ → List ℕ
after_flag f s = if has_flag f s then drop 1 s else s

unfoldable pub parse_spec : List ℕ → Spec
parse_spec s =
    let s₁ = after_flag b'-' s in
    let (w, rest) = parse_width 0 (after_flag b'0' s₁) in
    record { left = has_flag b'-' s; zeros = has_flag b'0' s₁; width = w; rest = rest }

-- `args[arg_idx++]`; an argument that was not passed is undefined.
abbrev pub arg : List ℕ → ℕ → M ℕ
arg args i vm = Outcome.◌>>=◌ (checked (get_elem? args i)) (λ a. done (a, vm))

-- The conversion `c`; the new argument index is returned.
unfoldable pub convert : List ℕ → ℕ → Spec → ℕ → M ℕ
convert args i spec c =
    if (c == b'd')
    then (do a ← arg args i; print (number c spec.left spec.zeros spec.width a); pure (i + 1))
    else if (c == b'u')
    then (do a ← arg args i; print (number c spec.left spec.zeros spec.width a); pure (i + 1))
    else if (c == b'h')
    then (do a ← arg args i; print (number c spec.left spec.zeros spec.width a); pure (i + 1))
    else if c == b's'
    then (do a ← arg args i; s ← get_string a; print (text spec.left spec.width s); pure (i + 1))
    else if c == b'%'
    then (do print (char b'%'); pure i)
    else (do print (char b'%'); print (char c); pure i)

-- The character of an escape.
abbrev pub escape : ℕ → ℕ
escape c = if c == b'a' then 7 else if c == b'n' then 10 else if c == b't' then 9 else c

-- One round of the `for` over the format: what stands at `p` and after it. A conversion that the
-- terminator cuts off takes the terminator for its letter, and the loop goes on behind it.
unfoldable pub format_loop : ℕ → List ℕ → List ℕ → ℕ → M (Unit {0})
format_loop zero fmt args i = undefined
format_loop (suc fuel) [] args i = undefined
format_loop (suc fuel) (c ∷ []) args i = if c == 0 then pure tt else undefined
format_loop (suc fuel) (c ∷ d ∷ s) args i =
    let escaped = (do print (char (escape d)); format_loop fuel s args i) in
    let plain = (do print (char c); format_loop fuel (d ∷ s) args i) in
    let spec = parse_spec (d ∷ s) in
    let converted : M (Unit {0}) = elim spec.rest [
      | [] ↦ undefined
      | k ∷ rest ↦ (do j ← convert args i spec k; format_loop fuel rest args j)
    ] in
    if c == 0
    then pure tt
    else if (c == 92) && ltb 0 d
    then escaped
    else if (c == b'%') && ltb 0 d
    then converted
    else plain

-- The array of arguments has 8 elements.
unfoldable pub exec_printf : M Flow
exec_printf = do
  nargs ← operand 1
  slen ← operand 2
  fmt ← gets (λ vm. drop (vm.pc + 3) vm.code)
  if ltb 8 nargs
      then undefined
      else (do args ← pop_args nargs []; format_loop (length fmt) fmt args 0; advance (3 + slen))

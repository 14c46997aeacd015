-- ===== src/Vm/Arith.antt =====
-- The cases of `nc_run` (src/nc_runtime.c) that compute with numbers. Signed overflow wraps, as it
-- does on the two's complement targets; a shift by a count outside 0..31 and a division that traps
-- are undefined.
use nanoc.Base.{
  ℕ, ◌+◌, ◌-◌, ◌*◌, ◌/◌, ◌%◌, ◌^◌, not, ◌&&◌, ◌||◌, bit_and, bit_or, bit_xor, ltb, ◌==◌,
  if◌then◌else◌,
}
use nanoc.Base.Word.{u32, neg32, is_neg, magnitude, slt, sle, quotient, remainder, divides, bit}
use nanoc.Vm.State.{
  M, undefined, ◌>>=◌, ◌>>◌, push, pop, top, set_top, advance, print, division_by_zero, Flow,
}

-- `tmp2 = POP(); TOP() = f(TOP(), tmp2);`
abbrev pub binary : (ℕ → ℕ → ℕ) → M Flow
binary f = do b ← pop; a ← top; set_top (f a b); advance 1

abbrev pub unary : (ℕ → ℕ) → M Flow
unary f = do a ← top; set_top (f a); advance 1

unfoldable pub exec_add : M Flow
exec_add = binary λ a b. u32 (a + b)

unfoldable pub exec_sub : M Flow
exec_sub = binary λ a b. u32 (a + 4294967296 - b)

unfoldable pub exec_mul : M Flow
exec_mul = binary λ a b. u32 (a * b)

unfoldable pub exec_div : M Flow
exec_div = do
  b ← pop
  a ← top
  if b == 0
      then (do print division_by_zero; set_top 0; advance 1)
      else if divides a b
      then (do set_top (quotient a b); advance 1)
      else undefined

unfoldable pub exec_mod : M Flow
exec_mod = do
  b ← pop
  a ← top
  if b == 0
      then (do set_top 0; advance 1)
      else if divides a b
      then (do set_top (remainder a b); advance 1)
      else undefined

unfoldable pub exec_and : M Flow
exec_and = binary λ a b. bit (not (a == 0) && not (b == 0))

unfoldable pub exec_or : M Flow
exec_or = binary λ a b. bit (not (a == 0) || not (b == 0))

unfoldable pub exec_not : M Flow
exec_not = unary λ a. bit (a == 0)

unfoldable pub exec_neg : M Flow
exec_neg = unary neg32

unfoldable pub exec_band : M Flow
exec_band = binary bit_and

unfoldable pub exec_bor : M Flow
exec_bor = binary bit_or

unfoldable pub exec_bxor : M Flow
exec_bxor = binary bit_xor

abbrev pub shift : (ℕ → ℕ → ℕ) → M Flow
shift f = do b ← pop; a ← top; if ltb b 32 then (do set_top (f a b); advance 1) else undefined

unfoldable pub exec_shl : M Flow
exec_shl = shift λ a b. u32 (a * 2 ^ b)

unfoldable pub exec_shr : M Flow
exec_shr = shift λ a b. a / 2 ^ b

unfoldable pub exec_equal : M Flow
exec_equal = binary λ a b. bit (a == b)

unfoldable pub exec_not_equal : M Flow
exec_not_equal = binary λ a b. bit (not (a == b))

unfoldable pub exec_less : M Flow
exec_less = binary λ a b. bit (slt a b)

unfoldable pub exec_less_equ : M Flow
exec_less_equ = binary λ a b. bit (sle a b)

unfoldable pub exec_greater : M Flow
exec_greater = binary λ a b. bit (slt b a)

unfoldable pub exec_greater_equ : M Flow
exec_greater_equ = binary λ a b. bit (sle b a)

-- `rand() % (tmp1 + 1)`, where `rand()` returns `r`. The divisor is 0 for -1, which traps.
unfoldable pub exec_rnd : ℕ → M Flow
exec_rnd r = do
  a ← pop
  if a == 0
      then (do push 0; advance 1)
      else if a == 4294967295
      then undefined
      else (do push (r % magnitude (u32 (a + 1))); advance 1)

unfoldable pub exec_abs : M Flow
exec_abs = do a ← pop; push (if is_neg a then neg32 a else a); advance 1

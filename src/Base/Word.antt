-- ===== src/Base/Word.antt =====
-- Machine words as native numbers. An `int32_t` is its bit pattern, a number below 2 ^ 32.
use Prim.Native.Nat.{ℕ, ◌+◌, ◌-◌, ◌/◌, ◌%◌, ◌<◌}
use mathlib.Core.Path.{◌≡◌}
use mathlib.Core.Bool.{Bool, true, false, not}
use native.Mathlib.Omega.{arith}
use nanoc.Base.Tests.{ltb, leb, ◌==◌, if◌then◌else◌}

-- Conversions to `uint8_t`, `uint16_t` and `uint32_t`.
abbrev pub u8 : ℕ → ℕ
u8 a = a % 256

abbrev pub u16 : ℕ → ℕ
u16 a = a % 65536

abbrev pub u32 : ℕ → ℕ
u32 a = a % 4294967296

abbrev pub IsWord : ℕ → Type 0
IsWord a = a < 4294967296

-- The sign bit of an `int32_t`.
abbrev pub is_neg : ℕ → Bool
is_neg a = leb 2147483648 a

-- Two's complement negation, and the absolute value of a pattern as a number.
abbrev pub neg32 : ℕ → ℕ
neg32 a = u32 (4294967296 - a)

abbrev pub magnitude : ℕ → ℕ
magnitude a = if is_neg a then 4294967296 - a else a

-- The order-preserving map of `int32_t` to the numbers below 2 ^ 32: adds 2 ^ 31.
abbrev pub bias : ℕ → ℕ
bias a = u32 (a + 2147483648)

-- `a < b` and `a <= b` on `int32_t`.
abbrev pub slt : ℕ → ℕ → Bool
slt a b = ltb (bias a) (bias b)

abbrev pub sle : ℕ → ℕ → Bool
sle a b = leb (bias a) (bias b)

pub bias_injective : (a b : ℕ) → IsWord a → IsWord b → bias a ≡ bias b → a ≡ b
bias_injective a b p q e = omega arith

-- Multiplication of the signs: the result is negative if just one of them is.
abbrev pub signed : Bool → Bool → ℕ → ℕ
signed true true n = u32 n
signed true false n = neg32 n
signed false true n = neg32 n
signed false false n = u32 n

-- Division rounds towards zero, and a remainder has the sign of the dividend.
abbrev pub quotient : ℕ → ℕ → ℕ
quotient a b = signed (is_neg a) (is_neg b) (magnitude a / magnitude b)

abbrev pub remainder : ℕ → ℕ → ℕ
remainder a b = signed (is_neg a) false (magnitude a % magnitude b)

-- `INT32_MIN / -1` has no result in `int32_t`.
abbrev pub divides : ℕ → ℕ → Bool
divides a b = if ltb 0 b then if a == 2147483648 then not (b == 4294967295) else true else false

-- `MIN(a, b)` on `int32_t`.
abbrev pub smin : ℕ → ℕ → ℕ
smin a b = if slt a b then a else b

-- A C truth value.
abbrev pub bit : Bool → ℕ
bit true = 1
bit false = 0

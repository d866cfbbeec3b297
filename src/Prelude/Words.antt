-- ===== src/Prelude/Words.antt =====
-- 32-bit words: a `uint32` is a number below 2 ^ 32, an `int` its bit pattern.
use Prim.Native.Nat.{ℕ, ◌+◌, ◌-◌, ◌%◌, ◌^◌}
use mathlib.Core.Bool.{Bool}
use fos_simple_os.Prelude.Tests.{ltb, leb}

abbrev pub u32 : ℕ → ℕ
u32 n = n % 2 ^ 32

abbrev pub add32 : ℕ → ℕ → ℕ
add32 a b = u32 (a + b)

abbrev pub sub32 : ℕ → ℕ → ℕ
sub32 a b = u32 (a + 2 ^ 32 - b)

-- `<` and `<=` on `int`, read off the bit patterns by moving the sign bit.
abbrev pub slt : ℕ → ℕ → Bool
slt a b = ltb (add32 a (2 ^ 31)) (add32 b (2 ^ 31))

abbrev pub sle : ℕ → ℕ → Bool
sle a b = leb (add32 a (2 ^ 31)) (add32 b (2 ^ 31))

-- `ROUNDDOWN` and `ROUNDUP` of inc/types.h at the page size.
abbrev pub page_size : ℕ
page_size = 4096

abbrev pub round_down : ℕ → ℕ → ℕ
round_down a n = a - a % n

abbrev pub round_up : ℕ → ℕ → ℕ
round_up a n = round_down (sub32 (add32 a n) 1) n

-- ===== src/Prelude/Words.antt =====
-- C's fixed-width integers. A `uint8_t`, `uint16_t` or `uint32_t` is a number below 2 ^ 8, 2 ^ 16 or
-- 2 ^ 32. An `int16_t` is its 16-bit pattern and an `int` its 32-bit pattern: -1 is 2 ^ 16 - 1, and
-- 2 ^ 32 - 1.
use tcg_final_project.Prelude.Tests.{ltb, if◌then◌else◌}
use Prim.Native.Nat.{ℕ, ◌+◌, ◌-◌, ◌%◌, ◌<◌}
use mathlib.Core.Bool.{Bool}

-- `(uint8_t)`, `(int16_t)` and `(uint32_t)` of a sum.
abbrev pub u8 : ℕ → ℕ
u8 n = n % 256

abbrev pub i16 : ℕ → ℕ
i16 n = n % 65536

abbrev pub u32 : ℕ → ℕ
u32 n = n % 4294967296

-- The promotion of an `int16_t` to `int`.
abbrev pub sext16 : ℕ → ℕ
sext16 x = if ltb x 32768 then x else x + 4294901760

-- The conversion of an `int` to `long long`.
abbrev pub sext64 : ℕ → ℕ
sext64 x = if ltb x 2147483648 then x else x + 18446744069414584320

-- `(int16_t)(a - b)` of an `int16_t` and an `int`.
abbrev pub sub_i16 : ℕ → ℕ → ℕ
sub_i16 a b = i16 (a + 4294967296 - b)

-- Sum, difference and `<` of `int`s.
abbrev pub add_int : ℕ → ℕ → ℕ
add_int a b = u32 (a + b)

abbrev pub sub_int : ℕ → ℕ → ℕ
sub_int a b = u32 (a + 4294967296 - b)

abbrev pub ltb_int : ℕ → ℕ → Bool
ltb_int a b = ltb (u32 (a + 2147483648)) (u32 (b + 2147483648))

-- The `int` -k.
abbrev pub neg : ℕ → ℕ
neg k = 4294967296 - k

-- Patterns that stand for no negative number.
abbrev pub IsNat16 : ℕ → Type 0
IsNat16 x = x < 32768

abbrev pub IsNat32 : ℕ → Type 0
IsNat32 x = x < 2147483648

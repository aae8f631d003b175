-- ===== src/Base/Words.antt =====
-- C's unsigned types as native numbers that wrap.
use Prim.Native.Nat.{ℕ, ◌+◌, ◌%◌, ◌^◌}
use mathlib.Core.Bool.{Bool}
use chic_os.Base.Tests.{ltb}

abbrev pub u8 : ℕ → ℕ
u8 n = n % 2 ^ 8

abbrev pub u16 : ℕ → ℕ
u16 n = n % 2 ^ 16

abbrev pub u32 : ℕ → ℕ
u32 n = n % 2 ^ 32

-- `<` on `i32`, of two bit patterns.
abbrev pub lt_i32 : ℕ → ℕ → Bool
lt_i32 a b = ltb (u32 (a + 2 ^ 31)) (u32 (b + 2 ^ 31))

abbrev pub u64 : ℕ → ℕ
u64 n = n % 2 ^ 64

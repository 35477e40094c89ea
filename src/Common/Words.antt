-- ===== src/Common/Words.antt =====
-- Arithmetic of Go's uint64 and uint32: wrap-around written out.
use Prim.Native.Nat.{ℕ, ◌+◌, ◌-◌, ◌%◌, ◌<◌, ◌≤◌}
use mathlib.Core.Path.{◌≡◌}
use mathlib.Core.Bool.{Bool, ◌&&◌}
use enkit.Common.Tests.{ltb, leb}
use native.Mathlib.Omega.{arith}

-- 2 ^ 64 and 2 ^ 32.
abbrev pub u64_mod : ℕ
u64_mod = 18446744073709551616

abbrev pub u32_mod : ℕ
u32_mod = 4294967296

unfoldable pub add64 : ℕ → ℕ → ℕ
add64 a b = (a + b) % u64_mod

-- `-` on ℕ stops at 0, so the modulus is added first.
unfoldable pub sub64 : ℕ → ℕ → ℕ
sub64 a b = (a + (u64_mod - b % u64_mod)) % u64_mod

unfoldable pub to_u32 : ℕ → ℕ
to_u32 a = a % u32_mod

pub add64_small : (a b : ℕ) → a + b < u64_mod → add64 a b ≡ a + b
unfolding add64
add64_small a b h = omega arith

pub sub64_small : (a b : ℕ) → b ≤ a → a < u64_mod → sub64 a b ≡ a - b
unfolding sub64
sub64_small a b h k = omega arith

pub to_u32_small : (a : ℕ) → a < u32_mod → to_u32 a ≡ a
unfolding to_u32
to_u32_small a h = omega arith

-- 2 ^ 63. An int64 is its bit pattern, below 2 ^ 64, and negative from 2 ^ 63 on.
abbrev pub i64_half : ℕ
i64_half = 9223372036854775808

-- `a <= b` of int64.
unfoldable pub leb_i64 : ℕ → ℕ → Bool
unfolding add64
leb_i64 a b = leb (add64 a i64_half) (add64 b i64_half)

-- `a > 0` of int64.
unfoldable pub is_positive : ℕ → Bool
is_positive a = ltb 0 a && ltb a i64_half

-- ===== src/Common/Int64.antt =====
-- Go's `int64` as a bit pattern below 2 ^ 64, with wrap-around written out.
use Prim.Native.Nat.{ℕ, ◌+◌, ◌%◌, ◌^◌, ◌<◌}
use mathlib.Core.Path.{◌≡◌}
use native.Mathlib.Omega.{arith}

abbrev pub modulus : ℕ
modulus = 2 ^ 64

-- a + b on int64
abbrev pub add64 : ℕ → ℕ → ℕ
add64 a b = (a + b) % modulus

-- The signed order of two patterns is the order of their biased values.
abbrev pub bias : ℕ → ℕ
bias a = (a + 2 ^ 63) % modulus

pub add64_assoc : (a b c : ℕ) → add64 (add64 a b) c ≡ add64 a (add64 b c)
add64_assoc a b c = omega arith

-- Small patterns are the non-negative numbers, and their signed order is that of ℕ.
pub bias_small : (a : ℕ) → a < 2 ^ 63 → bias a ≡ a + 2 ^ 63
bias_small a h = omega arith

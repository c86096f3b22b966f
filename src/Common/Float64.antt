-- ===== src/Common/Float64.antt =====
-- Go's `float64` of an integer: the 53 highest bits, rounded to nearest, and to even in the middle.
use Prim.Native.Nat.{ℕ, zero, suc, ◌+◌, ◌-◌, ◌*◌, ◌/◌, ◌%◌, ◌^◌, ◌<◌}
use mathlib.Core.Bool.{Bool, true, false, ◌&&◌, ◌||◌}
use mathlib.Core.Path.{◌≡◌, refl}
use native.Mathlib.Omega.{arith}
use xray_exporter.Common.Tests.{ltb, ◌==◌, if◌then◌else◌}

-- An integer by its sign and magnitude; or what `Seconds` of package time gives for a number of
-- nanoseconds, which is not looked into.
pub data Float64 : Type 0 where
  whole : Bool → ℕ → Float64
  seconds_of : ℕ → Float64

-- The value of the last of the bits that are kept, by halving as often as the fuel says.
unfoldable pub last_place : ℕ → ℕ → ℕ
last_place zero n = 1
last_place (suc fuel) n =
    let rest = last_place fuel (n / 2) in if ltb n (2 ^ 53) then 1 else 2 * rest

-- A multiple of `unit` nearest to n; of two, the even multiple.
unfoldable pub round_to : ℕ → ℕ → ℕ
round_to unit n =
    let q = n / unit in
    let r = n % unit in
    if ltb (r * 2) unit || ((r * 2 == unit) && (q % 2 == 0)) then q * unit else suc q * unit

-- Eleven halvings take a number below 2 ^ 64 below 2 ^ 53.
unfoldable pub round53 : ℕ → ℕ
unfolding last_place round_to
round53 n = round_to (last_place 11 n) n

-- float64 of a uint64
unfoldable pub float_of_uint64 : ℕ → Float64
unfolding round53
float_of_uint64 n = whole false (round53 n)

-- float64 of the int64 with a bit pattern
unfoldable pub float_of_int64 : ℕ → Float64
unfolding round53
float_of_int64 n =
    if ltb n (2 ^ 63) then whole false (round53 n) else whole true (round53 (2 ^ 64 - n))

last_place-enough : (fuel n : ℕ) → n < 2 ^ 53 * 2 ^ fuel → n < 2 ^ 53 * last_place fuel n
unfolding last_place
last_place-enough zero n h = omega arith
last_place-enough (suc fuel) n h = grind (arith, last_place-enough fuel (n / 2))

-- The fuel is enough: what is kept of a number below 2 ^ 64 has at most 53 bits.
round53-enough : (n : ℕ) → n < 2 ^ 64 → n < 2 ^ 53 * last_place 11 n
round53-enough n h = last_place-enough 11 n (omega arith)

round53-small : (n : ℕ) → n < 2 ^ 53 → round53 n ≡ n
unfolding round53 round_to last_place
round53-small n h = ground arith

-- A number below 2 ^ 53 is kept.
pub float_of_int64-small : (n : ℕ) → n < 2 ^ 53 → float_of_int64 n ≡ whole false n
unfolding float_of_int64
float_of_int64-small n h = ground (arith, round53-small n h)

-- 2 ^ 53 + 1 is halfway between two values and goes to the even one; -1 is kept.
rounded : float_of_int64 (2 ^ 53 + 1) ≡ whole false (2 ^ 53)
unfolding float_of_int64 last_place round_to
rounded = refl

rounded_up : float_of_int64 (2 ^ 53 + 3) ≡ whole false (2 ^ 53 + 4)
unfolding float_of_int64 last_place round_to
rounded_up = refl

minus_one : float_of_int64 (2 ^ 64 - 1) ≡ whole true 1
unfolding float_of_int64 last_place round_to
minus_one = refl

largest : float_of_uint64 (2 ^ 64 - 1) ≡ whole false (2 ^ 64)
unfolding float_of_uint64 last_place round_to
largest = refl

-- ===== src/Prelude/Numbers.antt =====
-- Integers over the native numbers, and the double-precision numbers. A finite one
-- is an integer over a power of two; signed zeros are not told apart.
use Prim.Native.Nat.{ℕ, zero, suc, ◌+◌, ◌-◌, ◌*◌, ◌/◌, ◌%◌, ◌^◌}
use mathlib.Core.Bool.{Bool, true, false, not, ◌&&◌, ◌||◌}
use gonest.Prelude.Tests.{ltb, ◌==◌, if◌then◌else◌}

pub data ℤ : Type 0 where
  pos : ℕ → ℤ
  negsuc : ℕ → ℤ

abbrev pub negated : ℕ → ℤ
negated zero = pos 0
negated (suc n) = negsuc n

abbrev pub int_lt : ℤ → ℤ → Bool
int_lt (pos a) (pos b) = ltb a b
int_lt (pos a) (negsuc b) = false
int_lt (negsuc a) (pos b) = true
int_lt (negsuc a) (negsuc b) = ltb b a

abbrev pub int_eq : ℤ → ℤ → Bool
int_eq (pos a) (pos b) = a == b
int_eq (negsuc a) (negsuc b) = a == b
int_eq _ _ = false

abbrev pub scaled : ℤ → ℕ → ℤ
scaled (pos a) k = pos (a * k)
scaled (negsuc a) k = negated ((a + 1) * k)

pub data Float : Type 0 where
  finite : (mantissa : ℤ) (scale : ℕ) → Float
  infinity : (negative : Bool) → Float
  nan : Float

unfoldable pub float_lt : Float → Float → Bool
float_lt (finite a j) (finite b k) = int_lt (scaled a (2 ^ k)) (scaled b (2 ^ j))
float_lt (finite a j) (infinity negative) = not negative
float_lt (infinity negative) (finite b k) = negative
float_lt (infinity true) (infinity false) = true
float_lt _ _ = false

unfoldable pub float_eq : Float → Float → Bool
float_eq (finite a j) (finite b k) = int_eq (scaled a (2 ^ k)) (scaled b (2 ^ j))
float_eq (infinity true) (infinity true) = true
float_eq (infinity false) (infinity false) = true
float_eq _ _ = false

-- The number of binary digits of a number below `2 ^ fuel`.
bit_length : ℕ → ℕ → ℕ
bit_length zero n = 0
bit_length (suc fuel) n = if n == 0 then 0 else suc (bit_length fuel (n / 2))

-- To the nearest number with 53 significant bits, a tie to the even one.
nearest : ℕ → ℕ → ℕ
nearest n unit =
    let quotient = n / unit in
    let twice_rest = 2 * (n % unit) in
    if ltb unit twice_rest || (twice_rest == unit && quotient % 2 == 1)
    then (quotient + 1) * unit
    else quotient * unit

rounded : ℕ → ℕ
unfolding nearest bit_length
rounded n = nearest n (2 ^ (bit_length 64 n - 53))

-- `float64(n)` of an integer of 64 bits.
unfoldable pub float_of_int : ℤ → Float
unfolding rounded
float_of_int (pos n) = finite (pos (rounded n)) 0
float_of_int (negsuc n) = finite (negated (rounded (n + 1))) 0

-- `int64(f)`: towards zero. Out of range, and of what is not finite, the language leaves the result open,
-- and amd64 has the least integer.
in_range : ℤ → ℤ
in_range (pos n) = if ltb n (2 ^ 63) then pos n else negsuc (2 ^ 63 - 1)
in_range (negsuc n) = if ltb n (2 ^ 63) then negsuc n else negsuc (2 ^ 63 - 1)

truncated : ℤ → ℕ → ℤ
truncated (pos n) unit = pos (n / unit)
truncated (negsuc n) unit = negated ((n + 1) / unit)

unfoldable pub int_of_float : Float → ℤ
unfolding in_range truncated
int_of_float (finite mantissa scale) = in_range (truncated mantissa (2 ^ scale))
int_of_float _ = negsuc (2 ^ 63 - 1)

abbrev unsigned_range : ℕ → ℤ → ℤ → ℤ
unsigned_range n exact otherwise =
    if ltb n (2 ^ 64) && not (ltb n (2 ^ 63)) then exact else otherwise

abbrev unsigned_of : ℤ → ℤ → ℤ
unsigned_of (pos n) otherwise = unsigned_range n (pos n) otherwise
unsigned_of (negsuc n) otherwise = otherwise

-- `uint64(f)`: as `int64(f)` but for the numbers that only an unsigned integer has. A negative result
-- stands for the unsigned one with the same bits.
unfoldable pub uint_of_float : Float → ℤ
unfolding truncated int_of_float
uint_of_float (finite mantissa scale) =
    unsigned_of (truncated mantissa (2 ^ scale)) (int_of_float (finite mantissa scale))
uint_of_float f = int_of_float f

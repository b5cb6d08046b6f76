-- ===== src/Float.antt =====
-- Go's float64, as far as pkg/storagemetrics/provider/metrics.go uses it: values that are not
-- negative and far below the largest double. Such a double is a natural number of units of 2^-1074,
-- the smallest one, with at most 53 significant bits; each operation rounds the exact result to the
-- nearest such number, and to the even one half way (IEEE 754).
pub mod Rounding
pub mod Percentage
use storage_metrics_server.Base.{
  ℕ, zero, suc, ◌+◌, ◌-◌, ◌*◌, ◌/◌, ◌%◌, ◌^◌, ◌≡◌, refl, true, false, ltb, nat_beq, if◌then◌else◌,
}

-- 1.0
unfoldable pub one_unit : ℕ
one_unit = 2 ^ 1074

-- The number of binary digits of `n`, with `n` itself as fuel: it halves, so it never runs out.
unfoldable pub bit_length : ℕ → ℕ → ℕ
bit_length zero n = 0
bit_length (suc fuel) n = elim (nat_beq n 0) [ true ↦ 0 | false ↦ suc (bit_length fuel (n / 2)) ]

-- The spacing of the doubles round a value of `q` units: the bits beyond the first 53.
unfoldable pub spacing : ℕ → ℕ
unfolding bit_length
spacing q = 2 ^ (bit_length q q - 53)

-- The multiple of `u` nearest to num / den, given the quotient and the remainder by `den * u`.
unfoldable pub nearest : ℕ → ℕ → ℕ → ℕ → ℕ
nearest u d k r =
    if ltb (2 * r) d
    then k * u
    else if ltb d (2 * r)
    then (k + 1) * u
    else if nat_beq (k % 2) 0
    then k * u
    else (k + 1) * u

-- The double nearest to num / den units.
unfoldable pub round : ℕ → ℕ → ℕ
unfolding spacing nearest
round num den =
    let u = spacing (num / den) in nearest u (den * u) (num / (den * u)) (num % (den * u))

-- float64(x) for a uint64
unfoldable pub of_uint64 : ℕ → ℕ
of_uint64 x = round (x * one_unit) 1

unfoldable pub mul : ℕ → ℕ → ℕ
mul a b = round (a * b) one_unit

-- The division, by a double that is not 0.
unfoldable pub div : ℕ → ℕ → ℕ
div a b = round (a * one_unit) b

-- The whole part.
unfoldable pub truncate : ℕ → ℕ
truncate a = a / one_unit

-- float64(part) * 100000.0 / float64(whole), without its fraction
unfoldable pub milli_of : ℕ → ℕ → ℕ
milli_of part whole = truncate (div (mul (of_uint64 part) (100000 * one_unit)) (of_uint64 whole))

-- Three quarters, all of a small volume, and a full volume of 8510023004810 bytes, which is not
-- reported full.
milli_tests :
    (milli_of 3 4 ≡ 75000)
    × (milli_of 1024 1024 ≡ 100000)
    × (milli_of 8510023004810 8510023004810 ≡ 99999)
unfolding milli_of of_uint64 mul div truncate round one_unit
milli_tests = (refl, refl, refl)

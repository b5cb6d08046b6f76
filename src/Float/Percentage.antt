-- ===== src/Float/Percentage.antt =====
-- How far `int64(float64(part) * 100000.0 / float64(whole))` is from the exact ratio.
use storage_metrics_server.Base.{
  ℕ, zero, suc, ◌+◌, ◌-◌, ◌*◌, ◌/◌, ◌^◌, ◌≤◌, ◌<◌, ◌≡◌, arith, ap, ◌∙◌,
}
use native.Mathlib.Decide.{dec_le}
use native.Mathlib.Nat.{
  div-add-mod, mod-lt, mul-le-mul_left, mul-le-mul_right, le_of_mul-le-mul_right, le-div_iff_mul-le,
}
use storage_metrics_server.Float.{one_unit, round, of_uint64, mul, div, truncate, milli_of}
use storage_metrics_server.Float.Rounding.{round-error, round-zero}

-- `r` is within a 2^-53 part of num / den.
abbrev Near : ℕ → ℕ → ℕ → Type 0
Near r num den =
    (2 ^ 53 * (r * den) ≤ (2 ^ 53 + 1) * num) × (2 ^ 53 * num ≤ 2 ^ 53 * (r * den) + num)

one_unit-big : 2 ^ 200 ≤ one_unit
unfolding one_unit
one_unit-big = omega arith

-- A positive integer is converted with that error.
of_uint64-Near : (p : ℕ) → 0 < p → Near (of_uint64 p) (p * one_unit) 1
unfolding of_uint64
of_uint64-Near p h =
    round-error (p * one_unit) 1 (omega arith)
      (omega (arith, mul-le-mul_right one_unit h, one_unit-big))

of_uint64-big : (p : ℕ) → 0 < p → 2 ^ 199 ≤ of_uint64 p
of_uint64-big p h = omega (arith, of_uint64-Near p h, mul-le-mul_right one_unit h, one_unit-big)

cancel_unit : (a b : ℕ) → a * one_unit ≤ b * one_unit → a ≤ b
cancel_unit a b h = le_of_mul-le-mul_right h (omega (arith, one_unit-big))

-- The multiplication by 100000.0.
mul-Near :
    (x : ℕ)
    → 2 ^ 199 ≤ x
    → (2 ^ 53 * mul x (100000 * one_unit) ≤ (2 ^ 53 + 1) * (x * 100000))
      × ((2 ^ 53 - 1) * (x * 100000) ≤ 2 ^ 53 * mul x (100000 * one_unit))
unfolding mul
mul-Near x h =
    let k : ℕ = 100000 * one_unit in
    let n = round-error (x * k) one_unit (omega (arith, one_unit-big)) (
      (le-div_iff_mul-le (omega (arith, one_unit-big))).1
        (omega (arith, mul-le-mul_right one_unit h))) in
    (cancel_unit _ _ (omega (arith, n.0)), cancel_unit _ _ (omega (arith, n.1)))

-- What the product is at least, for a positive part.
product-big : (p : ℕ) → 0 < p → 50000 * one_unit ≤ mul (of_uint64 p) (100000 * one_unit)
product-big p h = omega (
  arith,
  mul-Near (of_uint64 p) (of_uint64-big p h),
  of_uint64-Near p h,
  mul-le-mul_right one_unit h,
)

-- The quotient has 53 bits or more.
quotient-big :
    (m d : ℕ) → 0 < d → d ≤ 2 ^ 65 * one_unit → 50000 * one_unit ≤ m → 2 ^ 52 ≤ m * one_unit / d
quotient-big m d h k l = (le-div_iff_mul-le h).1 (
    omega (
      arith,
      mul-le-mul_right one_unit l,
      mul-le-mul_right one_unit one_unit-big,
      mul-le-mul_left (2 ^ 52) k,
    ))

-- A converted denominator is positive, and a uint64 stays below 2^65 units.
whole-bounds : (c : ℕ) → 0 < c → c < 2 ^ 64 → (0 < of_uint64 c) × (of_uint64 c ≤ 2 ^ 65 * one_unit)
whole-bounds c h l = (
  omega (arith, of_uint64-big c h),
  omega (arith, of_uint64-Near c h, mul-le-mul_right one_unit (le_of_lt c (2 ^ 64) l)),
)
  where
    le_of_lt : (a b : ℕ) → a < b → a ≤ b
    le_of_lt a b q = omega arith

-- The quotient without its fraction, between the bounds that its rounding leaves.
truncate-Near :
    (m d : ℕ)
    → 0 < d
    → d ≤ 2 ^ 65 * one_unit
    → 50000 * one_unit ≤ m
    → (2 ^ 53 * (truncate (div m d) * d) ≤ (2 ^ 53 + 1) * m)
      × ((2 ^ 53 - 1) * m ≤ 2 ^ 53 * ((truncate (div m d) + 1) * d))
unfolding truncate div
truncate-Near m d h k l =
    let n = round-error (m * one_unit) d h (quotient-big m d h k l) in
    let w : 0 < one_unit = omega (arith, one_unit-big) in
    let q = round (m * one_unit) d in
    let s = div-add-mod q one_unit in
    let lo : q / one_unit * one_unit ≤ q = omega (arith, s) in
    let hi : q ≤ (q / one_unit + 1) * one_unit = omega (arith, s, mod-lt q w) in
    (
      cancel_unit _ _ (omega (arith, n.0, mul-le-mul_right d lo)),
      cancel_unit _ _ (omega (arith, n.1, mul-le-mul_right d hi)),
    )

-- All four roundings together.
milli-upper :
    (p c : ℕ)
    → 0 < p
    → 0 < c
    → c < 2 ^ 64
    → 2 ^ 53 * 2 ^ 53 * (2 ^ 53 - 1) * (milli_of p c * c)
      ≤ (2 ^ 53 + 1) * (2 ^ 53 + 1) * (2 ^ 53 + 1) * 100000 * p
unfolding milli_of
milli-upper p c h k l =
    let x = of_uint64 p in
    let d = of_uint64 c in
    let m = mul x (100000 * one_unit) in
    let t = truncate (div m d) in
    let b = whole-bounds c k l in
    let n = truncate-Near m d b.0 b.1 (product-big p h) in
    let y = mul-Near x (of_uint64-big p h) in
    let z : (2 ^ 53 - 1) * (c * one_unit) ≤ 2 ^ 53 * d = omega (arith, of_uint64-Near c k) in
    cancel_unit _ _ (omega (arith, n.0, y.0, of_uint64-Near p h, mul-le-mul_left t z))

milli-lower :
    (p c : ℕ)
    → 0 < p
    → 0 < c
    → c < 2 ^ 64
    → (2 ^ 53 - 1) * (2 ^ 53 - 1) * (2 ^ 53 - 1) * 100000 * p
      ≤ 2 ^ 53 * 2 ^ 53 * (2 ^ 53 + 1) * ((milli_of p c + 1) * c)
unfolding milli_of
milli-lower p c h k l =
    let x = of_uint64 p in
    let d = of_uint64 c in
    let m = mul x (100000 * one_unit) in
    let t = truncate (div m d) in
    let b = whole-bounds c k l in
    let n = truncate-Near m d b.0 b.1 (product-big p h) in
    let y = mul-Near x (of_uint64-big p h) in
    let z : 2 ^ 53 * d ≤ (2 ^ 53 + 1) * (c * one_unit) = omega (arith, of_uint64-Near c k) in
    cancel_unit _ _ (omega (arith, n.1, y.1, of_uint64-Near p h, mul-le-mul_left (t + 1) z))

round_product-zero : (k den : ℕ) → 0 < den → round (0 * k) den ≡ 0
round_product-zero k den h =
    let z : 0 * k ≡ 0 = omega arith in ap (λ n. round n den) z ∙ round-zero den h

milli-zero : (c : ℕ) → 0 < c → milli_of 0 c ≡ 0
unfolding milli_of of_uint64 mul div truncate
milli-zero c h =
    let w : 0 < one_unit = omega (arith, one_unit-big) in
    let d : 0 < round (c * one_unit) 1 = omega (arith, of_uint64-big c h) in
    rw
      (
        round_product-zero one_unit 1 (omega arith),
        round_product-zero (100000 * one_unit) one_unit w,
        round_product-zero one_unit (round (c * one_unit) 1) d,
      )
      (grind arith)

milli_le :
    (t p c : ℕ)
    → 0 < c
    → p ≤ c
    → 2 ^ 53 * 2 ^ 53 * (2 ^ 53 - 1) * (t * c)
      ≤ (2 ^ 53 + 1) * (2 ^ 53 + 1) * (2 ^ 53 + 1) * 100000 * p
    → (t ≤ 100000) × (t ≤ p * 100000 / c + 1)
milli_le t p c h le u = (
  elim (dec_le t 100000) [
    | yes a ↦ a
    | no a ↦ absurd (omega (arith, mul-le-mul_right c (over 100000 t a)))
  ],
  elim (dec_le t (p * 100000 / c + 1)) [
    | yes a ↦ a
    | no a ↦ absurd (
        omega (
          arith,
          mul-le-mul_right c (over (p * 100000 / c + 1) t a),
          div-add-mod (p * 100000) c,
          mod-lt (p * 100000) h,
        ))
  ],
)
  where
    over : (a b : ℕ) → ¬ (b ≤ a) → a + 1 ≤ b
    over a b x = omega arith

milli_ge :
    (t p c : ℕ)
    → 0 < c
    → 0 < p
    → p ≤ c
    → (2 ^ 53 - 1) * (2 ^ 53 - 1) * (2 ^ 53 - 1) * 100000 * p
      ≤ 2 ^ 53 * 2 ^ 53 * (2 ^ 53 + 1) * ((t + 1) * c)
    → p * 100000 / c ≤ t + 1
milli_ge t p c h k le u = elim (dec_le (p * 100000 / c) (t + 1)) [
  | yes a ↦ a
  | no a ↦ absurd (
      omega
        (arith, mul-le-mul_right c (over (t + 1) (p * 100000 / c) a), div-add-mod (p * 100000) c))
]
  where
    over : (a b : ℕ) → ¬ (b ≤ a) → a + 1 ≤ b
    over a b x = omega arith

-- For a part of at most the whole, both as uint64, the percentage in thousandths is at most 100000
-- and within one of the exact quotient, rounded down.
pub milli_of-close :
    (p c : ℕ)
    → 0 < c
    → c < 2 ^ 64
    → p ≤ c
    → (milli_of p c ≤ 100000)
      × (milli_of p c ≤ p * 100000 / c + 1)
      × (p * 100000 / c ≤ milli_of p c + 1)
milli_of-close zero c h l le =
    let z = milli-zero c h in
    let q : 0 * 100000 / c ≡ 0 = grind arith in
    (omega (arith, z), omega (arith, z), omega (arith, q))
milli_of-close (suc n) c h l le =
    let p = suc n in
    let k : 0 < p = omega arith in
    let u = milli_le (milli_of p c) p c h le (milli-upper p c k h l) in
    (u.0, u.1, milli_ge (milli_of p c) p c h k le (milli-lower p c k h l))

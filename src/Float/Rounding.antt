-- ===== src/Float/Rounding.antt =====
-- The error of one rounding to a float64.
use storage_metrics_server.Base.{
  ℕ, zero, suc, ◌+◌, ◌-◌, ◌*◌, ◌/◌, ◌%◌, ◌^◌, ◌≤◌, ◌<◌, ◌≡◌, refl, sym, ap, ◌∙◌, subst, inl, inr,
  ◌⊎◌, nat_beq, arith, Bool-cases,
}
use native.Mathlib.Decide.{dec_lt}
use native.Mathlib.Nat.{
  div-add-mod, mod-lt, mul-le-mul_left, add-zero, add-suc, pow-zero, pow-suc, mul-pos, mul_comm,
}
use storage_metrics_server.Float.{bit_length, spacing, nearest, round}

pow-add : (b m n : ℕ) → b ^ (m + n) ≡ b ^ m * b ^ n
pow-add b m zero = rw add-zero (simp pow-zero (omega arith))
pow-add b m (suc n) = rw (add-suc, pow-suc, pow-suc, pow-add b m n) (grind arith)

bit_length-zero : (fuel : ℕ) → bit_length fuel 0 ≡ 0
unfolding bit_length
bit_length-zero zero = refl
bit_length-zero (suc fuel) = refl

-- A number that is not 0 has its top bit at its length.
bit_length-le :
    (fuel n : ℕ) → n ≤ fuel → 0 < n → (b : ℕ) × (bit_length fuel n ≡ suc b) × (2 ^ b ≤ n)
unfolding bit_length
bit_length-le zero n h p = absurd (omega arith)
bit_length-le (suc fuel) n h p = elim (Bool-cases (nat_beq (n / 2) 0)) [
  | inl e ↦
      let z : n / 2 ≡ 0 = ground arith in
      (0, ground (arith, ap (bit_length fuel) z, bit_length-zero fuel), omega arith)
  | inr e ↦
      let (b, q, l) = bit_length-le fuel (n / 2) (omega arith) (ground arith) in
      (suc b, ground arith, rw pow-suc (omega (arith, l)))
]

two_pow_pos : (n : ℕ) → 0 < 2 ^ n
two_pow_pos zero = rw pow-zero (omega arith)
two_pow_pos (suc n) = rw pow-suc (omega (arith, two_pow_pos n))

spacing-pos : (q : ℕ) → 0 < spacing q
unfolding spacing
spacing-pos q = two_pow_pos (bit_length q q - 53)

spacing-le : (q : ℕ) → 2 ^ 52 ≤ q → spacing q * 2 ^ 52 ≤ q
unfolding spacing
spacing-le q h =
    let (b, e, l) = bit_length-le q q (omega arith) (omega arith) in
    elim (dec_lt b 52) [
      | yes small ↦ rw e (let z : suc b - 53 ≡ 0 = omega arith in rw z (omega (arith, h)))
      | no large ↦
          let z : suc b - 53 + 52 ≡ b = omega arith in
          rw e (subst (λ x. x ≤ q) (ap (λ x. 2 ^ x) (sym z) ∙ pow-add 2 (suc b - 53) 52) l)
    ]

nearest-cases :
    (u d k r : ℕ)
    → ((nearest u d k r ≡ k * u) × (2 * r ≤ d)) ⊎ ((nearest u d k r ≡ (k + 1) * u) × (d ≤ 2 * r))
unfolding nearest
nearest-cases u d k r = ground arith

nearest-error :
    (u den k r : ℕ)
    → r < den * u
    → (2 * (nearest u (den * u) k r * den) ≤ 2 * (k * (den * u) + r) + den * u)
      × (2 * (k * (den * u) + r) ≤ 2 * (nearest u (den * u) k r * den) + den * u)
nearest-error u den k r h = elim (nearest-cases u (den * u) k r) [
  | inl (e, l) ↦ rw e (omega arith)
  | inr (e, l) ↦ rw e (omega arith)
]

round-error_of :
    (u num den : ℕ)
    → 0 < den
    → 0 < u
    → (2 * (nearest u (den * u) (num / (den * u)) (num % (den * u)) * den) ≤ 2 * num + den * u)
      × (2 * num ≤ 2 * (nearest u (den * u) (num / (den * u)) (num % (den * u)) * den) + den * u)
round-error_of u num den h k =
    let d : 0 < den * u = mul-pos h k in
    let e = nearest-error u den (num / (den * u)) (num % (den * u)) (mod-lt num d) in
    let f : num / (den * u) * (den * u) + num % (den * u) ≡ num =
      omega (arith, div-add-mod num (den * u), mul_comm (num / (den * u)) (den * u)) in
    (omega (arith, e.0, f), omega (arith, e.1, f))

-- Where the exact value has 53 bits or more, rounding moves it by at most a 2^-53 part of it.
pub round-error :
    (num den : ℕ)
    → 0 < den
    → 2 ^ 52 ≤ num / den
    → (2 ^ 53 * (round num den * den) ≤ (2 ^ 53 + 1) * num)
      × (2 ^ 53 * num ≤ 2 ^ 53 * (round num den * den) + num)
unfolding round
round-error num den h q =
    let u = spacing (num / den) in
    let s : u * 2 ^ 52 ≤ num / den = spacing-le (num / den) q in
    let e = round-error_of u num den h (spacing-pos (num / den)) in
    let l : den * u * 2 ^ 52 ≤ num = omega (arith, mul-le-mul_left den s, div-add-mod num den) in
    (omega (arith, e.0, l), omega (arith, e.1, l))

-- Zero is converted, multiplied and divided exactly.
pub round-zero : (den : ℕ) → 0 < den → round 0 den ≡ 0
unfolding round
round-zero den h =
    let u = spacing (0 / den) in
    let d : 0 < den * u = mul-pos h (spacing-pos (0 / den)) in
    let k : 0 / (den * u) ≡ 0 = div_of_lt 0 (den * u) d in
    elim (nearest-cases u (den * u) (0 / (den * u)) (0 % (den * u))) [
      | inl (e, l) ↦ omega (arith, e, ap (λ n. n * u) k)
      | inr (e, l) ↦ absurd (omega (arith, l, d, mod_zero (den * u)))
    ]
  where
    div_of_lt : (n m : ℕ) → n < m → n / m ≡ 0
    div_of_lt n m h' = grind arith

    mod_zero : (m : ℕ) → 0 % m ≤ 0
    mod_zero m = grind arith

-- ===== src/Base/Equality.antt =====
-- Decidable equality as an interface, for the keys of maps.
use mathlib.Core.Bool.{Bool, true}
use mathlib.Core.Logic.{◌↔◌}
use mathlib.Core.Path.{◌≡◌, refl}
use text.Mathlib.TextEquality.{eq_iff}
use text.Mathlib.Text.{◌==◌ as same_text}
use Prim.Native.String.{String}

pub record Eq {ℓ} (K : Type ℓ) : Type ℓ where
  pub beq : (x y : K) → Bool
  pub beq_iff : (x y : K) → (beq x y ≡ true) ↔ (x ≡ y)

infix 50 ◌==◌
abbrev pub ◌==◌ {ℓ} : {K : Type ℓ} ⦃d : Eq K⦄ (x y : K) → Bool
◌==◌ ⦃d⦄ x y = d.beq x y

module _ {ℓ} {K : Type ℓ} ⦃d : Eq K⦄ where
  pub beq_refl : (x : K) → (x == x) ≡ true
  beq_refl x = (d.beq_iff x x).1 refl

  pub beq→eq : (x y : K) → (x == y) ≡ true → x ≡ y
  beq→eq x y = (d.beq_iff x y).0

instance abbrev pub string_eq : Eq String
string_eq = record { beq_iff = eq_iff; beq = same_text }

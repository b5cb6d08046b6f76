-- ===== src/Base/Results.antt =====
-- Go's pair of a value and an error: one of the two.
use mathlib.Core.Path.{◌≡◌, refl}
use mathlib.Core.Logic.{◌⊎◌, inl, inr}
use mathlib.Core.Option.{Option, none, some}
use native.Mathlib.Omega.{arith}

pub data Result {ℓ κ} (E : Type ℓ) (A : Type κ) : Type (ℓ ⊔ κ) where
  ok : A → Result E A
  err : E → Result E A

-- `if err != nil { return nil, err }`
infixl 5 ◌>>=◌
abbrev pub ◌>>=◌ {ℓ κ ι} :
    {E : Type ℓ} {A : Type κ} {B : Type ι} → Result E A → (A → Result E B) → Result E B
ok a >>= f = f a
err e >>= f = err e

-- The same with the error wrapped, as `fmt.Errorf("…: %w", err)` does.
abbrev pub map_err {ℓ κ ι} :
    {E : Type ℓ} {F : Type κ} {A : Type ι} → (E → F) → Result E A → Result F A
map_err f (ok a) = ok a
map_err f (err e) = err (f e)

pub Result-cases {ℓ κ} :
    {E : Type ℓ} {A : Type κ} (r : Result E A) → ((a : A) × (r ≡ ok a)) ⊎ ((e : E) × (r ≡ err e))
Result-cases (ok a) = inl (a, refl)
Result-cases (err e) = inr (e, refl)

module _ {ℓ κ ι} {E : Type ℓ} {A : Type κ} {B : Type ι} where
  -- A chain gives a value only if both of its parts do.
  pub bind-ok :
      (r : Result E A) (f : A → Result E B) (b : B)
      → (r >>= f) ≡ ok b
      → (a : A) × (r ≡ ok a) × (f a ≡ ok b)
  bind-ok (ok a) f b e = (a, refl, e)
  bind-ok (err x) f b e = cc

pub map_err-ok {ℓ κ ι} :
    {E : Type ℓ} {F : Type κ} {A : Type ι} (f : E → F) (r : Result E A) (a : A)
    → map_err f r ≡ ok a
    → r ≡ ok a
map_err-ok f (ok x) a e = ground arith
map_err-ok f (err x) a e = cc

module _ {ℓ κ} {E : Type ℓ} {S : Type κ} where
  -- `if err := …; err != nil { return err }` between two changes of a state, which an error leaves
  -- as the first has made it.
  abbrev pub and_then : Option E × S → (S → Option E × S) → Option E × S
  and_then (some e, s) f = (some e, s)
  and_then (none, s) f = f s

  -- Both of the changes of a sequence without an error are without one.
  pub and_then-none :
      (r : Option E × S) (f : S → Option E × S) (out : S)
      → and_then r f ≡ (none, out)
      → (s : S) × (r ≡ (none, s)) × (f s ≡ (none, out))
  and_then-none (some e, s) f out h = absurd (apart h)
    where
      apart : ◌≡◌ {A = Option E × S} (some e, s) (none, out) → ⊥
      apart h = cc
  and_then-none (none, s) f out h = (s, refl, h)

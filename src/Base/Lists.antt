-- ===== src/Base/Lists.antt =====
-- Lists measured by native numbers, and predicates over their entries.
use Prim.Native.Nat.{ℕ, suc, ◌+◌}
use mathlib.Core.Path.{◌≡◌, refl, ap, subst}
use mathlib.Core.Logic.{◌⊎◌, inl, inr}
use mathlib.Core.List.{List, [], ◌∷◌, ◌++◌, map}
use native.Mathlib.Omega.{arith}

module _ {ℓ} {A : Type ℓ} where
  abbrev pub length : List A → ℕ
  length [] = 0
  length (x ∷ xs) = suc (length xs)

  pub length-append : (xs ys : List A) → length (xs ++ ys) ≡ length xs + length ys
  length-append [] ys = omega arith
  length-append (x ∷ xs) ys = omega (arith, length-append xs ys)

  -- Every entry satisfies the predicate.
  abbrev pub All {κ} : (A → Type κ) → List A → Type κ
  All P [] = Unit
  All P (x ∷ xs) = P x × All P xs

pub length-map {ℓ κ} :
    {A : Type ℓ} {B : Type κ} (xs : List A) (f : A → B) → length (map f xs) ≡ length xs
length-map [] f = refl
length-map (x ∷ xs) f = ap suc (length-map xs f)

module _ {A : Type 0} where
  -- `a` is one of the entries of the list.
  abbrev pub Among : A → List A → Type 0
  Among a [] = ⊥
  Among a (x ∷ xs) = (x ≡ a) ⊎ Among a xs

  pub Among-append_left : (a : A) (xs ys : List A) → Among a xs → Among a (xs ++ ys)
  Among-append_left a [] ys h = absurd h
  Among-append_left a (x ∷ xs) ys (inl e) = inl e
  Among-append_left a (x ∷ xs) ys (inr h) = inr (Among-append_left a xs ys h)

  pub Among-append_right : (a : A) (xs ys : List A) → Among a ys → Among a (xs ++ ys)
  Among-append_right a [] ys h = h
  Among-append_right a (x ∷ xs) ys h = inr (Among-append_right a xs ys h)

  pub Among-append : (a : A) (xs ys : List A) → Among a (xs ++ ys) → Among a xs ⊎ Among a ys
  Among-append a [] ys h = inr h
  Among-append a (x ∷ xs) ys (inl e) = inl (inl e)
  Among-append a (x ∷ xs) ys (inr h) = elim (Among-append a xs ys h) [
    | inl l ↦ inl (inr l)
    | inr r ↦ inr r
  ]

  pub All-Among : (P : A → Type 0) (a : A) (xs : List A) → All P xs → Among a xs → P a
  All-Among P a [] h m = absurd m
  All-Among P a (x ∷ xs) h (inl e) = subst P e h.0
  All-Among P a (x ∷ xs) h (inr m) = All-Among P a xs h.1 m

  pub All-intro : (P : A → Type 0) (xs : List A) → ((a : A) → Among a xs → P a) → All P xs
  All-intro P [] h = tt
  All-intro P (x ∷ xs) h = (h x (inl refl), All-intro P xs (λ a m. h a (inr m)))

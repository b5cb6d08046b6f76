-- ===== src/Base/Maps.antt =====
-- Go maps as association lists that hold each key once. The order of the entries is one order in
-- which `range` may visit them.
use mathlib.Core.Path.{◌≡◌, refl, ap}
use mathlib.Core.Logic.{inl, inr}
use mathlib.Core.List.{List, [], ◌∷◌}
use mathlib.Core.Option.{Option, none, some}
use native.Mathlib.Omega.{arith}
use storage_metrics_server.Base.Tests.{if◌then◌else◌, Bool-cases}
use storage_metrics_server.Base.Lists.{Among}
use storage_metrics_server.Base.Equality.{Eq, ◌==◌, beq_refl, beq→eq}

abbrev pub Map {ℓ κ} : Type ℓ → Type κ → Type (ℓ ⊔ κ)
Map K V = List (K × V)

module _ {ℓ κ} {K : Type ℓ} {V : Type κ} ⦃e : Eq K⦄ where
  -- `v, ok := m[k]`
  unfoldable pub lookup : K → Map K V → Option V
  lookup key [] = none
  lookup key ((other, value) ∷ rest) = if other == key then some value else lookup key rest

  -- `m[k] = v`
  unfoldable pub insert : K → V → Map K V → Map K V
  insert key value [] = (key, value) ∷ []
  insert key value ((other, old) ∷ rest) =
      if other == key then (other, value) ∷ rest else (other, old) ∷ insert key value rest

  -- No two entries have the same key.
  abbrev pub HasUniqueKeys : Map K V → Type (ℓ ⊔ κ)
  HasUniqueKeys [] = Unit
  HasUniqueKeys ((k, v) ∷ m) = (lookup k m ≡ none) × HasUniqueKeys m

  pub lookup-insert :
      (key asked : K) (value : V) (m : Map K V)
      → lookup asked (insert key value m) ≡ (if key == asked then some value else lookup asked m)
  unfolding lookup insert
  lookup-insert key asked value [] = refl
  lookup-insert key asked value ((other, old) ∷ rest) =
      let ih = lookup-insert key asked value rest in
      ground (arith, ih, e.beq_iff other key, e.beq_iff other asked, e.beq_iff key asked)

  pub insert-HasUniqueKeys :
      (k : K) (v : V) (m : Map K V) → HasUniqueKeys m → HasUniqueKeys (insert k v m)
  unfolding lookup insert
  insert-HasUniqueKeys k v [] h = (refl, tt)
  insert-HasUniqueKeys k v ((j, w) ∷ m) h =
      ground
        (arith, e.beq_iff j k, e.beq_iff k j, lookup-insert k j v m, insert-HasUniqueKeys k v m h.1)

module _ {K V : Type 0} ⦃e : Eq K⦄ where
  -- Where keys are unique, an entry is what its key looks up.
  pub lookup-Among :
      (k : K) (v : V) (m : Map K V) → HasUniqueKeys m → Among (k, v) m → lookup k m ≡ some v
  unfolding lookup
  lookup-Among k v [] h a = absurd a
  lookup-Among k v ((j, w) ∷ m) h (inl p) =
      ground (arith, beq_refl k, ap (λ (q : K × V). q.0) p, ap (λ (q : K × V). q.1) p)
  lookup-Among k v ((j, w) ∷ m) h (inr a) = ground (arith, lookup-Among k v m h.1 a, e.beq_iff j k)

  pub Among-lookup : (k : K) (v : V) (m : Map K V) → lookup k m ≡ some v → Among (k, v) m
  unfolding lookup
  Among-lookup k v [] h = cc
  Among-lookup k v ((j, w) ∷ m) h = elim (Bool-cases (j == k)) [
    | inl p ↦ inl (ground (arith, beq→eq j k p))
    | inr p ↦ inr (Among-lookup k v m (ground arith))
  ]

-- ===== src/Flags/Distinct.antt =====
-- Flags that are defined among others.
use storage_metrics_server.Base.{
  ◌≡◌, refl, sym, subst, String, none, [], ◌∷◌, ◌++◌, Map, lookup, All, HasUniqueKeys, Eq,
  string_eq, arith,
}
use storage_metrics_server.Flags.{FlagSet, shorthands, HasDistinctFlags}

module _ {K V : Type 0} ⦃e : Eq K⦄ where
  lookup-both :
      (k : K) (a b : Map K V) → lookup k a ≡ none → lookup k b ≡ none → lookup k (a ++ b) ≡ none
  unfolding lookup
  lookup-both k [] b h g = g
  lookup-both k ((j, w) ∷ a) b h g = ground (arith, lookup-both k a b, h, g, e.beq_iff j k)

  lookup-left : (k : K) (a b : Map K V) → lookup k (a ++ b) ≡ none → lookup k a ≡ none
  unfolding lookup
  lookup-left k [] b h = refl
  lookup-left k ((j, w) ∷ a) b h = ground (arith, lookup-left k a b, h, e.beq_iff j k)

  lookup-right : (k : K) (a b : Map K V) → lookup k (a ++ b) ≡ none → lookup k b ≡ none
  unfolding lookup
  lookup-right k [] b h = h
  lookup-right k ((j, w) ∷ a) b h = ground (arith, lookup-right k a b, h, e.beq_iff j k)

  -- A key that is new may stand anywhere.
  between :
      (k : K) (v : V) (a b : Map K V)
      → HasUniqueKeys (a ++ b)
      → lookup k (a ++ b) ≡ none
      → HasUniqueKeys (a ++ (k, v) ∷ b)
  unfolding lookup
  between k v [] b u h = (h, u)
  between k v ((j, w) ∷ a) b u h =
      let ih = between k v a b u.1 in
      let l = lookup-left j a b u.0 in
      let r = lookup-right j a b u.0 in
      let m = lookup-both j a ((k, v) ∷ b) l in
      ground (arith, ih, h, r, m, e.beq_iff j k, e.beq_iff k j)

  among-HasUniqueKeys :
      (a own b : Map K V)
      → HasUniqueKeys (a ++ b)
      → HasUniqueKeys own
      → All (λ f. lookup f.0 (a ++ b) ≡ none) own
      → HasUniqueKeys (a ++ (own ++ b))
  among-HasUniqueKeys a [] b u o h = u
  among-HasUniqueKeys a ((k, v) ∷ own) b u o h =
      between k v a (own ++ b) (among-HasUniqueKeys a own b u o.1 h.1) (
        lookup-both k a (own ++ b) (lookup-left k a b h.0)
          (lookup-both k own b o.0 (lookup-right k a b h.0)))

shorthands-append : (a b : FlagSet) → shorthands (a ++ b) ≡ shorthands a ++ shorthands b
unfolding shorthands
shorthands-append [] b = refl
shorthands-append ((name, short) ∷ a) b = ground (arith, shorthands-append a b)

-- Distinct flags among distinct flags, with other names and other shorthands.
pub among-HasDistinctFlags :
    (a own b : FlagSet)
    → HasDistinctFlags (a ++ b)
    → HasDistinctFlags own
    → All (λ f. lookup f.0 (a ++ b) ≡ none) own
    → All (λ f. lookup f.0 (shorthands (a ++ b)) ≡ none) (shorthands own)
    → HasDistinctFlags (a ++ (own ++ b))
among-HasDistinctFlags a own b u o h g =
    let e = shorthands-append a b in
    let us = subst (λ (x : Map String String). HasUniqueKeys x) e u.shorts in
    let gs =
      subst (λ (x : Map String String). All (λ f. lookup f.0 x ≡ none) (shorthands own)) e g in
    record {
      names = among-HasUniqueKeys a own b u.names o.names h;
      shorts =
          subst (λ (x : Map String String). HasUniqueKeys x) (sym (both a own b))
            (among-HasUniqueKeys (shorthands a) (shorthands own) (shorthands b) us o.shorts gs);
    }
  where
    both :
        (a own b : FlagSet)
        → shorthands (a ++ (own ++ b)) ≡ shorthands a ++ (shorthands own ++ shorthands b)
    both a own b = rw (shorthands-append a (own ++ b), shorthands-append own b)

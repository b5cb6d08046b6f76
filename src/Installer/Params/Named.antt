-- ===== src/Installer/Params/Named.antt =====
-- Which parameters `addObjectParams` leaves on a route.
use storage_metrics_server.Base.{
  ◌≡◌, refl, inl, inr, String, false, ◌||◌, Option, none, some, Map, List, [], ◌∷◌, ◌++◌,
  Bool-cases, string_eq, Eq, arith,
}
use storage_metrics_server.Installer.{Parameter, Field}
use storage_metrics_server.Installer.Params.{is_named, add_once, offered, add_fields}

-- No two parameters have the same name.
abbrev pub HasUniqueNames : List Parameter → Type 0
HasUniqueNames [] = Unit
HasUniqueNames (p ∷ ps) = (is_named p.name ps ≡ false) × HasUniqueNames ps

is_named-append :
    (name : String) (ps qs : List Parameter)
    → is_named name (ps ++ qs) ≡ (is_named name ps || is_named name qs)
unfolding is_named
is_named-append name [] qs = refl
is_named-append name (p ∷ ps) qs = ground (arith, is_named-append name ps qs)

append-HasUniqueNames :
    (ps : List Parameter) (p : Parameter)
    → HasUniqueNames ps
    → is_named p.name ps ≡ false
    → HasUniqueNames (ps ++ p ∷ [])
unfolding is_named
append-HasUniqueNames [] p h n = (refl, tt)
append-HasUniqueNames (q ∷ ps) p h n = (
  ground (
    arith,
    is_named-append q.name ps (p ∷ []),
    n,
    h.0,
    Eq.beq_iff string_eq p.name q.name,
    Eq.beq_iff string_eq q.name p.name,
  ),
  append-HasUniqueNames ps p h.1 (ground (arith, n)),
)

add_once-HasUniqueNames :
    (o : Option Parameter) (ps : List Parameter)
    → HasUniqueNames ps
    → HasUniqueNames (add_once o ps)
unfolding add_once
add_once-HasUniqueNames none ps h = h
add_once-HasUniqueNames (some p) ps h = elim (Bool-cases (is_named p.name ps)) [
  | inl e ↦ rw (e) h
  | inr e ↦ rw (e) (append-HasUniqueNames ps p h e)
]

module _ (doc : Option (Map String String)) (all : List Field) where
  pub add_fields-HasUniqueNames :
      (fs : List Field) (ps : List Parameter)
      → HasUniqueNames ps
      → HasUniqueNames (add_fields doc all fs ps)
  unfolding add_fields
  add_fields-HasUniqueNames [] ps h = h
  add_fields-HasUniqueNames (f ∷ fs) ps h =
      add_fields-HasUniqueNames fs (add_once (offered doc all f) ps)
        (add_once-HasUniqueNames (offered doc all f) ps h)

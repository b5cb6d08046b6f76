-- ===== src/Adapter/Documents.antt =====
-- The OpenAPI definitions that the adapter merges.
use storage_metrics_server.Base.{
  String, ◌≡◌, refl, ◌∙◌, ap, Option, none, List, [], ◌∷◌, Map, lookup, insert, lookup-insert,
  HasUniqueKeys, All, or_else, string_eq, Eq, arith,
}
use storage_metrics_server.Adapter.Merge.{copy_definitions, merge_from, merge_open_api_definitions}

-- The definition of the last source that has one, or else `o`.
pub last_found : {D : Type 0} → String → Option D → List (Map String D) → Option D
last_found k o [] = o
last_found k o (m ∷ ms) = last_found k (or_else (lookup k m) o) ms

lookup-copy_definitions :
    {D : Type 0} (k : String) (m defs : Map String D)
    → HasUniqueKeys m
    → lookup k (copy_definitions m defs) ≡ or_else (lookup k m) (lookup k defs)
unfolding copy_definitions lookup
lookup-copy_definitions k [] defs h = refl
lookup-copy_definitions k ((j, v) ∷ m) defs h = ground (
  arith,
  lookup-copy_definitions k m (insert j v defs) h.1,
  lookup-insert j k v defs,
  Eq.beq_iff string_eq j k,
)

lookup-merge_from :
    {D : Type 0} (k : String) (ms : List (Map String D)) (defs : Map String D)
    → All HasUniqueKeys ms
    → lookup k (merge_from ms defs) ≡ last_found k (lookup k defs) ms
unfolding merge_from last_found
lookup-merge_from k [] defs h = refl
lookup-merge_from k (m ∷ ms) defs h =
    lookup-merge_from k ms (copy_definitions m defs) h.1
    ∙ ap (λ o. last_found k o ms) (lookup-copy_definitions k m defs h.0)

-- The merged definitions have under each key the definition of the last source that has one, and
-- none under a key that no source has, if the keys of each source are distinct.
lookup-merge_open_api_definitions :
    {D : Type 0} (k : String) (sources : List (Map String D))
    → All HasUniqueKeys sources
    → lookup k (merge_open_api_definitions sources) ≡ last_found k none sources
unfolding merge_open_api_definitions lookup
lookup-merge_open_api_definitions k sources h = lookup-merge_from k sources [] h

-- ===== src/Storage/Laws.antt =====
-- What the methods of `Storage` promise one another.
use storage_metrics_server.Base.{
  or_else, String, ◌≡◌, refl, true, Option, Map, [], ◌∷◌, lookup, insert, HasUniqueKeys,
  lookup-insert, Eq, string_eq, arith, length,
}
use storage_metrics_server.Storage.Types.{NamespacedName, name_eq, PvcMetricsPoint, MetricsBatch}
use storage_metrics_server.Storage.{
  Storage, batch_map, store, ready, get, list_from, list_namespace, count,
}

-- The keys of the cache are distinct, as those of a Go map are.
abbrev pub IsWellFormed : Storage → Type 0
IsWellFormed s = HasUniqueKeys s.pvcs

abbrev pub HasUniqueBatch : Option MetricsBatch → Type 0
HasUniqueBatch b = HasUniqueKeys (batch_map b)

lookup-list_from :
    (ns n : String) (out : Map String PvcMetricsPoint) (m : Map NamespacedName PvcMetricsPoint)
    → HasUniqueKeys m
    → lookup n (list_from ns out m)
      ≡ or_else (lookup (record { namespace = ns; name = n }) m) (lookup n out)
unfolding list_from lookup
lookup-list_from ns n out [] h = refl
lookup-list_from ns n out ((k, v) ∷ m) h = ground (
  arith,
  lookup-list_from ns n (insert k.name v out) m h.1,
  lookup-list_from ns n out m h.1,
  lookup-insert k.name n v out,
  Eq.beq_iff string_eq k.namespace ns,
  Eq.beq_iff string_eq k.name n,
)

-- `ListNamespace` shows under each name exactly what `Get` returns for that name in the namespace,
-- and nothing else, if the keys of the cache are distinct.
pub lookup-list_namespace :
    (ns n : String) (s : Storage)
    → IsWellFormed s
    → lookup n (list_namespace ns s) ≡ get (record { namespace = ns; name = n }) s
unfolding list_namespace get lookup
lookup-list_namespace ns n s h = ground (arith, lookup-list_from ns n [] s.pvcs h)

-- `Store` keeps the keys distinct if those of its batch are.
pub store-IsWellFormed :
    (b : Option MetricsBatch) (s : Storage) → HasUniqueBatch b → IsWellFormed (store b s)
unfolding store batch_map
store-IsWellFormed b s h = h

-- After `Store(batch)` the cache is ready, `Get` reads the batch alone, whatever was stored before,
-- and `Count` is its number of entries.
pub get-store :
    (b : Option MetricsBatch) (s : Storage)
    → (ready (store b s) ≡ true)
      × ((k : NamespacedName) → get k (store b s) ≡ lookup k (batch_map b))
      × (count (store b s) ≡ length (batch_map b))
unfolding store ready get count
get-store b s = (refl, λ k. refl, refl)

-- ===== src/Storage.antt =====
-- pkg/storagemetrics/storage/storage.go: the cache of the last scrape. Each method holds the mutex
-- for the whole of its body, so it is one function of the state here; Storage/Locking has the
-- locks.
pub mod Types
pub mod Laws
pub mod Locking
pub mod View
use Types.{NamespacedName, name_eq, PvcMetricsPoint, MetricsBatch}
use storage_metrics_server.Base.{
  ℕ, String, Bool, true, false, Option, none, some, Map, [], ◌∷◌, lookup, insert, ◌==◌, string_eq,
  length, if◌then◌else◌,
}

pub record Storage : Type 0 where
  pub pvcs : Map NamespacedName PvcMetricsPoint
  pub ready_flag : Bool

unfoldable pub new_storage : Storage
new_storage = record { pvcs = []; ready_flag = false }

-- The map that a batch puts in place: a nil batch and a nil map are the empty one.
unfoldable pub batch_map : Option MetricsBatch → Map NamespacedName PvcMetricsPoint
batch_map none = []
batch_map (some b) = elim b.pvcs [ none ↦ [] | some m ↦ m ]

unfoldable pub store : Option MetricsBatch → Storage → Storage
unfolding batch_map
store batch s = record { pvcs = batch_map batch; ready_flag = true }

unfoldable pub ready : Storage → Bool
ready s = s.ready_flag

unfoldable pub get : NamespacedName → Storage → Option PvcMetricsPoint
get key s = lookup key s.pvcs

-- The loop of `ListNamespace`: `out` is the map filled so far.
unfoldable pub list_from :
    String
    → Map String PvcMetricsPoint
    → Map NamespacedName PvcMetricsPoint
    → Map String PvcMetricsPoint
list_from namespace out [] = out
list_from namespace out ((k, v) ∷ m) =
    list_from namespace (if k.namespace == namespace then insert k.name v out else out) m

unfoldable pub list_namespace : String → Storage → Map String PvcMetricsPoint
unfolding list_from
list_namespace namespace s = list_from namespace [] s.pvcs

unfoldable pub count : Storage → ℕ
count s = length s.pvcs

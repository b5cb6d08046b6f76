-- ===== src/Examples/Updates.antt =====
-- A selector query with an update between its reads.
use storage_metrics_server.Base.{none, [], ◌∷◌, refl, lookup}
use storage_metrics_server.Storage.{store, batch_map, get}
use storage_metrics_server.Provider.{metric_from_point, to_int64, read_claim}
use storage_metrics_server.Provider.Interleaved
use storage_metrics_server.Provider.Interleaved.{Query, read, update, begin, next}
use storage_metrics_server.Provider.Interleaved.Woven.{IsWoven, query-IsWoven}
use storage_metrics_server.Examples.Data.{overflow, provider, used_value}

-- A query of two claims with an update between its reads.
woven : Query
woven = record {
  cache = store none provider.store;
  history = provider.store ∷ [];
  remaining = [];
  items = used_value ∷ [];
}

abbrev read_data : Query
read_data = record {
  cache = provider.store;
  history = [];
  remaining = "new" ∷ [];
  items = used_value ∷ [];
}

data_read :
    Interleaved.Step overflow "apps" "volume_used_bytes"
      ("data" ∷ "new" ∷ [])
      provider.store
      (Interleaved.asked overflow "apps" "volume_used_bytes" ("data" ∷ "new" ∷ []) provider.store)
      read_data
unfolding read_claim get store batch_map lookup metric_from_point to_int64
data_read = read "data" ("new" ∷ []) refl

new_read :
    Interleaved.Step overflow "apps" "volume_used_bytes"
      ("data" ∷ "new" ∷ [])
      provider.store
      (record read_data { cache = store none provider.store; history = provider.store ∷ [] })
      woven
unfolding read_claim get store batch_map lookup metric_from_point to_int64 woven
new_read = read "new" [] refl

query-IsWoven_example :
    IsWoven overflow "apps" "volume_used_bytes" ("data" ∷ "new" ∷ []) provider.store woven
unfolding woven
query-IsWoven_example =
    query-IsWoven overflow "apps" "volume_used_bytes" ("data" ∷ "new" ∷ []) provider.store
      (next (next (next begin data_read) (update none)) new_read) refl

-- ===== src/Examples/Serve.antt =====
-- Queries of a cache with one claim, of which three quarters are used.
use storage_metrics_server.Base.{
  inl, ℕ, Option, ◌+◌, ◌*◌, ◌/◌, ◌≤◌, ◌≡◌, refl, ◌↔◌, pos, Bool, true, none, some, [], ◌∷◌, map,
  Among, ok, arith,
}
use storage_metrics_server.Storage.Types.{PvcMetricsPoint}
use storage_metrics_server.Storage.{new_storage}
use storage_metrics_server.Client.Address.{node_address}
use storage_metrics_server.Client.Summary.{point_of, summary_to_batch}
use storage_metrics_server.Scraper.{merged_batch}
use storage_metrics_server.Scraper.FanOut.{Run, Picks, send, receive, Reach, begin, next}
use storage_metrics_server.Float.{milli_of}
use storage_metrics_server.Float.Percentage.{milli_of-close}
use storage_metrics_server.Api.{MetricValue, CustomMetricInfo, Quantity, binary_si}
use storage_metrics_server.Provider.{
  Provider, metric_volume_used_bytes, pvc_group_resource, all_metrics, metric_from_point,
  new_quantity, is_pvc, to_int64, get_metric_by_name, get_metric_by_selector,
}
use storage_metrics_server.Provider.Metrics.{
  IsInRange, IsSane, metric_from_point-IsInRange, advertised_iff_answered,
}
use storage_metrics_server.Provider.Answers.{
  IsAnswer, by_name-IsAnswer, successes, by_selector-by_name,
}
use storage_metrics_server.Client.Summary.Usable.{Counts, volumes}
use storage_metrics_server.Client.Fetch.Outcome.{Fetches}
use storage_metrics_server.Manager.{Manager, new_manager, run_until}
use storage_metrics_server.Manager.Last.{last_tick}
use storage_metrics_server.Pipeline.Running.{run_until-answered}
use storage_metrics_server.Pipeline.{Seen, kubelet}
use storage_metrics_server.Pipeline.Served.{used_bytes_info, IsFreshAnswer}
use storage_metrics_server.Examples.Data.{
  volume, summary, overflow, lister, provider, claim, sample, node_named, nodes, client,
}

abbrev used_bytes : CustomMetricInfo
used_bytes = record {
  group_resource = pvc_group_resource;
  namespaced = true;
  metric = "volume_used_bytes";
}

by_name-IsAnswer_example :
    IsAnswer overflow provider claim used_bytes
      (get_metric_by_name overflow provider claim used_bytes true)
by_name-IsAnswer_example = by_name-IsAnswer overflow provider claim used_bytes true

by_selector-by_name_example :
    get_metric_by_selector overflow provider "apps" true used_bytes true
    ≡ ok (
        successes (
          map
            (λ n.
              get_metric_by_name overflow provider
                (record { namespace = "apps"; name = n })
                used_bytes
                true)
            ("data" ∷ "new" ∷ [])))
unfolding is_pvc
by_selector-by_name_example =
    by_selector-by_name overflow provider "apps" true true used_bytes lister ("data" ∷ "new" ∷ [])
      refl refl refl

sample-IsSane : IsSane (sample "a" (pos 5))
sample-IsSane = record {
  capacity = omega arith;
  available = omega arith;
  used = omega arith;
  inodes = omega arith;
  inodes_free = omega arith;
  inodes_used = omega arith;
}

used_quantity :
    metric_from_point overflow "volume_used_bytes" (sample "a" (pos 5))
    ≡ some (new_quantity (pos 3) binary_si)
unfolding metric_from_point to_int64
used_quantity = refl

metric_from_point-IsInRange_example : IsInRange (new_quantity (pos 3) binary_si)
metric_from_point-IsInRange_example =
    metric_from_point-IsInRange overflow "volume_used_bytes" (sample "a" (pos 5))
      (new_quantity (pos 3) binary_si) sample-IsSane used_quantity

advertised_iff_answered_example : Among "volume_inodes" all_metrics ↔ (
    (p : PvcMetricsPoint) × (q : Quantity) × (metric_from_point overflow "volume_inodes" p
      ≡ some q))
advertised_iff_answered_example = advertised_iff_answered overflow "volume_inodes"

milli_of-close_example :
    (milli_of 3 4 ≤ 100000)
    × (milli_of 3 4 ≤ 3 * 100000 / 4 + 1)
    × (3 * 100000 / 4 ≤ milli_of 3 4 + 1)
milli_of-close_example = milli_of-close 3 4 (omega arith) (omega arith) (omega arith)

-- The batches of the two kubelets, of which the second is received last.
abbrev pub asked : Run
asked = record {
  pending = [];
  channel = [];
  received = kubelet client (node_named "a") ∷ kubelet client (node_named "b") ∷ [];
}

pub asked-Reach : Reach (kubelet client) nodes asked
asked-Reach =
    next
      (next
        (next
          (next begin (send (node_named "a") (node_named "b" ∷ []) (Picks.here _ _) (omega arith)))
          (send (node_named "b") [] (Picks.here _ _) (omega arith)))
        (receive (kubelet client (node_named "a")) (kubelet client (node_named "b") ∷ []) refl
          (omega arith)))
      (receive (kubelet client (node_named "b")) [] refl (omega arith))

fetched_a : Fetches client (node_named "a") (summary_to_batch summary (pos 9) "a")
unfolding node_address
fetched_a = record {
  address = "10.0.0.1";
  response = record { status_code = 200; status = "200 OK"; body = "{}" };
  summary = summary;
  resolved = refl;
  requested = refl;
  answered = refl;
  status_ok = refl;
  decoded = refl;
  batch = refl;
}

volume-Counts : Counts claim volume
volume-Counts = record {
  ref = record { name = "data"; namespace = "apps" };
  has_ref = refl;
  key = refl;
  named = refl;
  usable = inl some-ne-none;
}
  where
    some-ne-none : ◌≡◌ {A = Option ℕ} (some 4) none → ⊥
    some-ne-none e = cc

claim-Seen : Seen client nodes claim (point_of "a" (pos 9) volume)
unfolding fetched_a volumes
claim-Seen = record {
  node = node_named "a";
  listed = inl refl;
  batch = summary_to_batch summary (pos 9) "a";
  fetched = fetched_a;
  volume = volume;
  told = inl refl;
  counts = volume-Counts;
  point = refl;
}

-- A run of the adapter of one tick.
abbrev pub one_tick : Manager
one_tick = new_manager new_storage (pos 60)

abbrev pub after_tick : Provider Bool
after_tick = record {
  store = (run_until (pos 8) (some (merged_batch asked.received)) [] one_tick).0.cache;
  pvc_lister = none;
}

run_until-answered_example :
    (v : MetricValue) × (get_metric_by_name overflow after_tick claim used_bytes_info true ≡ ok v)
    × IsFreshAnswer client nodes overflow claim metric_volume_used_bytes v
unfolding last_tick
run_until-answered_example =
    run_until-answered client nodes overflow after_tick (pos 8) (some (merged_batch asked.received))
      [] one_tick (pos 8) asked claim (point_of "a" (pos 9) volume) true refl asked-Reach refl refl
      claim-Seen

-- ===== src/Pipeline/Running.antt =====
-- The whole adapter while it runs: the loop of manager.go stores what each tick's scrape merged, and
-- the provider reads the cache that the loop has left.
use storage_metrics_server.Base.{ℕ, ℤ, ◌≡◌, refl, ◌∙◌, ap, Option, some, List, ok}
use storage_metrics_server.Storage.Types.{NamespacedName, PvcMetricsPoint, Time, MetricsBatch}
use storage_metrics_server.Storage.{store}
use storage_metrics_server.Client.Address.{Node}
use storage_metrics_server.Client.Fetch.{SummaryClient}
use storage_metrics_server.Scraper.{merged_batch}
use storage_metrics_server.Scraper.FanOut.{Run, Reach, IsDone}
use storage_metrics_server.Manager.{Manager, Event, tick, run_until}
use storage_metrics_server.Manager.Last.{last_tick, loop-store}
use storage_metrics_server.Api.{MetricValue}
use storage_metrics_server.Provider.{Provider, get_metric_by_name, metric_volume_used_bytes}
use storage_metrics_server.Pipeline.{kubelet, Seen}
use storage_metrics_server.Pipeline.Served.{
  used_bytes_info, IsFreshAnswer, by_name-IsFreshAnswer, Seen-answered,
}

module _ (kc : SummaryClient) (nodes : List Node) where
  -- While the loop runs, and after its context has ended: if the scrape of the last tick asked the
  -- nodes' kubelets and received all values, then a query for the used bytes of a claim for which a
  -- kubelet told of a volume that counts is answered from the cache that the loop has left, and with
  -- the used bytes of the freshest of the volumes that the kubelets told of for the claim.
  pub run_until-answered :
      (overflow : ℕ → ℤ) {S : Type 0} (p : Provider S) (now : Time) (batch : Option MetricsBatch)
      (events : List Event) (m : Manager) (t : Time) (s : Run) (k : NamespacedName)
      (q : PvcMetricsPoint) (metric_selector : S)
      → last_tick (now, batch) events ≡ (t, some (merged_batch s.received))
      → Reach (kubelet kc) nodes s
      → IsDone (kubelet kc) nodes s
      → p.store ≡ (run_until now batch events m).0.cache
      → Seen kc nodes k q
      → (v : MetricValue) × (get_metric_by_name overflow p k used_bytes_info metric_selector ≡ ok v)
        × IsFreshAnswer kc nodes overflow k metric_volume_used_bytes v
  unfolding run_until tick
  run_until-answered overflow p now batch events m t s k q metric_selector l r d e told =
      let (before, f) = loop-store (now, batch) m.cache events (tick now batch m) refl in
      let g = e ∙ f ∙ ap (λ (x : Time × Option MetricsBatch). store x.1 before) l in
      let (v, h) = Seen-answered kc nodes overflow p before s k q metric_selector r d g told in
      (
        v,
        h,
        by_name-IsFreshAnswer kc nodes overflow p before s k used_bytes_info metric_selector v r d g
            h,
      )

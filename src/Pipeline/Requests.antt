-- ===== src/Pipeline/Requests.antt =====
-- The adapter as a client sees it: a request for a list (get.go and the custom metrics registry), which
-- the provider answers from the cache that the loop of manager.go has left.
use storage_metrics_server.Base.{ℕ, ℤ, String, ◌≡◌, refl, ◌∙◌, ap, Option, some, List, Among}
use storage_metrics_server.Storage.Types.{NamespacedName, Time, MetricsBatch}
use storage_metrics_server.Storage.{store}
use storage_metrics_server.Client.Address.{Node}
use storage_metrics_server.Client.Fetch.{SummaryClient}
use storage_metrics_server.Scraper.{merged_batch}
use storage_metrics_server.Scraper.FanOut.{Run, Reach, IsDone}
use storage_metrics_server.Manager.{Manager, Event, tick, run_until}
use storage_metrics_server.Manager.Last.{last_tick, loop-store}
use storage_metrics_server.Api.{MetricValue}
use storage_metrics_server.Provider.{Provider, as_provider}
use storage_metrics_server.Registry.{Selectors, list_values}
use storage_metrics_server.Handler.{Scope, Request, answered, list_resource_with_options}
use storage_metrics_server.Handler.Answers.{answered-IsServed}
use storage_metrics_server.Pipeline.{kubelet}
use storage_metrics_server.Pipeline.Served.{IsFreshAnswer, Serves-IsFreshAnswer}

module _ (kc : SummaryClient) (nodes : List Node) where
  -- The value names the claim of which it is a fresh metric.
  pub record IsFreshItem (overflow : ℕ → ℤ) (v : MetricValue) : Type 0 where
    pub claim : NamespacedName
    pub metric : String
    pub fresh : IsFreshAnswer kc nodes overflow claim metric v
    pub namespace : v.described_object.namespace ≡ claim.namespace
    pub name : v.described_object.name ≡ claim.name
    pub metric_name : v.metric_name ≡ metric

  -- Whatever a client requests, by name or by selector: if the scrape of the loop's last tick asked
  -- the nodes' kubelets and received all values, every value in the list that the API server answers
  -- with is the metric that it names, of the freshest volume that the kubelets told of for the claim
  -- that it names.
  pub answered-IsFreshItem :
      (overflow : ℕ → ℤ) {S F : Type 0} (p : Provider S) (l : Selectors S F) (scope : Scope S F)
      (now : Time) (batch : Option MetricsBatch) (events : List Event) (m : Manager) (t : Time)
      (s : Run) (req : Request) (items : List MetricValue) (v : MetricValue)
      → last_tick (now, batch) events ≡ (t, some (merged_batch s.received))
      → Reach (kubelet kc) nodes s
      → IsDone (kubelet kc) nodes s
      → p.store ≡ (run_until now batch events m).0.cache
      → list_resource_with_options l scope (list_values l (as_provider overflow p)) req
        ≡ answered items
      → Among v items
      → IsFreshItem overflow v
  unfolding run_until tick
  answered-IsFreshItem overflow p l scope now batch events m t s req items v last r d e h a =
      let (before, f) = loop-store (now, batch) m.cache events (tick now batch m) refl in
      let g = e ∙ f ∙ ap (λ (x : Time × Option MetricsBatch). store x.1 before) last in
      let (k, metric, sv) = answered-IsServed overflow p l scope req items v h a in
      record {
        claim = k;
        metric = metric;
        fresh = Serves-IsFreshAnswer kc nodes overflow p.store before s k metric v r d g sv;
        namespace = sv.namespace;
        name = sv.name;
        metric_name = sv.metric_name;
      }

-- ===== src/Pipeline/Served.antt =====
-- What a client is told after a scrape.
use storage_metrics_server.Base.{
  String, inl, inr, ◌≡◌, refl, subst, ℕ, ℤ, true, false, none, some, List, lookup, ok, arith,
  Option-cases, Result-cases,
}
use storage_metrics_server.Storage.Types.{
  NamespacedName, name_eq, Time, after, PvcMetricsPoint, or_empty,
}
use storage_metrics_server.Storage.{Storage, batch_map, store, get}
use storage_metrics_server.Storage.Laws.{get-store}
use storage_metrics_server.Client.Address.{Node}
use storage_metrics_server.Client.Fetch.{SummaryClient}
use storage_metrics_server.Scraper.{merged_batch}
use storage_metrics_server.Scraper.FanOut.{Run, Reach, IsDone}
use storage_metrics_server.Scraper.Cluster.{IsClusterFreshest, scrape-IsClusterFreshest}
use storage_metrics_server.Api.{CustomMetricInfo, MetricValue}
use storage_metrics_server.Provider.{
  Provider, metric_from_point, get_metric_by_name, pvc_group_resource, metric_volume_used_bytes,
}
use storage_metrics_server.Provider.Answers.{Serves, IsAnswer, by_name-IsAnswer}
use storage_metrics_server.Pipeline.{kubelet, Seen, Reported-Seen, Seen-Reported}

-- What the metric of used bytes is asked with.
abbrev pub used_bytes_info : CustomMetricInfo
used_bytes_info = record {
  group_resource = pvc_group_resource;
  namespaced = true;
  metric = metric_volume_used_bytes;
}

module _ (kc : SummaryClient) (nodes : List Node) where
  after_trans : (a b c : Time) → after a b ≡ false → after b c ≡ false → after a c ≡ false
  after_trans a b c h k = ground arith

  -- What a value that is served should be: the metric of a point that a kubelet told of, such that
  -- no kubelet told of a fresher one, with that point's time.
  pub record IsFreshAnswer (overflow : ℕ → ℤ) (k : NamespacedName) (metric : String)
      (v : MetricValue) : Type 0 where
    pub point : PvcMetricsPoint
    pub seen : Seen kc nodes k point
    pub freshest :
        (q : PvcMetricsPoint) → Seen kc nodes k q → after q.timestamp point.timestamp ≡ false
    pub value : metric_from_point overflow metric point ≡ some v.value
    pub timestamp : v.timestamp ≡ point.timestamp

  freshest-Seen :
      (k : NamespacedName) (p : PvcMetricsPoint)
      → IsClusterFreshest (kubelet kc) nodes k (some p)
      → (q : PvcMetricsPoint) → Seen kc nodes k q
      → after q.timestamp p.timestamp ≡ false
  freshest-Seen k p h q s =
      let (x, r, a) = Seen-Reported kc nodes k q s in
      after_trans q.timestamp x.timestamp p.timestamp a (h.1 x r)

  -- What the cache serves after a scrape that has received all values.
  pub Serves-IsFreshAnswer :
      (overflow : ℕ → ℤ) (cache before : Storage) (s : Run) (k : NamespacedName) (metric : String)
      (v : MetricValue)
      → Reach (kubelet kc) nodes s
      → IsDone (kubelet kc) nodes s
      → cache ≡ store (some (merged_batch s.received)) before
      → Serves overflow cache k metric v
      → IsFreshAnswer overflow k metric v
  unfolding merged_batch batch_map
  Serves-IsFreshAnswer overflow cache before s k metric v r d e sv =
      let c =
        subst (IsClusterFreshest (kubelet kc) nodes k) (in_batch sv.point sv.cached)
          (scrape-IsClusterFreshest (kubelet kc) nodes s k r d) in
      record {
        point = sv.point;
        seen = Reported-Seen kc nodes k sv.point c.0;
        freshest = freshest-Seen k sv.point c;
        value = sv.answered;
        timestamp = sv.timestamp;
      }
    where
      in_batch :
          (x : PvcMetricsPoint)
          → get k cache ≡ some x
          → lookup k (or_empty (merged_batch s.received).pvcs) ≡ some x
      in_batch x f = ground (arith, e, f, (get-store (some (merged_batch s.received)) before).1 k)

  -- After a scrape that has received all values and whose batch has been stored, an answer by name
  -- is the metric of the freshest volume that the kubelets told of for the claim, computed from that
  -- volume's numbers and given with its time.
  pub by_name-IsFreshAnswer :
      (overflow : ℕ → ℤ) {S : Type 0} (p : Provider S) (before : Storage) (s : Run)
      (k : NamespacedName) (info : CustomMetricInfo) (metric_selector : S) (v : MetricValue)
      → Reach (kubelet kc) nodes s
      → IsDone (kubelet kc) nodes s
      → p.store ≡ store (some (merged_batch s.received)) before
      → get_metric_by_name overflow p k info metric_selector ≡ ok v
      → IsFreshAnswer overflow k info.metric v
  by_name-IsFreshAnswer overflow p before s k info metric_selector v r d e h =
      let a =
        subst (IsAnswer overflow p k info) h (by_name-IsAnswer overflow p k info metric_selector) in
      Serves-IsFreshAnswer overflow p.store before s k info.metric v r d e a.1

  -- A claim with a sample in the cache is answered.
  cached-answered :
      (overflow : ℕ → ℤ) {S : Type 0} (p : Provider S) (k : NamespacedName) (x : PvcMetricsPoint)
      (metric_selector : S)
      → get k p.store ≡ some x
      → (v : MetricValue) × (get_metric_by_name overflow p k used_bytes_info metric_selector ≡ ok v)
  unfolding metric_from_point
  cached-answered overflow p k x metric_selector h =
      elim (Result-cases (get_metric_by_name overflow p k used_bytes_info metric_selector)) [
        | inl a ↦ a
        | inr (e, f) ↦
            let a =
              subst (IsAnswer overflow p k used_bytes_info) f
                (by_name-IsAnswer overflow p k used_bytes_info metric_selector) in
            absurd (some-ne-none (a.1 refl x h))
      ]
    where
      some-ne-none : {A : Type 0} {y : A} → some y ≡ none → ⊥
      some-ne-none e = cc

  -- After a scrape that has received all values and whose batch has been stored, every claim for
  -- which a kubelet told of a volume that counts is answered when its used bytes are asked for.
  pub Seen-answered :
      (overflow : ℕ → ℤ) {S : Type 0} (p : Provider S) (before : Storage) (s : Run)
      (k : NamespacedName) (q : PvcMetricsPoint) (metric_selector : S)
      → Reach (kubelet kc) nodes s
      → IsDone (kubelet kc) nodes s
      → p.store ≡ store (some (merged_batch s.received)) before
      → Seen kc nodes k q
      → (v : MetricValue) × (get_metric_by_name overflow p k used_bytes_info metric_selector ≡ ok v)
  unfolding batch_map merged_batch
  Seen-answered overflow p before s k q metric_selector r d e h =
      let stored = (get-store (some (merged_batch s.received)) before).1 k in
      let freshest = scrape-IsClusterFreshest (kubelet kc) nodes s k r d in
      elim (Option-cases (lookup k (or_empty (merged_batch s.received).pvcs))) [
        | inl f ↦
            let (x, rep, a) = Seen-Reported kc nodes k q h in
            absurd (subst (IsClusterFreshest (kubelet kc) nodes k) f freshest x rep)
        | inr (x, f) ↦ cached-answered overflow p k x metric_selector (ground (arith, e, f, stored))
      ]

-- ===== src/Pipeline.antt =====
-- The whole path of a sample: a kubelet's summary (scraper/client), the merge of a scrape
-- (scraper), the cache (storage) and the answer to a query by name (provider), composed as
-- cmd/storage-metrics-server/main.go and manager.go compose them.
pub mod Served
pub mod Running
pub mod Requests
pub mod Unique
use storage_metrics_server.Base.{
  inl, inr, ◌≡◌, sym, subst, false, Option, some, List, lookup, Among, ok, arith, Option-cases,
  Result-cases, Among-lookup, HasUniqueKeys, lookup-Among,
}
use storage_metrics_server.Storage.Types.{
  NamespacedName, name_eq, after, PvcMetricsPoint, MetricsBatch, or_empty,
}
use storage_metrics_server.Client.Address.{Node}
use storage_metrics_server.Client.Summary.{VolumeStats, point_of}
use storage_metrics_server.Client.Summary.Usable.{Counts, volumes}
use storage_metrics_server.Client.Summary.Freshest.{
  IsFreshest, summary_to_batch-IsFreshest, summary_to_batch-HasUniqueKeys,
}
use storage_metrics_server.Client.Fetch.{SummaryClient, url_for, get_metrics}
use storage_metrics_server.Client.Fetch.Outcome.{Fetches, get_metrics_iff}
use storage_metrics_server.Scraper.{fetched_of}
use storage_metrics_server.Scraper.Cluster.{Reported}

module _ (kc : SummaryClient) where
  -- What the goroutine of a node sends: the batch that the summary client returned, or nil.
  abbrev pub kubelet : Node → Option MetricsBatch
  kubelet node = (fetched_of (get_metrics kc node)).batch

  kubelet-some :
      (node : Node) (b : MetricsBatch) → kubelet node ≡ some b → get_metrics kc node ≡ ok b
  unfolding fetched_of
  kubelet-some node b e = elim (Result-cases (get_metrics kc node)) [
    | inl (c, p) ↦ ground arith
    | inr (x, p) ↦ absurd (ground arith)
  ]

  some-kubelet :
      (node : Node) (b : MetricsBatch) → get_metrics kc node ≡ ok b → kubelet node ≡ some b
  unfolding fetched_of
  some-kubelet node b e = ground arith

module _ (kc : SummaryClient) (nodes : List Node) where
  -- A listed node's kubelet, asked by the client, told of a volume that counts for the claim, and
  -- `p` is the point of that volume.
  pub record Seen (k : NamespacedName) (p : PvcMetricsPoint) : Type 0 where
    pub node : Node
    pub listed : Among node nodes
    pub batch : MetricsBatch
    pub fetched : Fetches kc node batch
    pub volume : VolumeStats
    pub told : Among volume (volumes fetched.summary.pods)
    pub counts : Counts k volume
    pub point :
        p
        ≡ point_of node.name
            (kc.client.network.request_time (url_for kc node fetched.address))
            volume

  -- What the batch of a fetch says of the claim `k`.
  fetched-IsFreshest :
      (k : NamespacedName) (node : Node) (b : MetricsBatch) (f : Fetches kc node b)
      → IsFreshest k node.name
          (kc.client.network.request_time (url_for kc node f.address))
          (volumes f.summary.pods)
          (lookup k (or_empty b.pvcs))
  fetched-IsFreshest k node b f =
      let t = kc.client.network.request_time (url_for kc node f.address) in
      subst
        (λ (c : MetricsBatch).
          IsFreshest k node.name t (volumes f.summary.pods) (lookup k (or_empty c.pvcs)))
        (sym f.batch) (summary_to_batch-IsFreshest k f.summary t node.name)

  fetched-HasUniqueKeys :
      (node : Node) (b : MetricsBatch) → Fetches kc node b → HasUniqueKeys (or_empty b.pvcs)
  fetched-HasUniqueKeys node b f =
      subst (λ (c : MetricsBatch). HasUniqueKeys (or_empty c.pvcs)) (sym f.batch)
        (summary_to_batch-HasUniqueKeys f.summary
          (kc.client.network.request_time (url_for kc node f.address)) node.name)

  pub Reported-Seen :
      (k : NamespacedName) (p : PvcMetricsPoint) → Reported (kubelet kc) nodes k p → Seen k p
  Reported-Seen k p r =
      let f = (get_metrics_iff kc r.node r.batch).0 (kubelet-some kc r.node r.batch r.gave) in
      let l =
        lookup-Among k p (or_empty r.batch.pvcs) (fetched-HasUniqueKeys r.node r.batch f)
          r.sample in
      let h =
        subst (IsFreshest k r.node.name _ (volumes f.summary.pods)) l
          (fetched-IsFreshest k r.node r.batch f) in
      let (v, a, c, e) = h.0 in
      record {
        node = r.node;
        listed = r.listed;
        batch = r.batch;
        fetched = f;
        volume = v;
        told = a;
        counts = c;
        point = e;
      }

  -- The node of a volume that counts reports a sample that is no older.
  pub Seen-Reported :
      (k : NamespacedName) (q : PvcMetricsPoint)
      → Seen k q
      → (p : PvcMetricsPoint) × Reported (kubelet kc) nodes k p
        × (after q.timestamp p.timestamp ≡ false)
  Seen-Reported k q s = elim (Option-cases (lookup k (or_empty s.batch.pvcs))) [
    | inl e ↦ absurd (
        subst (IsFreshest k s.node.name _ (volumes s.fetched.summary.pods)) e
          (fetched-IsFreshest k s.node s.batch s.fetched) s.volume s.told s.counts)
    | inr (p, e) ↦
        let h =
          subst (IsFreshest k s.node.name _ (volumes s.fetched.summary.pods)) e
            (fetched-IsFreshest k s.node s.batch s.fetched) in
        (
          p,
          record {
            node = s.node;
            listed = s.listed;
            batch = s.batch;
            gave = some-kubelet kc s.node s.batch ((get_metrics_iff kc s.node s.batch).1 s.fetched);
            sample = Among-lookup k p (or_empty s.batch.pvcs) e;
          },
          subst (λ (x : PvcMetricsPoint). after x.timestamp p.timestamp ≡ false) (sym s.point)
              (h.1 s.volume s.told s.counts),
        )
  ]

-- ===== src/Scraper/Cluster.antt =====
-- What a scrape of the cluster returns (scraper.go), over all the runs of its goroutines.
use storage_metrics_server.Base.{
  ◌≡◌, refl, sym, ap, ◌∙◌, subst, ◌⊎◌, inl, inr, false, Option, none, some, List, [], ◌∷◌, lookup,
  Among, map,
}
use storage_metrics_server.Storage.Types.{
  NamespacedName, name_eq, after, PvcMetricsPoint, MetricsBatch, or_empty,
}
use storage_metrics_server.Client.Address.{Node}
use storage_metrics_server.Freshness.Order.{best-same}
use storage_metrics_server.Scraper.{merged_batch}
use storage_metrics_server.Scraper.Merge.{
  Holds, IsMerged, merged_batch-IsMerged, batch_reports, lookup-merged_batch, Holds-reported,
  reported-Holds,
}
use storage_metrics_server.Scraper.FanOut.{Run, Reach, IsDone, Reach-keeps, Reach-from}
use storage_metrics_server.Scraper.FanOut.Progress.{fan_out_ends}

module _ (result : Node → Option MetricsBatch) (nodes : List Node) where
  -- One of the nodes gave a batch with the sample `p` of the claim `k`.
  pub record Reported (k : NamespacedName) (p : PvcMetricsPoint) : Type 0 where
    pub node : Node
    pub listed : Among node nodes
    pub batch : MetricsBatch
    pub gave : result node ≡ some batch
    pub sample : Among (k, p) (or_empty batch.pvcs)

  mapped :
      (ns : List Node) (b : Option MetricsBatch)
      → Among b (map result ns)
      → (n : Node) × Among n ns × (result n ≡ b)
  mapped [] b a = absurd a
  mapped (n ∷ ns) b (inl e) = (n, inl refl, e)
  mapped (n ∷ ns) b (inr a) = let r = mapped ns b a in (r.0, inr r.1, r.2)

  Among-mapped : (ns : List Node) (n : Node) → Among n ns → Among (result n) (map result ns)
  Among-mapped [] n a = a
  Among-mapped (m ∷ ns) n (inl e) = inl (ap result e)
  Among-mapped (m ∷ ns) n (inr a) = inr (Among-mapped ns n a)

  In-received :
      {s : Run} (b : Option MetricsBatch)
      → Reach result nodes s
      → IsDone result nodes s
      → Among b (map result nodes)
      → Among b s.received
  In-received {s} b r d a =
      let f = fan_out_ends result nodes r in
      received (f.drained d).0 (f.drained d).1 (Reach-keeps result nodes b r a)
    where
      received :
          s.pending ≡ []
          → s.channel ≡ []
          → Among b (map result s.pending) ⊎ (Among b s.channel ⊎ Among b s.received)
          → Among b s.received
      received e f (inl x) = absurd (subst (λ ns. Among b (map result ns)) e x)
      received e f (inr (inl x)) = absurd (subst (Among b) f x)
      received e f (inr (inr x)) = x

  Reported-Holds :
      {s : Run} (k : NamespacedName) (p : PvcMetricsPoint)
      → Reach result nodes s
      → IsDone result nodes s
      → Reported k p
      → Holds k p s.received
  Reported-Holds k p r d h = (
    h.batch,
    In-received (some h.batch) r d
        (subst (λ b. Among b (map result nodes)) h.gave (Among-mapped nodes h.node h.listed)),
    h.sample,
  )

  Holds-Reported :
      {s : Run} (k : NamespacedName) (p : PvcMetricsPoint)
      → Reach result nodes s
      → Holds k p s.received
      → Reported k p
  Holds-Reported k p r (b, a, c) =
      let m = mapped nodes (some b) (Reach-from result nodes (some b) r (inr (inr a))) in
      record { node = m.0; listed = m.1; batch = b; gave = m.2; sample = c }

  -- `o` is what a scrape should keep of the claim `k`.
  abbrev pub IsClusterFreshest : NamespacedName → Option PvcMetricsPoint → Type 0
  IsClusterFreshest k none = (p : PvcMetricsPoint) → ¬ Reported k p
  IsClusterFreshest k (some p) =
      Reported k p × ((q : PvcMetricsPoint) → Reported k q → after q.timestamp p.timestamp ≡ false)

  transfer :
      {s : Run} (k : NamespacedName) (o : Option PvcMetricsPoint)
      → Reach result nodes s
      → IsDone result nodes s
      → IsMerged k s.received o
      → IsClusterFreshest k o
  transfer k none r d h = λ p c. h p (Reported-Holds k p r d c)
  transfer k (some p) r d h = (Holds-Reported k p r h.0, λ q c. h.1 q (Reported-Holds k q r d c))

  -- When a scrape has received all values, in whatever order its goroutines ran, it returns for each
  -- claim the freshest sample that a node gave, and nothing for a claim that no node reported.
  pub scrape-IsClusterFreshest :
      (s : Run) (k : NamespacedName)
      → Reach result nodes s
      → IsDone result nodes s
      → IsClusterFreshest k (lookup k (or_empty (merged_batch s.received).pvcs))
  scrape-IsClusterFreshest s k r d = transfer k _ r d (merged_batch-IsMerged k s.received)

  -- Two samples of the claim from nodes, with one time, are the same.
  abbrev pub HasNoNodeTies : NamespacedName → Type 0
  HasNoNodeTies k =
      (p q : PvcMetricsPoint) → Reported k p → Reported k q → p.timestamp ≡ q.timestamp → p ≡ q

  -- Two runs of a scrape over the same answers of the nodes keep the same sample of a claim, if no
  -- two different samples of the claim have the same time.
  pub scrape_deterministic :
      (s t : Run) (k : NamespacedName)
      → Reach result nodes s
      → IsDone result nodes s
      → Reach result nodes t
      → IsDone result nodes t
      → HasNoNodeTies k
      → lookup k (or_empty (merged_batch s.received).pvcs)
        ≡ lookup k (or_empty (merged_batch t.received).pvcs)
  scrape_deterministic s t k r d r' d' ties =
      lookup-merged_batch k s.received
      ∙ best-same k (batch_reports s.received) (batch_reports t.received) (λ p. moves p s t r r' d')
          (λ p. moves p t s r' r d)
          (λ p q a b.
            ties p q (Holds-Reported k p r (reported-Holds k p s.received a))
              (Holds-Reported k q r (reported-Holds k q s.received b)))
      ∙ sym (lookup-merged_batch k t.received)
    where
      moves :
          (p : PvcMetricsPoint) (u v : Run)
          → Reach result nodes u
          → Reach result nodes v
          → IsDone result nodes v
          → Among (k, p) (batch_reports u.received)
          → Among (k, p) (batch_reports v.received)
      moves p u v ru rv dv a =
          Holds-reported k p v.received
            (Reported-Holds k p rv dv (Holds-Reported k p ru (reported-Holds k p u.received a)))

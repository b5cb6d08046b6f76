-- ===== src/Scraper/Merge.antt =====
-- The merge of `Scrape` (scraper.go), compared with the reports of all the batches.
use storage_metrics_server.Base.{
  ◌≡◌, refl, sym, ap, ◌∙◌, subst, inl, inr, false, Option, none, some, List, [], ◌∷◌, ◌++◌, Map,
  lookup, lookup-insert, Eq, Among, Among-append, Among-append_left, Among-append_right, arith,
  Option-cases,
}
use storage_metrics_server.Storage.Types.{
  NamespacedName, name_eq, after, PvcMetricsPoint, MetricsBatch, or_empty,
}
use storage_metrics_server.Freshness.{Report, take_report, best}
use storage_metrics_server.Freshness.Order.{best-Among, best-none, best-after}
use storage_metrics_server.Scraper.{merge_point, merge_points, merge_batches, merged_batch}

-- The reports of the batches, one batch after the other.
unfoldable pub batch_reports : List (Option MetricsBatch) → List Report
batch_reports [] = []
batch_reports (none ∷ bs) = batch_reports bs
batch_reports (some b ∷ bs) = or_empty b.pvcs ++ batch_reports bs

lookup-merge_point :
    (key k : NamespacedName) (p : PvcMetricsPoint) (m : Map NamespacedName PvcMetricsPoint)
    → lookup k (merge_point key p m) ≡ take_report k (lookup k m) (key, p)
unfolding merge_point take_report
lookup-merge_point key k p m = elim (Option-cases (lookup key m)) [
  | inl e ↦ ground (arith, lookup-insert key k p m, Eq.beq_iff name_eq key k)
  | inr (x, e) ↦ ground (arith, lookup-insert key k p m, Eq.beq_iff name_eq key k)
]

lookup-merge_points :
    (k : NamespacedName) (pvcs m : Map NamespacedName PvcMetricsPoint) (rs : List Report)
    → best k (lookup k (merge_points pvcs m)) rs ≡ best k (lookup k m) (pvcs ++ rs)
unfolding merge_points best
lookup-merge_points k [] m rs = refl
lookup-merge_points k ((key, p) ∷ pvcs) m rs =
    lookup-merge_points k pvcs (merge_point key p m) rs
    ∙ ap (λ o. best k o (pvcs ++ rs)) (lookup-merge_point key k p m)

lookup-merge_batches :
    (k : NamespacedName) (bs : List (Option MetricsBatch)) (m : Map NamespacedName PvcMetricsPoint)
    → lookup k (merge_batches bs m) ≡ best k (lookup k m) (batch_reports bs)
unfolding merge_batches batch_reports best
lookup-merge_batches k [] m = refl
lookup-merge_batches k (none ∷ bs) m = lookup-merge_batches k bs m
lookup-merge_batches k (some b ∷ bs) m =
    lookup-merge_batches k bs (merge_points (or_empty b.pvcs) m)
    ∙ lookup-merge_points k (or_empty b.pvcs) m (batch_reports bs)

-- The merged batch, claim by claim, is the fold of the reports of the batches.
pub lookup-merged_batch :
    (k : NamespacedName) (bs : List (Option MetricsBatch))
    → lookup k (or_empty (merged_batch bs).pvcs) ≡ best k none (batch_reports bs)
unfolding merged_batch lookup
lookup-merged_batch k bs = lookup-merge_batches k bs []

-- The sample `p` of the claim `k` stands in one of the batches.
abbrev pub Holds : NamespacedName → PvcMetricsPoint → List (Option MetricsBatch) → Type 0
Holds k p bs = (b : MetricsBatch) × Among (some b) bs × Among (k, p) (or_empty b.pvcs)

pub Holds-reported :
    (k : NamespacedName) (p : PvcMetricsPoint) (bs : List (Option MetricsBatch))
    → Holds k p bs
    → Among (k, p) (batch_reports bs)
unfolding batch_reports
Holds-reported k p [] (b, a, c) = absurd a
Holds-reported k p (none ∷ bs) (b, inl e, c) = cc
Holds-reported k p (none ∷ bs) (b, inr a, c) = Holds-reported k p bs (b, a, c)
Holds-reported k p (some x ∷ bs) (b, inl e, c) =
    let same : b ≡ x = cc in
    Among-append_left (k, p) (or_empty x.pvcs) (batch_reports bs)
      (subst (λ (y : MetricsBatch). Among (k, p) (or_empty y.pvcs)) same c)
Holds-reported k p (some x ∷ bs) (b, inr a, c) =
    Among-append_right (k, p) (or_empty x.pvcs) (batch_reports bs) (Holds-reported k p bs (b, a, c))

pub reported-Holds :
    (k : NamespacedName) (p : PvcMetricsPoint) (bs : List (Option MetricsBatch))
    → Among (k, p) (batch_reports bs)
    → Holds k p bs
unfolding batch_reports
reported-Holds k p [] a = absurd a
reported-Holds k p (none ∷ bs) a = let h = reported-Holds k p bs a in (h.0, inr h.1, h.2)
reported-Holds k p (some x ∷ bs) a =
    elim (Among-append (k, p) (or_empty x.pvcs) (batch_reports bs) a) [
      | inl c ↦ (x, inl refl, c)
      | inr c ↦ let h = reported-Holds k p bs c in (h.0, inr h.1, h.2)
    ]

-- `o` is what should be kept of the claim `k`: nothing if no batch has a sample of it, else a
-- sample from one of the batches such that no batch has a strictly fresher one.
abbrev pub IsMerged : NamespacedName → List (Option MetricsBatch) → Option PvcMetricsPoint → Type 0
IsMerged k bs none = (p : PvcMetricsPoint) → ¬ Holds k p bs
IsMerged k bs (some p) =
    Holds k p bs × ((q : PvcMetricsPoint) → Holds k q bs → after q.timestamp p.timestamp ≡ false)

best-IsMerged :
    (k : NamespacedName) (bs : List (Option MetricsBatch)) (o : Option PvcMetricsPoint)
    → best k none (batch_reports bs) ≡ o
    → IsMerged k bs o
best-IsMerged k bs none e = λ p h. best-none k (batch_reports bs) p (Holds-reported k p bs h) e
best-IsMerged k bs (some p) e = (
  reported-Holds k p bs (best-Among k (batch_reports bs) p e),
  λ q h. best-after k (batch_reports bs) p q e (Holds-reported k q bs h),
)

-- For every claim, the merged batch holds the freshest sample that any of the batches has.
pub merged_batch-IsMerged :
    (k : NamespacedName) (bs : List (Option MetricsBatch))
    → IsMerged k bs (lookup k (or_empty (merged_batch bs).pvcs))
merged_batch-IsMerged k bs = best-IsMerged k bs _ (sym (lookup-merged_batch k bs))

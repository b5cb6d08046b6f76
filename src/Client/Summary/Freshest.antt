-- ===== src/Client/Summary/Freshest.antt =====
-- The batch of one node (summaryToBatch), compared with the volumes that count for a claim.
use storage_metrics_server.Base.{
  ◌≡◌, refl, sym, ap, ◌∙◌, inl, inr, String, false, Option, none, some, List, [], ◌∷◌, ◌++◌, Map,
  lookup, lookup-insert, insert-HasUniqueKeys, HasUniqueKeys, ◌==◌, string_eq, Eq, Among, arith,
  Option-cases, Bool-cases,
}
use storage_metrics_server.Storage.Types.{
  NamespacedName, name_eq, Time, after, PvcMetricsPoint, or_empty,
}
use storage_metrics_server.Freshness.{Report, take_report, best}
use storage_metrics_server.Freshness.Order.{best-Among, best-none, best-after}
use storage_metrics_server.Client.Summary.{
  PvcReference, VolumeStats, PodStats, Summary, point_of, has_no_values, put_sample, add_claim,
  add_volumes, add_pods, summary_to_batch, key_of,
}
use storage_metrics_server.Client.Summary.Usable.{
  Counts, report_of, cons?, volume_reports, volumes, summary_reports, volume_reports-source,
  volume_reports-all, volume_reports-append,
}

lookup-put_sample :
    (key k : NamespacedName) (p : PvcMetricsPoint) (m : Map NamespacedName PvcMetricsPoint)
    → lookup k (put_sample key p m) ≡ take_report k (lookup k m) (key, p)
unfolding put_sample take_report
lookup-put_sample key k p m = elim (Option-cases (lookup key m)) [
  | inl e ↦ ground (arith, lookup-insert key k p m, Eq.beq_iff name_eq key k)
  | inr (x, e) ↦ ground (arith, lookup-insert key k p m, Eq.beq_iff name_eq key k)
]

cons?-append : (o : Option Report) (xs ys : List Report) → cons? o xs ++ ys ≡ cons? o (xs ++ ys)
cons?-append none xs ys = refl
cons?-append (some x) xs ys = refl

-- A volume updates the sample of `k` as its report says.
lookup-add_claim :
    (k : NamespacedName) (node : String) (default : Time) (v : VolumeStats)
    (o : Option PvcReference) (m : Map NamespacedName PvcMetricsPoint) (rs : List Report)
    → best k (lookup k (add_claim node default o v m)) rs
      ≡ best k (lookup k m) (cons? (report_of node default v o) rs)
unfolding add_claim best
lookup-add_claim k node default v none m rs = refl
lookup-add_claim k node default v (some ref) m rs = elim (Bool-cases (ref.name == "")) [
  | inl e ↦ rw e refl
  | inr e ↦ elim (Bool-cases (has_no_values (point_of node default v))) [
    | inl f ↦ rw (e, f) refl
    | inr f ↦
        rw (e, f)
          (ap (λ o. best k o rs) (lookup-put_sample (key_of ref) k (point_of node default v) m))
  ]
]

lookup-add_volumes :
    (k : NamespacedName) (node : String) (default : Time) (vs : List VolumeStats)
    (m : Map NamespacedName PvcMetricsPoint) (rs : List Report)
    → best k (lookup k (add_volumes node default vs m)) rs
      ≡ best k (lookup k m) (volume_reports node default vs ++ rs)
unfolding add_volumes volume_reports
lookup-add_volumes k node default [] m rs = refl
lookup-add_volumes k node default (v ∷ vs) m rs =
    lookup-add_volumes k node default vs (add_claim node default v.pvc_ref v m) rs
    ∙ lookup-add_claim k node default v v.pvc_ref m (volume_reports node default vs ++ rs)
    ∙ ap (best k (lookup k m)) (sym (cons?-append (report_of node default v v.pvc_ref) _ rs))

lookup-add_pods :
    (k : NamespacedName) (node : String) (default : Time) (ps : List PodStats)
    (m : Map NamespacedName PvcMetricsPoint)
    → lookup k (add_pods node default ps m)
      ≡ best k (lookup k m) (volume_reports node default (volumes ps))
unfolding add_pods volumes best volume_reports
lookup-add_pods k node default [] m = refl
lookup-add_pods k node default (p ∷ ps) m =
    lookup-add_pods k node default ps (add_volumes node default p.volume_stats m)
    ∙ lookup-add_volumes k node default p.volume_stats m (volume_reports node default (volumes ps))
    ∙ ap (best k (lookup k m))
        (sym (volume_reports-append node default p.volume_stats (volumes ps)))

-- The batch of a summary, claim by claim, is the fold of its reports.
pub lookup-summary_to_batch :
    (k : NamespacedName) (s : Summary) (default : Time) (node : String)
    → lookup k (or_empty (summary_to_batch s default node).pvcs)
      ≡ best k none (summary_reports node default s)
unfolding summary_to_batch summary_reports lookup
lookup-summary_to_batch k s default node = lookup-add_pods k node default s.pods []

-- `o` is what should be kept of the claim `k` among these volumes: nothing if none of them counts
-- for it, else the point of one that counts, such that none that counts is strictly fresher.
abbrev pub IsFreshest :
    NamespacedName → String → Time → List VolumeStats → Option PvcMetricsPoint → Type 0
IsFreshest k node default vs none = (v : VolumeStats) → Among v vs → ¬ Counts k v
IsFreshest k node default vs (some p) =
    ((v : VolumeStats) × Among v vs × Counts k v × (p ≡ point_of node default v))
    × ((w : VolumeStats)
        → Among w vs
        → Counts k w
        → after (point_of node default w).timestamp p.timestamp ≡ false)

best-IsFreshest :
    (k : NamespacedName) (node : String) (default : Time) (vs : List VolumeStats)
    (o : Option PvcMetricsPoint)
    → best k none (volume_reports node default vs) ≡ o
    → IsFreshest k node default vs o
best-IsFreshest k node default vs none e =
    λ v a c. best-none k _ _ (volume_reports-all k node default vs v a c) e
best-IsFreshest k node default vs (some p) e = (
  volume_reports-source k node default vs p (best-Among k _ p e),
  λ w a c. best-after k _ p _ e (volume_reports-all k node default vs w a c),
)

-- For every claim, the batch of a kubelet's summary holds the sample of the freshest volume that
-- counts for the claim, over all the pods, and holds nothing if no volume counts.
pub summary_to_batch-IsFreshest :
    (k : NamespacedName) (s : Summary) (default : Time) (node : String)
    → IsFreshest k node default
        (volumes s.pods)
        (lookup k (or_empty (summary_to_batch s default node).pvcs))
unfolding summary_reports
summary_to_batch-IsFreshest k s default node =
    best-IsFreshest k node default (volumes s.pods) _
      (sym (lookup-summary_to_batch k s default node))

put_sample-HasUniqueKeys :
    (k : NamespacedName) (p : PvcMetricsPoint) (m : Map NamespacedName PvcMetricsPoint)
    → HasUniqueKeys m
    → HasUniqueKeys (put_sample k p m)
unfolding put_sample
put_sample-HasUniqueKeys k p m h = ground (arith, insert-HasUniqueKeys k p m h)

add_claim-HasUniqueKeys :
    (node : String) (default : Time) (v : VolumeStats) (o : Option PvcReference)
    (m : Map NamespacedName PvcMetricsPoint)
    → HasUniqueKeys m
    → HasUniqueKeys (add_claim node default o v m)
unfolding add_claim
add_claim-HasUniqueKeys node default v none m h = h
add_claim-HasUniqueKeys node default v (some ref) m h =
    ground (arith, put_sample-HasUniqueKeys (key_of ref) (point_of node default v) m h)

add_volumes-HasUniqueKeys :
    (node : String) (default : Time) (vs : List VolumeStats)
    (m : Map NamespacedName PvcMetricsPoint)
    → HasUniqueKeys m
    → HasUniqueKeys (add_volumes node default vs m)
unfolding add_volumes
add_volumes-HasUniqueKeys node default [] m h = h
add_volumes-HasUniqueKeys node default (v ∷ vs) m h =
    add_volumes-HasUniqueKeys node default vs (add_claim node default v.pvc_ref v m)
      (add_claim-HasUniqueKeys node default v v.pvc_ref m h)

add_pods-HasUniqueKeys :
    (node : String) (default : Time) (ps : List PodStats) (m : Map NamespacedName PvcMetricsPoint)
    → HasUniqueKeys m
    → HasUniqueKeys (add_pods node default ps m)
unfolding add_pods
add_pods-HasUniqueKeys node default [] m h = h
add_pods-HasUniqueKeys node default (p ∷ ps) m h =
    add_pods-HasUniqueKeys node default ps (add_volumes node default p.volume_stats m)
      (add_volumes-HasUniqueKeys node default p.volume_stats m h)

-- The batch of a summary holds each claim once.
pub summary_to_batch-HasUniqueKeys :
    (s : Summary) (default : Time) (node : String)
    → HasUniqueKeys (or_empty (summary_to_batch s default node).pvcs)
unfolding summary_to_batch
summary_to_batch-HasUniqueKeys s default node = add_pods-HasUniqueKeys node default s.pods [] tt

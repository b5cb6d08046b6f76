-- ===== src/Client/Summary/Usable.antt =====
-- Which volumes of a summary count: those with a claim and with a number worth serving.
use storage_metrics_server.Base.{
  ◌≡◌, refl, sym, ap, subst, Option-cases, ◌⊎◌, inl, inr, ◌≢◌, String, false, Option, none, some,
  List, [], ◌∷◌, ◌++◌, ◌==◌, string_eq, if◌then◌else◌, Among, arith,
}
use storage_metrics_server.Storage.Types.{NamespacedName, Time, PvcMetricsPoint}
use storage_metrics_server.Freshness.{Report}
use storage_metrics_server.Client.Summary.{
  PvcReference, VolumeStats, PodStats, Summary, point_of, has_no_values, key_of, or_zero,
}

-- What a volume reports of a claim, if it counts.
abbrev pub report_of : String → Time → VolumeStats → Option PvcReference → Option Report
report_of node default v none = none
report_of node default v (some ref) =
    if ref.name == ""
    then none
    else if has_no_values (point_of node default v)
    then none
    else some (key_of ref, point_of node default v)

abbrev pub cons? {ℓ} : {A : Type ℓ} → Option A → List A → List A
cons? none xs = xs
cons? (some x) xs = x ∷ xs

unfoldable pub volume_reports : String → Time → List VolumeStats → List Report
volume_reports node default [] = []
volume_reports node default (v ∷ vs) =
    cons? (report_of node default v v.pvc_ref) (volume_reports node default vs)

-- All the volumes of a summary, pod by pod.
unfoldable pub volumes : List PodStats → List VolumeStats
volumes [] = []
volumes (p ∷ ps) = p.volume_stats ++ volumes ps

unfoldable pub summary_reports : String → Time → Summary → List Report
unfolding volume_reports volumes
summary_reports node default s = volume_reports node default (volumes s.pods)

-- A volume counts for the claim `k` if it names the claim, which has a name, and the kubelet gave a
-- capacity, a number of inodes, or a use other than zero.
pub record Counts (k : NamespacedName) (v : VolumeStats) : Type 0 where
  pub ref : PvcReference
  pub has_ref : v.pvc_ref ≡ some ref
  pub key : key_of ref ≡ k
  pub named : (ref.name == "") ≡ false
  pub usable : (v.capacity_bytes ≢ none) ⊎ ((v.inodes ≢ none) ⊎ (or_zero v.used_bytes ≢ 0))

IsUsable-false :
    (node : String) (default : Time) (v : VolumeStats)
    → has_no_values (point_of node default v) ≡ false
    → (v.capacity_bytes ≢ none) ⊎ ((v.inodes ≢ none) ⊎ (or_zero v.used_bytes ≢ 0))
unfolding has_no_values point_of
IsUsable-false node default v h = ground arith

report_of-Counts :
    (k : NamespacedName) (node : String) (default : Time) (v : VolumeStats)
    (o : Option PvcReference) (p : PvcMetricsPoint)
    → v.pvc_ref ≡ o
    → report_of node default v o ≡ some (k, p)
    → Counts k v × (p ≡ point_of node default v)
report_of-Counts k node default v none p e h = cc
report_of-Counts k node default v (some ref) p e h = (
  record {
    ref = ref;
    has_ref = e;
    key = ground arith;
    named = ground arith;
    usable = IsUsable-false node default v (ground arith);
  },
  ground arith,
)

Counts-false :
    (node : String) (default : Time) (v : VolumeStats)
    → (v.capacity_bytes ≢ none) ⊎ ((v.inodes ≢ none) ⊎ (or_zero v.used_bytes ≢ 0))
    → has_no_values (point_of node default v) ≡ false
unfolding has_no_values point_of
Counts-false node default v h = ground arith

Counts-report_of :
    (k : NamespacedName) (node : String) (default : Time) (v : VolumeStats)
    → Counts k v
    → report_of node default v v.pvc_ref ≡ some (k, point_of node default v)
Counts-report_of k node default v c =
    rw (c.has_ref) (ground (arith, Counts-false node default v c.usable, c.key, c.named))

Among-cons? :
    (r : Report) (o : Option Report) (rs : List Report)
    → Among r (cons? o rs)
    → (o ≡ some r) ⊎ Among r rs
Among-cons? r none rs a = inr a
Among-cons? r (some x) rs (inl e) = inl (ap some e)
Among-cons? r (some x) rs (inr a) = inr a

-- Each report of a list of volumes is the point of a volume that counts for its claim.
pub volume_reports-source :
    (k : NamespacedName) (node : String) (default : Time) (vs : List VolumeStats)
    (p : PvcMetricsPoint)
    → Among (k, p) (volume_reports node default vs)
    → (v : VolumeStats) × Among v vs × Counts k v × (p ≡ point_of node default v)
unfolding volume_reports
volume_reports-source k node default [] p a = absurd a
volume_reports-source k node default (v ∷ vs) p a =
    elim (Among-cons? (k, p) (report_of node default v v.pvc_ref) _ a) [
      | inl e ↦
          let c = report_of-Counts k node default v v.pvc_ref p refl e in (v, inl refl, c.0, c.1)
      | inr b ↦ let r = volume_reports-source k node default vs p b in (r.0, inr r.1, r.2, r.3)
    ]

-- Each volume that counts for a claim is reported.
pub volume_reports-all :
    (k : NamespacedName) (node : String) (default : Time) (vs : List VolumeStats) (v : VolumeStats)
    → Among v vs
    → Counts k v
    → Among (k, point_of node default v) (volume_reports node default vs)
unfolding volume_reports
volume_reports-all k node default [] v a c = absurd a
volume_reports-all k node default (w ∷ vs) v (inl e) c =
    let c' = subst (Counts k) (sym e) c in
    rw (Counts-report_of k node default w c') (inl (ap (λ x. (k, point_of node default x)) e))
volume_reports-all k node default (w ∷ vs) v (inr a) c =
    let rest = volume_reports-all k node default vs v a c in
    elim (Option-cases (report_of node default w w.pvc_ref)) [
      | inl e ↦ rw e rest
      | inr (r, e) ↦ rw e (inr rest)
    ]

-- The reports of two lists of volumes, one after the other.
pub volume_reports-append :
    (node : String) (default : Time) (vs ws : List VolumeStats)
    → volume_reports node default (vs ++ ws)
      ≡ volume_reports node default vs ++ volume_reports node default ws
unfolding volume_reports
volume_reports-append node default [] ws = refl
volume_reports-append node default (v ∷ vs) ws =
    elim (Option-cases (report_of node default v v.pvc_ref)) [
      | inl e ↦ rw e (volume_reports-append node default vs ws)
      | inr (r, e) ↦ rw e (ap (◌∷◌ r) (volume_reports-append node default vs ws))
    ]

-- ===== src/Client/Summary.antt =====
-- `summaryToBatch` of pkg/storagemetrics/scraper/client/summary_client.go: a kubelet's summary as
-- one sample for each claim. The summary's types are those of k8s.io/kubelet, cut to the fields
-- that the loop reads; a pointer is an `Option`.
pub mod Usable
pub mod Freshest
use storage_metrics_server.Base.{
  ℕ, String, Bool, true, false, not, ◌&&◌, nat_beq, Option, none, some, List, [], ◌∷◌, Map, lookup,
  insert, ◌==◌, string_eq, if◌then◌else◌,
}
use storage_metrics_server.Storage.Types.{
  NamespacedName, name_eq, Time, after, is_zero, PvcMetricsPoint, MetricsBatch,
}

pub record PvcReference : Type 0 where
  pub name : String
  pub namespace : String

pub record VolumeStats : Type 0 where
  pub pvc_ref : Option PvcReference
  pub time : Time
  pub available_bytes : Option ℕ
  pub capacity_bytes : Option ℕ
  pub used_bytes : Option ℕ
  pub inodes_free : Option ℕ
  pub inodes : Option ℕ
  pub inodes_used : Option ℕ

pub record PodStats : Type 0 where
  pub volume_stats : List VolumeStats

pub record Summary : Type 0 where
  pub pods : List PodStats

abbrev pub or_zero : Option ℕ → ℕ
or_zero none = 0
or_zero (some n) = n

abbrev pub is_some {ℓ} : {A : Type ℓ} → Option A → Bool
is_some none = false
is_some (some a) = true

-- The point that the body of the loop fills for one volume.
unfoldable pub point_of : String → Time → VolumeStats → PvcMetricsPoint
point_of node_name default_time v = record {
  node = node_name;
  timestamp = if is_zero v.time then default_time else v.time;
  capacity_bytes = or_zero v.capacity_bytes;
  available_bytes = or_zero v.available_bytes;
  used_bytes = or_zero v.used_bytes;
  inodes = or_zero v.inodes;
  inodes_free = or_zero v.inodes_free;
  inodes_used = or_zero v.inodes_used;
  has_inodes = is_some v.inodes;
  has_capacity = is_some v.capacity_bytes;
}

-- `!point.HasCapacity && !point.HasInodes && point.UsedBytes == 0`
unfoldable pub has_no_values : PvcMetricsPoint → Bool
has_no_values p = not p.has_capacity && not p.has_inodes && nat_beq p.used_bytes 0

abbrev pub key_of : PvcReference → NamespacedName
key_of ref = record { namespace = ref.namespace; name = ref.name }

-- The write at the end of the loop's body, skipped where an older entry is strictly fresher.
unfoldable pub put_sample :
    NamespacedName
    → PvcMetricsPoint
    → Map NamespacedName PvcMetricsPoint
    → Map NamespacedName PvcMetricsPoint
put_sample key point pvcs = elim (lookup key pvcs) [
  | none ↦ insert key point pvcs
  | some existing ↦ if after existing.timestamp point.timestamp then pvcs else insert key point pvcs
]

-- The body of the inner loop, from the test on the reference on.
unfoldable pub add_claim :
    String
    → Time
    → Option PvcReference
    → VolumeStats
    → Map NamespacedName PvcMetricsPoint
    → Map NamespacedName PvcMetricsPoint
unfolding point_of has_no_values put_sample
add_claim node_name default_time none v pvcs = pvcs
add_claim node_name default_time (some ref) v pvcs =
    if ref.name == ""
    then pvcs
    else let point = point_of node_name default_time v in
      if has_no_values point then pvcs else put_sample (key_of ref) point pvcs

unfoldable pub add_volumes :
    String
    → Time
    → List VolumeStats
    → Map NamespacedName PvcMetricsPoint
    → Map NamespacedName PvcMetricsPoint
unfolding add_claim
add_volumes node_name default_time [] pvcs = pvcs
add_volumes node_name default_time (v ∷ vs) pvcs =
    add_volumes node_name default_time vs (add_claim node_name default_time v.pvc_ref v pvcs)

unfoldable pub add_pods :
    String
    → Time
    → List PodStats
    → Map NamespacedName PvcMetricsPoint
    → Map NamespacedName PvcMetricsPoint
unfolding add_volumes
add_pods node_name default_time [] pvcs = pvcs
add_pods node_name default_time (pod ∷ pods) pvcs =
    add_pods node_name default_time pods (add_volumes node_name default_time pod.volume_stats pvcs)

unfoldable pub summary_to_batch : Summary → Time → String → MetricsBatch
unfolding add_pods
summary_to_batch summary default_time node_name = record {
  pvcs = some (add_pods node_name default_time summary.pods []);
}

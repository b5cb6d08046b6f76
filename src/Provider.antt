-- ===== src/Provider.antt =====
-- pkg/storagemetrics/provider: the metrics that the cache answers, one claim at a time
-- (metrics.go, `metric_from_point`) and for a selector of claims (provider.go). An int64 is a ℤ and
-- a uint64 a number below 2^64. `collect` reads the cache in one
-- state, and Provider/Interleaved has the updates that come between its reads.
pub mod Metrics
pub mod Answers
pub mod Interleaved
use storage_metrics_server.Base.{
  ℕ, ◌-◌, ◌^◌, ◌≡◌, String, ℤ, pos, negsuc, Bool, true, not, ◌||◌, Option, none, some, List, [],
  ◌∷◌, map, ltb, nat_beq, if◌then◌else◌, ◌==◌, string_eq, Result, ok, err, ◌>>=◌, length,
}
use storage_metrics_server.Storage.Types.{NamespacedName, PvcMetricsPoint}
use storage_metrics_server.Storage.{Storage, get}
use storage_metrics_server.Float.{milli_of}
use storage_metrics_server.Api.{
  GroupResource, same_resource, CustomMetricInfo, Quantity, Scale, units, milli, Format, binary_si,
  decimal_si, MetricValue, Error, other, new_metric_not_found_error, new_metric_not_found_for_error,
  CustomMetricsProvider,
}

abbrev pub metric_volume_capacity_bytes : String
metric_volume_capacity_bytes = "volume_capacity_bytes"

abbrev pub metric_volume_available_bytes : String
metric_volume_available_bytes = "volume_available_bytes"

abbrev pub metric_volume_used_bytes : String
metric_volume_used_bytes = "volume_used_bytes"

abbrev pub metric_volume_used_percentage : String
metric_volume_used_percentage = "volume_used_percentage"

abbrev pub metric_volume_inodes : String
metric_volume_inodes = "volume_inodes"

abbrev pub metric_volume_inodes_free : String
metric_volume_inodes_free = "volume_inodes_free"

abbrev pub metric_volume_inodes_used : String
metric_volume_inodes_used = "volume_inodes_used"

abbrev pub metric_volume_inodes_used_percentage : String
metric_volume_inodes_used_percentage = "volume_inodes_used_percentage"

abbrev pub all_metrics : List String
all_metrics =
    metric_volume_capacity_bytes ∷ metric_volume_available_bytes ∷ metric_volume_used_bytes
    ∷ metric_volume_used_percentage ∷ metric_volume_inodes ∷ metric_volume_inodes_free
    ∷ metric_volume_inodes_used ∷ metric_volume_inodes_used_percentage ∷ []

-- int64(n) for a uint64: the upper half wraps to the negative numbers.
unfoldable pub to_int64 : ℕ → ℤ
to_int64 n = if ltb n (2 ^ 63) then pos n else negsuc (2 ^ 64 - 1 - n)

-- int64(f) for a float64 with the whole part `t`: Go leaves the result open where that does not
-- fit, and `overflow` stands for what the machine gives there.
unfoldable pub float_to_int64 : (ℕ → ℤ) → ℕ → ℤ
float_to_int64 overflow t = if ltb t (2 ^ 63) then pos t else overflow t

abbrev pub new_quantity : ℤ → Format → Quantity
new_quantity value format = record { amount = value; scale = units; format = format }

abbrev pub new_milli_quantity : ℤ → Format → Quantity
new_milli_quantity value format = record { amount = value; scale = milli; format = format }

abbrev pub counter : Bool → ℕ → Format → Option Quantity
counter has n format = if has then some (new_quantity (to_int64 n) format) else none

abbrev pub percentage : (ℕ → ℤ) → Bool → ℕ → ℕ → Option Quantity
percentage overflow has part whole =
    if not has || nat_beq whole 0
    then none
    else some (new_milli_quantity (float_to_int64 overflow (milli_of part whole)) decimal_si)

unfoldable pub metric_from_point : (ℕ → ℤ) → String → PvcMetricsPoint → Option Quantity
metric_from_point overflow metric p =
    if metric == metric_volume_capacity_bytes
    then counter p.has_capacity p.capacity_bytes binary_si
    else if metric == metric_volume_available_bytes
    then counter p.has_capacity p.available_bytes binary_si
    else if metric == metric_volume_used_bytes
    then some (new_quantity (to_int64 p.used_bytes) binary_si)
    else if metric == metric_volume_used_percentage
    then percentage overflow p.has_capacity p.used_bytes p.capacity_bytes
    else if metric == metric_volume_inodes
    then counter p.has_inodes p.inodes decimal_si
    else if metric == metric_volume_inodes_free
    then counter p.has_inodes p.inodes_free decimal_si
    else if metric == metric_volume_inodes_used
    then counter p.has_inodes p.inodes_used decimal_si
    else if metric == metric_volume_inodes_used_percentage
    then percentage overflow p.has_inodes p.inodes_used p.inodes
    else none

abbrev pub pvc_group_resource : GroupResource
pvc_group_resource = record { group = ""; resource = "persistentvolumeclaims" }

-- The claims of an informer, by name. `list` is PVCs(namespace).List(selector).
pub record PvcLister (Selector : Type 0) : Type 0 where
  pub list : String → Selector → Result Error (List String)

pub record Provider (Selector : Type 0) : Type 0 where
  pub store : Storage
  -- nil is `none`
  pub pvc_lister : Option (PvcLister Selector)

unfoldable pub is_pvc : CustomMetricInfo → Bool
is_pvc info = same_resource info.group_resource pvc_group_resource

unfoldable pub list_all_metrics : List CustomMetricInfo
list_all_metrics =
    map (λ m. record { group_resource = pvc_group_resource; namespaced = true; metric = m })
      all_metrics

module _ (overflow : ℕ → ℤ) where
  unfoldable pub build_metric_value : PvcMetricsPoint → NamespacedName → String → Option MetricValue
  build_metric_value point name metric = elim (metric_from_point overflow metric point) [
    | none ↦ none
    | some q ↦ some (record {
      described_object = record {
        api_version = "v1";
        kind = "PersistentVolumeClaim";
        name = name.name;
        namespace = name.namespace;
      };
      metric_name = metric;
      selector = none;
      timestamp = point.timestamp;
      value = q;
    })
  ]

  unfoldable pub get_metric_by_name :
      {S : Type 0} → Provider S → NamespacedName → CustomMetricInfo → S → Result Error MetricValue
  unfolding is_pvc build_metric_value
  get_metric_by_name p name info metric_selector =
      if not (is_pvc info)
      then err (new_metric_not_found_error info.group_resource info.metric)
      else elim (get name p.store) [
        | none ↦ err (new_metric_not_found_for_error info.group_resource info.metric name.name)
        | some point ↦ elim (build_metric_value point name info.metric) [
          | none ↦ err (new_metric_not_found_for_error info.group_resource info.metric name.name)
          | some mv ↦ ok mv
        ]
      ]

  -- One round of the loop over the claims: what it appends, if it does not `continue`.
  unfoldable pub read_claim : Storage → String → String → String → Option MetricValue
  unfolding build_metric_value
  read_claim s namespace metric pvc =
      let key : NamespacedName = record { namespace = namespace; name = pvc } in
      elim (get key s) [ none ↦ none | some point ↦ build_metric_value point key metric ]

  -- The loop over the claims that the lister returned.
  unfoldable pub collect : Storage → String → String → List String → List MetricValue
  unfolding read_claim
  collect s namespace metric [] = []
  collect s namespace metric (pvc ∷ pvcs) =
      let rest = collect s namespace metric pvcs in
      elim (read_claim s namespace metric pvc) [ none ↦ rest | some mv ↦ mv ∷ rest ]

  unfoldable pub get_metric_by_selector :
      {S : Type 0}
      → Provider S
      → String
      → S
      → CustomMetricInfo
      → S
      → Result Error (List MetricValue)
  unfolding is_pvc collect
  get_metric_by_selector p namespace selector info metric_selector =
      if not (is_pvc info)
      then err (new_metric_not_found_error info.group_resource info.metric)
      else elim p.pvc_lister [
        | none ↦ err (other "PVC lister not configured")
        | some lister ↦ do
          pvcs ← lister.list namespace selector
          ok (collect p.store namespace info.metric pvcs)
      ]

  -- The storage provider as the interface that the API server is given.
  unfoldable pub as_provider : {S : Type 0} → Provider S → CustomMetricsProvider S
  unfolding get_metric_by_name get_metric_by_selector list_all_metrics
  as_provider p = record {
    get_metric_by_name = get_metric_by_name p;
    get_metric_by_selector = get_metric_by_selector p;
    list_all_metrics = list_all_metrics;
  }

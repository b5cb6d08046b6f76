-- ===== src/TestAdapter.antt =====
-- test-adapter/provider/provider.go: a provider whose metrics are written over HTTP and kept in
-- memory. Each handler and query holds the mutex for the whole of its body, so it is one function of
-- the state.
mod Types
pub mod Written
pub mod Queries
pub mod Alike
pub mod Namespaces
pub mod Program
pub use Types.*
use storage_metrics_server.Base.{
  ℕ, suc, String, not, ◌&&◌, ◌||◌, if◌then◌else◌, Option, none, some, lookup, insert, List, [], ◌∷◌,
  Result, ok, err, ◌>>=◌, ◌==◌, string_eq,
}
use storage_metrics_server.Storage.Types.{NamespacedName, Time}
use storage_metrics_server.Api.{
  CustomMetricInfo, ExternalMetricInfo, MetricValue, Error, normalized,
  new_metric_not_found_for_error, new_metric_not_found_for_selector_error, CustomMetricsProvider,
}
use storage_metrics_server.Api.Defaults.{default_metrics, default_external_metrics}
use storage_metrics_server.Api.Helpers.{
  ObjectMapper, DynamicClient, reference_for, list_object_names,
}
use storage_metrics_server.Registry.External.{Labels, ExternalMetricValue, ExternalMetricsProvider}

unfoldable pub new_fake_provider : DynamicClient → ObjectMapper → TestingProvider
new_fake_provider client mapper = record {
  client = client;
  mapper = mapper;
  values = [];
  external_metrics = testing_external_metrics;
}

module _ {S : Type 0} (l : LabelCalls S) where
  unfoldable pub labels_of : String → Result Error Labels
  labels_of sel = if sel == "" then ok [] else l.convert_selector_to_labels_map sel

  abbrev pub info_of : WriteRequest → CustomMetricInfo
  info_of r = record {
    group_resource = l.parse_group_resource r.resource_type;
    namespaced = not (r.namespace == "") || r.resource_type == "namespaces";
    metric = r.metric;
  }

  abbrev pub name_of : WriteRequest → NamespacedName
  name_of r = record { namespace = r.namespace; name = r.name }

  -- The key that is written: where the info cannot be normalized, that is logged, and the info that
  -- came out of it is used.
  unfoldable pub written_key : TestingProvider → WriteRequest → CustomMetricResource
  written_key p r = record {
    info = (normalized p.mapper.mapper (info_of r)).info;
    name = name_of r;
  }

  -- The handler, with the time of metav1.Now(): the error that is answered with status 400, if there
  -- is one, and the provider that is left.
  unfoldable pub update_metric :
      Time → WriteRequest → TestingProvider → Option Error × TestingProvider
  unfolding labels_of written_key
  update_metric now r p = elim r.entity [
    | err e ↦ (some e, p)
    | ok value ↦ elim (labels_of r.labels) [
      | err e ↦ (some e, p)
      | ok labels ↦ (
        none,
        record p {
          values =
              insert (written_key p r) (record { labels = labels; value = value; timestamp = now })
                p.values;
        },
      )
    ]
  ]

  -- `valueFor` after the info is normalized.
  unfoldable pub stored_for :
      TestingProvider → CustomMetricInfo → NamespacedName → S → Result Error StoredValue
  stored_for p info name metric_selector =
      elim (lookup (record { info = info; name = name }) p.values) [
        | none ↦ err (new_metric_not_found_for_error info.group_resource info.metric name.name)
        | some value ↦
            if not (l.matches metric_selector value.labels)
            then err (
                new_metric_not_found_for_selector_error info.group_resource info.metric name.name
                  (l.text_of metric_selector))
            else ok value
      ]

  unfoldable pub value_for :
      TestingProvider → CustomMetricInfo → NamespacedName → S → Result Error StoredValue
  unfolding stored_for
  value_for p info name metric_selector =
      let n = normalized p.mapper.mapper info in
      elim n.error [ some e ↦ err e | none ↦ stored_for p n.info name metric_selector ]

  -- The selector of the identifier: none where the text is empty.
  unfoldable pub identifier_selector : S → Result Error (Option String)
  identifier_selector metric_selector =
      if l.text_of metric_selector == ""
      then ok none
      else do sel ← l.parse_to_label_selector (l.text_of metric_selector); ok (some sel)

  unfoldable pub metric_for :
      TestingProvider
      → StoredValue
      → NamespacedName
      → CustomMetricInfo
      → S
      → Result Error MetricValue
  unfolding identifier_selector
  metric_for p value name info metric_selector = do
    obj_ref ← reference_for p.mapper name info
    sel ← identifier_selector metric_selector
    ok (record {
      described_object = obj_ref;
      metric_name = info.metric;
      selector = sel;
      timestamp = value.timestamp;
      value = value.value;
    })

  unfoldable pub get_metric_by_name :
      TestingProvider → NamespacedName → CustomMetricInfo → S → Result Error MetricValue
  unfolding value_for metric_for
  get_metric_by_name p name info metric_selector = do
    value ← value_for p info name metric_selector
    metric_for p value name info metric_selector

  -- The loop of `metricsFor` over the names: a value that is not found is passed over.
  unfoldable pub metrics_from :
      TestingProvider
      → String
      → CustomMetricInfo
      → S
      → List String
      → Result Error (List MetricValue)
  unfolding value_for metric_for
  metrics_from p namespace info metric_selector [] = ok []
  metrics_from p namespace info metric_selector (name ∷ names) =
      let rest = metrics_from p namespace info metric_selector names in
      let namespaced_name : NamespacedName = record { namespace = namespace; name = name } in
      elim (value_for p info namespaced_name metric_selector) [
        | err e ↦ if l.is_not_found e then rest else err e
        | ok value ↦ do
          metric ← metric_for p value namespaced_name info metric_selector
          res ← rest
          ok (metric ∷ res)
      ]

  unfoldable pub get_metric_by_selector :
      TestingProvider → String → S → CustomMetricInfo → S → Result Error (List MetricValue)
  unfolding metrics_from
  get_metric_by_selector p namespace selector info metric_selector = do
    names ← list_object_names p.mapper p.client namespace (l.text_of selector) info
    metrics_from p namespace info metric_selector names

  -- The loop over the external metrics; `clock i` is what the i-th call of metav1.Now() gives.
  unfoldable pub matching_metrics :
      (ℕ → Time) → String → S → ℕ → List ExternalMetric → List ExternalMetricValue
  matching_metrics clock name metric_selector i [] = []
  matching_metrics clock name metric_selector i (m ∷ ms) =
      let here = matching_metrics clock name metric_selector (suc i) ms in
      let past = matching_metrics clock name metric_selector i ms in
      if m.info.metric == name && l.matches metric_selector m.labels
      then record (m.value) { timestamp = clock i } ∷ here
      else past

  unfoldable pub get_external_metric :
      (ℕ → Time)
      → TestingProvider
      → String
      → S
      → ExternalMetricInfo
      → Result Error (List ExternalMetricValue)
  unfolding matching_metrics
  get_external_metric clock p namespace metric_selector info =
      ok (matching_metrics clock info.metric metric_selector 0 p.external_metrics)

  unfoldable pub as_custom_provider : TestingProvider → CustomMetricsProvider S
  unfolding get_metric_by_name get_metric_by_selector
  as_custom_provider p = record {
    get_metric_by_name = get_metric_by_name p;
    get_metric_by_selector = get_metric_by_selector p;
    list_all_metrics = default_metrics;
  }

  unfoldable pub as_external_provider : (ℕ → Time) → TestingProvider → ExternalMetricsProvider S
  unfolding get_external_metric
  as_external_provider clock p = record {
    get_external_metric = get_external_metric clock p;
    list_all_external_metrics = default_external_metrics;
  }

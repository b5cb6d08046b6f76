-- ===== src/TestAdapter/Types.antt =====
-- The types of test-adapter/provider/provider.go and its external metrics, which are fixed.
use storage_metrics_server.Base.{
  ℕ, String, Bool, true, false, not, ◌&&◌, ◌≡◌, ◌↔◌, arith, Map, List, [], ◌∷◌, Result, Eq, ◌==◌,
  string_eq, pos,
}
use storage_metrics_server.Storage.Types.{NamespacedName, same_name, same_name_iff, Time, zero_time}
use storage_metrics_server.Api.{
  GroupResource, same_resource, same_resource_iff, CustomMetricInfo, ExternalMetricInfo, Quantity,
  units, decimal_si, Error,
}
use storage_metrics_server.Api.Helpers.{ObjectMapper, DynamicClient}
use storage_metrics_server.Registry.External.{Labels, ExternalMetricValue}

-- A key of the map: the metric and the object.
pub record CustomMetricResource : Type 0 where
  pub info : CustomMetricInfo
  pub name : NamespacedName

abbrev pub same_flag : Bool → Bool → Bool
same_flag true b = b
same_flag false b = not b

-- Go's `==` on the struct, field by field.
abbrev pub same_key : CustomMetricResource → CustomMetricResource → Bool
same_key a b =
    same_resource a.info.group_resource b.info.group_resource
    && same_flag a.info.namespaced b.info.namespaced
    && a.info.metric == b.info.metric
    && same_name a.name b.name

pub same_key_iff : (a b : CustomMetricResource) → (same_key a b ≡ true) ↔ (a ≡ b)
same_key_iff a b = ground (
  arith,
  same_resource_iff a.info.group_resource b.info.group_resource,
  Eq.beq_iff string_eq a.info.metric b.info.metric,
  same_name_iff a.name b.name,
)

instance abbrev pub key_eq : Eq CustomMetricResource
key_eq = record { beq = same_key; beq_iff = same_key_iff }

pub record StoredValue : Type 0 where
  pub labels : Labels
  pub value : Quantity
  pub timestamp : Time

pub record ExternalMetric : Type 0 where
  pub info : ExternalMetricInfo
  pub labels : Labels
  pub value : ExternalMetricValue

pub record TestingProvider : Type 0 where
  pub client : DynamicClient
  pub mapper : ObjectMapper
  pub values : Map CustomMetricResource StoredValue
  pub external_metrics : List ExternalMetric

abbrev pub external_metric : String → Labels → Quantity → ExternalMetric
external_metric name labels value = record {
  info = record { metric = name };
  labels = labels;
  value = record {
    metric_name = name;
    metric_labels = labels;
    timestamp = zero_time;
    value = value;
  };
}

abbrev pub quantity_of : ℕ → Quantity
quantity_of n = record { amount = pos n; scale = units; format = decimal_si }

abbrev pub testing_external_metrics : List ExternalMetric
testing_external_metrics =
    external_metric "my-external-metric" (("foo", "bar") ∷ []) (quantity_of 42)
    ∷ external_metric "my-external-metric" (("foo", "baz") ∷ []) (quantity_of 43)
    ∷ external_metric "other-external-metric" [] (quantity_of 44)
    ∷ []

-- The parts of a POST that `updateMetric` reads: "" for a parameter that is not given, and what
-- ReadEntity makes of the body.
pub record WriteRequest : Type 0 where
  pub namespace : String
  pub resource_type : String
  pub name : String
  pub metric : String
  pub entity : Result Error Quantity
  pub labels : String

-- The calls of the packages labels, schema, metav1 and errors. A parsed label selector is kept by
-- its text.
pub record LabelCalls (Selector : Type 0) : Type 0 where
  pub matches : Selector → Labels → Bool
  pub text_of : Selector → String
  pub everything : Selector
  pub convert_selector_to_labels_map : String → Result Error Labels
  pub parse_to_label_selector : String → Result Error String
  pub parse_group_resource : String → GroupResource
  pub is_not_found : Error → Bool

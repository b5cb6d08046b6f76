-- ===== src/Api.antt =====
-- pkg/provider: the interface between the API server and the sources of metrics, with its errors.
-- The object types are those of k8s.io/metrics and k8s.io/apimachinery, cut to what the program
-- sets and reads. An error's text keeps its parts: Sprintf and GroupResource.String are not
-- rendered.
pub mod Lister
pub mod Helpers
pub mod Defaults
use storage_metrics_server.Base.{
  ℕ, String, ◌≡◌, ◌↔◌, ℤ, Bool, true, ◌&&◌, Option, List, Result, Eq, ◌==◌, string_eq, arith, some,
  none,
}
use storage_metrics_server.Storage.Types.{NamespacedName, Time}

pub record GroupResource : Type 0 where
  pub group : String
  pub resource : String

abbrev pub same_resource : GroupResource → GroupResource → Bool
same_resource a b = (a.group == b.group) && (a.resource == b.resource)

pub same_resource_iff : (a b : GroupResource) → (same_resource a b ≡ true) ↔ (a ≡ b)
same_resource_iff a b =
    ground (arith, Eq.beq_iff string_eq a.group b.group, Eq.beq_iff string_eq a.resource b.resource)

pub record CustomMetricInfo : Type 0 where
  pub group_resource : GroupResource
  pub namespaced : Bool
  pub metric : String

pub record ExternalMetricInfo : Type 0 where
  pub metric : String

pub data Scale : Type 0 where
  units milli : Scale

pub data Format : Type 0 where
  binary_si decimal_si : Format

-- resource.Quantity, as NewQuantity and NewMilliQuantity make it from an int64.
pub record Quantity : Type 0 where
  pub amount : ℤ
  pub scale : Scale
  pub format : Format

pub record ObjectReference : Type 0 where
  pub api_version : String
  pub kind : String
  pub name : String
  pub namespace : String

-- custom_metrics.MetricValue; `selector` is the label selector of its identifier, by its text.
pub record MetricValue : Type 0 where
  pub described_object : ObjectReference
  pub metric_name : String
  pub selector : Option String
  pub timestamp : Time
  pub value : Quantity

pub data Message : Type 0 where
  not_found : String → GroupResource → Message
  not_found_for : String → GroupResource → String → Message
  not_found_for_selector : String → GroupResource → String → String → Message
  text : String → Message

pub record StatusError : Type 0 where
  pub status : String
  pub code : ℕ
  pub reason : String
  pub message : Message

-- A Go error: an API status, or any other by its text; `formatted` is fmt.Errorf with the text of
-- another error, which it does not wrap.
pub data Error : Type 0 where
  api_status : StatusError → Error
  other : String → Error
  formatted : String → Error → Error

abbrev pub not_found_status : Message → Error
not_found_status m =
    api_status (record { status = "Failure"; code = 404; reason = "NotFound"; message = m })

-- errors.NewBadRequest of apimachinery.
abbrev pub bad_request : String → Error
bad_request reason =
    api_status
      (record { status = "Failure"; code = 400; reason = "BadRequest"; message = text reason })

unfoldable pub new_metric_not_found_error : GroupResource → String → Error
new_metric_not_found_error resource metric = not_found_status (not_found metric resource)

unfoldable pub new_metric_not_found_for_error : GroupResource → String → String → Error
new_metric_not_found_for_error resource metric name =
    not_found_status (not_found_for metric resource name)

-- `selector` is the text of the selector.
unfoldable pub new_metric_not_found_for_selector_error :
    GroupResource → String → String → String → Error
new_metric_not_found_for_selector_error resource metric name selector =
    not_found_status (not_found_for_selector metric resource name selector)

-- The interface CustomMetricsProvider, over the type of label selectors.
pub record CustomMetricsProvider (Selector : Type 0) : Type 0 where
  pub get_metric_by_name : NamespacedName → CustomMetricInfo → Selector → Result Error MetricValue
  pub get_metric_by_selector :
      String → Selector → CustomMetricInfo → Selector → Result Error (List MetricValue)
  pub list_all_metrics : List CustomMetricInfo

-- The part of meta.RESTMapper that `Normalized` calls; `resource_for` is given the group and the
-- resource with no version, and its answer is cut to these two.
pub record RestMapper : Type 0 where
  pub resource_for : GroupResource → Result Error GroupResource
  pub resource_singularizer : String → Result Error String

-- What `Normalized` returns: the info, the singular resource, and the error if there is one.
pub record Normalization : Type 0 where
  pub info : CustomMetricInfo
  pub singular : String
  pub error : Option Error

unfoldable pub normalized : RestMapper → CustomMetricInfo → Normalization
normalized mapper i = elim (mapper.resource_for i.group_resource) [
  | Result.err e ↦ record { info = i; singular = ""; error = some e }
  | Result.ok g ↦
      let j : CustomMetricInfo = record i { group_resource = g } in
      elim (mapper.resource_singularizer g.resource) [
        | Result.err e ↦ record { info = j; singular = ""; error = some e }
        | Result.ok s ↦ record { info = j; singular = s; error = none }
      ]
]

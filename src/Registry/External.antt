-- ===== src/Registry/External.antt =====
-- pkg/registry/external_metrics/reststorage.go: the list of an external metric.
use storage_metrics_server.Base.{Map, String, Option, none, some, List, [], map, Result, ok, err}
use storage_metrics_server.Storage.Types.{Time}
use storage_metrics_server.Api.{ExternalMetricInfo, Quantity, Error, other}
use storage_metrics_server.Registry.{Selectors, Context, ListOptions, selector_of}

-- labels.Set
abbrev pub Labels : Type 0
Labels = Map String String

-- external_metrics.ExternalMetricValue, cut to the fields that the program sets and reads.
pub record ExternalMetricValue : Type 0 where
  pub metric_name : String
  pub metric_labels : Labels
  pub timestamp : Time
  pub value : Quantity

-- The interface ExternalMetricsProvider.
pub record ExternalMetricsProvider (Selector : Type 0) : Type 0 where
  pub get_external_metric :
      String → Selector → ExternalMetricInfo → Result Error (List ExternalMetricValue)
  pub list_all_external_metrics : List ExternalMetricInfo

pub record ExternalListing : Type 0 where
  pub result : Result Error (List ExternalMetricValue)
  pub observed : List Time

module _ {S F : Type 0} (l : Selectors S F) (provider : ExternalMetricsProvider S) where
  unfoldable pub external_values :
      Context → Option (ListOptions S F) → Result Error (List ExternalMetricValue)
  unfolding selector_of
  external_values ctx options = elim ctx.request_info [
    | none ↦ err (other "unable to get resource and metric name from request")
    | some info ↦
        provider.get_external_metric ctx.namespace (selector_of l options)
          (record { metric = info.resource })
  ]

  unfoldable pub observe_external : Result Error (List ExternalMetricValue) → List Time
  observe_external (ok items) = map (λ (v : ExternalMetricValue). v.timestamp) items
  observe_external (err e) = []

  unfoldable pub external_list : Context → Option (ListOptions S F) → ExternalListing
  unfolding external_values observe_external
  external_list ctx options =
      let result = external_values ctx options in
      record { result = result; observed = observe_external result }

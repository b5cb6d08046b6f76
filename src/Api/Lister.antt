-- ===== src/Api/Lister.antt =====
-- pkg/provider/resource_lister.go: the discovery documents that the providers' lists give.
use storage_metrics_server.Base.{String, Bool, true, List, [], ◌∷◌, map}
use storage_metrics_server.Api.{
  GroupResource, CustomMetricInfo, ExternalMetricInfo, CustomMetricsProvider,
}

-- The name of a resource: for a custom metric "resource/metric", kept as the two parts.
pub data ResourceName : Type 0 where
  custom : GroupResource → String → ResourceName
  external : String → ResourceName

pub record ApiResource : Type 0 where
  pub name : ResourceName
  pub namespaced : Bool
  pub kind : String
  pub verbs : List String

unfoldable pub custom_resource : CustomMetricInfo → ApiResource
custom_resource metric = record {
  name = custom metric.group_resource metric.metric;
  namespaced = metric.namespaced;
  kind = "MetricValueList";
  verbs = "get" ∷ [];
}

unfoldable pub list_api_resources : {S : Type 0} → CustomMetricsProvider S → List ApiResource
unfolding custom_resource
list_api_resources provider = map custom_resource provider.list_all_metrics

unfoldable pub list_external_resources : List ExternalMetricInfo → List ApiResource
list_external_resources = map λ metric. record {
  name = external metric.metric;
  namespaced = true;
  kind = "ExternalMetricValueList";
  verbs = "get" ∷ [];
}

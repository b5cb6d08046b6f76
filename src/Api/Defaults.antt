-- ===== src/Api/Defaults.antt =====
-- pkg/provider/defaults/default_metric_providers.go: the lists of a provider that does not make its
-- own.
use storage_metrics_server.Base.{false, List, [], ◌∷◌}
use storage_metrics_server.Api.{CustomMetricInfo, ExternalMetricInfo}

abbrev pub default_external_metrics : List ExternalMetricInfo
default_external_metrics = record { metric = "externalmetrics" } ∷ []

abbrev pub default_metrics : List CustomMetricInfo
default_metrics =
    record {
      group_resource = record { group = ""; resource = "" };
      namespaced = false;
      metric = "custommetrics";
    }
    ∷ []

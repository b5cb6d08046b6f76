-- ===== src/Handler/Options.antt =====
-- pkg/apiserver/installer/conversion.go: the options of a list from the query of its URL. The two
-- versions of the conversion have the same body.
use storage_metrics_server.Base.{String, Option, none, some, List, [], ◌∷◌, Map, lookup, string_eq}

pub record MetricListOptions : Type 0 where
  pub label_selector : String
  pub metric_label_selector : String

-- runtime.Convert_Slice_string_To_string: the first of the values, of which there is one here.
unfoldable pub first_value : Option (List String) → String
first_value none = ""
first_value (some vs) = elim vs [ [] ↦ "" | v ∷ rest ↦ v ]

unfoldable pub convert_url_values : Map String (List String) → MetricListOptions
unfolding first_value
convert_url_values query = record {
  label_selector = first_value (lookup "labelSelector" query);
  metric_label_selector = first_value (lookup "metricLabelSelector" query);
}

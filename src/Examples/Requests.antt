-- ===== src/Examples/Requests.antt =====
-- Requests for the claim's metrics, with label selectors that are Booleans and field selectors that
-- are a key and a value.
use storage_metrics_server.Base.{
  pos, false, sym, ◌∙◌, Eq, ◌≢◌, ◌≡◌, refl, String, Bool, true, none, some, [], ◌∷◌, insert, lookup,
  ◌==◌, string_eq, arith, Result, ok, if◌then◌else◌, inl,
}
use storage_metrics_server.Storage.{store, batch_map, get}
use storage_metrics_server.Provider.{
  as_provider, get_metric_by_name, is_pvc, metric_from_point, to_int64,
}
use storage_metrics_server.Registry.{
  Selectors, RequestInfo, ExtraOptions, metric_list_options, list_values,
}
use storage_metrics_server.Handler.{
  Scope, answered, respond, list_resource_with_options, get_request_options,
}
use storage_metrics_server.Handler.Options.{MetricListOptions, convert_url_values}
use storage_metrics_server.Handler.Routes.{
  Names, by_name, of_namespace, list_resource-by_name, list_resource-namespace,
}
use storage_metrics_server.Client.Address.{node_address}
use storage_metrics_server.Client.Fetch.{get_metrics, fetch}
use storage_metrics_server.Client.Summary.{summary_to_batch}
use storage_metrics_server.Scraper.{fetched_of, merged_batch}
use storage_metrics_server.Manager.{run_until, tick}
use storage_metrics_server.Manager.Last.{last_tick}
use storage_metrics_server.Pipeline.Requests.{IsFreshItem, answered-IsFreshItem}
use storage_metrics_server.Examples.Serve.{asked, asked-Reach, one_tick, after_tick}
use storage_metrics_server.Examples.Data.{overflow, provider, used_value, client, nodes}

differ : (s t : String) → (s == t) ≡ false → s ≢ t
differ s t h e = false-ne-true (sym h ∙ (Eq.beq_iff string_eq s t).1 e)
  where
    false-ne-true : false ≡ true → ⊥
    false-ne-true e = cc

abbrev pub Field : Type 0
Field = String × String

abbrev pub selectors : Selectors Bool Field
selectors = record {
  everything = true;
  parse = λ s. ok true;
  one_term_equal = λ k v. (k, v);
  requires_exact_match = λ f k. if f.0 == k then some f.1 else none;
  is_empty = λ f. f.0 == "";
  parse_group_resource = λ r. record { group = ""; resource = r };
}

abbrev pub to_internal : MetricListOptions → Result String ExtraOptions
to_internal o = ok (metric_list_options (some o.metric_label_selector))

abbrev pub scope : Scope Bool Field
scope = record {
  namespace = λ i. ok i.namespace;
  name = λ i. if i.name == "" then none else some i.name;
  decode_list_options = λ q. ok (record { label_selector = none; field_selector = none });
  convert_field_labels = λ f. ok f;
  decode_extra_options = λ q. to_internal (convert_url_values q);
}

abbrev pub used_info : RequestInfo
used_info = record {
  namespace = "apps";
  resource = "persistentvolumeclaims";
  subresource = "volume_used_bytes";
  name = "data";
  parts = "persistentvolumeclaims" ∷ "data" ∷ "volume_used_bytes" ∷ [];
  path =
      "/apis/custom.metrics.k8s.io/v1beta2/namespaces/apps/persistentvolumeclaims/data/volume_used_bytes";
}

abbrev namespace_info : RequestInfo
namespace_info = record {
  namespace = "apps";
  resource = "metrics";
  subresource = "";
  name = "pods";
  parts = "metrics" ∷ "pods" ∷ [];
  path = "/apis/custom.metrics.k8s.io/v1beta2/namespaces/apps/metrics/pods";
}

used_info-Names : Names selectors scope used_info [] "data"
unfolding get_request_options convert_url_values lookup insert
used_info-Names = record {
  deep = omega arith;
  namespace = refl;
  name = refl;
  options = refl;
  extra = refl;
  exact = refl;
}

list_resource-by_name_example :
    list_resource_with_options selectors scope
      (list_values selectors (as_provider overflow provider))
      (record { info = some used_info; query = [] })
    ≡ respond selectors scope
        (list_values selectors (as_provider overflow provider))
        (by_name selectors scope (as_provider overflow provider) "apps" "data" used_info)
list_resource-by_name_example =
    list_resource-by_name selectors scope (as_provider overflow provider) used_info [] "data"
      (differ "persistentvolumeclaims" "metrics" refl) (differ "data" "*" refl) used_info-Names

namespace_info-Names :
    Names selectors scope
      (of_namespace selectors scope (as_provider overflow provider) namespace_info ("pods" ∷ []))
      []
      "apps"
unfolding get_request_options convert_url_values lookup insert
namespace_info-Names = record {
  deep = omega arith;
  namespace = refl;
  name = refl;
  options = refl;
  extra = refl;
  exact = refl;
}

list_resource-namespace_example :
    list_resource_with_options selectors scope
      (list_values selectors (as_provider overflow provider))
      (record { info = some namespace_info; query = [] })
    ≡ respond selectors scope (list_values selectors (as_provider overflow provider)) (
        by_name selectors scope (as_provider overflow provider) "" "apps" (
          of_namespace selectors scope
            (as_provider overflow provider)
            namespace_info
            ("pods" ∷ [])))
list_resource-namespace_example =
    list_resource-namespace selectors scope (as_provider overflow provider) namespace_info []
      "metrics" ("pods" ∷ []) (differ "apps" "" refl) (differ "apps" "*" refl) refl refl
      namespace_info-Names

fresh_answer :
    list_resource_with_options selectors scope
      (list_values selectors (as_provider overflow after_tick))
      (record { info = some used_info; query = [] })
    ≡ answered (used_value ∷ [])
unfolding list_resource_with_options list_values as_provider convert_url_values lookup insert
    get_metric_by_name get store batch_map is_pvc metric_from_point to_int64 run_until tick
    merged_batch fetched_of get_metrics fetch node_address summary_to_batch
fresh_answer = refl

answered-IsFreshItem_example : IsFreshItem client nodes overflow used_value
unfolding last_tick
answered-IsFreshItem_example =
    answered-IsFreshItem client nodes overflow after_tick selectors scope (pos 8)
      (some (merged_batch asked.received)) [] one_tick (pos 8) asked
      (record { info = some used_info; query = [] }) (used_value ∷ []) used_value refl asked-Reach
      refl refl fresh_answer (inl refl)

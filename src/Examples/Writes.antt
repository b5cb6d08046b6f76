-- ===== src/Examples/Writes.antt =====
-- Metrics written to the test adapter. Every label selector is a Bool that says whether it matches.
use storage_metrics_server.Base.{
  ◌≡◌, refl, String, Bool, true, false, pos, none, some, List, [], ◌∷◌, All, ok, err, if◌then◌else◌,
  insert, lookup, ◌==◌, string_eq,
}
use storage_metrics_server.Storage.Types.{NamespacedName, name_eq}
use storage_metrics_server.Api.{
  CustomMetricInfo, MetricValue, normalized, other, new_metric_not_found_for_error, api_status,
}
use storage_metrics_server.Api.Helpers.{
  ObjectMapper, DynamicClient, resource_for, reference_for, list_object_names,
}
use storage_metrics_server.Registry.{metric_list_options, list_values, Selectors, Context}
use storage_metrics_server.Provider.Answers.{successes}
use storage_metrics_server.TestAdapter.{
  LabelCalls, WriteRequest, TestingProvider, new_fake_provider, quantity_of, labels_of,
  identifier_selector, value_for, stored_for, written_key, update_metric, metric_for,
  get_metric_by_name, metrics_from, get_metric_by_selector, as_custom_provider,
}
use storage_metrics_server.TestAdapter.Written.{after_write, get_metric_by_name-update_metric}
use storage_metrics_server.TestAdapter.Queries.{
  by_name, IsFoundOrMissing, get_metric_by_selector-by_name,
}
use storage_metrics_server.TestAdapter.Namespaces.{namespace_write-unseen}

abbrev pub label_calls : LabelCalls Bool
label_calls = record {
  matches = λ s labels. s;
  text_of = λ s. if s then "" else "app=none";
  everything = true;
  convert_selector_to_labels_map = λ t. err (other "couldn't parse the selector string");
  parse_to_label_selector = λ t. ok t;
  parse_group_resource = λ t. record { group = ""; resource = t };
  is_not_found = λ e. elim e [ api_status s ↦ s.reason == "NotFound" | _ ↦ false ];
}

abbrev pub object_mapper : ObjectMapper
object_mapper = record {
  mapper = record { resource_for = λ g. ok g; resource_singularizer = λ r. ok r };
  resources_for = λ g. ok (record { group = g.group; version = "v1"; resource = g.resource } ∷ []);
  kind_for = λ g. ok (record { group = g.group; version = "v1"; kind = "Service" });
}

abbrev pub dynamic_client : DynamicClient
dynamic_client = record {
  list = λ res namespace selector.
      ok (record { is_list_type = true; names = ok ("new" ∷ "kubernetes" ∷ []) });
}

abbrev pub empty_provider : TestingProvider
unfolding new_fake_provider
empty_provider = new_fake_provider dynamic_client object_mapper

abbrev write : WriteRequest
write = record {
  namespace = "default";
  resource_type = "services";
  name = "kubernetes";
  metric = "hits";
  entity = ok (quantity_of 300);
  labels = "";
}

abbrev service : NamespacedName
service = record { namespace = "default"; name = "kubernetes" }

abbrev hits : CustomMetricInfo
hits = record {
  group_resource = record { group = ""; resource = "services" };
  namespaced = true;
  metric = "hits";
}

abbrev hits_value : MetricValue
hits_value = record {
  described_object = record {
    api_version = "/v1";
    kind = "Service";
    name = "kubernetes";
    namespace = "default";
  };
  metric_name = "hits";
  selector = none;
  timestamp = pos 5;
  value = quantity_of 300;
}

get_metric_by_name-update_metric_example :
    get_metric_by_name label_calls
      (after_write label_calls (pos 5) write empty_provider)
      service
      hits
      true
    ≡ ok hits_value
unfolding labels_of normalized written_key reference_for identifier_selector empty_provider
get_metric_by_name-update_metric_example =
    get_metric_by_name-update_metric label_calls (pos 5) write empty_provider (quantity_of 300) []
      hits true hits_value.described_object none refl refl refl refl refl refl refl

listed :
    get_metric_by_selector label_calls
      (after_write label_calls (pos 5) write empty_provider)
      "default"
      true
      hits
      true
    ≡ ok (hits_value ∷ [])
unfolding labels_of normalized written_key reference_for identifier_selector get_metric_by_selector
    list_object_names resource_for metrics_from value_for stored_for metric_for update_metric insert
    lookup empty_provider new_metric_not_found_for_error
listed = refl

get_metric_by_selector-by_name_example :
    (names : List String) × (list_object_names object_mapper dynamic_client "default" "" hits
      ≡ ok names)
    × (hits_value ∷ []
        ≡ successes (
            by_name label_calls
              (after_write label_calls (pos 5) write empty_provider)
              "default"
              hits
              true
              names))
    × All
        (IsFoundOrMissing label_calls
          (after_write label_calls (pos 5) write empty_provider)
          "default"
          hits
          true)
        names
unfolding update_metric empty_provider
get_metric_by_selector-by_name_example =
    get_metric_by_selector-by_name label_calls
      (after_write label_calls (pos 5) write empty_provider) "default" true hits true
      (hits_value ∷ []) listed

abbrev namespace_write : WriteRequest
namespace_write = record {
  namespace = "";
  resource_type = "namespaces";
  name = "default";
  metric = "hits";
  entity = ok (quantity_of 300);
  labels = "";
}

abbrev text_selectors : Selectors Bool String
text_selectors = record {
  everything = true;
  parse = λ t. ok false;
  one_term_equal = λ k v. v;
  requires_exact_match = λ f k. some f;
  is_empty = λ f. f == "";
  parse_group_resource = λ t. record { group = ""; resource = t };
}

abbrev namespace_context : Context
namespace_context = record {
  namespace = "";
  request_info = some (record {
    namespace = "";
    resource = "namespaces";
    subresource = "hits";
    name = "default";
    parts = "namespaces" ∷ "default" ∷ "hits" ∷ [];
    path = "/namespaces/default/metrics/hits";
  });
}

namespace_write-unseen_example :
    list_values text_selectors
      (as_custom_provider label_calls
        (after_write label_calls (pos 5) namespace_write empty_provider))
      namespace_context
      (some (record { label_selector = none; field_selector = some "default" }))
      (metric_list_options none)
    ≡ list_values text_selectors
        (as_custom_provider label_calls empty_provider)
        namespace_context
        (some (record { label_selector = none; field_selector = some "default" }))
        (metric_list_options none)
namespace_write-unseen_example =
    namespace_write-unseen label_calls text_selectors (pos 5) namespace_write empty_provider refl
      refl namespace_context
      (some (record { label_selector = none; field_selector = some "default" }))
      (metric_list_options none)

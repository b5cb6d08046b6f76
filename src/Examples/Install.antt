-- ===== src/Examples/Install.antt =====
-- A server whose scheme has two versions of the custom metrics and one of the external ones. An
-- object of the scheme is the name of its kind.
use storage_metrics_server.Base.{
  ◌≡◌, refl, String, none, some, List, [], ◌∷◌, Result, ok, err, ◌==◌, string_eq, if◌then◌else◌,
}
use storage_metrics_server.Api.{Error}
use storage_metrics_server.Api.Helpers.{GroupVersionKind}
use storage_metrics_server.Installer.{
  GroupVersion, Field, Group, Libraries, WebService, Parameter, struct_kind, other_kind,
  pointer_kind, new_web_service, install, install_rest,
}
use storage_metrics_server.Installer.Params.{
  param_of, json_name, is_plain, field_by_name, offered, is_named, add_once, add_fields,
  add_object_params, add_params, type_to_json,
}
use storage_metrics_server.Installer.Kinds.{kind_from, get_resource_kind}
use storage_metrics_server.Installer.Prepared.{prepare, add_objects, add_route}
use storage_metrics_server.Installer.Custom.{prepare_extra, add_custom_routes, register_custom}
use storage_metrics_server.Installer.External.{register_external}
use storage_metrics_server.Installer.Atomic.{IsAllOrNothing, register_custom-IsAllOrNothing}
use storage_metrics_server.Api.Lister.{list_api_resources}
use storage_metrics_server.Server.{
  Scheme, GenericServer, cm_api, em_api, install_versions, install_custom_metrics_api,
  install_external_metrics_api, when_given, new_server,
}
use storage_metrics_server.Server.Installed.{IsInstalled, new_server-IsInstalled}
use storage_metrics_server.TestAdapter.{TestingProvider, as_external_provider, as_custom_provider}
use storage_metrics_server.Examples.Writes.{label_calls}
use storage_metrics_server.Base.{pos, Bool}

-- The fields of the list options: an embedded struct, two texts, and a pointer to a number.
abbrev list_options_fields : List Field
list_options_fields =
    record { name = "TypeMeta"; kind = struct_kind; type_name = "v1.TypeMeta"; json = ",inline" }
    ∷ record {
      name = "LabelSelector";
      kind = other_kind;
      type_name = "string";
      json = "labelSelector,omitempty";
    }
    ∷ record {
      name = "TimeoutSeconds";
      kind = pointer_kind other_kind;
      type_name = "*int64";
      json = "timeoutSeconds,omitempty";
    }
    ∷ []

abbrev extra_fields : List Field
extra_fields =
    record {
      name = "LabelSelector";
      kind = other_kind;
      type_name = "string";
      json = "labelSelector,omitempty";
    }
    ∷ record {
      name = "MetricLabelSelector";
      kind = other_kind;
      type_name = "string";
      json = "metricLabelSelector,omitempty";
    }
    ∷ []

abbrev no_params : List Parameter
no_params = []

abbrev version : String → GroupVersion
version v = record { group = "custom.metrics.k8s.io"; version = v }

abbrev kind_in : String → String → GroupVersionKind
kind_in v k = record { group = "custom.metrics.k8s.io"; version = v; kind = k }

abbrev pub scheme : Scheme String
scheme = record {
  first_version = version "v1beta2";
  more_versions = version "v1beta1" ∷ [];
  meta_group_version = none;
  object_kinds = λ o. ok (kind_in "v1beta2" o, []);
  create = λ k. ok k.kind;
  fields = λ o. ok (
      if o == "ListOptions"
      then some list_options_fields
      else if o == "MetricListOptions"
      then some extra_fields
      else none);
  swagger_doc = λ o. none;
  new_object = "MetricValue";
  new_list = "MetricValueList";
  new_list_options = "MetricListOptions";
}

abbrev custom_group : Group String TestingProvider Bool
unfolding cm_api as_custom_provider list_api_resources
custom_group = cm_api scheme (as_custom_provider label_calls) (version "v1beta2")

abbrev empty_service : WebService TestingProvider Bool
empty_service = record {
  path = "/apis/custom.metrics.k8s.io/v1beta2";
  api_version = version "v1beta2";
  routes = [];
  discovery = none;
}

register_custom-IsAllOrNothing_example :
    IsAllOrNothing custom_group empty_service (register_custom custom_group empty_service)
register_custom-IsAllOrNothing_example = register_custom-IsAllOrNothing custom_group empty_service

pub some-ne-none : (e : Error) → some e ≡ none → ⊥
some-ne-none e h = cc

abbrev pub libraries : Libraries
libraries = record {
  join = λ a b c. a;
  new_aggregate = λ es. elim es [ [] ↦ none | e ∷ rest ↦ some e ];
  aggregate_nil = refl;
  aggregate_cons = λ e es h. some-ne-none e h;
}

abbrev pub generic : {T : Type 0} → GenericServer T Bool
generic = record { container = record { services = [] }; discovery_groups = [] }

abbrev built : Result Error (GenericServer TestingProvider Bool)
built =
    new_server libraries scheme scheme (ok generic) (some (as_custom_provider label_calls))
      (some (as_external_provider label_calls (λ i. pos 5)))

abbrev server : GenericServer TestingProvider Bool
server = elim built [ ok s ↦ s | err e ↦ generic ]

built-server : built ≡ ok server
unfolding new_server when_given install_custom_metrics_api install_external_metrics_api
    install_versions install_rest install new_web_service cm_api em_api register_custom
    register_external prepare prepare_extra get_resource_kind kind_from add_custom_routes add_route
    add_objects add_object_params add_params add_fields offered param_of is_plain json_name
    field_by_name is_named add_once type_to_json list_api_resources as_custom_provider
built-server = refl

new_server-IsInstalled_example :
    IsInstalled libraries scheme scheme generic
      (some (as_custom_provider label_calls))
      (some (as_external_provider label_calls (λ i. pos 5)))
      server
new_server-IsInstalled_example =
    new_server-IsInstalled libraries scheme scheme generic server
      (some (as_custom_provider label_calls)) (some (as_external_provider label_calls (λ i. pos 5)))
      built-server

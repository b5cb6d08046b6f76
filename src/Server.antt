-- ===== src/Server.antt =====
-- pkg/apiserver: `New` of apiserver.go, with the two APIs that it installs (cmapis.go, emapis.go).
-- The generic server is a parameter, by its container and the groups that it was given; the
-- scheme's part in the group infos is the record `Scheme`.
pub mod Versions
pub mod Installed
pub mod Asked
use storage_metrics_server.Base.{
  ℕ, suc, String, nat_beq, if◌then◌else◌, Option, none, some, Map, List, [], ◌∷◌, ◌++◌, Result, ok,
  err, ◌>>=◌,
}
use storage_metrics_server.Api.{Error, CustomMetricsProvider}
use storage_metrics_server.Api.Helpers.{GroupVersionKind}
use storage_metrics_server.Api.Lister.{ApiResource, list_api_resources, list_external_resources}
use storage_metrics_server.Registry.External.{ExternalMetricsProvider}
use storage_metrics_server.Installer.{
  Rest, custom_rest, external_rest, GroupVersion, Fields, Group, Libraries, ApiGroup, group_service,
  Container, install_rest,
}
use storage_metrics_server.Installer.Custom.{register_custom}
use storage_metrics_server.Installer.External.{register_external}

-- What NewDefaultAPIGroupInfo knows of a group, and the objects of its storage (NewREST), of which
-- the list options are read for the custom metrics alone. A group has at least one version.
pub record Scheme (Object : Type 0) : Type 0 where
  pub first_version : GroupVersion
  pub more_versions : List GroupVersion
  pub meta_group_version : Option GroupVersion
  pub object_kinds : Object → Result Error (GroupVersionKind × List GroupVersionKind)
  pub create : GroupVersionKind → Result Error Object
  pub fields : Object → Fields
  pub swagger_doc : Object → Option (Map String String)
  pub new_object : Object
  pub new_list : Object
  pub new_list_options : Object

-- GenericAPIServer: its container, and what DiscoveryGroupManager.AddGroup was called with.
pub record GenericServer (T S : Type 0) : Type 0 where
  pub container : Container T S
  pub discovery_groups : List ApiGroup

abbrev pub prioritized_versions : {Object : Type 0} → Scheme Object → List GroupVersion
prioritized_versions s = s.first_version ∷ s.more_versions

-- genericapiserver.APIGroupPrefix
abbrev pub api_group_prefix : String
api_group_prefix = "/apis"

abbrev pub api_group : GroupVersion → ApiGroup
api_group v = record { name = v.group; versions = v ∷ []; preferred_version = v }

-- The parts that `cmAPI` and `emAPI` have in common.
abbrev pub api_of :
    {Object T S : Type 0}
    → Scheme Object
    → (T → Rest S)
    → (T → List ApiResource)
    → GroupVersion
    → Group Object T S
api_of s storage resources v = record {
  group_version = v;
  options_external_version = none;
  meta_group_version = s.meta_group_version;
  root = api_group_prefix;
  new_object = s.new_object;
  new_list = s.new_list;
  new_list_options = s.new_list_options;
  object_kinds = s.object_kinds;
  create = s.create;
  fields = s.fields;
  swagger_doc = s.swagger_doc;
  resource_lister = some resources;
  dynamic_storage = storage;
}

unfoldable pub cm_api :
    {Object T S : Type 0}
    → Scheme Object
    → (T → CustomMetricsProvider S)
    → GroupVersion
    → Group Object T S
cm_api s provider = api_of s (λ m. custom_rest (provider m)) (λ m. list_api_resources (provider m))

unfoldable pub em_api :
    {Object T S : Type 0}
    → Scheme Object
    → (T → ExternalMetricsProvider S)
    → GroupVersion
    → Group Object T S
em_api s provider =
    api_of s (λ m. external_rest (provider m))
      (λ m. list_external_resources (provider m).list_all_external_metrics)

-- `AddGroup`, and the group's handler in the container.
abbrev pub add_group : {T S : Type 0} → ApiGroup → GenericServer T S → GenericServer T S
add_group group s = record {
  container = record { services = s.container.services ++ group_service group ∷ [] };
  discovery_groups = s.discovery_groups ++ group ∷ [];
}

-- A nil provider is none: its API is not installed.
unfoldable pub when_given :
    {P T S : Type 0}
    → (P → GenericServer T S → Option Error × GenericServer T S)
    → Option P
    → GenericServer T S
    → Result Error (GenericServer T S)
when_given install none s = ok s
when_given install (some p) s =
    let (e, installed) = install p s in elim e [ some x ↦ err x | none ↦ ok installed ]

module _ (libraries : Libraries) {Object T S : Type 0} where
  -- The loop over the versions, from the index `i` on: the error, if there is one, and the server
  -- that is left.
  unfoldable pub install_versions :
      (GroupVersion → Group Object T S)
      → ℕ
      → List GroupVersion
      → GenericServer T S
      → Option Error × GenericServer T S
  install_versions api i [] s = (none, s)
  install_versions api i (v ∷ vs) s =
      let (e, container) = install_rest libraries register_custom (api v) s.container in
      let installed : GenericServer T S = record s { container = container } in
      elim e [
        | some x ↦ (some x, installed)
        | none ↦
            install_versions api (suc i) vs
              (if nat_beq i 0 then add_group (api_group v) installed else installed)
      ]

  unfoldable pub install_custom_metrics_api :
      Scheme Object
      → (T → CustomMetricsProvider S)
      → GenericServer T S
      → Option Error × GenericServer T S
  unfolding install_versions
  install_custom_metrics_api s provider =
      install_versions (cm_api s provider) 0 (prioritized_versions s)

  unfoldable pub install_external_metrics_api :
      Scheme Object
      → (T → ExternalMetricsProvider S)
      → GenericServer T S
      → Option Error × GenericServer T S
  install_external_metrics_api s provider server =
      let v = s.first_version in
      let (e, container) =
        install_rest libraries register_external (em_api s provider v) server.container in
      let installed : GenericServer T S = record server { container = container } in
      elim e [ some x ↦ (some x, installed) | none ↦ (none, add_group (api_group v) installed) ]

  unfoldable pub new_server :
      Scheme Object
      → Scheme Object
      → Result Error (GenericServer T S)
      → Option (T → CustomMetricsProvider S)
      → Option (T → ExternalMetricsProvider S)
      → Result Error (GenericServer T S)
  unfolding install_custom_metrics_api install_external_metrics_api when_given
  new_server custom external generic custom_provider external_provider = do
    server ← generic
    with_custom ← when_given (install_custom_metrics_api custom) custom_provider server
    when_given (install_external_metrics_api external) external_provider with_custom

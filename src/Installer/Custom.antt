-- ===== src/Installer/Custom.antt =====
-- pkg/apiserver/installer/cmhandlers.go: the three routes of the custom metrics.
use storage_metrics_server.Base.{
  String, Bool, true, false, ◌<>◌, Option, some, List, [], ◌∷◌, and_then, Result, ok, err, ◌>>=◌,
}
use storage_metrics_server.Api.{Error}
use storage_metrics_server.Installer.{with_kind, Parameter, Route, WebService, Group, meta_v1}
use storage_metrics_server.Installer.Prepared.{
  version_or, Prepared, options_version, prepare, path_parameter, name_param, namespace_param,
  pretty_param, add_route,
}

module _ {Object T S : Type 0} (g : Group Object T S) where
  abbrev pub resource_param : Parameter
  resource_param = path_parameter g "resource" "the name of the resource"

  abbrev pub subresource_param : Parameter
  subresource_param = path_parameter g "subresource" "the name of the subresource"

  abbrev pub root_scoped_params : List Parameter
  root_scoped_params = resource_param ∷ name_param g ∷ subresource_param ∷ []

  abbrev pub namespaced_params : List Parameter
  namespaced_params = namespace_param g ∷ resource_param ∷ name_param g ∷ subresource_param ∷ []

  abbrev pub namespace_specific_params : List Parameter
  namespace_specific_params = namespace_param g ∷ name_param g ∷ []

  -- The extra list options, in the group's version or else in that of the options.
  unfoldable pub prepare_extra : Result Error Object
  prepare_extra = do
    kinds ← g.object_kinds g.new_list_options
    elim (g.create (with_kind g.group_version kinds.0.kind)) [
      | ok o ↦ ok o
      | err e ↦ g.create (with_kind (options_version g) kinds.0.kind)
    ]

  -- A route before its objects' parameters are added.
  abbrev pub custom_route : Prepared Object → String → String → Bool → String → Route T S
  custom_route p path operation cluster_scoped scope = record {
    path = path;
    operation = operation;
    parameters = pretty_param g ∷ [];
    namer = record { cluster_scoped = cluster_scoped };
    scope = scope;
    component = "custom-metrics";
    object_kind = p.kind;
    meta_group_version = version_or meta_v1 g.meta_group_version;
    storage = g.dynamic_storage;
  }

  abbrev pub root_scoped_route : Prepared Object → Route T S
  root_scoped_route p =
      custom_route p "{resource}/{name}/{subresource}" ("list" <> p.kind.kind) true "cluster"

  abbrev pub namespaced_route : Prepared Object → Route T S
  namespaced_route p =
      custom_route p "namespaces/{namespace}/{resource}/{name}/{subresource}"
        ("listNamespaced" <> p.kind.kind) false "resource"

  abbrev pub namespace_specific_route : Prepared Object → Route T S
  namespace_specific_route p =
      custom_route p "namespaces/{namespace}/metrics/{name}"
        ("read" <> p.kind.kind <> "ForNamespace") false "resource"

  -- The three routes, each with its parameters.
  unfoldable pub add_custom_routes :
      Prepared Object → Object → WebService T S → Option Error × WebService T S
  add_custom_routes p extra ws =
      let objects = p.list_options ∷ extra ∷ [] in
      and_then (add_route g objects root_scoped_params (root_scoped_route p) ws) λ first.
        and_then (add_route g objects namespaced_params (namespaced_route p) first) λ second.
          add_route g objects namespace_specific_params (namespace_specific_route p) second

  -- `registerResourceHandlers`: what is looked up before the first route leaves the web service.
  unfoldable pub register_custom : WebService T S → Option Error × WebService T S
  unfolding prepare_extra add_custom_routes
  register_custom ws = elim (prepare g) [
    | err e ↦ (some e, ws)
    | ok p ↦ elim prepare_extra [ err e ↦ (some e, ws) | ok extra ↦ add_custom_routes p extra ws ]
  ]

-- ===== src/Installer/External.antt =====
-- pkg/apiserver/installer/emhandlers.go: the route of the external metrics.
use storage_metrics_server.Base.{false, ◌<>◌, Option, some, List, [], ◌∷◌, ok, err}
use storage_metrics_server.Api.{Error}
use storage_metrics_server.Installer.{Parameter, Route, WebService, Group, meta_v1}
use storage_metrics_server.Installer.Prepared.{
  version_or, Prepared, prepare, name_param, namespace_param, pretty_param, add_route,
}

module _ {Object T S : Type 0} (g : Group Object T S) where
  abbrev pub external_metric_params : List Parameter
  external_metric_params = namespace_param g ∷ name_param g ∷ []

  abbrev pub external_metric_route : Prepared Object → Route T S
  external_metric_route p = record {
    path = "namespaces/{namespace}/{resource}";
    operation = "list" <> p.kind.kind;
    parameters = pretty_param g ∷ [];
    namer = record { cluster_scoped = false };
    scope = "cluster";
    component = "external-metrics";
    object_kind = p.kind;
    meta_group_version = version_or meta_v1 g.meta_group_version;
    storage = g.dynamic_storage;
  }

  unfoldable pub register_external : WebService T S → Option Error × WebService T S
  register_external ws = elim (prepare g) [
    | err e ↦ (some e, ws)
    | ok p ↦ add_route g (p.list_options ∷ []) external_metric_params (external_metric_route p) ws
  ]

-- ===== src/Installer/Prepared.antt =====
-- The part that cmhandlers.go and emhandlers.go have in common: the kinds that are looked up before
-- a route is made, and one route with its parameters.
use storage_metrics_server.Base.{
  String, Option, none, some, List, [], ◌∷◌, ◌++◌, Result, ok, err, ◌>>=◌,
}
use storage_metrics_server.Api.{Error}
use storage_metrics_server.Api.Helpers.{GroupVersionKind}
use storage_metrics_server.Installer.{
  GroupVersion, with_kind, Parameter, path, query, Route, WebService, Group,
}
use storage_metrics_server.Installer.Params.{add_object_params, add_params}
use storage_metrics_server.Installer.Kinds.{get_resource_kind}

-- `*v`, where v is not nil.
abbrev pub version_or : GroupVersion → Option GroupVersion → GroupVersion
version_or v none = v
version_or v (some w) = w

-- The kind of the storage and the versioned list options.
pub record Prepared (Object : Type 0) : Type 0 where
  pub kind : GroupVersionKind
  pub list_options : Object

module _ {Object T S : Type 0} (g : Group Object T S) where
  abbrev pub options_version : GroupVersion
  options_version = version_or g.group_version g.options_external_version

  unfoldable pub prepare : Result Error (Prepared Object)
  prepare = do
    kind ← get_resource_kind g
    list_kinds ← g.object_kinds g.new_list
    versioned_list ← g.create (with_kind g.group_version list_kinds.0.kind)
    list_options ← g.create (with_kind options_version "ListOptions")
    ok (record { kind = kind; list_options = list_options })

  abbrev pub path_parameter : String → String → Parameter
  path_parameter name description = record {
    kind = path;
    name = name;
    description = description;
    data_type = "string";
  }

  abbrev pub name_param : Parameter
  name_param = path_parameter "name" "name of the described resource"

  abbrev pub namespace_param : Parameter
  namespace_param =
      path_parameter "namespace" "object name and auth scope, such as for teams and projects"

  abbrev pub pretty_param : Parameter
  pretty_param = record {
    kind = query;
    name = "pretty";
    description = "If 'true', then the output is pretty printed.";
    data_type = "string";
  }

  -- The query parameters of the objects, one after the other.
  unfoldable pub add_objects : List Object → Route T S → Result Error (Route T S)
  add_objects [] route = ok route
  add_objects (o ∷ os) route = do next ← add_object_params g o route; add_objects os next

  -- The objects' parameters, the path's, and `ws.Route`.
  unfoldable pub add_route :
      List Object → List Parameter → Route T S → WebService T S → Option Error × WebService T S
  unfolding add_objects
  add_route objects params route ws = elim (add_objects objects route) [
    | err e ↦ (some e, ws)
    | ok built ↦ (none, record ws { routes = ws.routes ++ add_params built params ∷ [] })
  ]

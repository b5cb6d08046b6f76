-- ===== src/Installer.antt =====
-- pkg/apiserver/installer/installer.go: the routes of one API group version. The scheme (Typer,
-- Creater), reflection and the paths' join are fields of `Group`; a route keeps what the installer
-- decides of it, and go-restful, the serializers and the instrumentation are left out.
pub mod Params
pub mod Kinds
pub mod Prepared
pub mod Custom
pub mod External
pub mod Built
pub mod Atomic
use storage_metrics_server.Base.{
  String, Bool, Option, none, some, Map, ◌≡◌, ◌≢◌, List, [], ◌∷◌, ◌++◌, Result,
}
use storage_metrics_server.Api.{Error, other, formatted, CustomMetricsProvider}
use storage_metrics_server.Registry.External.{ExternalMetricsProvider}
use storage_metrics_server.Api.Helpers.{GroupVersionKind}
use storage_metrics_server.Api.Lister.{ApiResource}

pub record GroupVersion : Type 0 where
  pub group : String
  pub version : String

abbrev pub with_kind : GroupVersion → String → GroupVersionKind
with_kind gv k = record { group = gv.group; version = gv.version; kind = k }

pub data ParameterKind : Type 0 where
  path query : ParameterKind

-- restful.Parameter
pub record Parameter : Type 0 where
  pub kind : ParameterKind
  pub name : String
  pub description : String
  pub data_type : String

-- The request scope's namer (ContextBasedNaming), by its ClusterScoped.
pub record Naming : Type 0 where
  pub cluster_scoped : Bool

-- The storage of an API (metricstorage.NewREST), by the provider that it asks.
pub data Rest (S : Type 0) : Type 0 where
  custom_rest : CustomMetricsProvider S → Rest S
  external_rest : ExternalMetricsProvider S → Rest S

-- A GET route; its handler asks `storage`, which is what it is in the memory at the time. `object_kind` is the kind of the scope, `scope` and `component` are the labels of
-- InstrumentRouteFunc.
pub record Route (T S : Type 0) : Type 0 where
  pub path : String
  pub operation : String
  pub parameters : List Parameter
  pub namer : Naming
  pub scope : String
  pub component : String
  pub object_kind : GroupVersionKind
  pub meta_group_version : GroupVersion
  pub storage : T → Rest S

-- `discovery` is the lister of the version's discovery handler, once that is added; it lists what its
-- provider has at the time.
pub record WebService (T S : Type 0) : Type 0 where
  pub path : String
  pub api_version : GroupVersion
  pub routes : List (Route T S)
  pub discovery : Option (T → List ApiResource)

-- reflect.Kind, as far as `addObjectParams` tells the kinds apart.
pub data Kind : Type 0 where
  interface_kind struct_kind other_kind : Kind
  pointer_kind : Kind → Kind

-- reflect.StructField: `json` is Tag.Get("json"), and `type_name` the type's String().
pub record Field : Type 0 where
  pub name : String
  pub kind : Kind
  pub type_name : String
  pub json : String

-- What conversion.EnforcePtr and reflection make of an object: an error if it is no pointer, and no
-- fields if it does not point to a struct.
abbrev pub Fields : Type 0
Fields = Result Error (Option (List Field))

-- MetricsAPIGroupVersion with its storage. ObjectKinds gives at least one kind where it gives no
-- error. `swagger_doc` is none where the object has no such method.
pub record Group (Object T S : Type 0) : Type 0 where
  pub group_version : GroupVersion
  pub options_external_version : Option GroupVersion
  pub meta_group_version : Option GroupVersion
  pub root : String
  pub new_object : Object
  pub new_list : Object
  pub new_list_options : Object
  pub object_kinds : Object → Result Error (GroupVersionKind × List GroupVersionKind)
  pub create : GroupVersionKind → Result Error Object
  pub fields : Object → Fields
  pub swagger_doc : Object → Option (Map String String)
  pub resource_lister : Option (T → List ApiResource)
  pub dynamic_storage : T → Rest S

-- gpath.Join and utilerrors.NewAggregate; the latter is nil for no errors.
pub record Libraries : Type 0 where
  pub join : String → String → String → String
  pub new_aggregate : List Error → Option Error
  pub aggregate_nil : new_aggregate [] ≡ none
  pub aggregate_cons : (e : Error) (es : List Error) → new_aggregate (e ∷ es) ≢ none

-- The interface apiHandlers: the error, if there is one, and what is left of the web service.
abbrev pub ApiHandlers : Type 0 → Type 0 → Type 0 → Type 0
ApiHandlers Object T S = Group Object T S → WebService T S → Option Error × WebService T S

-- metav1.APIGroup; a GroupVersionForDiscovery is the group version.
pub record ApiGroup : Type 0 where
  pub name : String
  pub versions : List GroupVersion
  pub preferred_version : GroupVersion

-- A web service of the container: that of a version, or the handler of a group's discovery.
pub data Service (T S : Type 0) : Type 0 where
  version_service : WebService T S → Service T S
  group_service : ApiGroup → Service T S

-- restful.Container
pub record Container (T S : Type 0) : Type 0 where
  pub services : List (Service T S)

-- metav1.SchemeGroupVersion
abbrev pub meta_v1 : GroupVersion
meta_v1 = record { group = "meta.k8s.io"; version = "v1" }

module _ (libraries : Libraries) {Object T S : Type 0} where
  unfoldable pub new_web_service : Group Object T S → WebService T S
  new_web_service g = record {
    path = libraries.join g.root g.group_version.group g.group_version.version;
    api_version = g.group_version;
    routes = [];
    discovery = none;
  }

  unfoldable pub install :
      ApiHandlers Object T S → Group Object T S → WebService T S → List Error × WebService T S
  install handlers g ws =
      let (e, left) = handlers g ws in
      (
        elim e [
          | none ↦ []
          | some x ↦ formatted "error in registering custom metrics resource: %v" x ∷ []
        ],
        left,
      )

  -- The web service is added to the container even where a route has failed, but not where there is
  -- no lister.
  unfoldable pub install_rest :
      ApiHandlers Object T S → Group Object T S → Container T S → Option Error × Container T S
  unfolding new_web_service install
  install_rest handlers g container =
      let (errors, ws) = install handlers g (new_web_service g) in
      elim g.resource_lister [
        | none ↦ (some (other "must provide a dynamic lister for dynamic API groups"), container)
        | some lister ↦ (
          libraries.new_aggregate errors,
          record container {
            services =
                container.services ++ version_service (record ws { discovery = some lister }) ∷ [];
          },
        )
      ]

-- ===== src/Api/Helpers.antt =====
-- pkg/provider/helpers/helpers.go: what a provider asks the REST mapper and the dynamic client. The
-- two are records of the calls that are made of them.
use storage_metrics_server.Base.{
  String, ◌<>◌, Bool, not, if◌then◌else◌, Option, none, some, List, [], ◌∷◌, Result, ok, err, ◌>>=◌,
}
use storage_metrics_server.Storage.Types.{NamespacedName}
use storage_metrics_server.Api.{
  GroupResource, CustomMetricInfo, ObjectReference, RestMapper, Error, other, formatted,
}

pub record GroupVersionResource : Type 0 where
  pub group : String
  pub version : String
  pub resource : String

pub record GroupVersionKind : Type 0 where
  pub group : String
  pub version : String
  pub kind : String

-- The two other calls of meta.RESTMapper, given the group and the resource with no version.
pub record ObjectMapper : Type 0 where
  pub mapper : RestMapper
  pub resources_for : GroupResource → Result Error (List GroupVersionResource)
  pub kind_for : GroupResource → Result Error GroupVersionKind

-- What List returned: meta.IsListType, and the names that EachListItem visits.
pub record RawList : Type 0 where
  pub is_list_type : Bool
  pub names : Result Error (List String)

-- client.Resource(r).List, with the namespace if Namespace(ns) was called, and the selector's text.
pub record DynamicClient : Type 0 where
  pub list : GroupVersionResource → Option String → String → Result Error RawList

abbrev pub no_preferred_version : Error → Error
no_preferred_version =
    formatted "unable to find preferred version to list matching resource names: %v"

unfoldable pub resource_for : ObjectMapper → CustomMetricInfo → Result Error GroupVersionResource
resource_for mapper info = elim (mapper.resources_for info.group_resource) [
  | err e ↦ err (no_preferred_version e)
  | ok [] ↦
      err (no_preferred_version (other "no fully versioned resources known for group-resource"))
  | ok (r ∷ rs) ↦ ok r
]

unfoldable pub reference_for :
    ObjectMapper → NamespacedName → CustomMetricInfo → Result Error ObjectReference
reference_for mapper name info = do
  kind ← mapper.kind_for info.group_resource
  ok (record {
    api_version = kind.group <> "/" <> kind.version;
    kind = kind.kind;
    name = name.name;
    namespace = name.namespace;
  })

unfoldable pub list_object_names :
    ObjectMapper → DynamicClient → String → String → CustomMetricInfo → Result Error (List String)
unfolding resource_for
list_object_names mapper client namespace selector info = do
  res ← resource_for mapper info
  raw ← client.list res (if info.namespaced then some namespace else none) selector
  if not raw.is_list_type
      then err (other "result of label selector list operation was not a list")
      else raw.names

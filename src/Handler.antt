-- ===== src/Handler.antt =====
-- pkg/apiserver/endpoints/handlers/get.go: an HTTP request for a list as a call of the registry.
-- The naming and the codecs of the request scope are the record `Scope`; the writing of the response is
-- not modelled. The handler changes the request info in place, so that the namer and
-- the registry read what it left.
pub mod Options
pub mod Answers
pub mod Routes
use storage_metrics_server.Base.{
  ◌-◌, String, Bool, not, ◌&&◌, ltb, leb, Option, none, some, List, [], ◌∷◌, Map, insert, length,
  ◌==◌, string_eq, if◌then◌else◌, Result, ok, err, ◌>>=◌, map_err,
}
use Prim.Native.String.{len, slice, ◌++◌}
use storage_metrics_server.Api.{MetricValue, Error, bad_request}
use storage_metrics_server.Registry.{Selectors, RequestInfo, Context, ListOptions, ExtraOptions}

-- url.Values
abbrev pub Query : Type 0
Query = Map String (List String)

-- What the handler takes from its RequestScope. `name` is none where the namer returns an error.
pub record Scope (Selector Field : Type 0) : Type 0 where
  pub namespace : RequestInfo → Result Error String
  pub name : RequestInfo → Option String
  pub decode_list_options : Query → Result String (ListOptions Selector Field)
  pub convert_field_labels : Field → Result String Field
  pub decode_extra_options : Query → Result String ExtraOptions

pub record Request : Type 0 where
  pub info : Option RequestInfo
  pub query : Query

-- `panicked` stands for the slice expression of an empty list of parts.
pub data Response : Type 0 where
  answered : List MetricValue → Response
  failed : Error → Response
  panicked : Response

-- Metrics that describe namespaces: /namespaces/{namespace}/metrics/{metric}.
unfoldable pub describe_namespace : RequestInfo → Option RequestInfo
describe_namespace info =
    if not (info.namespace == "") && info.resource == "metrics"
    then elim info.parts [
      | [] ↦ none
      | part ∷ rest ↦ some (record {
        namespace = "";
        resource = "namespaces";
        subresource = info.name;
        name = info.namespace;
        parts = "namespaces" ∷ info.namespace ∷ rest;
        path = info.path;
      })
    ]
    else some info

-- strings.Join(parts, "/")
unfoldable pub join_slash : List String → String
join_slash [] = ""
join_slash (p ∷ ps) = elim ps [ [] ↦ p | q ∷ qs ↦ p ++ "/" ++ join_slash ps ]

abbrev pub begins_with_slash : String → Bool
begins_with_slash s = slice s 0 1 == "/"

abbrev pub ends_with_slash : String → Bool
ends_with_slash s = leb 1 (len s) && slice s (len s - 1) (len s) == "/"

abbrev pub without_two : List String → List String
without_two [] = []
without_two (p ∷ ps) = elim ps [ [] ↦ [] | q ∷ qs ↦ qs ]

-- The path below the resource's name, with the slashes that the request has.
unfoldable pub subpath : RequestInfo → String
unfolding join_slash
subpath info =
    let p = join_slash (without_two info.parts) in
    let q = if ltb 0 (len p) && not (begins_with_slash p) then "/" ++ p else p in
    if ends_with_slash info.path && not (ends_with_slash q) then q ++ "/" else q

module _ {S F : Type 0} (l : Selectors S F) (scope : Scope S F) where
  -- `getRequestOptions` as the handler calls it: with a subpath, under the key of the custom
  -- metrics' NewListOptions, and no subresource.
  unfoldable pub get_request_options : RequestInfo → Query → Result String ExtraOptions
  unfolding subpath
  get_request_options info query =
      scope.decode_extra_options (insert "metricName" (subpath info ∷ []) query)

  unfoldable pub transform : Option F → Result Error (Option F)
  transform none = ok none
  transform (some f) = do g ← map_err bad_request (scope.convert_field_labels f); ok (some g)

  -- A name in the path counts as a field selector, which the query may only repeat.
  unfoldable pub select_name : Option String → Option F → Result Error (Option F)
  select_name none f = ok f
  select_name (some name) none = ok (some (l.one_term_equal "metadata.name" name))
  select_name (some name) (some f) =
      if not (l.is_empty f)
      then elim (l.requires_exact_match f "metadata.name") [
        | none ↦ err (bad_request "fieldSelector metadata.name doesn't match requested name")
        | some selected ↦
            if not (name == selected)
            then err (bad_request "fieldSelector metadata.name doesn't match requested name")
            else ok (some f)
      ]
      else ok (some (l.one_term_equal "metadata.name" name))

  module _
      (lister : Context
        → Option (ListOptions S F)
        → ExtraOptions
        → Result Error (List MetricValue)) where
    -- The handler, once the request info is known and rewritten.
    unfoldable pub serve : RequestInfo → Query → Result Error (List MetricValue)
    unfolding get_request_options transform select_name
    serve info query =
        if ltb (length info.parts) 3 then err (bad_request "invalid request path") else do
          namespace ← scope.namespace info
          opts ← map_err bad_request (scope.decode_list_options query)
          transformed ← transform opts.field_selector
          selected ← select_name (scope.name info) transformed
          extra ← map_err bad_request (get_request_options info query)
          lister (record { namespace = namespace; request_info = some info })
              (some (record { label_selector = opts.label_selector; field_selector = selected }))
              extra

    abbrev pub respond : Result Error (List MetricValue) → Response
    respond (ok items) = answered items
    respond (err e) = failed e

    unfoldable pub list_resource_with_options : Request → Response
    unfolding describe_namespace serve
    list_resource_with_options req = elim req.info [
      | none ↦ failed (bad_request "missing requestInfo")
      | some info ↦ elim (describe_namespace info) [
        | none ↦ panicked
        | some rewritten ↦ respond (serve rewritten req.query)
      ]
    ]

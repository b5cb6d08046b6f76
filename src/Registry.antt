-- ===== src/Registry.antt =====
-- pkg/registry/custom_metrics/reststorage.go: a list request as a query of the provider. The
-- packages labels, fields, schema and request of the libraries are the record `Selectors` and the
-- values that it gives.
pub mod External
use storage_metrics_server.Base.{
  String, Bool, not, Option, none, some, List, [], ◌∷◌, map, ◌==◌, string_eq, if◌then◌else◌, Result,
  ok, err, ◌>>=◌,
}
use storage_metrics_server.Storage.Types.{Time}
use storage_metrics_server.Api.{
  GroupResource, CustomMetricInfo, MetricValue, Error, other, CustomMetricsProvider,
}

-- Label selectors and field selectors: labels.Everything, labels.Parse,
-- fields.OneTermEqualSelector, RequiresExactMatch, Empty and schema.ParseGroupResource.
pub record Selectors (Selector Field : Type 0) : Type 0 where
  pub everything : Selector
  pub parse : String → Result Error Selector
  pub one_term_equal : String → String → Field
  pub requires_exact_match : Field → String → Option String
  pub is_empty : Field → Bool
  pub parse_group_resource : String → GroupResource

-- request.RequestInfo, cut to what the program reads and sets.
pub record RequestInfo : Type 0 where
  pub namespace : String
  pub resource : String
  pub subresource : String
  pub name : String
  pub parts : List String
  pub path : String

-- What the request's context holds: the namespace ("" if there is none) and the request info.
pub record Context : Type 0 where
  pub namespace : String
  pub request_info : Option RequestInfo

pub record ListOptions (Selector Field : Type 0) : Type 0 where
  pub label_selector : Option Selector
  pub field_selector : Option Field

-- The extra options object: of another type, or a MetricListOptions that may be nil, by its metric
-- label selector.
pub data ExtraOptions : Type 0 where
  other_object : ExtraOptions
  metric_list_options : Option String → ExtraOptions

-- What a list returns, and the timestamps that the freshness observer is given.
pub record Listing : Type 0 where
  pub result : Result Error (List MetricValue)
  pub observed : List Time

module _ {S F : Type 0} (l : Selectors S F) where
  unfoldable pub selector_of : Option (ListOptions S F) → S
  selector_of none = l.everything
  selector_of (some o) = elim o.label_selector [ none ↦ l.everything | some s ↦ s ]

  unfoldable pub metric_selector_of : Option String → Result Error S
  metric_selector_of none = ok l.everything
  metric_selector_of (some text) = if text == "" then ok l.everything else l.parse text

  -- The name that the field selector asks for, or "*".
  unfoldable pub name_of : Option (ListOptions S F) → String
  name_of none = "*"
  name_of (some o) = elim o.field_selector [
    | none ↦ "*"
    | some f ↦ elim (l.requires_exact_match f "metadata.name") [ none ↦ "*" | some n ↦ n ]
  ]

  abbrev pub info_of : String → GroupResource → String → CustomMetricInfo
  info_of namespace group_resource metric = record {
    group_resource = group_resource;
    namespaced = not (namespace == "");
    metric = metric;
  }

  module _ (provider : CustomMetricsProvider S) where
    unfoldable pub handle_individual_op :
        String → GroupResource → String → String → S → Result Error (List MetricValue)
    handle_individual_op namespace group_resource name metric metric_selector = do
      v ←
          provider.get_metric_by_name (record { namespace = namespace; name = name })
            (info_of namespace group_resource metric) metric_selector
      ok (v ∷ [])

    unfoldable pub handle_wildcard_op :
        String → GroupResource → S → String → S → Result Error (List MetricValue)
    handle_wildcard_op namespace group_resource selector metric metric_selector =
        provider.get_metric_by_selector namespace selector (info_of namespace group_resource metric)
          metric_selector

    -- The part of `List` after the options and the name are read.
    unfoldable pub ask : String → RequestInfo → S → String → S → Result Error (List MetricValue)
    unfolding handle_individual_op handle_wildcard_op
    ask namespace info selector name metric_selector =
        let group_resource = l.parse_group_resource info.resource in
        if name == "*"
        then handle_wildcard_op namespace group_resource selector info.subresource metric_selector
        else handle_individual_op namespace group_resource name info.subresource metric_selector

    unfoldable pub list_values :
        Context → Option (ListOptions S F) → ExtraOptions → Result Error (List MetricValue)
    unfolding selector_of metric_selector_of name_of ask
    list_values ctx options other_object = err (other "invalid options object")
    list_values ctx options (metric_list_options m) = do
      metric_selector ← metric_selector_of m
      elim ctx.request_info [
        | none ↦ err (other "unable to get resource and metric name from request")
        | some info ↦ ask ctx.namespace info (selector_of options) (name_of options) metric_selector
      ]

    -- The loop over the items of a list that is returned.
    unfoldable pub observe : Result Error (List MetricValue) → List Time
    observe (ok items) = map (λ (v : MetricValue). v.timestamp) items
    observe (err e) = []

    unfoldable pub list : Context → Option (ListOptions S F) → ExtraOptions → Listing
    unfolding list_values observe
    list ctx options extra =
        let result = list_values ctx options extra in
        record { result = result; observed = observe result }

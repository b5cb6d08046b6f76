-- ===== src/TestAdapter/Alike.antt =====
-- Two states of the test adapter, as the custom metrics registry asks them.
use storage_metrics_server.Base.{
  ◌≡◌, refl, String, not, inl, inr, Option, List, [], ◌∷◌, ◌==◌, string_eq, arith, Result-cases,
  Option-cases,
}
use storage_metrics_server.Api.{CustomMetricInfo, GroupResource}
use storage_metrics_server.Api.Helpers.{list_object_names}
use storage_metrics_server.Registry.{
  Selectors, Context, ListOptions, ExtraOptions, other_object, metric_list_options, RequestInfo,
  handle_individual_op, handle_wildcard_op, ask, list_values, metric_selector_of, selector_of,
  name_of,
}
use storage_metrics_server.TestAdapter.{
  LabelCalls, TestingProvider, value_for, metric_for, metrics_from, get_metric_by_name,
  get_metric_by_selector, as_custom_provider,
}

-- The info and the name that the registry asks with.
abbrev pub asked_info : String → GroupResource → String → CustomMetricInfo
asked_info namespace group_resource metric = record {
  group_resource = group_resource;
  namespaced = not (namespace == "");
  metric = metric;
}

module _ {S : Type 0} (l : LabelCalls S) (p : TestingProvider) where
  -- The provider `q` has for the registry's questions what `p` has.
  pub record IsUnseen (q : TestingProvider) : Type 0 where
    pub same_mapper : q.mapper ≡ p.mapper
    pub same_client : q.client ≡ p.client
    pub same_values :
        (namespace : String) (group_resource : GroupResource) (metric name : String)
        (metric_selector : S)
        → value_for l q
            (asked_info namespace group_resource metric)
            (record { namespace = namespace; name = name })
            metric_selector
          ≡ value_for l p
              (asked_info namespace group_resource metric)
              (record { namespace = namespace; name = name })
              metric_selector

module _ {S F : Type 0} (l : LabelCalls S) (selectors : Selectors S F) (p q : TestingProvider)
    (u : IsUnseen l p q) where
  metrics_from-same :
      (namespace : String) (group_resource : GroupResource) (metric : String) (metric_selector : S)
      (names : List String)
      → metrics_from l q namespace
          (asked_info namespace group_resource metric)
          metric_selector
          names
        ≡ metrics_from l p namespace
            (asked_info namespace group_resource metric)
            metric_selector
            names
  unfolding metrics_from metric_for
  metrics_from-same namespace group_resource metric metric_selector [] = refl
  metrics_from-same namespace group_resource metric metric_selector (n ∷ ns) = ground (
    arith,
    u.same_mapper,
    u.same_values namespace group_resource metric n metric_selector,
    metrics_from-same namespace group_resource metric metric_selector ns,
  )

  individual-same :
      (namespace : String) (g : GroupResource) (name metric : String) (metric_selector : S)
      → handle_individual_op selectors
          (as_custom_provider l q)
          namespace
          g
          name
          metric
          metric_selector
        ≡ handle_individual_op selectors
            (as_custom_provider l p)
            namespace
            g
            name
            metric
            metric_selector
  unfolding handle_individual_op as_custom_provider get_metric_by_name metric_for
  individual-same namespace g name metric metric_selector =
      ground (arith, u.same_mapper, u.same_values namespace g metric name metric_selector)

  wildcard-same :
      (namespace : String) (g : GroupResource) (selector : S) (metric : String)
      (metric_selector : S)
      → handle_wildcard_op selectors
          (as_custom_provider l q)
          namespace
          g
          selector
          metric
          metric_selector
        ≡ handle_wildcard_op selectors
            (as_custom_provider l p)
            namespace
            g
            selector
            metric
            metric_selector
  unfolding handle_wildcard_op as_custom_provider get_metric_by_selector
  wildcard-same namespace g selector metric metric_selector =
      let info = asked_info namespace g metric in
      elim (Result-cases
        (list_object_names p.mapper p.client namespace (l.text_of selector) info)) [
          | inr (x, h) ↦ ground (arith, u.same_mapper, u.same_client, h)
          | inl (names, h) ↦ ground (
            arith,
            u.same_mapper,
            u.same_client,
            h,
            metrics_from-same namespace g metric metric_selector names,
          )
        ]

  ask-same :
      (namespace : String) (info : RequestInfo) (selector : S) (name : String) (metric_selector : S)
      → ask selectors (as_custom_provider l q) namespace info selector name metric_selector
        ≡ ask selectors (as_custom_provider l p) namespace info selector name metric_selector
  unfolding ask
  ask-same namespace info selector name metric_selector =
      let g = selectors.parse_group_resource info.resource in
      ground (
        arith,
        individual-same namespace g name info.subresource metric_selector,
        wildcard-same namespace g selector info.subresource metric_selector,
      )

  pub list_values-same :
      (ctx : Context) (options : Option (ListOptions S F)) (extra : ExtraOptions)
      → list_values selectors (as_custom_provider l q) ctx options extra
        ≡ list_values selectors (as_custom_provider l p) ctx options extra
  unfolding list_values
  list_values-same ctx options other_object = refl
  list_values-same ctx options (metric_list_options m) =
      elim (Result-cases (metric_selector_of selectors m)) [
        | inr (x, h) ↦ ground (arith, h)
        | inl (ms, h) ↦ elim (Option-cases ctx.request_info) [
          | inl g ↦ ground (arith, h, g)
          | inr (info, g) ↦ ground (
            arith,
            h,
            g,
            ask-same ctx.namespace info (selector_of selectors options) (name_of selectors options)
                ms,
          )
        ]
      ]

-- ===== src/Handler/Routes.antt =====
-- Which query of the provider a path stands for.
use storage_metrics_server.Base.{
  ◌≤◌, ◌≡◌, ◌≢◌, String, none, some, List, [], ◌∷◌, length, insert, lookup-insert, string_eq, Eq,
  arith, Result, ok, ◌>>=◌,
}
use storage_metrics_server.Api.{MetricValue, Error, CustomMetricsProvider}
use storage_metrics_server.Registry.{
  Selectors, RequestInfo, ExtraOptions, metric_list_options, info_of, list_values, ask, name_of,
  selector_of, metric_selector_of,
}
use storage_metrics_server.Handler.{
  Query, Scope, respond, describe_namespace, serve, list_resource_with_options, get_request_options,
  transform, select_name, subpath,
}
use storage_metrics_server.Handler.Options.{MetricListOptions, convert_url_values}

-- The path that the handler adds to the query, under the key metricName, does not change the
-- options that the conversion reads from it.
convert-path :
    {S F : Type 0} (l : Selectors S F) (scope : Scope S F)
    (to_internal : MetricListOptions → Result String ExtraOptions) (info : RequestInfo)
    (query : Query)
    → ((q : Query) → scope.decode_extra_options q ≡ to_internal (convert_url_values q))
    → get_request_options l scope info query ≡ to_internal (convert_url_values query)
unfolding get_request_options convert_url_values
convert-path l scope to_internal info query h =
    let p = subpath info ∷ [] in
    ground (
      arith,
      h (insert "metricName" p query),
      lookup-insert "metricName" "labelSelector" p query,
      lookup-insert "metricName" "metricLabelSelector" p query,
    )

module _ {S F : Type 0} (l : Selectors S F) (scope : Scope S F) where
  -- A request with the name `n` in its path and no selectors: what the naming, the codecs and the
  -- selectors of the libraries give for it.
  pub record Names (r : RequestInfo) (query : Query) (n : String) : Type 0 where
    pub deep : 3 ≤ length r.parts
    pub namespace : scope.namespace r ≡ ok r.namespace
    pub name : scope.name r ≡ some n
    pub options :
        scope.decode_list_options query
        ≡ ok (record { label_selector = none; field_selector = none })
    pub extra : get_request_options l scope r query ≡ ok (metric_list_options (some ""))
    pub exact : l.requires_exact_match (l.one_term_equal "metadata.name" n) "metadata.name" ≡ some n

  module _ (provider : CustomMetricsProvider S) where
    -- The answer by name, as a list.
    abbrev pub by_name : String → String → RequestInfo → Result Error (List MetricValue)
    by_name namespace n r = do
      v ←
          provider.get_metric_by_name (record { namespace = namespace; name = n })
            (info_of l namespace (l.parse_group_resource r.resource) r.subresource) l.everything
      ok (v ∷ [])

    serve-by_name :
        (r : RequestInfo) (query : Query) (n : String)
        → Names r query n
        → n ≢ "*"
        → serve l scope (list_values l provider) r query ≡ by_name r.namespace n r
    unfolding serve transform select_name list_values metric_selector_of name_of ask selector_of
    serve-by_name r query n h ne = ground (
      arith,
      h.deep,
      h.namespace,
      h.name,
      h.options,
      h.extra,
      h.exact,
      Eq.beq_iff string_eq n "*",
    )

    -- A path /namespaces/{ns}/{resource}/{name}/{metric} without selectors is answered with the
    -- provider's answer by name, for the name, the namespace, the resource and the metric of the
    -- path, and with its error if there is one.
    pub list_resource-by_name :
        (info : RequestInfo) (query : Query) (n : String)
        → info.resource ≢ "metrics"
        → n ≢ "*"
        → Names info query n
        → list_resource_with_options l scope
            (list_values l provider)
            (record { info = some info; query = query })
          ≡ respond l scope (list_values l provider) (by_name info.namespace n info)
    unfolding list_resource_with_options describe_namespace
    list_resource-by_name info query n m ne h =
        ground
          (arith, serve-by_name info query n h ne, Eq.beq_iff string_eq info.resource "metrics")

    -- The request info of /namespaces/{ns}/metrics/{metric} once the handler has rewritten it.
    abbrev pub of_namespace : RequestInfo → List String → RequestInfo
    of_namespace info rest = record {
      namespace = "";
      resource = "namespaces";
      subresource = info.name;
      name = info.namespace;
      parts = "namespaces" ∷ info.namespace ∷ rest;
      path = info.path;
    }

    -- A path /namespaces/{ns}/metrics/{metric} is answered as a query outside all namespaces for the
    -- object of the resource "namespaces" that is named ns.
    pub list_resource-namespace :
        (info : RequestInfo) (query : Query) (part : String) (rest : List String)
        → info.namespace ≢ ""
        → info.namespace ≢ "*"
        → info.resource ≡ "metrics"
        → info.parts ≡ part ∷ rest
        → Names (of_namespace info rest) query info.namespace
        → list_resource_with_options l scope
            (list_values l provider)
            (record { info = some info; query = query })
          ≡ respond l scope
              (list_values l provider)
              (by_name "" info.namespace (of_namespace info rest))
    unfolding list_resource_with_options describe_namespace
    list_resource-namespace info query part rest e ne m ps h = ground (
      arith,
      ps,
      serve-by_name (of_namespace info rest) query info.namespace h ne,
      Eq.beq_iff string_eq info.resource "metrics",
      Eq.beq_iff string_eq info.namespace "",
    )

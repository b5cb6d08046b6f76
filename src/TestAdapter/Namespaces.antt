-- ===== src/TestAdapter/Namespaces.antt =====
-- A metric that describes a namespace, written on the route /{resourceType}/{name}/metrics/{metric}
-- of the test adapter, and the queries that pkg/registry/custom_metrics makes of the adapter.
use storage_metrics_server.Base.{
  ◌≡◌, refl, ◌∙◌, subst, String, true, false, not, inl, inr, Option, ◌==◌, string_eq, arith,
  Result-cases, Eq,
}
use storage_metrics_server.Storage.Types.{Time}
use storage_metrics_server.Api.{CustomMetricInfo, GroupResource, RestMapper, normalized}
use storage_metrics_server.Registry.{Selectors, Context, ListOptions, ExtraOptions, list_values}
use storage_metrics_server.TestAdapter.{
  LabelCalls, WriteRequest, TestingProvider, CustomMetricResource, same_key, written_key, labels_of,
  update_metric, as_custom_provider, info_of,
}
use storage_metrics_server.TestAdapter.Alike.{asked_info, IsUnseen, list_values-same}
use storage_metrics_server.TestAdapter.Written.{after_write, asks_written, value_for-update_metric}

-- Normalization leaves the scope of the info as it is.
normalized-namespaced :
    (mapper : RestMapper) (i : CustomMetricInfo)
    → (normalized mapper i).info.namespaced ≡ i.namespaced
unfolding normalized
normalized-namespaced mapper i = elim (Result-cases (mapper.resource_for i.group_resource)) [
  | inr (e, f) ↦ ground (arith, f)
  | inl (g, f) ↦ elim (Result-cases (mapper.resource_singularizer g.resource)) [
    | inr (e, h) ↦ ground (arith, f, h)
    | inl (s, h) ↦ ground (arith, f, h)
  ]
]

module _ {S F : Type 0} (l : LabelCalls S) (selectors : Selectors S F) (now : Time)
    (r : WriteRequest) (p : TestingProvider) (e : r.namespace ≡ "")
    (f : r.resource_type ≡ "namespaces") where
  abbrev after : TestingProvider
  after = after_write l now r p

  keys_differ :
      (a b : CustomMetricResource) (namespace : String)
      → a.info.namespaced ≡ true
      → a.name.namespace ≡ ""
      → b.info.namespaced ≡ not (namespace == "")
      → b.name.namespace ≡ namespace
      → same_key a b ≡ false
  keys_differ a b namespace g h i j = ground (
    arith,
    g,
    h,
    i,
    j,
    Eq.beq_iff string_eq namespace "",
    Eq.beq_iff string_eq a.name.namespace b.name.namespace,
  )

  written_is_namespaced : (written_key l p r).info.namespaced ≡ true
  unfolding written_key
  written_is_namespaced =
      normalized-namespaced p.mapper.mapper (info_of l r)
      ∙ ground (arith, e, f, Eq.beq_iff string_eq r.resource_type "namespaces")

  unasked :
      (namespace : String) (group_resource : GroupResource) (metric name : String)
      → asks_written l now r p
          (asked_info namespace group_resource metric)
          (record { namespace = namespace; name = name })
        ≡ false
  unfolding written_key
  unasked namespace group_resource metric name = ground (
    arith,
    keys_differ (written_key l p r)
        (record {
          info = (normalized p.mapper.mapper (asked_info namespace group_resource metric)).info;
          name = record { namespace = namespace; name = name };
        })
        namespace written_is_namespaced at_root
        (normalized-namespaced p.mapper.mapper (asked_info namespace group_resource metric)) refl,
  )
    where
      at_root : (written_key l p r).name.namespace ≡ ""
      at_root = e

  after-IsUnseen : IsUnseen l p after
  unfolding update_metric
  after-IsUnseen = elim (Result-cases r.entity) [
    | inr (x, g) ↦ subst (IsUnseen l p) (ground (arith, g)) unwritten
    | inl (value, g) ↦ elim (Result-cases (labels_of l r.labels)) [
      | inr (x, h) ↦ subst (IsUnseen l p) (ground (arith, g, h)) unwritten
      | inl (labels, h) ↦ record {
        same_mapper = ground (arith, g, h);
        same_client = ground (arith, g, h);
        same_values = λ namespace group_resource metric name metric_selector. ground (
          arith,
          unasked namespace group_resource metric name,
          value_for-update_metric l now r p value labels
              (asked_info namespace group_resource metric)
              (record { namespace = namespace; name = name }) metric_selector g h,
        );
      }
    ]
  ]
    where
      unwritten : IsUnseen l p p
      unwritten = record {
        same_mapper = refl;
        same_client = refl;
        same_values = λ namespace group_resource metric name metric_selector. refl;
      }

  -- A metric that is written for the resource type "namespaces", with no namespace in the path,
  -- cannot be read: whatever the registry is asked, by name or by selector and in any namespace or
  -- in none, it answers as it did before the write.
  pub namespace_write-unseen :
      (ctx : Context) (options : Option (ListOptions S F)) (extra : ExtraOptions)
      → list_values selectors (as_custom_provider l after) ctx options extra
        ≡ list_values selectors (as_custom_provider l p) ctx options extra
  namespace_write-unseen = list_values-same l selectors p after after-IsUnseen

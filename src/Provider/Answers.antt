-- ===== src/Provider/Answers.antt =====
-- What a client of the provider is told.
use storage_metrics_server.Base.{
  ℕ, ◌≡◌, ◌∙◌, refl, sym, subst, inl, inr, String, ℤ, true, false, none, some, List, [], ◌∷◌, map,
  arith, Result, ok, err, Option-cases, Bool-cases,
}
use storage_metrics_server.Storage.Types.{NamespacedName, PvcMetricsPoint}
use storage_metrics_server.Storage.{Storage, get}
use storage_metrics_server.Api.{
  same_resource_iff, CustomMetricInfo, MetricValue, Error, api_status, StatusError,
  new_metric_not_found_error, new_metric_not_found_for_error,
}
use storage_metrics_server.Provider.{
  Provider, PvcLister, pvc_group_resource, metric_from_point, is_pvc, build_metric_value,
  read_claim, get_metric_by_name, collect, get_metric_by_selector,
}

-- The successful results, in order.
unfoldable pub successes {ℓ κ} : {E : Type ℓ} {A : Type κ} → List (Result E A) → List A
successes [] = []
successes (ok a ∷ rs) = a ∷ successes rs
successes (err e ∷ rs) = successes rs

-- The value `v` is what the cache `s` has for the metric of the claim, with the time of its sample.
pub record Serves (overflow : ℕ → ℤ) (s : Storage) (k : NamespacedName) (metric : String)
    (v : MetricValue) : Type 0 where
  pub point : PvcMetricsPoint
  pub cached : get k s ≡ some point
  pub answered : metric_from_point overflow metric point ≡ some v.value
  pub namespace : v.described_object.namespace ≡ k.namespace
  pub name : v.described_object.name ≡ k.name
  pub kind : v.described_object.kind ≡ "PersistentVolumeClaim"
  pub metric_name : v.metric_name ≡ metric
  pub timestamp : v.timestamp ≡ point.timestamp

module _ (overflow : ℕ → ℤ) (namespace metric : String) where
  -- A read gives what the cache serves.
  pub read_claim-Serves :
      (c : Storage) (pvc : String) (v : MetricValue)
      → read_claim overflow c namespace metric pvc ≡ some v
      → Serves overflow c (record { namespace = namespace; name = pvc }) metric v
  unfolding read_claim build_metric_value
  read_claim-Serves c pvc v h =
      let k : NamespacedName = record { namespace = namespace; name = pvc } in
      elim (Option-cases (get k c)) [
        | inl e ↦ absurd (none-ne-some (ground (arith, h, e)))
        | inr (p, e) ↦ elim (Option-cases (metric_from_point overflow metric p)) [
          | inl f ↦ absurd (none-ne-some (ground (arith, h, e, f)))
          | inr (z, f) ↦
              let w : MetricValue = record {
                described_object = record {
                  api_version = "v1";
                  kind = "PersistentVolumeClaim";
                  name = pvc;
                  namespace = namespace;
                };
                metric_name = metric;
                selector = none;
                timestamp = p.timestamp;
                value = z;
              } in
              subst (Serves overflow c k metric) {x = w} (built (ground (arith, h, e, f))) (record {
                point = p;
                cached = e;
                answered = f;
                namespace = refl;
                name = refl;
                kind = refl;
                metric_name = refl;
                timestamp = refl;
              })
        ]
      ]
    where
      none-ne-some : none ≡ some v → ⊥
      none-ne-some e = cc

      built : {w : MetricValue} → some w ≡ some v → w ≡ v
      built e = ground arith

module _ (overflow : ℕ → ℤ) {S : Type 0} (p : Provider S) where
  -- What an answer by name says of the cache.
  abbrev pub IsAnswer : NamespacedName → CustomMetricInfo → Result Error MetricValue → Type 0
  IsAnswer k info (ok v) =
      (info.group_resource ≡ pvc_group_resource) × Serves overflow p.store k info.metric v
  IsAnswer k info (err e) =
      ((st : StatusError) × (e ≡ api_status st) × (st.code ≡ 404))
      × (info.group_resource ≡ pvc_group_resource
          → (point : PvcMetricsPoint) → get k p.store ≡ some point
          → metric_from_point overflow info.metric point ≡ none)

  is_pvc-eq :
      (info : CustomMetricInfo) → is_pvc info ≡ true → info.group_resource ≡ pvc_group_resource
  unfolding is_pvc
  is_pvc-eq info h = (same_resource_iff info.group_resource pvc_group_resource).0 h

  eq-is_pvc :
      (info : CustomMetricInfo) → info.group_resource ≡ pvc_group_resource → is_pvc info ≡ true
  unfolding is_pvc
  eq-is_pvc info h = (same_resource_iff info.group_resource pvc_group_resource).1 h

  -- By name the provider answers with the metric of the cached sample, for the core claims alone,
  -- or with a status 404; and it is 404 for a claim only if the cache has no sample of it that
  -- answers the metric.
  pub by_name-IsAnswer :
      (k : NamespacedName) (info : CustomMetricInfo) (metric_selector : S)
      → IsAnswer k info (get_metric_by_name overflow p k info metric_selector)
  unfolding get_metric_by_name build_metric_value new_metric_not_found_error
      new_metric_not_found_for_error
  by_name-IsAnswer k info metric_selector = elim (Bool-cases (is_pvc info)) [
    | inr n ↦
        rw (n, get_metric_by_name, IsAnswer)
          ((_, refl, refl), λ h. absurd (true-ne-false (sym (eq-is_pvc info h) ∙ n)))
    | inl y ↦ elim (Option-cases (get k p.store)) [
      | inl e ↦
          rw (y, get_metric_by_name, IsAnswer)
            (rw (e, IsAnswer) ((_, refl, refl), λ h pt f. absurd (none-ne-some (sym e ∙ f))))
      | inr (pt, e) ↦ elim (Option-cases (metric_from_point overflow info.metric pt)) [
        | inl f ↦
            rw (y, get_metric_by_name, IsAnswer)
              (rw (e, IsAnswer)
                (rw (f, IsAnswer) ((_, refl, refl), λ h pt' e'. same_point pt pt' e e' f)))
        | inr (q, f) ↦
            rw (y, get_metric_by_name, IsAnswer)
              (rw (e, IsAnswer)
                (rw (f, IsAnswer)
                  (
                    is_pvc-eq info y,
                    record {
                      point = pt;
                      cached = e;
                      answered = f;
                      namespace = refl;
                      name = refl;
                      kind = refl;
                      metric_name = refl;
                      timestamp = refl;
                    },
                  )))
      ]
    ]
  ]
    where
      true-ne-false : true ≡ false → ⊥
      true-ne-false e = cc

      same_point :
          (a b : PvcMetricsPoint)
          → get k p.store ≡ some a
          → get k p.store ≡ some b
          → metric_from_point overflow info.metric a ≡ none
          → metric_from_point overflow info.metric b ≡ none
      same_point a b u v f =
          let w : a ≡ b = cc in subst (λ x. metric_from_point overflow info.metric x ≡ none) w f

      none-ne-some : {x : PvcMetricsPoint} → none ≡ some x → ⊥
      none-ne-some e = cc

  pub collect-successes :
      (namespace : String) (info : CustomMetricInfo) (metric_selector : S) (pvcs : List String)
      → is_pvc info ≡ true
      → collect overflow p.store namespace info.metric pvcs
        ≡ successes (
            map
              (λ n.
                get_metric_by_name overflow p
                  (record { namespace = namespace; name = n })
                  info
                  metric_selector)
              pvcs)
  unfolding collect get_metric_by_name successes
  collect-successes namespace info metric_selector [] h = refl
  collect-successes namespace info metric_selector (n ∷ pvcs) h =
      let k : NamespacedName = record { namespace = namespace; name = n } in
      ground (arith, collect-successes namespace info metric_selector pvcs h)

  -- For a selector the provider answers with exactly the claims that the lister gives and that it
  -- would answer by name, in the lister's order; a claim without a sample, or whose sample lacks
  -- the metric, is left out and is no error.
  pub by_selector-by_name :
      (namespace : String) (selector metric_selector : S) (info : CustomMetricInfo)
      (lister : PvcLister S) (pvcs : List String)
      → is_pvc info ≡ true
      → p.pvc_lister ≡ some lister
      → lister.list namespace selector ≡ ok pvcs
      → get_metric_by_selector overflow p namespace selector info metric_selector
        ≡ ok (
            successes (
              map
                (λ n.
                  get_metric_by_name overflow p
                    (record { namespace = namespace; name = n })
                    info
                    metric_selector)
                pvcs))
  unfolding get_metric_by_selector
  by_selector-by_name namespace selector metric_selector info lister pvcs h e f =
      ground (arith, e, f, collect-successes namespace info metric_selector pvcs h)

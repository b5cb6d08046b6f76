-- ===== src/TestAdapter/Queries.antt =====
-- The queries of several metrics: of the objects that a selector gives, and of external metrics.
use mathlib.Core.List.{filter}
use storage_metrics_server.Base.{
  Bool, false, ℕ, suc, ◌≡◌, refl, String, true, ◌&&◌, inl, inr, List, [], ◌∷◌, map, All, Result, ok,
  err, ◌==◌, arith, Bool-cases, bind-ok, Result-cases, ◌⊎◌, string_eq,
}
use storage_metrics_server.Storage.Types.{NamespacedName, Time, zero_time}
use storage_metrics_server.Api.{ExternalMetricInfo, CustomMetricInfo, MetricValue, Error}
use storage_metrics_server.Api.Helpers.{list_object_names}
use storage_metrics_server.Registry.External.{ExternalMetricValue}
use storage_metrics_server.Provider.Answers.{successes}
use storage_metrics_server.TestAdapter.{
  ExternalMetric, TestingProvider, LabelCalls, value_for, metric_for, get_metric_by_name,
  metrics_from, get_metric_by_selector, matching_metrics, get_external_metric,
}

module _ {S : Type 0} (l : LabelCalls S) (p : TestingProvider) where
  -- The answer by name for each of the objects.
  abbrev pub by_name : String → CustomMetricInfo → S → List String → List (Result Error MetricValue)
  by_name namespace info metric_selector = map λ name.
      get_metric_by_name l p (record { namespace = namespace; name = name }) info metric_selector

  -- The object has a metric, or its value is not found.
  abbrev pub IsFoundOrMissing : String → CustomMetricInfo → S → String → Type 0
  IsFoundOrMissing namespace info metric_selector name =
      let k : NamespacedName = record { namespace = namespace; name = name } in
      ((v : MetricValue) × (get_metric_by_name l p k info metric_selector ≡ ok v))
      ⊎ ((e : Error) × (value_for l p info k metric_selector ≡ err e) × (l.is_not_found e ≡ true))

  metrics_from-by_name :
      (namespace : String) (info : CustomMetricInfo) (metric_selector : S) (names : List String)
      (items : List MetricValue)
      → metrics_from l p namespace info metric_selector names ≡ ok items
      → (items ≡ successes (by_name namespace info metric_selector names))
        × All (IsFoundOrMissing namespace info metric_selector) names
  unfolding metrics_from successes get_metric_by_name
  metrics_from-by_name namespace info metric_selector [] items e = (ground (arith, e), tt)
  metrics_from-by_name namespace info metric_selector (name ∷ names) items e =
      let k : NamespacedName = record { namespace = namespace; name = name } in
      elim (Result-cases (value_for l p info k metric_selector)) [
        | inr (x, f) ↦ elim (Bool-cases (l.is_not_found x)) [
          | inl g ↦
              let h =
                metrics_from-by_name namespace info metric_selector names items
                  (ground (arith, e, f, g)) in
              (ground (arith, f, h.0), (inr (x, f, g), h.1))
          | inr g ↦ absurd (err-ne-ok {x = x} (ground (arith, e, f, g)))
        ]
        | inl (value, f) ↦ elim (Result-cases (metric_for l p value k info metric_selector)) [
          | inr (x, g) ↦ absurd (err-ne-ok {x = x} (ground (arith, e, f, g)))
          | inl (v, g) ↦
              elim (Result-cases (metrics_from l p namespace info metric_selector names)) [
                | inr (x, h) ↦ absurd (err-ne-ok {x = x} (ground (arith, e, f, g, h)))
                | inl (rest, h) ↦
                    let i = metrics_from-by_name namespace info metric_selector names rest h in
                    (ground (arith, e, f, g, h, i.0), (inl (v, ground (arith, f, g)), i.1))
              ]
        ]
      ]
    where
      err-ne-ok : {x : Error} → ◌≡◌ {A = Result Error (List MetricValue)} (err x) (ok items) → ⊥
      err-ne-ok e = cc

  -- Where a query by a selector is answered, the dynamic client has listed the objects, and the
  -- answer is what the objects give by name, in their order; an object is left out only if its value
  -- is not found.
  pub get_metric_by_selector-by_name :
      (namespace : String) (selector : S) (info : CustomMetricInfo) (metric_selector : S)
      (items : List MetricValue)
      → get_metric_by_selector l p namespace selector info metric_selector ≡ ok items
      → (names : List String) × (list_object_names p.mapper p.client namespace
            (l.text_of selector)
            info
          ≡ ok names)
        × (items ≡ successes (by_name namespace info metric_selector names))
        × All (IsFoundOrMissing namespace info metric_selector) names
  unfolding get_metric_by_selector
  get_metric_by_selector-by_name namespace selector info metric_selector items e =
      let (names, f, g) =
        bind-ok (list_object_names p.mapper p.client namespace (l.text_of selector) info) _ items
          e in
      let h = metrics_from-by_name namespace info metric_selector names items g in
      (names, f, h.0, h.1)

decided : (b : Bool) → Dec (b ≡ true)
decided true = Dec.yes refl
decided false = Dec.no false-ne-true
  where
    false-ne-true : false ≡ true → ⊥
    false-ne-true e = cc

module _ {S : Type 0} (l : LabelCalls S) where
  abbrev pub untimed : ExternalMetricValue → ExternalMetricValue
  untimed v = record v { timestamp = zero_time }

  -- The reference for the external metrics: those of the name whose labels match, with no time.
  pub wanted : String → S → List ExternalMetric → List ExternalMetricValue
  wanted name metric_selector ms =
      map (λ (m : ExternalMetric). untimed m.value)
        (filter
          (λ (m : ExternalMetric).
            decided (m.info.metric == name && l.matches metric_selector m.labels))
          ms)

  -- The times that the calls of the clock give from the i-th on, one for each value.
  pub times : {A : Type 0} → (ℕ → Time) → ℕ → List A → List Time
  times clock i [] = []
  times clock i (a ∷ as_) = clock i ∷ times clock (suc i) as_

  matching_metrics-wanted :
      (clock : ℕ → Time) (name : String) (metric_selector : S) (i : ℕ) (ms : List ExternalMetric)
      → let vs = matching_metrics l clock name metric_selector i ms in
        (map untimed vs ≡ wanted name metric_selector ms)
        × (map (λ (v : ExternalMetricValue). v.timestamp) vs ≡ times clock i vs)
  unfolding matching_metrics wanted times decided
  matching_metrics-wanted clock name metric_selector i [] = (refl, refl)
  matching_metrics-wanted clock name metric_selector i (m ∷ ms) =
      elim (Bool-cases (m.info.metric == name && l.matches metric_selector m.labels)) [
        | inl e ↦
            let h = matching_metrics-wanted clock name metric_selector (suc i) ms in
            (ground (arith, e, h.0), ground (arith, e, h.1))
        | inr e ↦
            let h = matching_metrics-wanted clock name metric_selector i ms in
            (ground (arith, e, h.0), ground (arith, e, h.1))
      ]

  -- A query of an external metric is answered, whatever its namespace: with the metrics of its name
  -- whose labels the selector matches, in their order, and each with the time of its own reading of
  -- the clock.
  get_external_metric-wanted :
      (clock : ℕ → Time) (p : TestingProvider) (namespace : String) (metric_selector : S)
      (info : ExternalMetricInfo)
      → (vs : List ExternalMetricValue) × (get_external_metric l clock p namespace metric_selector
            info
          ≡ ok vs)
        × (map untimed vs ≡ wanted info.metric metric_selector p.external_metrics)
        × (map (λ (v : ExternalMetricValue). v.timestamp) vs ≡ times clock 0 vs)
  unfolding get_external_metric
  get_external_metric-wanted clock p namespace metric_selector info =
      let h = matching_metrics-wanted clock info.metric metric_selector 0 p.external_metrics in
      (_, refl, h.0, h.1)

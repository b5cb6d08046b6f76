-- ===== src/Handler/Answers.antt =====
-- What a client of the API server is told: the handler, the registry and the provider together.
use storage_metrics_server.Base.{
  ℕ, ◌≡◌, subst, ◌⊎◌, inl, inr, String, ℤ, Bool, true, false, ltb, Option, List, [], ◌∷◌, map,
  Among, length, ◌==◌, string_eq, arith, Result, ok, err, ◌>>=◌, bind-ok, map_err, Option-cases,
  Bool-cases, Result-cases, ap, ◌∙◌, if◌then◌else◌,
}
use storage_metrics_server.Storage.Types.{NamespacedName, name_eq}
use storage_metrics_server.Api.{CustomMetricInfo, MetricValue, Error, CustomMetricsProvider}
use storage_metrics_server.Provider.{
  Provider, collect, get_metric_by_name, get_metric_by_selector, as_provider, is_pvc,
}
use storage_metrics_server.Provider.Answers.{
  collect-successes, successes, Serves, IsAnswer, by_name-IsAnswer,
}
use storage_metrics_server.Registry.{
  Selectors, RequestInfo, Context, ListOptions, ExtraOptions, metric_list_options, other_object,
  info_of, ask, list_values, selector_of, metric_selector_of, name_of,
}
use storage_metrics_server.Handler.{
  Query, Scope, Request, answered, respond, describe_namespace, serve, list_resource_with_options,
  get_request_options, transform, select_name,
}

else_of : {A : Type 0} (b : Bool) (x y z : A) → b ≡ false → (if b then x else y) ≡ z → y ≡ z
else_of true x y z h e = cc
else_of false x y z h e = e

module _ {S F : Type 0} (l : Selectors S F) (provider : CustomMetricsProvider S) where
  -- The items are what one call of the provider returned.
  abbrev pub IsAsked : List MetricValue → Type 0
  IsAsked items =
      ((k : NamespacedName) × (info : CustomMetricInfo) × (sel : S) × (v : MetricValue)
        × (provider.get_metric_by_name k info sel ≡ ok v)
        × (items ≡ v ∷ []))
      ⊎ ((ns : String) × (sel : S) × (info : CustomMetricInfo) × (m : S)
          × (provider.get_metric_by_selector ns sel info m ≡ ok items))

  individual-IsAsked :
      (k : NamespacedName) (info : CustomMetricInfo) (sel : S) (items : List MetricValue)
      → (provider.get_metric_by_name k info sel >>= λ v. ok (v ∷ [])) ≡ ok items
      → IsAsked items
  individual-IsAsked k info sel items e =
      let (v, a, b) = bind-ok (provider.get_metric_by_name k info sel) (λ v. ok (v ∷ [])) items e in
      inl (k, info, sel, v, a, cc)

  ask-IsAsked :
      (ns : String) (info : RequestInfo) (sel : S) (name : String) (m : S)
      (items : List MetricValue)
      → ask l provider ns info sel name m ≡ ok items
      → IsAsked items
  unfolding ask
  ask-IsAsked ns info sel name m items e = elim (Bool-cases (name == "*")) [
    | inl y ↦ inr (
      ns,
      sel,
      info_of l ns (l.parse_group_resource info.resource) info.subresource,
      m,
      ground arith,
    )
    | inr n ↦
        individual-IsAsked (record { namespace = ns; name = name })
          (info_of l ns (l.parse_group_resource info.resource) info.subresource) m items
          (ground arith)
  ]

  list_values-IsAsked :
      (ctx : Context) (o : Option (ListOptions S F)) (x : ExtraOptions) (items : List MetricValue)
      → list_values l provider ctx o x ≡ ok items
      → IsAsked items
  unfolding list_values
  list_values-IsAsked ctx o other_object items e = cc
  list_values-IsAsked ctx o (metric_list_options t) items e =
      let (m, a, b) = bind-ok (metric_selector_of l t) _ items e in
      elim (Option-cases ctx.request_info) [
        | inl f ↦ absurd (ground (arith, b, f))
        | inr (info, f) ↦
            ask-IsAsked ctx.namespace info (selector_of l o) (name_of l o) m items
              (ground (arith, b, f))
      ]

  respond-ok :
      (scope : Scope S F) (r : Result Error (List MetricValue)) (items : List MetricValue)
      → respond l scope (list_values l provider) r ≡ answered items
      → r ≡ ok items
  respond-ok scope (ok x) items e = ground arith
  respond-ok scope (err x) items e = cc

  serve-IsAsked :
      (scope : Scope S F) (info : RequestInfo) (q : Query) (items : List MetricValue)
      → serve l scope (list_values l provider) info q ≡ ok items
      → IsAsked items
  unfolding serve
  serve-IsAsked scope info q items e = elim (Bool-cases (ltb (length info.parts) 3)) [
    | inl y ↦ absurd (ground arith)
    | inr n ↦
        let (ns, a, b) =
          bind-ok (scope.namespace info) _ items (else_of (ltb (length info.parts) 3) _ _ _ n e) in
        let (opts, c, d) = bind-ok (map_err _ (scope.decode_list_options q)) _ items b in
        let (t, f, g) = bind-ok (transform l scope opts.field_selector) _ items d in
        let (sel, h, i) = bind-ok (select_name l scope (scope.name info) t) _ items g in
        let (x, j, k) = bind-ok (map_err _ (get_request_options l scope info q)) _ items i in
        list_values-IsAsked _ _ x items k
  ]

  -- A list of values that the handler answers with is what one call of the provider returned.
  answered-IsAsked :
      (scope : Scope S F) (req : Request) (items : List MetricValue)
      → list_resource_with_options l scope (list_values l provider) req ≡ answered items
      → IsAsked items
  unfolding list_resource_with_options
  answered-IsAsked scope req items e = elim (Option-cases req.info) [
    | inl f ↦ absurd (ground (arith, f, e))
    | inr (info, f) ↦ elim (Option-cases (describe_namespace info)) [
      | inl g ↦ absurd (ground (arith, f, g, e))
      | inr (r, g) ↦
          serve-IsAsked scope r req.query items (respond-ok scope _ items (ground (arith, f, g, e)))
    ]
  ]

module _ (overflow : ℕ → ℤ) {S : Type 0} (p : Provider S) where
  -- The value is the metric of a claim's cached sample.
  abbrev pub IsServed : MetricValue → Type 0
  IsServed v = (k : NamespacedName) × (metric : String) × Serves overflow p.store k metric v

  by_name-IsServed :
      (k : NamespacedName) (info : CustomMetricInfo) (sel : S) (v : MetricValue)
      → get_metric_by_name overflow p k info sel ≡ ok v
      → IsServed v
  by_name-IsServed k info sel v e = (
    k,
    info.metric,
    (subst (IsAnswer overflow p k info) e (by_name-IsAnswer overflow p k info sel)).1,
  )

  successes-ok :
      {A : Type 0} (f : A → Result Error MetricValue) (xs : List A) (v : MetricValue)
      → Among v (successes (map f xs))
      → (x : A) × (f x ≡ ok v)
  unfolding successes
  successes-ok f [] v a = absurd a
  successes-ok f (x ∷ xs) v a = elim (Result-cases (f x)) [
    | inl (w, e) ↦ elim (subst (Among v) (first w e) a) [
      | inl same ↦ (x, cc)
      | inr b ↦ successes-ok f xs v b
    ]
    | inr (y, e) ↦ successes-ok f xs v (subst (Among v) (ground (arith, e)) a)
  ]
    where
      first : (w : MetricValue) → f x ≡ ok w → successes (map f (x ∷ xs)) ≡ w ∷ successes (map f xs)
      first w e = ground (arith, e)

  by_selector-IsServed :
      (ns : String) (sel : S) (info : CustomMetricInfo) (m : S) (items : List MetricValue)
      (v : MetricValue)
      → get_metric_by_selector overflow p ns sel info m ≡ ok items
      → Among v items
      → IsServed v
  unfolding get_metric_by_selector
  by_selector-IsServed ns sel info m items v e a = elim (Bool-cases (is_pvc info)) [
    | inr n ↦ absurd (ground (arith, n, e))
    | inl y ↦ elim (Option-cases p.pvc_lister) [
      | inl f ↦ absurd (ground (arith, y, f, e))
      | inr (lister, f) ↦ elim (Result-cases (lister.list ns sel)) [
        | inr (x, g) ↦ absurd (ground (arith, y, f, g, e))
        | inl (pvcs, g) ↦
            let same : items ≡ collect overflow p.store ns info.metric pvcs =
              ground (arith, y, f, g, e) in
            let (n, h) =
              successes-ok _ pvcs v
                (subst (Among v) (same ∙ collect-successes overflow p ns info m pvcs y) a) in
            by_name-IsServed (record { namespace = ns; name = n }) info m v h
      ]
    ]
  ]

  -- Every value in a list that the API server answers with is the metric of a sample in the cache,
  -- named as its claim and with its time.
  pub answered-IsServed :
      {F : Type 0} (l : Selectors S F) (scope : Scope S F) (req : Request)
      (items : List MetricValue) (v : MetricValue)
      → list_resource_with_options l scope (list_values l (as_provider overflow p)) req
        ≡ answered items
      → Among v items
      → IsServed v
  unfolding as_provider
  answered-IsServed l scope req items v e a =
      elim (answered-IsAsked l (as_provider overflow p) scope req items e) [
        | inl (k, info, sel, w, f, g) ↦ elim (subst (Among v) g a) [
          | inl same ↦ by_name-IsServed k info sel v (f ∙ ap ok same)
          | inr b ↦ absurd b
        ]
        | inr (ns, sel, info, m, f) ↦ by_selector-IsServed ns sel info m items v f a
      ]

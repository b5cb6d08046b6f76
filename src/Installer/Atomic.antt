-- ===== src/Installer/Atomic.antt =====
-- What the registration of a group's routes leaves of the web service.
use storage_metrics_server.Base.{
  ◌≡◌, refl, sym, ◌∙◌, ap, subst, inl, inr, Option, none, some, List, [], ◌∷◌, ◌++◌, append_assoc,
  bind-ok, and_then, Result, ok, Result-cases, arith,
}
use storage_metrics_server.Api.{Error}
use storage_metrics_server.Api.Helpers.{GroupVersionKind}
use storage_metrics_server.Installer.Kinds.{get_resource_kind, get_resource_kind-with_kind}
use storage_metrics_server.Installer.{with_kind, Parameter, Route, WebService, Group}
use storage_metrics_server.Installer.Params.{is_named}
use storage_metrics_server.Installer.Params.Named.{HasUniqueNames}
use storage_metrics_server.Installer.Prepared.{Prepared, options_version, prepare, pretty_param}
use storage_metrics_server.Installer.Custom.{
  root_scoped_params, namespaced_params, namespace_specific_params, prepare_extra,
  root_scoped_route, namespaced_route, namespace_specific_route, add_custom_routes, register_custom,
}
use storage_metrics_server.Installer.Built.{
  with_params, with_routes, params_of, params_of-HasUniqueNames, add_route-ok, add_route-err,
}

module _ {Object T S : Type 0} (g : Group Object T S) where
  -- The web service `left` has the three routes of the custom metrics behind those of `ws`.
  pub record HasCustomRoutes (ws left : WebService T S) : Type 0 where
    pub prepared : Prepared Object
    pub queries : List Parameter
    pub unique : HasUniqueNames queries
    pub in_version : prepared.kind ≡ with_kind g.group_version prepared.kind.kind
    pub routes :
        left
        ≡ with_routes ws (
            with_params (root_scoped_route g prepared) queries (root_scoped_params g)
            ∷ with_params (namespaced_route g prepared) queries (namespaced_params g)
            ∷ with_params
                (namespace_specific_route g prepared)
                queries
                (namespace_specific_params g)
            ∷ [])

  -- All of the routes, or an error and none of them.
  abbrev pub IsAllOrNothing : WebService T S → Option Error × WebService T S → Type 0
  IsAllOrNothing ws (some e, left) = left ≡ ws
  IsAllOrNothing ws (none, left) = HasCustomRoutes ws left

  from_equal :
      (ws : WebService T S) (out known : Option Error × WebService T S)
      → out ≡ known
      → IsAllOrNothing ws known
      → IsAllOrNothing ws out
  from_equal ws out known e h = subst (IsAllOrNothing ws) {x = known} {y = out} (sym e) h

  and_then-ok :
      (r : Option Error × WebService T S) (w : WebService T S)
      (f : WebService T S → Option Error × WebService T S)
      → r ≡ (none, w)
      → and_then r f ≡ f w
  and_then-ok r w f e = ap (λ x. and_then x f) e

  and_then-err :
      (r : Option Error × WebService T S) (x : Error) (w : WebService T S)
      (f : WebService T S → Option Error × WebService T S)
      → r ≡ (some x, w)
      → and_then r f ≡ (some x, w)
  and_then-err r x w f e = ap (λ y. and_then y f) e

  add_custom_routes-ok :
      (p : Prepared Object) (extra : Object) (ws : WebService T S) (qs : List Parameter)
      → params_of g (p.list_options ∷ extra ∷ []) (pretty_param g ∷ []) ≡ ok qs
      → add_custom_routes g p extra ws ≡ (
        none,
        with_routes ws (
            with_params (root_scoped_route g p) qs (root_scoped_params g)
            ∷ with_params (namespaced_route g p) qs (namespaced_params g)
            ∷ with_params (namespace_specific_route g p) qs (namespace_specific_params g)
            ∷ []),
      )
  unfolding add_custom_routes
  add_custom_routes-ok p extra ws qs e =
      let os = p.list_options ∷ extra ∷ [] in
      let root = with_params (root_scoped_route g p) qs (root_scoped_params g) in
      let inner = with_params (namespaced_route g p) qs (namespaced_params g) in
      let last = with_params (namespace_specific_route g p) qs (namespace_specific_params g) in
      let first = with_routes ws (root ∷ []) in
      let second = with_routes first (inner ∷ []) in
      and_then-ok _ first _
        (add_route-ok g os (root_scoped_params g) qs (root_scoped_route g p) ws e)
      ∙ and_then-ok _ second _
          (add_route-ok g os (namespaced_params g) qs (namespaced_route g p) first e)
      ∙ add_route-ok g os (namespace_specific_params g) qs (namespace_specific_route g p) second e
      ∙ ap (λ (l : List (Route T S)). (none, record ws { routes = l }))
          (append_assoc (ws.routes ++ root ∷ []) (inner ∷ []) (last ∷ [])
            ∙ append_assoc ws.routes (root ∷ []) (inner ∷ last ∷ []))

  prepare-kind :
      (p : Prepared Object) → prepare g ≡ ok p → p.kind ≡ with_kind g.group_version p.kind.kind
  unfolding prepare
  prepare-kind p e =
      let (kind, a, b) = bind-ok (get_resource_kind g) _ p e in
      let (list_kinds, c, d) = bind-ok (g.object_kinds g.new_list) _ p b in
      let (list, h, i) = bind-ok (g.create (with_kind g.group_version list_kinds.0.kind)) _ p d in
      let (options, j, k) =
        bind-ok (g.create (with_kind (options_version g) "ListOptions")) _ p i in
      get_resource_kind-with_kind g p.kind (a ∙ ap ok (registered kind options k))
    where
      registered :
          (kind : GroupVersionKind) (options : Object)
          → ◌≡◌ {A = Result Error (Prepared Object)}
              (ok (record { kind = kind; list_options = options }))
              (ok p)
          → kind ≡ p.kind
      registered kind options k = ground arith

  add_custom_routes-IsAllOrNothing :
      (p : Prepared Object) (extra : Object) (ws : WebService T S)
      → p.kind ≡ with_kind g.group_version p.kind.kind
      → IsAllOrNothing ws (add_custom_routes g p extra ws)
  unfolding add_custom_routes is_named
  add_custom_routes-IsAllOrNothing p extra ws v =
      let os = p.list_options ∷ extra ∷ [] in
      elim (Result-cases (params_of g os (pretty_param g ∷ []))) [
        | inr (x, e) ↦
            from_equal ws (add_custom_routes g p extra ws) (some x, ws)
              (and_then-err _ x ws _
                (add_route-err g os (root_scoped_params g) (root_scoped_route g p) ws x e))
              refl
        | inl (qs, e) ↦
            from_equal ws (add_custom_routes g p extra ws) _ (add_custom_routes-ok p extra ws qs e)
              (record {
                prepared = p;
                queries = qs;
                unique = params_of-HasUniqueNames g os (pretty_param g ∷ []) qs (refl, tt) e;
                in_version = v;
                routes = refl;
              })
      ]

  -- The registration of the custom metrics is all or nothing: with an error it leaves the web
  -- service as it was, and without one it has added the three routes, for a kind of the version that
  -- is installed; they share their query parameters, no two of them with one name, and have those
  -- of their paths behind them.
  pub register_custom-IsAllOrNothing :
      (ws : WebService T S) → IsAllOrNothing ws (register_custom g ws)
  unfolding register_custom
  register_custom-IsAllOrNothing ws = elim (Result-cases (prepare g)) [
    | inr (x, e) ↦ from_equal ws (register_custom g ws) (some x, ws) (ground (arith, e)) refl
    | inl (p, e) ↦ elim (Result-cases (prepare_extra g)) [
      | inr (x, f) ↦ from_equal ws (register_custom g ws) (some x, ws) (ground (arith, e, f)) refl
      | inl (extra, f) ↦
          from_equal ws (register_custom g ws) (add_custom_routes g p extra ws)
            (ground (arith, e, f)) (add_custom_routes-IsAllOrNothing p extra ws (prepare-kind p e))
    ]
  ]

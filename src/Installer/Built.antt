-- ===== src/Installer/Built.antt =====
-- The parameters that one route is built with.
use storage_metrics_server.Base.{
  ◌≡◌, refl, sym, ◌∙◌, ap, subst, inl, inr, none, some, List, [], ◌∷◌, ◌++◌, append-nil,
  append_assoc, Result, ok, err, ◌>>=◌, Result-cases, arith,
}
use storage_metrics_server.Api.{Error}
use storage_metrics_server.Installer.{Parameter, Route, WebService, Group}
use storage_metrics_server.Installer.Params.{add_fields, add_object_params, add_params}
use storage_metrics_server.Installer.Params.Named.{HasUniqueNames, add_fields-HasUniqueNames}
use storage_metrics_server.Installer.Prepared.{add_objects, add_route}

-- The route with the query parameters `queries` and those of its path behind them.
abbrev pub with_params : {T S : Type 0} → Route T S → List Parameter → List Parameter → Route T S
with_params r queries paths = record r { parameters = queries ++ paths }

abbrev pub with_routes : {T S : Type 0} → WebService T S → List (Route T S) → WebService T S
with_routes ws routes = record ws { routes = ws.routes ++ routes }

add_params-append :
    {T S : Type 0} (ps : List Parameter) (r : Route T S)
    → add_params r ps ≡ record r { parameters = r.parameters ++ ps }
unfolding add_params
add_params-append [] r = ap (λ l. record r { parameters = l }) (sym (append-nil r.parameters))
add_params-append (p ∷ ps) r =
    add_params-append ps (record r { parameters = r.parameters ++ p ∷ [] })
    ∙ ap (λ l. record r { parameters = l }) (append_assoc r.parameters (p ∷ []) ps)

module _ {Object T S : Type 0} (g : Group Object T S) where
  -- The parameters alone: the objects' fields do not depend on the route.
  pub params_of : List Object → List Parameter → Result Error (List Parameter)
  params_of [] ps = ok ps
  params_of (o ∷ os) ps = do
    fields ← g.fields o
    params_of os (elim fields [ none ↦ ps | some all ↦ add_fields (g.swagger_doc o) all all ps ])

  pub params_of-HasUniqueNames :
      (os : List Object) (ps qs : List Parameter)
      → HasUniqueNames ps
      → params_of os ps ≡ ok qs
      → HasUniqueNames qs
  unfolding params_of
  params_of-HasUniqueNames [] ps qs h e = subst HasUniqueNames (same e) h
    where
      same : ◌≡◌ {A = Result Error (List Parameter)} (ok ps) (ok qs) → ps ≡ qs
      same e = ground arith
  params_of-HasUniqueNames (o ∷ os) ps qs h e = elim (Result-cases (g.fields o)) [
    | inr (x, f) ↦ absurd (err-ne-ok {x = x} (ground (arith, e, f)))
    | inl (none, f) ↦ params_of-HasUniqueNames os ps qs h (ground (arith, e, f))
    | inl (some all, f) ↦
        params_of-HasUniqueNames os (add_fields (g.swagger_doc o) all all ps) qs
          (add_fields-HasUniqueNames (g.swagger_doc o) all all ps h) (ground (arith, e, f))
  ]
    where
      err-ne-ok : {x : Error} → ◌≡◌ {A = Result Error (List Parameter)} (err x) (ok qs) → ⊥
      err-ne-ok e = cc

  add_objects-params :
      (os : List Object) (r : Route T S)
      → add_objects g os r ≡ (params_of os r.parameters >>= λ ps. ok (record r { parameters = ps }))
  unfolding params_of add_objects add_object_params
  add_objects-params [] r = refl
  add_objects-params (o ∷ os) r = elim (Result-cases (g.fields o)) [
    | inr (x, f) ↦ ground (arith, f)
    | inl (none, f) ↦ ground (arith, f, add_objects-params os r)
    | inl (some all, f) ↦ ground (
      arith,
      f,
      add_objects-params os
          (record r { parameters = add_fields (g.swagger_doc o) all all r.parameters }),
    )
  ]

  pub add_route-ok :
      (os : List Object) (paths qs : List Parameter) (r : Route T S) (ws : WebService T S)
      → params_of os r.parameters ≡ ok qs
      → add_route g os paths r ws ≡ (none, with_routes ws (with_params r qs paths ∷ []))
  unfolding add_route
  add_route-ok os paths qs r ws e =
      ground
        (arith, e, add_objects-params os r, add_params-append paths (record r { parameters = qs }))

  pub add_route-err :
      (os : List Object) (paths : List Parameter) (r : Route T S) (ws : WebService T S) (x : Error)
      → params_of os r.parameters ≡ err x
      → add_route g os paths r ws ≡ (some x, ws)
  unfolding add_route
  add_route-err os paths r ws x e = ground (arith, e, add_objects-params os r)

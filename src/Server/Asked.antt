-- ===== src/Server/Asked.antt =====
-- Which provider the routes of the custom metrics ask (restfulListResourceWithOptions of
-- pkg/apiserver/installer/installer.go, over the routes that pkg/apiserver installs).
use storage_metrics_server.Base.{
  ◌≡◌, refl, sym, ap, ◌∙◌, subst, inl, inr, some, List, [], ◌∷◌, map, All, Among,
}
use storage_metrics_server.Api.{CustomMetricsProvider}
use storage_metrics_server.Registry.External.{ExternalMetricsProvider}
use storage_metrics_server.Registry.{Selectors, list_values}
use storage_metrics_server.Handler.{Scope, Request, Response, list_resource_with_options}
use storage_metrics_server.Installer.{
  GroupVersion, Rest, custom_rest, external_rest, Route, Libraries, WebService, ApiGroup, Service,
  version_service, group_service, new_web_service,
}
use storage_metrics_server.Installer.Custom.{register_custom}
use storage_metrics_server.Installer.Atomic.{HasCustomRoutes}
use storage_metrics_server.Server.{Scheme, cm_api}
use storage_metrics_server.Server.Versions.{service_of}
use storage_metrics_server.Server.Installed.{custom_services, AreRouted}

-- What a route answers in the memory `m`: the handler over the route's storage. That of the external
-- metrics is the library's, `list_resource`.
unfoldable pub route_answer :
    {T S F : Type 0}
    → (ExternalMetricsProvider S → Request → Response)
    → Selectors S F
    → Scope S F
    → Route T S
    → T
    → Request
    → Response
route_answer list_resource sel scope r m req = elim (r.storage m) [
  | custom_rest p ↦ list_resource_with_options sel scope (list_values sel p) req
  | external_rest p ↦ list_resource p req
]

module _ (libraries : Libraries) {Object T S : Type 0} (s : Scheme Object)
    (p : T → CustomMetricsProvider S) where
  -- The route asks the provider `p`.
  abbrev pub Asks : Route T S → Type 0
  Asks r = r.storage ≡ λ m. custom_rest (p m)

  abbrev HasRoutes : GroupVersion → Type 0
  HasRoutes v =
      let ws = new_web_service libraries (cm_api s p v) in
      HasCustomRoutes (cm_api s p v) ws (register_custom (cm_api s p v) ws).1

  abbrev of_version : GroupVersion → Service T S
  of_version v = service_of libraries register_custom (cm_api s p v)

  one_of_three :
      (a b c r : Route T S) → Asks a → Asks b → Asks c → Among r (a ∷ b ∷ c ∷ []) → Asks r
  one_of_three a b c r f g h (inl e) = subst Asks e f
  one_of_three a b c r f g h (inr (inl e)) = subst Asks e g
  one_of_three a b c r f g h (inr (inr (inl e))) = subst Asks e h
  one_of_three a b c r f g h (inr (inr (inr x))) = absurd x

  version-Asks :
      (v : GroupVersion) (ws : WebService T S) (r : Route T S)
      → HasRoutes v
      → of_version v ≡ version_service ws
      → Among r ws.routes
      → Asks r
  unfolding new_web_service cm_api
  version-Asks v ws r h e a = one_of_three _ _ _ r refl refl refl (
      subst (Among r)
        (ap (λ (z : WebService T S). z.routes) (sym (opened e))
          ∙ ap (λ (z : WebService T S). z.routes) h.routes)
        a)
    where
      opened :
          {a b : WebService T S}
          → ◌≡◌ {A = Service T S} (version_service a) (version_service b)
          → a ≡ b
      opened e = cc

  group-apart : (g : ApiGroup) (ws : WebService T S) → group_service g ≡ version_service ws → ⊥
  group-apart g ws e = cc

  versions-Ask :
      (vs : List GroupVersion) (ws : WebService T S) (r : Route T S)
      → All HasRoutes vs
      → Among (version_service ws) (map of_version vs)
      → Among r ws.routes
      → Asks r
  versions-Ask [] ws r h m a = absurd m
  versions-Ask (v ∷ vs) ws r h (inl e) a = version-Asks v ws r h.0 e a
  versions-Ask (v ∷ vs) ws r h (inr m) a = versions-Ask vs ws r h.1 m a

  -- Every route of the services that a provider's API adds asks that provider.
  pub custom_services-Asks :
      (ws : WebService T S) (r : Route T S)
      → AreRouted libraries s (some p)
      → Among (version_service ws) (custom_services libraries s (some p))
      → Among r ws.routes
      → Asks r
  custom_services-Asks ws r h (inl e) a = version-Asks s.first_version ws r h.0 e a
  custom_services-Asks ws r h (inr (inl e)) a = absurd (group-apart _ ws e)
  custom_services-Asks ws r h (inr (inr m)) a = versions-Ask s.more_versions ws r h.1 m a

  pub route_answer-Asks :
      {F : Type 0} (list_resource : ExternalMetricsProvider S → Request → Response)
      (sel : Selectors S F) (scope : Scope S F) (r : Route T S) (m : T) (req : Request)
      → Asks r
      → route_answer list_resource sel scope r m req
        ≡ list_resource_with_options sel scope (list_values sel (p m)) req
  unfolding route_answer
  route_answer-Asks list_resource sel scope r m req e = ap (λ z. answer (z m)) e
    where
      answer : Rest S → Response
      answer (custom_rest q) = list_resource_with_options sel scope (list_values sel q) req
      answer (external_rest q) = list_resource q req

-- ===== src/Server/Installed.antt =====
-- Which services a new server has.
use storage_metrics_server.Base.{
  ◌≡◌, ◌∙◌, ap, inl, inr, Option, none, some, List, [], ◌∷◌, ◌++◌, append-nil, append_assoc, map,
  All, Result, ok, err, Option-cases, bind-ok, arith,
}
use storage_metrics_server.Api.{Error, CustomMetricsProvider}
use storage_metrics_server.Api.Lister.{list_api_resources}
use storage_metrics_server.Registry.External.{ExternalMetricsProvider}
use storage_metrics_server.Installer.{
  custom_rest, GroupVersion, Group, Libraries, WebService, ApiGroup, Service, group_service,
  new_web_service,
}
use storage_metrics_server.Installer.Custom.{register_custom}
use storage_metrics_server.Installer.External.{register_external}
use storage_metrics_server.Installer.Atomic.{
  HasCustomRoutes, IsAllOrNothing, register_custom-IsAllOrNothing,
}
use storage_metrics_server.Server.{
  Scheme, GenericServer, prioritized_versions, api_group, cm_api, em_api, when_given,
  install_versions, install_custom_metrics_api, install_external_metrics_api, new_server,
}
use storage_metrics_server.Server.Versions.{
  some-ne-none, service_of, Registers, every_version, one_version,
}

abbrev pub groups_of : {Object P : Type 0} → Scheme Object → Option P → List ApiGroup
groups_of s none = []
groups_of s (some p) = api_group s.first_version ∷ []

module _ (libraries : Libraries) {Object T S : Type 0} where
  routed :
      (g : Group Object T S) (ws : WebService T S) (out : Option Error × WebService T S)
      → IsAllOrNothing g ws out
      → out.0 ≡ none
      → HasCustomRoutes g ws out.1
  routed g ws (some x, left) h e = absurd (some-ne-none x e)
  routed g ws (none, left) h e = h

  every_routed :
      (to : GroupVersion → Group Object T S) (vs : List GroupVersion)
      → All (λ v. Registers libraries register_custom (to v)) vs
      → All
          (λ v.
            let ws = new_web_service libraries (to v) in
            HasCustomRoutes (to v) ws (register_custom (to v) ws).1)
          vs
  every_routed to [] h = tt
  every_routed to (v ∷ vs) h =
      let ws = new_web_service libraries (to v) in
      (
        routed (to v) ws (register_custom (to v) ws) (register_custom-IsAllOrNothing (to v) ws) h.0,
        every_routed to vs h.1,
      )

  -- The services and the groups that a provider's API adds, none for a nil provider.
  abbrev pub custom_services :
      Scheme Object → Option (T → CustomMetricsProvider S) → List (Service T S)
  custom_services s none = []
  custom_services s (some p) =
      service_of libraries register_custom (cm_api s p s.first_version)
      ∷ group_service (api_group s.first_version)
      ∷ map (λ v. service_of libraries register_custom (cm_api s p v)) s.more_versions

  abbrev pub external_services :
      Scheme Object → Option (T → ExternalMetricsProvider S) → List (Service T S)
  external_services s none = []
  external_services s (some p) =
      service_of libraries register_external (em_api s p s.first_version)
      ∷ group_service (api_group s.first_version)
      ∷ []

  -- Every version of the custom metrics has its three routes.
  abbrev pub AreRouted : Scheme Object → Option (T → CustomMetricsProvider S) → Type 0
  AreRouted s none = Unit
  AreRouted s (some p) =
      All
        (λ v.
          let ws = new_web_service libraries (cm_api s p v) in
          HasCustomRoutes (cm_api s p v) ws (register_custom (cm_api s p v) ws).1)
        (prioritized_versions s)

  -- What the custom metrics add to the server `a`.
  custom_added :
      (s : Scheme Object) (p : Option (T → CustomMetricsProvider S)) (a b : GenericServer T S)
      → when_given (install_custom_metrics_api libraries s) p a ≡ ok b
      → AreRouted s p
        × (b.container.services ≡ a.container.services ++ custom_services s p)
        × (b.discovery_groups ≡ a.discovery_groups ++ groups_of s p)
  unfolding when_given install_custom_metrics_api cm_api
  custom_added s none a b e = (
    tt,
    ground (arith, e, append-nil a.container.services),
    ground (arith, e, append-nil a.discovery_groups),
  )
  custom_added s (some p) a b e =
      let api = cm_api s p in
      elim (Option-cases (install_versions libraries api 0 (prioritized_versions s) a).0) [
        | inr (x, f) ↦ absurd (err-ne-ok {x = x} (ground (arith, e, f)))
        | inl f ↦
            let (r, h) =
              every_version libraries s (λ m. custom_rest (p m)) (λ m. list_api_resources (p m)) a
                f in
            (
              every_routed api (prioritized_versions s) r,
              ground (arith, e, f, h),
              ground (arith, e, f, h),
            )
      ]
    where
      err-ne-ok : {x : Error} → ◌≡◌ {A = Result Error (GenericServer T S)} (err x) (ok b) → ⊥
      err-ne-ok e = cc

  external_added :
      (s : Scheme Object) (p : Option (T → ExternalMetricsProvider S)) (a b : GenericServer T S)
      → when_given (install_external_metrics_api libraries s) p a ≡ ok b
      → (b.container.services ≡ a.container.services ++ external_services s p)
        × (b.discovery_groups ≡ a.discovery_groups ++ groups_of s p)
  unfolding when_given
  external_added s none a b e = (
    ground (arith, e, append-nil a.container.services),
    ground (arith, e, append-nil a.discovery_groups),
  )
  external_added s (some p) a b e =
      elim (Option-cases (install_external_metrics_api libraries s p a).0) [
        | inr (x, f) ↦ absurd (err-ne-ok {x = x} (ground (arith, e, f)))
        | inl f ↦
            let (r, h) = one_version libraries s p a f in
            let v = s.first_version in
            (
              ground (
                arith,
                e,
                f,
                h,
                append_assoc a.container.services
                    (service_of libraries register_external (em_api s p v) ∷ [])
                    (group_service (api_group v) ∷ []),
              ),
              ground (arith, e, f, h),
            )
      ]
    where
      err-ne-ok : {x : Error} → ◌≡◌ {A = Result Error (GenericServer T S)} (err x) (ok b) → ⊥
      err-ne-ok e = cc

  -- What a new server has beyond the generic one.
  pub record IsInstalled (custom external : Scheme Object) (generic : GenericServer T S)
      (cm : Option (T → CustomMetricsProvider S)) (em : Option (T → ExternalMetricsProvider S))
      (server : GenericServer T S) : Type 0 where
    pub services :
        server.container.services
        ≡ generic.container.services ++ custom_services custom cm ++ external_services external em
    pub groups :
        server.discovery_groups
        ≡ generic.discovery_groups ++ groups_of custom cm ++ groups_of external em
    pub routed : AreRouted custom cm

  -- A server that `New` returns has, beyond the generic server, exactly the APIs whose providers
  -- are not nil: the custom metrics in each of their versions, with all three routes, and the
  -- external metrics in their first; the group of each is in the discovery once, with its first
  -- version.
  pub new_server-IsInstalled :
      (custom external : Scheme Object) (generic server : GenericServer T S)
      (cm : Option (T → CustomMetricsProvider S)) (em : Option (T → ExternalMetricsProvider S))
      → new_server libraries custom external (ok generic) cm em ≡ ok server
      → IsInstalled custom external generic cm em server
  unfolding new_server
  new_server-IsInstalled custom external generic server cm em e =
      let (middle, f, g) =
        bind-ok (when_given (install_custom_metrics_api libraries custom) cm generic) _ server e in
      let (r, cs, cg) = custom_added custom cm generic middle f in
      let (es, eg) = external_added external em middle server g in
      record {
        services = es ∙ ap (λ l. l ++ external_services external em) cs;
        groups = eg ∙ ap (λ l. l ++ groups_of external em) cg;
        routed = r;
      }

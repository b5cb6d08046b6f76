-- ===== src/Server/Versions.antt =====
-- The loop over the versions of a group, and the one version of the external metrics.
use storage_metrics_server.Base.{
  ℕ, suc, ◌≡◌, refl, sym, ◌∙◌, ap, inl, inr, none, some, List, [], ◌∷◌, ◌++◌, append-nil,
  append_assoc, map, All, Option-cases, arith,
}
use storage_metrics_server.Api.{Error, formatted}
use storage_metrics_server.Api.Lister.{ApiResource}
use storage_metrics_server.Registry.External.{ExternalMetricsProvider}
use storage_metrics_server.Installer.{
  Rest, GroupVersion, Group, Libraries, Service, version_service, group_service, Container,
  ApiHandlers, new_web_service, install, install_rest,
}
use storage_metrics_server.Installer.Custom.{register_custom}
use storage_metrics_server.Installer.External.{register_external}
use storage_metrics_server.Server.{
  Scheme, GenericServer, prioritized_versions, api_group, api_of, em_api, add_group,
  install_versions, install_external_metrics_api,
}

-- The server with more services.
abbrev pub with_services :
    {T S : Type 0} → GenericServer T S → List (Service T S) → GenericServer T S
with_services s services = record s {
  container = record { services = s.container.services ++ services };
}

pub some-ne-none : (x : Error) → some x ≡ none → ⊥
some-ne-none x e = cc

module _ (libraries : Libraries) {Object T S : Type 0} where
  -- The web service of a version whose handlers have run.
  abbrev pub service_of : ApiHandlers Object T S → Group Object T S → Service T S
  service_of handlers g =
      version_service
        (record ((handlers g (new_web_service libraries g)).1) { discovery = g.resource_lister })

  -- The handlers register without an error.
  abbrev pub Registers : ApiHandlers Object T S → Group Object T S → Type 0
  Registers handlers g = (handlers g (new_web_service libraries g)).0 ≡ none

  -- A group version that has a lister is installed exactly if its handlers register.
  install_rest-none :
      (handlers : ApiHandlers Object T S) (g : Group Object T S) (l : T → List ApiResource)
      (c : Container T S)
      → g.resource_lister ≡ some l
      → (install_rest libraries handlers g c).0 ≡ none
      → Registers handlers g
        × (install_rest libraries handlers g c
            ≡ (none, record { services = c.services ++ service_of handlers g ∷ [] }))
  unfolding install_rest install
  install_rest-none handlers g l c h e =
      elim (Option-cases (handlers g (new_web_service libraries g)).0) [
        | inl f ↦ (f, ground (arith, f, h, libraries.aggregate_nil))
        | inr (x, f) ↦ absurd (
            libraries.aggregate_cons
              (formatted "error in registering custom metrics resource: %v" x) []
              (ground (arith, e, f, h)))
      ]

  module _ (s : Scheme Object) (storage : T → Rest S) (resources : T → List ApiResource) where
    abbrev pub api : GroupVersion → Group Object T S
    api = api_of s storage resources

    abbrev pub of_version : GroupVersion → Service T S
    of_version v = service_of register_custom (api v)

    later_versions :
        (i : ℕ) (vs : List GroupVersion) (server : GenericServer T S)
        → (install_versions libraries api (suc i) vs server).0 ≡ none
        → All (λ v. Registers register_custom (api v)) vs
          × (install_versions libraries api (suc i) vs server
              ≡ (none, with_services server (map of_version vs)))
    unfolding install_versions
    later_versions i [] server e = (
      tt,
      ap (λ l. (none, record server { container = record { services = l } }))
          (sym (append-nil server.container.services)),
    )
    later_versions i (v ∷ vs) server e =
        elim (Option-cases (install_rest libraries register_custom (api v) server.container).0) [
          | inr (x, f) ↦ absurd (some-ne-none x (ground (arith, e, f)))
          | inl f ↦
              let (r, g) =
                install_rest-none register_custom (api v) resources server.container refl f in
              let next = with_services server (of_version v ∷ []) in
              let step : install_versions libraries api (suc i) (v ∷ vs) server
                  ≡ install_versions libraries api (suc (suc i)) vs next =
                ground (arith, f, g) in
              let (a, h) = later_versions (suc i) vs next (ap (λ x. x.0) (sym step) ∙ e) in
              (
                (r, a),
                step
                    ∙ h
                    ∙ ap (λ l. (none, record server { container = record { services = l } }))
                        (append_assoc server.container.services (of_version v ∷ [])
                          (map of_version vs)),
              )
        ]

    pub every_version :
        (server : GenericServer T S)
        → (install_versions libraries api 0 (prioritized_versions s) server).0 ≡ none
        → All (λ v. Registers register_custom (api v)) (prioritized_versions s)
          × (install_versions libraries api 0 (prioritized_versions s) server ≡ (
            none,
            record {
              container = record {
                services =
                    server.container.services
                    ++ of_version s.first_version
                      ∷ group_service (api_group s.first_version)
                      ∷ map of_version s.more_versions;
              };
              discovery_groups = server.discovery_groups ++ api_group s.first_version ∷ [];
            },
          ))
    unfolding install_versions
    every_version server e =
        let v = s.first_version in
        let vs = s.more_versions in
        elim (Option-cases (install_rest libraries register_custom (api v) server.container).0) [
          | inr (x, f) ↦ absurd (some-ne-none x (ground (arith, e, f)))
          | inl f ↦
              let (r, g) =
                install_rest-none register_custom (api v) resources server.container refl f in
              let group = api_group v in
              let next = add_group group (with_services server (of_version v ∷ [])) in
              let step : install_versions libraries api 0 (prioritized_versions s) server
                  ≡ install_versions libraries api 1 vs next =
                ground (arith, f, g) in
              let (a, h) = later_versions 0 vs next (ap (λ x. x.0) (sym step) ∙ e) in
              (
                (r, a),
                step
                    ∙ h
                    ∙ ap
                        (λ l. (
                          none,
                          record {
                            container = record { services = l };
                            discovery_groups = server.discovery_groups ++ group ∷ [];
                          },
                        ))
                        (append_assoc (server.container.services ++ of_version v ∷ [])
                            (group_service group ∷ []) (map of_version vs)
                          ∙ append_assoc server.container.services (of_version v ∷ [])
                              (group_service group ∷ map of_version vs)),
              )
        ]

  pub one_version :
      (s : Scheme Object) (p : T → ExternalMetricsProvider S) (server : GenericServer T S)
      → (install_external_metrics_api libraries s p server).0 ≡ none
      → Registers register_external (em_api s p s.first_version)
        × (install_external_metrics_api libraries s p server ≡ (
          none,
          add_group (api_group s.first_version) (
              with_services server
                (service_of register_external (em_api s p s.first_version) ∷ [])),
        ))
  unfolding install_external_metrics_api em_api
  one_version s p server e =
      let g = em_api s p s.first_version in
      elim (Option-cases (install_rest libraries register_external g server.container).0) [
        | inr (x, f) ↦ absurd (some-ne-none x (ground (arith, e, f)))
        | inl f ↦
            let (r, h) = install_rest-none register_external g _ server.container refl f in
            (r, ground (arith, f, h))
      ]

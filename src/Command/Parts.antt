-- ===== src/Command/Parts.antt =====
-- The steps of a start that came through (cmd/storage-metrics-server/main.go).
use storage_metrics_server.Base.{
  ◌≡◌, refl, sym, ap, ◌∙◌, subst, String, Option, List, [], ◌∷◌, Result, ok, err, map_err, bind-ok,
  map_err-ok,
}
use storage_metrics_server.Client.Fetch.{SummaryClient, new_for_config}
use storage_metrics_server.Scraper.{Labels}
use storage_metrics_server.Provider.{as_provider}
use storage_metrics_server.Options.{OptionError, validate, validate_storage, config}
use storage_metrics_server.Memory.{Heap, load}
use storage_metrics_server.Storage.{Storage}
use storage_metrics_server.Api.{CustomMetricsProvider}
use storage_metrics_server.Adapter.{Objects, Adapter, ClientConfig, with_custom_metrics}
use storage_metrics_server.Adapter.Clients.{client_config}
use storage_metrics_server.Adapter.Setup
use storage_metrics_server.Command.{
  Cluster, Wiring, Outcome, StorageAdapter, StartError, no_client, accepted, unless_error,
  when_synced, called, new_storage_adapter, define_flags, parse_flags, node_requirements, wire,
  run_adapter, run, main,
}

accepted-ok : (es : List OptionError) (u : Unit) → accepted es ≡ ok u → es ≡ []
accepted-ok [] u e = refl
accepted-ok (x ∷ es) u e = cc

called-ok :
    {t : Objects (Heap Storage)} {A : Type 0} (r : Result String A × Adapter t) (a : A)
    (b : Adapter t)
    → called r ≡ ok (a, b)
    → r ≡ (ok a, b)
called-ok (ok x, c) a b e = pair (ok_inj e)
  where
    ok_inj : {A : Type 0} {x y : A} → ◌≡◌ {A = Result StartError A} (ok x) (ok y) → x ≡ y
    ok_inj e = cc

    pair :
        {A : Type 0} {t : Objects (Heap Storage)} {x y : A} {b c : Adapter t}
        → ◌≡◌ {A = A × Adapter t} (x, b) (y, c)
        → ◌≡◌ {A = Result String A × Adapter t} (ok x, b) (ok y, c)
    pair e = ap (λ p. (ok p.0, p.1)) e
called-ok (err x, c) a b e = absurd (apart e)
  where
    apart : {A : Type 0} {x : StartError} {a : A} → err x ≡ ok a → ⊥
    apart e = cc

module _ {l : Labels} {t : Objects (Heap Storage)} (c : Cluster l t) where
  -- The provider of the wiring, which reads the store that its pointer leads to at the time.
  abbrev pub provider_of : Wiring l t.Selector → Heap Storage → CustomMetricsProvider t.Selector
  provider_of v heap = as_provider c.overflow (load v.provider heap)

  pub record Steps (w : Outcome l t) : Type 0 where
    pub parsed : StorageAdapter t
    pub read : parse_flags c (define_flags c (new_storage_adapter c)) ≡ ok parsed
    pub valid : validate parsed.kubelet_options ≡ []
    pub valid_storage : validate_storage parsed.scrape_options ≡ []
    pub the_config : ClientConfig t.C t.Qps
    pub base : Adapter t
    pub loaded : client_config t c.libraries parsed.base ≡ (ok the_config, base)
    pub kubelet_client : SummaryClient
    pub client :
        new_for_config c.transport_for (config parsed.kubelet_options (c.rest_config the_config))
        ≡ ok kubelet_client
    pub requirements : Option (List l.Requirement)
    pub wired :
        w.wiring ≡ wire c kubelet_client requirements parsed.kubelet_options parsed.scrape_options
    pub ran :
        Setup.run t c.libraries (with_custom_metrics t (provider_of w.wiring) base)
        ≡ (ok w.ended, w.base)

  adapter-parts :
      (v : Wiring l t.Selector) (b : Adapter t) (w : Outcome l t)
      → run_adapter c v b ≡ ok w
      → (w.wiring ≡ v)
        × (Setup.run t c.libraries (with_custom_metrics t (provider_of v) b) ≡ (ok w.ended, w.base))
  unfolding run_adapter
  adapter-parts v b w e =
      let (u, p, f) = bind-ok (unless_error c.register) _ w e in
      let (x, q, g) = bind-ok (when_synced c.caches_sync) _ w f in
      let (left, r, h) =
        bind-ok (called (Setup.run t c.libraries (with_custom_metrics t (provider_of v) b))) _ w
          g in
      let k : record { wiring = v; base = left.1; ended = left.0 } ≡ w = ok_inj h in
      (
        sym (ap (λ (z : Outcome l t). z.wiring) k),
        called-ok _ left.0 left.1 r ∙ ap (λ (z : Outcome l t). (ok z.ended, z.base)) k,
      )
    where
      ok_inj : {A : Type 0} {x y : A} → ◌≡◌ {A = Result StartError A} (ok x) (ok y) → x ≡ y
      ok_inj e = cc

  pub main-Steps : (w : Outcome l t) → main c ≡ ok w → Steps w
  unfolding main run
  main-Steps w e =
      let (a, p, f) = bind-ok (parse_flags c (define_flags c (new_storage_adapter c))) _ w e in
      let (u, q, g) = bind-ok (accepted (validate a.kubelet_options)) _ w f in
      let (x, r, h) = bind-ok (accepted (validate_storage a.scrape_options)) _ w g in
      let (left, s, i) = bind-ok (called (client_config t c.libraries a.base)) _ w h in
      let (y, d, j) = bind-ok (unless_error (c.kube_client left.0)) _ w i in
      let net = new_for_config c.transport_for (config a.kubelet_options (c.rest_config left.0)) in
      let (k, m, n) = bind-ok (map_err no_client net) _ w j in
      let (req, z, o) = bind-ok (node_requirements c a.kubelet_options) _ w n in
      let (wired, ran) =
        adapter-parts (wire c k req a.kubelet_options a.scrape_options) left.1 w o in
      record {
        parsed = a;
        read = p;
        valid = accepted-ok (validate a.kubelet_options) u q;
        valid_storage = accepted-ok (validate_storage a.scrape_options) x r;
        the_config = left.0;
        base = left.1;
        loaded = called-ok _ left.0 left.1 s;
        kubelet_client = k;
        client = map_err-ok no_client net k m;
        requirements = req;
        wired = wired;
        ran =
            subst
              (λ (v : Wiring l t.Selector).
                Setup.run t c.libraries (with_custom_metrics t (provider_of v) left.1)
                ≡ (ok w.ended, w.base))
              (sym wired) ran;
      }

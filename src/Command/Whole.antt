-- ===== src/Command/Whole.antt =====
-- The server of the command (cmd/storage-metrics-server/main.go) as pkg/cmd and pkg/apiserver put it
-- together.
use storage_metrics_server.Base.{
  ◌≡◌, refl, sym, ap, ◌∙◌, subst, String, Option, none, some, [], Result, ok,
}
use storage_metrics_server.CmdOptions.{validate_server, apply_to}
use storage_metrics_server.Memory.{Heap}
use storage_metrics_server.Storage.{Storage}
use storage_metrics_server.Server.{GenericServer}
use storage_metrics_server.Server.Installed.{IsInstalled}
use storage_metrics_server.Scraper.{Labels}
use storage_metrics_server.Adapter.{
  Objects, Adapter, ServerOptions, Config, ClientConfig, option_objects, with_custom_metrics,
}
use storage_metrics_server.Adapter.Setup.{init_flag_set, cement, server, run as run_base}
use storage_metrics_server.Adapter.Memo.{then-ok, pair-ok}
use storage_metrics_server.Adapter.Assembled.{server-IsAssembled}
use storage_metrics_server.Adapter.Untouched.{without_clients, client_config-without_clients}
use storage_metrics_server.Command.{
  Cluster, Outcome, StorageAdapter, new_storage_adapter, define_flags, parse_flags, main,
}
use storage_metrics_server.Command.Parts.{Steps, provider_of, main-Steps}
use storage_metrics_server.Command.Flagged.{
  Face, face, flagged_face, with_documents, install_flags-flagged, named, cemented, face-parsed,
}

module _ {l : Labels} {t : Objects (Heap Storage)} (c : Cluster l t) where
  -- The server that the outcome `w` has run.
  pub record IsServing (w : Outcome l t) : Type 0 where
    pub parsed : StorageAdapter t
    pub read : parse_flags c (define_flags c (new_storage_adapter c)) ≡ ok parsed
    pub options : ServerOptions t
    pub set : with_documents t parsed.base.options ≡ some options
    pub valid : validate_server (option_objects t) c.libraries.calls options ≡ []
    pub config : Config t
    pub client_config : Option (ClientConfig t.C t.Qps)
    pub informers : Option t.Informers
    pub left : ServerOptions t
    pub applied :
        apply_to
          (option_objects t)
          c.libraries.calls
          options
          (c.libraries.new_recommended_config client_config informers)
        ≡ (none, (left, config))
    pub generic : GenericServer (Heap Storage) t.Selector
    pub completed : c.libraries.complete config informers "storage-metrics-server" ≡ ok generic
    pub server : GenericServer (Heap Storage) t.Selector
    pub installed :
        IsInstalled c.libraries.install c.libraries.custom c.libraries.external generic
          (some (provider_of c w.wiring))
          none
          server
    pub ended : w.ended ≡ c.libraries.serve server
    pub kept : w.base.the_server ≡ some server

  -- The adapter that `run` asks for its server.
  asked-face :
      (w : Outcome l t) (p : Steps c w)
      → (face t p.base ≡ flagged_face t) × (p.base.options ≡ p.parsed.base.options)
  asked-face w p =
      let same =
        ap (λ (z : Result String (ClientConfig t.C t.Qps) × Adapter t). without_clients t z.1)
          (sym p.loaded)
        ∙ client_config-without_clients t c.libraries p.parsed.base in
      (ap (face t) same ∙ face-parsed c p.parsed p.read, ap (λ (b : Adapter t). b.options) same)

  -- A process that has run its server served, beyond the generic server that the libraries completed
  -- under the name storage-metrics-server, exactly the custom metrics of its storage provider, in every
  -- version with their three routes, and no external metrics. The configuration of that server is what
  -- ApplyTo made of the options that the arguments set, with the documents of the core and the custom
  -- metrics, which passed their checks; the adapter keeps the server, and the process ended as the server
  -- did.
  pub main-IsServing : (w : Outcome l t) → main c ≡ ok w → IsServing w
  unfolding run_base with_custom_metrics init_flag_set
  main-IsServing w e =
      let p = main-Steps c w e in
      let provider = provider_of c w.wiring in
      let b = with_custom_metrics t provider p.base in
      let (s, d, f, g) =
        then-ok t (server t c.libraries b) (λ s b. (ok (c.libraries.serve s), b)) w.ended w.base
          p.ran in
      let (h, o) = asked-face w p in
      let a =
        server-IsAssembled t c.libraries b s d (ap (λ (x : Face t). x.the_server) h)
          (ap (λ (x : Face t). x.the_config) h) f in
      let i = install_flags-flagged t c.libraries b (ap (λ (x : Face t). x.flags_installed) h) in
      let options =
        sym (cemented t provider (init_flag_set t c.libraries b) h refl)
        ∙ ap (λ z. (cement t z).options) (sym i)
        ∙ a.set in
      record {
        parsed = p.parsed;
        read = p.read;
        options = a.options;
        set = ap (with_documents t) (sym o) ∙ options;
        valid = a.made.valid;
        config = a.config;
        client_config = a.made.informed.the_client_config;
        informers = a.made.informed.the_informers;
        left = a.made.left;
        applied = a.made.applied;
        generic = a.generic;
        completed =
            subst (λ x. c.libraries.complete a.config x "storage-metrics-server" ≡ ok a.generic)
              (ap (λ (z : Adapter t). z.the_informers) a.made.kept)
              (subst
                (λ x. c.libraries.complete a.config a.configured.the_informers x ≡ ok a.generic)
                (named t p.base.name (ap (λ (x : Face t). x.name) h)) a.completed);
        server = s;
        installed =
            subst
              (λ x.
                IsInstalled c.libraries.install c.libraries.custom c.libraries.external a.generic
                  (some provider) x s)
              (ap (λ (x : Face t). x.em_provider) h) a.installed;
        ended = sym (pair-ok t g).0;
        kept =
            ap (λ (z : Adapter t). z.the_server) (sym (pair-ok t g).1)
            ∙ ap (λ (z : Adapter t). z.the_server) a.kept;
      }

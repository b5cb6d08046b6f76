-- ===== src/Command/Flagged.antt =====
-- The adapter of the command (cmd/storage-metrics-server/main.go) once its flags are parsed.
use storage_metrics_server.Base.{
  ◌≡◌, refl, sym, ap, if◌then◌else◌, ◌==◌, string_eq, ◌∙◌, subst, true, String, Bool, Option, none,
  some, [], ◌∷◌, Result, ok, map_err, bind-ok,
}
use storage_metrics_server.Api.{CustomMetricsProvider}
use storage_metrics_server.Registry.External.{ExternalMetricsProvider}
use storage_metrics_server.Memory.{Heap}
use storage_metrics_server.Storage.{Storage}
use storage_metrics_server.Server.{GenericServer}
use storage_metrics_server.Scraper.{Labels}
use storage_metrics_server.Adapter.{
  Objects, Libraries, Adapter, ServerOptions, Config, OpenApiConfig, core_definitions,
  custom_metrics_definitions, new_adapter, ◌then◌,
}
use storage_metrics_server.Adapter.Setup.{
  given, install_flags, init_flag_set, define_flags as define_adapter_flags, get_flags, cement,
  default_open_api_config, get_api_definitions,
}
use storage_metrics_server.Command.{
  Cluster, StorageAdapter, new_storage_adapter, define_flags, parse_flags, set_variables,
  variables_of, StartError, unable_to_parse,
}

-- The document of the command's server.
abbrev pub document : OpenApiConfig
document = record {
  title = "storage-metrics-server";
  version = "1.0.0";
  definitions = core_definitions ∷ custom_metrics_definitions ∷ [];
}

-- What the server is made of besides the options and the provider.
pub record Face (t : Objects (Heap Storage)) : Type 0 where
  pub name : String
  pub the_config : Option (Config t)
  pub the_server : Option (GenericServer (Heap Storage) t.Selector)
  pub em_provider : Option (Heap Storage → ExternalMetricsProvider t.Selector)
  pub open_api_config : Option OpenApiConfig
  pub open_api_v3_config : Option OpenApiConfig
  pub flags_installed : Bool

module _ (t : Objects (Heap Storage)) where
  abbrev pub face : Adapter t → Face t
  face b = record {
    name = b.name;
    the_config = b.the_config;
    the_server = b.the_server;
    em_provider = b.em_provider;
    open_api_config = b.open_api_config;
    open_api_v3_config = b.open_api_v3_config;
    flags_installed = b.flags_installed;
  }

  abbrev pub flagged_face : Face t
  flagged_face = record {
    name = "storage-metrics-server";
    the_config = none;
    the_server = none;
    em_provider = none;
    open_api_config = none;
    open_api_v3_config = none;
    flags_installed = true;
  }

  abbrev pub with_documents : Option (ServerOptions t) → Option (ServerOptions t)
  with_documents none = none
  with_documents (some o) =
      some (record o { open_api_config = some document; open_api_v3_config = some document })

  -- `Config` does not install the flags again.
  pub install_flags-flagged :
      (l : Libraries t) (b : Adapter t)
      → b.flags_installed ≡ true
      → install_flags t l b ≡ init_flag_set t l b
  unfolding install_flags init_flag_set
  install_flags-flagged l b e = rw (e)

  documented :
      (p : Heap Storage → CustomMetricsProvider t.Selector) (b : Adapter t)
      → b.name ≡ "storage-metrics-server"
      → b.cm_provider ≡ some p
      → b.em_provider ≡ none
      → default_open_api_config t b ≡ document
  unfolding default_open_api_config get_api_definitions
  documented p b n f m = rw (n, f, m)

  pub named :
      (name : String)
      → name ≡ "storage-metrics-server"
      → (if name == "" then "custom-metrics-adapter" else name) ≡ "storage-metrics-server"
  named name e =
      subst (λ x. (if x == "" then "custom-metrics-adapter" else x) ≡ "storage-metrics-server")
        (sym e) refl

  set_documents :
      (c d : OpenApiConfig) (o : Option (ServerOptions t))
      → c ≡ document
      → d ≡ document
      → elim o [
        | none ↦ none
        | some o ↦ some (record o { open_api_config = some c; open_api_v3_config = some d })
      ]
        ≡ with_documents o
  set_documents c d none e f = refl
  set_documents c d (some o) e f = rw (e, f)

  given-none : (o : Option OpenApiConfig) (d : OpenApiConfig) → o ≡ none → given t o d ≡ d
  given-none o d e = rw (e)

  pub cemented :
      (p : Heap Storage → CustomMetricsProvider t.Selector) (b : Adapter t)
      → face b ≡ flagged_face
      → b.cm_provider ≡ some p
      → (cement t b).options ≡ with_documents b.options
  unfolding cement
  cemented p b e f =
      let n = named b.name (ap (λ (x : Face t). x.name) e) in
      let m = ap (λ (x : Face t). x.em_provider) e in
      let d =
        documented p (record b { name = if b.name == "" then "custom-metrics-adapter" else b.name })
          n f m in
      set_documents _ _ b.options
        (given-none b.open_api_config _ (ap (λ (x : Face t). x.open_api_config) e) ∙ d)
        (given-none b.open_api_v3_config _ (ap (λ (x : Face t). x.open_api_v3_config) e) ∙ d)

module _ {l : Labels} {t : Objects (Heap Storage)} (c : Cluster l t) where
  pub face-parsed :
      (a : StorageAdapter t)
      → parse_flags c (define_flags c (new_storage_adapter c)) ≡ ok a
      → face t a.base ≡ flagged_face t
  unfolding parse_flags define_flags new_storage_adapter new_adapter get_flags install_flags
      init_flag_set define_adapter_flags
  face-parsed a e =
      let flagged : StorageAdapter t = record (define_flags c (new_storage_adapter c)) {
        base = (get_flags t c.libraries (define_flags c (new_storage_adapter c)).base).1;
      } in
      let fs = (get_flags t c.libraries (define_flags c (new_storage_adapter c)).base).0 in
      let (v, p, q) =
        bind-ok (map_err unable_to_parse (c.parse fs (variables_of c flagged)))
          (λ v. ok (set_variables c v flagged)) a e in
      ap (λ (x : StorageAdapter t). face t x.base) (sym (ok_inj q))
    where
      ok_inj : {A : Type 0} {x y : A} → ◌≡◌ {A = Result StartError A} (ok x) (ok y) → x ≡ y
      ok_inj e = cc

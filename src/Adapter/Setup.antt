-- ===== src/Adapter/Setup.antt =====
-- The flags of `AdapterBase` (pkg/cmd/builder.go), and the getters of its server configuration and its
-- server, with `Run`.
use storage_metrics_server.Base.{
  String, true, Option, none, some, List, [], ◌∷◌, ◌++◌, ◌==◌, string_eq, if◌then◌else◌, Result, ok,
  err, map_err,
}
use storage_metrics_server.Flags.{FlagSet}
use storage_metrics_server.CmdOptions.{
  new_server_options, add_server_flags, validate_server, apply_to,
}
use storage_metrics_server.Server.{GenericServer, new_server}
use storage_metrics_server.Adapter.{
  Objects, Libraries, Adapter, ServerOptions, Config, OpenApiConfig, Definitions, core_definitions,
  custom_metrics_definitions, external_metrics_definitions, option_objects, Call, once, made,
  ◌then◌,
}
use storage_metrics_server.Adapter.Clients.{informers}

-- The flags that `InstallFlags` defines itself.
abbrev pub adapter_flags : FlagSet
adapter_flags =
    ("lister-kubeconfig", "")
    ∷ ("discovery-interval", "")
    ∷ ("client-qps", "")
    ∷ ("client-burst", "")
    ∷ []

module _ {T : Type 0} (t : Objects T) where
  unfoldable pub get_api_definitions : Adapter t → List Definitions
  get_api_definitions b = core_definitions ∷ elim b.cm_provider [
    | none ↦ elim b.em_provider [ none ↦ [] | some e ↦ external_metrics_definitions ∷ [] ]
    | some c ↦
        custom_metrics_definitions
        ∷ elim b.em_provider [ none ↦ [] | some e ↦ external_metrics_definitions ∷ [] ]
  ]

  unfoldable pub default_open_api_config : Adapter t → OpenApiConfig
  unfolding get_api_definitions
  default_open_api_config b = record {
    title = b.name;
    version = "1.0.0";
    definitions = get_api_definitions b;
  }

  abbrev pub given : {A : Type 0} → Option A → A → A
  given none fresh = fresh
  given (some a) fresh = a

  -- `Config` from the name to the checks: the default name, and the documents unless they are set.
  unfoldable pub cement : Adapter t → Adapter t
  unfolding default_open_api_config
  cement b =
      let named : Adapter t = record b {
        name = if b.name == "" then "custom-metrics-adapter" else b.name;
      } in
      let v2 = given named.open_api_config (default_open_api_config named) in
      let v3 = given named.open_api_v3_config (default_open_api_config named) in
      record named {
        open_api_config = some v2;
        open_api_v3_config = some v3;
        options = elim named.options [
          | none ↦ none
          | some o ↦ some (record o { open_api_config = some v2; open_api_v3_config = some v3 })
        ];
      }

  -- The checks of the options, before anything is made.
  abbrev pub checked :
      {A : Type 0}
      → List String
      → String
      → Adapter t
      → Result String A × Adapter t
      → Result String A × Adapter t
  checked [] text b next = next
  checked (e ∷ errs) text b next = (err text, b)

  -- What `ApplyTo` leaves: its options are those of the adapter.
  abbrev pub applied : Option String × (ServerOptions t × Config t) → Call t (Config t)
  applied (some e, (o, c)) b = (err e, record b { options = some o })
  applied (none, (o, c)) b = (ok c, record b { options = some o; the_config = some c })

  -- The options of the adapter, nil before the flags are installed.
  abbrev pub with_options : {A : Type 0} → (ServerOptions t → Call t A) → Call t A
  with_options f b = elim b.options [ none ↦ (err "nil pointer dereference", b) | some o ↦ f o b ]

  module _ (l : Libraries t) where
    unfoldable pub init_flag_set : Adapter t → Adapter t
    init_flag_set b = record b { flag_set = some (given b.flag_set l.command_line) }

    -- The function that `flagOnce` runs. A flag sets its variable to the default that it is given.
    unfoldable pub define_flags : Adapter t → Adapter t
    unfolding add_server_flags
    define_flags b =
        let o = given b.options (new_server_options (option_objects t) l.calls) in
        let fs = given b.flag_set l.command_line in
        record b {
          options = some o;
          flag_set = some (add_server_flags (option_objects t) l.calls o fs ++ adapter_flags);
          client_qps = l.default_qps;
          client_burst = l.default_burst;
          flags_installed = true;
        }

    unfoldable pub install_flags : Adapter t → Adapter t
    unfolding init_flag_set define_flags
    install_flags b =
        let set = init_flag_set b in if set.flags_installed then set else define_flags set

    -- `Flags`: the set, and the adapter that is left.
    unfoldable pub get_flags : Adapter t → FlagSet × Adapter t
    unfolding install_flags
    get_flags b =
        let left = install_flags (init_flag_set b) in (given left.flag_set l.command_line, left)

    abbrev pub apply_options : ServerOptions t → Call t (Config t)
    apply_options o b =
        applied
          (apply_to (option_objects t) l.calls o
            (l.new_recommended_config b.the_client_config b.the_informers))
          b

    -- `Config`, once its fields are set.
    unfoldable pub make_config : ServerOptions t → Call t (Config t)
    unfolding informers ◌then◌
    make_config o b =
        let errs = validate_server (option_objects t) l.calls o in
        checked errs (l.aggregate errs) b (informers t l b then λ i b. apply_options o b)

    unfoldable pub config : Call t (Config t)
    unfolding install_flags cement make_config
    config b = once b.the_config b (with_options make_config (cement (install_flags b)))

    -- `Complete` and `New` of pkg/apiserver.
    unfoldable pub complete_new : Config t → Adapter t → Result String (GenericServer T t.Selector)
    unfolding new_server
    complete_new c b = map_err l.error_text (
        new_server l.install l.custom l.external (l.complete c b.the_informers b.name) b.cm_provider
          b.em_provider)

    unfoldable pub server : Call t (GenericServer T t.Selector)
    unfolding config complete_new ◌then◌
    server b =
        once b.the_server b
          (config b then λ c b. made (complete_new c b) (λ s b. record b { the_server = some s }) b)

    -- `Run`: what the server's run returned, once there is a server.
    unfoldable pub run : Call t (Option String)
    unfolding server ◌then◌
    run b = server b then λ s b. (ok (l.serve s), b)

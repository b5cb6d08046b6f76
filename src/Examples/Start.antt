-- ===== src/Examples/Start.antt =====
-- The command on no arguments, with libraries that answer.
use storage_metrics_server.Base.{
  arith, refl, inl, some, Among, Bool, true, false, ◌≡◌, ◌*◌, pos, none, [], ◌∷◌, ◌++◌, All, ok,
  err, lookup, string_eq,
}
use storage_metrics_server.Memory.{Heap}
use storage_metrics_server.Storage.{Storage}
use storage_metrics_server.Flags.{shorthands, HasDistinctFlags}
use storage_metrics_server.Client.Address.{default_address_type_priority}
use storage_metrics_server.Client.Fetch.{SummaryClient, new_client, new_for_config}
use storage_metrics_server.Options.{
  second, validate_storage, new_storage_metrics_options, new_kubelet_client_options, validate,
  config, add_kubelet_flags, add_storage_flags,
}
use storage_metrics_server.Scraper.{Labels}
use storage_metrics_server.Provider.{as_provider}
use storage_metrics_server.Adapter.{Objects, Adapter, with_custom_metrics, new_adapter, ◌then◌}
use storage_metrics_server.Adapter.Setup.{
  run as run_base, server, config as base_config, cement, make_config, complete_new, install_flags,
  init_flag_set, define_flags as define_adapter_flags, get_flags,
}
use storage_metrics_server.Adapter.Clients.{client_config, informers, throttle}
use storage_metrics_server.CmdOptions.{
  new_server_options, add_server_flags, validate_server, apply_to, apply_all, apply_with_client,
  with_certificates,
}
use storage_metrics_server.Installer.{
  Route, WebService, version_service, new_web_service, install, install_rest,
}
use storage_metrics_server.Server.{GenericServer}
use storage_metrics_server.Examples.Install.{generic}
use storage_metrics_server.Installer.Params.{
  param_of, json_name, is_plain, field_by_name, offered, is_named, add_once, add_fields,
  add_object_params, add_params, type_to_json,
}
use storage_metrics_server.Installer.Kinds.{kind_from, get_resource_kind}
use storage_metrics_server.Installer.Prepared.{prepare, add_objects, add_route}
use storage_metrics_server.Installer.Custom.{prepare_extra, add_custom_routes, register_custom}
use storage_metrics_server.Installer.External.{register_external}
use storage_metrics_server.Api.Lister.{list_api_resources}
use storage_metrics_server.Server.{
  cm_api, em_api, install_versions, install_custom_metrics_api, install_external_metrics_api,
  when_given, new_server,
}
use storage_metrics_server.Command.{
  Cluster, Outcome, Wiring, wire, main, node_requirements, new_storage_adapter, define_flags,
  parse_flags, run, run_adapter,
}
use storage_metrics_server.Command.Parts.{provider_of}
use storage_metrics_server.Server.Asked.{Asks}
use storage_metrics_server.Command.Started.{IsStarted, main-IsStarted}
use storage_metrics_server.Command.Whole.{IsServing, main-IsServing}
use storage_metrics_server.Command.Defined.{
  AreDefined, define_flags-AreDefined, own_flags, earlier_flags,
}
use storage_metrics_server.Examples.Data.{network, nodes, lister}
use storage_metrics_server.Examples.Setup.{rest_config}
use storage_metrics_server.Examples.Adapters.{objects_in, working}

abbrev pub objects : Objects (Heap Storage)
objects = objects_in (Heap Storage)

abbrev pub labels : Labels
labels = record { Selector = Bool; Requirement = Bool; everything = true; add = λ s rs. s }

abbrev pub cluster : Cluster labels objects
cluster = record {
  libraries = working _;
  log_flags = ("v", "") ∷ [];
  parse = λ fs v. ok v;
  rest_config = λ c. rest_config;
  kube_client = λ c. none;
  transport_for = λ r. ok network;
  parse_labels = λ text. ok none;
  list_nodes = λ s. (nodes, none);
  pvcs = lister;
  register = none;
  caches_sync = true;
  overflow = λ i. pos 0;
}

abbrev default_client : SummaryClient
default_client = record {
  default_port = pos 10250;
  use_node_status_port = false;
  client = record { network = network; timeout = pos (10 * second) };
  scheme = "https";
  address_type_priority = default_address_type_priority;
}

abbrev pub started : Wiring labels Bool
started = wire cluster default_client none new_kubelet_client_options new_storage_metrics_options

-- The adapter that is left.
abbrev base : Adapter objects
base = elim (main cluster) [ ok w ↦ w.base | err e ↦ new_adapter objects "" ]

abbrev pub outcome : Outcome labels objects
outcome = record { wiring = started; base = base; ended = none }

-- The flags of the libraries, and that no other has a name of theirs.
earlier_distinct : HasDistinctFlags (earlier_flags cluster ++ cluster.log_flags)
unfolding earlier_flags lookup shorthands
earlier_distinct = record { names = (refl, (refl, (refl, (refl, tt)))); shorts = (refl, tt) }

names_are_new : All (λ f. lookup f.0 (earlier_flags cluster ++ cluster.log_flags) ≡ none) own_flags
unfolding earlier_flags lookup
names_are_new = ground arith

shorthand_is_new : lookup "l" (shorthands (earlier_flags cluster ++ cluster.log_flags)) ≡ none
unfolding earlier_flags lookup shorthands
shorthand_is_new = refl

define_flags-AreDefined_example : AreDefined cluster
define_flags-AreDefined_example =
    define_flags-AreDefined cluster earlier_distinct names_are_new shorthand_is_new

pub main-outcome : main cluster ≡ ok outcome
unfolding main define_flags parse_flags new_storage_adapter new_adapter get_flags install_flags
    init_flag_set define_adapter_flags add_server_flags new_server_options add_kubelet_flags
    add_storage_flags node_requirements new_client new_for_config config validate validate_storage
    new_kubelet_client_options new_storage_metrics_options client_config throttle informers ◌then◌
    wire run_adapter run with_custom_metrics run_base server base_config cement make_config
    validate_server apply_to with_certificates apply_all apply_with_client complete_new new_server
    when_given install_custom_metrics_api install_external_metrics_api install_versions install_rest
    install new_web_service cm_api em_api register_custom register_external prepare prepare_extra
    get_resource_kind kind_from add_custom_routes add_route add_objects add_object_params add_params
    add_fields offered param_of is_plain json_name field_by_name is_named add_once type_to_json
    list_api_resources as_provider
main-outcome = refl

-- The server that it has, with a service and a route of the custom metrics.
abbrev pub served : GenericServer (Heap Storage) Bool
served = elim base.the_server [ none ↦ generic | some s ↦ s ]

pub has_server : outcome.base.the_server ≡ some served
unfolding main define_flags parse_flags new_storage_adapter new_adapter get_flags install_flags
    init_flag_set define_adapter_flags add_server_flags new_server_options add_kubelet_flags
    add_storage_flags node_requirements new_client new_for_config config validate validate_storage
    new_kubelet_client_options new_storage_metrics_options client_config throttle informers ◌then◌
    wire run_adapter run with_custom_metrics run_base server base_config cement make_config
    validate_server apply_to with_certificates apply_all apply_with_client complete_new new_server
    when_given install_custom_metrics_api install_external_metrics_api install_versions install_rest
    install new_web_service cm_api em_api register_custom register_external prepare prepare_extra
    get_resource_kind kind_from add_custom_routes add_route add_objects add_object_params add_params
    add_fields offered param_of is_plain json_name field_by_name is_named add_once type_to_json
    list_api_resources as_provider
has_server = refl

pub has_route :
    (ws : WebService (Heap Storage) Bool) × (r : Route (Heap Storage) Bool) × Among
      (version_service ws)
      served.container.services
    × Among r ws.routes
    × Asks cluster.libraries.install cluster.libraries.custom (provider_of cluster started) r
unfolding main define_flags parse_flags new_storage_adapter new_adapter get_flags install_flags
    init_flag_set define_adapter_flags add_server_flags new_server_options add_kubelet_flags
    add_storage_flags node_requirements new_client new_for_config config validate validate_storage
    new_kubelet_client_options new_storage_metrics_options client_config throttle informers ◌then◌
    wire run_adapter run with_custom_metrics run_base server base_config cement make_config
    validate_server apply_to with_certificates apply_all apply_with_client complete_new new_server
    when_given install_custom_metrics_api install_external_metrics_api install_versions install_rest
    install new_web_service cm_api em_api register_custom register_external prepare prepare_extra
    get_resource_kind kind_from add_custom_routes add_route add_objects add_object_params add_params
    add_fields offered param_of is_plain json_name field_by_name is_named add_once type_to_json
    list_api_resources as_provider
has_route = (_, _, inl refl, inl refl, refl)

main-IsStarted_example : IsStarted cluster outcome
main-IsStarted_example = main-IsStarted cluster outcome main-outcome

main-IsServing_example : IsServing cluster outcome
main-IsServing_example = main-IsServing cluster outcome main-outcome

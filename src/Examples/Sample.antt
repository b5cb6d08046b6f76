-- ===== src/Examples/Sample.antt =====
-- The test adapter on no arguments, with libraries that answer.
use storage_metrics_server.Base.{◌≡◌, refl, pos, none, [], ◌∷◌, ok, err}
use storage_metrics_server.Adapter.{
  Objects, new_adapter, with_custom_metrics, with_external_metrics, ◌then◌,
}
use storage_metrics_server.Adapter.Clients.{
  client_config, discovery_client, dynamic_client, rest_mapper, informers, throttle,
}
use storage_metrics_server.Adapter.Setup.{
  run as run_base, server, config, cement, make_config, complete_new, install_flags, init_flag_set,
  define_flags as define_adapter_flags, get_flags,
}
use storage_metrics_server.CmdOptions.{
  new_server_options, add_server_flags, validate_server, apply_to, apply_all, apply_with_client,
  with_certificates,
}
use storage_metrics_server.Installer.{new_web_service, install, install_rest}
use storage_metrics_server.Installer.Params.{
  param_of, json_name, is_plain, field_by_name, offered, is_named, add_once, add_fields,
  add_object_params, add_params, type_to_json,
}
use storage_metrics_server.Installer.Kinds.{kind_from, get_resource_kind}
use storage_metrics_server.Installer.Prepared.{prepare, add_objects, add_route}
use storage_metrics_server.Installer.Custom.{prepare_extra, add_custom_routes, register_custom}
use storage_metrics_server.Installer.External.{register_external}
use storage_metrics_server.Api.Lister.{list_api_resources}
use storage_metrics_server.Server.{
  cm_api, em_api, install_versions, install_custom_metrics_api, install_external_metrics_api,
  when_given, new_server,
}
use storage_metrics_server.Memory.{Heap, unused}
use storage_metrics_server.TestAdapter.{
  TestingProvider, as_custom_provider, as_external_provider, new_fake_provider,
}
use storage_metrics_server.TestAdapter.Program.{
  Surroundings, Finished, define_flags, parse_flags, make_provider, with_providers, web_service,
  main,
}
use storage_metrics_server.TestAdapter.Program.Whole.{IsServingBoth, main-IsServingBoth}
use storage_metrics_server.Examples.Adapters.{objects_in, working}
use storage_metrics_server.Examples.Writes.{
  label_calls, dynamic_client as empty_client, object_mapper, empty_provider,
}

abbrev objects : Objects (Heap TestingProvider)
objects = objects_in (Heap TestingProvider)

abbrev surroundings : Surroundings objects
surroundings = record {
  libraries = working _;
  log_flags = ("v", "") ∷ [];
  parse = λ fs v. ok v;
  client_of = λ d. empty_client;
  mapper_of = λ m. object_mapper;
  label_calls = label_calls;
  clock = λ i. pos 5;
  register = none;
}

abbrev finished : Finished objects
finished = elim (main surroundings) [
  | ok f ↦ f
  | err e ↦ record {
    base = new_adapter objects "";
    provider = 0;
    heap = unused empty_provider;
    services = [];
    message = e;
    ended = none;
  }
]

main-finished : main surroundings ≡ ok finished
unfolding main define_flags parse_flags new_adapter get_flags install_flags init_flag_set
    define_adapter_flags add_server_flags new_server_options make_provider with_providers
    web_service dynamic_client rest_mapper discovery_client client_config throttle informers ◌then◌
    with_custom_metrics with_external_metrics run_base server config cement make_config
    validate_server apply_to with_certificates apply_all apply_with_client complete_new new_server
    when_given install_custom_metrics_api install_external_metrics_api install_versions install_rest
    install new_web_service cm_api em_api register_custom register_external prepare prepare_extra
    get_resource_kind kind_from add_custom_routes add_route add_objects add_object_params add_params
    add_fields offered param_of is_plain json_name field_by_name is_named add_once type_to_json
    list_api_resources as_custom_provider as_external_provider new_fake_provider
main-finished = refl

main-IsServingBoth_example : IsServingBoth surroundings finished
main-IsServingBoth_example = main-IsServingBoth surroundings finished main-finished

-- ===== src/Examples/Adapters.antt =====
-- An adapter whose second call meets libraries that fail.
use storage_metrics_server.Base.{
  ◌+◌, ◌≡◌, refl, String, pos, Bool, true, ℕ, none, some, [], ◌∷◌, ok, err, false, Option, ◌<>◌,
}
use storage_metrics_server.CmdOptions.{Calls}
use storage_metrics_server.Adapter.{
  Objects, Libraries, Adapter, Config, ClientConfig, option_objects, ◌then◌,
}
use storage_metrics_server.Adapter.Clients.{client_config, discovery_client, throttle}
use storage_metrics_server.Adapter.Again.{a_discovery_client, run, run_again}
use storage_metrics_server.Mapper.{
  Discovery, RegeneratingMapper, new_rest_mapper, refresh_until, call,
}
use storage_metrics_server.Mapper.Refresh.{last_discovered, call-refresh_until}
use storage_metrics_server.Examples.Install.{scheme, libraries, generic}

abbrev pub objects_in : (T : Type 0) → Objects T
objects_in T = record {
  C = Bool;
  Qps = Bool;
  SecureServing = String;
  Authentication = String;
  Authorization = String;
  Audit = String;
  Features = String;
  Clientset = String;
  Base = String;
  Discovery = ℕ;
  Mapper = ℕ;
  Dynamic = ℕ;
  Informers = ℕ;
  Object = String;
  Selector = Bool;
  zero_qps = false;
  is_positive = λ q. q;
}

abbrev objects : Objects Unit
objects = objects_in Unit

abbrev noted : (T : Type 0) → String → Config (objects_in T) → Option String × Config (objects_in T)
noted T name c = (none, record c { base = c.base <> name })

abbrev pub option_calls : (T : Type 0) → Calls (option_objects (objects_in T))
option_calls T = record {
  new_secure_serving = "s";
  new_authentication = "n";
  new_authorization = "z";
  new_audit = "a";
  new_features = "f";
  without_priority_and_fairness = λ f. f <> "-";
  validate_secure_serving = λ o. [];
  validate_authentication = λ o. [];
  validate_authorization = λ o. [];
  validate_audit = λ o. [];
  validate_features = λ o. [];
  secure_serving_flags = λ o. ("secure-port", "") ∷ [];
  authentication_flags = λ o. [];
  authorization_flags = λ o. [];
  audit_flags = λ o. ("audit-log-path", "") ∷ [];
  features_flags = λ o. [];
  self_signed_certs = λ s. (none, s <> "!");
  cert_error = λ e. e;
  apply_secure_serving = noted T;
  apply_authentication = noted T;
  apply_authorization = noted T;
  apply_audit = noted T;
  new_client = λ c. ok c.base;
  apply_features = λ f client. noted T f;
}

abbrev cluster_config : ClientConfig Bool Bool
cluster_config = record { base = true; qps = true; burst = pos 10 }

abbrev pub working : (T : Type 0) → Libraries (objects_in T)
working T = record {
  load_config = λ f. ok cluster_config;
  in_cluster_config = ok cluster_config;
  new_discovery_client = λ c. ok 7;
  new_rest_mapper = λ d i. ok 8;
  new_dynamic_client = λ c. ok 9;
  new_informers = λ c. ok 10;
  command_line = ("help", "h") ∷ [];
  default_qps = true;
  default_burst = pos 10;
  calls = option_calls T;
  aggregate = λ es. "";
  new_recommended_config = λ c i. record {
    base = "";
    open_api_config = none;
    open_api_v3_config = none;
    enable_metrics = false;
  };
  complete = λ c i name. ok generic;
  install = libraries;
  custom = scheme;
  external = scheme;
  error_text = λ e. "";
  serve = λ s. none;
}

abbrev failing : Libraries objects
failing = record (working Unit) {
  in_cluster_config = err "no token";
  new_discovery_client = λ c. err "no route";
}

abbrev fresh : Adapter objects
fresh = record {
  options = none;
  name = "storage-metrics-server";
  remote_kube_config_file = "";
  discovery_interval = pos 600;
  client_qps = true;
  client_burst = pos 20;
  flag_set = none;
  open_api_config = none;
  open_api_v3_config = none;
  flags_installed = false;
  the_client_config = none;
  the_discovery_client = none;
  the_rest_mapper = none;
  the_dynamic_client = none;
  the_informers = none;
  the_config = none;
  the_server = none;
  cm_provider = none;
  em_provider = none;
}

abbrev discovered : Adapter objects
discovered = record fresh {
  the_client_config = some (record cluster_config { burst = pos 20 });
  the_discovery_client = some 7;
}

first_call : run objects a_discovery_client (working Unit) fresh ≡ (ok 7, discovered)
unfolding discovery_client client_config ◌then◌ throttle
first_call = refl

run_again_example : run objects a_discovery_client failing discovered ≡ (ok 7, discovered)
run_again_example =
    run_again objects a_discovery_client (working Unit) failing 7 fresh discovered first_call

-- Resources are numbers, and their mapper adds them to its argument.
abbrev adding : Discovery
adding = record { Resources = ℕ; Delegate = ℕ; new_discovery_rest_mapper = λ n. n + 1 }

abbrev made_mapper : RegeneratingMapper adding
made_mapper = record { refresh_interval = pos 600; delegate = 4 }

made_mapper-new : new_rest_mapper adding (ok 3) (pos 600) ≡ ok made_mapper
unfolding new_rest_mapper
made_mapper-new = refl

call-refresh_until_example :
    call adding
      (λ (n m : ℕ). n + m)
      (refresh_until adding (ok 5 ∷ err "no route" ∷ []) made_mapper)
      1
    ≡ last_discovered adding 3 (ok 5 ∷ err "no route" ∷ []) + 1 + 1
call-refresh_until_example =
    call-refresh_until adding (λ (n m : ℕ). n + m) 1 3 (pos 600) (ok 5 ∷ err "no route" ∷ [])
      made_mapper made_mapper-new

-- ===== src/Options.antt =====
-- pkg/storagemetrics/options/options.go: the flags of the scraper, their checks, and the client
-- configuration that they give. A duration is an int64 of nanoseconds; the help texts of the flags are
-- left out.
pub mod Checks
pub mod Tls
use storage_metrics_server.Base.{
  ℕ, ◌*◌, ◌^◌, String, ℤ, pos, Bool, true, false, not, ◌&&◌, ◌||◌, Option, none, List, [], ◌∷◌,
  ◌++◌, map, ◌==◌, string_eq, if◌then◌else◌, ltb_ℤ, leb_ℤ,
}
use storage_metrics_server.Flags.{FlagSet}
use storage_metrics_server.Client.Address.{default_address_type_priority}
use storage_metrics_server.Client.Fetch.{TlsClientConfig, RestConfig, KubeletClientConfig}

pub record KubeletClientOptions : Type 0 where
  pub kubelet_use_node_status_port : Bool
  pub kubelet_port : ℤ
  pub insecure_kubelet_tls : Bool
  pub kubelet_preferred_address_types : List String
  pub kubelet_ca_file : String
  pub kubelet_client_key_file : String
  pub kubelet_client_cert_file : String
  pub kubelet_request_timeout : ℤ
  pub node_selector : String

-- time.Second
abbrev pub second : ℕ
second = 1000000000

unfoldable pub new_kubelet_client_options : KubeletClientOptions
new_kubelet_client_options = record {
  kubelet_use_node_status_port = false;
  kubelet_port = pos 10250;
  insecure_kubelet_tls = false;
  kubelet_preferred_address_types = default_address_type_priority;
  kubelet_ca_file = "";
  kubelet_client_key_file = "";
  kubelet_client_cert_file = "";
  kubelet_request_timeout = pos (10 * second);
  node_selector = "";
}

pub data OptionError : Type 0 where
  ca_with_insecure_tls : OptionError
  key_without_certificate : OptionError
  timeout_not_positive : OptionError
  port_out_of_range : OptionError
  resolution_too_short : ℤ → OptionError

-- `if test { errs = append(errs, e) }`
abbrev pub error_if : Bool → OptionError → List OptionError
error_if test e = if test then e ∷ [] else []

abbrev pub xor : Bool → Bool → Bool
xor true b = not b
xor false b = b

unfoldable pub validate : KubeletClientOptions → List OptionError
validate o =
    error_if (not (o.kubelet_ca_file == "") && o.insecure_kubelet_tls) ca_with_insecure_tls
    ++ error_if
        (xor (not (o.kubelet_client_key_file == "")) (not (o.kubelet_client_cert_file == "")))
        key_without_certificate
    ++ error_if (leb_ℤ o.kubelet_request_timeout (pos 0)) timeout_not_positive
    ++ error_if (leb_ℤ o.kubelet_port (pos 0) || ltb_ℤ (pos 65535) o.kubelet_port) port_out_of_range

unfoldable pub address_types : KubeletClientOptions → List String
address_types o = map (λ t. t) o.kubelet_preferred_address_types

-- The three steps of `Config` that change the TLS configuration, one for each option.
unfoldable pub set_insecure : KubeletClientOptions → TlsClientConfig → TlsClientConfig
set_insecure o t =
    if o.insecure_kubelet_tls then record t { insecure = true; ca_file = ""; ca_data = none } else t

unfoldable pub set_ca : KubeletClientOptions → TlsClientConfig → TlsClientConfig
set_ca o t =
    if not (o.kubelet_ca_file == "")
    then record t { ca_file = o.kubelet_ca_file; ca_data = none }
    else t

unfoldable pub set_cert : KubeletClientOptions → TlsClientConfig → TlsClientConfig
set_cert o t =
    if not (o.kubelet_client_cert_file == "")
    then record t { cert_file = o.kubelet_client_cert_file; cert_data = none }
    else t

unfoldable pub set_key : KubeletClientOptions → TlsClientConfig → TlsClientConfig
set_key o t =
    if not (o.kubelet_client_key_file == "")
    then record t { key_file = o.kubelet_client_key_file; key_data = none }
    else t

unfoldable pub config : KubeletClientOptions → RestConfig → KubeletClientConfig
unfolding set_insecure set_ca set_cert set_key address_types
config o rest_config = record {
  client = record rest_config {
    timeout = o.kubelet_request_timeout;
    tls_client_config =
        set_key o (set_cert o (set_ca o (set_insecure o rest_config.tls_client_config)));
  };
  address_type_priority = address_types o;
  scheme = "https";
  default_port = o.kubelet_port;
  use_node_status_port = o.kubelet_use_node_status_port;
}

pub record StorageMetricsOptions : Type 0 where
  pub metric_resolution : ℤ

unfoldable pub new_storage_metrics_options : StorageMetricsOptions
new_storage_metrics_options = record { metric_resolution = pos (60 * second) }

unfoldable pub validate_storage : StorageMetricsOptions → List OptionError
validate_storage o =
    error_if (ltb_ℤ o.metric_resolution (pos (10 * second)))
      (resolution_too_short o.metric_resolution)

-- What the AddFlags of the two structs define: each flag with its shorthand.
abbrev pub kubelet_flags : FlagSet
kubelet_flags =
    ("kubelet-insecure-tls", "")
    ∷ ("kubelet-use-node-status-port", "")
    ∷ ("kubelet-port", "")
    ∷ ("kubelet-preferred-address-types", "")
    ∷ ("kubelet-certificate-authority", "")
    ∷ ("kubelet-client-key", "")
    ∷ ("kubelet-client-certificate", "")
    ∷ ("kubelet-request-timeout", "")
    ∷ ("node-selector", "l")
    ∷ []

abbrev pub storage_flags : FlagSet
storage_flags = ("metric-resolution", "") ∷ []

-- A flag sets its variable to the default that it is given, which is the value that the variable has
-- but for the three files.
unfoldable pub add_kubelet_flags : KubeletClientOptions → FlagSet → KubeletClientOptions × FlagSet
add_kubelet_flags o fs = (
  record o { kubelet_ca_file = ""; kubelet_client_key_file = ""; kubelet_client_cert_file = "" },
  fs ++ kubelet_flags,
)

unfoldable pub add_storage_flags : StorageMetricsOptions → FlagSet → StorageMetricsOptions × FlagSet
add_storage_flags o fs = (o, fs ++ storage_flags)

-- ===== src/Examples/Setup.antt =====
-- The default options, a node with one address and a kubelet that answers.
use storage_metrics_server.Base.{◌≡◌, ◌↔◌, pos, false, none, [], ok}
use storage_metrics_server.Client.Address.{node_address, default_address_type_priority}
use storage_metrics_server.Client.Address.Priority.{Resolves, node_address-Resolves}
use storage_metrics_server.Client.Fetch.{RestConfig, get_metrics}
use storage_metrics_server.Client.Fetch.Outcome.{Fetches, get_metrics_iff}
use storage_metrics_server.Options.{new_kubelet_client_options, validate}
use storage_metrics_server.Options.Checks.{IsAccepted, validate_iff}
use storage_metrics_server.Examples.Data.{node_named, client, batch_a}

node_address-Resolves_example :
    Resolves default_address_type_priority
      (node_named "a")
      (node_address default_address_type_priority (node_named "a"))
node_address-Resolves_example = node_address-Resolves default_address_type_priority (node_named "a")

get_metrics_iff_example :
    (get_metrics client (node_named "a") ≡ ok batch_a) ↔ Fetches client (node_named "a") batch_a
get_metrics_iff_example = get_metrics_iff client (node_named "a") batch_a

abbrev pub rest_config : RestConfig
rest_config = record {
  host = "https://10.96.0.1:443";
  timeout = pos 0;
  tls_client_config = record {
    insecure = false;
    ca_file = "/var/run/secrets/ca.crt";
    ca_data = none;
    cert_file = "";
    cert_data = none;
    key_file = "";
    key_data = none;
  };
}

validate_iff_example :
    (validate new_kubelet_client_options ≡ []) ↔ IsAccepted new_kubelet_client_options
validate_iff_example = validate_iff new_kubelet_client_options

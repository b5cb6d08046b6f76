-- ===== src/Options/Tls.antt =====
-- The client configuration that accepted options give.
use storage_metrics_server.Base.{
  ◌≡◌, ◌≢◌, refl, pos, ◌≤ℤ◌, true, false, none, List, [], ◌∷◌, map, string_eq, Eq, arith,
}
use storage_metrics_server.Client.Fetch.{RestConfig, KubeletClientConfig}
use storage_metrics_server.Options.{KubeletClientOptions, validate, config}
use storage_metrics_server.Options.Checks.{validate_iff}

-- The configuration of a kubelet client, as the options and the cluster's configuration ask for.
pub record IsConfigured (o : KubeletClientOptions) (r : RestConfig) (c : KubeletClientConfig)
    : Type 0 where
  pub insecure_has_no_ca :
      o.insecure_kubelet_tls ≡ true
      → (c.client.tls_client_config.insecure ≡ true)
        × (c.client.tls_client_config.ca_file ≡ "")
        × (c.client.tls_client_config.ca_data ≡ none)
  pub ca_file :
      o.kubelet_ca_file ≢ ""
      → (c.client.tls_client_config.ca_file ≡ o.kubelet_ca_file)
        × (c.client.tls_client_config.ca_data ≡ none)
        × (c.client.tls_client_config.insecure ≡ r.tls_client_config.insecure)
  pub key_pair :
      o.kubelet_client_key_file ≢ ""
      → (c.client.tls_client_config.key_file ≡ o.kubelet_client_key_file)
        × (c.client.tls_client_config.key_data ≡ none)
        × (c.client.tls_client_config.cert_file ≡ o.kubelet_client_cert_file)
        × (c.client.tls_client_config.cert_data ≡ none)
  pub untouched :
      o.insecure_kubelet_tls ≡ false
      → o.kubelet_ca_file ≡ ""
      → o.kubelet_client_key_file ≡ ""
      → c.client.tls_client_config ≡ r.tls_client_config
  pub timeout : pos 1 ≤ℤ c.client.timeout
  pub port_low : pos 1 ≤ℤ c.default_port
  pub port_high : c.default_port ≤ℤ pos 65535
  pub priority : c.address_type_priority ≡ o.kubelet_preferred_address_types

map-id : {A : Type 0} (xs : List A) → map (λ x. x) xs ≡ xs
map-id [] = refl
map-id (x ∷ xs) = rw (map-id xs)

-- Options that pass the checks give a configuration in which an insecure client has no CA, a CA
-- file replaces the CA data and leaves the rest secure as it was, a client key comes with its
-- certificate and both replace the data, nothing of the cluster's TLS changes without an option,
-- and the timeout and the port are in range.
pub config-IsConfigured :
    (o : KubeletClientOptions) (r : RestConfig) → validate o ≡ [] → IsConfigured o r (config o r)
unfolding config
config-IsConfigured o r h =
    let a = (validate_iff o).0 h in
    let f = Eq.beq_iff string_eq o.kubelet_ca_file "" in
    let k = Eq.beq_iff string_eq o.kubelet_client_key_file "" in
    let t = Eq.beq_iff string_eq o.kubelet_client_cert_file "" in
    record {
      insecure_has_no_ca = λ e. ground (arith, a.ca_or_insecure, f, e);
      ca_file = λ e. ground (arith, a.ca_or_insecure, f, e);
      key_pair = λ e. ground (arith, a.key_and_cert, k, t, e);
      untouched = λ e e' e''. ground (arith, a.key_and_cert, f, k, t, e, e', e'');
      timeout = a.timeout;
      port_low = a.port_low;
      port_high = a.port_high;
      priority = map-id o.kubelet_preferred_address_types;
    }

-- ===== src/Client/Fetch.antt =====
-- `NewForConfig`, `newClient`, `GetMetrics` and `getMetrics` of
-- pkg/storagemetrics/scraper/client/summary_client.go, with interface.go and configs.go. The HTTP
-- transport, the JSON decoder and the clock are the record `Network`. A URL keeps its parts: the
-- rendering by net.JoinHostPort and URL.String is not modelled.
pub mod Outcome
use storage_metrics_server.Base.{
  ℕ, String, ℤ, pos, beq_ℤ, Bool, not, ◌&&◌, Option, none, some, List, if◌then◌else◌, nat_beq,
  Result, ok, err, ◌>>=◌, map_err,
}
use storage_metrics_server.Storage.Types.{Time, MetricsBatch}
use storage_metrics_server.Client.Address.{Node, ResolveError, node_address}
use storage_metrics_server.Client.Summary.{Summary, summary_to_batch}

-- rest.TLSClientConfig and rest.Config, cut to the fields that the program sets. The data fields
-- are byte slices, nil or not.
pub record TlsClientConfig : Type 0 where
  pub insecure : Bool
  pub ca_file : String
  pub ca_data : Option String
  pub cert_file : String
  pub cert_data : Option String
  pub key_file : String
  pub key_data : Option String

pub record RestConfig : Type 0 where
  pub host : String
  pub timeout : ℤ
  pub tls_client_config : TlsClientConfig

pub record KubeletClientConfig : Type 0 where
  pub client : RestConfig
  pub address_type_priority : List String
  pub scheme : String
  pub default_port : ℤ
  pub use_node_status_port : Bool

pub record Url : Type 0 where
  pub scheme : String
  pub address : String
  pub port : ℤ
  pub path : String
  pub raw_query : String

pub record Response : Type 0 where
  pub status_code : ℕ
  pub status : String
  pub body : String

-- What one request meets outside the program: the error of http.NewRequestWithContext if there is
-- one, the clock before the request, the answer of http.Client.Do, and the JSON decoder.
pub record Network : Type 0 where
  pub request_error : Url → Option String
  pub request_time : Url → Time
  pub send : Url → Result String Response
  pub decode : String → Result String Summary

pub record HttpClient : Type 0 where
  pub network : Network
  pub timeout : ℤ

pub record SummaryClient : Type 0 where
  pub default_port : ℤ
  pub use_node_status_port : Bool
  pub client : HttpClient
  pub scheme : String
  pub address_type_priority : List String

unfoldable pub new_client : HttpClient → List String → ℤ → String → Bool → SummaryClient
new_client c priority default_port scheme use_node_status_port = record {
  default_port = default_port;
  use_node_status_port = use_node_status_port;
  client = c;
  scheme = scheme;
  address_type_priority = priority;
}

pub data ConfigError : Type 0 where
  no_transport : String → ConfigError

-- `transport_for` is rest.TransportFor.
unfoldable pub new_for_config :
    (RestConfig → Result String Network) → KubeletClientConfig → Result ConfigError SummaryClient
unfolding new_client
new_for_config transport_for config = do
  transport ← map_err no_transport (transport_for config.client)
  let http_client : HttpClient = record { network = transport; timeout = config.client.timeout }
  ok (
      new_client http_client config.address_type_priority config.default_port config.scheme
        config.use_node_status_port)

pub data FetchError : Type 0 where
  unresolved : ResolveError → FetchError
  bad_request : String → FetchError
  not_sent : String → FetchError
  bad_status : String → String → FetchError
  bad_body : String → String → FetchError

unfoldable pub fetch : Network → Url → String → Result FetchError MetricsBatch
fetch net u node_name = elim (net.request_error u) [
  | some e ↦ err (bad_request e)
  | none ↦ do
    resp ← map_err not_sent (net.send u)
    if not (nat_beq resp.status_code 200) then err (bad_status node_name resp.status) else do
      summary ← map_err (bad_body node_name) (net.decode resp.body)
      ok (summary_to_batch summary (net.request_time u) node_name)
]

-- The port that a node's kubelet is dialled at.
unfoldable pub port_for : SummaryClient → Node → ℤ
port_for kc node =
    if kc.use_node_status_port && not (beq_ℤ node.kubelet_port (pos 0))
    then node.kubelet_port
    else kc.default_port

unfoldable pub url_for : SummaryClient → Node → String → Url
unfolding port_for
url_for kc node address = record {
  scheme = kc.scheme;
  address = address;
  port = port_for kc node;
  path = "/stats/summary";
  raw_query = "only_cpu_and_memory=false";
}

unfoldable pub get_metrics : SummaryClient → Node → Result FetchError MetricsBatch
unfolding fetch url_for
get_metrics kc node = do
  address ← map_err unresolved (node_address kc.address_type_priority node)
  fetch kc.client.network (url_for kc node address) node.name

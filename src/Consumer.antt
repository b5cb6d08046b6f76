-- ===== src/Consumer.antt =====
-- consumer/main.go: the sample client that prints the volumes' use of the claims of a namespace.
-- client-go, the environment, HTTP and JSON are the record `World`; a line of a printed text is a
-- string without its line end.
pub mod Ended
pub mod Shown
use storage_metrics_server.Base.{
  ℕ, zero, suc, ◌-◌, String, ◌<>◌, Option, none, some, List, [], ◌∷◌, map, ◌==◌, string_eq,
  if◌then◌else◌, Result, ok, err, ◌>>=◌, map_err,
}
use Prim.Native.String.{len}
use storage_metrics_server.Api.{MetricValue, Quantity}

pub record HttpResponse (Body : Type 0) : Type 0 where
  pub status_code : ℕ
  pub body : Body

-- `get` is the Do of the client that rest.HTTPClientFor makes, on a GET request for a URL, and
-- `new_request` the error of http.NewRequestWithContext, if there is one. `decode` is json.Decoder on a
-- MetricValueList, and `text_of` Quantity.String.
pub record World (Config Body : Type 0) : Type 0 where
  pub in_cluster_config : Result String Config
  pub getenv : String → String
  pub build_config : String → Result String Config
  pub host : Config → String
  pub http_client_for : Config → Result String (String → Result String (HttpResponse Body))
  pub new_request : String → Option String
  pub decode : Body → Result String (List MetricValue)
  pub text_of : Quantity → String

-- What a run prints, and the exit code of the process.
pub record Exit : Type 0 where
  pub stdout : List String
  pub stderr : List String
  pub code : ℕ

-- `fmt.Fprintf(os.Stderr, "…: %v\n", err); os.Exit(1)`
abbrev pub fail : String → Exit
fail line = record { stdout = []; stderr = line ∷ []; code = 1 }

unfoldable pub spaces : ℕ → String
spaces zero = ""
spaces (suc n) = " " <> spaces n

-- `%-30s %s`
unfoldable pub row : String → String → String
unfolding spaces
row name value = name <> spaces (30 - len name) <> " " <> value

abbrev pub url_path : String
url_path =
    "/apis/custom.metrics.k8s.io/v1beta2/namespaces/default/persistentvolumeclaims/*/volume_used_percentage"

module _ {Config Body : Type 0} (w : World Config Body) where
  unfoldable pub config_path : String
  config_path =
      let path = w.getenv "KUBECONFIG" in
      if path == "" then w.getenv "HOME" <> "/.kube/config" else path

  unfoldable pub load_config : Result String Config
  unfolding config_path
  load_config = elim w.in_cluster_config [ ok cfg ↦ ok cfg | err e ↦ w.build_config config_path ]

  abbrev pub unless_error : Option String → Result {0, 0} String Unit
  unless_error none = ok tt
  unless_error (some e) = err ("error building request: " <> e)

  -- `main` up to the list: the list, or the line that is printed before the exit.
  unfoldable pub query : Result String (List MetricValue)
  unfolding load_config
  query = do
    cfg ← map_err (λ e. "error building kubeconfig: " <> e) load_config
    get ← map_err (λ e. "error creating HTTP client: " <> e) (w.http_client_for cfg)
    req ← unless_error (w.new_request (w.host cfg <> url_path))
    resp ← map_err (λ e. "error querying metric: " <> e) (get (w.host cfg <> url_path))
    map_err (λ e. "error decoding response: " <> e) (w.decode resp.body)

  -- The table of the items.
  unfoldable pub table : List MetricValue → List String
  unfolding row
  table items =
      row "PVC" "volume_used_percentage"
      ∷ "----------------------------------------------"
      ∷ map (λ (v : MetricValue). row v.described_object.name (w.text_of v.value)) items

  unfoldable pub print : List MetricValue → Exit
  unfolding table
  print [] = record { stdout = "no metrics found" ∷ []; stderr = []; code = 0 }
  print (v ∷ vs) = record { stdout = table (v ∷ vs); stderr = []; code = 0 }

  unfoldable pub main : Exit
  unfolding query print
  main = elim query [ ok items ↦ print items | err line ↦ fail line ]

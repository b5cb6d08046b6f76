-- ===== src/Command.antt =====
-- cmd/storage-metrics-server/main.go: `main`, with its flags and checks, and `run`, which wires the parts
-- together and runs the adapter. Logging, the parsing of the arguments, the kube client's informers and
-- the metrics registry are the record `Cluster`; the goroutine of the manager is Pipeline.

pub mod Parts
pub mod Started
pub mod Flagged
pub mod Whole
pub mod Defined
pub mod Fresh
use storage_metrics_server.Base.{
  ℕ, ℤ, String, Bool, Option, none, some, List, [], ◌∷◌, ◌++◌, ◌==◌, string_eq, if◌then◌else◌,
  Result, ok, err, ◌>>=◌, map_err,
}
use storage_metrics_server.Flags.{FlagSet}
use storage_metrics_server.Memory.{Heap, Sharing, unused, alloc, load}
use storage_metrics_server.Storage.{Storage, new_storage}
use storage_metrics_server.Client.Address.{Node}
use storage_metrics_server.Client.Fetch.{
  RestConfig, Network, SummaryClient, FetchError, ConfigError, new_for_config, get_metrics,
}
use storage_metrics_server.Scraper.{Labels, Scraper, fetched_of, new_scraper}
use storage_metrics_server.Manager.{Manager, new_manager}
use storage_metrics_server.Provider.{Provider, PvcLister, as_provider}
use storage_metrics_server.Options.{
  KubeletClientOptions, StorageMetricsOptions, OptionError, new_kubelet_client_options,
  new_storage_metrics_options, add_kubelet_flags, add_storage_flags, validate, validate_storage,
  config,
}
use storage_metrics_server.Adapter.{
  Objects, Libraries, Adapter, ClientConfig, new_adapter, with_custom_metrics,
}
use storage_metrics_server.Adapter.Clients.{client_config}
use storage_metrics_server.Adapter.Bound.{Bound, bound_of, set_bound, on_flags}
use storage_metrics_server.Adapter.Setup
use storage_metrics_server.Adapter.Setup.{get_flags}

pub data StartError : Type 0 where
  unable_to_parse : String → StartError
  invalid_options : List OptionError → StartError
  failed : String → StartError
  no_client : ConfigError → StartError
  not_synced : StartError

-- The variables that the flags are bound to.
pub record Variables (t : Objects (Heap Storage)) : Type 0 where
  pub bound : Bound t
  pub kubelet_options : KubeletClientOptions
  pub scrape_options : StorageMetricsOptions

-- What the start finds outside: `parse` is FlagSet.Parse on the arguments of the process, `log_flags`
-- what logs.AddFlags defines, `kube_client` and `register` are the errors of kubernetes.NewForConfig and
-- RegisterMetrics if there are any, `list_nodes` and `pvcs` the listers of the informers. labels.Parse
-- gives the requirements of its selector, which may be nil. `rest_config` is what the kubelets' client
-- reads of a client configuration, and `overflow` the provider's conversion out of range.
pub record Cluster (l : Labels) (t : Objects (Heap Storage)) : Type 0 where
  pub libraries : Libraries t
  pub log_flags : FlagSet
  pub parse : FlagSet → Variables t → Result String (Variables t)
  pub rest_config : ClientConfig t.C t.Qps → RestConfig
  pub kube_client : ClientConfig t.C t.Qps → Option String
  pub transport_for : RestConfig → Result String Network
  pub parse_labels : String → Result String (Option (List l.Requirement))
  pub list_nodes : l.Selector → List Node × Option FetchError
  pub pvcs : PvcLister t.Selector
  pub register : Option String
  pub caches_sync : Bool
  pub overflow : ℕ → ℤ

-- The objects that run side by side, and the memory that they share: the manager scrapes into the store
-- that its pointer leads to, and the provider reads the store of its own pointer.
pub record Wiring (l : Labels) (S : Type 0) : Type 0 where
  pub kubelet_client : SummaryClient
  pub scraper : Scraper l FetchError
  pub heap : Heap Storage
  pub manager : Sharing Storage Manager
  pub provider : Sharing Storage (Provider S)

pub record StorageAdapter (t : Objects (Heap Storage)) : Type 0 where
  pub base : Adapter t
  pub kubelet_options : KubeletClientOptions
  pub scrape_options : StorageMetricsOptions

-- A process that has run its server: what it ran, and the error of the run if there was one.
pub record Outcome (l : Labels) (t : Objects (Heap Storage)) : Type 0 where
  pub wiring : Wiring l t.Selector
  pub base : Adapter t
  pub ended : Option String

-- `if err := …; err != nil { return err }`
abbrev pub unless_error : Option String → Result {0, 0} StartError Unit
unless_error none = ok tt
unless_error (some e) = err (failed e)

abbrev pub accepted : List OptionError → Result {0, 0} StartError Unit
accepted [] = ok tt
accepted (e ∷ errs) = err (invalid_options (e ∷ errs))

abbrev pub when_synced : Bool → Result {0, 0} StartError Unit
when_synced b = if b then ok tt else err not_synced

-- A method of the adapter, whose error ends the start.
abbrev pub called :
    {t : Objects (Heap Storage)} {A : Type 0}
    → Result String A × Adapter t
    → Result StartError (A × Adapter t)
called (ok a, b) = ok (a, b)
called (err e, b) = err (failed e)

module _ {l : Labels} {t : Objects (Heap Storage)} (c : Cluster l t) where
  -- logs.AddFlags
  abbrev pub add_log_flags : Unit {0} → FlagSet → Unit {0} × FlagSet
  add_log_flags u fs = (u, fs ++ c.log_flags)

  unfoldable pub new_storage_adapter : StorageAdapter t
  unfolding new_adapter
  new_storage_adapter = record {
    base = new_adapter t "storage-metrics-server";
    kubelet_options = new_kubelet_client_options;
    scrape_options = new_storage_metrics_options;
  }

  -- The lines of `main` that define the flags.
  unfoldable pub define_flags : StorageAdapter t → StorageAdapter t
  unfolding get_flags add_kubelet_flags add_storage_flags
  define_flags a =
      let (k, with_kubelet) = on_flags c.libraries add_kubelet_flags a.kubelet_options a.base in
      let (s, with_storage) =
        on_flags c.libraries add_storage_flags a.scrape_options with_kubelet in
      let (u, with_logs) = on_flags c.libraries add_log_flags tt with_storage in
      record { base = with_logs; kubelet_options = k; scrape_options = s }

  abbrev pub variables_of : StorageAdapter t → Variables t
  variables_of a = record {
    bound = bound_of a.base;
    kubelet_options = a.kubelet_options;
    scrape_options = a.scrape_options;
  }

  abbrev pub set_variables : Variables t → StorageAdapter t → StorageAdapter t
  set_variables v a = record {
    base = set_bound v.bound a.base;
    kubelet_options = v.kubelet_options;
    scrape_options = v.scrape_options;
  }

  -- `a.Flags().Parse(os.Args)`
  unfoldable pub parse_flags : StorageAdapter t → Result StartError (StorageAdapter t)
  parse_flags a =
      let (fs, left) = get_flags t c.libraries a.base in
      let flagged : StorageAdapter t = record a { base = left } in
      do
        v ← map_err unable_to_parse (c.parse fs (variables_of flagged))
        ok (set_variables v flagged)

  -- The requirements of the node selector, nil if none is given.
  unfoldable pub node_requirements :
      KubeletClientOptions → Result StartError (Option (List l.Requirement))
  node_requirements o =
      if o.node_selector == "" then ok none else map_err failed (c.parse_labels o.node_selector)

  unfoldable pub wire :
      SummaryClient
      → Option (List l.Requirement)
      → KubeletClientOptions
      → StorageMetricsOptions
      → Wiring l t.Selector
  wire kubelet_client requirements o s =
      let (pointer, heap) = alloc new_storage (unused new_storage) in
      record {
        kubelet_client = kubelet_client;
        scraper =
            new_scraper l FetchError c.list_nodes
              (λ node. fetched_of (get_metrics kubelet_client node)) o.kubelet_request_timeout
              requirements;
        heap = heap;
        manager = record {
          pointer = pointer;
          over = λ store. new_manager store s.metric_resolution;
        };
        provider = record {
          pointer = pointer;
          over = λ store. record { store = store; pvc_lister = some c.pvcs };
        };
      }

  -- The last lines of `run`, after the objects are made: `a.WithCustomMetrics` and `a.Run`.
  unfoldable pub run_adapter : Wiring l t.Selector → Adapter t → Result StartError (Outcome l t)
  run_adapter w b =
      let with_provider =
        with_custom_metrics t (λ heap. as_provider c.overflow (load w.provider heap)) b in
      do
        registered ← unless_error c.register
        synced ← when_synced c.caches_sync
        left ← called (Setup.run t c.libraries with_provider)
        ok (record { wiring = w; base = left.1; ended = left.0 })

  unfoldable pub run : StorageAdapter t → Result StartError (Outcome l t)
  unfolding node_requirements wire run_adapter
  run a = do
    left ← called (client_config t c.libraries a.base)
    kube ← unless_error (c.kube_client left.0)
    kubelet_client ←
        map_err no_client
          (new_for_config c.transport_for (config a.kubelet_options (c.rest_config left.0)))
    requirements ← node_requirements a.kubelet_options
    run_adapter (wire kubelet_client requirements a.kubelet_options a.scrape_options) left.1

  -- `main` up to the exit of the process.
  unfoldable pub main : Result StartError (Outcome l t)
  unfolding new_storage_adapter define_flags parse_flags run
  main = do
    a ← parse_flags (define_flags new_storage_adapter)
    kubelet_ok ← accepted (validate a.kubelet_options)
    scrape_ok ← accepted (validate_storage a.scrape_options)
    run a

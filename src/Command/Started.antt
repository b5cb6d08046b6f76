-- ===== src/Command/Started.antt =====
-- What the command (cmd/storage-metrics-server/main.go) has wired when it has run its server.
use storage_metrics_server.Base.{
  ◌≡◌, refl, sym, subst, false, pos, ◌*◌, ◌≤ℤ◌, Option, List, [], ok, arith,
}
use storage_metrics_server.Memory.{Heap, load}
use storage_metrics_server.Storage.{Storage, ready, new_storage}
use storage_metrics_server.Client.Fetch.{RestConfig, SummaryClient, new_for_config, get_metrics}
use storage_metrics_server.Client.Address.{Node}
use storage_metrics_server.Scraper.{Labels, fetched_of, new_scraper}
use storage_metrics_server.Manager.{new_manager}
use storage_metrics_server.Options.{
  KubeletClientOptions, StorageMetricsOptions, second, validate, validate_storage, config,
}
use storage_metrics_server.Options.Checks.{IsAccepted, validate_iff}
use storage_metrics_server.Options.Tls.{IsConfigured, config-IsConfigured}
use storage_metrics_server.Adapter.{Objects}
use storage_metrics_server.Command.{
  Cluster, Wiring, Outcome, StorageAdapter, new_storage_adapter, define_flags, parse_flags, wire,
  main,
}
use storage_metrics_server.Command.Parts.{main-Steps}

short_enough :
    (s : StorageMetricsOptions) → validate_storage s ≡ [] → pos (10 * second) ≤ℤ s.metric_resolution
unfolding validate_storage
short_enough s e = ground (arith, e)

module _ {l : Labels} {t : Objects (Heap Storage)} (c : Cluster l t) where
  -- The parts fit together, and were made from options that are accepted.
  pub record AreWired (o : KubeletClientOptions) (s : StorageMetricsOptions)
      (w : Wiring l t.Selector) : Type 0 where
    pub accepted : IsAccepted o
    pub resolution : pos (10 * second) ≤ℤ (load w.manager w.heap).resolution
    pub rest_config : RestConfig
    pub configured : IsConfigured o rest_config (config o rest_config)
    pub client : new_for_config c.transport_for (config o rest_config) ≡ ok w.kubelet_client
    pub asks :
        (node : Node) → w.scraper.get_metrics node ≡ fetched_of (get_metrics w.kubelet_client node)
    pub shared : w.provider.pointer ≡ w.manager.pointer
    pub cache : (load w.manager w.heap).cache ≡ w.heap.cell w.manager.pointer
    pub reads : (store : Storage) → (w.provider.over store).store ≡ store
    pub empty : (w.heap.cell w.manager.pointer).pvcs ≡ []
    pub cold : ready (w.heap.cell w.manager.pointer) ≡ false
    pub timeout : pos 1 ≤ℤ w.scraper.scrape_timeout

  -- They are those of the arguments.
  pub record IsStarted (w : Outcome l t) : Type 0 where
    pub parsed : StorageAdapter t
    pub read : parse_flags c (define_flags c (new_storage_adapter c)) ≡ ok parsed
    pub wired : AreWired parsed.kubelet_options parsed.scrape_options w.wiring

  wire-AreWired :
      (o : KubeletClientOptions) (s : StorageMetricsOptions) (r : RestConfig) (k : SummaryClient)
      (q : Option (List l.Requirement))
      → validate o ≡ []
      → validate_storage s ≡ []
      → new_for_config c.transport_for (config o r) ≡ ok k
      → AreWired o s (wire c k q o s)
  unfolding wire new_manager new_scraper new_storage ready
  wire-AreWired o s r k q e f g =
      let a = (validate_iff o).0 e in
      record {
        accepted = a;
        resolution = short_enough s f;
        rest_config = r;
        configured = config-IsConfigured o r e;
        client = g;
        asks = λ node. refl;
        shared = refl;
        cache = refl;
        reads = λ store. refl;
        empty = refl;
        cold = refl;
        timeout = a.timeout;
      }

  -- A process that has run its server was given arguments whose options pass the checks, asks the
  -- kubelets through a client that is configured as they say, with a positive time-out and a
  -- resolution of ten seconds or more, and its provider reads the cache that its manager fills, which
  -- is empty and not ready at first.
  pub main-IsStarted : (w : Outcome l t) → main c ≡ ok w → IsStarted w
  main-IsStarted w e =
      let p = main-Steps c w e in
      let o = p.parsed.kubelet_options in
      let s = p.parsed.scrape_options in
      record {
        parsed = p.parsed;
        read = p.read;
        wired = subst (AreWired o s) (sym p.wired) (
            wire-AreWired o s (c.rest_config p.the_config) p.kubelet_client p.requirements p.valid
              p.valid_storage p.client);
      }

-- ===== src/Examples/Fresh.antt =====
-- The command after the first tick of its manager, asked for the used bytes of the claim.
use storage_metrics_server.Base.{
  ◌≡◌, ◌∙◌, sym, subst, Among, refl, string_eq, inl, pos, ℕ, String, Bool, Option, some, [], ◌∷◌,
  lookup, insert, arith, Result, ok,
}
use storage_metrics_server.Storage.Types.{MetricsBatch}
use storage_metrics_server.Storage.{new_storage, store, batch_map, get}
use storage_metrics_server.Client.Address.{Node, node_address}
use storage_metrics_server.Client.Fetch.{get_metrics, fetch}
use storage_metrics_server.Client.Summary.{summary_to_batch}
use storage_metrics_server.Scraper.{merged_batch, fetched_of, new_scraper, scraped_nodes}
use storage_metrics_server.Scraper.FanOut.{Run, Picks, send, receive, Reach, begin, next}
use storage_metrics_server.Manager.{run_until, tick, new_manager}
use storage_metrics_server.Manager.Last.{last_tick}
use storage_metrics_server.Provider.{
  as_provider, get_metric_by_name, is_pvc, metric_from_point, to_int64,
}
use storage_metrics_server.Registry.{list_values}
use storage_metrics_server.Handler.{
  Request, Response, answered, panicked, list_resource_with_options,
}
use storage_metrics_server.Handler.Options.{convert_url_values}
use storage_metrics_server.Pipeline.Requests.{IsFreshItem}
use storage_metrics_server.Memory.{Heap}
use storage_metrics_server.Storage.{Storage}
use storage_metrics_server.Api.{Error}
use storage_metrics_server.Registry.External.{ExternalMetricsProvider}
use storage_metrics_server.Adapter.{Config}
use storage_metrics_server.Installer.{WebService, version_service}
use storage_metrics_server.Server.{GenericServer}
use storage_metrics_server.Server.Asked.{route_answer, route_answer-Asks}
use storage_metrics_server.Command.{wire}
use storage_metrics_server.Command.Parts.{provider_of}
use storage_metrics_server.Command.Fresh.{nodes_of, sent_of, heap_after, main_answers_fresh}
use storage_metrics_server.Examples.Data.{node_named, used_value}
use storage_metrics_server.Examples.Requests.{selectors, scope, used_info}
use storage_metrics_server.Examples.Start.{
  objects, cluster, started, outcome, main-outcome, served, has_server, has_route,
}

abbrev sent : Node → Option MetricsBatch
sent = sent_of started

-- The batches of the two kubelets, of which the second is received last.
abbrev asked : Run
asked = record {
  pending = [];
  channel = [];
  received = sent (node_named "a") ∷ sent (node_named "b") ∷ [];
}

asked-Reach : Reach sent (nodes_of started) asked
unfolding wire new_scraper scraped_nodes
asked-Reach =
    next
      (next
        (next
          (next begin (send (node_named "a") (node_named "b" ∷ []) (Picks.here _ _) (omega arith)))
          (send (node_named "b") [] (Picks.here _ _) (omega arith)))
        (receive (sent (node_named "a")) (sent (node_named "b") ∷ []) refl (omega arith)))
      (receive (sent (node_named "b")) [] refl (omega arith))

abbrev request : Request
request = record { info = some used_info; query = [] }

answer :
    list_resource_with_options selectors scope
      (list_values selectors (
        provider_of cluster started
          (heap_after started (pos 8) (some (merged_batch asked.received)) [])))
      request
    ≡ answered (used_value ∷ [])
unfolding list_resource_with_options list_values as_provider convert_url_values lookup insert
    get_metric_by_name get store batch_map is_pvc metric_from_point to_int64 run_until tick
    merged_batch fetched_of get_metrics fetch node_address summary_to_batch wire new_scraper
    new_storage new_manager
answer = refl

-- No external metrics are served.
abbrev list_external : ExternalMetricsProvider Bool → Request → Response
list_external p req = panicked

route_answers :
    route_answer list_external selectors scope has_route.1
      (heap_after started (pos 8) (some (merged_batch asked.received)) [])
      request
    ≡ answered (used_value ∷ [])
route_answers =
    route_answer-Asks cluster.libraries.install cluster.libraries.custom
      (provider_of cluster started) list_external selectors scope has_route.1
      (heap_after started (pos 8) (some (merged_batch asked.received)) []) request has_route.4
    ∙ answer

bare :
    (k : Config objects) (i : Option ℕ) (name : String) (g : GenericServer (Heap Storage) Bool)
    → cluster.libraries.complete k i name ≡ ok g
    → (ws : WebService (Heap Storage) Bool) → Among (version_service ws) g.container.services
    → ⊥
bare k i name g e ws m =
    subst
      (λ (z : GenericServer (Heap Storage) Bool). Among (version_service ws) z.container.services)
      (sym (same e)) m
  where
    same :
        {a b : GenericServer (Heap Storage) Bool}
        → ◌≡◌ {A = Result Error (GenericServer (Heap Storage) Bool)} (ok a) (ok b)
        → a ≡ b
    same e = cc

main_answers_fresh_example :
    IsFreshItem started.kubelet_client (nodes_of started) cluster.overflow used_value
unfolding last_tick scraped_nodes wire new_scraper
main_answers_fresh_example =
    main_answers_fresh cluster list_external selectors scope (pos 8)
      (some (merged_batch asked.received)) [] (pos 8) asked request (used_value ∷ []) used_value
      bare outcome served has_route.0 has_route.1 main-outcome has_server has_route.2 has_route.3
      refl asked-Reach refl route_answers (inl refl)

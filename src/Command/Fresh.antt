-- ===== src/Command/Fresh.antt =====
-- What the command (cmd/storage-metrics-server/main.go) answers while its manager scrapes.
use storage_metrics_server.Base.{
  ◌≡◌, ◌∙◌, ap, refl, sym, subst, inl, inr, Among-append, String, Option, some, List, ◌++◌,
  append-nil, Among, ok,
}
use storage_metrics_server.Memory.{Heap, write, load}
use storage_metrics_server.Storage.{Storage}
use storage_metrics_server.Storage.Types.{Time, MetricsBatch}
use storage_metrics_server.Client.Address.{Node}
use storage_metrics_server.Client.Fetch.{FetchError}
use storage_metrics_server.Scraper.{Labels, merged_batch, scraped_nodes, new_scraper}
use storage_metrics_server.Scraper.FanOut.{Run, Reach, IsDone}
use storage_metrics_server.Manager.{Event, run_until}
use storage_metrics_server.Manager.Last.{last_tick}
use storage_metrics_server.Api.{MetricValue}
use storage_metrics_server.Registry.{Selectors, list_values}
use storage_metrics_server.Handler.{Scope, Request, Response, answered, list_resource_with_options}
use storage_metrics_server.Pipeline.Requests.{IsFreshItem, answered-IsFreshItem}
use storage_metrics_server.Registry.External.{ExternalMetricsProvider}
use storage_metrics_server.Installer.{Route, WebService, Service, version_service}
use storage_metrics_server.Server.{GenericServer}
use storage_metrics_server.Server.Installed.{custom_services}
use storage_metrics_server.Server.Asked.{
  Asks, route_answer, route_answer-Asks, custom_services-Asks,
}
use storage_metrics_server.Command.Whole.{IsServing, main-IsServing}
use storage_metrics_server.Adapter.{Objects, Config}
use storage_metrics_server.Command.{Cluster, Wiring, Outcome, wire, main}
use storage_metrics_server.Command.Parts.{Steps, provider_of, main-Steps}

module _ {l : Labels} {S : Type 0} where
  -- The nodes of the scraper's lister, and what its client sends of one.
  abbrev pub nodes_of : Wiring l S → List Node
  nodes_of x = scraped_nodes l FetchError x.scraper

  abbrev pub sent_of : Wiring l S → Node → Option MetricsBatch
  sent_of x node = (x.scraper.get_metrics node).batch

  -- The memory once the manager's loop has taken the events: only the store of its own pointer is
  -- written.
  abbrev pub heap_after : Wiring l S → Time → Option MetricsBatch → List Event → Heap Storage
  heap_after x now batch events =
      write x.manager.pointer (run_until now batch events (load x.manager x.heap)).0.cache x.heap

module _ {l : Labels} {t : Objects (Heap Storage)} (c : Cluster l t) {F : Type 0}
    (list_resource : ExternalMetricsProvider t.Selector → Request → Response)
    (sel : Selectors t.Selector F) (scope : Scope t.Selector F) (now : Time)
    (batch : Option MetricsBatch) (events : List Event) (time : Time) (s : Run) (req : Request)
    (items : List MetricValue) (v : MetricValue) where
  -- The theorem below, of a wiring.
  abbrev AnswersFresh : Wiring l t.Selector → Type 0
  AnswersFresh x =
      last_tick (now, batch) events ≡ (time, some (merged_batch s.received))
      → Reach (sent_of x) (nodes_of x) s
      → IsDone (sent_of x) (nodes_of x) s
      → list_resource_with_options sel scope
          (list_values sel (provider_of c x (heap_after x now batch events))) req
        ≡ answered items
      → Among v items
      → IsFreshItem x.kubelet_client (nodes_of x) c.overflow v

  wired-AnswersFresh :
      (w : Outcome l t) (p : Steps c w)
      → AnswersFresh
          (wire c p.kubelet_client p.requirements p.parsed.kubelet_options p.parsed.scrape_options)
  unfolding wire new_scraper
  wired-AnswersFresh w p last r d e a =
      let x =
        wire c p.kubelet_client p.requirements p.parsed.kubelet_options p.parsed.scrape_options in
      answered-IsFreshItem p.kubelet_client (nodes_of x) c.overflow
        (load x.provider (heap_after x now batch events)) sel scope now batch events
        (load x.manager x.heap) time s req items v last r d refl e a

  -- A service that the server of the outcome has beyond the generic server's asks the provider of
  -- the wiring.
  served_route :
      (w : Outcome l t) (i : IsServing c w) (server : GenericServer (Heap Storage) t.Selector)
      (ws : WebService (Heap Storage) t.Selector) (r : Route (Heap Storage) t.Selector)
      → (Among (version_service ws) i.generic.container.services → ⊥)
      → w.base.the_server ≡ some server
      → Among (version_service ws) server.container.services
      → Among r ws.routes
      → Asks c.libraries.install c.libraries.custom (provider_of c w.wiring) r
  served_route w i server ws r bare kept m a =
      let libraries = c.libraries.install in
      let own = i.generic.container.services in
      let here =
        subst (Among (version_service ws))
          (ap (λ (z : GenericServer (Heap Storage) t.Selector). z.container.services)
              (same (sym kept ∙ i.kept))
            ∙ i.installed.services
            ∙ append-nil (own ++ added))
          m in
      elim (Among-append (version_service ws) own added here) [
        | inl b ↦ absurd (bare b)
        | inr b ↦
            custom_services-Asks libraries c.libraries.custom (provider_of c w.wiring) ws r
              i.installed.routed b a
      ]
    where
      added : List (Service (Heap Storage) t.Selector)
      added = custom_services c.libraries.install c.libraries.custom (some (provider_of c w.wiring))

      same :
          {a b : GenericServer (Heap Storage) t.Selector}
          → ◌≡◌ {A = Option (GenericServer (Heap Storage) t.Selector)} (some a) (some b)
          → a ≡ b
      same e = cc

  -- What the server that `main` has run answers, if the generic server has no version of an API of its own: once
  -- the manager's loop has taken any events whose last scrape asked the nodes that the scraper lists and
  -- received all values, every value in the list that a route of the server answers a request with, in
  -- the memory in which only the store that the manager has a pointer to was written, is the metric that
  -- it names, of the freshest volume that these nodes' kubelets told the command's client of for the
  -- claim that it names.
  pub main_answers_fresh :
      ((k : Config t) (i : Option t.Informers) (name : String)
          (g : GenericServer (Heap Storage) t.Selector)
        → c.libraries.complete k i name ≡ ok g
        → (ws : WebService (Heap Storage) t.Selector)
        → Among (version_service ws) g.container.services
        → ⊥)
      → (w : Outcome l t) (server : GenericServer (Heap Storage) t.Selector)
        (ws : WebService (Heap Storage) t.Selector) (r : Route (Heap Storage) t.Selector)
      → main c ≡ ok w
      → w.base.the_server ≡ some server
      → Among (version_service ws) server.container.services
      → Among r ws.routes
      → last_tick (now, batch) events ≡ (time, some (merged_batch s.received))
      → Reach (sent_of w.wiring) (nodes_of w.wiring) s
      → IsDone (sent_of w.wiring) (nodes_of w.wiring) s
      → route_answer list_resource sel scope r (heap_after w.wiring now batch events) req
        ≡ answered items
      → Among v items
      → IsFreshItem w.wiring.kubelet_client (nodes_of w.wiring) c.overflow v
  main_answers_fresh bare w server ws r e kept m a last reach done answer among =
      let p = main-Steps c w e in
      let i = main-IsServing c w e in
      let asks =
        served_route w i server ws r
          (bare i.config i.informers "storage-metrics-server" i.generic i.completed ws) kept m a in
      subst AnswersFresh (sym p.wired) (wired-AnswersFresh w p) last reach done
        (sym (
            route_answer-Asks c.libraries.install c.libraries.custom (provider_of c w.wiring)
              list_resource sel scope r (heap_after w.wiring now batch events) req asks)
          ∙ answer)
        among

-- ===== src/Pipeline/Unique.antt =====
-- The cache that a scrape (scraper.go) leaves in the store (storage.go), whatever the order in which the
-- nodes answer.
use storage_metrics_server.Base.{◌≡◌, refl, Option, some, List}
use storage_metrics_server.Storage.Types.{NamespacedName, MetricsBatch}
use storage_metrics_server.Storage.{Storage, store, ready, get}
use storage_metrics_server.Storage.View.{view, Cache-ext}
use storage_metrics_server.Client.Address.{Node}
use storage_metrics_server.Scraper.{merged_batch}
use storage_metrics_server.Scraper.FanOut.{Run, Reach, IsDone}
use storage_metrics_server.Scraper.Cluster.{HasNoNodeTies, scrape_deterministic}

module _ (result : Node → Option MetricsBatch) (nodes : List Node) where
  -- Two scrapes over the same answers of the nodes, run in any two orders, leave one and the same cache,
  -- whatever the store held before each, if no two different samples of a claim have the same time.
  pub stored_view_unique :
      (s t : Run) (old other : Storage)
      → Reach result nodes s
      → IsDone result nodes s
      → Reach result nodes t
      → IsDone result nodes t
      → ((k : NamespacedName) → HasNoNodeTies result nodes k)
      → view (store (some (merged_batch s.received)) old)
        ≡ view (store (some (merged_batch t.received)) other)
  unfolding store ready get
  stored_view_unique s t old other r d r' d' ties =
      Cache-ext (view (store (some (merged_batch s.received)) old))
        (view (store (some (merged_batch t.received)) other)) refl
        (λ k. scrape_deterministic result nodes s t k r d r' d' (ties k))

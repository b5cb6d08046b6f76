-- ===== src/Scraper.antt =====
-- pkg/storagemetrics/scraper/scraper.go: one request to each node at a time of its own, and one
-- batch for the cluster. The merge is here; the goroutines and their channel are in
-- Scraper/FanOut.
pub mod Delay
pub mod Merge
pub mod FanOut
pub mod Cluster
use storage_metrics_server.Base.{
  ℤ, Option, none, some, List, [], ◌∷◌, Map, lookup, insert, if◌then◌else◌, Result, ok, err,
}
use storage_metrics_server.Storage.Types.{
  NamespacedName, name_eq, after, PvcMetricsPoint, MetricsBatch, or_empty,
}
use storage_metrics_server.Client.Address.{Node}

-- k8s.io/apimachinery/pkg/labels, as far as the scraper uses it.
pub record Labels : Type 1 where
  pub Selector : Type 0
  pub Requirement : Type 0
  pub everything : Selector
  pub add : Selector → List Requirement → Selector

-- What a call of `KubeletVolumeMetricsGetter.GetMetrics` returns: Go's pair, either part of which
-- may be nil.
pub record Fetched (E : Type 0) : Type 0 where
  pub batch : Option MetricsBatch
  pub error : Option E

-- The pair that the summary client returns.
unfoldable pub fetched_of : {E : Type 0} → Result E MetricsBatch → Fetched E
fetched_of (ok b) = record { batch = some b; error = none }
fetched_of (err e) = record { batch = none; error = some e }

module _ (l : Labels) where
  open l use {Selector, Requirement, everything, add}

  -- A nil slice of requirements is `none`.
  unfoldable pub selector_for : Option (List Requirement) → Selector
  selector_for none = everything
  selector_for (some rs) = add everything rs

module _ (l : Labels) (E : Type 0) where
  open l use {Selector, Requirement}

  -- `list_nodes` is NodeLister.List: the nodes, and an error, which is logged.
  pub record Scraper : Type 0 where
    pub list_nodes : Selector → List Node × Option E
    pub get_metrics : Node → Fetched E
    pub scrape_timeout : ℤ
    pub label_selector : Selector

  unfoldable pub new_scraper :
      (Selector → List Node × Option E)
      → (Node → Fetched E)
      → ℤ
      → Option (List Requirement)
      → Scraper
  unfolding selector_for
  new_scraper node_lister kc scrape_timeout requirements = record {
    list_nodes = node_lister;
    get_metrics = kc;
    scrape_timeout = scrape_timeout;
    label_selector = selector_for l requirements;
  }

  -- The nodes that `Scrape` goes over: the error of the lister does not stop it.
  unfoldable pub scraped_nodes : Scraper → List Node
  scraped_nodes c = (c.list_nodes c.label_selector).0

-- The body of the inner loop: the point replaces the one in place, unless that is strictly fresher.
unfoldable pub merge_point :
    NamespacedName
    → PvcMetricsPoint
    → Map NamespacedName PvcMetricsPoint
    → Map NamespacedName PvcMetricsPoint
merge_point key point merged = elim (lookup key merged) [
  | none ↦ insert key point merged
  | some existing ↦
      if after existing.timestamp point.timestamp then merged else insert key point merged
]

-- `for key, point := range batch.PVCs`
unfoldable pub merge_points :
    Map NamespacedName PvcMetricsPoint
    → Map NamespacedName PvcMetricsPoint
    → Map NamespacedName PvcMetricsPoint
unfolding merge_point
merge_points [] merged = merged
merge_points ((key, point) ∷ pvcs) merged = merge_points pvcs (merge_point key point merged)

-- The loop over the batches in the order in which they come out of the channel; a nil batch is
-- passed over.
unfoldable pub merge_batches :
    List (Option MetricsBatch)
    → Map NamespacedName PvcMetricsPoint
    → Map NamespacedName PvcMetricsPoint
unfolding merge_points
merge_batches [] merged = merged
merge_batches (none ∷ batches) merged = merge_batches batches merged
merge_batches (some b ∷ batches) merged =
    merge_batches batches (merge_points (or_empty b.pvcs) merged)

unfoldable pub merged_batch : List (Option MetricsBatch) → MetricsBatch
unfolding merge_batches
merged_batch batches = record { pvcs = some (merge_batches batches []) }

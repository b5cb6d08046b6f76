-- ===== src/Provider/Interleaved.antt =====
-- A selector query (provider.go, the loop of `GetMetricBySelector`) while the manager stores new
-- batches: each claim is one call of `Storage.Get`, and a `Store` may come between two of them.
pub mod Alone
pub mod Woven
use storage_metrics_server.Base.{ℕ, ◌≡◌, String, ℤ, Option, none, some, List, [], ◌∷◌, ◌++◌}
use storage_metrics_server.Storage.Types.{MetricsBatch}
use storage_metrics_server.Storage.{Storage, store}
use storage_metrics_server.Api.{MetricValue}
use storage_metrics_server.Provider.{read_claim}

-- `history` are the caches that updates have replaced, and `items` what is appended so far.
pub record Query : Type 0 where
  pub cache : Storage
  pub history : List Storage
  pub remaining : List String
  pub items : List MetricValue

-- The list that a round appends.
abbrev pub appended : Option MetricValue → List MetricValue
appended none = []
appended (some v) = v ∷ []

-- The caches that the query has met.
abbrev pub caches : Query → List Storage
caches q = q.cache ∷ q.history

module _ (overflow : ℕ → ℤ) (namespace metric : String) (pvcs : List String) (first : Storage) where
  abbrev pub asked : Query
  asked = record { cache = first; history = []; remaining = pvcs; items = [] }

  pub data Step (q : Query) : Query → Type 0 where
    update :
        (b : Option MetricsBatch)
        → Step q (record q { cache = store b q.cache; history = q.cache ∷ q.history })
    read :
        (pvc : String) (rest : List String)
        → q.remaining ≡ pvc ∷ rest
        → Step q (record q {
          remaining = rest;
          items = q.items ++ appended (read_claim overflow q.cache namespace metric pvc);
        })

  pub data Reach : Query → Type 0 where
    begin : Reach asked
    next : {q r : Query} → Reach q → Step q r → Reach r

-- ===== src/Manager.antt =====
-- pkg/storagemetrics/manager/manager.go: the loop that scrapes on a timer and stores what it gets.
-- The scraper and the clock are outside: an event of the loop carries the time on the ticker's
-- channel and the batch that the scrape of that tick returned.
pub mod Last
use storage_metrics_server.Base.{ℤ, Bool, true, false, Option, List, [], ◌∷◌}
use storage_metrics_server.Storage.Types.{Time, zero_time, MetricsBatch}
use storage_metrics_server.Storage.{Storage, store}

pub record Manager : Type 0 where
  pub cache : Storage
  pub resolution : ℤ
  pub tick_last_start : Time

unfoldable pub new_manager : Storage → ℤ → Manager
new_manager s resolution = record {
  cache = s;
  resolution = resolution;
  tick_last_start = zero_time;
}

-- The first critical section of `tick`: it comes before the scrape.
unfoldable pub begin_tick : Time → Manager → Manager
begin_tick start m = record m { tick_last_start = start }

-- `m.store.Store(batch)`, after the scrape.
unfoldable pub end_tick : Option MetricsBatch → Manager → Manager
end_tick batch m = record m { cache = store batch m.cache }

unfoldable pub tick : Time → Option MetricsBatch → Manager → Manager
unfolding begin_tick end_tick
tick start batch m = end_tick batch (begin_tick start m)

unfoldable pub last_tick_start : Manager → Time
last_tick_start m = m.tick_last_start

-- What `select` finds ready: the ticker, or the end of the context.
pub data Event : Type 0 where
  ticked : Time → Option MetricsBatch → Event
  cancelled : Event

-- The `for` loop, with whether it has returned; at the end of the list it waits.
unfoldable pub loop : List Event → Manager → Manager × Bool
loop [] m = (m, false)
loop (cancelled ∷ events) m = (m, true)
loop (ticked t batch ∷ events) m = loop events (tick t batch m)

-- `now` is the time of the first tick, which comes at once, and `batch` what that one scraped.
unfoldable pub run_until : Time → Option MetricsBatch → List Event → Manager → Manager × Bool
unfolding loop tick
run_until now batch events m = loop events (tick now batch m)

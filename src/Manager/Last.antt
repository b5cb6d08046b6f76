-- ===== src/Manager/Last.antt =====
-- What the loop of `RunUntil` (manager.go) leaves behind.
use storage_metrics_server.Base.{
  ◌≡◌, refl, true, Option, List, [], ◌∷◌, lookup, Among, ◌↔◌, inl, inr, arith,
}
use storage_metrics_server.Storage.Types.{NamespacedName, name_eq, Time, MetricsBatch}
use storage_metrics_server.Storage.{Storage, batch_map, store, ready, get}
use storage_metrics_server.Manager.{
  Manager, Event, ticked, cancelled, tick, last_tick_start, loop, run_until,
}

-- The last tick that is handled: the time and the batch, starting from those of the tick before.
unfoldable pub last_tick : Time × Option MetricsBatch → List Event → Time × Option MetricsBatch
last_tick t [] = t
last_tick t (cancelled ∷ events) = t
last_tick t (ticked u b ∷ events) = last_tick (u, b) events

-- The manager shows the tick `t`: its start, and its batch alone in a cache that is ready.
pub record Shows (t : Time × Option MetricsBatch) (m : Manager) : Type 0 where
  pub start : last_tick_start m ≡ t.0
  pub is_ready : ready m.cache ≡ true
  pub reads : (k : NamespacedName) → get k m.cache ≡ lookup k (batch_map t.1)

tick-Shows : (t : Time) (b : Option MetricsBatch) (m : Manager) → Shows (t, b) (tick t b m)
unfolding tick last_tick_start store ready get
tick-Shows t b m = record { start = refl; is_ready = refl; reads = λ k. refl }

loop-Shows :
    (t : Time × Option MetricsBatch) (events : List Event) (m : Manager)
    → Shows t m
    → Shows (last_tick t events) (loop events m).0
unfolding loop last_tick
loop-Shows t [] m h = h
loop-Shows t (cancelled ∷ events) m h = h
loop-Shows t (ticked u b ∷ events) m h = loop-Shows (u, b) events (tick u b m) (tick-Shows u b m)

-- The cache that the loop leaves is what `Store` made of the last tick's batch.
pub loop-store :
    (t : Time × Option MetricsBatch) (before : Storage) (events : List Event) (m : Manager)
    → m.cache ≡ store t.1 before
    → (b : Storage) × ((loop events m).0.cache ≡ store (last_tick t events).1 b)
unfolding loop last_tick tick
loop-store t before [] m h = (before, h)
loop-store t before (cancelled ∷ events) m h = (before, h)
loop-store t before (ticked u b ∷ events) m h = loop-store (u, b) m.cache events (tick u b m) refl

loop-returned :
    (events : List Event) (m : Manager) → ((loop events m).1 ≡ true) ↔ Among cancelled events
unfolding loop
loop-returned [] m = (λ e. absurd (ground arith), λ a. absurd a)
loop-returned (cancelled ∷ events) m = (λ e. inl refl, λ a. refl)
loop-returned (ticked t b ∷ events) m =
    let r = loop-returned events (tick t b m) in (λ e. inr (r.0 e), λ a. r.1 (after_tick a))
  where
    after_tick : Among cancelled (ticked t b ∷ events) → Among cancelled events
    after_tick (inl e) = cc
    after_tick (inr a) = a

-- After any events the manager shows the last tick that came before the context ended: its start
-- time, and its batch alone in a cache that is ready; and the loop has returned exactly if the
-- context has ended.
pub run_until-Shows :
    (now : Time) (batch : Option MetricsBatch) (events : List Event) (m : Manager)
    → Shows (last_tick (now, batch) events) (run_until now batch events m).0
      × (((run_until now batch events m).1 ≡ true) ↔ Among cancelled events)
unfolding run_until
run_until-Shows now batch events m = (
  loop-Shows (now, batch) events (tick now batch m) (tick-Shows now batch m),
  loop-returned events (tick now batch m),
)

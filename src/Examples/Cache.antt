-- ===== src/Examples/Cache.antt =====
-- The cache with two claims, the loop over two ticks, and a reader of the lock.
use storage_metrics_server.Base.{
  string_eq, ◌≡◌, refl, ◌↔◌, pos, true, some, List, [], ◌∷◌, lookup, Among,
}
use storage_metrics_server.Storage.{Storage, new_storage, store, get, list_namespace}
use storage_metrics_server.Storage.Laws.{IsWellFormed, lookup-list_namespace}
use storage_metrics_server.Storage.Locking.{
  readers, Shared, start, Reach, here, next, lock_write, set_pvcs, set_ready, unlock_write,
  lock_read, current, readers_see_committed,
}
use storage_metrics_server.Manager.{Manager, new_manager, Event, ticked, cancelled, run_until}
use storage_metrics_server.Manager.Last.{last_tick, Shows, run_until-Shows}
use storage_metrics_server.Examples.Data.{claim, sample, batch_a, batch_b}

abbrev two_claims : Storage
two_claims = record {
  pvcs =
      (claim, sample "a" (pos 5))
      ∷ (record { namespace = "other"; name = "data" }, sample "b" (pos 7))
      ∷ [];
  ready_flag = true;
}

two_claims-IsWellFormed : IsWellFormed two_claims
unfolding lookup
two_claims-IsWellFormed = (refl, (refl, tt))

lookup-list_namespace_example :
    lookup "data" (list_namespace "apps" two_claims)
    ≡ get (record { namespace = "apps"; name = "data" }) two_claims
lookup-list_namespace_example =
    lookup-list_namespace "apps" "data" two_claims two_claims-IsWellFormed

abbrev read_after_store : Shared
unfolding store new_storage
read_after_store = record {
  lock = readers 1;
  storage = store (some batch_a) new_storage;
  committed = some batch_a ∷ [];
}

read_after_store-Reach : Reach start read_after_store
unfolding store new_storage
read_after_store-Reach =
    next
      (next
        (next (next (next here (lock_write (some batch_a) refl)) (set_pvcs (some batch_a) refl))
          (set_ready (some batch_a) refl))
        (unlock_write (some batch_a) refl))
      (lock_read refl)

readers_see_committed_example : read_after_store.storage ≡ current read_after_store.committed
unfolding read_after_store
readers_see_committed_example = readers_see_committed read_after_store 1 read_after_store-Reach refl

abbrev events : List Event
events = ticked (pos 60) (some batch_b) ∷ cancelled ∷ []

abbrev manager : Manager
manager = new_manager new_storage (pos 60)

run_until-Shows_example :
    Shows
      (last_tick (pos 0, some batch_a) events)
      (run_until (pos 0) (some batch_a) events manager).0
    × (((run_until (pos 0) (some batch_a) events manager).1 ≡ true) ↔ Among cancelled events)
run_until-Shows_example = run_until-Shows (pos 0) (some batch_a) events manager

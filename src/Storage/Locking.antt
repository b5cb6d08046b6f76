-- ===== src/Storage/Locking.antt =====
-- The mutex of `Storage`: any number of goroutines call its methods, and their steps interleave.
-- `Store` writes its two fields one after the other under the write lock; the readers run under the
-- read lock.
use storage_metrics_server.Base.{ℕ, suc, ◌≡◌, refl, true, Option, List, [], ◌∷◌, arith}
use storage_metrics_server.Storage.Types.{MetricsBatch}
use storage_metrics_server.Storage.{Storage, new_storage, batch_map, store}

-- sync.RWMutex, with the point that its writer has reached.
pub data Lock : Type 0 where
  free : Lock
  readers : ℕ → Lock
  locked swapped flagged : Option MetricsBatch → Lock

-- `committed` records the batches of the calls of `Store` that have returned, the last one first.
pub record Shared : Type 0 where
  pub lock : Lock
  pub storage : Storage
  pub committed : List (Option MetricsBatch)

abbrev pub start : Shared
unfolding new_storage
start = record { lock = free; storage = new_storage; committed = [] }

-- One step of one goroutine.
pub data Step (s : Shared) : Shared → Type 0 where
  lock_write : (b : Option MetricsBatch) → s.lock ≡ free → Step s (record s { lock = locked b })
  set_pvcs :
      (b : Option MetricsBatch)
      → s.lock ≡ locked b
      → Step s (record s { lock = swapped b; storage = record (s.storage) { pvcs = batch_map b } })
  set_ready :
      (b : Option MetricsBatch)
      → s.lock ≡ swapped b
      → Step s (record s { lock = flagged b; storage = record (s.storage) { ready_flag = true } })
  unlock_write :
      (b : Option MetricsBatch)
      → s.lock ≡ flagged b
      → Step s (record s { lock = free; committed = b ∷ s.committed })
  lock_read : s.lock ≡ free → Step s (record s { lock = readers 1 })
  join_read : (n : ℕ) → s.lock ≡ readers n → Step s (record s { lock = readers (suc n) })
  leave_read :
      (n : ℕ) → s.lock ≡ readers (suc (suc n)) → Step s (record s { lock = readers (suc n) })
  unlock_read : s.lock ≡ readers 1 → Step s (record s { lock = free })

pub data Reach (s : Shared) : Shared → Type 0 where
  here : Reach s s
  next : {t u : Shared} → Reach s t → Step t u → Reach s u

-- The cache that the calls of `Store` leave when none of them is under way.
pub current : List (Option MetricsBatch) → Storage
current [] = new_storage
current (b ∷ bs) = store b (current bs)

-- What the cache holds at each point of the writer.
abbrev Agrees : Lock → Shared → Type 0
Agrees free s = s.storage ≡ current s.committed
Agrees (readers n) s = s.storage ≡ current s.committed
Agrees (locked b) s = s.storage ≡ current s.committed
Agrees (swapped b) s = s.storage.pvcs ≡ batch_map b
Agrees (flagged b) s = s.storage ≡ store b (current s.committed)

Step-Agrees : {s t : Shared} → Step s t → Agrees s.lock s → Agrees t.lock t
unfolding store current
Step-Agrees (lock_write b e) h = ground arith
Step-Agrees (set_pvcs b e) h = refl
Step-Agrees (set_ready b e) h = ground arith
Step-Agrees (unlock_write b e) h = ground arith
Step-Agrees (lock_read e) h = ground arith
Step-Agrees (join_read n e) h = ground arith
Step-Agrees (leave_read n e) h = ground arith
Step-Agrees (unlock_read e) h = ground arith

Reach-Agrees : {s t : Shared} → Reach s t → Agrees s.lock s → Agrees t.lock t
Reach-Agrees here h = h
Reach-Agrees (next r st) h = Step-Agrees st (Reach-Agrees r h)

-- However the calls interleave, a goroutine that holds the read lock sees the cache as the last
-- call of `Store` that returned left it (or as it was made), never a part of an update.
pub readers_see_committed :
    (s : Shared) (n : ℕ) → Reach start s → s.lock ≡ readers n → s.storage ≡ current s.committed
unfolding new_storage current
readers_see_committed s n r e = let h = Reach-Agrees r refl in ground arith

-- ===== src/Memory.antt =====
-- The objects that others hold by a pointer: the store of cmd/storage-metrics-server/main.go, and the
-- provider of test-adapter/main.go.
use storage_metrics_server.Base.{ℕ, suc, nat_beq, if◌then◌else◌}

abbrev pub Pointer : Type 0
Pointer = ℕ

-- `next` is the first pointer that is not in use.
pub record Heap {ℓ} (A : Type ℓ) : Type ℓ where
  pub next : Pointer
  pub cell : Pointer → A

-- An object that holds a pointer, by what it is over the contents of that cell.
pub record Sharing {ℓ} (A B : Type ℓ) : Type ℓ where
  pub pointer : Pointer
  pub over : A → B

-- Nothing is allocated; a cell that is not in use holds `a`.
abbrev pub unused {ℓ} : {A : Type ℓ} → A → Heap A
unused a = record { next = 0; cell = λ q. a }

abbrev pub write {ℓ} : {A : Type ℓ} → Pointer → A → Heap A → Heap A
write p a h = record h { cell = λ q. if nat_beq q p then a else h.cell q }

-- A new cell that holds `a`.
abbrev pub alloc {ℓ} : {A : Type ℓ} → A → Heap A → Pointer × Heap A
alloc a h = (h.next, write h.next a (record h { next = suc h.next }))

-- What the object is in the heap.
abbrev pub load {ℓ} : {A B : Type ℓ} → Sharing A B → Heap A → B
load o h = o.over (h.cell o.pointer)

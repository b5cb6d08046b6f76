-- ===== src/Storage/View.antt =====
-- The cache (pkg/storagemetrics/storage/storage.go) as its readers know it: what Ready and Get answer,
-- without the order of the map's entries.
use mathlib.Core.Quot
use mathlib.Core.Quot.{Quot, Quot-set}
use text.Mathlib.TextEquality.{IsScalar-prop}
use storage_metrics_server.Base.{◌≡◌, refl, Bool, true, Option, lookup}
use storage_metrics_server.Storage.Types.{NamespacedName, name_eq, PvcMetricsPoint, MetricsBatch}
use storage_metrics_server.Storage.{Storage, batch_map, store, ready, get}

-- No reader tells the two apart.
abbrev pub AreAlike : Storage → Storage → Type 0
AreAlike s t = (ready s ≡ ready t) × ((k : NamespacedName) → get k s ≡ get k t)

abbrev pub Cache : Type 0
Cache = Quot AreAlike

abbrev pub view : Storage → Cache
view s = Quot.mk s

pub point_set : IsSet (Option PvcMetricsPoint)
point_set = hlevel (IsScalar-prop)

pub bool_set : IsSet Bool
bool_set = hlevel

abbrev pub is_ready : Cache → Bool
is_ready = Quot.lift bool_set ready (λ s t h. h.0)

abbrev pub peek : NamespacedName → Cache → Option PvcMetricsPoint
peek k = Quot.lift point_set (get k) (λ s t h. h.1 k)

pub store-AreAlike : (b : Option MetricsBatch) (s t : Storage) → AreAlike (store b s) (store b t)
unfolding store ready get
store-AreAlike b s t = (refl, λ k. refl)

abbrev pub put : Option MetricsBatch → Cache → Cache
put b = Quot.lift Quot-set (λ s. view (store b s)) (λ s t h. Quot.sound (store-AreAlike b s t))

-- Two caches are one if Ready and Get answer alike for them.
pub Cache-ext :
    (c d : Cache) → is_ready c ≡ is_ready d → ((k : NamespacedName) → peek k c ≡ peek k d) → c ≡ d
Cache-ext =
    Quot.ind (λ c. hlevel (Quot-set))
      (λ s. Quot.ind (λ d. hlevel (Quot-set)) (λ t e h. Quot.sound (e, h)))

-- An update leaves nothing of the cache before it, and answers from its batch.
peek-put :
    (k : NamespacedName) (b : Option MetricsBatch) (c : Cache)
    → (is_ready (put b c) ≡ true) × (peek k (put b c) ≡ lookup k (batch_map b))
unfolding store ready get
peek-put k b = Quot.ind (λ c. hlevel (bool_set, point_set)) (λ s. (refl, refl))

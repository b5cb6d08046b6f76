-- ===== src/Storage/Types.antt =====
-- The types of pkg/storagemetrics/storage/types.go, and what they take from apimachinery and from
-- Go's `time`: `NamespacedName` is types.NamespacedName, a `Time` is the instant in nanoseconds
-- since Go's zero time (1 January of the year 1, UTC), negative before it. Monotonic clock
-- readings and locations are not kept.
use storage_metrics_server.Base.{
  ℕ, String, ◌≡◌, ◌↔◌, Bool, true, ◌&&◌, string_eq, Option, none, some, ℤ, pos, ltb_ℤ, beq_ℤ, Map,
  [], Eq, ◌==◌, arith,
}

pub record NamespacedName : Type 0 where
  pub namespace : String
  pub name : String

abbrev pub same_name : NamespacedName → NamespacedName → Bool
same_name a b = (a.namespace == b.namespace) && (a.name == b.name)

pub same_name_iff : (a b : NamespacedName) → (same_name a b ≡ true) ↔ (a ≡ b)
same_name_iff a b =
    ground (arith, Eq.beq_iff string_eq a.namespace b.namespace, Eq.beq_iff string_eq a.name b.name)

instance abbrev pub name_eq : Eq NamespacedName
name_eq = record { beq = same_name; beq_iff = same_name_iff }

abbrev pub Time : Type 0
Time = ℤ

-- t.After(u)
abbrev pub after : Time → Time → Bool
after t u = ltb_ℤ u t

abbrev pub zero_time : Time
zero_time = pos 0

-- t.IsZero()
abbrev pub is_zero : Time → Bool
is_zero t = beq_ℤ t zero_time

pub record PvcMetricsPoint : Type 0 where
  pub node : String
  pub timestamp : Time
  pub capacity_bytes : ℕ
  pub available_bytes : ℕ
  pub used_bytes : ℕ
  pub inodes : ℕ
  pub inodes_free : ℕ
  pub inodes_used : ℕ
  pub has_inodes : Bool
  pub has_capacity : Bool

-- The map of a batch may be nil (`none`), which reads as the empty map.
pub record MetricsBatch : Type 0 where
  pub pvcs : Option (Map NamespacedName PvcMetricsPoint)

abbrev pub or_empty :
    Option (Map NamespacedName PvcMetricsPoint) → Map NamespacedName PvcMetricsPoint
or_empty none = []
or_empty (some m) = m

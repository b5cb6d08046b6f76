-- ===== src/Provider/Metrics.antt =====
-- Which metrics a sample answers, and in which range the answers lie.
use storage_metrics_server.Base.{
  ℕ, suc, ◌^◌, ◌≤◌, ◌<◌, ◌≡◌, ◌↔◌, refl, String, ℤ, pos, Bool, true, false, Option, none, some,
  Among, All-Among, zero, ◌==◌, string_eq, Eq, arith, if◌then◌else◌,
}
use storage_metrics_server.Storage.Types.{PvcMetricsPoint, zero_time}
use storage_metrics_server.Float.{milli_of}
use storage_metrics_server.Float.Percentage.{milli_of-close}
use storage_metrics_server.Api.{Quantity, Format, binary_si, decimal_si, milli}
use storage_metrics_server.Provider.{
  all_metrics, metric_from_point, metric_volume_capacity_bytes, metric_volume_available_bytes,
  metric_volume_used_bytes, metric_volume_used_percentage, metric_volume_inodes,
  metric_volume_inodes_free, metric_volume_inodes_used, metric_volume_inodes_used_percentage,
  to_int64, float_to_int64, counter, percentage,
}

-- A sample that has every number.
abbrev full_point : PvcMetricsPoint
full_point = record {
  node = "";
  timestamp = zero_time;
  capacity_bytes = 1;
  available_bytes = 1;
  used_bytes = 0;
  inodes = 1;
  inodes_free = 1;
  inodes_used = 0;
  has_inodes = true;
  has_capacity = true;
}

-- The fields are below 2^63, and the used parts are at most their wholes.
pub record IsSane (p : PvcMetricsPoint) : Type 0 where
  pub capacity : p.capacity_bytes < 2 ^ 63
  pub available : p.available_bytes < 2 ^ 63
  pub used : p.used_bytes ≤ p.capacity_bytes
  pub inodes : p.inodes < 2 ^ 63
  pub inodes_free : p.inodes_free < 2 ^ 63
  pub inodes_used : p.inodes_used ≤ p.inodes

-- Not negative, and in thousandths at most 100000.
abbrev pub IsInRange : Quantity → Type 0
IsInRange q = (n : ℕ) × (q.amount ≡ pos n) × (q.scale ≡ milli → n ≤ 100000)

module _ (overflow : ℕ → ℤ) where
  abbrev IsAnswered : String → Type 0
  IsAnswered m = (q : Quantity) × (metric_from_point overflow m full_point ≡ some q)

  answers_all : (m : String) → Among m all_metrics → IsAnswered m
  unfolding metric_from_point
  answers_all m a =
      All-Among IsAnswered m all_metrics
        (
          (_, refl),
          (
            (_, refl),
            ((_, refl), ((_, refl), ((_, refl), ((_, refl), ((_, refl), ((_, refl), tt)))))),
          ),
        )
        a

  answers_advertised :
      (m : String) (p : PvcMetricsPoint) (q : Quantity)
      → metric_from_point overflow m p ≡ some q
      → Among m all_metrics
  unfolding metric_from_point
  answers_advertised m p q h = ground (
    arith,
    Eq.beq_iff string_eq m metric_volume_capacity_bytes,
    Eq.beq_iff string_eq m metric_volume_available_bytes,
    Eq.beq_iff string_eq m metric_volume_used_bytes,
    Eq.beq_iff string_eq m metric_volume_used_percentage,
    Eq.beq_iff string_eq m metric_volume_inodes,
    Eq.beq_iff string_eq m metric_volume_inodes_free,
    Eq.beq_iff string_eq m metric_volume_inodes_used,
    Eq.beq_iff string_eq m metric_volume_inodes_used_percentage,
  )

  to_int64-pos : (n : ℕ) → n < 2 ^ 63 → to_int64 n ≡ pos n
  unfolding to_int64
  to_int64-pos n h = ground arith

  counter-IsInRange :
      (has : Bool) (n : ℕ) (f : Format) (q : Quantity)
      → n < 2 ^ 63
      → counter has n f ≡ some q
      → IsInRange q
  counter-IsInRange true n f q h e = (n, ground (arith, to_int64-pos n h), λ s. ground arith)
  counter-IsInRange false n f q h e = cc

  float_to_int64-pos : (t : ℕ) → t ≤ 100000 → float_to_int64 overflow t ≡ pos t
  unfolding float_to_int64
  float_to_int64-pos t h = ground arith

  percentage-IsInRange :
      (has : Bool) (part whole : ℕ) (q : Quantity)
      → whole < 2 ^ 63
      → part ≤ whole
      → percentage overflow has part whole ≡ some q
      → IsInRange q
  percentage-IsInRange false part whole q h l e = cc
  percentage-IsInRange true part zero q h l e = cc
  percentage-IsInRange true part (suc n) q h l e =
      let c = milli_of-close part (suc n) (omega arith) (omega (arith, h)) l in
      let m : milli_of part (suc n) ≤ 100000 = c.0 in
      (milli_of part (suc n), ground (arith, float_to_int64-pos (milli_of part (suc n)) m), λ s. m)

  record Ranged (o : Option Quantity) : Type 0 where
    at : (q : Quantity) → o ≡ some q → IsInRange q

  if_Ranged : (b : Bool) {x y : Option Quantity} → Ranged x → Ranged y → Ranged (if b then x else y)
  if_Ranged true rx ry = rx
  if_Ranged false rx ry = ry

  counter-Ranged : (has : Bool) (n : ℕ) (f : Format) → n < 2 ^ 63 → Ranged (counter has n f)
  counter-Ranged has n f h = record { at = λ q. counter-IsInRange has n f q h }

  percentage-Ranged :
      (has : Bool) (part whole : ℕ)
      → whole < 2 ^ 63
      → part ≤ whole
      → Ranged (percentage overflow has part whole)
  percentage-Ranged has part whole h l = record {
    at = λ q. percentage-IsInRange has part whole q h l;
  }

  none-Ranged : Ranged none
  none-Ranged = record { at = λ q e. absurd (none-ne-some e) }
    where
      none-ne-some : {q : Quantity} → none ≡ some q → ⊥
      none-ne-some e = cc

  metric_from_point-Ranged :
      (m : String) (p : PvcMetricsPoint) → IsSane p → Ranged (metric_from_point overflow m p)
  unfolding metric_from_point
  metric_from_point-Ranged m p s =
      if_Ranged (m == metric_volume_capacity_bytes)
        (counter-Ranged p.has_capacity p.capacity_bytes binary_si s.capacity)
        (if_Ranged (m == metric_volume_available_bytes)
          (counter-Ranged p.has_capacity p.available_bytes binary_si s.available)
          (if_Ranged (m == metric_volume_used_bytes)
            (counter-Ranged true p.used_bytes binary_si (omega (arith, s.used, s.capacity)))
            (if_Ranged (m == metric_volume_used_percentage)
              (percentage-Ranged p.has_capacity p.used_bytes p.capacity_bytes s.capacity s.used)
              (if_Ranged (m == metric_volume_inodes)
                (counter-Ranged p.has_inodes p.inodes decimal_si s.inodes)
                (if_Ranged (m == metric_volume_inodes_free)
                  (counter-Ranged p.has_inodes p.inodes_free decimal_si s.inodes_free)
                  (if_Ranged (m == metric_volume_inodes_used)
                    (counter-Ranged p.has_inodes p.inodes_used decimal_si
                      (omega (arith, s.inodes_used, s.inodes)))
                    (if_Ranged (m == metric_volume_inodes_used_percentage)
                      (percentage-Ranged p.has_inodes p.inodes_used p.inodes s.inodes s.inodes_used)
                      (none-Ranged))))))))

  -- A sample with sane fields is answered with values that are not negative, and with percentages
  -- of at most 100000 thousandths, whatever the metric.
  pub metric_from_point-IsInRange :
      (m : String) (p : PvcMetricsPoint) (q : Quantity)
      → IsSane p
      → metric_from_point overflow m p ≡ some q
      → IsInRange q
  metric_from_point-IsInRange m p q s = (metric_from_point-Ranged m p s).at q

  -- The advertised metrics are exactly those that some sample answers.
  pub advertised_iff_answered :
      (m : String)
      → Among m all_metrics
        ↔ ((p : PvcMetricsPoint) × (q : Quantity) × (metric_from_point overflow m p ≡ some q))
  advertised_iff_answered m = (
    λ a. let r = answers_all m a in (full_point, r.0, r.1),
    λ h. answers_advertised m h.0 h.1 h.2,
  )

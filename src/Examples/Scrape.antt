-- ===== src/Examples/Scrape.antt =====
-- Scrapes of the two nodes, in two orders, and the whole path of a sample.
use storage_metrics_server.Base.{
  ℤ, pos, String, ◌≡◌, refl, sym, subst, ◌∙◌, ◌⊎◌, inl, inr, Among, Option, none, some, [], ◌∷◌,
  lookup, insert, ◌==◌, string_eq, if◌then◌else◌, arith,
}
use storage_metrics_server.Storage.Types.{
  NamespacedName, name_eq, PvcMetricsPoint, MetricsBatch, or_empty,
}
use storage_metrics_server.Client.Address.{Node}
use storage_metrics_server.Client.Summary.{summary_to_batch}
use storage_metrics_server.Client.Summary.Usable.{volumes}
use storage_metrics_server.Client.Summary.Freshest.{IsFreshest, summary_to_batch-IsFreshest}
use storage_metrics_server.Base.{List, ℕ, ◌-◌, ◌+◌, ◌*◌, ◌≤◌, ltb, All, length}
use storage_metrics_server.Scraper.Delay.{
  Turn, DrawsBelow, delay_per_source_ms, max_delay_ms, scrape_ms, scrape_ms_bounded,
}
use storage_metrics_server.Storage.{store, new_storage}
use storage_metrics_server.Storage.View.{view}
use storage_metrics_server.Pipeline.Unique.{stored_view_unique}
use storage_metrics_server.Scraper.{merged_batch}
use storage_metrics_server.Scraper.FanOut.{Run, Picks, send, receive, Reach, begin, next}
use storage_metrics_server.Scraper.FanOut.Progress.{IsLive, fan_out_ends}
use storage_metrics_server.Scraper.Cluster.{
  IsClusterFreshest, HasNoNodeTies, scrape-IsClusterFreshest,
}
use storage_metrics_server.Examples.Data.{
  claim, sample, batch_a, batch_b, node_named, nodes, summary,
}

abbrev answer : Node → Option MetricsBatch
answer n = if n.name == "a" then some batch_a else some batch_b

abbrev in_order : Run
in_order = record { pending = []; channel = []; received = some batch_a ∷ some batch_b ∷ [] }

abbrev out_of_order : Run
out_of_order = record { pending = []; channel = []; received = some batch_b ∷ some batch_a ∷ [] }

in_order-Reach : Reach answer nodes in_order
in_order-Reach =
    next
      (next
        (next
          (next begin (send (node_named "a") (node_named "b" ∷ []) (Picks.here _ _) (omega arith)))
          (receive (some batch_a) [] refl (omega arith)))
        (send (node_named "b") [] (Picks.here _ _) (omega arith)))
      (receive (some batch_b) [] refl (omega arith))

out_of_order-Reach : Reach answer nodes out_of_order
out_of_order-Reach =
    next
      (next
        (next
          (next begin (
            send (node_named "b") (node_named "a" ∷ []) (Picks.there _ _ _ _ (Picks.here _ _))
              (omega arith)))
          (send (node_named "a") [] (Picks.here _ _) (omega arith)))
        (receive (some batch_b) (some batch_a ∷ []) refl (omega arith)))
      (receive (some batch_a) [] refl (omega arith))

-- The loop keeps node b's sample in both orders.
orders :
    (lookup claim (or_empty (merged_batch in_order.received).pvcs) ≡ some (sample "b" (pos 7)))
    × (lookup claim (or_empty (merged_batch out_of_order.received).pvcs)
        ≡ some (sample "b" (pos 7)))
unfolding merged_batch lookup insert
orders = (refl, refl)

scrape-IsClusterFreshest_example :
    IsClusterFreshest answer nodes claim
      (lookup claim (or_empty (merged_batch in_order.received).pvcs))
scrape-IsClusterFreshest_example =
    scrape-IsClusterFreshest answer nodes in_order claim in_order-Reach refl

some_inj : {x y : MetricsBatch} → some x ≡ some y → x ≡ y
some_inj e = cc

of_batch :
    (k : NamespacedName) (b : MetricsBatch) (node : String) (t : ℤ) (p : PvcMetricsPoint)
    → record { pvcs = some ((claim, sample node t) ∷ []) } ≡ b
    → Among (k, p) (or_empty b.pvcs)
    → p ≡ sample node t
of_batch k b node t p e a =
    elim (subst (λ (c : MetricsBatch). Among (k, p) (or_empty c.pvcs)) (sym e) a) [
      | inl f ↦ cc
      | inr f ↦ absurd f
    ]

answer-cases :
    (k : NamespacedName) (n : Node) (b : MetricsBatch) (p : PvcMetricsPoint)
    → Among n nodes
    → answer n ≡ some b
    → Among (k, p) (or_empty b.pvcs)
    → (p ≡ sample "a" (pos 5)) ⊎ (p ≡ sample "b" (pos 7))
answer-cases k n b p (inl e) g a =
    let f : some batch_a ≡ some b = subst (λ m. answer m ≡ some b) (sym e) g in
    inl (of_batch k b "a" (pos 5) p (some_inj f) a)
answer-cases k n b p (inr (inl e)) g a =
    let f : some batch_b ≡ some b = subst (λ m. answer m ≡ some b) (sym e) g in
    inr (of_batch k b "b" (pos 7) p (some_inj f) a)
answer-cases k n b p (inr (inr e)) g a = absurd e

-- The two nodes give the claim at different times, so that its samples have no ties.
no_ties : (k : NamespacedName) → HasNoNodeTies answer nodes k
no_ties k p q r s e = elim (answer-cases k r.node r.batch p r.listed r.gave r.sample) [
  | inl x ↦ elim (answer-cases k s.node s.batch q s.listed s.gave s.sample) [
    | inl y ↦ x ∙ sym y
    | inr y ↦ absurd (ground (arith, x, y, e))
  ]
  | inr x ↦ elim (answer-cases k s.node s.batch q s.listed s.gave s.sample) [
    | inl y ↦ absurd (ground (arith, x, y, e))
    | inr y ↦ x ∙ sym y
  ]
]

stored_view_unique_example :
    view (store (some (merged_batch in_order.received)) new_storage)
    ≡ view (store (some (merged_batch out_of_order.received)) new_storage)
stored_view_unique_example =
    stored_view_unique answer nodes in_order out_of_order new_storage new_storage in_order-Reach
      refl out_of_order-Reach refl no_ties

fan_out_ends_example : IsLive answer nodes in_order-Reach
fan_out_ends_example = fan_out_ends answer nodes in_order-Reach

summary_to_batch-IsFreshest_example :
    IsFreshest claim "a"
      (pos 9)
      (volumes summary.pods)
      (lookup claim (or_empty (summary_to_batch summary (pos 9) "a").pvcs))
summary_to_batch-IsFreshest_example = summary_to_batch-IsFreshest claim summary (pos 9) "a"

-- Two nodes, of which one draws the longest sleep and both answer in time.
abbrev turns : List Turn
turns =
    record { intn = λ n. if ltb 0 n then some (n - 1) else none; fetch_ms = 700 }
    ∷ record { intn = λ n. if ltb 0 n then some 0 else none; fetch_ms = 10000 }
    ∷ []

draws : All DrawsBelow turns
draws = (
  λ n h. (n - 1, ground (arith, h), omega (arith, h)),
  (λ n h. (0, ground (arith, h), omega (arith, h)), tt),
)

scrape_ms_bounded_example :
    (m : ℕ) × (scrape_ms turns ≡ some m)
    × (m ≤ delay_per_source_ms * length turns + 10000)
    × (m ≤ max_delay_ms + 10000)
scrape_ms_bounded_example = scrape_ms_bounded 10000 turns draws (omega arith, (omega arith, tt))

-- ===== src/Freshness.antt =====
-- The reference for "the freshest sample wins" (DESIGN.md, section 3): what a list of reports says
-- of one claim, on its own and with no map. The two loops that keep the freshest sample,
-- summaryToBatch and Scrape, are compared with it.
pub mod Order
use storage_metrics_server.Base.{
  ◌≡◌, ◌⊎◌, inl, inr, false, Option, none, some, List, [], ◌∷◌, Among, ◌==◌, Eq, if◌then◌else◌,
  arith, beq_refl,
}
use storage_metrics_server.Storage.Types.{NamespacedName, name_eq, PvcMetricsPoint, after}

abbrev pub Report : Type 0
Report = NamespacedName × PvcMetricsPoint

-- The sample that is kept when `p` arrives: the old one only if it is strictly fresher.
unfoldable pub pick : Option PvcMetricsPoint → PvcMetricsPoint → PvcMetricsPoint
pick none p = p
pick (some e) p = if after e.timestamp p.timestamp then e else p

unfoldable pub take_report :
    NamespacedName → Option PvcMetricsPoint → Report → Option PvcMetricsPoint
unfolding pick
take_report k o (j, p) = if j == k then some (pick o p) else o

-- What is kept for the claim `k` after the reports, from `o`.
unfoldable pub best : NamespacedName → Option PvcMetricsPoint → List Report → Option PvcMetricsPoint
unfolding take_report
best k o [] = o
best k o (r ∷ rs) = best k (take_report k o r) rs

-- `q` is not strictly fresher than the sample kept.
abbrev pub NotFresher : PvcMetricsPoint → Option PvcMetricsPoint → Type 0
NotFresher q none = ⊥
NotFresher q (some p) = after q.timestamp p.timestamp ≡ false

take_report-NotFresher :
    (k : NamespacedName) (o : Option PvcMetricsPoint) (r : Report) (q : PvcMetricsPoint)
    → NotFresher q o
    → NotFresher q (take_report k o r)
unfolding take_report
take_report-NotFresher k none (j, p) q h = absurd h
take_report-NotFresher k (some e) (j, p) q h = ground arith

best-NotFresher :
    (k : NamespacedName) (o : Option PvcMetricsPoint) (rs : List Report) (q : PvcMetricsPoint)
    → NotFresher q o
    → NotFresher q (best k o rs)
unfolding best
best-NotFresher k o [] q h = h
best-NotFresher k o (r ∷ rs) q h =
    best-NotFresher k (take_report k o r) rs q (take_report-NotFresher k o r q h)

take_report_self :
    (k : NamespacedName) (o : Option PvcMetricsPoint) (r : Report) (q : PvcMetricsPoint)
    → r ≡ (k, q)
    → NotFresher q (take_report k o r)
unfolding take_report
take_report_self k none (j, p) q e = ground (arith, beq_refl k)
take_report_self k (some x) (j, p) q e = ground (arith, beq_refl k)

-- No report of the claim is strictly fresher than the sample kept for it; in particular a claim
-- that is reported has a sample.
pub best-freshest :
    (k : NamespacedName) (o : Option PvcMetricsPoint) (rs : List Report) (q : PvcMetricsPoint)
    → Among (k, q) rs
    → NotFresher q (best k o rs)
unfolding best
best-freshest k o [] q a = absurd a
best-freshest k o (r ∷ rs) q (inl e) =
    best-NotFresher k (take_report k o r) rs q (take_report_self k o r q e)
best-freshest k o (r ∷ rs) q (inr a) = best-freshest k (take_report k o r) rs q a

take_report-source :
    (k : NamespacedName) (o : Option PvcMetricsPoint) (r : Report) (p : PvcMetricsPoint)
    → take_report k o r ≡ some p
    → (o ≡ some p) ⊎ (r ≡ (k, p))
unfolding take_report
take_report-source k none (j, q) p e = ground (arith, Eq.beq_iff name_eq j k)
take_report-source k (some x) (j, q) p e = ground (arith, Eq.beq_iff name_eq j k)

-- The sample kept for a claim is one that was reported of it, or was there before.
pub best-source :
    (k : NamespacedName) (o : Option PvcMetricsPoint) (rs : List Report) (p : PvcMetricsPoint)
    → best k o rs ≡ some p
    → (o ≡ some p) ⊎ Among (k, p) rs
unfolding best
best-source k o [] p e = inl e
best-source k o (r ∷ rs) p e = elim (best-source k (take_report k o r) rs p e) [
  | inr a ↦ inr (inr a)
  | inl e' ↦ elim (take_report-source k o r p e') [ inl old ↦ inl old | inr new ↦ inr (inl new) ]
]

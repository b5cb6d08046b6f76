-- ===== src/Freshness/Order.antt =====
-- The order in which reports come in, and samples of a claim that have the same time.
use mathlib.Core.List.{Perm, Permᴰ}
use mathlib.Core.List.Permᴰ
use mathlib.Core.Logic.{∥∥₁_elim}
use mathlib.Core.HLevel.{prop→set}
use Prim.Native.Char.{IsScalar}
use text.Mathlib.TextEquality.{IsScalar-prop}
use storage_metrics_server.Base.{
  ℕ, ◌≡◌, ◌≢◌, sym, ◌∙◌, ap, subst, inl, inr, false, Option, none, some, List, Among, Option-cases,
  arith,
}
use storage_metrics_server.Storage.Types.{NamespacedName, PvcMetricsPoint, after, Time}
use storage_metrics_server.Freshness.{Report, best, best-freshest, best-source, NotFresher}

-- Two samples of the claim with one time are the same sample.
abbrev pub HasNoTies : NamespacedName → List Report → Type 0
HasNoTies k rs =
    (p q : PvcMetricsPoint) → Among (k, p) rs → Among (k, q) rs → p.timestamp ≡ q.timestamp → p ≡ q

Among-Permᴰ : {rs ss : List Report} (r : Report) → Permᴰ rs ss → Among r rs → Among r ss
Among-Permᴰ r Permᴰ.nil a = a
Among-Permᴰ r (Permᴰ.cons e p) (inl h) = inl (sym e ∙ h)
Among-Permᴰ r (Permᴰ.cons e p) (inr a) = inr (Among-Permᴰ r p a)
Among-Permᴰ r (Permᴰ.swap e f) (inl h) = inr (inl (sym e ∙ h))
Among-Permᴰ r (Permᴰ.swap e f) (inr (inl h)) = inl (sym f ∙ h)
Among-Permᴰ r (Permᴰ.swap e f) (inr (inr a)) = inr (inr a)
Among-Permᴰ r (Permᴰ.trans p q) a = Among-Permᴰ r q (Among-Permᴰ r p a)

same_time : (t u : Time) → after t u ≡ false → after u t ≡ false → t ≡ u
same_time t u h k = ground arith

-- A sample that is kept was reported.
pub best-Among :
    (k : NamespacedName) (rs : List Report) (p : PvcMetricsPoint)
    → best k none rs ≡ some p
    → Among (k, p) rs
best-Among k rs p e = elim (best-source k none rs p e) [ inl h ↦ cc | inr a ↦ a ]

pub best-none :
    (k : NamespacedName) (rs : List Report) (p : PvcMetricsPoint)
    → Among (k, p) rs
    → best k none rs ≢ none
best-none k rs p a e = subst (NotFresher p) e (best-freshest k none rs p a)

pub best-after :
    (k : NamespacedName) (rs : List Report) (p q : PvcMetricsPoint)
    → best k none rs ≡ some p
    → Among (k, q) rs
    → after q.timestamp p.timestamp ≡ false
best-after k rs p q e a = subst (NotFresher q) e (best-freshest k none rs q a)

-- If the two lists hold the same reports of `k`, and no two of them tie, what is kept is the same.
pub best-same :
    (k : NamespacedName) (rs ss : List Report)
    → ((p : PvcMetricsPoint) → Among (k, p) rs → Among (k, p) ss)
    → ((p : PvcMetricsPoint) → Among (k, p) ss → Among (k, p) rs)
    → HasNoTies k rs
    → best k none rs ≡ best k none ss
best-same k rs ss f g ties = elim (Option-cases (best k none rs)) [
  | inl x ↦ elim (Option-cases (best k none ss)) [
    | inl y ↦ x ∙ sym y
    | inr (q, y) ↦ absurd (best-none k rs q (g q (best-Among k ss q y)) x)
  ]
  | inr (p, x) ↦ elim (Option-cases (best k none ss)) [
    | inl y ↦ absurd (best-none k ss p (f p (best-Among k rs p x)) y)
    | inr (q, y) ↦
        let a = best-Among k rs p x in
        let b = best-Among k ss q y in
        let t =
          same_time p.timestamp q.timestamp (best-after k ss q p y (f p a))
            (best-after k rs p q x (g q b)) in
        x ∙ ap some (ties p q a (g q b) t) ∙ sym y
  ]
]

IsScalar-set : (n : ℕ) → IsSet (IsScalar n)
IsScalar-set n = prop→set (IsScalar-prop n)

Point-set : IsSet (Option PvcMetricsPoint)
Point-set = hlevel IsScalar-set

-- The order in which the reports of a claim come in does not change the sample that is kept, if no
-- two different samples of it have the same time.
pub best-perm :
    (k : NamespacedName) (rs ss : List Report)
    → HasNoTies k rs
    → Perm rs ss
    → best k none rs ≡ best k none ss
best-perm k rs ss ties p = ∥∥₁_elim p (Point-set _ _) λ d.
    best-same k rs ss (λ q a. Among-Permᴰ (k, q) d a) (λ q a. Among-Permᴰ (k, q) (Permᴰ.symm d) a)
      ties

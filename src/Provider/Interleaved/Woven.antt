-- ===== src/Provider/Interleaved/Woven.antt =====
-- What the reads of a selector query amount to when updates come between them.
use storage_metrics_server.Base.{
  All, All-intro, ◌⊎◌, ℕ, ◌≡◌, refl, sym, ◌∙◌, ap, subst, inl, inr, String, ℤ, Option, none, some,
  List, [], ◌∷◌, ◌++◌, append-nil, Option-cases, Among, Among-append, Among-append_left,
  Among-append_right,
}
use storage_metrics_server.Storage.{Storage}
use storage_metrics_server.Api.{MetricValue}
use storage_metrics_server.Provider.{read_claim, collect}
use storage_metrics_server.Provider.Answers.{Serves, read_claim-Serves}
use storage_metrics_server.Provider.Interleaved.Alone.{Reach-Alone}
use storage_metrics_server.Provider.Interleaved.{
  Query, appended, Step, update, read, Reach, begin, next, caches,
}

module _ (overflow : ℕ → ℤ) (namespace metric : String) (pvcs : List String) (first : Storage) where
  abbrev Taken : Query → Query → Type 0
  Taken = Step overflow namespace metric pvcs first

  abbrev Reached : Query → Type 0
  Reached = Reach overflow namespace metric pvcs first

  -- The value `v` was read for one of the claims from one of the caches.
  pub record WasRead (q : Query) (v : MetricValue) : Type 0 where
    pub pvc : String
    pub asked_for : Among pvc pvcs
    pub from : Storage
    pub met : Among from (caches q)
    pub value : read_claim overflow from namespace metric pvc ≡ some v

  -- The claim `pvc` is in one of three places: still to be read, answered, or left out by a cache.
  pub data Place (q : Query) (pvc : String) : Type 0 where
    waiting : Among pvc q.remaining → Place q pvc
    answered :
        (v : MetricValue) (c : Storage)
        → Among v q.items
        → read_claim overflow c namespace metric pvc ≡ some v
        → Place q pvc
    skipped :
        (c : Storage)
        → Among c (caches q)
        → read_claim overflow c namespace metric pvc ≡ none
        → Place q pvc

  appended-Among : (o : Option MetricValue) (v : MetricValue) → Among v (appended o) → o ≡ some v
  appended-Among none v a = absurd a
  appended-Among (some w) v (inl e) = ap some e
  appended-Among (some w) v (inr f) = absurd f

  Step-remaining :
      {q r : Query} (pvc : String) → Taken q r → Among pvc r.remaining → Among pvc q.remaining
  Step-remaining pvc (update b) a = a
  Step-remaining pvc (read n rest e) a = subst (Among pvc) (sym e) (inr a)

  Reach-remaining : {q : Query} (pvc : String) → Reached q → Among pvc q.remaining → Among pvc pvcs
  Reach-remaining pvc begin a = a
  Reach-remaining pvc (next r st) a = Reach-remaining pvc r (Step-remaining pvc st a)

  Step-WasRead : {q r : Query} (v : MetricValue) → Taken q r → WasRead q v → WasRead r v
  Step-WasRead v (update b) w = record {
    pvc = w.pvc;
    asked_for = w.asked_for;
    from = w.from;
    met = inr w.met;
    value = w.value;
  }
  Step-WasRead v (read n rest e) w = record {
    pvc = w.pvc;
    asked_for = w.asked_for;
    from = w.from;
    met = w.met;
    value = w.value;
  }

  Reach-WasRead : {q : Query} (v : MetricValue) → Reached q → Among v q.items → WasRead q v
  Reach-WasRead v begin a = absurd a
  Reach-WasRead v (next r (update b)) a = Step-WasRead v (update b) (Reach-WasRead v r a)
  Reach-WasRead v (next {q} r (read n rest e)) a =
      elim (Among-append v q.items (appended (read_claim overflow q.cache namespace metric n)) a) [
        | inl b ↦ Step-WasRead v (read n rest e) (Reach-WasRead v r b)
        | inr b ↦ record {
          pvc = n;
          asked_for = Reach-remaining n r (subst (Among n) (sym e) (inl refl));
          from = q.cache;
          met = inl refl;
          value = appended-Among (read_claim overflow q.cache namespace metric n) v b;
        }
      ]

  -- The claim that a round reads leaves the ones that wait.
  read-Place :
      (q : Query) (n : String) (rest : List String) (e : q.remaining ≡ n ∷ rest)
      → Place
          (record q {
            remaining = rest;
            items = q.items ++ appended (read_claim overflow q.cache namespace metric n);
          })
          n
  read-Place q n rest e = elim (Option-cases (read_claim overflow q.cache namespace metric n)) [
    | inl h ↦ skipped q.cache (inl refl) h
    | inr (v, h) ↦
        answered v q.cache
          (Among-append_right v q.items (appended (read_claim overflow q.cache namespace metric n))
            (subst (λ o. Among v (appended o)) (sym h) (inl refl)))
          h
  ]

  Step-Place : {q r : Query} (pvc : String) → Taken q r → Place q pvc → Place r pvc
  Step-Place pvc (update b) (waiting a) = waiting a
  Step-Place pvc (update b) (answered v c a h) = answered v c a h
  Step-Place pvc (update b) (skipped c m h) = skipped c (inr m) h
  Step-Place {q} pvc (read n rest e) (waiting a) = elim (subst (Among pvc) e a) [
    | inl f ↦ subst (Place _) f (read-Place q n rest e)
    | inr b ↦ waiting b
  ]
  Step-Place {q} pvc (read n rest e) (answered v c a h) =
      answered v c
        (Among-append_left v q.items (appended (read_claim overflow q.cache namespace metric n)) a)
        h
  Step-Place pvc (read n rest e) (skipped c m h) = skipped c m h

  Reach-Place : {q : Query} (pvc : String) → Reached q → Among pvc pvcs → Place q pvc
  Reach-Place pvc begin a = waiting a
  Reach-Place pvc (next r st) a = Step-Place pvc st (Reach-Place pvc r a)

  -- The value is what one of the caches serves for one of the claims.
  pub record IsRead (q : Query) (v : MetricValue) : Type 0 where
    pub pvc : String
    pub asked_for : Among pvc pvcs
    pub cache : Storage
    pub met : Among cache (caches q)
    pub serves : Serves overflow cache (record { namespace = namespace; name = pvc }) metric v

  -- The claim has a value among the items, or one of the caches has none for it.
  abbrev pub IsAnsweredOrMissing : Query → String → Type 0
  IsAnsweredOrMissing q pvc =
      ((v : MetricValue) × Among v q.items × (v.described_object.name ≡ pvc))
      ⊎ ((c : Storage) × Among c (caches q) × (read_claim overflow c namespace metric pvc ≡ none))

  -- What the answer `items` of a query is, given the caches that it met.
  pub record IsWoven (q : Query) : Type 0 where
    pub sound : All (IsRead q) q.items
    pub complete : All (IsAnsweredOrMissing q) pvcs
    -- the loop on the one cache, or an update has come
    pub alone :
        (q.items ≡ collect overflow first namespace metric pvcs)
        ⊎ ((c : Storage) × (cs : List Storage) × (q.history ≡ c ∷ cs))

  Place-answered :
      (q : Query) (pvc : String) → q.remaining ≡ [] → Place q pvc → IsAnsweredOrMissing q pvc
  Place-answered q pvc e (waiting a) = absurd (subst (Among pvc) e a)
  Place-answered q pvc e (answered v c a f) =
      inl (v, a, (read_claim-Serves overflow namespace metric c pvc v f).name)
  Place-answered q pvc e (skipped c m f) = inr (c, m, f)

  WasRead-IsRead : (q : Query) (v : MetricValue) → WasRead q v → IsRead q v
  WasRead-IsRead q v w = record {
    pvc = w.pvc;
    asked_for = w.asked_for;
    cache = w.from;
    met = w.met;
    serves = read_claim-Serves overflow namespace metric w.from w.pvc v w.value;
  }

  history-cases :
      (l : List Storage) → (l ≡ []) ⊎ ((c : Storage) × (cs : List Storage) × (l ≡ c ∷ cs))
  history-cases [] = inl refl
  history-cases (c ∷ cs) = inr (c, cs, refl)

  -- When all claims of a selector query are read, however many updates came between the reads: each
  -- value of the answer is what one of the caches of that time serves for one of the lister's
  -- claims; each of these claims is answered, or one of those caches had no value for it; and the
  -- answer is that of the loop on the first cache, unless an update came.
  pub query-IsWoven : {q : Query} → Reached q → q.remaining ≡ [] → IsWoven q
  unfolding collect
  query-IsWoven {q} r e = record {
    sound = All-intro (IsRead q) q.items (λ v a. WasRead-IsRead q v (Reach-WasRead v r a));
    complete =
        All-intro (IsAnsweredOrMissing q) pvcs
          (λ pvc a. Place-answered q pvc e (Reach-Place pvc r a));
    alone = elim (history-cases q.history) [
      | inr u ↦ inr u
      | inl h ↦ inl (
          sym (append-nil q.items)
          ∙ ap (λ l. q.items ++ collect overflow first namespace metric l) (sym e)
          ∙ (Reach-Alone overflow namespace metric pvcs first r h).1)
    ];
  }

-- ===== src/Provider/Interleaved/Alone.antt =====
-- A selector query without an update between its reads.
use storage_metrics_server.Base.{
  ℕ, ◌≡◌, refl, sym, ◌∙◌, ap, String, ℤ, List, [], ◌∷◌, ◌++◌, append_assoc, arith,
}
use storage_metrics_server.Storage.{Storage}
use storage_metrics_server.Provider.{read_claim, collect}
use storage_metrics_server.Provider.Interleaved.{
  Query, appended, Step, update, read, Reach, begin, next,
}

module _ (overflow : ℕ → ℤ) (namespace metric : String) (pvcs : List String) (first : Storage) where
  abbrev Taken : Query → Query → Type 0
  Taken = Step overflow namespace metric pvcs first

  abbrev Reached : Query → Type 0
  Reached = Reach overflow namespace metric pvcs first

  collect-read :
      (s : Storage) (n : String) (rest : List String)
      → collect overflow s namespace metric (n ∷ rest)
        ≡ appended (read_claim overflow s namespace metric n)
          ++ collect overflow s namespace metric rest
  unfolding collect
  collect-read s n rest = ground arith

  -- Without an update the cache stays, and what is appended and what is left make up the loop.
  abbrev pub Alone : Query → Type 0
  Alone q =
      q.history ≡ []
      → (q.cache ≡ first)
        × (q.items ++ collect overflow first namespace metric q.remaining
            ≡ collect overflow first namespace metric pvcs)

  Step-Alone : {q r : Query} → Taken q r → Alone q → Alone r
  Step-Alone (update b) h e = absurd (cons-ne-nil e)
    where
      cons-ne-nil : {c : Storage} {cs : List Storage} → c ∷ cs ≡ [] → ⊥
      cons-ne-nil e = cc
  Step-Alone {q} (read n rest e) h k = (
    (h k).0,
    append_assoc q.items (appended (read_claim overflow q.cache namespace metric n))
          (collect overflow first namespace metric rest)
        ∙ ap (λ x. q.items ++ x)
            (ap
                (λ c.
                  appended (read_claim overflow c namespace metric n)
                  ++ collect overflow first namespace metric rest)
                (h k).0
              ∙ sym (collect-read first n rest)
              ∙ ap (collect overflow first namespace metric) (sym e))
        ∙ (h k).1,
  )

  pub Reach-Alone : {q : Query} → Reached q → Alone q
  Reach-Alone begin h = (refl, refl)
  Reach-Alone (next r st) h = Step-Alone st (Reach-Alone r) h

-- ===== src/Scraper/FanOut.antt =====
-- The goroutines of `Scrape`: each node's goroutine sends what the node gave into the channel, the
-- loop receives as many values as there are nodes, and the channel is closed on return.
pub mod Progress
use storage_metrics_server.Base.{
  suc, ◌+◌, ◌<◌, ◌≡◌, refl, sym, ap, subst, ◌⊎◌, inl, inr, Option, List, [], ◌∷◌, ◌++◌, map, length,
  length-append, Among, Among-append, Among-append_left, Among-append_right, arith,
}
use storage_metrics_server.Storage.Types.{MetricsBatch}
use storage_metrics_server.Client.Address.{Node}

-- `n` is taken out of the list.
pub data Picks : List Node → Node → List Node → Type 0 where
  here : (n : Node) (ns : List Node) → Picks (n ∷ ns) n ns
  there : (m n : Node) (ns rest : List Node) → Picks ns n rest → Picks (m ∷ ns) n (m ∷ rest)

-- `pending` are the nodes whose goroutine has not sent yet, and `received` what the loop has taken
-- out of the channel, in that order.
pub record Run : Type 0 where
  pub pending : List Node
  pub channel : List (Option MetricsBatch)
  pub received : List (Option MetricsBatch)

module _ (result : Node → Option MetricsBatch) (nodes : List Node) where
  abbrev pub start : Run
  start = record { pending = nodes; channel = []; received = [] }

  -- A send wants room in the buffer, which has len(nodes) places; the loop receives len(nodes)
  -- times.
  pub data Step (s : Run) : Run → Type 0 where
    send :
        (n : Node) (rest : List Node)
        → Picks s.pending n rest
        → length s.channel < length nodes
        → Step s (record s { pending = rest; channel = s.channel ++ result n ∷ [] })
    receive :
        (b : Option MetricsBatch) (rest : List (Option MetricsBatch))
        → s.channel ≡ b ∷ rest
        → length s.received < length nodes
        → Step s (record s { channel = rest; received = s.received ++ b ∷ [] })

  pub data Reach : Run → Type 0 where
    begin : Reach start
    next : {t u : Run} → Reach t → Step t u → Reach u

  abbrev pub IsDone : Run → Type 0
  IsDone s = length s.received ≡ length nodes

  abbrev pub IsBalanced : Run → Type 0
  IsBalanced s = length s.pending + length s.channel + length s.received ≡ length nodes

  pub Picks-length :
      {ns rest : List Node} {n : Node} → Picks ns n rest → length ns ≡ suc (length rest)
  Picks-length (here n ns) = refl
  Picks-length (there m n ns rest p) = ap suc (Picks-length p)

  Step-IsBalanced : {s t : Run} → Step s t → IsBalanced s → IsBalanced t
  Step-IsBalanced {s} (send n rest p h) b =
      omega (arith, Picks-length p, length-append s.channel (result n ∷ []))
  Step-IsBalanced {s} (receive x rest e h) b =
      omega (arith, ap length e, length-append s.received (x ∷ []))

  pub Reach-IsBalanced : {s : Run} → Reach s → IsBalanced s
  Reach-IsBalanced begin = omega arith
  Reach-IsBalanced (next r st) = Step-IsBalanced st (Reach-IsBalanced r)

  -- What is in the run, as a choice of three places.
  abbrev pub In : Option MetricsBatch → Run → Type 0
  In b s = Among b (map result s.pending) ⊎ (Among b s.channel ⊎ Among b s.received)

  Picks-out :
      {ns rest : List Node} {n : Node} (b : Option MetricsBatch)
      → Picks ns n rest
      → Among b (map result ns)
      → (result n ≡ b) ⊎ Among b (map result rest)
  Picks-out b (here n ns) a = a
  Picks-out b (there m n ns rest p) (inl e) = inr (inl e)
  Picks-out b (there m n ns rest p) (inr a) = elim (Picks-out b p a) [
    | inl e ↦ inl e
    | inr c ↦ inr (inr c)
  ]

  Picks-in :
      {ns rest : List Node} {n : Node} (b : Option MetricsBatch)
      → Picks ns n rest
      → (result n ≡ b) ⊎ Among b (map result rest)
      → Among b (map result ns)
  Picks-in b (here n ns) a = a
  Picks-in b (there m n ns rest p) (inl e) = inr (Picks-in b p (inl e))
  Picks-in b (there m n ns rest p) (inr (inl e)) = inl e
  Picks-in b (there m n ns rest p) (inr (inr a)) = inr (Picks-in b p (inr a))

  Among-snoc :
      (b x : Option MetricsBatch) (l : List (Option MetricsBatch))
      → Among b (l ++ x ∷ [])
      → Among b l ⊎ (x ≡ b)
  Among-snoc b x l a = elim (Among-append b l (x ∷ []) a) [
    | inl c ↦ inl c
    | inr (inl e) ↦ inr e
    | inr (inr f) ↦ absurd f
  ]

  snoc-Among :
      (b x : Option MetricsBatch) (l : List (Option MetricsBatch))
      → Among b l ⊎ (x ≡ b)
      → Among b (l ++ x ∷ [])
  snoc-Among b x l (inl a) = Among-append_left b l (x ∷ []) a
  snoc-Among b x l (inr e) = Among-append_right b l (x ∷ []) (inl e)

  -- A step moves a result and neither loses nor makes up any.
  Step-keeps : {s t : Run} (b : Option MetricsBatch) → Step s t → In b s → In b t
  Step-keeps {s} b (send n rest p h) (inl a) = elim (Picks-out b p a) [
    | inl e ↦ inr (inl (snoc-Among b (result n) s.channel (inr e)))
    | inr c ↦ inl c
  ]
  Step-keeps {s} b (send n rest p h) (inr (inl a)) =
      inr (inl (snoc-Among b (result n) s.channel (inl a)))
  Step-keeps b (send n rest p h) (inr (inr a)) = inr (inr a)
  Step-keeps b (receive x rest e h) (inl a) = inl a
  Step-keeps {s} b (receive x rest e h) (inr (inl a)) = elim (subst (Among b) e a) [
    | inl f ↦ inr (inr (snoc-Among b x s.received (inr f)))
    | inr c ↦ inr (inl c)
  ]
  Step-keeps {s} b (receive x rest e h) (inr (inr a)) =
      inr (inr (snoc-Among b x s.received (inl a)))

  Step-from : {s t : Run} (b : Option MetricsBatch) → Step s t → In b t → In b s
  Step-from b (send n rest p h) (inl a) = inl (Picks-in b p (inr a))
  Step-from {s} b (send n rest p h) (inr (inl a)) = elim (Among-snoc b (result n) s.channel a) [
    | inl c ↦ inr (inl c)
    | inr e ↦ inl (Picks-in b p (inl e))
  ]
  Step-from b (send n rest p h) (inr (inr a)) = inr (inr a)
  Step-from b (receive x rest e h) (inl a) = inl a
  Step-from b (receive x rest e h) (inr (inl a)) = inr (inl (subst (Among b) (sym e) (inr a)))
  Step-from {s} b (receive x rest e h) (inr (inr a)) = elim (Among-snoc b x s.received a) [
    | inl c ↦ inr (inr c)
    | inr f ↦ inr (inl (subst (Among b) (sym e) (inl f)))
  ]

  pub Reach-keeps :
      {s : Run} (b : Option MetricsBatch) → Reach s → Among b (map result nodes) → In b s
  Reach-keeps b begin a = inl a
  Reach-keeps b (next r st) a = Step-keeps b st (Reach-keeps b r a)

  pub Reach-from :
      {s : Run} (b : Option MetricsBatch) → Reach s → In b s → Among b (map result nodes)
  Reach-from b begin (inl a) = a
  Reach-from b begin (inr (inl a)) = absurd a
  Reach-from b begin (inr (inr a)) = absurd a
  Reach-from b (next r st) a = Reach-from b r (Step-from b st a)

-- ===== src/Scraper/FanOut/Progress.antt =====
-- The end of a `Scrape`: its channel's buffer, its goroutines and the number of its steps.
use storage_metrics_server.Base.{
  ℕ, suc, ◌+◌, ◌*◌, ◌<◌, ◌≡◌, ◌≢◌, refl, ap, Option, List, [], ◌∷◌, length, length-append, arith,
}
use storage_metrics_server.Storage.Types.{MetricsBatch}
use storage_metrics_server.Client.Address.{Node}
use storage_metrics_server.Scraper.FanOut.{
  Picks, Run, Step, send, receive, Reach, begin, next, IsDone, Picks-length, Reach-IsBalanced,
}

module _ (result : Node → Option MetricsBatch) (nodes : List Node) where
  -- The sends and receives that are left.
  abbrev pub left : Run → ℕ
  left s = 2 * length s.pending + length s.channel

  -- The steps of a run so far.
  pub steps : {s : Run} → Reach result nodes s → ℕ
  steps begin = 0
  steps (next r st) = suc (steps r)

  Step-left : {s t : Run} → Step result nodes s t → left s ≡ suc (left t)
  Step-left {s} (send n rest p h) =
      omega (arith, Picks-length result nodes p, length-append s.channel (result n ∷ []))
  Step-left {s} (receive b rest e h) = omega (arith, ap length e)

  steps-left : {s : Run} (r : Reach result nodes s) → steps r + left s ≡ 2 * length nodes
  unfolding steps
  steps-left begin = omega arith
  steps-left (next r st) = omega (arith, steps-left r, Step-left st)

  nil_of_length : {A : Type 0} (l : List A) → length l ≡ 0 → l ≡ []
  nil_of_length [] e = refl
  nil_of_length (x ∷ l) e = absurd (omega arith)

  -- The next step of a run that is not done: a receive if the channel has a value, else a send.
  advance :
      (pending : List Node) (channel received : List (Option MetricsBatch))
      → length received < length nodes
      → 0 < length pending + length channel
      → (t : Run) × Step result nodes
          (record { pending = pending; channel = channel; received = received })
          t
  advance pending (b ∷ rest) received h k = (_, receive b rest refl h)
  advance (n ∷ ns) [] received h k = (_, send n ns (Picks.here n ns) (omega arith))
  advance [] [] received h k = absurd (omega arith)

  -- What a scrape still does from the state `s`, which it has reached by `r`.
  pub record IsLive {s : Run} (r : Reach result nodes s) : Type 0 where
    pub room :
        (n : Node) (rest : List Node) → Picks s.pending n rest → length s.channel < length nodes
    pub drained : IsDone result nodes s → (s.pending ≡ []) × (s.channel ≡ [])
    pub goes_on : ¬ IsDone result nodes s → (t : Run) × Step result nodes s t
    pub bounded : steps r + (2 * length s.pending + length s.channel) ≡ 2 * length nodes

  -- In every state that a scrape reaches: the buffer has room for each goroutine that has not sent;
  -- when all values are received, no goroutine is pending and the channel is empty; until then a
  -- step is possible; and the steps so far and those left are two for each node.
  pub fan_out_ends : {s : Run} (r : Reach result nodes s) → IsLive r
  fan_out_ends {s} r =
      let b = Reach-IsBalanced result nodes r in
      record {
        room = λ n rest p. omega (arith, b, Picks-length result nodes p);
        drained = λ d. (
          nil_of_length s.pending (omega (arith, b)),
          nil_of_length s.channel (omega (arith, b)),
        );
        goes_on = λ d.
            advance s.pending s.channel s.received
              (lt_of_balance (length s.pending) (length s.channel) (length s.received)
                (length nodes) b d)
              (pos_of_balance (length s.pending) (length s.channel) (length s.received)
                (length nodes) b d);
        bounded = steps-left r;
      }
    where
      lt_of_balance : (p c r n : ℕ) → p + c + r ≡ n → r ≢ n → r < n
      lt_of_balance p c r n e d = omega arith

      pos_of_balance : (p c r n : ℕ) → p + c + r ≡ n → r ≢ n → 0 < p + c
      pos_of_balance p c r n e d = omega arith

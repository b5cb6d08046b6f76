-- ===== src/Scraper/Delay.antt =====
-- How long a scrape waits (pkg/storagemetrics/scraper/scraper.go): each goroutine sleeps for a random
-- time, asks its node, and sends what it has; Scrape receives from all of them. Times are milliseconds.
use storage_metrics_server.Base.{
  ℕ, ◌+◌, ◌*◌, ◌≤◌, ◌<◌, ◌≡◌, refl, min, ltb, Option, none, some, List, [], ◌∷◌, length, All,
  Bool-cases, inl, inr, if◌then◌else◌, arith,
}
use Prim.Native.Nat.{max}

abbrev pub max_delay_ms : ℕ
max_delay_ms = 4000

abbrev pub delay_per_source_ms : ℕ
delay_per_source_ms = 8

unfoldable pub delay_ms : ℕ → ℕ
delay_ms n = min (delay_per_source_ms * n) max_delay_ms

-- `intn` is rand.Intn, none where it panics.
unfoldable pub sleep_ms : (ℕ → Option ℕ) → ℕ → Option ℕ
sleep_ms intn delay = if ltb 0 delay then intn delay else some 0

-- A goroutine: what it draws, and how long GetMetrics takes, which ends at the time-out.
pub record Turn : Type 0 where
  pub intn : ℕ → Option ℕ
  pub fetch_ms : ℕ

-- The last goroutine to send, where no draw panics.
unfoldable pub last_ms : ℕ → List Turn → Option ℕ
unfolding sleep_ms
last_ms delay [] = some 0
last_ms delay (t ∷ ts) =
    let rest = last_ms delay ts in
    elim (sleep_ms t.intn delay) [
      | none ↦ none
      | some s ↦ elim rest [ none ↦ none | some m ↦ some (max (s + t.fetch_ms) m) ]
    ]

-- The time until Scrape has received from the nodes' goroutines.
unfoldable pub scrape_ms : List Turn → Option ℕ
unfolding delay_ms last_ms
scrape_ms ts = last_ms (delay_ms (length ts)) ts

-- rand.Intn, which draws a number below its argument if that is positive.
abbrev pub DrawsBelow : Turn → Type 0
DrawsBelow t = (n : ℕ) → 0 < n → (k : ℕ) × (t.intn n ≡ some k) × (k < n)

sleep_ms-bound :
    (t : Turn) (delay : ℕ) → DrawsBelow t → (s : ℕ) × (sleep_ms t.intn delay ≡ some s) × (s ≤ delay)
unfolding sleep_ms
sleep_ms-bound t delay h = elim (Bool-cases (ltb 0 delay)) [
  | inl e ↦
      let (k, f, g) = h delay (ground (arith, e)) in (k, ground (arith, e, f), omega (arith, g))
  | inr e ↦ (0, ground (arith, e), omega arith)
]

last_ms-bound :
    (timeout delay : ℕ) (ts : List Turn)
    → All DrawsBelow ts
    → All (λ (t : Turn). t.fetch_ms ≤ timeout) ts
    → (m : ℕ) × (last_ms delay ts ≡ some m) × (m ≤ delay + timeout)
unfolding last_ms
last_ms-bound timeout delay [] h f = (0, refl, omega arith)
last_ms-bound timeout delay (t ∷ ts) h f =
    let (s, a, b) = sleep_ms-bound t delay h.0 in
    let (m, c, d) = last_ms-bound timeout delay ts h.1 f.1 in
    (max (s + t.fetch_ms) m, ground (arith, a, c), ground (arith, b, d, f.0))

-- If no fetch takes longer than the time-out, a scrape draws from no empty range and has received from all
-- nodes within the time-out and eight milliseconds for each node, and four seconds at most.
pub scrape_ms_bounded :
    (timeout : ℕ) (ts : List Turn)
    → All DrawsBelow ts
    → All (λ (t : Turn). t.fetch_ms ≤ timeout) ts
    → (m : ℕ) × (scrape_ms ts ≡ some m)
      × (m ≤ delay_per_source_ms * length ts + timeout)
      × (m ≤ max_delay_ms + timeout)
unfolding scrape_ms
scrape_ms_bounded timeout ts h f =
    let (m, a, b) = last_ms-bound timeout (delay_ms (length ts)) ts h f in
    (m, a, ground (arith, b), ground (arith, b))

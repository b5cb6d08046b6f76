-- ===== src/Consumer/Shown.antt =====
-- The consumer (consumer/main.go) against the API server that it asks.
use storage_metrics_server.Base.{ℕ, ℤ, ◌≡◌, map, ◌⊎◌, String, List, [], ◌∷◌, All, Result, ok, err}
use storage_metrics_server.Api.{MetricValue, Error}
use storage_metrics_server.Registry.{Selectors, list_values}
use storage_metrics_server.Provider.{Provider, as_provider}
use storage_metrics_server.Handler.{
  Scope, Request, Response, answered, failed, panicked, list_resource_with_options,
}
use storage_metrics_server.Handler.Answers.{IsServed}
use storage_metrics_server.Consumer.{HttpResponse, World, Exit, row}

-- What the server's library writes for a response of the handler: the items of a list, or a Status,
-- which has no items; a panic ends the connection. A JSON decoder ignores the fields that the list does
-- not have.
pub record Codec {Config Body : Type 0} (w : World Config Body) : Type 0 where
  pub write : Response → Result String (HttpResponse Body)
  pub list_written :
      (items : List MetricValue)
      → (r : HttpResponse Body) × (write (answered items) ≡ ok r) × (w.decode r.body ≡ ok items)
  pub status_written :
      (e : Error) → (r : HttpResponse Body) × (write (failed e) ≡ ok r) × (w.decode r.body ≡ ok [])
  pub closed : (e : String) × (write panicked ≡ err e)

module _ {Config Body : Type 0} (w : World Config Body) (codec : Codec w) (overflow : ℕ → ℤ)
    {S F : Type 0} (p : Provider S) (l : Selectors S F) (scope : Scope S F) (req : Request) where
  abbrev response : Response
  response = list_resource_with_options l scope (list_values l (as_provider overflow p)) req

  -- A row for each item under a heading, or a line for no items.
  abbrev pub IsPrinted : List MetricValue → Exit → Type 0
  IsPrinted [] x = x ≡ record { stdout = "no metrics found" ∷ []; stderr = []; code = 0 }
  IsPrinted (v ∷ vs) x =
      (x.code ≡ 0)
      × (x.stderr ≡ [])
      × (x.stdout
          ≡ row "PVC" "volume_used_percentage"
            ∷ "----------------------------------------------"
            ∷ map (λ (u : MetricValue). row u.described_object.name (w.text_of u.value)) (v ∷ vs))

  -- What is printed, by what the handler answered.
  abbrev pub IsShown : Exit → Type 0
  IsShown x =
      ((items : List MetricValue) × (response ≡ answered items)
        × All (IsServed overflow p) items
        × IsPrinted items x)
      ⊎ ((e : Error) × (response ≡ failed e) × IsPrinted [] x)
      ⊎ ((line : String) × (response ≡ panicked)
          × (x.code ≡ 1)
          × (x.stderr ≡ line ∷ [])
          × (x.stdout ≡ []))

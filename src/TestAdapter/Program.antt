-- ===== src/TestAdapter/Program.antt =====
-- test-adapter/main.go: the adapter of the end-to-end tests, which serves both APIs from one
-- provider, and the service that metrics are written to (webService of provider.go).
pub mod Whole
use storage_metrics_server.Base.{
  ℕ, String, Option, none, some, List, [], ◌∷◌, ◌++◌, Result, ok, err, ◌>>=◌,
}
use storage_metrics_server.Memory.{Pointer, Heap, unused, alloc}
use storage_metrics_server.Flags.{FlagSet}
use storage_metrics_server.Storage.Types.{Time}
use storage_metrics_server.Api.Helpers.{ObjectMapper, DynamicClient}
use storage_metrics_server.Adapter.{
  Objects, Libraries, Adapter, new_adapter, with_custom_metrics, with_external_metrics,
}
use storage_metrics_server.Adapter.Clients.{dynamic_client, rest_mapper}
use storage_metrics_server.Adapter.Setup
use storage_metrics_server.Adapter.Setup.{get_flags}
use storage_metrics_server.Adapter.Bound.{Bound, bound_of, set_bound, on_flags}
use storage_metrics_server.TestAdapter.{
  TestingProvider, LabelCalls, new_fake_provider, as_custom_provider, as_external_provider,
}

-- A restful.WebService with the paths of its POST routes, below its own path: all of them call
-- `updateMetric` of the provider that `provider` leads to, with a body parameter.
pub record WriteService : Type 0 where
  pub path : String
  pub posts : List String
  pub provider : Pointer

unfoldable pub web_service : Pointer → WriteService
web_service p = record {
  path = "/write-metrics";
  posts =
      "/namespaces/{namespace}/{resourceType}/{name}/{metric}" ∷ "/{resourceType}/{name}/{metric}"
      ∷ "/{resourceType}/{name}/metrics/{metric}" ∷ [];
  provider = p;
}

-- What the program finds outside: `parse` is FlagSet.Parse on its arguments, `log_flags` what
-- logs.AddFlags defines, `register` the error of RegisterMetrics if there is one; `client_of` and
-- `mapper_of` are the interfaces of the two objects that the adapter makes.
pub record Surroundings (t : Objects (Heap TestingProvider)) : Type 0 where
  pub libraries : Libraries t
  pub log_flags : FlagSet
  pub parse : FlagSet → Bound t × String → Result String (Bound t × String)
  pub client_of : t.Dynamic → DynamicClient
  pub mapper_of : t.Mapper → ObjectMapper
  pub label_calls : LabelCalls t.Selector
  pub clock : ℕ → Time
  pub register : Option String

pub record SampleAdapter (t : Objects (Heap TestingProvider)) : Type 0 where
  pub base : Adapter t
  pub message : String

-- A process that has run its server: the adapter, the provider and the memory that it is in, the
-- services of the container that it writes to, what it logged, and the error of the run if there was one.
pub record Finished (t : Objects (Heap TestingProvider)) : Type 0 where
  pub base : Adapter t
  pub provider : Pointer
  pub heap : Heap TestingProvider
  pub services : List WriteService
  pub message : String
  pub ended : Option String

-- `if err := …; err != nil { klog.Fatalf(…) }`
abbrev pub unless_error : Option String → Result {0, 0} String Unit
unless_error none = ok tt
unless_error (some e) = err e

-- A method of the adapter, whose error ends the process.
abbrev pub called :
    {t : Objects (Heap TestingProvider)} {A : Type 0}
    → Result String A × Adapter t
    → Result String (A × Adapter t)
called (ok a, b) = ok (a, b)
called (err e, b) = err e

module _ {t : Objects (Heap TestingProvider)} (c : Surroundings t) where
  -- `StringVar` of the message, which sets it to its default.
  abbrev pub add_message_flag : String → FlagSet → String × FlagSet
  add_message_flag message fs = ("starting adapter...", fs ++ ("msg", "") ∷ [])

  abbrev pub add_log_flags : String → FlagSet → String × FlagSet
  add_log_flags message fs = (message, fs ++ c.log_flags)

  unfoldable pub define_flags : SampleAdapter t → SampleAdapter t
  unfolding get_flags
  define_flags a =
      let (m, with_message) = on_flags c.libraries add_message_flag a.message a.base in
      let (n, with_logs) = on_flags c.libraries add_log_flags m with_message in
      record { base = with_logs; message = n }

  unfoldable pub parse_flags : SampleAdapter t → Result String (SampleAdapter t)
  parse_flags a =
      let (fs, left) = get_flags t c.libraries a.base in
      do
        v ← c.parse fs (bound_of left, a.message)
        ok (record { base = set_bound v.0 left; message = v.1 })

  unfoldable pub make_provider : Adapter t → Result String (TestingProvider × Adapter t)
  unfolding new_fake_provider
  make_provider b = do
    client ← called (dynamic_client t c.libraries b)
    mapper ← called (rest_mapper t c.libraries client.1)
    ok (new_fake_provider (c.client_of client.0) (c.mapper_of mapper.0), mapper.1)

  -- Both providers of the server are the object that `p` leads to, as it is at the time of a call.
  unfoldable pub with_providers : Pointer → Adapter t → Adapter t
  unfolding with_custom_metrics with_external_metrics
  with_providers p b =
      with_external_metrics t (λ heap. as_external_provider c.label_calls c.clock (heap.cell p))
        (with_custom_metrics t (λ heap. as_custom_provider c.label_calls (heap.cell p)) b)

  unfoldable pub main : Result String (Finished t)
  unfolding define_flags parse_flags make_provider with_providers web_service new_adapter
  main = do
    a ← parse_flags (define_flags (record { base = new_adapter t "test-adapter"; message = "" }))
    made ← make_provider a.base
    allocated ← ok (alloc made.0 (unused made.0))
    registered ← unless_error c.register
    left ← called (Setup.run t c.libraries (with_providers allocated.0 made.1))
    ok (record {
      base = left.1;
      provider = allocated.0;
      heap = allocated.1;
      services = web_service allocated.0 ∷ [];
      message = a.message;
      ended = left.0;
    })

-- ===== src/TestAdapter/Program/Whole.antt =====
-- The server of the end-to-end tests' adapter (test-adapter/main.go).
use storage_metrics_server.Base.{
  ◌≡◌, refl, sym, ap, ◌∙◌, subst, String, none, some, [], ◌∷◌, Result, ok, err, bind-ok,
}
use storage_metrics_server.Memory.{Heap}
use storage_metrics_server.Server.{GenericServer}
use storage_metrics_server.Server.Installed.{IsInstalled}
use storage_metrics_server.Adapter.{
  Objects, Adapter, new_adapter, with_custom_metrics, with_external_metrics,
}
use storage_metrics_server.Adapter.Clients.{dynamic_client, rest_mapper}
use storage_metrics_server.Adapter.Setup.{
  server, run as run_base, install_flags, init_flag_set, define_flags as define_adapter_flags,
  get_flags,
}
use storage_metrics_server.Adapter.Bound.{bound_of, set_bound}
use storage_metrics_server.Adapter.Memo.{then-ok, pair-ok}
use storage_metrics_server.Adapter.Untouched.{
  without_clients, dynamic_client-without_clients, rest_mapper-without_clients,
}
use storage_metrics_server.Adapter.Assembled.{IsAssembled, server-IsAssembled}
use storage_metrics_server.TestAdapter.{
  TestingProvider, new_fake_provider, as_custom_provider, as_external_provider,
}
use storage_metrics_server.TestAdapter.Program.{
  Surroundings, SampleAdapter, Finished, called, unless_error, define_flags, parse_flags,
  make_provider, with_providers, web_service, main,
}

called-ok :
    {t : Objects (Heap TestingProvider)} {A : Type 0} (r : Result String A × Adapter t)
    (x : A × Adapter t)
    → called r ≡ ok x
    → r ≡ (ok x.0, x.1)
called-ok (ok a, c) x e = ap (λ p. (ok p.0, p.1)) (ok_inj e)
  where
    ok_inj : {A : Type 0} {x y : A} → ◌≡◌ {A = Result String A} (ok x) (ok y) → x ≡ y
    ok_inj e = cc
called-ok (err y, c) x e = absurd (apart e)
  where
    apart : {A : Type 0} {x : String} {a : A} → err x ≡ ok a → ⊥
    apart e = cc

module _ {t : Objects (Heap TestingProvider)} (c : Surroundings t) where
  abbrev started : SampleAdapter t
  started = define_flags c (record { base = new_adapter t "test-adapter"; message = "" })

  -- An adapter that has no server yet.
  record IsFresh (b : Adapter t) : Type 0 where
    name : b.name ≡ "test-adapter"
    config : b.the_config ≡ none
    server : b.the_server ≡ none

  parsed-IsFresh : (a : SampleAdapter t) → parse_flags c started ≡ ok a → IsFresh a.base
  unfolding parse_flags define_flags new_adapter get_flags install_flags init_flag_set
      define_adapter_flags
  parsed-IsFresh a e =
      let (fs, left) = get_flags t c.libraries started.base in
      let (v, p, q) =
        bind-ok (c.parse fs (bound_of left, started.message))
          (λ v. ok (record { base = set_bound v.0 left; message = v.1 })) a e in
      subst (λ (x : SampleAdapter t). IsFresh x.base) (ok_inj q)
        (record { name = refl; config = refl; server = refl })
    where
      ok_inj : {A : Type 0} {x y : A} → ◌≡◌ {A = Result String A} (ok x) (ok y) → x ≡ y
      ok_inj e = cc

  same-IsFresh :
      (b d : Adapter t) → without_clients t d ≡ without_clients t b → IsFresh b → IsFresh d
  same-IsFresh b d e h = record {
    name = ap (λ (z : Adapter t). z.name) e ∙ h.name;
    config = ap (λ (z : Adapter t). z.the_config) e ∙ h.config;
    server = ap (λ (z : Adapter t). z.the_server) e ∙ h.server;
  }

  -- The provider was made of the clients that the adapter made.
  pub record IsProvided (b : Adapter t) (p : TestingProvider) (d : Adapter t) : Type 0 where
    pub dynamic : t.Dynamic
    pub asked : Adapter t
    pub client : dynamic_client t c.libraries b ≡ (ok dynamic, asked)
    pub rest : t.Mapper
    pub mapper : rest_mapper t c.libraries asked ≡ (ok rest, d)
    pub made : p ≡ new_fake_provider (c.client_of dynamic) (c.mapper_of rest)

  make_provider-IsProvided :
      (b : Adapter t) (x : TestingProvider × Adapter t)
      → make_provider c b ≡ ok x
      → IsProvided b x.0 x.1
  unfolding make_provider
  make_provider-IsProvided b x e =
      let (d, p, f) = bind-ok (called (dynamic_client t c.libraries b)) _ x e in
      let (m, q, g) = bind-ok (called (rest_mapper t c.libraries d.1)) _ x f in
      let k = ok_inj g in
      record {
        dynamic = d.0;
        asked = d.1;
        client = called-ok (dynamic_client t c.libraries b) d p;
        rest = m.0;
        mapper =
            called-ok (rest_mapper t c.libraries d.1) m q
            ∙ ap (λ (z : TestingProvider × Adapter t). (ok m.0, z.1)) k;
        made = sym (ap (λ (z : TestingProvider × Adapter t). z.0) k);
      }
    where
      ok_inj : {A : Type 0} {x y : A} → ◌≡◌ {A = Result String A} (ok x) (ok y) → x ≡ y
      ok_inj e = cc

  provided-IsFresh :
      (b : Adapter t) (p : TestingProvider) (d : Adapter t)
      → IsProvided b p d
      → IsFresh b
      → IsFresh d
  provided-IsFresh b p d i h =
      same-IsFresh i.asked d
        (ap (λ (z : Result String t.Mapper × Adapter t). without_clients t z.1) (sym i.mapper)
          ∙ rest_mapper-without_clients t c.libraries i.asked)
        (same-IsFresh b i.asked
          (ap (λ (z : Result String t.Dynamic × Adapter t). without_clients t z.1) (sym i.client)
            ∙ dynamic_client-without_clients t c.libraries b)
          h)

  -- What the outcome `f` has run.
  pub record IsServingBoth (f : Finished t) : Type 0 where
    pub parsed : SampleAdapter t
    pub read : parse_flags c started ≡ ok parsed
    pub asked : Adapter t
    pub provided : IsProvided parsed.base (f.heap.cell f.provider) asked
    pub server : GenericServer (Heap TestingProvider) t.Selector
    pub left : Adapter t
    pub assembled : IsAssembled t c.libraries (with_providers c f.provider asked) server left
    pub named : (with_providers c f.provider asked).name ≡ "test-adapter"
    pub installed :
        IsInstalled c.libraries.install c.libraries.custom c.libraries.external assembled.generic
          (some (λ heap. as_custom_provider c.label_calls (heap.cell f.provider)))
          (some (λ heap. as_external_provider c.label_calls c.clock (heap.cell f.provider)))
          server
    pub writable : f.services ≡ web_service f.provider ∷ []
    pub ended : f.ended ≡ c.libraries.serve server

  served :
      (a : SampleAdapter t) (f : Finished t) (d : Adapter t)
      → parse_flags c started ≡ ok a
      → IsProvided a.base (f.heap.cell f.provider) d
      → f.services ≡ web_service f.provider ∷ []
      → run_base t c.libraries (with_providers c f.provider d) ≡ (ok f.ended, f.base)
      → IsServingBoth f
  unfolding run_base with_providers with_custom_metrics with_external_metrics
  served a f d read p w ran =
      let fresh = provided-IsFresh a.base (f.heap.cell f.provider) d p (parsed-IsFresh a read) in
      let b = with_providers c f.provider d in
      let (s, z, g, h) =
        then-ok t (server t c.libraries b) (λ s b. (ok (c.libraries.serve s), b)) f.ended f.base
          ran in
      let i = server-IsAssembled t c.libraries b s z fresh.server fresh.config g in
      record {
        parsed = a;
        read = read;
        asked = d;
        provided = p;
        server = s;
        left = z;
        assembled = i;
        named = fresh.name;
        installed = i.installed;
        writable = w;
        ended = sym (pair-ok t h).0;
      }

  -- A test adapter that has run its server served, beyond the generic server that the libraries
  -- completed under the name test-adapter, exactly the custom metrics in every version, with their three
  -- routes, and the external metrics in their first, both of the one provider that it made of the
  -- dynamic client and the mapper of its adapter, from options that passed their checks and a
  -- configuration that ApplyTo made of them; metrics were written through the one service of that
  -- provider, and the process ended as the server did.
  pub main-IsServingBoth : (f : Finished t) → main c ≡ ok f → IsServingBoth f
  unfolding main
  main-IsServingBoth f e =
      let (a, p, g) = bind-ok (parse_flags c started) _ f e in
      let (x, q, h) = bind-ok (make_provider c a.base) _ f g in
      let (u, r, i) = bind-ok (unless_error c.register) _ f h in
      let (left, s, j) = bind-ok (called (run_base t c.libraries (with_providers c 0 x.1))) _ f i in
      let k = ok_inj j in
      let made = ap (λ (z : Finished t). z.provider) k in
      served a f x.1 p
        (subst (λ (z : Finished t). IsProvided a.base (z.heap.cell z.provider) x.1) k
          (make_provider-IsProvided a.base x q))
        (subst (λ (z : Finished t). z.services ≡ web_service z.provider ∷ []) k refl)
        (subst (λ y. run_base t c.libraries (with_providers c y x.1) ≡ (ok f.ended, f.base)) made
          (called-ok (run_base t c.libraries (with_providers c 0 x.1)) left s
            ∙ ap (λ (z : Finished t). (ok z.ended, z.base)) k))
    where
      ok_inj : {A : Type 0} {x y : A} → ◌≡◌ {A = Result String A} (ok x) (ok y) → x ≡ y
      ok_inj e = cc

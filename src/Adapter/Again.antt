-- ===== src/Adapter/Again.antt =====
-- The getters of `AdapterBase` (pkg/cmd/builder.go), called a second time.
use storage_metrics_server.Base.{
  ◌≡◌, refl, sym, ap, ◌∙◌, Bool, true, false, String, Option, none, some, Result, ok, err,
  if◌then◌else◌, ltb_ℤ, ℤ, subst, pos,
}
use storage_metrics_server.Adapter.{Objects, Libraries, Adapter, Call, Config, ClientConfig, ◌then◌}
use storage_metrics_server.Server.{GenericServer}
use storage_metrics_server.Adapter.Clients.{
  throttle, client_config, discovery_client, rest_mapper, dynamic_client, informers,
  keep_client_config, kept,
}
use storage_metrics_server.Adapter.Setup.{
  config, server, cement, install_flags, make_config, complete_new,
}
use storage_metrics_server.Adapter.Made.{with_options-ok, make_config-IsMade}
use storage_metrics_server.Adapter.Memo.{IsKept, pair-ok, once-keeps, then-keeps, once-again}

module _ {T : Type 0} (t : Objects T) where
  discovery_client-IsKept : IsKept t (discovery_client t)
  unfolding discovery_client
  discovery_client-IsKept l later a b c e = once-again t c.the_discovery_client c _ a (
      once-keeps t (λ (z : Adapter t). z.the_discovery_client) b.the_discovery_client b c _ a refl
        (then-keeps t (λ (z : Adapter t). z.the_discovery_client) (client_config t l b)
          (λ x y. l.new_discovery_client x)
          (λ d (z : Adapter t). record z { the_discovery_client = some d }) a c (λ y z. refl))
        e)

  rest_mapper-IsKept : IsKept t (rest_mapper t)
  unfolding rest_mapper
  rest_mapper-IsKept l later a b c e = once-again t c.the_rest_mapper c _ a (
      once-keeps t (λ (z : Adapter t). z.the_rest_mapper) b.the_rest_mapper b c _ a refl
        (then-keeps t (λ (z : Adapter t). z.the_rest_mapper) (discovery_client t l b)
          (λ d (z : Adapter t). l.new_rest_mapper d z.discovery_interval)
          (λ d (z : Adapter t). record z { the_rest_mapper = some d }) a c (λ y z. refl))
        e)

  dynamic_client-IsKept : IsKept t (dynamic_client t)
  unfolding dynamic_client
  dynamic_client-IsKept l later a b c e = once-again t c.the_dynamic_client c _ a (
      once-keeps t (λ (z : Adapter t). z.the_dynamic_client) b.the_dynamic_client b c _ a refl
        (then-keeps t (λ (z : Adapter t). z.the_dynamic_client) (client_config t l b)
          (λ x z. l.new_dynamic_client x)
          (λ d (z : Adapter t). record z { the_dynamic_client = some d }) a c (λ y z. refl))
        e)

  informers-IsKept : IsKept t (informers t)
  unfolding informers
  informers-IsKept l later a b c e = once-again t c.the_informers c _ a (
      once-keeps t (λ (z : Adapter t). z.the_informers) b.the_informers b c _ a refl
        (then-keeps t (λ (z : Adapter t). z.the_informers) (client_config t l b)
          (λ x z. l.new_informers x) (λ d (z : Adapter t). record z { the_informers = some d }) a c
          (λ y z. refl))
        e)

  server-IsKept : IsKept t (server t)
  unfolding server
  server-IsKept l later a b c e = once-again t c.the_server c _ a (
      once-keeps t (λ (z : Adapter t). z.the_server) b.the_server b c _ a refl
        (then-keeps t (λ (z : Adapter t). z.the_server) (config t l b) (complete_new t l)
          (λ d (z : Adapter t). record z { the_server = some d }) a c (λ y z. refl))
        e)

  config-IsKept : IsKept t (config t)
  unfolding config
  config-IsKept l later a b c e = once-again t c.the_config c _ a (
      once-keeps t (λ (z : Adapter t). z.the_config) b.the_config b c _ a refl
        (λ f.
          let (o, g, h) =
            with_options-ok t (make_config t l) (cement t (install_flags t l b)) c a f in
          ap (λ (z : Adapter t). z.the_config)
            (make_config-IsMade t l o (cement t (install_flags t l b)) a c h).kept)
        e)

  again_if :
      {A : Type 0} (p : Bool) (x y : A)
      → (if p then x else (if p then x else y)) ≡ (if p then x else y)
  again_if true x y = refl
  again_if false x y = refl

  throttle-again :
      (l later : Libraries t) (b : Adapter t) (x : ClientConfig t.C t.Qps)
      → throttle t later
          (record b { the_client_config = some (throttle t l b x) })
          (throttle t l b x)
        ≡ throttle t l b x
  unfolding throttle
  throttle-again l later b x =
      let p = t.is_positive b.client_qps in
      let q = ltb_ℤ (pos 0) b.client_burst in
      ap (λ (z : t.Qps × ℤ). record { base = x.base; qps = z.0; burst = z.1 })
        (pair_eq (again_if p b.client_qps x.qps) (again_if q b.client_burst x.burst))
    where
      pair_eq : {A B : Type 0} {u v : A} {w z : B} → u ≡ v → w ≡ z → ◌≡◌ {A = A × B} (u, w) (v, z)
      pair_eq e f = cc

  pack : {A : Type 0} → Result String A → Adapter t → Result String A × Adapter t
  pack r b = (r, b)

  throttle-IsKept :
      (l later : Libraries t) (b c : Adapter t) (x y : ClientConfig t.C t.Qps)
      → keep_client_config t l x b ≡ (ok y, c)
      → keep_client_config t later y c ≡ (ok y, c)
  unfolding pack
  throttle-IsKept l later b c x y e =
      let (p, q) = pair-ok t e in
      subst (λ (z : Adapter t). keep_client_config t later y z ≡ (ok y, z)) q
        (subst
          (λ (w : ClientConfig t.C t.Qps).
            keep_client_config t later w (record b { the_client_config = some (throttle t l b x) })
            ≡ (ok w, record b { the_client_config = some (throttle t l b x) }))
          p
          (ap
            (λ (w : ClientConfig t.C t.Qps). pack (ok w) (record b { the_client_config = some w }))
            (throttle-again l later b x)))

  kept-ok :
      (l : Libraries t) (o : Option (ClientConfig t.C t.Qps))
      (fresh : Result String (ClientConfig t.C t.Qps)) (b c : Adapter t)
      (a : ClientConfig t.C t.Qps)
      → kept t l o fresh b ≡ (ok a, c)
      → (x : ClientConfig t.C t.Qps) × (keep_client_config t l x b ≡ (ok a, c))
  kept-ok l (some x) fresh b c a e = (x, e)
  kept-ok l none (ok x) b c a e = (x, e)
  kept-ok l none (err x) b c a e =
      absurd (err-ne-ok (ap (λ (q : Result String _ × Adapter t). q.0) e))
    where
      err-ne-ok : {A : Type 0} {x : String} {a : A} → err x ≡ ok a → ⊥
      err-ne-ok e = cc

  kept-again :
      (l : Libraries t) (o : Option (ClientConfig t.C t.Qps))
      (fresh : Result String (ClientConfig t.C t.Qps)) (c : Adapter t) (a : ClientConfig t.C t.Qps)
      → o ≡ some a
      → keep_client_config t l a c ≡ (ok a, c)
      → kept t l o fresh c ≡ (ok a, c)
  kept-again l o fresh c a e h = subst (λ p. kept t l p fresh c ≡ (ok a, c)) (sym e) h

  client_config-IsKept : IsKept t (client_config t)
  unfolding client_config
  client_config-IsKept l later a b c e =
      let (x, f) = kept-ok l b.the_client_config _ b c a e in
      let (p, q) = pair-ok t f in
      let held = ap (λ (z : Adapter t). z.the_client_config) (sym q) ∙ ap some p in
      kept-again later c.the_client_config _ c a held (throttle-IsKept l later b c x a f)

  -- The getters of the adapter, and what each of them returns.
  pub data Getter : Type 0 where
    a_client_config a_discovery_client a_rest_mapper a_dynamic_client an_informers : Getter
    a_config a_server : Getter

  abbrev pub Got : Getter → Type 0
  Got a_client_config = ClientConfig t.C t.Qps
  Got a_discovery_client = t.Discovery
  Got a_rest_mapper = t.Mapper
  Got a_dynamic_client = t.Dynamic
  Got an_informers = t.Informers
  Got a_config = Config t
  Got a_server = (GenericServer T t.Selector)

  abbrev pub run : (g : Getter) → Libraries t → Call t (Got g)
  run a_client_config = client_config t
  run a_discovery_client = discovery_client t
  run a_rest_mapper = rest_mapper t
  run a_dynamic_client = dynamic_client t
  run an_informers = informers t
  run a_config = config t
  run a_server = server t

  -- A getter of the adapter that has succeeded gives the same object when it is called again, and
  -- then leaves the adapter as it is, whatever the libraries would answer by then: so do
  -- ClientConfig, DiscoveryClient, RESTMapper, DynamicClient, Informers, Config and Server.
  pub run_again :
      (g : Getter) (l later : Libraries t) (a : Got g) (b c : Adapter t)
      → run g l b ≡ (ok a, c)
      → run g later c ≡ (ok a, c)
  run_again a_client_config = client_config-IsKept
  run_again a_discovery_client = discovery_client-IsKept
  run_again a_rest_mapper = rest_mapper-IsKept
  run_again a_dynamic_client = dynamic_client-IsKept
  run_again an_informers = informers-IsKept
  run_again a_config = config-IsKept
  run_again a_server = server-IsKept

-- ===== src/Adapter/Made.antt =====
-- The path of `Config` (pkg/cmd/builder.go) that makes a configuration.
use storage_metrics_server.Base.{
  ◌≡◌, sym, ap, ◌∙◌, inl, inr, String, Option, none, some, Option-cases, [], Result, ok, err, arith,
}
use storage_metrics_server.CmdOptions.{validate_server, apply_to}
use storage_metrics_server.Adapter.{
  Objects, Libraries, Adapter, ServerOptions, Config, Call, option_objects, ◌then◌,
}
use storage_metrics_server.Adapter.Clients.{informers}
use storage_metrics_server.Adapter.Setup.{applied, apply_options, with_options, make_config}
use storage_metrics_server.Adapter.Memo.{then-ok, pair-ok, checked-ok}

module _ {T : Type 0} (t : Objects T) where
  pub err-ne-ok :
      {A : Type 0} {x : String} {a : A} {b c : Adapter t}
      → ◌≡◌ {A = Result String A × Adapter t} (err x, b) (ok a, c)
      → ⊥
  err-ne-ok e = apart (ap (λ (q : Result String _ × Adapter t). q.0) e)
    where
      apart : {A : Type 0} {x : String} {a : A} → err x ≡ ok a → ⊥
      apart e = cc

  pub with_options-ok :
      {A : Type 0} (f : ServerOptions t → Call t A) (b c : Adapter t) (a : A)
      → with_options t f b ≡ (ok a, c)
      → (o : ServerOptions t) × (b.options ≡ some o) × (f o b ≡ (ok a, c))
  with_options-ok f b c a e = elim (Option-cases b.options) [
    | inl h ↦
        absurd
          (err-ne-ok {x = "nil pointer dereference"} {a = a} {b = b} {c = c} (ground (arith, e, h)))
    | inr (o, h) ↦ (o, h, ground (arith, e, h))
  ]

  applied-ok :
      (r : Option String × (ServerOptions t × Config t)) (b c : Adapter t) (a : Config t)
      → applied t r b ≡ (ok a, c)
      → (o : ServerOptions t) × (r ≡ (none, (o, a)))
        × (c ≡ record b { options = some o; the_config = some a })
  applied-ok (some x, (o, d)) b c a e = absurd (err-ne-ok e)
  applied-ok (none, (o, d)) b c a e =
      let (p, q) = pair-ok t e in
      (
        o,
        ap (λ (x : Config t). (none, (o, x))) p,
        sym q ∙ ap (λ (x : Config t). record b { options = some o; the_config = some x }) p,
      )

  -- How the adapter `b` came to the configuration `a`, which leaves `c`: its options passed the checks and
  -- were applied to a new configuration with the informers.
  pub record IsMade (l : Libraries t) (o : ServerOptions t) (b : Adapter t) (a : Config t)
      (c : Adapter t) : Type 0 where
    pub valid : validate_server (option_objects t) l.calls o ≡ []
    pub factory : t.Informers
    pub informed : Adapter t
    pub asked : informers t l b ≡ (ok factory, informed)
    pub left : ServerOptions t
    pub applied :
        apply_to
          (option_objects t)
          l.calls
          o
          (l.new_recommended_config informed.the_client_config informed.the_informers)
        ≡ (none, (left, a))
    pub kept : c ≡ record informed { options = some left; the_config = some a }

  pub make_config-IsMade :
      (l : Libraries t) (o : ServerOptions t) (b : Adapter t) (a : Config t) (c : Adapter t)
      → make_config t l o b ≡ (ok a, c)
      → IsMade l o b a c
  unfolding make_config
  make_config-IsMade l o b a c e =
      let (v, f) = checked-ok t _ _ b c (informers t l b then λ i b. apply_options t l o b) a e in
      let (i, d, h, g) = then-ok t (informers t l b) (λ i b. apply_options t l o b) a c f in
      let (p, q, r) = applied-ok _ d c a g in
      record { valid = v; factory = i; informed = d; asked = h; left = p; applied = q; kept = r }

-- ===== src/Adapter/Assembled.antt =====
-- What `Server` of `AdapterBase` (pkg/cmd/builder.go) puts together with pkg/cmd/options and
-- pkg/apiserver.
use storage_metrics_server.Base.{
  ◌≡◌, sym, ap, ◌∙◌, subst, inl, inr, String, Option, none, some, Result, ok, err, bind-ok,
  map_err-ok, Bool-cases, ◌==◌, string_eq, if◌then◌else◌, arith,
}
use storage_metrics_server.Server.{GenericServer, new_server}
use storage_metrics_server.Server.Installed.{IsInstalled, new_server-IsInstalled}
use storage_metrics_server.Adapter.{
  Objects, Libraries, Adapter, ServerOptions, Config, made, once, ◌then◌,
}
use storage_metrics_server.Adapter.Setup.{
  cement, install_flags, init_flag_set, define_flags, make_config, with_options, config,
  complete_new, server,
}
use storage_metrics_server.Adapter.Memo.{then-ok, pair-ok}
use storage_metrics_server.Adapter.Untouched.{without_clients, informers-without_clients}
use storage_metrics_server.Adapter.Made.{IsMade, err-ne-ok, with_options-ok, make_config-IsMade}

module _ {T : Type 0} (t : Objects T) where
  -- The server `s` of the adapter `b`, which leaves `c`.
  pub record IsAssembled (l : Libraries t) (b : Adapter t) (s : GenericServer T t.Selector)
      (c : Adapter t) : Type 0 where
    pub options : ServerOptions t
    pub set : (cement t (install_flags t l b)).options ≡ some options
    pub config : Config t
    pub configured : Adapter t
    pub made : IsMade t l options (cement t (install_flags t l b)) config configured
    pub generic : GenericServer T t.Selector
    pub completed :
        l.complete config configured.the_informers
          (if b.name == "" then "custom-metrics-adapter" else b.name)
        ≡ ok generic
    pub installed : IsInstalled l.install l.custom l.external generic b.cm_provider b.em_provider s
    pub kept : c ≡ record configured { the_server = some s }

  complete_new-IsInstalled :
      (l : Libraries t) (k : Config t) (d : Adapter t) (s : GenericServer T t.Selector)
      → complete_new t l k d ≡ ok s
      → (g : GenericServer T t.Selector) × (l.complete k d.the_informers d.name ≡ ok g)
        × IsInstalled l.install l.custom l.external g d.cm_provider d.em_provider s
  unfolding complete_new new_server
  complete_new-IsInstalled l k d s e =
      let f =
        map_err-ok l.error_text
          (new_server l.install l.custom l.external (l.complete k d.the_informers d.name)
            d.cm_provider d.em_provider)
          s e in
      let (g, p, q) = bind-ok (l.complete k d.the_informers d.name) _ s f in
      (g, p, new_server-IsInstalled l.install l.custom l.external g s d.cm_provider d.em_provider q)

  -- The configuration of an adapter that had none.
  config-IsMade :
      (l : Libraries t) (b : Adapter t) (k : Config t) (d : Adapter t)
      → b.the_config ≡ none
      → config t l b ≡ (ok k, d)
      → (o : ServerOptions t) × ((cement t (install_flags t l b)).options ≡ some o)
        × IsMade t l o (cement t (install_flags t l b)) k d
  unfolding config
  config-IsMade l b k d e f =
      let fresh = with_options t (make_config t l) (cement t (install_flags t l b)) in
      let g = subst (λ (z : Option (Config t)). once z b fresh ≡ (ok k, d)) e f in
      let (o, p, q) = with_options-ok t (make_config t l) (cement t (install_flags t l b)) d k g in
      (o, p, make_config-IsMade t l o (cement t (install_flags t l b)) k d q)

  made-both :
      {A : Type 0} (r : Result String A) (keep : A → Adapter t → Adapter t) (b : Adapter t) (a : A)
      (c : Adapter t)
      → made r keep b ≡ (ok a, c)
      → (r ≡ ok a) × (c ≡ keep a b)
  made-both (ok x) keep b a c e =
      let (p, q) = pair-ok t e in (ap ok p, sym q ∙ ap (λ y. keep y b) p)
  made-both (err x) keep b a c e = absurd (err-ne-ok t {c = c} e)

  install_flags-kept :
      (l : Libraries t) (b : Adapter t)
      → ((install_flags t l b).name ≡ b.name)
        × ((install_flags t l b).cm_provider ≡ b.cm_provider)
        × ((install_flags t l b).em_provider ≡ b.em_provider)
  unfolding install_flags init_flag_set define_flags
  install_flags-kept l b = elim (Bool-cases b.flags_installed) [
    | inl e ↦ (ground (arith, e), ground (arith, e), ground (arith, e))
    | inr e ↦ (ground (arith, e), ground (arith, e), ground (arith, e))
  ]

  -- What `New` is given besides the configuration.
  made-kept :
      (l : Libraries t) (o : ServerOptions t) (b : Adapter t) (k : Config t) (d : Adapter t)
      → IsMade t l o (cement t (install_flags t l b)) k d
      → (d.name ≡ (if b.name == "" then "custom-metrics-adapter" else b.name))
        × (d.cm_provider ≡ b.cm_provider)
        × (d.em_provider ≡ b.em_provider)
  unfolding cement
  made-kept l o b k d m =
      let same =
        ap (λ (z : Result String t.Informers × Adapter t). without_clients t z.1) (sym m.asked)
        ∙ informers-without_clients t l (cement t (install_flags t l b)) in
      let (n, p, q) = install_flags-kept l b in
      (
        ap (λ (z : Adapter t). z.name) m.kept
            ∙ ap (λ (z : Adapter t). z.name) same
            ∙ ap (λ x. if x == "" then "custom-metrics-adapter" else x) n,
        ap (λ (z : Adapter t). z.cm_provider) m.kept
            ∙ ap (λ (z : Adapter t). z.cm_provider) same
            ∙ p,
        ap (λ (z : Adapter t). z.em_provider) m.kept
            ∙ ap (λ (z : Adapter t). z.em_provider) same
            ∙ q,
      )

  -- A server that an adapter without a configuration and a server puts together serves exactly the APIs
  -- of the providers that the adapter was given, the custom metrics in every version with their three
  -- routes. Its configuration was made of the options that the flags left, with the documents that
  -- `Config` chose for them, which passed their checks, and was applied to the informers' client; the
  -- generic server has the adapter's name, or the default for an empty one.
  pub server-IsAssembled :
      (l : Libraries t) (b : Adapter t) (s : GenericServer T t.Selector) (c : Adapter t)
      → b.the_server ≡ none
      → b.the_config ≡ none
      → server t l b ≡ (ok s, c)
      → IsAssembled l b s c
  unfolding server
  server-IsAssembled l b s c e f h =
      let keep : (GenericServer T t.Selector) → Adapter t → Adapter t =
        λ x z. record z { the_server = some x } in
      let fresh : Result String (GenericServer T t.Selector) × Adapter t =
        config t l b then λ k d. made (complete_new t l k d) keep d in
      let g = subst (λ (z : Option (GenericServer T t.Selector)). once z b fresh ≡ (ok s, c)) e h in
      let (k, d, p, q) =
        then-ok t (config t l b) (λ k d. made (complete_new t l k d) keep d) s c g in
      let (o, set, m) = config-IsMade l b k d f p in
      let (made_s, kept_s) = made-both (complete_new t l k d) keep d s c q in
      let (gen, done, inst) = complete_new-IsInstalled l k d s made_s in
      let (n, cm, em) = made-kept l o b k d m in
      record {
        options = o;
        set = set;
        config = k;
        configured = d;
        made = m;
        generic = gen;
        completed = subst (λ x. l.complete k d.the_informers x ≡ ok gen) n done;
        installed =
            subst (λ x. IsInstalled l.install l.custom l.external gen b.cm_provider x s) em
              (subst (λ x. IsInstalled l.install l.custom l.external gen x d.em_provider s) cm
                inst);
        kept = kept_s;
      }

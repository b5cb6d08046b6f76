-- ===== src/Consumer/Ended.antt =====
-- How a run of the consumer (consumer/main.go) ends.
use storage_metrics_server.Base.{
  ◌≡◌, refl, sym, ◌∙◌, subst, map, [], ◌∷◌, Option-cases, ◌⊎◌, inl, inr, String, ◌<>◌, Option, none,
  some, List, Result, ok, err, map_err, map_err-ok, bind-ok, Result-cases, arith,
}
use storage_metrics_server.Api.{MetricValue}
use storage_metrics_server.Consumer.{
  HttpResponse, World, Exit, fail, row, url_path, load_config, config_path, unless_error, query,
  print, main,
}

module _ {Config Body : Type 0} (w : World Config Body) where
  -- What led to the list `items`.
  pub record IsRead (items : List MetricValue) : Type 0 where
    pub config : Config
    pub loaded :
        (w.in_cluster_config ≡ ok config)
        ⊎ ((e : String) × (w.in_cluster_config ≡ err e)
            × (w.build_config (config_path w) ≡ ok config))
    pub get : String → Result String (HttpResponse Body)
    pub client : w.http_client_for config ≡ ok get
    pub requested : w.new_request (w.host config <> url_path) ≡ none
    pub response : HttpResponse Body
    pub answered : get (w.host config <> url_path) ≡ ok response
    pub decoded : w.decode response.body ≡ ok items

  load_config-ok :
      (cfg : Config)
      → load_config w ≡ ok cfg
      → (w.in_cluster_config ≡ ok cfg)
        ⊎ ((e : String) × (w.in_cluster_config ≡ err e) × (w.build_config (config_path w) ≡ ok cfg))
  unfolding load_config
  load_config-ok cfg h = elim (Result-cases w.in_cluster_config) [
    | inl (c, e) ↦ inl (ground (arith, h, e))
    | inr (x, e) ↦ inr (x, e, ground (arith, h, e))
  ]

  unless-none : (o : Option String) (u : Unit) → unless_error w o ≡ ok u → o ≡ none
  unless-none none u e = refl
  unless-none (some x) u e = cc

  loaded_ok :
      (cfg : Config)
      → (w.in_cluster_config ≡ ok cfg)
        ⊎ ((e : String) × (w.in_cluster_config ≡ err e) × (w.build_config (config_path w) ≡ ok cfg))
      → load_config w ≡ ok cfg
  unfolding load_config
  loaded_ok cfg (inl e) = ground (arith, e)
  loaded_ok cfg (inr (x, e, f)) = ground (arith, e, f)

  query-IsRead : (items : List MetricValue) → query w ≡ ok items → IsRead items
  unfolding query
  query-IsRead items e =
      let (cfg, a, b) = bind-ok (map_err _ (load_config w)) _ items e in
      let (get, c, d) = bind-ok (map_err _ (w.http_client_for cfg)) _ items b in
      let (u, f, g) = bind-ok (unless_error w (w.new_request (w.host cfg <> url_path))) _ items d in
      let (resp, h, i) = bind-ok (map_err _ (get (w.host cfg <> url_path))) _ items g in
      record {
        config = cfg;
        loaded = load_config-ok cfg (map_err-ok _ (load_config w) cfg a);
        get = get;
        client = map_err-ok _ (w.http_client_for cfg) get c;
        requested = unless-none (w.new_request (w.host cfg <> url_path)) u f;
        response = resp;
        answered = map_err-ok _ (get (w.host cfg <> url_path)) resp h;
        decoded = map_err-ok _ (w.decode resp.body) items i;
      }

  read-query : (items : List MetricValue) → IsRead items → query w ≡ ok items
  unfolding query
  read-query items r =
      let l = loaded_ok r.config r.loaded in
      elim (Option-cases (w.new_request (w.host r.config <> url_path))) [
        | inl e ↦ ground (arith, l, r.client, r.answered, r.decoded, e)
        | inr (x, e) ↦ absurd (none-ne-some (sym r.requested ∙ e))
      ]
    where
      none-ne-some : {x : String} → none ≡ some x → ⊥
      none-ne-some e = cc

  -- What stands on the standard output for the items: a row for each under a heading, or a line.
  abbrev pub shown_lines : List MetricValue → List String
  shown_lines [] = "no metrics found" ∷ []
  shown_lines (v ∷ vs) =
      row "PVC" "volume_used_percentage"
      ∷ "----------------------------------------------"
      ∷ map (λ (u : MetricValue). row u.described_object.name (w.text_of u.value)) (v ∷ vs)

  -- The two ends of a run.
  abbrev pub IsEnded : Exit → Type 0
  IsEnded x =
      ((items : List MetricValue) × IsRead items
        × (x.code ≡ 0)
        × (x.stderr ≡ [])
        × (x.stdout ≡ shown_lines items))
      ⊎ ((line : String) × (x.code ≡ 1)
          × (x.stderr ≡ line ∷ [])
          × (x.stdout ≡ [])
          × ((items : List MetricValue) → IsRead items → ⊥))

  print-IsEnded : (items : List MetricValue) → IsRead items → IsEnded (print w items)
  unfolding print
  print-IsEnded [] r = inl ([], r, refl, refl, refl)
  print-IsEnded (v ∷ vs) r = inl (v ∷ vs, r, refl, refl, refl)

  -- The consumer prints the list that the response to its request holds, in the cluster's own
  -- configuration or else that of a file, whatever status the response has, as one row for each item
  -- under a heading, or as one line for no items, and exits with 0 and nothing on its standard error; or
  -- there is no such list, it prints one line on its standard error and nothing else, and exits with 1.
  pub main-IsEnded : IsEnded (main w)
  unfolding main
  main-IsEnded = elim (Result-cases (query w)) [
    | inl (items, e) ↦ subst IsEnded (ends e) (print-IsEnded items (query-IsRead items e))
    | inr (line, e) ↦
        subst IsEnded (breaks e)
          (inr (line, refl, refl, refl, λ items r. err-ne-ok (sym e ∙ read-query items r)))
  ]
    where
      err-ne-ok : {x : String} {items : List MetricValue} → err x ≡ ok items → ⊥
      err-ne-ok e = cc

      ends : {items : List MetricValue} → query w ≡ ok items → print w items ≡ main w
      ends e = ground (arith, e)

      breaks : {line : String} → query w ≡ err line → fail line ≡ main w
      breaks e = ground (arith, e)

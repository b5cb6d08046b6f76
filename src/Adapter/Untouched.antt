-- ===== src/Adapter/Untouched.antt =====
-- What the getters of the clients (pkg/cmd/builder.go) leave as it was.
use storage_metrics_server.Base.{◌≡◌, refl, ◌∙◌, String, Option, none, some, Result, ok, err}
use storage_metrics_server.Adapter.{Objects, Libraries, Adapter, ClientConfig, made, once, ◌then◌}
use storage_metrics_server.Adapter.Clients.{
  client_config, discovery_client, rest_mapper, dynamic_client, informers, kept,
}

module _ {T : Type 0} (t : Objects T) where
  -- The adapter without the clients that it keeps.
  abbrev pub without_clients : Adapter t → Adapter t
  without_clients b = record b {
    the_client_config = none;
    the_discovery_client = none;
    the_rest_mapper = none;
    the_dynamic_client = none;
    the_informers = none;
  }

  kept-without_clients :
      (l : Libraries t) (o : Option (ClientConfig t.C t.Qps))
      (fresh : Result String (ClientConfig t.C t.Qps)) (b : Adapter t)
      → without_clients (kept t l o fresh b).1 ≡ without_clients b
  kept-without_clients l (some c) fresh b = refl
  kept-without_clients l none (ok c) b = refl
  kept-without_clients l none (err e) b = refl

  pub client_config-without_clients :
      (l : Libraries t) (b : Adapter t)
      → without_clients (client_config t l b).1 ≡ without_clients b
  unfolding client_config
  client_config-without_clients l b = kept-without_clients l b.the_client_config _ b

  module _ {B : Type 0} (keep : B → Adapter t → Adapter t)
      (k : (x : B) (b : Adapter t) → without_clients (keep x b) ≡ without_clients b) where
    made-without_clients :
        (r : Result String B) (b : Adapter t)
        → without_clients (made r keep b).1 ≡ without_clients b
    made-without_clients (ok x) b = k x b
    made-without_clients (err e) b = refl

    then-without_clients :
        {A : Type 0} (r : Result String A × Adapter t) (make : A → Adapter t → Result String B)
        (b : Adapter t)
        → without_clients r.1 ≡ without_clients b
        → without_clients (r then λ a z. made (make a z) keep z).1 ≡ without_clients b
    unfolding ◌then◌
    then-without_clients (err e, c) make b h = h
    then-without_clients (ok a, c) make b h = made-without_clients (make a c) c ∙ h

  once-without_clients :
      {A : Type 0} (o : Option A) (b : Adapter t) (r : Result String A × Adapter t)
      → without_clients r.1 ≡ without_clients b
      → without_clients (once o b r).1 ≡ without_clients b
  once-without_clients (some i) b r e = refl
  once-without_clients none b r e = e

  pub informers-without_clients :
      (l : Libraries t) (b : Adapter t) → without_clients (informers t l b).1 ≡ without_clients b
  unfolding informers
  informers-without_clients l b = once-without_clients b.the_informers b _ (
      then-without_clients (λ i (z : Adapter t). record z { the_informers = some i }) (λ i z. refl)
        (client_config t l b) (λ c z. l.new_informers c) b (client_config-without_clients l b))

  discovery_client-without_clients :
      (l : Libraries t) (b : Adapter t)
      → without_clients (discovery_client t l b).1 ≡ without_clients b
  unfolding discovery_client
  discovery_client-without_clients l b = once-without_clients b.the_discovery_client b _ (
      then-without_clients (λ i (z : Adapter t). record z { the_discovery_client = some i })
        (λ i z. refl) (client_config t l b) (λ c z. l.new_discovery_client c) b
        (client_config-without_clients l b))

  pub dynamic_client-without_clients :
      (l : Libraries t) (b : Adapter t)
      → without_clients (dynamic_client t l b).1 ≡ without_clients b
  unfolding dynamic_client
  dynamic_client-without_clients l b = once-without_clients b.the_dynamic_client b _ (
      then-without_clients (λ i (z : Adapter t). record z { the_dynamic_client = some i })
        (λ i z. refl) (client_config t l b) (λ c z. l.new_dynamic_client c) b
        (client_config-without_clients l b))

  pub rest_mapper-without_clients :
      (l : Libraries t) (b : Adapter t) → without_clients (rest_mapper t l b).1 ≡ without_clients b
  unfolding rest_mapper
  rest_mapper-without_clients l b = once-without_clients b.the_rest_mapper b _ (
      then-without_clients (λ i (z : Adapter t). record z { the_rest_mapper = some i })
        (λ i z. refl) (discovery_client t l b)
        (λ d (z : Adapter t). l.new_rest_mapper d z.discovery_interval) b
        (discovery_client-without_clients l b))

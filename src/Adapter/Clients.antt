-- ===== src/Adapter/Clients.antt =====
-- The getters of `AdapterBase` (pkg/cmd/builder.go) for the client configuration and the clients, the
-- mapper and the informers that are made of it.
use storage_metrics_server.Base.{
  String, Option, none, some, ◌==◌, string_eq, if◌then◌else◌, Result, ok, err, ltb_ℤ, pos,
}
use storage_metrics_server.Adapter.{
  Objects, Libraries, Adapter, ClientConfig, Call, once, made, ◌then◌,
}

module _ {T : Type 0} (t : Objects T) where
  open t use {C, Qps, Discovery, Mapper, Dynamic, Informers, is_positive}

  module _ (l : Libraries t) where
    open l use {
      load_config, in_cluster_config, new_discovery_client, new_rest_mapper, new_dynamic_client,
      new_informers,
    }

    -- The last lines of `ClientConfig`: the throttle that the flags ask for.
    unfoldable pub throttle : Adapter t → ClientConfig C Qps → ClientConfig C Qps
    throttle b c = record {
      base = c.base;
      qps = if is_positive b.client_qps then b.client_qps else c.qps;
      burst = if ltb_ℤ (pos 0) b.client_burst then b.client_burst else c.burst;
    }

    abbrev pub keep_client_config : ClientConfig C Qps → Call t (ClientConfig C Qps)
    keep_client_config c b =
        (ok (throttle b c), record b { the_client_config = some (throttle b c) })

    -- The configuration that is kept, or else the one that was loaded.
    abbrev pub kept :
        Option (ClientConfig C Qps)
        → Result String (ClientConfig C Qps)
        → Call t (ClientConfig C Qps)
    kept (some c) fresh b = keep_client_config c b
    kept none (ok c) b = keep_client_config c b
    kept none (err e) b = (err e, b)

    unfoldable pub client_config : Call t (ClientConfig C Qps)
    unfolding throttle
    client_config b =
        kept b.the_client_config
          (if b.remote_kube_config_file == ""
            then in_cluster_config
            else load_config b.remote_kube_config_file)
          b

    unfoldable pub discovery_client : Call t Discovery
    unfolding client_config ◌then◌
    discovery_client b = once b.the_discovery_client b (
        client_config b then λ c.
        made (new_discovery_client c) (λ d b. record b { the_discovery_client = some d }))

    unfoldable pub rest_mapper : Call t Mapper
    unfolding discovery_client ◌then◌
    rest_mapper b = once b.the_rest_mapper b (
        discovery_client b then λ d b.
        made (new_rest_mapper d b.discovery_interval) (λ m b. record b { the_rest_mapper = some m })
          b)

    unfoldable pub dynamic_client : Call t Dynamic
    unfolding client_config ◌then◌
    dynamic_client b = once b.the_dynamic_client b (
        client_config b then λ c.
        made (new_dynamic_client c) (λ d b. record b { the_dynamic_client = some d }))

    unfoldable pub informers : Call t Informers
    unfolding client_config ◌then◌
    informers b = once b.the_informers b (
        client_config b then λ c.
        made (new_informers c) (λ i b. record b { the_informers = some i }))

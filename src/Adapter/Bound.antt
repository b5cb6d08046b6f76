-- ===== src/Adapter/Bound.antt =====
-- The flags of `AdapterBase` (pkg/cmd/builder.go) as the commands use them: an AddFlags on the set that
-- `Flags` returns, and the variables that the flags of the set are bound to.
use storage_metrics_server.Base.{String, ℤ, Option, some}
use storage_metrics_server.Flags.{FlagSet}
use storage_metrics_server.Adapter.{Objects, Libraries, Adapter, ServerOptions}
use storage_metrics_server.Adapter.Setup.{get_flags}

-- The variables of the adapter's own flags.
pub record Bound {T : Type 0} (t : Objects T) : Type 0 where
  pub server_options : Option (ServerOptions t)
  pub remote_kube_config_file : String
  pub discovery_interval : ℤ
  pub client_qps : t.Qps
  pub client_burst : ℤ

module _ {T : Type 0} {t : Objects T} where
  abbrev pub bound_of : Adapter t → Bound t
  bound_of b = record {
    server_options = b.options;
    remote_kube_config_file = b.remote_kube_config_file;
    discovery_interval = b.discovery_interval;
    client_qps = b.client_qps;
    client_burst = b.client_burst;
  }

  abbrev pub set_bound : Bound t → Adapter t → Adapter t
  set_bound v b = record b {
    options = v.server_options;
    remote_kube_config_file = v.remote_kube_config_file;
    discovery_interval = v.discovery_interval;
    client_qps = v.client_qps;
    client_burst = v.client_burst;
  }

  -- An AddFlags on `Flags()`: what it leaves of its variables, and the adapter with the flag set.
  abbrev pub on_flags :
      {O : Type 0} → Libraries t → (O → FlagSet → O × FlagSet) → O → Adapter t → O × Adapter t
  on_flags l add o b =
      let (fs, left) = get_flags t l b in
      let (changed, more) = add o fs in (changed, record left { flag_set = some more })

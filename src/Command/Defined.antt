-- ===== src/Command/Defined.antt =====
-- The flags of the command (cmd/storage-metrics-server/main.go, pkg/storagemetrics/options, pkg/cmd).
use storage_metrics_server.Base.{
  ◌≡◌, refl, ap, ◌∙◌, none, some, ◌++◌, append_assoc, lookup, All, string_eq, arith,
}
use storage_metrics_server.Flags.{FlagSet, shorthands, HasDistinctFlags}
use storage_metrics_server.Flags.Distinct.{among-HasDistinctFlags}
use storage_metrics_server.Scraper.{Labels}
use storage_metrics_server.CmdOptions.{new_server_options, add_server_flags}
use storage_metrics_server.Options.{
  kubelet_flags, storage_flags, add_kubelet_flags, add_storage_flags, new_kubelet_client_options,
  new_storage_metrics_options,
}
use storage_metrics_server.Memory.{Heap}
use storage_metrics_server.Storage.{Storage}
use storage_metrics_server.Adapter.{Objects, Adapter, option_objects, new_adapter}
use storage_metrics_server.Adapter.Setup.{
  adapter_flags, install_flags, init_flag_set, define_flags as define_adapter_flags, get_flags,
}
use storage_metrics_server.Command.{Cluster, StorageAdapter, new_storage_adapter, define_flags}
use storage_metrics_server.Command.Flagged.{install_flags-flagged}

-- The flags that the repository defines.
abbrev pub own_flags : FlagSet
own_flags = adapter_flags ++ kubelet_flags ++ storage_flags

own-HasDistinctFlags : HasDistinctFlags own_flags
unfolding lookup shorthands
own-HasDistinctFlags = record { names = ground arith; shorts = (refl, tt) }

module _ {l : Labels} {t : Objects (Heap Storage)} (c : Cluster l t) where
  -- Those of the libraries that are defined before and after.
  unfoldable pub earlier_flags : FlagSet
  unfolding add_server_flags new_server_options
  earlier_flags =
      add_server_flags (option_objects t) c.libraries.calls
        (new_server_options (option_objects t) c.libraries.calls) c.libraries.command_line

  abbrev flagged : StorageAdapter t
  flagged = define_flags c (new_storage_adapter c)

  defined :
      flagged.base.flag_set
      ≡ some (earlier_flags ++ adapter_flags ++ kubelet_flags ++ storage_flags ++ c.log_flags)
  unfolding define_flags new_storage_adapter new_adapter get_flags install_flags init_flag_set
      define_adapter_flags add_kubelet_flags add_storage_flags earlier_flags
  defined = refl

  reordered : (a d k s b : FlagSet) → a ++ d ++ k ++ s ++ b ≡ a ++ (d ++ k ++ s ++ b)
  reordered a d k s b = simp (append_assoc)

  -- The flags of the command, and what they leave.
  pub record AreDefined : Type 0 where
    pub set : flagged.base.flag_set ≡ some (earlier_flags ++ (own_flags ++ c.log_flags))
    pub distinct : HasDistinctFlags (earlier_flags ++ (own_flags ++ c.log_flags))
    pub again : (install_flags t c.libraries flagged.base).flag_set ≡ flagged.base.flag_set
    pub kubelet_defaults : flagged.kubelet_options ≡ new_kubelet_client_options
    pub scrape_defaults : flagged.scrape_options ≡ new_storage_metrics_options

  -- If the libraries' flags are distinct, none of them has the name of one of the repository's own and
  -- none has the shorthand `l`, then no flag of the command and no shorthand is defined twice, and
  -- `InstallFlags`, which `Config` calls again, defines no more; the options of the scraper still have
  -- their defaults when the flags are defined.
  pub define_flags-AreDefined :
      HasDistinctFlags (earlier_flags ++ c.log_flags)
      → All (λ f. lookup f.0 (earlier_flags ++ c.log_flags) ≡ none) own_flags
      → lookup "l" (shorthands (earlier_flags ++ c.log_flags)) ≡ none
      → AreDefined
  unfolding define_flags new_storage_adapter new_adapter get_flags define_adapter_flags
      add_kubelet_flags add_storage_flags new_kubelet_client_options init_flag_set shorthands
  define_flags-AreDefined u h g = record {
    set =
        defined
        ∙ ap some (reordered earlier_flags adapter_flags kubelet_flags storage_flags c.log_flags);
    distinct =
        among-HasDistinctFlags earlier_flags own_flags c.log_flags u own-HasDistinctFlags h (g, tt);
    again =
        ap (λ (b : Adapter t). b.flag_set) (install_flags-flagged t c.libraries flagged.base refl);
    kubelet_defaults = refl;
    scrape_defaults = refl;
  }

-- ===== src/Adapter.antt =====
-- pkg/cmd/builder.go: the state of `AdapterBase`, whose getters (Clients, Setup) make each object on the
-- first call and keep it. The clients are the libraries'; the record `Libraries` makes them and may
-- answer differently from one call to the next. The options and the server are those of CmdOptions and
-- Server. The texts that wrap errors are left out.
pub mod Merge
pub mod Clients
pub mod Setup
pub mod Memo
pub mod Made
pub mod Untouched
pub mod Bound
pub mod Assembled
pub mod Again
pub mod Documents
use storage_metrics_server.Base.{
  pos, false, String, Bool, ℤ, Option, none, some, List, Result, ok, err,
}
use storage_metrics_server.Flags.{FlagSet}
use storage_metrics_server.CmdOptions
use storage_metrics_server.Api.{Error, CustomMetricsProvider}
use storage_metrics_server.Registry.External.{ExternalMetricsProvider}
use storage_metrics_server.Installer
use storage_metrics_server.Server.{Scheme, GenericServer}

-- rest.Config, cut to the throttle that the adapter sets; the rest of it is the type `C`.
pub record ClientConfig (C Qps : Type 0) : Type 0 where
  pub base : C
  pub qps : Qps
  pub burst : ℤ

-- Where the OpenAPI definitions come from.
pub data Definitions : Type 0 where
  core_definitions custom_metrics_definitions external_metrics_definitions : Definitions

pub record OpenApiConfig : Type 0 where
  pub title : String
  pub version : String
  pub definitions : List Definitions

-- The types of the libraries' objects, and float32's zero with the test `> 0`. `T` is the memory that
-- the providers have pointers into: a provider is what it is in the memory at the time of a call.
pub record Objects (T : Type 0) : Type 1 where
  pub C : Type 0
  pub Qps : Type 0
  pub SecureServing : Type 0
  pub Authentication : Type 0
  pub Authorization : Type 0
  pub Audit : Type 0
  pub Features : Type 0
  pub Clientset : Type 0
  pub Base : Type 0
  pub Discovery : Type 0
  pub Mapper : Type 0
  pub Dynamic : Type 0
  pub Informers : Type 0
  pub Object : Type 0
  pub Selector : Type 0
  pub zero_qps : Qps
  pub is_positive : Qps → Bool

-- The types that the options are made of.
abbrev pub option_objects : {T : Type 0} → Objects T → CmdOptions.Objects
option_objects t = record {
  SecureServing = t.SecureServing;
  Authentication = t.Authentication;
  Authorization = t.Authorization;
  Audit = t.Audit;
  Features = t.Features;
  Client = t.Clientset;
  Base = t.Base;
  OpenApi = OpenApiConfig;
  OpenApiV3 = OpenApiConfig;
  Failure = String;
}

abbrev pub ServerOptions : {T : Type 0} → Objects T → Type 0
ServerOptions t = CmdOptions.ServerOptions (option_objects t)

abbrev pub Config : {T : Type 0} → Objects T → Type 0
Config t = CmdOptions.ServerConfig (option_objects t)

module _ {T : Type 0} (t : Objects T) where
  open t use {C, Qps, Discovery, Mapper, Dynamic, Informers, Object, Selector, zero_qps}

  -- `command_line` is what pflag.CommandLine holds, `default_qps` and `default_burst` are
  -- rest.DefaultQPS and rest.DefaultBurst; `complete` makes the generic server of a configuration.
  pub record Libraries : Type 0 where
    pub load_config : String → Result String (ClientConfig C Qps)
    pub in_cluster_config : Result String (ClientConfig C Qps)
    pub new_discovery_client : ClientConfig C Qps → Result String Discovery
    pub new_rest_mapper : Discovery → ℤ → Result String Mapper
    pub new_dynamic_client : ClientConfig C Qps → Result String Dynamic
    pub new_informers : ClientConfig C Qps → Result String Informers
    pub command_line : FlagSet
    pub default_qps : Qps
    pub default_burst : ℤ
    pub calls : CmdOptions.Calls (option_objects t)
    pub aggregate : List String → String
    pub new_recommended_config : Option (ClientConfig C Qps) → Option Informers → Config t
    pub complete : Config t → Option Informers → String → Result Error (GenericServer T Selector)
    pub install : Installer.Libraries
    pub custom : Scheme Object
    pub external : Scheme Object
    pub error_text : Error → String
    pub serve : (GenericServer T Selector) → Option String

  -- A field that is nil at first is an Option. `flags_installed` is the state of `flagOnce`.
  pub record Adapter : Type 0 where
    pub options : Option (ServerOptions t)
    pub name : String
    pub remote_kube_config_file : String
    pub discovery_interval : ℤ
    pub client_qps : Qps
    pub client_burst : ℤ
    pub flag_set : Option FlagSet
    pub open_api_config : Option OpenApiConfig
    pub open_api_v3_config : Option OpenApiConfig
    pub flags_installed : Bool
    pub the_client_config : Option (ClientConfig C Qps)
    pub the_discovery_client : Option Discovery
    pub the_rest_mapper : Option Mapper
    pub the_dynamic_client : Option Dynamic
    pub the_informers : Option Informers
    pub the_config : Option (Config t)
    pub the_server : Option (GenericServer T Selector)
    pub cm_provider : Option (T → CustomMetricsProvider Selector)
    pub em_provider : Option (T → ExternalMetricsProvider Selector)

  -- `AdapterBase{}` with a name.
  unfoldable pub new_adapter : String → Adapter
  new_adapter name = record {
    options = none;
    name = name;
    remote_kube_config_file = "";
    discovery_interval = pos 0;
    client_qps = zero_qps;
    client_burst = pos 0;
    flag_set = none;
    open_api_config = none;
    open_api_v3_config = none;
    flags_installed = false;
    the_client_config = none;
    the_discovery_client = none;
    the_rest_mapper = none;
    the_dynamic_client = none;
    the_informers = none;
    the_config = none;
    the_server = none;
    cm_provider = none;
    em_provider = none;
  }

  -- A method: its result, and the adapter that it leaves.
  abbrev pub Call : Type 0 → Type 0
  Call A = Adapter → Result String A × Adapter

  unfoldable pub with_custom_metrics : (T → CustomMetricsProvider Selector) → Adapter → Adapter
  with_custom_metrics p b = record b { cm_provider = some p }

  unfoldable pub with_external_metrics : (T → ExternalMetricsProvider Selector) → Adapter → Adapter
  with_external_metrics p b = record b { em_provider = some p }

infixl 5 ◌then◌
-- `if err != nil { return nil, err }` after a call.
unfoldable pub ◌then◌ :
    {T : Type 0} {t : Objects T} {A B : Type 0}
    → Result String A × Adapter t
    → (A → Call t B)
    → Result String B × Adapter t
(ok a, b) then f = f a b
(err e, b) then f = (err e, b)

-- `if b.x == nil { … }` and the field: what it holds, or what the block gives.
abbrev pub once :
    {T : Type 0} {t : Objects T} {A : Type 0}
    → Option A
    → Adapter t
    → Result String A × Adapter t
    → Result String A × Adapter t
once (some a) b fresh = (ok a, b)
once none b fresh = fresh

-- The object that a library made, kept by `keep`, or its error.
abbrev pub made :
    {T : Type 0} {t : Objects T} {A : Type 0}
    → Result String A
    → (A → Adapter t → Adapter t)
    → Call t A
made (ok a) keep b = (ok a, keep a b)
made (err e) keep b = (err e, b)

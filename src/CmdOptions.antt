-- ===== src/CmdOptions.antt =====
-- pkg/cmd/options/options.go: the options of the API server. The five groups of options and the
-- client set belong to k8s.io/apiserver and client-go; their calls are the record `Calls`, each with
-- the error that it returns, if there is one, and what it leaves of its argument.
use storage_metrics_server.Base.{
  Bool, true, Option, none, some, List, [], ◌++◌, Result, ok, err, and_then,
}
use storage_metrics_server.Flags.{FlagSet}

pub record Objects : Type 1 where
  pub SecureServing : Type 0
  pub Authentication : Type 0
  pub Authorization : Type 0
  pub Audit : Type 0
  pub Features : Type 0
  pub Client : Type 0
  pub Base : Type 0
  pub OpenApi : Type 0
  pub OpenApiV3 : Type 0
  pub Failure : Type 0

module _ (t : Objects) where
  open t use {
    SecureServing, Authentication, Authorization, Audit, Features, Client, Base, OpenApi, OpenApiV3,
    Failure,
  }

  pub record ServerOptions : Type 0 where
    pub secure_serving : SecureServing
    pub authentication : Authentication
    pub authorization : Authorization
    pub audit : Audit
    pub features : Features
    pub open_api_config : Option OpenApi
    pub open_api_v3_config : Option OpenApiV3
    pub enable_metrics : Bool

  -- RecommendedConfig: what `ApplyTo` sets itself, and the rest.
  pub record ServerConfig : Type 0 where
    pub base : Base
    pub open_api_config : Option OpenApi
    pub open_api_v3_config : Option OpenApiV3
    pub enable_metrics : Bool

  -- An ApplyTo of one group of options.
  abbrev pub Apply : Type 0
  Apply = ServerConfig → Option Failure × ServerConfig

  pub record Calls : Type 0 where
    pub new_secure_serving : SecureServing
    pub new_authentication : Authentication
    pub new_authorization : Authorization
    pub new_audit : Audit
    pub new_features : Features
    pub without_priority_and_fairness : Features → Features
    pub validate_secure_serving : SecureServing → List Failure
    pub validate_authentication : Authentication → List Failure
    pub validate_authorization : Authorization → List Failure
    pub validate_audit : Audit → List Failure
    pub validate_features : Features → List Failure
    pub secure_serving_flags : SecureServing → FlagSet
    pub authentication_flags : Authentication → FlagSet
    pub authorization_flags : Authorization → FlagSet
    pub audit_flags : Audit → FlagSet
    pub features_flags : Features → FlagSet
    pub self_signed_certs : SecureServing → Option Failure × SecureServing
    pub cert_error : Failure → Failure
    pub apply_secure_serving : SecureServing → Apply
    pub apply_authentication : Authentication → Apply
    pub apply_authorization : Authorization → Apply
    pub apply_audit : Audit → Apply
    pub new_client : ServerConfig → Result Failure Client
    pub apply_features : Features → Client → Apply

  module _ (calls : Calls) where
    open calls use {
      new_secure_serving, new_authentication, new_authorization, new_audit, new_features,
      without_priority_and_fairness, validate_secure_serving, validate_authentication,
      validate_authorization, validate_audit, validate_features, secure_serving_flags,
      authentication_flags, authorization_flags, audit_flags, features_flags, self_signed_certs,
      cert_error, apply_secure_serving, apply_authentication, apply_authorization, apply_audit,
      new_client, apply_features,
    }

    unfoldable pub new_server_options : ServerOptions
    new_server_options = record {
      secure_serving = new_secure_serving;
      authentication = new_authentication;
      authorization = new_authorization;
      audit = new_audit;
      features = without_priority_and_fairness new_features;
      open_api_config = none;
      open_api_v3_config = none;
      enable_metrics = true;
    }

    unfoldable pub validate_server : ServerOptions → List Failure
    validate_server o =
        []
        ++ validate_secure_serving o.secure_serving
        ++ validate_authentication o.authentication
        ++ validate_authorization o.authorization
        ++ validate_audit o.audit
        ++ validate_features o.features

    -- `AddFlags`: the flags that each group defines, on the flag set.
    unfoldable pub add_server_flags : ServerOptions → FlagSet → FlagSet
    add_server_flags o fs =
        fs
        ++ secure_serving_flags o.secure_serving
        ++ authentication_flags o.authentication
        ++ authorization_flags o.authorization
        ++ audit_flags o.audit
        ++ features_flags o.features

    -- A document that the options have replaces that of the configuration.
    abbrev pub given_or : {D : Type 0} → Option D → Option D → Option D
    given_or none old = old
    given_or (some d) old = some d

    abbrev pub set_own : ServerOptions → ServerConfig → ServerConfig
    set_own o c = record c {
      open_api_config = given_or o.open_api_config c.open_api_config;
      open_api_v3_config = given_or o.open_api_v3_config c.open_api_v3_config;
      enable_metrics = o.enable_metrics;
    }

    -- The client set is made of the configuration as the audit has left it.
    unfoldable pub apply_with_client : ServerOptions → Apply
    apply_with_client o c = elim (new_client c) [
      | err e ↦ (some e, c)
      | ok client ↦ apply_features o.features client c
    ]

    -- `ApplyTo`, once the certificates are there.
    unfoldable pub apply_all : ServerOptions → Apply
    unfolding apply_with_client
    apply_all o c = and_then (apply_secure_serving o.secure_serving c) λ c1.
        and_then (apply_authentication o.authentication c1) λ c2.
          and_then (apply_authorization o.authorization c2) λ c3.
            and_then (apply_audit o.audit c3)
              λ c4. and_then (apply_with_client o c4) λ c5. (none, set_own o c5)

    -- The rest of `ApplyTo`, by what the making of the certificates has left.
    unfoldable pub with_certificates :
        ServerOptions
        → ServerConfig
        → Option Failure × SecureServing
        → Option Failure × (ServerOptions × ServerConfig)
    unfolding apply_all
    with_certificates o c (some x, serving) =
        (some (cert_error x), (record o { secure_serving = serving }, c))
    with_certificates o c (none, serving) =
        let with_certs : ServerOptions = record o { secure_serving = serving } in
        let applied = apply_all with_certs c in (applied.0, (with_certs, applied.1))

    -- `ApplyTo` changes the secure serving of the options as well: both are returned.
    unfoldable pub apply_to :
        ServerOptions → ServerConfig → Option Failure × (ServerOptions × ServerConfig)
    unfolding with_certificates
    apply_to o c = with_certificates o c (self_signed_certs o.secure_serving)

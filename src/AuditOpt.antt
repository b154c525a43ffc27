-- ===== src/AuditOpt.antt =====
-- clients/go/pkg/auditopt/config.go: the options of the audit client and of the interceptor that come
-- from a configuration file. Reading the file, `cfgloader`, the clients of Cloud Logging, of JVS and
-- of gRPC are parameters.
pub mod Gentle
pub mod Pieces
pub mod Shape
pub mod Appending
pub mod Delivery
pub mod Relay
pub mod Transport
pub mod Interceptors
use lumberjack.Prelude.{
  String, ◌==◌, Bool, true, false, Option, none, some, List, [], ◌∷◌, ◌++◌, if◌then◌else◌,
}
use lumberjack.Errors.{Err, errorf, wrap, is_err, not_exist, Result, ok, err, ◌>>=◌, map_err}
use lumberjack.Api.{LogMode, is_best_effort}
use lumberjack.Api.Values.{Value}
use lumberjack.Config.{
  Config, Condition, Remote, CloudLogging, Justification, RegexCondition, Backend, SecurityContext,
  FromRawJwt, set_default, validate, get_log_mode,
}
use lumberjack.Client.{
  Client, ClientOption, Processor, with_validator, with_mutator, with_backend, with_log_mode,
  with_runtime_info, apply_options, new_client,
}
use lumberjack.Filtering.{
  Regexps, PrincipalEmailMatcher, with_includes, with_excludes, new_principal_email_matcher,
  matcher_processor,
}
use lumberjack.Labels.{new_label_processor, process_labels, label_processor}
use lumberjack.Runtime.{runtime_processor}
use lumberjack.Justification.{Jvs, justification_processor}
use lumberjack.CloudLogging.{
  LoggingClient, CloudOption, CloudProcessor, with_logging_client, with_default_best_effort,
  new_processor, cloud_processor,
}
use lumberjack.Remote.{RemoteProcessor, remote_processor}
use lumberjack.Remote.Dial.{
  AuthLib, DialOption, Connection, RemoteOption, with_id_token_auth,
  with_impersonated_id_token_auth, new_remote_processor,
}
use lumberjack.Security.{Jwt, Found, request_principal}
use lumberjack.Interceptor.Options.{
  InterceptorOption, InterceptorParts, with_audit_client, with_security_context, with_audit_rules,
  with_interceptor_log_mode,
}

-- What the package takes from outside.
pub record Outside (W : Type 0) : Type 1 where
  pub to_upper : String → String
  -- `os.ReadFile`
  pub read_file : String → Result String
  -- `cfgloader.Load`, of the configuration that these bytes and the environment give
  pub load : String → Result Config
  -- what `newRuntimeInfo` returns
  pub runtime_info : Result (Option Value)
  pub regexps : Regexps
  pub auth : AuthLib
  -- `grpc.NewClient`
  pub dial : String → List (DialOption auth) → Result (Connection auth W)
  -- `logging.NewClient`, of the default project and of a given one
  pub default_logging_client : Result (LoggingClient W)
  pub logging_client : String → Result (LoggingClient W)
  -- `cfgloader.Load` and `jvspb.NewClient`, of an endpoint and of the setting for breakglass
  pub load_jvs : String → Bool → Result (String × Bool)
  pub jvs_client : String × Bool → Result Jvs
  pub jwt : Jwt

abbrev pub default_config_file_path : String
default_config_file_path = "/etc/lumberjack/config.yaml"

-- the path that `fromConfigFile` reads
abbrev pub config_path : String → String
config_path path = if path == "" then default_config_file_path else path

-- The bytes of the file, of which there are none if it does not exist.
unfoldable pub file_content : Result String → Result String
unfolding is_err
file_content (ok b) = ok b
file_content (err e) =
    if is_err not_exist e then ok "" else err (wrap "failed to read config file: %w" e)

abbrev pub map_result : {A B : Type 0} → (A → B) → Result A → Result B
map_result f (ok a) = ok (f a)
map_result f (err e) = err e

-- The option that appends a processor, if it is made.
abbrev pub option_of {ℓ} :
    {A : Type ℓ} {W : Type 0}
    → (Processor W → ClientOption W)
    → (A → Processor W)
    → Result A
    → Result (List (ClientOption W))
option_of option to_processor (ok a) = ok (option (to_processor a) ∷ [])
option_of option to_processor (err e) = err e

-- the loop that applies the interceptor's options
unfoldable pub apply_each : {W : Type 0} → List (InterceptorOption W) → InterceptorOption W
apply_each [] i = ok i
apply_each (x ∷ xs) i = x i >>= apply_each xs

module _ {W : Type 0} (o : Outside W) where
  -- `loadConfig`
  unfoldable pub load_config : String → Result Config
  load_config b = map_err (wrap "failed to load config: %w") (o.load b)

  abbrev pub matcher_from_config : RegexCondition → Result (PrincipalEmailMatcher o.regexps)
  matcher_from_config r = map_err (wrap "failed to create email matcher: %w") (
      new_principal_email_matcher o.regexps (
        with_includes o.regexps (r.principal_include ∷ [])
        ∷ with_excludes o.regexps (r.principal_exclude ∷ [])
        ∷ []))

  abbrev pub filter_option : Option RegexCondition → Result (List (ClientOption W))
  filter_option none = ok []
  filter_option (some r) =
      option_of with_validator (matcher_processor o.regexps) (matcher_from_config r)

  abbrev pub regex_of : Option Condition → Option RegexCondition
  regex_of none = none
  regex_of (some c) = c.regex

  -- `principalFilterFromConfig`: the option that it returns, or none
  unfoldable pub principal_filter_from_config : Config → Result (List (ClientOption W))
  principal_filter_from_config cfg = filter_option (regex_of cfg.condition)

  -- the options of the authentication to the agent
  unfoldable pub auth_options : Bool → String → List (RemoteOption o.auth)
  auth_options true account = []
  auth_options false account =
      (if account == ""
        then with_id_token_auth o.auth
        else with_impersonated_id_token_auth o.auth account)
      ∷ []

  -- the processor of the agent
  unfoldable pub remote_from_config : Remote → Result (RemoteProcessor W)
  unfolding auth_options
  remote_from_config r = map_err (wrap "failed to create remote processor: %w") (
      new_remote_processor o.auth o.dial r.address
        (auth_options r.insecure_enabled r.impersonate_account))

  abbrev pub remote_backend : Option Remote → Result (List (ClientOption W))
  remote_backend none = ok []
  remote_backend (some r) = option_of with_backend remote_processor (remote_from_config r)

  abbrev pub mode_options : Bool → List (CloudOption W)
  mode_options true = with_default_best_effort ∷ []
  mode_options false = []

  -- the options that name the project's client
  abbrev pub project_options : CloudLogging → List (CloudOption W) → Result (List (CloudOption W))
  project_options cl os =
      let named =
        map_err (wrap "failed to create cloud logging client: %w") (o.logging_client cl.project)
        >>= (λ c. ok (os ++ (with_logging_client c ∷ []))) in
      if cl.default_project then ok os else named

  -- the processor of Cloud Logging
  unfoldable pub cloud_from_config : LogMode → CloudLogging → Result (CloudProcessor W)
  cloud_from_config mode cl = project_options cl (mode_options (is_best_effort mode)) >>= (λ os.
      map_err (wrap "failed to create processor: %w") (new_processor o.default_logging_client os))

  abbrev pub cloud_backend : LogMode → Option CloudLogging → Result (List (ClientOption W))
  cloud_backend mode none = ok []
  cloud_backend mode (some cl) = option_of with_backend cloud_processor (cloud_from_config mode cl)

  -- `backendsFromConfig`, of a backend that is not nil
  unfoldable pub backends_from_config : LogMode → Backend → Result (List (ClientOption W))
  unfolding remote_from_config cloud_from_config
  backends_from_config mode b =
      remote_backend b.remote >>= (λ r. cloud_backend mode b.cloud_logging >>= (λ c. ok (r ++ c)))

  -- `labelsFromConfig`
  unfoldable pub labels_from_config : Config → ClientOption W
  labels_from_config cfg = with_mutator (label_processor (new_label_processor cfg.labels))

  -- `justificationFromConfig`, up to the processor
  unfoldable pub justification_from_config : Justification → Result Jvs
  justification_from_config j =
      map_err (wrap "failed to load JVS config: %w")
        (o.load_jvs j.public_keys_endpoint j.allow_breakglass)
      >>= (λ c. map_err (wrap "failed to create jvs client: %w") (o.jvs_client c))

  abbrev pub is_enabled : Option Justification → Bool
  is_enabled none = false
  is_enabled (some j) = j.enabled

  abbrev pub justification_option : Option Justification → Result (List (ClientOption W))
  justification_option none = ok []
  justification_option (some j) =
      let made =
        option_of with_mutator (λ jvs. justification_processor jvs) (justification_from_config j) in
      if j.enabled then made else ok []

  -- The options for a backend. `Validate` refuses a configuration without one, on which the code
  -- would panic.
  abbrev pub backend_options : LogMode → Option Backend → Result (List (ClientOption W))
  backend_options mode none = err (errorf "nil pointer dereference" [])
  backend_options mode (some b) = backends_from_config mode b

  -- the options that `clientFromConfig` applies, of a configuration that is valid
  unfoldable pub options_from_config : Config → Result (List (ClientOption W))
  unfolding principal_filter_from_config backends_from_config labels_from_config
      justification_from_config
  options_from_config cfg =
      let mode = get_log_mode o.to_upper cfg in
      principal_filter_from_config cfg >>= (λ filter.
        backend_options mode cfg.backend >>= (λ backends.
          justification_option cfg.justification >>= (λ justification. ok (
            with_runtime_info (map_result runtime_processor o.runtime_info)
            ∷ (filter
                ++ (backends ++ (labels_from_config cfg ∷ with_log_mode mode ∷ justification)))))))

  abbrev pub apply_validated : Config → Option Err → ClientOption W
  apply_validated cfg (some e) c = err (wrap "invalid configuration: %w" e)
  apply_validated cfg none c = options_from_config cfg >>= (λ os. apply_options os c)

  -- `clientFromConfig`, and `FromConfig`
  unfoldable pub client_from_config : Option Config → ClientOption W
  unfolding options_from_config
  client_from_config none c = err (errorf "nil config" [])
  client_from_config (some cfg) c = let v = validate o.to_upper cfg in apply_validated v.0 v.1 c

  -- `fromConfigFile`
  unfoldable pub from_config_file : String → ClientOption W
  unfolding load_config file_content client_from_config
  from_config_file path c =
      file_content (o.read_file (config_path path))
      >>= (λ fc. load_config fc >>= (λ cfg. client_from_config (some cfg) c))

  -- The switch over the security contexts, which is on nil: an empty slice passes. The rules are shared with the configuration: when the options are
  -- applied, `Validate` has filled in their defaults.
  abbrev pub context_options :
      Config → Option (List FromRawJwt) → Result (List (InterceptorOption W))
  context_options cfg none =
      err (errorf "no supported security context configured in config %+v" [])
  context_options cfg (some js) = ok (
      with_interceptor_log_mode (get_log_mode o.to_upper cfg)
      ∷ with_audit_rules (set_default o.to_upper cfg).rules
      ∷ with_security_context (request_principal o.jwt js)
      ∷ [])

  -- the options of the interceptor, up to the one for its security context
  unfoldable pub security_options :
      Config → Option SecurityContext → Result (List (InterceptorOption W))
  security_options cfg none = err (errorf "SecurityContext must be provided to use interceptor" [])
  security_options cfg (some sc) = context_options cfg sc.from_raw_jwt

  abbrev pub audit_client : Config → Result (Client W)
  audit_client cfg =
      map_err (wrap "failed to create audit client from config %+v: %w")
        (new_client (client_from_config (some cfg) ∷ []))

  -- `interceptorFromConfigFile` on the configuration that was loaded
  unfoldable pub interceptor_from_config : Config → InterceptorOption W
  unfolding security_options client_from_config apply_each
  interceptor_from_config cfg i =
      security_options cfg cfg.security_context
      >>= (λ os. audit_client cfg >>= (λ c. apply_each (os ++ (with_audit_client c ∷ [])) i))

  -- `interceptorFromConfigFile`
  unfoldable pub interceptor_from_config_file : String → InterceptorOption W
  unfolding load_config file_content interceptor_from_config
  interceptor_from_config_file path i =
      file_content (o.read_file path)
      >>= (λ fc. load_config fc >>= (λ cfg. interceptor_from_config cfg i))

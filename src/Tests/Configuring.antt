-- ===== src/Tests/Configuring.antt =====
-- Clients and interceptors from a configuration that is loaded without a file.
use mathlib.Core.Path.{subst}
use lumberjack.Prelude.{◌≡◌, refl, ℕ, String, true, false, none, some, [], ◌∷◌}
use lumberjack.Errors.{sentinel, not_exist, is_err, Result, ok, err, ok_inj}
use lumberjack.Api.{log_mode_unspecified, log_mode_value}
use lumberjack.Config.{Config, Remote, SecurityContext, validate, set_default, get_log_mode}
use lumberjack.Config.Validity.{IsValidConfig}
use lumberjack.Client.{
  Client, default_client, new_client, apply_options, with_runtime_info, with_validator,
  with_backend, with_mutator, with_log_mode,
}
use lumberjack.Filtering.{new_principal_email_matcher, with_includes, with_excludes}
use lumberjack.CloudLogging.{new_processor}
use lumberjack.Remote.{RemoteProcessor}
use lumberjack.Remote.Dial.{AuthLib, Connection, new_remote_processor, with_id_token_auth}
use lumberjack.Config.{jwts_of}
use lumberjack.Security.{request_principal}
use lumberjack.Interceptor.Options.{
  InterceptorParts, with_interceptor_log_mode, with_audit_rules, with_security_context,
  with_audit_client,
}
use lumberjack.AuditOpt.{
  Outside, client_from_config, interceptor_from_config_file, remote_from_config,
}
use lumberjack.AuditOpt.Shape.{IsBuilt, client_from_config-IsBuilt}
use lumberjack.AuditOpt.Interceptors.{interceptor_from_config_file-agrees}
use lumberjack.Tests.Choosing.{exact, same}
use lumberjack.Tests.Processing.{counter, jvs}
use lumberjack.Tests.Securing.{jwt}

abbrev pub plain_auth : AuthLib
plain_auth = record {
  TokenSource = String;
  Roots = ℕ;
  OtherOption = ℕ;
  new_token_source = λ audience. ok audience;
  impersonated_token_source = λ account audience. ok account;
  system_cert_pool = ok 1;
}

abbrev pub a_connection : Connection plain_auth ℕ
a_connection = record {
  token = λ source w. (w, ok source);
  process_log = λ tokens r w. (w, ok (some r));
  close = λ w. (w, none);
}

abbrev pub an_agent : Remote
an_agent = record { address = "agent:443"; insecure_enabled = false; impersonate_account = "" }

-- A configuration whose defaults are filled in.
abbrev pub a_full_config : Config
a_full_config = record {
  config_version = "v1alpha1";
  backend = some (record {
    remote = some an_agent;
    cloud_logging = some (record { default_project = true; project = "" });
  });
  condition = some (record {
    regex = some (record { principal_include = ""; principal_exclude = "bot@example.com" });
  });
  security_context = some (record {
    from_raw_jwt = some (record { key = "authorization"; prefix = ""; jwks = none } ∷ []);
  });
  rules = [];
  labels = ("team", "a") ∷ [];
  log_mode = "FAIL_CLOSE";
  justification =
      some (record {
        public_keys_endpoint = "https://keys";
        enabled = true;
        allow_breakglass = false;
      });
}

abbrev pub surroundings : Outside ℕ
surroundings = record {
  to_upper = same;
  read_file = λ path. err (sentinel not_exist);
  load = λ b. ok a_full_config;
  runtime_info = ok none;
  regexps = exact;
  auth = plain_auth;
  dial = λ address options. ok a_connection;
  default_logging_client = ok counter;
  logging_client = λ project. ok counter;
  load_jvs = λ endpoint breakglass. ok (endpoint, breakglass);
  jvs_client = λ c. ok jvs;
  jwt = jwt;
}

abbrev pub or_else {ℓ} : {A : Type ℓ} → A → Result A → A
or_else a (ok b) = b
or_else a (err e) = a

abbrev a_client : Client ℕ
a_client =
    or_else default_client (client_from_config surroundings (some a_full_config) default_client)

client_made : client_from_config surroundings (some a_full_config) default_client ≡ ok a_client
unfolding client_from_config validate log_mode_value new_principal_email_matcher with_includes
    with_excludes new_remote_processor with_id_token_auth new_processor get_log_mode apply_options
    with_runtime_info with_validator with_backend with_mutator with_log_mode
client_made = refl

client_from_config-IsBuilt_example :
    IsValidConfig same (set_default same a_full_config)
    × IsBuilt surroundings (set_default same a_full_config) a_client
client_from_config-IsBuilt_example =
    client_from_config-IsBuilt surroundings a_full_config a_client client_made

abbrev unset : InterceptorParts ℕ
unset = record {
  client = none;
  security_context = none;
  rules = [];
  log_mode = log_mode_unspecified;
}

abbrev an_interceptor : InterceptorParts ℕ
an_interceptor = or_else unset (interceptor_from_config_file surroundings "none" unset)

interceptor_made : interceptor_from_config_file surroundings "none" unset ≡ ok an_interceptor
unfolding new_client interceptor_from_config_file client_from_config is_err validate log_mode_value
    new_principal_email_matcher with_includes with_excludes new_remote_processor with_id_token_auth
    new_processor get_log_mode apply_options with_runtime_info with_validator with_backend
    with_mutator with_log_mode with_interceptor_log_mode with_audit_rules with_security_context
    with_audit_client
interceptor_made = refl

config_validated : validate same a_full_config ≡ (a_full_config, none)
unfolding validate log_mode_value
config_validated = refl

interceptor_from_config_file-agrees_example :
    (cfg : Config) × (sc : SecurityContext) × (c : Client ℕ) × (cfg.security_context ≡ some sc)
    × IsBuilt surroundings cfg c
    × (an_interceptor ≡ record {
      client = some c;
      security_context = some (request_principal jwt (jwts_of sc.from_raw_jwt));
      rules = cfg.rules;
      log_mode = c.log_mode;
    })
interceptor_from_config_file-agrees_example =
    interceptor_from_config_file-agrees surroundings "none" unset an_interceptor
      (λ b cfg loaded. subst (λ x. validate same x ≡ (x, none)) (ok_inj loaded) config_validated)
      interceptor_made

abbrev no_remote : RemoteProcessor ℕ
no_remote = record {
  call_opts = none;
  process_log = λ tokens r w. (w, ok none);
  close = λ w. (w, none);
}

abbrev a_remote : RemoteProcessor ℕ
a_remote = or_else no_remote (remote_from_config surroundings an_agent)

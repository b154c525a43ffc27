-- ===== src/Tests/Delivering.antt =====
-- Calls of `Log` on clients with one backend, up to Cloud Logging.
use lumberjack.Prelude.{◌≡◌, refl, ◌⊎◌, ap, ℕ, false, Option, none, some, NodupKeys, lookup, insert}
use lumberjack.Errors.{sentinel, canceled, Result, ok, err, done}
use lumberjack.Api.{AuditLogRequest, log_mode_value}
use lumberjack.Config.{Config, CloudLogging, validate, set_default, get_log_mode}
use lumberjack.Validation.{validate_request, validate_audit_log, validate_email}
use lumberjack.Validation.Split.{split}
use lumberjack.Client.{
  Client, default_client, new_client, apply_options, with_runtime_info, with_validator,
  with_backend, with_mutator, with_log_mode, log, set_mode, request_validator,
}
use lumberjack.Client.Delivery.{IsDropped}
use lumberjack.Filtering.{
  new_principal_email_matcher, with_includes, with_excludes, matcher_processor,
}
use lumberjack.Labels.{label_processor, new_label_processor}
use lumberjack.Runtime.{process_runtime}
use lumberjack.Justification.{process_justification, read_token}
use lumberjack.CloudLogging.{new_processor, process_cloud}
use lumberjack.Remote.{RemoteProcessor, process_remote}
use lumberjack.Remote.Agent.{IsConnected, Authenticates}
use lumberjack.Remote.Dial.{Connection, call_options, new_remote_processor, with_id_token_auth}
use lumberjack.Server.{Response, processed, rejected, aborted, process_log}
use lumberjack.Server.Main.{agent_client}
use lumberjack.Server.Delivery.{IsStored, process_log-IsStored}
use lumberjack.AuditOpt.{Outside, client_from_config, remote_from_config}
use lumberjack.AuditOpt.Delivery.{IsDelivered, log-IsDelivered}
use lumberjack.AuditOpt.Relay.{log-IsRelayed}
use lumberjack.Tests.{a_request}
use lumberjack.Tests.Choosing.{same}
use lumberjack.Tests.Processing.{counter}
use lumberjack.Tests.Configuring.{plain_auth, an_agent, a_full_config, surroundings, or_else}
use lumberjack.Tests.Running.{quiet, a_process}

abbrev a_project : CloudLogging
a_project = record { default_project = false; project = "logs" }

-- Cloud Logging alone, and an agent alone.
abbrev cloud_config : Config
cloud_config = record a_full_config {
  backend = some (record { remote = none; cloud_logging = some a_project });
}

abbrev remote_config : Config
remote_config = record a_full_config {
  backend = some (record { remote = some an_agent; cloud_logging = none });
}

one_label : NodupKeys cloud_config.labels
unfolding lookup
one_label = (refl, tt)

abbrev cloud_client : Client ℕ
cloud_client =
    or_else default_client (client_from_config surroundings (some cloud_config) default_client)

cloud_client_made :
    client_from_config surroundings (some cloud_config) default_client ≡ ok cloud_client
unfolding client_from_config validate log_mode_value new_principal_email_matcher with_includes
    with_excludes new_processor get_log_mode apply_options with_runtime_info with_validator
    with_backend with_mutator with_log_mode
cloud_client_made = refl

cloud_logged : (log cloud_client a_request 0).exit ≡ done
unfolding log client_from_config validate log_mode_value new_principal_email_matcher with_includes
    with_excludes new_processor get_log_mode apply_options with_runtime_info with_validator
    with_backend with_mutator with_log_mode validate_request request_validator validate_audit_log
    validate_email split matcher_processor label_processor process_runtime process_justification
    read_token process_cloud new_label_processor insert
cloud_logged = refl

log-IsDelivered_example :
    IsDropped cloud_client a_request 0 (log cloud_client a_request 0).world
    ⊎ IsDelivered surroundings counter cloud_config.labels cloud_client a_request 0
        (log cloud_client a_request 0).world
unfolding set_default set_mode
log-IsDelivered_example =
    log-IsDelivered surroundings cloud_config a_project counter cloud_client a_request 0 refl
      (λ name e w. tt) one_label cloud_client_made refl refl cloud_logged

abbrev agent : Client ℕ
agent = or_else default_client (agent_client a_process)

agent_made : agent_client a_process ≡ ok agent
unfolding agent_client new_processor new_client with_backend
agent_made = refl

agent_answers : (process_log agent a_request 0).1 ≡ processed a_request
unfolding process_log agent_client new_processor new_client with_backend log validate_request
    request_validator validate_audit_log validate_email split process_cloud
agent_answers = refl

process_log-IsStored_example :
    (a_request ≡ a_request) × IsStored quiet a_request 0 (process_log agent a_request 0).0
process_log-IsStored_example =
    process_log-IsStored a_process quiet agent a_request a_request 0 refl (λ name e w. tt)
      agent_made refl agent_answers

-- The connection to that agent, without a network.
abbrev to_result : Response → Result (Option AuditLogRequest)
to_result (processed r) = ok (some r)
to_result (rejected e) = err e
to_result aborted = err (sentinel canceled)

abbrev to_agent : Connection plain_auth ℕ
to_agent = record {
  token = λ source w. (w, ok source);
  process_log = λ tokens r w. ((process_log agent r w).0, to_result (process_log agent r w).1);
  close = λ w. (w, none);
}

abbrev connected : Outside ℕ
connected = record {
  to_upper = same;
  read_file = surroundings.read_file;
  load = surroundings.load;
  runtime_info = surroundings.runtime_info;
  regexps = surroundings.regexps;
  auth = plain_auth;
  dial = λ address options. ok to_agent;
  default_logging_client = surroundings.default_logging_client;
  logging_client = surroundings.logging_client;
  load_jvs = surroundings.load_jvs;
  jvs_client = surroundings.jvs_client;
  jwt = surroundings.jwt;
}

abbrev no_remote : RemoteProcessor ℕ
no_remote = record {
  call_opts = none;
  process_log = λ tokens r w. (w, ok none);
  close = λ w. (w, none);
}

abbrev relay : RemoteProcessor ℕ
relay = or_else no_remote (remote_from_config connected an_agent)

relay_made : remote_from_config connected an_agent ≡ ok relay
unfolding remote_from_config new_remote_processor with_id_token_auth
relay_made = refl

relay-IsConnected : IsConnected agent relay
unfolding remote_from_config new_remote_processor with_id_token_auth
relay-IsConnected = record {
  hands_on = λ tokens r r' w h. ap (λ x. ((process_log agent r w).0, to_result x)) h;
  refuses = λ tokens r w e h. ap (λ x. ((process_log agent r w).0, to_result x)) h;
}

relay-Authenticates : Authenticates relay
unfolding remote_from_config new_remote_processor with_id_token_auth call_options
relay-Authenticates = λ w. (_, refl)

abbrev remote_client : Client ℕ
remote_client =
    or_else default_client (client_from_config connected (some remote_config) default_client)

remote_client_made :
    client_from_config connected (some remote_config) default_client ≡ ok remote_client
unfolding client_from_config validate log_mode_value new_principal_email_matcher with_includes
    with_excludes new_remote_processor with_id_token_auth get_log_mode apply_options
    with_runtime_info with_validator with_backend with_mutator with_log_mode
remote_client_made = refl

remote_logged : (log remote_client a_request 0).exit ≡ done
unfolding log client_from_config validate log_mode_value new_principal_email_matcher with_includes
    with_excludes new_remote_processor with_id_token_auth get_log_mode apply_options
    with_runtime_info with_validator with_backend with_mutator with_log_mode validate_request
    request_validator validate_audit_log validate_email split matcher_processor label_processor
    process_runtime process_justification read_token process_cloud process_remote process_log
    agent_client new_processor new_client new_label_processor insert
remote_logged = refl

log-IsRelayed_example :
    IsDropped remote_client a_request 0 (log remote_client a_request 0).world
    ⊎ IsDelivered connected quiet remote_config.labels remote_client a_request 0
        (log remote_client a_request 0).world
unfolding set_default set_mode
log-IsRelayed_example =
    log-IsRelayed connected a_process quiet agent remote_config an_agent relay remote_client
      a_request 0 refl (λ name e w. tt) agent_made relay_made relay-IsConnected relay-Authenticates
      one_label remote_client_made refl refl remote_logged

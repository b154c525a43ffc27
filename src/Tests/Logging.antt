-- ===== src/Tests/Logging.antt =====
-- The audit client and its default validator on concrete requests.
use lumberjack.Prelude.{◌≡◌, ◌↔◌, refl, List, [], ◌∷◌, ◌++◌, none, some, true, false, if◌then◌else◌}
use lumberjack.Errors.{
  ok, Err, sentinel, not_exist, wrap, is_err, invalid_request, precondition_failed, status,
  invalid_argument, errorf, both,
}
use lumberjack.Api.{should_fail_close, fail_close}
use lumberjack.Api.Values.{fields, no_fields, Struct}
use lumberjack.Validation.Entries.{HasAuditLog, IsLabelled, validate-IsLabelled_iff}
use lumberjack.Validation.{
  LogEntry, Protojson, validate_labels, validate, validate_request, validate_audit_log,
  validate_email,
}
use lumberjack.Validation.Split.{split}
use lumberjack.Validation.Laws.{HasCompletePayload, validate_request_iff}
use lumberjack.Client.{
  Client, log, set_mode, handle_return, new_client, with_backend, with_log_mode, ClientOption,
  default_client, request_validator,
}
use lumberjack.Client.Laws.{Agrees, replay, log-replay}
use lumberjack.Client.Modes.{log-IsReportable}
use lumberjack.Client.Construction.{
  new_client-log_invalid, with_backend-IsAppending, with_log_mode-IsAppending,
}
use lumberjack.Server.{process_log, processed, rejected}
use lumberjack.Server.Codes.{process_log_invalid}
use lumberjack.Tests.{a_payload, a_request, bare_request, recorder, breaking}

log-replay_example : Agrees (log breaking a_request []) (
    replay
      (breaking.validators ++ (breaking.mutators ++ (breaking.backends ++ [])))
      (set_mode breaking a_request)
      [])
log-replay_example = log-replay breaking a_request []

log-IsReportable_example :
    (should_fail_close (log breaking a_request []).request.mode ≡ true)
    × (is_err precondition_failed (wrap "failed to execute backend %T: %w" (sentinel not_exist))
        ≡ false)
unfolding log validate_request request_validator validate_audit_log validate_email split is_err
log-IsReportable_example =
    log-IsReportable breaking a_request []
      (wrap "failed to execute backend %T: %w" (sentinel not_exist)) refl

validate_request_iff_example :
    (validate_request (some a_request) ≡ none) ↔ HasCompletePayload (some a_request)
validate_request_iff_example = validate_request_iff (some a_request)

abbrev refusal : Err
refusal = both (sentinel invalid_request) (
    wrap "AuditLogRequest does not have a valid payload: %w"
      (errorf "audit log payload cannot be nil" []))

abbrev options : List (ClientOption (List Struct))
options = with_backend recorder ∷ with_log_mode fail_close ∷ []

abbrev built : Client (List Struct)
built = record default_client { backends = recorder ∷ []; log_mode = fail_close }

new_client-log_invalid_example :
    ((log built bare_request []).world ≡ [])
    × ((log built bare_request []).request ≡ set_mode built bare_request)
    × ((e : Err) × (is_err invalid_request e ≡ true)
        × ((log built bare_request []).exit ≡ handle_return e (set_mode built bare_request).mode))
unfolding new_client with_backend with_log_mode
new_client-log_invalid_example =
    new_client-log_invalid options built bare_request []
      (with_backend-IsAppending recorder, (with_log_mode-IsAppending fail_close, tt)) refl
      (λ (p, h, c). cc)

process_log_invalid_example :
    ((process_log built bare_request []).0 ≡ [])
    × ((e : Err) × (is_err invalid_request e ≡ true)
        × ((process_log built bare_request []).1 ≡ (
            if should_fail_close (set_mode built bare_request).mode
            then rejected (status invalid_argument e)
            else processed (set_mode built bare_request))))
unfolding new_client with_backend with_log_mode
process_log_invalid_example =
    process_log_invalid options built bare_request []
      (with_backend-IsAppending recorder, (with_log_mode-IsAppending fail_close, tt)) refl
      (λ (p, h, c). cc)

-- A parser that reads every text as one entry.
abbrev pub an_entry : LogEntry
an_entry = record {
  insert_id = "1";
  labels = some (("environment", "prod") ∷ []);
  json_payload = some (fields no_fields);
}

abbrev pub json : Protojson
json = record {
  parse_entry = λ text. ok an_entry;
  print_struct = λ s. ok "{}";
  parse_audit_log = λ text. ok a_payload;
}

validate-IsLabelled_iff_example :
    (validate json "{}" (validate_labels ∷ []) ≡ none)
    ↔ ((le : LogEntry) × (json.parse_entry "{}" ≡ ok le) × HasAuditLog json le × IsLabelled le)
validate-IsLabelled_iff_example = validate-IsLabelled_iff json "{}"

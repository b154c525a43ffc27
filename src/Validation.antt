-- ===== src/Validation.antt =====
-- pkg/validation/validation.go: the checks that the command line, and the audit client's default
-- validator (clients/go/pkg/audit/validation.go), make of a log entry. JSON is parsed by protobuf's
-- `protojson`, a parameter.
pub mod Split
pub mod Laws
pub mod Entries
use lumberjack.Prelude.{
  String, Bool, true, Option, none, some, List, [], ◌∷◌, Dict, lookup, ◌==◌, if◌then◌else◌, is_some,
}
use lumberjack.Errors.{Err, errorf, wrap, join, Result, ok, err, sentinel, both, invalid_request}
use lumberjack.Api.{AuditLog, AuditLogRequest}
use lumberjack.Api.Values.{Struct}
use lumberjack.Validation.Split.{split, at_sign}

-- `len(parts) != 2 || parts[1] == ""`
unfoldable pub is_malformed : List String → Bool
is_malformed (_ ∷ domain ∷ []) = domain == ""
is_malformed _ = true

-- `validateEmail`
unfoldable pub validate_email : String → Option Err
unfolding is_malformed
validate_email email =
    if email == ""
    then some (errorf "PrincipalEmail cannot be empty" [])
    else if is_malformed (split at_sign email)
    then some (errorf "PrincipalEmail %q is malformed" (email ∷ []))
    else none

abbrev pub require : String → String → Option Err
require value message = if value == "" then some (errorf message []) else none

abbrev check_principal : Option String → Option Err
check_principal none = some (errorf "AuthenticationInfo cannot be nil" [])
check_principal (some email) = validate_email email

-- `ValidateAuditLog`, for a payload and for a nil pointer
unfoldable pub validate_payload_fields : AuditLog → Option Err
validate_payload_fields payload =
    join
      (join
        (join (require payload.method_name "MethodName cannot be empty")
          (require payload.service_name "ServiceName cannot be empty"))
        (require payload.resource_name "ResourceName cannot be empty"))
      (check_principal payload.authentication_info)

unfoldable pub validate_audit_log : Option AuditLog → Option Err
unfolding validate_payload_fields
validate_audit_log none = some (errorf "audit log payload cannot be nil" [])
validate_audit_log (some payload) = validate_payload_fields payload

abbrev wrapped : String → Option Err → Option Err
wrapped message none = none
wrapped message (some e) = some (wrap message e)

-- `RequestValidator.process`: a nil request has no payload to look at.
unfoldable pub check_request : Option AuditLogRequest → Option Err
check_request none = some (errorf "AuditLogRequest cannot be nil" [])
check_request (some r) =
    wrapped "AuditLogRequest does not have a valid payload: %w" (validate_audit_log r.payload)

abbrev invalid : Option Err → Option Err
invalid none = none
invalid (some e) = some (both (sentinel invalid_request) e)

-- `RequestValidator.Process`
unfoldable pub validate_request : Option AuditLogRequest → Option Err
unfolding check_request
validate_request r = invalid (check_request r)

-- The fields of Cloud Logging's `LogEntry` that the checks read.
pub record LogEntry : Type 0 where
  pub insert_id : String
  pub labels : Option (Dict String)
  pub json_payload : Option Struct

abbrev pub required_labels : List String
required_labels = "environment" ∷ "accessing_process_name" ∷ []

-- The loop of `ValidateLabels`. Go's order over the keys of a map is unspecified: this is one.
missing_labels : Dict String → List String → Option Err → Option Err
missing_labels d [] found = found
missing_labels d (k ∷ ks) found = missing_labels d ks (
    if is_some (lookup k d)
    then found
    else join found (some (errorf "missing required label: %q" (k ∷ []))))

-- `ValidateLabels`
unfoldable pub validate_labels : LogEntry → Option Err
unfolding missing_labels
validate_labels le = elim le.labels [
  | none ↦ some (errorf "missing labels" [])
  | some d ↦ missing_labels d required_labels none
]

-- What protobuf's JSON does: a log entry of a text, the text of a struct, an audit log of a text.
pub record Protojson : Type 0 where
  pub parse_entry : String → Result LogEntry
  pub print_struct : Struct → Result String
  pub parse_audit_log : String → Result AuditLog

abbrev pub Validator : Type 0
Validator = LogEntry → Option Err

unfoldable pub validate_parsed : Result AuditLog → Option Err
validate_parsed (err e) = some (wrap "failed to parse JSON payload: %w" e)
validate_parsed (ok al) = wrapped "invalid payload: %w" (validate_audit_log (some al))

module _ (json : Protojson) where
  validate_text : Result String → Option Err
  unfolding validate_parsed
  validate_text (err e) = some (wrap "failed to extract audit log from JSON payload: %w" e)
  validate_text (ok text) = validate_parsed (json.parse_audit_log text)

  -- `validatePayload`
  unfoldable pub validate_payload : LogEntry → Option Err
  unfolding validate_text
  validate_payload le = elim le.json_payload [
    | none ↦ some (errorf "missing audit log payload" [])
    | some payload ↦ validate_text (json.print_struct payload)
  ]

  -- the loop over the validators, in `Validate`
  unfoldable pub run_validators : List Validator → LogEntry → Option Err → Option Err
  run_validators [] le found = found
  run_validators (v ∷ vs) le found = run_validators vs le (join found (v le))

  -- `Validate`, of the text as it is parsed
  unfoldable pub validate_entry : List Validator → Result LogEntry → Option Err
  unfolding validate_payload run_validators
  validate_entry extra (err e) = some (wrap "failed to parse log entry as JSON: %w" e)
  validate_entry extra (ok le) = run_validators (validate_payload ∷ extra) le none

  -- `Validate`
  unfoldable pub validate : String → List Validator → Option Err
  unfolding validate_entry
  validate log extra = validate_entry extra (json.parse_entry log)

-- ===== src/Api.antt =====
-- clients/go/apis/v1alpha1: the audit log request (audit_log_request.pb.go, generated from
-- protos/v1alpha1/audit_log_request.proto) and `ShouldFailClose` (auditlogutil.go). The payload is
-- third_party/googleapis/google/cloud/audit/audit_log.proto, in the fields that the program names.
-- A pointer to a message is an `Option`, and a map that may be nil is an `Option` too.
pub mod Values
use lumberjack.Prelude.{ℕ, String, Bool, true, false, Option, none, some, Dict, ◌==◌, if◌then◌else◌}
use lumberjack.Api.Values.{Struct}

-- An enum of protobuf is open: a message can hold a number that no name stands for.
pub data LogMode : Type 0 where
  log_mode_unspecified fail_close best_effort : LogMode
  undeclared : ℕ → LogMode

pub data LogType : Type 0 where
  unspecified admin_activity data_access consent_event system_event : LogType
  undeclared : ℕ → LogType

-- `ShouldFailClose`
abbrev pub should_fail_close : LogMode → Bool
should_fail_close fail_close = true
should_fail_close _ = false

abbrev pub is_unspecified : LogMode → Bool
is_unspecified log_mode_unspecified = true
is_unspecified _ = false

abbrev pub is_best_effort : LogMode → Bool
is_best_effort best_effort = true
is_best_effort _ = false

-- `AuditLogRequest_LogType_value`
unfoldable pub log_type_value : String → Option LogType
log_type_value s =
    if s == "UNSPECIFIED"
    then some unspecified
    else if s == "ADMIN_ACTIVITY"
    then some admin_activity
    else if s == "DATA_ACCESS"
    then some data_access
    else if s == "CONSENT_EVENT"
    then some consent_event
    else if s == "SYSTEM_EVENT"
    then some system_event
    else none

-- `AuditLogRequest_LogMode_value`
unfoldable pub log_mode_value : String → Option LogMode
log_mode_value s =
    if s == "LOG_MODE_UNSPECIFIED"
    then some log_mode_unspecified
    else if s == "FAIL_CLOSE"
    then some fail_close
    else if s == "BEST_EFFORT"
    then some best_effort
    else none

pub record RpcStatus : Type 0 where
  pub status_code : ℕ
  pub message : String

pub record RequestMetadata : Type 0 where
  -- `RequestAttributes.Reason`, with the attributes that hold it
  pub reason : Option String

pub record AuditLog : Type 0 where
  pub service_name : String
  pub method_name : String
  pub resource_name : String
  -- `AuthenticationInfo`, which is its `PrincipalEmail` here
  pub authentication_info : Option String
  pub status : Option RpcStatus
  pub request : Option Struct
  pub response : Option Struct
  pub metadata : Option Struct
  pub request_metadata : Option RequestMetadata

pub record Operation : Type 0 where
  pub id : String
  pub producer : String

pub record AuditLogRequest : Type 0 where
  pub log_type : LogType
  pub payload : Option AuditLog
  pub labels : Option (Dict String)
  pub mode : LogMode
  pub operation : Option Operation
  pub timestamp : Option ℕ
  pub request_context : Option Struct
  pub justification_token : String

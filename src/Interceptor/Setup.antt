-- ===== src/Interceptor/Setup.antt =====
-- What clients/go/pkg/audit/interceptor.go fills into a log request: the token of the header, the
-- log type of the rule, the request and the response, and the status of an error.
use Prim.Native.String.{String, [], ◌∷◌}
use lumberjack.Prelude.{
  ℕ, code, Bool, ◌&&◌, ◌||◌, Option, none, some, List, [], ◌∷◌, ◌==◌, leb, nat_eq, if◌then◌else◌,
}
use lumberjack.Errors.{Err, wrap, status, internal, interceptor_error, Result, ok, err}
use lumberjack.Api.{
  AuditLogRequest, AuditLog, LogMode, LogType, unspecified, log_type_value, Operation, RpcStatus,
}
use lumberjack.Api.Values.{Struct}
use lumberjack.Config.{AuditRule, directive_request_only, directive_request_and_response}
use lumberjack.Interceptor.Convert.{GoValues, to_proto_struct}

-- `unicode.IsSpace`
unfoldable pub is_space : ℕ → Bool
is_space c =
    (leb 9 c && leb c 13)
    || nat_eq c 32
    || nat_eq c 0x85
    || nat_eq c 0xa0
    || nat_eq c 0x1680
    || (leb 0x2000 c && leb c 0x200a)
    || nat_eq c 0x2028
    || nat_eq c 0x2029
    || nat_eq c 0x202f
    || nat_eq c 0x205f
    || nat_eq c 0x3000

trim_left : String → String
unfolding is_space
trim_left [] = []
trim_left (c ∷ s) = let rest = trim_left s in if is_space (code c) then rest else c ∷ s

-- A space is kept only if a character that is none follows.
trim_right : String → String
unfolding is_space
trim_right [] = []
trim_right (c ∷ s) =
    let rest = trim_right s in if is_space (code c) && rest == "" then "" else c ∷ rest

-- `strings.TrimSpace`
unfoldable pub trim_space : String → String
unfolding trim_left trim_right
trim_space s = trim_right (trim_left s)

-- gRPC's incoming metadata, `none` if the context has none: the values under a key
pub record Metadata : Type 0 where
  pub get : String → List String

abbrev pub token_header_key : String
token_header_key = "justification-token"

-- `fillJVSToken`
unfoldable pub fill_jvs_token : Option Metadata → AuditLogRequest → AuditLogRequest
unfolding trim_space
fill_jvs_token none r = r
fill_jvs_token (some md) r = elim (md.get token_header_key) [
  | [] ↦ r
  | v ∷ _ ↦ record r { justification_token = trim_space v }
]

abbrev type_or_unspecified : Option LogType → LogType
type_or_unspecified none = unspecified
type_or_unspecified (some t) = t

abbrev pub named_payload : String → String → AuditLog
named_payload service method_name = record {
  service_name = service;
  method_name = method_name;
  resource_name = "";
  authentication_info = none;
  status = none;
  request = none;
  response = none;
  metadata = none;
  request_metadata = none;
}

-- The log request of a call up to its log type. The principal is filled in next.
unfoldable pub baseline :
    String → String → LogMode → Option Operation → ℕ → Option Metadata → AuditRule → AuditLogRequest
unfolding fill_jvs_token
baseline service method_name mode operation now md rule =
    let r : AuditLogRequest = record {
      log_type = unspecified;
      payload = some (named_payload service method_name);
      labels = none;
      mode = mode;
      operation = operation;
      timestamp = some now;
      request_context = none;
      justification_token = "";
    } in
    record (fill_jvs_token md r) { log_type = type_or_unspecified (log_type_value rule.log_type) }

-- A write through `Payload`, which panics if that is nil.
abbrev pub on_payload : (AuditLog → AuditLog) → AuditLogRequest → Option AuditLogRequest
on_payload f r = elim r.payload [ none ↦ none | some p ↦ some (record r { payload = some (f p) }) ]

abbrev pub set_principal : String → AuditLogRequest → Option AuditLogRequest
set_principal email = on_payload (λ p. record p { authentication_info = some email })

-- `shouldLogReq`
unfoldable pub should_log_req : AuditRule → Bool
should_log_req r =
    r.directive == directive_request_and_response || r.directive == directive_request_only

-- `shouldLogResp`
unfoldable pub should_log_resp : AuditRule → Bool
should_log_resp r = r.directive == directive_request_and_response

-- What a write into the log request leaves: an error, a panic, or the request.
pub data Written : Type 0 where
  written : AuditLogRequest → Written
  refused : Err → Written
  crashed : Written

abbrev pub written_or_crashed : Option AuditLogRequest → Written
written_or_crashed none = crashed
written_or_crashed (some r) = written r

unfoldable pub write_request : AuditLogRequest → Result Struct → Written
write_request r (err e) =
    refused
      (interceptor_error (status internal (wrap "failed to convert req into a proto struct: %v" e)))
write_request r (ok s) = written_or_crashed (on_payload (λ p. record p { request = some s }) r)

unfoldable pub write_response : AuditLogRequest → Result Struct → Written
write_response r (err e) =
    refused (
      interceptor_error (status internal (wrap "failed to convert resp into a proto struct: %v" e)))
write_response r (ok s) = written_or_crashed (on_payload (λ p. record p { response = some s }) r)

module _ (go : GoValues) where
  open go use {Any}

  -- `setReq`
  unfoldable pub set_req : Any → AuditLogRequest → Written
  unfolding write_request
  set_req m r = write_request r (to_proto_struct go m)

  -- `setResp`
  unfoldable pub set_resp : Any → AuditLogRequest → Written
  unfolding write_response
  set_resp m r = write_response r (to_proto_struct go m)

-- What gRPC's `status` reads off an error, and the text of an error.
pub record ErrorTexts : Type 0 where
  pub from_error : Err → Option RpcStatus
  pub text : Err → String

-- `rpccode.Code_INTERNAL`
abbrev pub code_internal : ℕ
code_internal = 13

-- `setErrorStatus`
unfoldable pub set_error_status : ErrorTexts → Err → AuditLogRequest → Option AuditLogRequest
set_error_status texts e r = elim (texts.from_error e) [
  | some s ↦ on_payload (λ p. record p { status = some s }) r
  | none ↦
      on_payload
        (λ p. record p {
          status = some (record { status_code = code_internal; message = texts.text e });
        })
        r
]

-- ===== src/Justification.antt =====
-- clients/go/pkg/justification/processor.go: the mutator that puts the justification token's content
-- into the audit log. The token's validator, which is JVS's, the reader of its claims and JSON are
-- parameters.
pub mod Laws
use lumberjack.Prelude.{String, Option, none, some, List, [], ◌∷◌, ◌==◌, if◌then◌else◌}
use lumberjack.Errors.{
  Err, sentinel, wrap, both, justification_missing, justification_invalid, missing_payload, Result,
  ok, err, ◌>>=◌, map_err, Exit, done, failed, panicked,
}
use lumberjack.Api.{AuditLog, AuditLogRequest, RequestMetadata}
use lumberjack.Api.Values.{
  Value, struct_value, Struct, nil_map, fields, Fields, no_fields, set_field,
}
use lumberjack.Client.{Outcome, Processor}

pub record Jvs : Type 1 where
  pub Token : Type 0
  pub Reason : Type 0
  -- `Validator.ValidateJWT`
  pub validate_jwt : String → String → Result Token
  -- `json.Marshal` of a token, and `protojson.Unmarshal` to a struct
  pub marshal_token : Token → Result String
  pub unmarshal_struct : String → Result Struct
  -- `jvspb.GetJustifications`
  pub get_justifications : Token → Result (List Reason)
  -- `json.Marshal` of the justifications
  pub marshal_reasons : List Reason → Result String

abbrev pub email_of : Option String → String
email_of none = ""
email_of (some email) = email

abbrev pub payload_email : Option AuditLog → String
payload_email none = ""
payload_email (some p) = email_of p.authentication_info

-- `principalEmail`, of a request that is not nil
abbrev pub principal_email : AuditLogRequest → String
principal_email r = payload_email r.payload

-- The metadata's map, made where there are no metadata; `none` is a struct whose map is nil.
abbrev pub writable : Option Struct → Option Fields
writable none = some no_fields
writable (some nil_map) = none
writable (some (fields fs)) = some fs

abbrev pub with_token : AuditLog → Struct → Fields → AuditLog
with_token p s fs = record p {
  metadata = some (fields (set_field "justification" (struct_value s) fs));
}

-- `RequestMetadata.RequestAttributes.Reason = reason`
abbrev pub with_reason : String → AuditLog → AuditLog
with_reason reason p = record p { request_metadata = some (record { reason = some reason }) }

abbrev pub with_payload : AuditLogRequest → AuditLog → AuditLogRequest
with_payload r p = record r { payload = some p }

module _ (jvs : Jvs) where
  -- the calls before the payload is looked at: the token, and the struct of its content
  unfoldable pub read_token : AuditLogRequest → Result (jvs.Token × Struct)
  read_token r =
      map_err (λ e. both (sentinel justification_invalid) e)
        (jvs.validate_jwt r.justification_token (principal_email r))
      >>= (λ token.
          map_err (wrap "failed to encode justification token: %w") (jvs.marshal_token token)
          >>= (λ b.
              map_err (wrap "failed to decode justification token: %w") (jvs.unmarshal_struct b)
              >>= (λ s. ok (token, s))))

  abbrev marshalled : List jvs.Reason → Result (Option String)
  marshalled [] = ok none
  marshalled (j ∷ js) =
      map_err (wrap "failed to marshal justifications: %w") (jvs.marshal_reasons (j ∷ js))
      >>= (λ b. ok (some b))

  -- the calls after the token is in the metadata: the reason, if the token has justifications
  unfoldable pub read_reason : jvs.Token → Result (Option String)
  read_reason token =
      map_err (λ e. both (sentinel justification_invalid) e) (jvs.get_justifications token)
      >>= marshalled

  module _ {W : Type 0} where
    abbrev pub stop_with : AuditLogRequest → W → Err → Outcome W
    stop_with r w e = record { world = w; request = r; exit = failed e }

    abbrev pub finish_with : AuditLogRequest → W → AuditLog → Result (Option String) → Outcome W
    finish_with r w p (err e) = stop_with (with_payload r p) w e
    finish_with r w p (ok none) = record { world = w; request = with_payload r p; exit = done }
    finish_with r w p (ok (some reason)) = record {
      world = w;
      request = with_payload r (with_reason reason p);
      exit = done;
    }

    abbrev pub write_token :
        AuditLogRequest → W → AuditLog → jvs.Token → Struct → Option Fields → Outcome W
    write_token r w p token s none = record { world = w; request = r; exit = panicked }
    write_token r w p token s (some fs) = finish_with r w (with_token p s fs) (read_reason token)

    abbrev pub with_read :
        AuditLogRequest → W → Result (jvs.Token × Struct) → Option AuditLog → Outcome W
    with_read r w (err e) p = stop_with r w e
    with_read r w (ok _) none = stop_with r w (sentinel missing_payload)
    with_read r w (ok (token, s)) (some p) = write_token r w p token s (writable p.metadata)

    -- `(*Processor).Process`
    unfoldable pub process_justification : AuditLogRequest → W → Outcome W
    unfolding read_reason
    process_justification r w =
        if r.justification_token == ""
        then stop_with r w (sentinel justification_missing)
        else with_read r w (read_token r) r.payload

    abbrev pub justification_processor : Processor W
    justification_processor = record { process = process_justification; stop = none }

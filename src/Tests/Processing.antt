-- ===== src/Tests/Processing.antt =====
-- The processors for justifications, the runtime environment and Cloud Logging on concrete requests.
use Prim.Native.String.{◌∷◌}
use lumberjack.Prelude.{ℕ, suc, String, ◌≡◌, ◌≢◌, ◌↔◌, refl, none, some, List, [], ◌∷◌, true}
use lumberjack.Errors.{sentinel, not_exist, ok, err, panicked}
use lumberjack.Api.{
  AuditLog, AuditLogRequest, unspecified, admin_activity, data_access, consent_event, system_event,
}
use lumberjack.Api.Values.{Struct, nil_map, fields, no_fields}
use lumberjack.Justification.{Jvs, read_token, process_justification}
use lumberjack.Justification.Laws.{
  IsContent, IsWritten, process_justification-done, process_justification-panicked_iff,
}
use lumberjack.Runtime.{Environment, MonitoredResource, detect}
use lumberjack.Runtime.Detection.{Platform, first_shown, platforms, IsLocated, detect-IsLocated}
use lumberjack.CloudLogging.{
  LoggingClient, CloudProcessor, CloudOption, with_logging_client, with_default_best_effort,
}
use lumberjack.Tests.{a_payload, a_request}

-- The number of writes so far.
abbrev no_writes : ℕ
no_writes = 0

-- Every token is valid, names its bearer, and has one justification.
abbrev pub jvs : Jvs
jvs = record {
  Token = String;
  Reason = String;
  validate_jwt = λ token subject. ok token;
  marshal_token = λ token. ok token;
  unmarshal_struct = λ b. ok (fields no_fields);
  get_justifications = λ token. ok ("ticket" ∷ []);
  marshal_reasons = λ rs. ok "[]";
}

process_justification-done_example :
    (a_request.justification_token ≢ "")
    × ((token : String) × (s : Struct) × IsContent jvs "justification" a_request no_writes token s
        × IsWritten "justification" s a_request
            (process_justification jvs a_request no_writes).request)
unfolding process_justification read_token
process_justification-done_example =
    process_justification-done jvs "justification" a_request no_writes refl

abbrev nil_metadata : AuditLogRequest
nil_metadata = record a_request { payload = some (record a_payload { metadata = some nil_map }) }

process_justification-panicked_iff_example :
    ((process_justification jvs nil_metadata no_writes).exit ≡ panicked) ↔ (
      (nil_metadata.justification_token ≢ "")
      × ((x : String × Struct) × (p : AuditLog) × (read_token jvs nil_metadata ≡ ok x)
          × (nil_metadata.payload ≡ some p)
          × (p.metadata ≡ some nil_map)))
process_justification-panicked_iff_example =
    process_justification-panicked_iff jvs nil_metadata no_writes

-- A virtual machine.
abbrev machine : Environment
machine = record {
  lookup_env = λ k. none;
  project_id = ok "project";
  zone = ok "us-east1-b";
  instance_id = ok "7";
  instance_name = ok "vm";
  instance_attribute = λ k. err (sentinel not_exist);
  on_gce = true;
  read_file = λ f. err (sentinel not_exist);
  marshal_resource = λ r. ok "{}";
  unmarshal_struct = λ b. ok (fields no_fields);
}

abbrev machine_resource : MonitoredResource
machine_resource = record {
  resource_type = "gce_instance";
  resource_labels =
      ("project_id", "project")
      ∷ ("instance_id", "7")
      ∷ ("instance_name", "vm")
      ∷ ("zone", "us-east1-b")
      ∷ [];
}

detect-IsLocated_example :
    (t : Platform) × (first_shown (platforms machine) ≡ some t)
    × IsLocated machine t machine_resource
unfolding detect
detect-IsLocated_example = detect-IsLocated machine machine_resource refl

-- A logging service that counts its writes, and whose flushes fail.
abbrev pub counter : LoggingClient ℕ
counter = record {
  log_entry = λ name e n. suc n;
  log_sync = λ name e n. (suc n, none);
  flush = λ name n. (n, some (sentinel not_exist));
}

abbrev options : List (CloudOption ℕ)
options = with_logging_client counter ∷ with_default_best_effort ∷ []

abbrev cloud : CloudProcessor ℕ
cloud = record {
  client = counter;
  best_effort = true;
  logger_by_log_type =
      (unspecified, "audit.abcxyz/unspecified")
      ∷ (admin_activity, "audit.abcxyz/activity")
      ∷ (data_access, "audit.abcxyz/data_access")
      ∷ (consent_event, "audit.abcxyz/consent")
      ∷ (system_event, "audit.abcxyz/system_event")
      ∷ [];
}

-- ===== src/Tests/Remoting.antt =====
-- The remote backend with an agent, without a network between them.
use lumberjack.Prelude.{◌≡◌, refl, ap, Option, none, some, List, []}
use lumberjack.Errors.{is_err, sentinel, canceled, Result, ok, err}
use lumberjack.Api.{AuditLogRequest}
use lumberjack.Api.Values.{Struct}
use lumberjack.Validation.{validate_request, validate_audit_log, validate_email}
use lumberjack.Validation.Split.{split}
use lumberjack.Client.{Client, log, request_validator}
use lumberjack.Server.{Response, processed, rejected, aborted, process_log}
use lumberjack.Remote.{RemoteProcessor, process_remote}
use lumberjack.Remote.Agent.{IsConnected, remote_answer, process_remote-answer}
use lumberjack.Tests.{a_request, breaking}

abbrev to_result : Response → Result (Option AuditLogRequest)
to_result (processed r) = ok (some r)
to_result (rejected e) = err e
to_result aborted = err (sentinel canceled)

abbrev remote : Client (List Struct) → RemoteProcessor (List Struct)
remote c = record {
  call_opts = none;
  process_log = λ tokens r w. ((process_log c r w).0, to_result (process_log c r w).1);
  close = λ w. (w, none);
}

remote-IsConnected : (c : Client (List Struct)) → IsConnected c (remote c)
remote-IsConnected c = record {
  hands_on = λ tokens r r' w h. ap (λ x. ((process_log c r w).0, to_result x)) h;
  refuses = λ tokens r w e h. ap (λ x. ((process_log c r w).0, to_result x)) h;
}

process_remote-answer_example :
    process_remote (remote breaking) a_request []
    ≡ remote_answer a_request (log breaking a_request []) (log breaking a_request []).exit
unfolding log validate_request request_validator validate_audit_log validate_email split is_err
process_remote-answer_example =
    process_remote-answer breaking (remote breaking) a_request [] (remote-IsConnected breaking)
      (λ w. ([], refl)) (λ h. cc)

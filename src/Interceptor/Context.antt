-- ===== src/Interceptor/Context.antt =====
-- The log request in a handler's context, of clients/go/pkg/audit/interceptor.go: the stream wrapper's
-- `Context`, and `LogReqFromCtx`. A context is modelled by the log request that it holds.
use lumberjack.Prelude.{◌≡◌, refl, Bool, true, false, Option, none, some}
use lumberjack.Api.{AuditLog, AuditLogRequest, unspecified, log_mode_unspecified}
use lumberjack.Interceptor.Convert.{GoValues}
use lumberjack.Interceptor.Streams.{Wrapper}

abbrev pub empty_payload : AuditLog
empty_payload = record {
  service_name = "";
  method_name = "";
  resource_name = "";
  authentication_info = none;
  status = none;
  request = none;
  response = none;
  metadata = none;
  request_metadata = none;
}

abbrev pub empty_log_req : AuditLogRequest
empty_log_req = record {
  log_type = unspecified;
  payload = some empty_payload;
  labels = none;
  mode = log_mode_unspecified;
  operation = none;
  timestamp = none;
  request_context = none;
  justification_token = "";
}

-- `LogReqFromCtx`
unfoldable pub log_req_from_ctx : Option AuditLogRequest → AuditLogRequest × Bool
log_req_from_ctx (some r) = (r, true)
log_req_from_ctx none = (empty_log_req, false)

module _ (go : GoValues) {W : Type 0} where
  -- `(*serverStreamWrapper).Context`
  unfoldable pub stream_context : Wrapper go W → Option AuditLogRequest
  stream_context s = some s.baseline_log_req

  -- A stream handler finds the log request that the wrapper's logs start from.
  log_req_from_ctx-stream_context :
      (s : Wrapper go W) → log_req_from_ctx (stream_context s) ≡ (s.baseline_log_req, true)
  unfolding log_req_from_ctx stream_context
  log_req_from_ctx-stream_context s = refl

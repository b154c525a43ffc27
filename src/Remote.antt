-- ===== src/Remote.antt =====
-- clients/go/pkg/remote/processor.go: the backend that sends a request to the agent. The call over
-- gRPC, the options of the authentication and the closing of the connection are parameters.
pub mod Agent
pub mod Dial
use lumberjack.Prelude.{String, Option, none, some, List, []}
use lumberjack.Errors.{Err, wrap, Result, ok, err, Exit, done, failed}
use lumberjack.Api.{AuditLogRequest}
use lumberjack.Client.{Outcome, Processor}

pub record RemoteProcessor (W : Type 0) : Type 0 where
  -- `authOpts.callOpts`, where there is an authentication: the tokens for a call
  pub call_opts : Option (W → W × Result (List String))
  -- `client.ProcessLog`, with the tokens: the result of the response, which may be nil
  pub process_log : List String → AuditLogRequest → W → W × Result (Option AuditLogRequest)
  -- `conn.Close`
  pub close : W → W × Option Err

-- The request with what the agent answered.
abbrev pub take_result : AuditLogRequest → Option AuditLogRequest → AuditLogRequest
take_result r none = r
take_result r (some result) = record r {
  labels = result.labels;
  payload = result.payload;
  log_type = result.log_type;
}

abbrev pub wrap_close : Option Err → Option Err
wrap_close none = none
wrap_close (some e) = some (wrap "failed to close grpc connection: %w" e)

module _ {W : Type 0} where
  abbrev pub answered : AuditLogRequest → W → Result (Option AuditLogRequest) → Outcome W
  answered r w (err e) = record {
    world = w;
    request = r;
    exit = failed (wrap "remote log processing failed: %w" e);
  }
  answered r w (ok result) = record { world = w; request = take_result r result; exit = done }

  -- the options of the authentication, which each call asks for anew
  abbrev pub auth_call_opts : Option (W → W × Result (List String)) → W → W × Result (List String)
  auth_call_opts none w = (w, ok [])
  auth_call_opts (some f) w = f w

  abbrev pub send : RemoteProcessor W → AuditLogRequest → W × Result (List String) → Outcome W
  send p r (w, err e) = record {
    world = w;
    request = r;
    exit = failed (wrap "failed to generate gRPC auth call options: %w" e);
  }
  send p r (w, ok tokens) = let (w', result) = p.process_log tokens r w in answered r w' result

  -- `(*Processor).Process`
  unfoldable pub process_remote : RemoteProcessor W → AuditLogRequest → W → Outcome W
  process_remote p r w = send p r (auth_call_opts p.call_opts w)

  -- `(*Processor).Stop`
  unfoldable pub stop_remote : RemoteProcessor W → W → W × Option Err
  stop_remote p w = let (w', e) = p.close w in (w', wrap_close e)

  abbrev pub remote_processor : RemoteProcessor W → Processor W
  remote_processor p = record { process = process_remote p; stop = some (stop_remote p) }

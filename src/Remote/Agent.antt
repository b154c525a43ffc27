-- ===== src/Remote/Agent.antt =====
-- The backend of clients/go/pkg/remote/processor.go with the agent of pkg/server/server.go.
use lumberjack.Prelude.{String, List, if◌then◌else◌, ◌≢◌, inl, inr, ◌≡◌, some}
use lumberjack.Errors.{
  Exit, panicked, Exit-cases, Err, wrap, ok, err, done, failed, is_err, invalid_request, status,
  invalid_argument, internal,
}
use lumberjack.Api.{AuditLogRequest}
use lumberjack.Client.{Outcome, Client, log}
use lumberjack.Server.{processed, rejected, process_log, codify_err}
use lumberjack.Remote.{RemoteProcessor, take_result, process_remote, auth_call_opts}

-- gRPC hands on what the agent answers: a response with its result, and an error as such.
pub record IsConnected {W : Type 0} (c : Client W) (p : RemoteProcessor W) : Type 0 where
  pub hands_on :
      (tokens : List String) (r r' : AuditLogRequest) (w : W)
      → (process_log c r w).1 ≡ processed r'
      → p.process_log tokens r w ≡ ((process_log c r w).0, ok (some r'))
  pub refuses :
      (tokens : List String) (r : AuditLogRequest) (w : W) (e : Err)
      → (process_log c r w).1 ≡ rejected e
      → p.process_log tokens r w ≡ ((process_log c r w).0, err e)

-- There is no authentication, or it gives its tokens for each call and leaves the world.
abbrev pub Authenticates : {W : Type 0} → RemoteProcessor W → Type 0
Authenticates {W = W} p =
    (w : W) → (tokens : List String) × (auth_call_opts p.call_opts w ≡ (w, ok tokens))

-- What the remote backend makes of a request, from what the agent's client left and how it ended: it
-- takes over the labels, the payload and the type, or fails with a status for the client's error.
abbrev pub remote_answer : {W : Type 0} → AuditLogRequest → Outcome W → Exit → Outcome W
remote_answer r o done = record {
  world = o.world;
  request = record r {
    labels = o.request.labels;
    payload = o.request.payload;
    log_type = o.request.log_type;
  };
  exit = done;
}
remote_answer r o (failed e) = record {
  world = o.world;
  request = r;
  exit = failed (
      wrap "remote log processing failed: %w"
        (if is_err invalid_request e then status invalid_argument e else status internal e));
}
remote_answer r o panicked = o

module _ {W : Type 0} (c : Client W) (p : RemoteProcessor W) where
  -- A backend that is connected to an agent, with or without an authentication that works and has
  -- no effect on the world: a request that the agent's client logs without error takes its labels,
  -- payload and type from the request as that client left it, and keeps the rest; the world is the
  -- one that the client left.
  pub process_remote-log :
      (r : AuditLogRequest) (w : W)
      → IsConnected c p
      → Authenticates p
      → (log c r w).exit ≡ done
      → process_remote p r w ≡ record {
        world = (log c r w).world;
        request = take_result r (some (log c r w).request);
        exit = done;
      }
  unfolding process_remote process_log
  process_remote-log r w v auth h =
      let (tokens, given) = auth w in rw (given, v.hands_on tokens r (log c r w).request w (rw h))

  -- A backend that is connected to an agent, with or without an authentication that works and has
  -- no effect on the world: if the agent's client returns an error, the backend fails with the
  -- agent's status for it, wrapped, and the request stays as it is; the world is the one that the
  -- client left.
  pub process_remote-failed :
      (r : AuditLogRequest) (w : W) (e : Err)
      → IsConnected c p
      → Authenticates p
      → (log c r w).exit ≡ failed e
      → process_remote p r w ≡ record {
        world = (log c r w).world;
        request = r;
        exit = failed (wrap "remote log processing failed: %w" (codify_err e));
      }
  unfolding process_remote process_log
  process_remote-failed r w e v auth h =
      let (tokens, given) = auth w in rw (given, v.refuses tokens r w (codify_err e) (rw h))

  -- A backend that is connected to an agent, with or without an authentication that works and has
  -- no effect on the world: unless the agent's client panics, the world is the one that this client
  -- left. A request that it logged without error takes its labels, payload and type from the
  -- request as the client left it, and keeps the rest; if it returned an error, the backend fails
  -- with the agent's status for it, wrapped, and the request stays as it is.
  pub process_remote-answer :
      (r : AuditLogRequest) (w : W)
      → IsConnected c p
      → Authenticates p
      → (log c r w).exit ≢ panicked
      → process_remote p r w ≡ remote_answer r (log c r w) (log c r w).exit
  unfolding codify_err
  process_remote-answer r w v auth h = elim (Exit-cases (log c r w).exit) [
    | inl ended ↦ rw ended (process_remote-log r w v auth ended)
    | inr (inl (e, ended)) ↦ rw ended (process_remote-failed r w e v auth ended)
    | inr (inr crashed) ↦ absurd (h crashed)
  ]

-- ===== src/Server.antt =====
-- pkg/server/server.go: the audit log agent, which hands a request to its client.
pub mod Codes
pub mod Tracing
pub mod Main
pub mod Runs
pub mod Delivery
use lumberjack.Prelude.{if◌then◌else◌}
use lumberjack.Errors.{
  Err, status, Code, invalid_argument, internal, is_err, invalid_request, Exit, done, failed,
  panicked,
}
use lumberjack.Api.{AuditLogRequest}
use lumberjack.Client.{Client, Outcome, log}

-- What the method answers: a response with the request as the client left it, an error, or nothing
-- if the client panicked.
pub data Response : Type 0 where
  processed : AuditLogRequest → Response
  rejected : Err → Response
  aborted : Response

-- `codifyErr`
unfoldable pub codify_err : Err → Err
codify_err e = if is_err invalid_request e then status invalid_argument e else status internal e

abbrev pub respond : AuditLogRequest → Exit → Response
respond r done = processed r
respond r (failed e) = rejected (codify_err e)
respond r panicked = aborted

module _ {W : Type 0} where
  -- `(*AuditLogAgent).ProcessLog`
  unfoldable pub process_log : Client W → AuditLogRequest → W → W × Response
  unfolding codify_err
  process_log c r w = let o = log c r w in (o.world, respond o.request o.exit)

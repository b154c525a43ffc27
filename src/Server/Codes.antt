-- ===== src/Server/Codes.antt =====
-- The answers of the agent of pkg/server/server.go.
use lumberjack.Prelude.{◌≡◌, some, List, All, true, if◌then◌else◌, Bool-cases, inl, inr}
use lumberjack.Errors.{Err, status, invalid_argument, is_err, invalid_request, ok}
use lumberjack.Api.{AuditLogRequest, should_fail_close}
use lumberjack.Validation.Laws.{HasCompletePayload}
use lumberjack.Client.{Client, ClientOption, new_client, set_mode, handle_return}
use lumberjack.Client.Construction.{IsAppending, new_client-log_invalid}
use lumberjack.Server.{processed, rejected, respond, codify_err, process_log}

respond-handle_return :
    (e : Err) (r : AuditLogRequest)
    → is_err invalid_request e ≡ true
    → respond r (handle_return e r.mode)
      ≡ (if should_fail_close r.mode then rejected (status invalid_argument e) else processed r)
unfolding codify_err handle_return
respond-handle_return e r h = elim (Bool-cases (should_fail_close r.mode)) [
  | inl b ↦ rw (b, h)
  | inr b ↦ rw b
]

-- An agent whose client was made with options that keep the default validator first answers a request whose
-- payload is incomplete without an effect on the world: in fail-close mode with the status
-- InvalidArgument, and in any other mode with a response that holds the request, its mode filled in.
pub process_log_invalid :
    {W : Type 0} (os : List (ClientOption W)) (c : Client W) (r : AuditLogRequest) (w : W)
    → All IsAppending os
    → new_client os ≡ ok c
    → ¬ HasCompletePayload (some r)
    → ((process_log c r w).0 ≡ w)
      × ((e : Err) × (is_err invalid_request e ≡ true)
          × ((process_log c r w).1 ≡ (
              if should_fail_close (set_mode c r).mode
              then rejected (status invalid_argument e)
              else processed (set_mode c r))))
unfolding process_log
process_log_invalid os c r w h made bad =
    let (still, same, (e, invalid, x)) = new_client-log_invalid os c r w h made bad in
    (still, (e, invalid, rw (same, x, respond-handle_return e (set_mode c r) invalid)))

-- ===== src/Client.antt =====
-- clients/go/pkg/audit/client.go: the audit logging client, a list of validators, one of mutators
-- and one of backends. `W` is whatever the processors act on outside the request: the logging
-- service, the network, the recorded calls of a test. The client's own debug and warning output
-- is left out.
pub mod Laws
pub mod Construction
pub mod Modes
pub mod Stops
pub mod Delivery
use lumberjack.Prelude.{
  String, Bool, true, false, Option, none, some, List, [], ◌∷◌, ◌++◌, if◌then◌else◌,
}
use lumberjack.Errors.{
  Err, wrap, is_err, precondition_failed, join, Exit, done, failed, panicked, Result, ok, err,
  ◌>>=◌, map_err,
}
use lumberjack.Api.{
  AuditLogRequest, LogMode, log_mode_unspecified, is_unspecified, should_fail_close,
}
use lumberjack.Validation.{validate_request}

-- What a call of `Process` or of `Log` leaves: the request as it then is, and how the call ended.
pub record Outcome (W : Type 0) : Type 0 where
  pub world : W
  pub request : AuditLogRequest
  pub exit : Exit

-- `LogProcessor`, with the `Stop` of a `StoppableProcessor` where it has one
pub record Processor (W : Type 0) : Type 0 where
  pub process : AuditLogRequest → W → Outcome W
  pub stop : Option (W → W × Option Err)

pub record Client (W : Type 0) : Type 0 where
  pub validators : List (Processor W)
  pub mutators : List (Processor W)
  pub backends : List (Processor W)
  pub log_mode : LogMode

-- `handleReturn`, for an error
unfoldable pub handle_return : Err → LogMode → Exit
handle_return e mode = if should_fail_close mode then failed e else done

abbrev pub exit_of : Option Err → Exit
exit_of none = done
exit_of (some e) = failed e

abbrev pub Rest : Type 0 → Type 0
Rest W = AuditLogRequest → W → Outcome W

-- An option of `NewClient`.
abbrev pub ClientOption : Type 0 → Type 0
ClientOption W = Client W → Result (Client W)

module _ {W : Type 0} where
  -- `RequestValidator`, the default validator. It looks at the request alone.
  unfoldable pub request_validator : Processor W
  request_validator = record {
    process = λ r w. record { world = w; request = r; exit = exit_of (validate_request (some r)) };
    stop = none;
  }

  -- An error of a processor ends `Log`: with nil if a precondition failed, and else by the mode that
  -- the request then has.
  unfoldable pub refuse : String → Err → Outcome W → Outcome W
  unfolding handle_return
  refuse message e o =
      if is_err precondition_failed e
      then record o { exit = done }
      else record o { exit = handle_return (wrap message e) o.request.mode }

  -- What follows a processor: the remaining ones if it passed, else the end of `Log`.
  unfoldable pub proceed : String → Exit → Outcome W → Rest W → Outcome W
  unfolding refuse
  proceed message done o rest = rest o.request o.world
  proceed message (failed e) o rest = refuse message e o
  proceed message panicked o rest = o

  -- one of the three loops of `Log`
  unfoldable pub stage : String → List (Processor W) → Rest W → Rest W
  unfolding proceed
  stage message [] rest r w = rest r w
  stage message (p ∷ ps) rest r w =
      let o = p.process r w in proceed message o.exit o (stage message ps rest)

  abbrev pub finish : Rest W
  finish r w = record { world = w; request = r; exit = done }

  unfoldable pub set_mode : Client W → AuditLogRequest → AuditLogRequest
  set_mode c r = if is_unspecified r.mode then record r { mode = c.log_mode } else r

  -- `Log`
  unfoldable pub log : Client W → AuditLogRequest → W → Outcome W
  unfolding set_mode stage
  log c r w =
      stage "failed to execute validator %T: %w" c.validators
        (stage "failed to execute mutator %T: %w" c.mutators
          (stage "failed to execute backend %T: %w" c.backends finish))
        (set_mode c r) w

  unfoldable pub with_validator : Processor W → ClientOption W
  with_validator p c = ok (record c { validators = c.validators ++ p ∷ [] })

  unfoldable pub with_mutator : Processor W → ClientOption W
  with_mutator p c = ok (record c { mutators = c.mutators ++ p ∷ [] })

  unfoldable pub with_backend : Processor W → ClientOption W
  with_backend p c = ok (record c { backends = c.backends ++ p ∷ [] })

  unfoldable pub with_log_mode : LogMode → ClientOption W
  with_log_mode mode c = ok (record c { log_mode = mode })

  -- `WithRuntimeInfo`, given what `newRuntimeInfo` returned
  unfoldable pub with_runtime_info : Result (Processor W) → ClientOption W
  with_runtime_info (err e) c = err (wrap "error extracting runtime environment info: %w" e)
  with_runtime_info (ok p) c = ok (record c { mutators = c.mutators ++ p ∷ [] })

  -- A loop that applies options in turn, up to the first that fails.
  unfoldable pub apply_options : List (ClientOption W) → ClientOption W
  apply_options [] c = ok c
  apply_options (o ∷ os) c = o c >>= apply_options os

  abbrev pub default_client : Client W
  default_client = record {
    validators = request_validator ∷ [];
    mutators = [];
    backends = [];
    log_mode = log_mode_unspecified;
  }

  -- `NewClient`
  unfoldable pub new_client : List (ClientOption W) → Result (Client W)
  unfolding apply_options
  new_client opts =
      map_err (wrap "failed to apply client options: %w") (apply_options opts default_client)

  -- one call of `Stop` by the client, for a processor that has one
  unfoldable pub stop_one : Processor W → W × Option Err → W × Option Err
  stop_one p (w, found) = elim p.stop [
    | none ↦ (w, found)
    | some stop ↦ let (w', e) = stop w in (w', join found e)
  ]

  unfoldable pub stop_all : List (Processor W) → W × Option Err → W × Option Err
  unfolding stop_one
  stop_all [] s = s
  stop_all (p ∷ ps) s = stop_all ps (stop_one p s)

  -- `Client.Stop`, over the validators and the backends
  unfoldable pub stop : Client W → W → W × Option Err
  unfolding stop_all
  stop c w = stop_all c.backends (stop_all c.validators (w, none))

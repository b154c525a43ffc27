-- ===== src/Interceptor.antt =====
-- clients/go/pkg/audit/interceptor.go: the unary interceptor of gRPC. The handler, the source of the
-- principal and gRPC are outside: a handler is run on the log request that it finds in its context,
-- if there is one, and on the world, and may change both.
pub mod Service
pub mod Convert
pub mod Setup
pub mod Unary
pub mod FailClose
pub mod Streams
pub mod Options
pub mod Context
use lumberjack.Prelude.{ℕ, String, Option, none, some, List, [], if◌then◌else◌}
use lumberjack.Errors.{
  Err, errorf, wrap, status, internal, failed_precondition, interceptor_error, Exit, done, failed,
  panicked, Result, ok, err,
}
use lumberjack.Api.{AuditLogRequest, LogMode, should_fail_close}
use lumberjack.Config.{AuditRule}
use lumberjack.Rules.{most_relevant_rule}
use lumberjack.Client.{Outcome, Client, log}
use lumberjack.Interceptor.Service.{service_name}
use lumberjack.Interceptor.Convert.{GoValues}
use lumberjack.Interceptor.Setup.{
  Metadata, ErrorTexts, baseline, set_principal, should_log_req, should_log_resp, Written, written,
  refused, crashed, set_req, set_resp, set_error_status,
}

-- `Interceptor`; the security context is what it answers for a context's metadata
pub record Interceptor (W : Type 0) : Type 0 where
  pub client : Client W
  pub request_principal : Option Metadata → Result String
  pub rules : List AuditRule
  pub log_mode : LogMode

-- What a handler leaves.
pub record Handled (go : GoValues) (W : Type 0) : Type 0 where
  pub world : W
  pub log_request : Option AuditLogRequest
  pub response : go.Any
  pub error : Option Err

-- How the interceptor ends: with a response and an error, or with a panic.
pub data Reply (go : GoValues) (W : Type 0) : Type 0 where
  reply : W → go.Any → Option Err → Reply go W
  crash : W → Reply go W

module _ (go : GoValues) (texts : ErrorTexts) {W : Type 0} where
  open go use {Any, nil}

  abbrev pub answer : Handled go W → Reply go W
  answer h = reply h.world h.response h.error

  module _ (i : Interceptor W) (handler : Option AuditLogRequest → W → Handled go W) where
    -- `handleReturnUnary`, for an error
    unfoldable pub handle_return_unary : Err → W → Reply go W
    handle_return_unary e w =
        let go_on = answer (handler none w) in
        if should_fail_close i.log_mode then reply w nil (some e) else go_on

    -- `handleReturnWithResponse`, for an error
    unfoldable pub handle_return_with_response : Any → Err → W → Reply go W
    handle_return_with_response resp e w =
        if should_fail_close i.log_mode then reply w resp (some e) else reply w resp none

    -- The log of a handler's error is best effort: an error of the log is dropped.
    unfoldable pub end_error : Any → Err → Exit → W → Reply go W
    end_error resp e panicked w = crash w
    end_error resp e _ w = reply w resp (some e)

    unfoldable pub log_error : Any → Err → Option AuditLogRequest → W → Reply go W
    unfolding end_error
    log_error resp e none w = crash w
    log_error resp e (some r) w = let o = log i.client r w in end_error resp e o.exit o.world

    unfoldable pub end_response : Any → Exit → W → Reply go W
    unfolding handle_return_with_response
    end_response resp done w = reply w resp none
    end_response resp (failed e) w =
        handle_return_with_response resp
          (interceptor_error (status internal (wrap "failed to emit log: %v" e))) w
    end_response resp panicked w = crash w

    unfoldable pub log_response : Any → AuditLogRequest → W → Reply go W
    unfolding end_response
    log_response resp r w = let o = log i.client r w in end_response resp o.exit o.world

    unfoldable pub fill_response : Any → Written → W → Reply go W
    unfolding log_response
    fill_response resp (written r) w = log_response resp r w
    fill_response resp (refused e) w =
        handle_return_with_response resp
          (interceptor_error
            (status internal (wrap "failed to convert resp into a Google struct proto: %v" e)))
          w
    fill_response resp crashed w = crash w

    unfoldable pub after_error :
        AuditRule → AuditLogRequest → Handled go W → Option Err → Reply go W
    unfolding fill_response log_error
    after_error rule r h (some e) = log_error h.response e (set_error_status texts e r) h.world
    after_error rule r h none =
        if should_log_resp rule
        then fill_response h.response (set_resp go h.response r) h.world
        else log_response h.response r h.world

    -- What follows the handler, with the log request as the handler left it
    unfoldable pub after_handler : AuditRule → AuditLogRequest → Handled go W → Reply go W
    unfolding after_error
    after_handler rule r h = after_error rule r h h.error

    -- A handler has the log request in its context, and so leaves one.
    abbrev pub or_given : AuditLogRequest → Option AuditLogRequest → AuditLogRequest
    or_given r none = r
    or_given r (some r') = r'

    unfoldable pub run_handler : AuditRule → Written → W → Reply go W
    unfolding after_handler handle_return_unary
    run_handler rule (refused e) w =
        handle_return_unary
          (interceptor_error
            (status internal (wrap "failed to convert req into a Google struct proto: %v" e)))
          w
    run_handler rule crashed w = crash w
    run_handler rule (written r) w =
        let h = handler (some r) w in after_handler rule (or_given r h.log_request) h

    unfoldable pub with_principal : AuditRule → Any → Option AuditLogRequest → W → Reply go W
    unfolding run_handler
    with_principal rule req none w = crash w
    with_principal rule req (some r) w =
        run_handler rule (if should_log_req rule then set_req go req r else written r) w

    unfoldable pub with_service :
        AuditRule → String → ℕ → Option Metadata → Any → W → String → Result String → Reply go W
    unfolding with_principal
    with_service rule method_name now md req w service (err e) =
        handle_return_unary
          (interceptor_error
            (status failed_precondition (errorf "failed to get request principal" [])))
          w
    with_service rule method_name now md req w service (ok principal) =
        with_principal rule req
          (set_principal principal (baseline service method_name i.log_mode none now md rule)) w

    unfoldable pub audited :
        AuditRule → String → ℕ → Option Metadata → Any → W → Result String → Reply go W
    unfolding with_service
    audited rule method_name now md req w (err e) =
        handle_return_unary (interceptor_error (status failed_precondition e)) w
    audited rule method_name now md req w (ok service) =
        with_service rule method_name now md req w service (i.request_principal md)

    unfoldable pub intercept :
        String → ℕ → Option Metadata → Any → W → Option AuditRule → Reply go W
    unfolding audited
    intercept method_name now md req w none = answer (handler none w)
    intercept method_name now md req w (some rule) =
        audited rule method_name now md req w (service_name method_name)

    -- `UnaryInterceptor`: a call that no rule matches is handled as it is.
    unfoldable pub unary_interceptor : String → ℕ → Option Metadata → Any → W → Reply go W
    unfolding intercept
    unary_interceptor method_name now md req w =
        intercept method_name now md req w (most_relevant_rule method_name i.rules)

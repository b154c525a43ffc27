-- ===== src/Interceptor/FailClose.antt =====
-- `UnaryInterceptor` of clients/go/pkg/audit/interceptor.go in fail-close mode.
use lumberjack.Prelude.{ℕ, String, ◌≡◌, refl, true, Option, none, some, [], inl, inr, Bool-cases}
use lumberjack.Errors.{
  Err, is_err, interceptor, interceptor_error, status, errorf, failed_precondition, Exit, done,
  failed, panicked, Result, ok, err,
}
use lumberjack.Api.{AuditLogRequest, should_fail_close}
use lumberjack.Config.{AuditRule}
use lumberjack.Rules.{most_relevant_rule}
use lumberjack.Client.{log}
use lumberjack.Interceptor.Service.{service_name}
use lumberjack.Interceptor.Convert.{GoValues}
use lumberjack.Interceptor.Setup.{
  Metadata, ErrorTexts, should_log_resp, Written, written, refused, crashed, set_resp,
  set_error_status,
}
use lumberjack.Interceptor.{
  Interceptor, Handled, Reply, reply, crash, handle_return_unary, handle_return_with_response,
  end_error, log_error, end_response, log_response, fill_response, run_handler, with_principal,
  after_error, after_handler, with_service, audited, intercept, unary_interceptor,
}

module _ (go : GoValues) (texts : ErrorTexts) {W : Type 0} (i : Interceptor W)
    (handler : Option AuditLogRequest → W → Handled go W) where
  -- The client logged a request, on this world and without error, and left the other world.
  abbrev pub IsLogged : W → W → Type 0
  IsLogged w v =
      (r : AuditLogRequest) × ((log i.client r w).exit ≡ done) × ((log i.client r w).world ≡ v)

  -- A reply with no error comes after one run of the handler, which had a log request in its context
  -- and answered with no error, and after a log that succeeded on the world that the handler left.
  abbrev pub IsAudited : W → Reply go W → Type 0
  IsAudited w (crash v) = Unit
  IsAudited w (reply v resp (some e)) = Unit
  IsAudited w (reply v resp none) =
      (r : AuditLogRequest) × (resp ≡ (handler (some r) w).response)
      × ((handler (some r) w).error ≡ none)
      × IsLogged (handler (some r) w).world v

  abbrev After : Handled go W → Reply go W → Type 0
  After h (crash v) = Unit
  After h (reply v resp (some e)) = Unit
  After h (reply v resp none) = (resp ≡ h.response) × (h.error ≡ none) × IsLogged h.world v

  IsAudited-of_After :
      (r : AuditLogRequest) (w : W) (x : Reply go W) → After (handler (some r) w) x → IsAudited w x
  IsAudited-of_After r w (crash v) a = tt
  IsAudited-of_After r w (reply v resp (some e)) a = tt
  IsAudited-of_After r w (reply v resp none) a = (r, a.0, a.1, a.2)

  module _ (h : Handled go W) where
    end_error-After :
        (resp : go.Any) (e : Err) (x : Exit) (v : W)
        → After h (end_error go texts i handler resp e x v)
    unfolding end_error
    end_error-After resp e panicked v = tt
    end_error-After resp e done v = tt
    end_error-After resp e (failed y) v = tt

    log_error-After :
        (resp : go.Any) (e : Err) (o : Option AuditLogRequest) (v : W)
        → After h (log_error go texts i handler resp e o v)
    unfolding log_error
    log_error-After resp e none v = tt
    log_error-After resp e (some r) v =
        let o = log i.client r v in end_error-After resp e o.exit o.world

    module _ (close_mode : should_fail_close i.log_mode ≡ true) (fine : h.error ≡ none) where
      end_response-After :
          (r : AuditLogRequest) (x : Exit)
          → (log i.client r h.world).exit ≡ x
          → After h (end_response go texts i handler h.response x (log i.client r h.world).world)
      unfolding end_response handle_return_with_response
      end_response-After r done e = (refl, fine, (r, e, refl))
      end_response-After r (failed y) e = rw close_mode tt
      end_response-After r panicked e = tt

      log_response-After :
          (r : AuditLogRequest) → After h (log_response go texts i handler h.response r h.world)
      unfolding log_response
      log_response-After r = end_response-After r (log i.client r h.world).exit refl

      fill_response-After :
          (x : Written) → After h (fill_response go texts i handler h.response x h.world)
      unfolding fill_response handle_return_with_response
      fill_response-After (written r) = log_response-After r
      fill_response-After (refused e) = rw close_mode tt
      fill_response-After crashed = tt

  module _ (close_mode : should_fail_close i.log_mode ≡ true) where
    after_error-After :
        (rule : AuditRule) (r : AuditLogRequest) (h : Handled go W) (o : Option Err)
        → h.error ≡ o
        → After h (after_error go texts i handler rule r h o)
    unfolding after_error
    after_error-After rule r h (some e) found =
        log_error-After h h.response e (set_error_status texts e r) h.world
    after_error-After rule r h none fine = elim (Bool-cases (should_log_resp rule)) [
      | inl full ↦ rw full (fill_response-After h close_mode fine (set_resp go h.response r))
      | inr bare ↦ rw bare (log_response-After h close_mode fine r)
    ]

    after_handler-After :
        (rule : AuditRule) (r : AuditLogRequest) (h : Handled go W)
        → After h (after_handler go texts i handler rule r h)
    unfolding after_handler
    after_handler-After rule r h = after_error-After rule r h h.error refl

    return_IsAudited : (e : Err) (w : W) → IsAudited w (handle_return_unary go texts i handler e w)
    unfolding handle_return_unary
    return_IsAudited e w = rw close_mode tt

    run_handler-IsAudited :
        (rule : AuditRule) (x : Written) (w : W)
        → IsAudited w (run_handler go texts i handler rule x w)
    unfolding run_handler
    run_handler-IsAudited rule (refused e) w = return_IsAudited _ w
    run_handler-IsAudited rule crashed w = tt
    run_handler-IsAudited rule (written r) w =
        IsAudited-of_After r w _ (after_handler-After rule _ (handler (some r) w))

    with_principal-IsAudited :
        (rule : AuditRule) (req : go.Any) (o : Option AuditLogRequest) (w : W)
        → IsAudited w (with_principal go texts i handler rule req o w)
    unfolding with_principal
    with_principal-IsAudited rule req none w = tt
    with_principal-IsAudited rule req (some r) w = run_handler-IsAudited rule _ w

    with_service-IsAudited :
        (rule : AuditRule) (m : String) (now : ℕ) (md : Option Metadata) (req : go.Any) (w : W)
        (s : String) (p : Result String)
        → IsAudited w (with_service go texts i handler rule m now md req w s p)
    unfolding with_service
    with_service-IsAudited rule m now md req w s (err e) = return_IsAudited _ w
    with_service-IsAudited rule m now md req w s (ok p) = with_principal-IsAudited rule req _ w

    audited-IsAudited :
        (rule : AuditRule) (m : String) (now : ℕ) (md : Option Metadata) (req : go.Any) (w : W)
        (s : Result String)
        → IsAudited w (audited go texts i handler rule m now md req w s)
    unfolding audited
    audited-IsAudited rule m now md req w (err e) = return_IsAudited _ w
    audited-IsAudited rule m now md req w (ok s) =
        with_service-IsAudited rule m now md req w s (i.request_principal md)

    -- In fail-close mode a call that a rule matches succeeds only with an audit log: the reply with no
    -- error is the handler's, which answered with no error, and the client then logged a request
    -- without error, on the world that the handler left.
    pub unary_interceptor-IsAudited :
        (m : String) (now : ℕ) (md : Option Metadata) (req : go.Any) (w : W) (rule : AuditRule)
        → most_relevant_rule m i.rules ≡ some rule
        → IsAudited w (unary_interceptor go texts i handler m now md req w)
    unfolding unary_interceptor intercept
    unary_interceptor-IsAudited m now md req w rule found =
        rw found (audited-IsAudited rule m now md req w (service_name m))

    -- In fail-close mode a call that a rule matches, whose method's name holds a service's name and
    -- whose principal is not known, does not reach the handler: the world stays, and the error is the
    -- interceptor's.
    pub unary_interceptor-no_principal :
        (m : String) (now : ℕ) (md : Option Metadata) (req : go.Any) (w : W) (rule : AuditRule)
        (s : String) (x : Err)
        → most_relevant_rule m i.rules ≡ some rule
        → service_name m ≡ ok s
        → i.request_principal md ≡ err x
        → (e : Err) × (is_err interceptor e ≡ true)
          × (unary_interceptor go texts i handler m now md req w ≡ reply w go.nil (some e))
    unfolding unary_interceptor intercept audited with_service handle_return_unary interceptor_error
        is_err
    unary_interceptor-no_principal m now md req w rule s x found service unknown = (
      interceptor_error (status failed_precondition (errorf "failed to get request principal" [])),
      refl,
      rw (found, service, unknown, close_mode),
    )

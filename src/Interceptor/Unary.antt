-- ===== src/Interceptor/Unary.antt =====
-- `UnaryInterceptor` of clients/go/pkg/audit/interceptor.go outside fail-close mode.
use lumberjack.Prelude.{ℕ, String, ◌≡◌, refl, inl, inr, false, Option, none, some, Bool-cases}
use lumberjack.Errors.{Err, Exit, done, failed, panicked, Result, ok, err}
use lumberjack.Api.{AuditLogRequest, should_fail_close}
use lumberjack.Config.{AuditRule}
use lumberjack.Rules.{most_relevant_rule}
use lumberjack.Client.{log}
use lumberjack.Interceptor.Service.{service_name}
use lumberjack.Interceptor.Convert.{GoValues}
use lumberjack.Interceptor.Setup.{
  Metadata, ErrorTexts, should_log_resp, Written, written, refused, crashed, set_resp,
  set_error_status,
}
use lumberjack.Interceptor.{
  Interceptor, Handled, Reply, reply, crash, handle_return_unary, handle_return_with_response,
  end_error, log_error, end_response, log_response, fill_response, run_handler, with_principal,
  after_error, after_handler, with_service, audited, intercept, unary_interceptor,
}

module _ (go : GoValues) (texts : ErrorTexts) {W : Type 0} (i : Interceptor W)
    (handler : Option AuditLogRequest → W → Handled go W) where
  -- A reply, if there is one, has this response and this error.
  abbrev Answers : go.Any → Option Err → Reply go W → Type 0
  Answers resp e (crash v) = Unit
  Answers resp e (reply v resp' e') = (resp' ≡ resp) × (e' ≡ e)

  -- A reply hands on what one run of the handler answered, on the world that it is given.
  abbrev pub HandsOn : W → Reply go W → Type 0
  HandsOn w (crash v) = Unit
  HandsOn w (reply v resp e) =
      (o : Option AuditLogRequest) × (resp ≡ (handler o w).response) × (e ≡ (handler o w).error)

  HandsOn-of_Answers :
      (o : Option AuditLogRequest) (w : W) (x : Reply go W)
      → Answers (handler o w).response (handler o w).error x
      → HandsOn w x
  HandsOn-of_Answers o w (crash v) a = tt
  HandsOn-of_Answers o w (reply v resp e) a = (o, a.0, a.1)

  end_error-Answers :
      (resp : go.Any) (e : Err) (x : Exit) (w : W)
      → Answers resp (some e) (end_error go texts i handler resp e x w)
  unfolding end_error
  end_error-Answers resp e panicked w = tt
  end_error-Answers resp e done w = (refl, refl)
  end_error-Answers resp e (failed y) w = (refl, refl)

  log_error-Answers :
      (resp : go.Any) (e : Err) (r : Option AuditLogRequest) (w : W)
      → Answers resp (some e) (log_error go texts i handler resp e r w)
  unfolding log_error
  log_error-Answers resp e none w = tt
  log_error-Answers resp e (some r) w =
      let o = log i.client r w in end_error-Answers resp e o.exit o.world

  module _ (open_mode : should_fail_close i.log_mode ≡ false) where
    end_response-Answers :
        (resp : go.Any) (x : Exit) (w : W)
        → Answers resp none (end_response go texts i handler resp x w)
    unfolding end_response handle_return_with_response
    end_response-Answers resp done w = (refl, refl)
    end_response-Answers resp (failed e) w = rw open_mode (refl, refl)
    end_response-Answers resp panicked w = tt

    fill_response-Answers :
        (resp : go.Any) (x : Written) (w : W)
        → Answers resp none (fill_response go texts i handler resp x w)
    unfolding fill_response log_response handle_return_with_response
    fill_response-Answers resp (written r) w =
        let o = log i.client r w in end_response-Answers resp o.exit o.world
    fill_response-Answers resp (refused e) w = rw open_mode (refl, refl)
    fill_response-Answers resp crashed w = tt

    after_error-Answers :
        (rule : AuditRule) (r : AuditLogRequest) (h : Handled go W) (o : Option Err)
        → Answers h.response o (after_error go texts i handler rule r h o)
    unfolding after_error log_response
    after_error-Answers rule r h (some e) =
        log_error-Answers h.response e (set_error_status texts e r) h.world
    after_error-Answers rule r h none = elim (Bool-cases (should_log_resp rule)) [
      | inl full ↦ rw full (fill_response-Answers h.response (set_resp go h.response r) h.world)
      | inr bare ↦
          let o = log i.client r h.world in rw bare (end_response-Answers h.response o.exit o.world)
    ]

    after_handler-Answers :
        (rule : AuditRule) (r : AuditLogRequest) (h : Handled go W)
        → Answers h.response h.error (after_handler go texts i handler rule r h)
    unfolding after_handler
    after_handler-Answers rule r h = after_error-Answers rule r h h.error

    return_HandsOn : (e : Err) (w : W) → HandsOn w (handle_return_unary go texts i handler e w)
    unfolding handle_return_unary
    return_HandsOn e w = rw open_mode (none, refl, refl)

    run_handler-HandsOn :
        (rule : AuditRule) (x : Written) (w : W)
        → HandsOn w (run_handler go texts i handler rule x w)
    unfolding run_handler
    run_handler-HandsOn rule (refused e) w = return_HandsOn _ w
    run_handler-HandsOn rule crashed w = tt
    run_handler-HandsOn rule (written r) w =
        HandsOn-of_Answers (some r) w _ (after_handler-Answers rule _ (handler (some r) w))

    with_principal-HandsOn :
        (rule : AuditRule) (req : go.Any) (o : Option AuditLogRequest) (w : W)
        → HandsOn w (with_principal go texts i handler rule req o w)
    unfolding with_principal
    with_principal-HandsOn rule req none w = tt
    with_principal-HandsOn rule req (some r) w = run_handler-HandsOn rule _ w

    with_service-HandsOn :
        (rule : AuditRule) (m : String) (now : ℕ) (md : Option Metadata) (req : go.Any) (w : W)
        (s : String) (p : Result String)
        → HandsOn w (with_service go texts i handler rule m now md req w s p)
    unfolding with_service
    with_service-HandsOn rule m now md req w s (err e) = return_HandsOn _ w
    with_service-HandsOn rule m now md req w s (ok p) = with_principal-HandsOn rule req _ w

    audited-HandsOn :
        (rule : AuditRule) (m : String) (now : ℕ) (md : Option Metadata) (req : go.Any) (w : W)
        (s : Result String)
        → HandsOn w (audited go texts i handler rule m now md req w s)
    unfolding audited
    audited-HandsOn rule m now md req w (err e) = return_HandsOn _ w
    audited-HandsOn rule m now md req w (ok s) =
        with_service-HandsOn rule m now md req w s (i.request_principal md)

    intercept-HandsOn :
        (m : String) (now : ℕ) (md : Option Metadata) (req : go.Any) (w : W) (o : Option AuditRule)
        → HandsOn w (intercept go texts i handler m now md req w o)
    unfolding intercept
    intercept-HandsOn m now md req w none = (none, refl, refl)
    intercept-HandsOn m now md req w (some rule) =
        audited-HandsOn rule m now md req w (service_name m)

    -- Outside fail-close mode the interceptor never stands in the way: unless it panics, its reply is
    -- what one run of the handler on the given world answers, its error included, whatever becomes
    -- of the rules, the principal, the conversions and the log.
    pub unary_interceptor-HandsOn :
        (m : String) (now : ℕ) (md : Option Metadata) (req : go.Any) (w : W)
        → HandsOn w (unary_interceptor go texts i handler m now md req w)
    unfolding unary_interceptor
    unary_interceptor-HandsOn m now md req w =
        intercept-HandsOn m now md req w (most_relevant_rule m i.rules)

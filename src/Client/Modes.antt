-- ===== src/Client/Modes.antt =====
-- The errors that `Log` of clients/go/pkg/audit/client.go returns.
use lumberjack.Prelude.{String, ◌≡◌, refl, true, false, List, [], ◌∷◌, arith, Bool-cases, inl, inr}
use lumberjack.Errors.{Err, is_err, precondition_failed, Exit, done, failed, panicked}
use lumberjack.Api.{AuditLogRequest, should_fail_close}
use lumberjack.Client.{
  Outcome, Processor, Client, Rest, handle_return, refuse, proceed, stage, finish, set_mode, log,
}

-- An error that comes out of `Log` is no failed precondition, and the request's mode is fail-close.
abbrev pub IsReportable : {W : Type 0} → Outcome W → Type 0
IsReportable o =
    (e : Err)
    → o.exit ≡ failed e
    → (should_fail_close o.request.mode ≡ true) × (is_err precondition_failed e ≡ false)

module _ {W : Type 0} where
  refuse-IsReportable :
      (message : String) (e : Err) (o : Outcome W) → IsReportable (refuse message e o)
  unfolding refuse handle_return is_err
  refuse-IsReportable message e o x h = elim (Bool-cases (is_err precondition_failed e)) [
    | inl drop ↦ ground arith
    | inr keep ↦ ground arith
  ]

  proceed-IsReportable :
      (message : String) (x : Exit) (o : Outcome W) (k : Rest W)
      → ((r : AuditLogRequest) (w : W) → IsReportable (k r w))
      → o.exit ≡ x
      → IsReportable (proceed message x o k)
  unfolding proceed
  proceed-IsReportable message done o k h e = h o.request o.world
  proceed-IsReportable message (failed x) o k h e = refuse-IsReportable message x o
  proceed-IsReportable message panicked o k h e = λ y z. cc

  stage-IsReportable :
      (message : String) (ps : List (Processor W)) (k : Rest W)
      → ((r : AuditLogRequest) (w : W) → IsReportable (k r w))
      → (r : AuditLogRequest) (w : W) → IsReportable (stage message ps k r w)
  unfolding stage
  stage-IsReportable message [] k h r w = h r w
  stage-IsReportable message (p ∷ ps) k h r w =
      proceed-IsReportable message (p.process r w).exit (p.process r w) (stage message ps k)
        (stage-IsReportable message ps k h) refl

  -- `Log` returns an error only in fail-close mode, the mode that the request has at the end, and
  -- never one that says that a precondition failed.
  pub log-IsReportable :
      (c : Client W) (r : AuditLogRequest) (w : W) (e : Err)
      → (log c r w).exit ≡ failed e
      → (should_fail_close (log c r w).request.mode ≡ true) × (is_err precondition_failed e ≡ false)
  unfolding log
  log-IsReportable c r w =
      stage-IsReportable _ c.validators _
        (stage-IsReportable _ c.mutators _ (stage-IsReportable _ c.backends finish (λ r w e h. cc)))
        (set_mode c r) w

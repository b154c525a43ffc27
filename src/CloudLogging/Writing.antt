-- ===== src/CloudLogging/Writing.antt =====
-- What `Log` leaves on a client whose only backend is one of clients/go/pkg/cloudlogging/processor.go.
use mathlib.Core.Path.{subst}
use mathlib.Core.List.{append-nil}
use lumberjack.Prelude.{
  ◌≡◌, sym, ap, ◌∙◌, inl, inr, String, false, Option, none, some, List, [], ◌∷◌,
}
use lumberjack.Errors.{Err, wrap, is_err, precondition_failed, Result, ok, IsFree, done, failed}
use lumberjack.Api.{AuditLogRequest, fail_close}
use lumberjack.Client.{Client, log, set_mode}
use lumberjack.Client.Laws.{Agrees, replay}
use lumberjack.Client.Delivery.{IsBrought, Agrees-done, replay-one, set_mode-rest}
use lumberjack.CloudLogging.{
  Entry, LoggingClient, CloudProcessor, CloudOption, new_processor, process_cloud, cloud_processor,
  entry_of, is_asynchronous, write_sync_exit,
}
use lumberjack.CloudLogging.Loggers.{IsLogOf, process_cloud-fail_close}

-- The errors of a logging client's writes are none of this program's failed preconditions.
abbrev pub IsApart : {W : Type 0} → LoggingClient W → Type 0
IsApart {W} c =
    (name : String) (e : Entry) (w : W) → IsFree precondition_failed (c.log_sync name e w).1

write_sync_exit-apart :
    (x : Option Err) (e : Err)
    → IsFree precondition_failed x
    → write_sync_exit x ≡ failed e
    → is_err precondition_failed e ≡ false
unfolding is_err
write_sync_exit-apart none e h k = cc
write_sync_exit-apart (some x) e h k =
    let same : wrap "synchronous write to Cloud logging failed: %w" x ≡ e = cc in rw (sym same) h

module _ {W : Type 0} where
  process_cloud-apart :
      (p : CloudProcessor W) (r : AuditLogRequest) (w : W) (e : Err)
      → IsApart p.client
      → r.mode ≡ fail_close
      → (process_cloud p r w).exit ≡ failed e
      → is_err precondition_failed e ≡ false
  unfolding process_cloud is_asynchronous
  process_cloud-apart p r w e a m h = write_sync_exit-apart _ e (a _ (entry_of r) w) (rw m at h)

  -- Such a client writes what it brings to the backends to the log of the request's type, once,
  -- synchronously and without an error, if `Log` returns no error in fail-close mode.
  pub record IsWritten (lc : LoggingClient W) (c : Client W) (r : AuditLogRequest) (w : W)
      (sent : AuditLogRequest) : Type 0 where
    pub name : String
    pub of_type : IsLogOf r.log_type name
    pub write : lc.log_sync name (entry_of sent) w ≡ ((log c r w).world, none)
    pub request : (log c r w).request ≡ sent

  pair_path : (x : W × Option Err) {w' : W} → x.0 ≡ w' → x.1 ≡ none → x ≡ (w', none)
  pair_path (a, b) h k = rw (h, k)

  pub brought-IsWritten :
      (made : Result (LoggingClient W)) (os : List (CloudOption W)) (p : CloudProcessor W)
      (c : Client W) (r : AuditLogRequest) (w : W) (d : IsBrought c r w)
      → new_processor made os ≡ ok p
      → IsApart p.client
      → c.backends ≡ cloud_processor p ∷ []
      → (set_mode c r).mode ≡ fail_close
      → (log c r w).exit ≡ done
      → IsWritten p.client c r w d.sent
  brought-IsWritten made os p c r w d h apart one mode ends =
      let agrees : Agrees (log c r w) (replay (cloud_processor p ∷ []) d.sent w) =
        subst (λ ps. Agrees (log c r w) (replay ps d.sent w)) (append-nil c.backends ∙ one)
          d.rest in
      let (world, request, exit) = replay-one (cloud_processor p) d.sent w in
      let sent_mode = ap (λ x. x.mode) d.kept.rest ∙ mode in
      let (name, of_type, world', same, done_iff) =
        process_cloud-fail_close made os p d.sent w h sent_mode in
      let ended =
        Agrees-done (log c r w) (replay (cloud_processor p ∷ []) d.sent w) agrees
          (ap (λ x. x.mode) (request ∙ same) ∙ sent_mode) ends in
      let wrote : (process_cloud p d.sent w).exit ≡ done = elim ended [
        | inl finished ↦ sym exit ∙ finished
        | inr (e, failed_so, precondition) ↦ absurd (
            let free = process_cloud-apart p d.sent w e apart sent_mode (sym exit ∙ failed_so) in
            cc)
      ] in
      record {
        name = name;
        of_type =
            subst (λ t. IsLogOf t name) (ap (λ x. x.log_type) d.kept.rest ∙ (set_mode-rest c r).1)
              of_type;
        write = pair_path _ (sym (agrees.world ∙ world ∙ world')) (done_iff.0 wrote);
        request = agrees.request ∙ request ∙ same;
      }

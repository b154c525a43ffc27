-- ===== src/Server/Delivery.antt =====
-- From the agent's `ProcessLog` to Cloud Logging: pkg/server/server.go with the client that
-- cmd/server/main.go makes.
use mathlib.Core.Path.{subst}
use lumberjack.Prelude.{
  ◌≡◌, ◌≢◌, refl, sym, ap, ◌∙◌, inl, inr, String, false, Option, none, some, [], ◌∷◌, ◌++◌, All,
  Bool-cases,
}
use lumberjack.Errors.{
  Err, is_err, precondition_failed, Result, ok, map_err-eq-ok, ok_inj, Exit, done, failed, panicked,
}
use lumberjack.Api.{AuditLogRequest, fail_close}
use lumberjack.Validation.{validate_request}
use lumberjack.Validation.Laws.{HasCompletePayload, validate_request_iff, validate_request-IsFree}
use lumberjack.Client.{Client, exit_of, log, set_mode, request_validator}
use lumberjack.Client.Laws.{replay}
use lumberjack.Client.Delivery.{
  Passed, IsLocal, IsBrought, replay-one, log-brings, NeverPanics, log-NeverPanics, set_mode_fixed,
}
use lumberjack.CloudLogging.{
  LoggingClient, CloudProcessor, with_logging_client, new_processor, process_cloud, cloud_processor,
  entry_of, log_name_from_log_type, write_sync_exit, is_asynchronous,
}
use lumberjack.CloudLogging.Loggers.{IsLogOf}
use lumberjack.CloudLogging.Writing.{IsApart, brought-IsWritten}
use lumberjack.AuditOpt.Gentle.{request_validator-IsGentle}
use lumberjack.Server.{processed, respond, process_log}
use lumberjack.Server.Main.{Surroundings, new_cloud_logging_processor, agent_client}
use lumberjack.Server.Runs.{agent_of, agent_client-made}

-- A request that the agent has written.
pub record IsStored {W : Type 0} (lc : LoggingClient W) (r : AuditLogRequest) (w w' : W)
    : Type 0 where
  pub complete : HasCompletePayload (some r)
  pub name : String
  pub of_type : IsLogOf r.log_type name
  pub write :
      lc.log_sync name
        (record {
          payload = r.payload;
          labels = r.labels;
          operation = r.operation;
          timestamp = r.timestamp;
        })
        w
      ≡ (w', none)

write_sync_exit-ne-panicked : (o : Option Err) → write_sync_exit o ≢ panicked
write_sync_exit-ne-panicked none h = cc
write_sync_exit-ne-panicked (some e) h = cc

exit_of-ne-panicked : (o : Option Err) → exit_of o ≢ panicked
exit_of-ne-panicked none h = cc
exit_of-ne-panicked (some e) h = cc

respond-processed :
    (r r' : AuditLogRequest) (x : Exit) → respond r x ≡ processed r' → (x ≡ done) × (r ≡ r')
respond-processed r r' done h = (refl, cc)
respond-processed r r' (failed e) h = absurd (cc)
respond-processed r r' panicked h = absurd (cc)

exit_of-failed : (o : Option Err) (e : Err) → exit_of o ≡ failed e → o ≡ some e
exit_of-failed none e h = cc
exit_of-failed (some x) e h = cc

exit_of-done : (o : Option Err) → exit_of o ≡ done → o ≡ none
exit_of-done none h = refl
exit_of-done (some e) h = cc

module _ {W : Type 0} where
  new_processor-with_client :
      (made : Result (LoggingClient W)) (c : LoggingClient W) (p : CloudProcessor W)
      → new_processor made (with_logging_client c ∷ []) ≡ ok p
      → c ≡ p.client
  unfolding new_processor log_name_from_log_type
  new_processor-with_client made c p h = ap (λ (x : CloudProcessor W). x.client) (ok_inj h)

  process_cloud-NeverPanics : (p : CloudProcessor W) → NeverPanics (cloud_processor p)
  unfolding process_cloud
  process_cloud-NeverPanics p r w = elim (Bool-cases (is_asynchronous p r)) [
    | inl b ↦ rw b (λ k. cc)
    | inr b ↦ rw b (write_sync_exit-ne-panicked _)
  ]

  request_validator-NeverPanics : NeverPanics {W = W} request_validator
  unfolding request_validator
  request_validator-NeverPanics r w = exit_of-ne-panicked (validate_request (some r))

  -- A pass over the default validator does not fail a precondition.
  validator-not_dropped :
      (r : AuditLogRequest) (w : W) (e : Err)
      → (replay (request_validator ∷ []) r w).exit ≡ failed e
      → is_err precondition_failed e ≡ false
  unfolding request_validator
  validator-not_dropped r w e h =
      validate_request-IsFree r e
        (exit_of-failed _ e (sym (replay-one {W = W} request_validator r w).2 ∙ h))

  module _ (s : Surroundings W) (lc : LoggingClient W) (c : Client W) where
    new_cloud_logging_processor-made :
        (p : CloudProcessor W)
        → s.logging_client ≡ ok lc
        → new_cloud_logging_processor s ≡ ok p
        → new_processor s.default_logging_client (with_logging_client lc ∷ []) ≡ ok p
    unfolding new_cloud_logging_processor
    new_cloud_logging_processor-made p k h = map_err-eq-ok _ _ (rw k at h)

    -- The agent's client does not drop a request, nor does it panic.
    agent_client-brings :
        (r : AuditLogRequest) (w : W) (p : CloudProcessor W)
        → c ≡ agent_of s p
        → (set_mode c r).mode ≡ fail_close
        → (log c r w).exit ≡ done
        → IsBrought c r w
    agent_client-brings r w p shape mode ends =
        let v : All IsLocal c.validators =
          subst (λ x. All IsLocal x.validators) (sym shape)
            (request_validator-IsGentle.local, tt) in
        let m : All IsLocal c.mutators = subst (λ x. All IsLocal x.mutators) (sym shape) tt in
        elim (log-brings c r w v m mode ends) [
          | inl dropped ↦ absurd (
              let stopped : (replay (request_validator ∷ []) (set_mode c r) w).exit
                  ≡ failed dropped.error =
                subst
                  (λ x.
                    (replay (x.validators ++ x.mutators) (set_mode c r) w).exit
                    ≡ failed dropped.error)
                  shape dropped.stopped in
              let free = validator-not_dropped (set_mode c r) w dropped.error stopped in
              let precondition = dropped.precondition in cc)
          | inr d ↦ d
        ]

    -- What reaches the backend is the request, with a payload that is complete.
    agent_sent :
        (r : AuditLogRequest) (w : W) (p : CloudProcessor W) (d : IsBrought c r w)
        → c ≡ agent_of s p
        → (set_mode c r ≡ d.sent) × HasCompletePayload (some (set_mode c r))
    unfolding request_validator
    agent_sent r w p d shape =
        let v : Passed (request_validator ∷ []) w (set_mode c r) d.validated =
          subst (λ x. Passed x.validators w (set_mode c r) d.validated) shape d.by_validators in
        let m : Passed [] w d.validated d.sent =
          subst (λ x. Passed x.mutators w d.validated d.sent) shape d.by_mutators in
        (v.1 ∙ m, (validate_request_iff (some (set_mode c r))).0 (exit_of-done _ v.0))

    pub agent_client-NeverPanics :
        (r : AuditLogRequest) (w : W) → agent_client s ≡ ok c → (log c r w).exit ≢ panicked
    agent_client-NeverPanics r w h =
        let (p, _, shape) = agent_client-made s c h in
        log-NeverPanics c r w
          (subst (λ x. All NeverPanics x.validators) (sym shape)
            (request_validator-NeverPanics, tt))
          (subst (λ x. All NeverPanics x.mutators) (sym shape) tt)
          (subst (λ x. All NeverPanics x.backends) (sym shape) (process_cloud-NeverPanics p, tt))

    -- What the agent's client logs in fail-close mode without an error, it has stored unchanged.
    pub log-IsStored :
        (r : AuditLogRequest) (w : W)
        → s.logging_client ≡ ok lc
        → IsApart lc
        → agent_client s ≡ ok c
        → r.mode ≡ fail_close
        → (log c r w).exit ≡ done
        → ((log c r w).request ≡ r) × IsStored lc r w (log c r w).world
    log-IsStored r w k apart h mode ends =
        let (p, made, shape) = agent_client-made s c h in
        let fixed = set_mode_fixed c r mode in
        let mode' = ap (λ x. x.mode) fixed ∙ mode in
        let d = agent_client-brings r w p shape mode' ends in
        let made' = new_cloud_logging_processor-made p k made in
        let same = new_processor-with_client _ lc p made' in
        let x =
          brought-IsWritten s.default_logging_client _ p c r w d made' (subst IsApart same apart)
            (ap (λ x. x.backends) shape) mode' ends in
        let (unchanged, complete) = agent_sent r w p d shape in
        let sent : d.sent ≡ r = sym unchanged ∙ fixed in
        (
          x.request ∙ sent,
          record {
            complete = subst (λ y. HasCompletePayload (some y)) fixed complete;
            name = x.name;
            of_type = x.of_type;
            write =
                subst (λ l. l.log_sync x.name (entry_of r) w ≡ ((log c r w).world, none)) (sym same)
                  (subst (λ y. p.client.log_sync x.name (entry_of y) w ≡ ((log c r w).world, none))
                    sent x.write);
          },
        )

    -- The agent that cmd/server/main.go starts answers a fail-close request with a response only if it
    -- has written it to Cloud Logging: once, synchronously and without an error, to the log of the
    -- request's type. The request then has a complete payload, and the response holds it unchanged. It
    -- is assumed that the logging client's errors are no failed preconditions of this program.
    pub process_log-IsStored :
        (r r' : AuditLogRequest) (w : W)
        → s.logging_client ≡ ok lc
        → IsApart lc
        → agent_client s ≡ ok c
        → r.mode ≡ fail_close
        → (process_log c r w).1 ≡ processed r'
        → (r ≡ r') × IsStored lc r w (process_log c r w).0
    unfolding process_log
    process_log-IsStored r r' w k apart h mode answer =
        let (ends, same) = respond-processed _ r' (log c r w).exit answer in
        let (unchanged, stored) = log-IsStored r w k apart h mode ends in
        (sym unchanged ∙ same, stored)

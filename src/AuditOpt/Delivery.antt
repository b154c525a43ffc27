-- ===== src/AuditOpt/Delivery.antt =====
-- From `Log` to Cloud Logging: what a call leaves on a client that clients/go/pkg/auditopt/config.go
-- built for Cloud Logging alone.
use mathlib.Core.Path.{subst}
use lumberjack.Prelude.{
  ◌≡◌, refl, sym, ap, ◌∙◌, ◌⊎◌, inl, inr, String, Bool, true, false, if◌then◌else◌, Option, none,
  some, List, [], ◌∷◌, ◌++◌, Dict, lookup, NodupKeys, All, length, is_some, Bool-cases, arith,
  some_inj,
}
use lumberjack.Errors.{Err, Result, ok, >>=-eq-ok, map_err-eq-ok, ok_inj, done}
use lumberjack.Api.{AuditLogRequest, LogMode, is_best_effort, fail_close}
use lumberjack.Api.Values.{Value}
use lumberjack.Config.{Config, Remote, CloudLogging, set_default, get_log_mode}
use lumberjack.Validation.Laws.{HasCompletePayload, validate_request_iff}
use lumberjack.Client.{Client, Processor, exit_of, log, set_mode, request_validator, default_client}
use lumberjack.Client.Delivery.{
  Kept, IsLocal, Kept-HasCompletePayload, IsGentle, All-IsLocal, Passed, Passed-labels, IsDropped,
  IsBrought, log-brings, set_mode-rest,
}
use lumberjack.Runtime.{runtime_processor, process_runtime}
use lumberjack.Labels.{
  process_labels, new_label_processor, label_processor, or_empty, or_else, lookup-process_labels,
}
use lumberjack.CloudLogging.{
  LoggingClient, CloudProcessor, CloudOption, with_logging_client, new_processor, client_or,
  log_name_from_log_type, cloud_processor, entry_of,
}
use lumberjack.CloudLogging.Loggers.{IsLogOf}
use lumberjack.CloudLogging.Writing.{IsApart, brought-IsWritten}
use lumberjack.AuditOpt.{
  Outside, client_from_config, cloud_from_config, project_options, mode_options,
}
use lumberjack.AuditOpt.Gentle.{request_validator-IsGentle, label-IsLocal, runtime-IsGentle}
use lumberjack.AuditOpt.Pieces.{number, IsCloudOf}
use lumberjack.AuditOpt.Shape.{IsBuilt, client_from_config-IsBuilt}

module _ {W : Type 0} (o : Outside W) where
  -- The client of a processor is the one of its options, or else a new one.
  new_processor-client :
      (made : Result (LoggingClient W)) (b : Bool) (p : CloudProcessor W)
      → new_processor made (mode_options o b) ≡ ok p
      → made ≡ ok p.client
  unfolding new_processor log_name_from_log_type
  new_processor-client made true p h =
      let (c, k, same) = >>=-eq-ok (client_or made none) _ h in
      map_err-eq-ok _ _ k ∙ ap (λ (x : CloudProcessor W). ok x.client) (ok_inj same)
  new_processor-client made false p h =
      let (c, k, same) = >>=-eq-ok (client_or made none) _ h in
      map_err-eq-ok _ _ k ∙ ap (λ (x : CloudProcessor W). ok x.client) (ok_inj same)

  new_processor-with_client :
      (made : Result (LoggingClient W)) (b : Bool) (c : LoggingClient W) (p : CloudProcessor W)
      → new_processor made (mode_options o b ++ (with_logging_client c ∷ [])) ≡ ok p
      → c ≡ p.client
  unfolding new_processor log_name_from_log_type
  new_processor-with_client made true c p h = ap (λ (x : CloudProcessor W). x.client) (ok_inj h)
  new_processor-with_client made false c p h = ap (λ (x : CloudProcessor W). x.client) (ok_inj h)

  -- The logging client of a configured backend.
  abbrev pub client_of : CloudLogging → Result (LoggingClient W)
  client_of cl =
      if cl.default_project then o.default_logging_client else o.logging_client cl.project

  -- The configured backend: its processor is one that `NewProcessor` made, of that client.
  record IsMade (lc : LoggingClient W) (p : CloudProcessor W) : Type 0 where
    pub options : List (CloudOption W)
    pub made : new_processor o.default_logging_client options ≡ ok p
    pub client : lc ≡ p.client

  cloud_from_config-IsMade :
      (mode : LogMode) (cl : CloudLogging) (lc : LoggingClient W) (p : CloudProcessor W)
      → client_of cl ≡ ok lc
      → cloud_from_config o mode cl ≡ ok p
      → IsMade lc p
  unfolding cloud_from_config
  cloud_from_config-IsMade mode cl lc p k h =
      let base = mode_options o (is_best_effort mode) in
      let (os, given, h1) = >>=-eq-ok (project_options o cl base) _ h in
      let made = map_err-eq-ok _ _ h1 in
      elim (Bool-cases cl.default_project) [
        | inl b ↦
            let same : base ≡ os = ok_inj (rw b at given) in
            let made' = rw (sym same) at made in
            let known : o.default_logging_client ≡ ok lc = rw b at k in
            let used = new_processor-client _ (is_best_effort mode) p made' in
            record { options = os; made = made; client = ok_inj (sym known ∙ used) }
        | inr b ↦
            let known : o.logging_client cl.project ≡ ok lc = rw b at k in
            let same : base ++ (with_logging_client lc ∷ []) ≡ os =
              ok_inj (rw (b, known) at given) in
            let made' = rw (sym same) at made in
            record {
              options = os;
              made = made;
              client = new_processor-with_client _ (is_best_effort mode) lc p made';
            }
      ]

  mutated-labels :
      (v : Option Value) (ls : Dict String) (js : List (Processor W)) (w : W)
      (r s : AuditLogRequest) (k : String)
      → All IsGentle js
      → NodupKeys ls
      → Passed (runtime_processor v ∷ label_processor (new_label_processor ls) ∷ js) w r s
      → lookup k (or_empty s.labels) ≡ or_else (lookup k (or_empty r.labels)) (lookup k ls)
  unfolding label_processor
  mutated-labels v ls js w r s k g n (_, (_, rest)) =
      let located = (process_runtime v r w).request in
      let added = process_labels (new_label_processor ls) located in
      ap (λ x. lookup k (or_empty x)) (Passed-labels js w added s g rest)
      ∙ lookup-process_labels k ls located n
      ∙ ap (λ x. or_else (lookup k (or_empty x)) (lookup k ls)) ((runtime-IsGentle v).labels r w)

  one_cloud :
      (mode : LogMode) (cl : CloudLogging) (rm : Option Remote) (cm : Option CloudLogging)
      (remotes clouds : List (Processor W))
      → rm ≡ none
      → cm ≡ some cl
      → length remotes ≡ number (is_some rm)
      → length clouds ≡ number (is_some cm)
      → All (IsCloudOf o mode cm) clouds
      → (p : CloudProcessor W) × (cloud_from_config o mode cl ≡ ok p)
        × (remotes ++ clouds ≡ cloud_processor p ∷ [])
  one_cloud mode cl rm cm [] (b ∷ []) e f h k ((x, p, given, made, same), _) =
      let there : x ≡ cl = cc in (p, rw there at made, rw same)
  one_cloud mode cl rm cm [] [] e f h k m = absurd (let k' = rw f at k in omega arith)
  one_cloud mode cl rm cm [] (b ∷ b' ∷ bs) e f h k m = absurd (let k' = rw f at k in omega arith)
  one_cloud mode cl rm cm (b ∷ bs) cs e f h k m = absurd (let h' = rw e at h in omega arith)

  -- The request that a built client sends has the labels of the request and those of the configuration.
  pub sent-labels :
      (cfg : Config) (c : Client W) (r : AuditLogRequest) (w : W) (k : String) (b : IsBuilt o cfg c)
      (d : IsBrought c r w)
      → NodupKeys cfg.labels
      → lookup k (or_empty d.sent.labels)
        ≡ or_else (lookup k (or_empty r.labels)) (lookup k cfg.labels)
  sent-labels cfg c r w k b d n =
      let validators =
        subst (λ ps. Passed ps w (set_mode c r) d.validated) b.validators d.by_validators in
      let mutators = subst (λ ps. Passed ps w d.validated d.sent) b.mutators d.by_mutators in
      let same =
        Passed-labels (request_validator ∷ b.filters) w (set_mode c r) d.validated
          (request_validator-IsGentle, b.filters_gentle) validators in
      mutated-labels b.resource cfg.labels b.reasons w d.validated d.sent k b.reasons_gentle n
        mutators
      ∙ ap (λ x. or_else (lookup k (or_empty x)) (lookup k cfg.labels))
          (same ∙ (set_mode-rest c r).0)

  exit_of-done : (x : Option Err) → exit_of x ≡ done → x ≡ none
  exit_of-done none h = refl
  exit_of-done (some e) h = cc

  pub sent-HasCompletePayload :
      (cfg : Config) (c : Client W) (r : AuditLogRequest) (w : W) (b : IsBuilt o cfg c)
      (d : IsBrought c r w)
      → HasCompletePayload (some d.sent)
  unfolding request_validator
  sent-HasCompletePayload cfg c r w b d =
      let validators =
        subst (λ ps. Passed ps w (set_mode c r) d.validated) b.validators d.by_validators in
      Kept-HasCompletePayload d.kept
        ((validate_request_iff (some (set_mode c r))).0 (exit_of-done _ validators.0))

  -- A request that a call of `Log` has brought to Cloud Logging, and what it was then.
  pub record IsDelivered (lc : LoggingClient W) (configured : Dict String) (c : Client W)
      (r : AuditLogRequest) (w w' : W) : Type 0 where
    pub sent : AuditLogRequest
    pub complete : HasCompletePayload (some sent)
    pub kept : Kept (set_mode c r) sent
    pub labels :
        (k : String)
        → lookup k (or_empty sent.labels)
          ≡ or_else (lookup k (or_empty r.labels)) (lookup k configured)
    pub name : String
    pub of_type : IsLogOf r.log_type name
    pub write :
        lc.log_sync name
          (record {
            payload = sent.payload;
            labels = sent.labels;
            operation = sent.operation;
            timestamp = sent.timestamp;
          })
          w
        ≡ (w', none)

  -- The validators and the mutators of a built client are local.
  pub brings :
      (cfg : Config) (c : Client W) (r : AuditLogRequest) (w : W)
      → IsBuilt o cfg c
      → (set_mode c r).mode ≡ fail_close
      → (log c r w).exit ≡ done
      → IsDropped c r w (log c r w).world ⊎ IsBrought c r w
  brings cfg c r w b mode ends =
      log-brings c r w
        (subst (All IsLocal) (sym b.validators) (
          All-IsLocal (request_validator ∷ b.filters)
            (request_validator-IsGentle, b.filters_gentle)))
        (subst (All IsLocal) (sym b.mutators) (
          (runtime-IsGentle b.resource).local,
          (label-IsLocal (new_label_processor cfg.labels), All-IsLocal b.reasons b.reasons_gentle),
        ))
        mode ends

  -- A client that the option for a configuration has built, with Cloud Logging as its only backend,
  -- and that returns nil in fail-close mode, has either dropped the request at a failed precondition
  -- of a validator or a mutator, with the world as it was; or it has written once, synchronously and
  -- without an error, by the client of the configured project, to the log of the request's type, a
  -- request with a complete payload that differs from the caller's in its mode, its payload's metadata
  -- and its labels at most, and whose labels are the caller's, with the configured ones for the keys
  -- that these lack. It is assumed that the logging client's errors are no failed preconditions of
  -- this program, and that the configured labels are a map.
  pub log-IsDelivered :
      (cfg : Config) (cl : CloudLogging) (lc : LoggingClient W) (c : Client W) (r : AuditLogRequest)
      (w : W)
      → client_of cl ≡ ok lc
      → IsApart lc
      → NodupKeys cfg.labels
      → client_from_config o (some cfg) default_client ≡ ok c
      → (set_default o.to_upper cfg).backend
        ≡ some (record { remote = none; cloud_logging = some cl })
      → (set_mode c r).mode ≡ fail_close
      → (log c r w).exit ≡ done
      → IsDropped c r w (log c r w).world ⊎ IsDelivered lc cfg.labels c r w (log c r w).world
  unfolding set_default
  log-IsDelivered cfg cl lc c r w k a n made only mode ends =
      let b = (client_from_config-IsBuilt o cfg c made).1 in
      let there : b.backend ≡ record { remote = none; cloud_logging = some cl } =
        some_inj (sym b.backend_there ∙ only) in
      let (p, p_made, one) =
        one_cloud (get_log_mode o.to_upper (set_default o.to_upper cfg)) cl b.backend.remote
          b.backend.cloud_logging b.remotes b.clouds (ap (λ x. x.remote) there)
          (ap (λ x. x.cloud_logging) there) b.remote_if b.cloud_if b.clouds_made in
      let m = cloud_from_config-IsMade _ cl lc p k p_made in
      elim (brings (set_default o.to_upper cfg) c r w b mode ends) [
        | inl dropped ↦ inl dropped
        | inr d ↦
            let x =
              brought-IsWritten o.default_logging_client m.options p c r w d m.made
                (subst IsApart m.client a) (b.backends ∙ one) mode ends in
            inr (record {
              sent = d.sent;
              complete = sent-HasCompletePayload (set_default o.to_upper cfg) c r w b d;
              kept = d.kept;
              labels = λ j. sent-labels (set_default o.to_upper cfg) c r w j b d n;
              name = x.name;
              of_type = x.of_type;
              write =
                  subst (λ l. l.log_sync x.name (entry_of d.sent) w ≡ ((log c r w).world, none))
                    (sym m.client) x.write;
            })
      ]

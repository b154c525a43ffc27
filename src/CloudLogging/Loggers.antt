-- ===== src/CloudLogging/Loggers.antt =====
-- The logs that the backend of clients/go/pkg/cloudlogging/processor.go writes to, and its flushes.
use lumberjack.Prelude.{
  String, ◌≡◌, ◌≢◌, ◌↔◌, ◌⊎◌, inl, inr, refl, ap, sym, false, Option, none, some, List, [], ◌∷◌,
  All, nat_eq, arith, Bool-cases,
}
use lumberjack.Errors.{Err, join, Result, ok, >>=-eq-ok, ok_inj, done}
use lumberjack.Api.{
  AuditLogRequest, LogType, unspecified, admin_activity, data_access, consent_event, system_event,
  fail_close,
}
use lumberjack.CloudLogging.{
  LoggingClient, CloudProcessor, CloudOption, log_type_number, log_name_from_log_type, log_types,
  make_loggers, find_logger, logger_for, logger_or, apply_cloud_options, client_or, new_processor,
  process_cloud, is_asynchronous, entry_of, flush_all, stop_cloud, wrap_flush, write_sync_exit,
}

-- The log of a type: the annotated name of the declared type with its number, or, if no declared
-- type has it, the name of the unspecified type.
abbrev pub IsLogOf : LogType → String → Type 0
IsLogOf t name =
    ((u : LogType) × (log_type_number u ≡ log_type_number t)
      × (log_name_from_log_type u ≢ "")
      × (name ≡ log_name_from_log_type u))
    ⊎ (All (λ u. log_type_number u ≢ log_type_number t) log_types
        × (name ≡ log_name_from_log_type unspecified))

-- The loggers that `NewProcessor` makes.
abbrev all_loggers : List (LogType × String)
all_loggers =
    (unspecified, "audit.abcxyz/unspecified")
    ∷ (admin_activity, "audit.abcxyz/activity")
    ∷ (data_access, "audit.abcxyz/data_access")
    ∷ (consent_event, "audit.abcxyz/consent")
    ∷ (system_event, "audit.abcxyz/system_event")
    ∷ []

all_loggers-IsLogOf :
    (t : LogType)
    → IsLogOf t (logger_or (find_logger t all_loggers) (find_logger unspecified all_loggers))
unfolding find_logger log_type_number log_name_from_log_type
all_loggers-IsLogOf t =
    let n = log_type_number t in
    elim (Bool-cases (nat_eq 0 n)) [
      | inl b ↦ inl (unspecified, ground arith, (λ e. cc), rw b)
      | inr n0 ↦ elim (Bool-cases (nat_eq 1 n)) [
        | inl b ↦ inl (admin_activity, ground arith, (λ e. cc), rw (n0, b))
        | inr n1 ↦ elim (Bool-cases (nat_eq 2 n)) [
          | inl b ↦ inl (data_access, ground arith, (λ e. cc), rw (n0, n1, b))
          | inr n2 ↦ elim (Bool-cases (nat_eq 3 n)) [
            | inl b ↦ inl (consent_event, ground arith, (λ e. cc), rw (n0, n1, n2, b))
            | inr n3 ↦ elim (Bool-cases (nat_eq 50 n)) [
              | inl b ↦ inl (system_event, ground arith, (λ e. cc), rw (n0, n1, n2, n3, b))
              | inr n4 ↦ inr (
                (ground arith, (ground arith, (ground arith, (ground arith, (ground arith, tt))))),
                rw (n0, n1, n2, n3, n4),
              )
            ]
          ]
        ]
      ]
    ]

write_sync_exit-done : (o : Option Err) → (write_sync_exit o ≡ done) ↔ (o ≡ none)
write_sync_exit-done none = (λ _. refl, λ _. refl)
write_sync_exit-done (some e) = (λ h. cc, λ h. cc)

join_flush-none : (a b : Option Err) → (join a (wrap_flush b) ≡ none) ↔ ((a ≡ none) × (b ≡ none))
join_flush-none none none = (λ _. (refl, refl), λ _. refl)
join_flush-none none (some e) = (λ h. cc, λ h. cc)
join_flush-none (some a) none = (λ h. cc, λ h. cc)
join_flush-none (some a) (some b) = (λ h. cc, λ h. cc)

module _ {W : Type 0} where
  new_processor-loggers :
      (made : Result (LoggingClient W)) (os : List (CloudOption W)) (p : CloudProcessor W)
      → new_processor made os ≡ ok p
      → p.logger_by_log_type ≡ all_loggers
  unfolding new_processor make_loggers log_name_from_log_type
  new_processor-loggers made os p h =
      let (q, _, h1) = >>=-eq-ok (apply_cloud_options os (none, false)) _ h in
      let (c, _, h2) = >>=-eq-ok (client_or made q.0) _ h1 in
      ap CloudProcessor.logger_by_log_type (sym (ok_inj h2))

  -- A processor that `NewProcessor` made writes a request with the mode fail-close, of any type,
  -- declared or not, once and synchronously to the log of the type, whatever the processor's default
  -- is; the request stays as it is, and the call succeeds exactly if the write does.
  pub process_cloud-fail_close :
      (made : Result (LoggingClient W)) (os : List (CloudOption W)) (p : CloudProcessor W)
      (r : AuditLogRequest) (w : W)
      → new_processor made os ≡ ok p
      → r.mode ≡ fail_close
      → (name : String) × IsLogOf r.log_type name
        × ((process_cloud p r w).world ≡ (p.client.log_sync name (entry_of r) w).0)
        × ((process_cloud p r w).request ≡ r)
        × (((process_cloud p r w).exit ≡ done) ↔ ((p.client.log_sync name (entry_of r) w).1 ≡ none))
  unfolding process_cloud is_asynchronous
  process_cloud-fail_close made os p r w h m =
      let loggers = new_processor-loggers made os p h in
      (
        logger_for p r.log_type,
        rw loggers (all_loggers-IsLogOf r.log_type),
        rw m,
        rw m,
        let same =
              write_sync_exit-done (p.client.log_sync (logger_for p r.log_type) (entry_of r) w).1 in
            rw m same,
      )

  -- What the flushes of the loggers return, one after another, and the world that they leave.
  abbrev pub flush_errors : LoggingClient W → List (LogType × String) → W → List (Option Err)
  flush_errors c [] w = []
  flush_errors c ((_, name) ∷ loggers) w =
      (c.flush name w).1 ∷ flush_errors c loggers (c.flush name w).0

  abbrev pub flush_world : LoggingClient W → List (LogType × String) → W → W
  flush_world c [] w = w
  flush_world c ((_, name) ∷ loggers) w = flush_world c loggers (c.flush name w).0

  flush_all_lem :
      (c : LoggingClient W) (loggers : List (LogType × String)) (w : W) (merr : Option Err)
      → ((flush_all c loggers w merr).0 ≡ flush_world c loggers w)
        × (((flush_all c loggers w merr).1 ≡ none)
            ↔ ((merr ≡ none) × All (λ e. e ≡ none) (flush_errors c loggers w)))
  unfolding flush_all
  flush_all_lem c [] w merr = (refl, ((λ h. (h, tt)), λ (h, _). h))
  flush_all_lem c ((t, name) ∷ loggers) w merr =
      let (world, (to, from)) =
        flush_all_lem c loggers (c.flush name w).0 (join merr (wrap_flush (c.flush name w).1)) in
      let (split, both_none) = join_flush-none merr (c.flush name w).1 in
      (
        world,
        (
          (λ h. let (j, rest) = to h in let (a, b) = split j in (a, (b, rest))),
          λ (a, (b, rest)). from (both_none (a, b), rest),
        ),
      )

  -- `Stop` flushes every logger, whatever the flushes before it answered, and returns no error
  -- exactly if every flush succeeds.
  pub stop_cloud_lem :
      (p : CloudProcessor W) (w : W)
      → ((stop_cloud p w).0 ≡ flush_world p.client p.logger_by_log_type w)
        × (((stop_cloud p w).1 ≡ none)
            ↔ All (λ e. e ≡ none) (flush_errors p.client p.logger_by_log_type w))
  unfolding stop_cloud
  stop_cloud_lem p w =
      let (world, (to, from)) = flush_all_lem p.client p.logger_by_log_type w none in
      (world, ((λ h. (to h).1), λ h. from (refl, h)))

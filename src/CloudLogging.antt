-- ===== src/CloudLogging.antt =====
-- clients/go/pkg/cloudlogging/processor.go: the backend that writes audit logs to Cloud Logging.
-- The logging client is a parameter, and so is the error of its making; `W` is what the client
-- acts on. The log names are those of protos/v1alpha1/audit_log_request.proto.
pub mod Loggers
pub mod Writing
use lumberjack.Prelude.{
  ℕ, String, Bool, true, false, Option, none, some, List, [], ◌∷◌, Dict, ◌==◌, if◌then◌else◌,
  nat_eq,
}
use lumberjack.Errors.{Err, errorf, wrap, join, Result, ok, err, ◌>>=◌, map_err, Exit, done, failed}
use lumberjack.Api.{
  AuditLog, AuditLogRequest, Operation, LogType, unspecified, admin_activity, data_access,
  consent_event, system_event, undeclared, is_unspecified, is_best_effort,
}
use lumberjack.Client.{Outcome, Processor, exit_of}

-- `logging.Entry`, in the fields that the processor sets
pub record Entry : Type 0 where
  pub payload : Option AuditLog
  pub labels : Option (Dict String)
  pub operation : Option Operation
  pub timestamp : Option ℕ

-- `*logging.Client`. A logger is the name of its log.
pub record LoggingClient (W : Type 0) : Type 0 where
  pub log_entry : String → Entry → W → W
  pub log_sync : String → Entry → W → W × Option Err
  pub flush : String → W → W × Option Err

pub record CloudProcessor (W : Type 0) : Type 0 where
  pub client : LoggingClient W
  pub best_effort : Bool
  pub logger_by_log_type : List (LogType × String)

-- `LogType`'s number
unfoldable pub log_type_number : LogType → ℕ
log_type_number unspecified = 0
log_type_number admin_activity = 1
log_type_number data_access = 2
log_type_number consent_event = 3
log_type_number system_event = 50
log_type_number (undeclared n) = n

-- `logNameFromLogType`, of a declared log type
unfoldable pub log_name_from_log_type : LogType → String
log_name_from_log_type unspecified = "audit.abcxyz/unspecified"
log_name_from_log_type admin_activity = "audit.abcxyz/activity"
log_name_from_log_type data_access = "audit.abcxyz/data_access"
log_name_from_log_type consent_event = "audit.abcxyz/consent"
log_name_from_log_type system_event = "audit.abcxyz/system_event"
log_name_from_log_type (undeclared _) = ""

-- the keys of `AuditLogRequest_LogType_name`
abbrev pub log_types : List LogType
log_types = unspecified ∷ admin_activity ∷ data_access ∷ consent_event ∷ system_event ∷ []

-- the loop of `NewProcessor` over the log types
unfoldable pub make_loggers : List LogType → Result (List (LogType × String))
unfolding log_name_from_log_type
make_loggers [] = ok []
make_loggers (t ∷ ts) =
    let name = log_name_from_log_type t in
    let rest = make_loggers ts in
    if name == ""
    then err (errorf "the log type %v is not annotated with a log name" [])
    else (rest >>= (λ loggers. ok ((t, name) ∷ loggers)))

-- a read of `loggerByLogType`
unfoldable pub find_logger : LogType → List (LogType × String) → Option String
unfolding log_type_number
find_logger t [] = none
find_logger t ((u, name) ∷ loggers) =
    if nat_eq (log_type_number u) (log_type_number t) then some name else find_logger t loggers

-- The logger of a type, or else that of the unspecified type. A nil logger does not occur: it has an
-- empty name.
abbrev pub logger_or : Option String → Option String → String
logger_or (some name) _ = name
logger_or none (some name) = name
logger_or none none = ""

-- `Option`, on the client and the default mode of the processor that is being made
abbrev pub CloudOption : Type 0 → Type 0
CloudOption W = Option (LoggingClient W) × Bool → Result (Option (LoggingClient W) × Bool)

abbrev pub entry_of : AuditLogRequest → Entry
entry_of r = record {
  payload = r.payload;
  labels = r.labels;
  operation = r.operation;
  timestamp = r.timestamp;
}

abbrev pub write_sync_exit : Option Err → Exit
write_sync_exit none = done
write_sync_exit (some e) = failed (wrap "synchronous write to Cloud logging failed: %w" e)

abbrev pub wrap_flush : Option Err → Option Err
wrap_flush none = none
wrap_flush (some e) = some (wrap "failed to flush %s logs: %w" e)

module _ {W : Type 0} where
  -- `WithLoggingClient`
  abbrev pub with_logging_client : LoggingClient W → CloudOption W
  with_logging_client c (_, best_effort) = ok (some c, best_effort)

  -- `WithDefaultBestEffort`
  abbrev pub with_default_best_effort : CloudOption W
  with_default_best_effort (c, _) = ok (c, true)

  unfoldable pub apply_cloud_options :
      List (CloudOption W)
      → Option (LoggingClient W) × Bool
      → Result (Option (LoggingClient W) × Bool)
  apply_cloud_options [] p = ok p
  apply_cloud_options (o ∷ os) p =
      map_err (wrap "failed to apply client options: %w") (o p) >>= apply_cloud_options os

  -- The client that the options gave, or else a new one.
  abbrev pub client_or :
      Result (LoggingClient W) → Option (LoggingClient W) → Result (LoggingClient W)
  client_or made (some c) = ok c
  client_or made none =
      map_err (wrap "error creating the default Cloud Logging client for project %v: %w") made

  -- `NewProcessor`
  unfoldable pub new_processor :
      Result (LoggingClient W) → List (CloudOption W) → Result (CloudProcessor W)
  unfolding apply_cloud_options make_loggers
  new_processor made os = apply_cloud_options os (none, false) >>= (λ p.
      client_or made p.0 >>= (λ c. make_loggers log_types >>= (λ loggers.
        ok (record { client = c; best_effort = p.1; logger_by_log_type = loggers }))))

  -- the mode of a request, or else the processor's
  unfoldable pub is_asynchronous : CloudProcessor W → AuditLogRequest → Bool
  is_asynchronous p r = if is_unspecified r.mode then p.best_effort else is_best_effort r.mode

  abbrev pub logger_for : CloudProcessor W → LogType → String
  logger_for p t =
      logger_or (find_logger t p.logger_by_log_type) (find_logger unspecified p.logger_by_log_type)

  -- `(*Processor).Process`
  unfoldable pub process_cloud : CloudProcessor W → AuditLogRequest → W → Outcome W
  unfolding find_logger is_asynchronous
  process_cloud p r w =
      let name = logger_for p r.log_type in
      let written = p.client.log_sync name (entry_of r) w in
      if is_asynchronous p r
      then record { world = p.client.log_entry name (entry_of r) w; request = r; exit = done }
      else record { world = written.0; request = r; exit = write_sync_exit written.1 }

  -- the loop of `Stop`
  unfoldable pub flush_all :
      LoggingClient W → List (LogType × String) → W → Option Err → W × Option Err
  flush_all c [] w merr = (w, merr)
  flush_all c ((t, name) ∷ loggers) w merr =
      let flushed = c.flush name w in
      flush_all c loggers flushed.0 (join merr (wrap_flush flushed.1))

  -- `(*Processor).Stop`
  unfoldable pub stop_cloud : CloudProcessor W → W → W × Option Err
  unfolding flush_all
  stop_cloud p w = flush_all p.client p.logger_by_log_type w none

  abbrev pub cloud_processor : CloudProcessor W → Processor W
  cloud_processor p = record { process = process_cloud p; stop = some (stop_cloud p) }

-- ===== src/Runner/Db.antt =====
-- integration/testrunner/db.go: the query for audit logs, which is repeated until there are enough,
-- and the checks of each row.
use lumberjack.Prelude.{
  ℕ, zero, suc, String, ◌==◌, Bool, false, not, ◌||◌, Option, none, some, List, [], ◌∷◌, ◌++◌,
  length, ltb, is_some, if◌then◌else◌,
}
use lumberjack.Errors.{Err, errorf, wrap, is_err, iterator_done, Result, ok, err, map_err}
use lumberjack.Api.{AuditLog}
use lumberjack.Api.Values.{Value, Struct}
use lumberjack.Justification.{email_of}
use lumberjack.Puller.Retries.{
  Attempt, finished, retryable, running, Retry, Call, returned, endless,
}
use lumberjack.Runtime.Process.{metadata_key}
use lumberjack.Runner.{Check, pass, fatal, errorf_if, and_then}

-- `*bigquery.Query`: its text, and the value of its parameter
pub record Query : Type 0 where
  pub text : String
  pub parameter : String

-- `makeQuery`
abbrev pub make_query : String → String → Query
make_query id text = record { text = text; parameter = id }

-- A query's `Run`, a job's `Wait` with the error of the status, its `Read`, and an iterator's `Next`.
pub record BigQuery (W Job It : Type 0) : Type 0 where
  pub run : Query → W → W × Result Job
  pub wait : Job → W → W × Result (Option Err)
  pub read : Job → W → W × Result It
  pub next : It → W → (W × It) × Result String

-- What the query returns; none while the rows are still being read.
abbrev pub Rows : Type 0 → Type 0
Rows W = W × Option (Result (List String))

module _ {W Job It : Type 0} (db : BigQuery W Job It) where
  -- the branches of the loop on the error of `Next`
  unfoldable pub after_row : Result String → (String → Rows W) → List String → W → Rows W
  unfolding is_err
  after_row (ok r) next entries w = next r
  after_row (err e) next entries w =
      if is_err iterator_done e
      then (w, some (ok entries))
      else (w, some (err (wrap "failed to get next entry: %w" e)))

  -- the loop over the iterator, for a number of turns
  unfoldable pub read_rows : ℕ → It → List String → W → Rows W
  unfolding after_row
  read_rows zero it entries w = (w, none)
  read_rows (suc turns) it entries w =
      let n = db.next it w in
      after_row n.1 (λ r. read_rows turns n.0.1 (entries ++ (r ∷ [])) n.0.0) entries n.0.0

  abbrev pub with_iterator : ℕ → W × Result It → Rows W
  with_iterator turns (w, err e) = (w, some (err (wrap "failed to read query result: %w" e)))
  with_iterator turns (w, ok it) = read_rows turns it [] w

  abbrev pub waited : ℕ → Job → W × Result (Option Err) → Rows W
  waited turns job (w, err e) = (w, some (err (wrap "failed to wait for query: %w" e)))
  waited turns job (w, ok (some e)) = (w, some (err (wrap "query failed: %w" e)))
  waited turns job (w, ok none) = with_iterator turns (db.read job w)

  abbrev pub started : ℕ → W × Result Job → Rows W
  started turns (w, err e) = (w, some (err (wrap "failed to run query: %w" e)))
  started turns (w, ok job) = waited turns job (db.wait job w)

  -- the inner function: one run of the query
  unfoldable pub run_query : Query → ℕ → W → Rows W
  unfolding read_rows
  run_query q turns w = started turns (db.run q w)

  -- the end of the function that is retried: `results` are set once there are enough entries
  abbrev pub enough : ℕ → List String → Rows W → (List String × W) × Attempt
  enough want results (w, none) = ((results, w), running)
  enough want results (w, some (err e)) =
      ((results, w), retryable (wrap "failed to execute query: %w" e))
  enough want results (w, some (ok entries)) =
      if ltb (length entries) want
      then ((results, w), retryable (errorf "not enough entries (got %d, want %d)" []))
      else ((entries, w), finished)

  -- the function that is retried
  unfoldable pub query_attempt : Query → ℕ → ℕ → List String × W → (List String × W) × Attempt
  unfolding run_query
  query_attempt q want turns (results, w) = enough want results (run_query q turns w)

-- `loggingpb.LogEntry`, in the fields that are checked
pub record RowEntry : Type 0 where
  pub log_name : String
  pub timestamp : Option ℕ
  pub json_payload : Option Struct

-- protojson, the JSON of a struct and of a value, and `mail.ParseAddress`
pub record RowLib : Type 0 where
  pub parse_entry : String → Result RowEntry
  pub print_payload : Option Struct → Result String
  pub parse_audit_log : String → Result AuditLog
  pub print_value : Value → Result String
  pub parse_address : String → Option Err

module _ (lib : RowLib) where
  abbrev pub parse_printed : Result String → Result AuditLog
  parse_printed (err e) = err (wrap "error marshaling *structpb.Struct to json: %w" e)
  parse_printed (ok b) =
      map_err (wrap "error parsing json %v to AuditLog: %w") (lib.parse_audit_log b)

  -- `isValidEmail`
  unfoldable pub is_valid_email : String → Bool
  is_valid_email email = if email == "" then false else not (is_some (lib.parse_address email))

  -- `Errorf` under a test
  abbrev pub expect : Bool → Err → Check (Unit {0})
  expect b e = errorf_if (if b then none else some e)

  abbrev pub printed_justification : Result String → Check (Unit {0})
  printed_justification (err e) = fatal (wrap "failed to marshal justification: %v" e)
  printed_justification (ok b) =
      expect (not (b == "null" || b == ""))
        (errorf "queryResult field %v is blank" ("jsonPayload.metadata.justification" ∷ []))

  abbrev pub found_justification : Option Value → Check (Unit {0})
  found_justification none =
      fatal
        (errorf "queryResult field %v doesn't exist" ("jsonPayload.metadata.justification" ∷ []))
  found_justification (some v) = printed_justification (lib.print_value v)

  -- `checkJustification`
  unfoldable pub check_justification : AuditLog → Check (Unit {0})
  check_justification p = found_justification (metadata_key "justification" p.metadata)

  abbrev pub blank : String → Err
  blank field = errorf "queryResult field %v is blank" (field ∷ [])

  -- the checks of `diffLogEntry`, on what `parseJSONPayload` returns
  unfoldable pub check_fields : RowEntry → AuditLog → Check (Unit {0})
  unfolding is_valid_email check_justification
  check_fields l p = and_then (expect (not (l.log_name == "")) (blank "logName")) (λ _.
      and_then (expect (is_some l.timestamp) (blank "timestamp")) (λ _.
        and_then
          (expect (is_valid_email (email_of p.authentication_info)) (
            errorf "queryResult field %v is invalid, got %v" (
              "jsonPayload.authentication_info.principal_email"
              ∷ email_of p.authentication_info
              ∷ [])))
          (λ _.
            and_then (expect (not (p.service_name == "")) (blank "jsonPayload.service_name")) (λ _.
              and_then (expect (not (p.method_name == "")) (blank "jsonPayload.method_name"))
                (λ _. check_justification p)))))

  abbrev pub with_audit_log : RowEntry → Result AuditLog → Check (Unit {0})
  with_audit_log l (err e) = fatal (wrap "failed to get jsonPayload from logEntry: %v" e)
  with_audit_log l (ok p) = check_fields l p

  -- `diffLogEntry`
  unfoldable pub diff_log_entry : RowEntry → Check (Unit {0})
  unfolding check_fields
  diff_log_entry l = with_audit_log l (parse_printed (lib.print_payload l.json_payload))

  abbrev pub check_entry : Result RowEntry → Check (Unit {0})
  check_entry (err e) = fatal (wrap "unmarshal BigQuery row[%d] to LogEntry failed: %v" e)
  check_entry (ok l) = diff_log_entry l

  -- the loop over the rows
  unfoldable pub check_rows : List String → Check (Unit {0})
  unfolding diff_log_entry
  check_rows [] = pass tt
  check_rows (r ∷ rs) = and_then (check_entry (lib.parse_entry r)) (λ _. check_rows rs)

  abbrev pub check_results : {W : Type 0} → (List String × W) × Call → W × Option (Check (Unit {0}))
  check_results ((results, w), returned none) = (w, some (check_rows results))
  check_results ((results, w), returned (some e)) =
      (w, some (fatal (wrap "BigQuery query failed: %v" e)))
  check_results ((results, w), endless) = (w, none)

  -- `validateAuditLogsWithRetries`, by the backoff that it makes; no check is one that does not return
  unfoldable pub validate_audit_logs :
      {W Job It B : Type 0}
      → Retry B (List String × W)
      → B
      → BigQuery W Job It
      → Query
      → ℕ
      → ℕ
      → W
      → W × Option (Check (Unit {0}))
  unfolding query_attempt check_rows
  validate_audit_logs retry_do backoff db q want turns w =
      check_results (retry_do backoff (query_attempt db q want turns) ([], w))

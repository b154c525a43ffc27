-- ===== src/Cli/Tail.antt =====
-- pkg/cli/tail.go: the command that lists log entries, or streams them, and validates them. The
-- puller is an interface, and the logging client a parameter. A world `W` is what they act on; `E`
-- is a log entry.
pub mod Counts
pub mod Run
pub mod Bounds
use lumberjack.Prelude.{
  ℕ, zero, suc, ◌+◌, String, Bool, true, false, Option, none, some, List, [], ◌∷◌, ◌++◌, ◌==◌, ◌||◌,
  if◌then◌else◌, length, ltb, nat_eq,
}
use Prim.Native.String.{◌++◌ as ◌<>◌}
use lumberjack.Errors.{Err, errorf, wrap, join, Result, ok, err, ◌>>=◌, is_err, canceled}
use lumberjack.Validation.{Protojson, validate}
use lumberjack.Cli.{
  Operand, text_arg, number_arg, error_arg, Line, outf, errf, Answer, extra_validators,
  strip_spaces, parsed_flags,
}

-- Go's `int`, without its bounds.
pub data ℤ : Type 0 where
  pos : ℕ → ℤ
  negsuc : ℕ → ℤ

abbrev pub to_ℕ : ℤ → ℕ
to_ℕ (pos n) = n
to_ℕ (negsuc n) = zero

-- `TailCommand`; durations are what the clock reads.
pub record TailFlags : Type 0 where
  pub scope : String
  pub is_validating : Bool
  pub max_num : ℤ
  pub duration : ℕ
  pub additional_filter : String
  pub override_filter : String
  pub additional_check : Bool
  pub follow : Bool

-- What `StreamPull` leaves: the world, the entries that it has sent, and its error if it has
-- returned.
pub record Streamed (W E : Type 0) : Type 0 where
  pub world : W
  pub sent : List E
  pub ended : Option (Option Err)

-- `logPuller`; a call of `pull` that does not return has no result.
pub record LogPuller (W E : Type 0) : Type 0 where
  pub pull : String → ℕ → W → W × Option (Result (List E))
  pub stream_pull : String → W → Streamed W E

-- `*logging.Client`, by the puller that `NewPuller` makes of it and by its `Close`
pub record LogClient (W E : Type 0) : Type 0 where
  pub new_puller : String → LogPuller W E
  pub close : W → W × Option Err

-- What the command takes from outside: the flags that are parsed, with the remaining arguments, a
-- puller for tests, the logging client, a log entry's JSON and `InsertId`, and how a time that is
-- some duration ago is written and quoted.
pub record TailInput (W E : Type 0) : Type 0 where
  pub parsed : Result (TailFlags × List String)
  pub test_puller : Option (LogPuller W E)
  pub new_client : W → W × Result (LogClient W E)
  pub json : Protojson
  pub marshal : E → Result String
  pub insert_id : E → String
  pub quoted_time_ago : ℕ → String

abbrev pub tail_log_type : String
tail_log_type =
    "LOG_ID(\"audit.abcxyz/unspecified\") OR LOG_ID(\"audit.abcxyz/activity\") OR LOG_ID(\"audit.abcxyz/data_access\") OR LOG_ID(\"audit.abcxyz/consent\") OR LOG_ID(\"audit.abcxyz/system_event\")"

-- `queryFilter`
unfoldable pub query_filter : (ℕ → String) → TailFlags → String
query_filter quoted_time_ago f =
    let cutoff = "timestamp >= " <> quoted_time_ago f.duration in
    let filter = tail_log_type <> (" AND " <> cutoff) in
    if f.override_filter == ""
    then if f.additional_filter == "" then filter else filter <> (" AND " <> f.additional_filter)
    else f.override_filter

-- The lines that are printed for an entry, and whether it counts as failed.
abbrev pub Report : Type 0
Report = List Line × Bool

-- what `Validate` returns on the JSON of an entry
abbrev pub report_validation : String → Option Err → Report
report_validation id (some e) =
    (errf "failed to validate log (InsertId: %q): %w\n" (text_arg id ∷ error_arg e ∷ []) ∷ [], true)
report_validation id none =
    (outf "Successfully validated log (InsertId: %q)\n" (text_arg id ∷ []) ∷ [], false)

abbrev pub unvalidated : Report
unvalidated = ([], false)

-- the summary at the end of `list` and of `stream`
abbrev pub summary : Bool → ℕ → ℕ → List Line
summary true failed total =
    outf "Validation failed for %d logs (out of %d)" (number_arg failed ∷ number_arg total ∷ [])
    ∷ []
summary false failed total = []

abbrev pub add_failure : Bool → ℕ → ℕ
add_failure true n = suc n
add_failure false n = n

module _ {W E : Type 0} (i : TailInput W E) (f : TailFlags) where
  -- the part of a turn that both loops share: the JSON is itself the format of the first line
  unfoldable pub report_json : E → String → Report
  unfolding strip_spaces extra_validators
  report_json l js =
      let v =
        report_validation (i.insert_id l)
          (validate i.json js (extra_validators f.additional_check)) in
      let checked = if f.is_validating then v else unvalidated in
      (outf (strip_spaces js) [] ∷ checked.0, checked.1)

  abbrev pub marshal_failure : E → Err → Line
  marshal_failure l e =
      errf "failed to marshal log to json (InsertId: %q): %w"
        (text_arg (i.insert_id l) ∷ error_arg e ∷ [])

  -- a turn of the loop of `list`, and one of the loop of `stream`, on the entry's JSON
  unfoldable pub list_turn : E → Result String → Report
  unfolding report_json
  list_turn l (err e) = (marshal_failure l e ∷ [], true)
  list_turn l (ok js) = report_json l js

  unfoldable pub stream_turn : E → Result String → Report
  unfolding report_json
  stream_turn l (err e) = (marshal_failure l e ∷ [], false)
  stream_turn l (ok js) = report_json l js

  -- the loop of `list`: the lines that are printed, and `failCount`
  unfoldable pub list_loop : List E → List Line × ℕ → List Line × ℕ
  unfolding list_turn
  list_loop [] s = s
  list_loop (l ∷ ls) (lines, failed) =
      let r = list_turn l (i.marshal l) in list_loop ls (lines ++ r.0, add_failure r.1 failed)

  -- the loop of `stream`: the lines that are printed, `failCount` and `totalCount`
  unfoldable pub stream_loop : List E → List Line × ℕ × ℕ → List Line × ℕ × ℕ
  unfolding stream_turn
  stream_loop [] s = s
  stream_loop (l ∷ ls) (lines, failed, total) =
      let r = stream_turn l (i.marshal l) in
      stream_loop ls (lines ++ r.0, add_failure r.1 failed, suc total)

  abbrev pub list_pulled : List E → List Line
  list_pulled [] = outf "No logs found." [] ∷ []
  list_pulled (l ∷ ls) =
      let s = list_loop (l ∷ ls) ([], zero) in s.0 ++ summary f.is_validating s.1 (length (l ∷ ls))

  abbrev pub list_answer : W → Option (Result (List E)) → Answer W
  list_answer w none = record { world = w; lines = []; ended = none }
  list_answer w (some (err e)) = record {
    world = w;
    lines = [];
    ended = some (some (wrap "failed to pull logs: %w" e));
  }
  list_answer w (some (ok ls)) = record { world = w; lines = list_pulled ls; ended = some none }

  -- `list`
  unfoldable pub list : LogPuller W E → W → Answer W
  unfolding query_filter list_loop
  list p w =
      let r = p.pull (query_filter i.quoted_time_ago f) (to_ℕ f.max_num) w in list_answer r.0 r.1

  -- the error of `stream`: a cancellation is dropped
  unfoldable pub stream_error : Option Err → Option Err
  unfolding is_err
  stream_error none = none
  stream_error (some e) =
      let perr = wrap "StreamPull failed: %w" e in if is_err canceled perr then none else some perr

  -- what is printed after the loop, which ends when `StreamPull` has returned
  abbrev pub stream_answer : W → List Line × ℕ × ℕ → Option (Option Err) → Answer W
  stream_answer w (lines, failed, total) none = record { world = w; lines = lines; ended = none }
  stream_answer w (lines, failed, total) (some o) = record {
    world = w;
    lines = lines ++ summary f.is_validating failed total;
    ended = some (stream_error o);
  }

  -- `stream`
  unfoldable pub stream : LogPuller W E → W → Answer W
  unfolding query_filter stream_loop stream_error
  stream p w =
      let s = p.stream_pull (query_filter i.quoted_time_ago f) w in
      stream_answer s.world (stream_loop s.sent ([], zero, zero)) s.ended

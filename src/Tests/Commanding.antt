-- ===== src/Tests/Commanding.antt =====
-- The commands of the command line, with entries that are their own JSON.
use mathlib.Core.Path.{subst}
use lumberjack.Prelude.{
  ◌≡◌, ◌↔◌, refl, sym, ap, ℕ, String, Bool, true, false, none, some, List, [], ◌∷◌, ◌==◌,
  if◌then◌else◌,
}
use lumberjack.Errors.{sentinel, canceled, errorf, Result, ok, err, ok_inj}
use lumberjack.Validation.{validate}
use lumberjack.Puller.{new_puller}
use lumberjack.Cli.Validate.{ValidateInput, run_validate, checks, IsRead, run_validate_iff}
use lumberjack.Cli.Tail.{pos, TailFlags, LogPuller, LogClient, TailInput, list, stream}
use lumberjack.Cli.Tail.Run.{run_tail}
use lumberjack.Cli.Tail.Counts.{stream-as-list}
use lumberjack.Cli.Tail.Bounds.{
  log_puller, log_puller-PullsAtMost, PullsAtMost, PrintsAtMost, run_tail-PrintsAtMost,
}
use lumberjack.Tests.Logging.{json}
use lumberjack.Tests.Pulling.{
  Script, scripted, attempts, five_tries, an_interruption, wanted, tries-IsRetry,
}

abbrev piped : ValidateInput
piped = record {
  parsed = ok (record { log_entry = "-"; additional_check = true }, []);
  prompt_all = ok "{}";
}

run_validate_iff_example : ((run_validate json piped).1 ≡ none) ↔ (
    (log : String) × (additional_check : Bool) × IsRead piped log additional_check
    × (validate json log (checks additional_check) ≡ none))
run_validate_iff_example = run_validate_iff json piped

abbrev a_marshal : String → Result String
a_marshal s = if s == "" then err (errorf "no JSON" []) else ok s

abbrev some_flags : TailFlags
some_flags = record {
  scope = "projects/foo";
  is_validating = true;
  max_num = pos 1000;
  duration = 2;
  additional_filter = "";
  override_filter = "";
  additional_check = true;
  follow = false;
}

abbrev fixed : {W : Type 0} → List String → LogPuller W String
fixed ls = record {
  pull = λ filter n w. (w, some (ok ls));
  stream_pull =
      λ filter w. record { world = w; sent = ls; ended = some (some (sentinel canceled)) };
}

abbrev an_input : TailInput (List String) String
an_input = record {
  parsed = ok (some_flags, []);
  test_puller = some (fixed ("{}" ∷ "" ∷ []));
  new_client = λ w. (w, err (sentinel canceled));
  json = json;
  marshal = a_marshal;
  insert_id = λ l. "id";
  quoted_time_ago = λ d. "2026-01-01T00:00:00Z";
}

abbrev two_entries : List String
two_entries = "{}" ∷ "" ∷ []

stream-as-list_example :
    (stream an_input some_flags (fixed ("{}" ∷ "{ }" ∷ [])) []).lines
    ≡ (list an_input some_flags (fixed ("{}" ∷ "{ }" ∷ [])) []).lines
stream-as-list_example =
    stream-as-list an_input some_flags (fixed ("{}" ∷ "{ }" ∷ [])) [] "{}" ("{ }" ∷ [])
      (some (sentinel canceled)) (("{}", refl), (("{ }", refl), tt)) refl refl refl

abbrev a_client : LogClient Script ℕ
a_client = record {
  new_puller = λ scope. log_puller five_tries wanted (new_puller attempts scripted scope []);
  close = λ w. (w, none);
}

abbrev a_run : TailInput Script ℕ
a_run = record {
  parsed = ok (some_flags, []);
  test_puller = none;
  new_client = λ w. (w, ok a_client);
  json = json;
  marshal = λ l. ok "{}";
  insert_id = λ l. "id";
  quoted_time_ago = λ d. "2026-01-01T00:00:00Z";
}

run_tail-PrintsAtMost_example : PrintsAtMost 2001 (run_tail a_run an_interruption)
run_tail-PrintsAtMost_example =
    run_tail-PrintsAtMost a_run an_interruption (λ f same. ap (λ x. x.0.follow) (sym (ok_inj same)))
      (λ p same. absurd (let h = same in cc))
      (λ c scope same.
        subst (λ x. PullsAtMost (x.new_puller scope)) (ok_inj same)
          (log_puller-PullsAtMost five_tries wanted (new_puller attempts scripted scope [])
            (tries-IsRetry attempts)))

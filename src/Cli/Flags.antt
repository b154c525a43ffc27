-- ===== src/Cli/Flags.antt =====
-- The flags of the commands in pkg/cli/tail.go and pkg/cli/validate.go, and the commands of
-- pkg/cli/root.go. The parser of flags, which takes them, is a parameter of the runs.
use lumberjack.Prelude.{◌≡◌, ℕ, ◌*◌, String, ◌==◌, Bool, true, false, List, [], ◌∷◌}
use lumberjack.Errors.{ok}
use lumberjack.Cli.Tail.{TailFlags, pos}
use lumberjack.Cli.Tail.Run.{check_flags}

-- The value that a flag has where none is given; durations in nanoseconds.
pub data Default : Type 0 where
  text : String → Default
  switch : Bool → Default
  int : ℕ → Default
  duration : ℕ → Default

pub record Flag : Type 0 where
  pub name : String
  pub aliases : List String
  pub initial : Default
  pub hidden : Bool

abbrev flag : String → List String → Default → Flag
flag name aliases initial = record {
  name = name;
  aliases = aliases;
  initial = initial;
  hidden = false;
}

abbrev pub hour : ℕ
hour = 3600000000000

-- `(*TailCommand).Flags`
unfoldable pub tail_flags : List Flag
tail_flags =
    flag "scope" ("s" ∷ []) (text "")
    ∷ flag "validate" ("v" ∷ []) (switch false)
    ∷ flag "max-num" ("n" ∷ []) (int 10)
    ∷ flag "duration" ("d" ∷ []) (duration (2 * hour))
    ∷ flag "additional-filter" [] (text "")
    ∷ record { name = "override-filter"; aliases = []; initial = text ""; hidden = true }
    ∷ flag "additional-check" [] (switch false)
    ∷ flag "follow" ("f" ∷ []) (switch false)
    ∷ []

-- `(*ValidateCommand).Flags`
unfoldable pub validate_flags : List Flag
validate_flags =
    flag "log-entry" ("l" ∷ []) (text "") ∷ flag "additional-check" [] (switch false) ∷ []

-- the targets of these flags where none is given but the scope
unfoldable pub initial_tail : String → TailFlags
initial_tail scope = record {
  scope = scope;
  is_validating = false;
  max_num = pos 10;
  duration = 2 * hour;
  additional_filter = "";
  override_filter = "";
  additional_check = false;
  follow = false;
}

-- `rootCmd`: the names of the commands
unfoldable pub root_commands : List String
root_commands = "validate" ∷ "tail" ∷ []

-- With a scope, and no other flag, tail passes its checks.
initial_tail-passes :
    (scope : String)
    → (scope == "") ≡ false
    → check_flags (initial_tail scope) ≡ ok (initial_tail scope)
unfolding check_flags initial_tail
initial_tail-passes scope h = rw h

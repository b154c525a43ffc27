-- ===== src/Cli.antt =====
-- pkg/cli: the commands of the command line. The parsing of flags, the terminal and protobuf's
-- `protojson` are parameters.
pub mod Validate
pub mod Tail
pub mod Flags
use Prim.Native.String.{[], ◌∷◌}
use lumberjack.Prelude.{
  ◌≡◌, ap, ℕ, String, Bool, true, false, code, Option, none, some, List, [], ◌∷◌, nat_eq,
  if◌then◌else◌,
}
use lumberjack.Errors.{Err, errorf, wrap, Result, ok, err, ok_inj}
use lumberjack.Validation.{LogEntry, validate_labels}

-- An operand of a format.
pub data Operand : Type 0 where
  text_arg : String → Operand
  number_arg : ℕ → Operand
  error_arg : Err → Operand

-- A call of `Outf` or of `Errf`: a format and its operands.
pub data Line : Type 0 where
  outf : String → List Operand → Line
  errf : String → List Operand → Line

-- What a command leaves: the world, the lines that it has printed, and its error; `none` while it
-- still runs.
pub record Answer (W : Type 0) : Type 0 where
  pub world : W
  pub lines : List Line
  pub ended : Option (Option Err)

-- the validators that `-additional-check` adds
unfoldable pub extra_validators : Bool → List (LogEntry → Option Err)
extra_validators additional_check = if additional_check then validate_labels ∷ [] else []

-- `stripSpaces`
unfoldable pub strip_spaces : String → String
strip_spaces [] = []
strip_spaces (c ∷ s) = let rest = strip_spaces s in if nat_eq (code c) 32 then rest else c ∷ rest

-- the checks of `Run` on what the flags' parser returns
unfoldable pub parsed_flags {ℓ} : {F : Type ℓ} → Result (F × List String) → Result F
parsed_flags (err e) = err (wrap "failed to parse flags: %w" e)
parsed_flags (ok (f, [])) = ok f
parsed_flags (ok (f, a ∷ args)) = err (errorf "unexpected arguments: %q" (a ∷ args))

pub parsed_flags-eq-ok :
    {F : Type 0} (r : Result (F × List String)) {f : F} → parsed_flags r ≡ ok f → r ≡ ok (f, [])
unfolding parsed_flags
parsed_flags-eq-ok (err e) h = cc
parsed_flags-eq-ok (ok (g, [])) h = ap (λ x. ok (x, [])) (ok_inj h)
parsed_flags-eq-ok (ok (g, a ∷ args)) h = cc

-- ===== src/Cli/Validate.antt =====
-- pkg/cli/validate.go: the command that validates one log entry.
use mathlib.Core.Path.{subst}
use lumberjack.Prelude.{
  ◌≡◌, ◌≢◌, ◌↔◌, refl, ap, sym, ◌⊎◌, inl, inr, String, Bool, true, false, Option, none, some, List,
  [], ◌∷◌, ◌==◌, if◌then◌else◌, Bool-cases, eq_iff, arith,
}
use lumberjack.Errors.{Err, errorf, wrap, Result, ok, err, ok_inj, ◌>>=◌, >>=-eq-ok}
use lumberjack.Validation.{Protojson, Validator, validate, validate_labels}
use lumberjack.Cli.{Line, outf, extra_validators, parsed_flags, parsed_flags-eq-ok}

-- `ValidateCommand`
pub record ValidateFlags : Type 0 where
  pub log_entry : String
  pub additional_check : Bool

-- The flags that were parsed, and the arguments that are left; what `PromptAll` reads.
pub record ValidateInput : Type 0 where
  pub parsed : Result (ValidateFlags × List String)
  pub prompt_all : Result String

abbrev pub read_prompt : Result String → Result String
read_prompt (err e) = err (wrap "failed to get log from prompt: %w" e)
read_prompt (ok log) = ok log

-- the log, from the flag or from the standard input
unfoldable pub read_log : Result String → String → Result String
read_log prompt_all log_entry =
    if log_entry == ""
    then err (errorf "log is required" [])
    else if log_entry == "-"
    then read_prompt prompt_all
    else ok log_entry

-- the end of `Run`, on what `Validate` returns
abbrev pub report : Option Err → List Line × Option Err
report (some e) = ([], some (wrap "failed to validate log: %w" e))
report none = (outf "Successfully validated log" [] ∷ [], none)

abbrev pub answer_of : Result (Option Err) → List Line × Option Err
answer_of (err e) = ([], some e)
answer_of (ok o) = report o

-- `(*ValidateCommand).Run`: the lines that it prints, and its error
unfoldable pub run_validate : Protojson → ValidateInput → List Line × Option Err
unfolding parsed_flags read_log extra_validators
run_validate json i = answer_of (
    parsed_flags i.parsed >>= (λ f.
      read_log i.prompt_all f.log_entry
      >>= (λ log. ok (validate json log (extra_validators f.additional_check)))))

-- Where the log comes from: it is the flag's value, unless that is a dash, for what was read from the
-- standard input; a flag without a value gives none.
abbrev pub IsLogOf : Result String → String → String → Type 0
IsLogOf prompt_all log_entry log =
    ((log_entry ≢ "") × (log_entry ≢ "-") × (log ≡ log_entry))
    ⊎ ((log_entry ≡ "-") × (prompt_all ≡ ok log))

-- The checks beside those of the payload: that of the labels, if it was asked for.
abbrev pub checks : Bool → List Validator
checks false = []
checks true = validate_labels ∷ []

extra_validators-checks : (b : Bool) → extra_validators b ≡ checks b
unfolding extra_validators
extra_validators-checks false = refl
extra_validators-checks true = refl

read_prompt-eq-ok : (r : Result String) (log : String) → read_prompt r ≡ ok log → r ≡ ok log
read_prompt-eq-ok (err e) log h = cc
read_prompt-eq-ok (ok s) log h = h

read_log-IsLogOf :
    (prompt_all : Result String) (log_entry log : String)
    → (read_log prompt_all log_entry ≡ ok log) ↔ IsLogOf prompt_all log_entry log
unfolding read_log
read_log-IsLogOf prompt_all log_entry log = (
  λ h. elim (Bool-cases (log_entry == "")) [
    | inl b ↦ absurd (let h' = rw b at h in cc)
    | inr b ↦ elim (Bool-cases (log_entry == "-")) [
      | inl c ↦
          inr (
            ground (arith, eq_iff log_entry "-"),
            read_prompt-eq-ok prompt_all log (rw (b, c) at h),
          )
      | inr c ↦
          let same = ok_inj (rw (b, c) at h) in
          inl (ground (arith, eq_iff log_entry ""), ground (arith, eq_iff log_entry "-"), sym same)
    ]
  ],
  λ h. elim h [
    | inl (n, m, same) ↦
        let b : (log_entry == "") ≡ false = ground (arith, eq_iff log_entry "") in
        let c : (log_entry == "-") ≡ false = ground (arith, eq_iff log_entry "-") in
        rw (b, c) (ap ok (sym same))
    | inr (dash, read) ↦ rw (dash, read) refl
  ],
)

-- What a run of the command validates: the value of the flag, or the standard input.
pub record IsRead (i : ValidateInput) (log : String) (additional_check : Bool) : Type 0 where
  pub log_entry : String
  pub flags :
      i.parsed ≡ ok (record { log_entry = log_entry; additional_check = additional_check }, [])
  pub read : IsLogOf i.prompt_all log_entry log

answer_of-none : (r : Result (Option Err)) → (answer_of r).1 ≡ none → r ≡ ok none
answer_of-none (err e) h = cc
answer_of-none (ok none) h = refl
answer_of-none (ok (some e)) h = cc

-- The command returns nil exactly when its flags were parsed without further arguments, the flag for
-- the log is not empty, and `Validate`, with the check of the labels if that was asked for, accepts
-- the flag's value or, if that is a dash, what was read from the standard input.
pub run_validate_iff :
    (json : Protojson) (i : ValidateInput)
    → ((run_validate json i).1 ≡ none) ↔ (
        (log : String) × (additional_check : Bool) × IsRead i log additional_check
        × (validate json log (checks additional_check) ≡ none))
unfolding run_validate
run_validate_iff json i = (
  λ h.
      let (f, flags, next) = >>=-eq-ok (parsed_flags i.parsed) _ (answer_of-none _ h) in
      let (log, read, last) = >>=-eq-ok (read_log i.prompt_all f.log_entry) _ next in
      (
        log,
        f.additional_check,
        record {
          log_entry = f.log_entry;
          flags = parsed_flags-eq-ok _ flags;
          read = (read_log-IsLogOf i.prompt_all f.log_entry log).0 read;
        },
        subst (λ xs. validate json log xs ≡ none) (extra_validators-checks f.additional_check)
            (ok_inj last),
      ),
  λ (log, additional_check, v, accepted).
      let read = (read_log-IsLogOf i.prompt_all v.log_entry log).1 v.read in
      rw (v.flags, read, extra_validators-checks additional_check, accepted) refl,
)

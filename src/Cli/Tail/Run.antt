-- ===== src/Cli/Tail/Run.antt =====
-- `Run` of pkg/cli/tail.go: its checks, and the life of the logging client.
use lumberjack.Prelude.{
  ◌≡◌, refl, ◌⊎◌, inl, inr, ℕ, ◌≤◌, ◌<◌, Bool, true, false, Option, none, some, [], ◌==◌, ◌||◌,
  if◌then◌else◌, ltb, nat_eq, Bool-cases, arith,
}
use lumberjack.Errors.{
  Err, errorf, wrap, join, Result, ok, err, ◌>>=◌, >>=-eq-ok, ok_inj, Result-cases,
}
use lumberjack.Cli.{Answer, parsed_flags, parsed_flags-eq-ok}
use lumberjack.Cli.Tail.{ℤ, pos, negsuc, TailFlags, LogPuller, LogClient, TailInput, list, stream}

module _ {W E : Type 0} (i : TailInput W E) (f : TailFlags) where
  -- the branches at the end of `Run`
  unfoldable pub tail : LogPuller W E → W → Answer W
  unfolding list stream
  tail p w = if f.follow then stream i f p w else list i f p w

  abbrev pub wrap_client_close : Option Err → Option Err
  wrap_client_close none = none
  wrap_client_close (some e) = some (wrap "failed to close log client: %w" e)

  -- the deferred `Close`, after a run that has ended
  unfoldable pub close_client : LogClient W E → Answer W → Option (Option Err) → Answer W
  close_client c a none = a
  close_client c a (some o) =
      let closed = c.close a.world in
      record {
        world = closed.0;
        lines = a.lines;
        ended = some (join o (wrap_client_close closed.1));
      }

  -- a new client, and the puller that is made of it
  unfoldable pub with_client : W → Result (LogClient W E) → Answer W
  unfolding tail close_client
  with_client w (err e) = record {
    world = w;
    lines = [];
    ended = some (some (wrap "failed to create logging client: %w" e));
  }
  with_client w (ok c) = let a = tail (c.new_puller f.scope) w in close_client c a a.ended

  -- the puller for tests, or else one of a new client
  unfoldable pub with_puller : Option (LogPuller W E) → W → Answer W
  unfolding with_client
  with_puller (some p) w = tail p w
  with_puller none w = let made = i.new_client w in with_client made.0 made.1

-- `c.flagMaxNum <= 0 || c.flagMaxNum > 1000`
unfoldable pub is_out_of_range : ℤ → Bool
is_out_of_range (pos n) = nat_eq n 0 || ltb 1000 n
is_out_of_range (negsuc n) = true

-- the checks of the flags
unfoldable pub check_flags : TailFlags → Result TailFlags
unfolding is_out_of_range
check_flags f =
    if f.scope == ""
    then err (errorf "scope is required" [])
    else if is_out_of_range f.max_num
    then err (errorf "-max-num must be greater than 0 and less than 1000" [])
    else ok f

-- Flags that pass: a scope, and a number from 1 to 1000.
pub record IsValidTail (f : TailFlags) : Type 0 where
  pub scope_given : (f.scope == "") ≡ false
  pub number : ℕ
  pub max_num : f.max_num ≡ pos number
  pub at_least : 0 < number
  pub at_most : number ≤ 1000

in_range : (z : ℤ) → is_out_of_range z ≡ false → (n : ℕ) × (z ≡ pos n) × (0 < n) × (n ≤ 1000)
unfolding is_out_of_range
in_range (pos n) h = (n, refl, ground arith, ground arith)
in_range (negsuc n) h = cc

check_flags-IsValidTail : (f g : TailFlags) → check_flags f ≡ ok g → (f ≡ g) × IsValidTail f
unfolding check_flags
check_flags-IsValidTail f g h = elim (Bool-cases (f.scope == "")) [
  | inl empty ↦ absurd (let h' = rw empty at h in cc)
  | inr given ↦ elim (Bool-cases (is_out_of_range f.max_num)) [
    | inl out ↦ absurd (let h' = rw (given, out) at h in cc)
    | inr fits ↦
        let (n, shape, low, high) = in_range f.max_num fits in
        let valid : IsValidTail f = record {
          scope_given = given;
          number = n;
          max_num = shape;
          at_least = low;
          at_most = high;
        } in
        (ok_inj (rw (given, fits) at h), valid)
  ]
]

module _ {W E : Type 0} where
  abbrev pub run_checked : TailInput W E → W → Result TailFlags → Answer W
  run_checked i w (err e) = record { world = w; lines = []; ended = some (some e) }
  run_checked i w (ok f) = with_puller i f i.test_puller w

  -- `(*TailCommand).Run`
  unfoldable pub run_tail : TailInput W E → W → Answer W
  unfolding with_puller check_flags parsed_flags
  run_tail i w = run_checked i w (parsed_flags i.parsed >>= check_flags)

  -- A run of the command does nothing but return an error, unless its flags were parsed without
  -- further arguments, the scope is not empty and the number of logs is one from 1 to 1000.
  pub run_tail-IsValidTail :
      (i : TailInput W E) (w : W)
      → ((e : Err) × (run_tail i w ≡ record { world = w; lines = []; ended = some (some e) }))
        ⊎ ((f : TailFlags) × (i.parsed ≡ ok (f, []))
            × IsValidTail f
            × (run_tail i w ≡ with_puller i f i.test_puller w))
  unfolding run_tail
  run_tail-IsValidTail i w = elim (Result-cases (parsed_flags i.parsed >>= check_flags)) [
    | inl (e, failed_so) ↦ inl (e, rw failed_so)
    | inr (g, passed) ↦
        let (f, flags, checked) = >>=-eq-ok (parsed_flags i.parsed) check_flags passed in
        let (same, valid) = check_flags-IsValidTail f g checked in
        inr (f, parsed_flags-eq-ok i.parsed flags, valid, rw (passed, same))
  ]

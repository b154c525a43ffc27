-- ===== src/Puller/Retries.antt =====
-- `retry.Do` of the package `retry`, which pkg/cloudlogging/puller.go calls: what one attempt ends
-- with, and which sequences of attempts a call may make.
use mathlib.Core.Path.{subst}
use lumberjack.Prelude.{◌≡◌, ◌≢◌, ap, Option, none, some}
use lumberjack.Errors.{Err}

-- An attempt returns nil, or an error that is marked as retryable, or is not.  An attempt that loops
-- may still be running.
pub data Attempt : Type 0 where
  finished : Attempt
  retryable : Err → Attempt
  fatal : Err → Attempt
  running : Attempt

-- How the call ends, if it does.
pub data Call : Type 0 where
  returned : Option Err → Call
  endless : Call

-- A backoff that keeps no state between the calls that are modelled.
abbrev pub Retry : Type 0 → Type 0 → Type 0
Retry B S = B → (S → S × Attempt) → S → S × Call

-- The calls that are documented: the function is called until it returns nil or an error that is not
-- retryable, and at most until the backoff stops or the context ends.
pub data Retried {S : Type 0} (f : S → S × Attempt) : S → S × Call → Type 0 where
  context_ended : (s : S) (e : Err) → Retried f s (s, returned (some e))
  succeeded : (s s' : S) → f s ≡ (s', finished) → Retried f s (s', returned none)
  refused : (s s' : S) (e : Err) → f s ≡ (s', fatal e) → Retried f s (s', returned (some e))
  gave_up : (s s' : S) (e e' : Err) → f s ≡ (s', retryable e) → Retried f s (s', returned (some e'))
  stuck : (s s' : S) → f s ≡ (s', running) → Retried f s (s', endless)
  again :
      (s s' : S) (e : Err) (r : S × Call) → f s ≡ (s', retryable e) → Retried f s' r → Retried f s r

-- Every call is as documented.
abbrev pub IsRetry : {S : Type 0} → ((S → S × Attempt) → S → S × Call) → Type 0
IsRetry {S = S} retry_do = (f : S → S × Attempt) (s : S) → Retried f s (retry_do f s)

module _ {S : Type 0} {f : S → S × Attempt} where
  -- What every attempt keeps, the call keeps.
  pub Retried-keeps :
      (Kept : S → Type 0)
      → ((s : S) → Kept s → Kept (f s).0)
      → (s : S) (r : S × Call) → Kept s
      → Retried f s r
      → Kept r.0
  Retried-keeps Kept step s r h (context_ended _ e) = h
  Retried-keeps Kept step s r h (succeeded _ s' now) = subst (λ x. Kept x.0) now (step s h)
  Retried-keeps Kept step s r h (refused _ s' e now) = subst (λ x. Kept x.0) now (step s h)
  Retried-keeps Kept step s r h (gave_up _ s' e e' now) = subst (λ x. Kept x.0) now (step s h)
  Retried-keeps Kept step s r h (stuck _ s' now) = subst (λ x. Kept x.0) now (step s h)
  Retried-keeps Kept step s r h (again _ s' e _ now later) =
      Retried-keeps Kept step s' r (subst (λ x. Kept x.0) now (step s h)) later

  -- A call returns nil only if an attempt does.
  pub Retried-never_nil :
      ((s : S) → (f s).1 ≢ finished) → (s : S) (r : S × Call) → Retried f s r → r.1 ≢ returned none
  Retried-never_nil never s r (context_ended _ e) = λ h. cc
  Retried-never_nil never s r (succeeded _ s' now) = λ h. never s (ap (λ x. x.1) now)
  Retried-never_nil never s r (refused _ s' e now) = λ h. cc
  Retried-never_nil never s r (gave_up _ s' e e' now) = λ h. cc
  Retried-never_nil never s r (stuck _ s' now) = λ h. cc
  Retried-never_nil never s r (again _ s' e _ now later) = Retried-never_nil never s' r later

  -- A call that returns nil ends with an attempt that does.
  pub Retried-nil :
      (s : S) (r : S × Call)
      → Retried f s r
      → r.1 ≡ returned none
      → (s₀ : S) × (f s₀ ≡ (r.0, finished))
  Retried-nil s r (context_ended _ e) h = absurd (cc)
  Retried-nil s r (succeeded _ s' now) h = (s, now)
  Retried-nil s r (refused _ s' e now) h = absurd (cc)
  Retried-nil s r (gave_up _ s' e e' now) h = absurd (cc)
  Retried-nil s r (stuck _ s' now) h = absurd (cc)
  Retried-nil s r (again _ s' e _ now later) h = Retried-nil s' r later h

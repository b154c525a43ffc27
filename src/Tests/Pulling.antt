-- ===== src/Tests/Pulling.antt =====
-- The puller with a client that hands out prepared listings, and with retries that stop after some
-- attempts.
use lumberjack.Prelude.{◌≡◌, refl, ◌⊎◌, ℕ, zero, suc, Option, none, some, List, [], ◌∷◌, ◌++◌, take}
use lumberjack.Errors.{Err, sentinel, errorf, Result, ok, err, is_err, iterator_done, end_of_file}
use lumberjack.Puller.{
  TailClient, ListClient, Puller, Pulled, list_request, tail_request, pull, pull_attempt, collect,
  after_next, tail_attempt,
}
use lumberjack.Puller.Retries.{
  Attempt, finished, retryable, fatal, running, Call, returned, endless, Retry, Retried, IsRetry,
  succeeded, refused, gave_up, stuck, again,
}
use lumberjack.Puller.Listing.{IsBounded, pull-IsBounded}
use lumberjack.Puller.Script.{Served, whole, interrupted, over, broken, more, pull-take}
use lumberjack.Puller.Tailing.{HasEnded, tail_attempt-endless}

module _ {S : Type 0} where
  abbrev pub settle : S × Attempt → (S → Err → S × Call) → S × Call
  settle (s, finished) k = (s, returned none)
  settle (s, retryable e) k = k s e
  settle (s, fatal e) k = (s, returned (some e))
  settle (s, running) k = (s, endless)

  abbrev pub tries : ℕ → (S → S × Attempt) → S → S × Call
  tries zero f s = settle (f s) (λ s' e. (s', returned (some e)))
  tries (suc n) f s = settle (f s) (λ s' e. tries n f s')

  settle-Retried :
      (f : S → S × Attempt) (s : S) (r : S × Attempt) (k : S → Err → S × Call)
      → f s ≡ r
      → ((s' : S) (e : Err) → f s ≡ (s', retryable e) → Retried f s (k s' e))
      → Retried f s (settle r k)
  settle-Retried f s (s', finished) k now h = succeeded s s' now
  settle-Retried f s (s', retryable e) k now h = h s' e now
  settle-Retried f s (s', fatal e) k now h = refused s s' e now
  settle-Retried f s (s', running) k now h = stuck s s' now

  pub tries-IsRetry : (n : ℕ) → IsRetry (tries n)
  tries-IsRetry zero f s = settle-Retried f s (f s) _ refl (λ s' e now. gave_up s s' e e now)
  tries-IsRetry (suc n) f s =
      settle-Retried f s (f s) _ refl (λ s' e now. again s s' e _ now (tries-IsRetry n f s'))

-- The listings, or the responses, that are still to come.
abbrev pub Script : Type 0
Script = List (List (Result ℕ))

abbrev broken_connection : Err
broken_connection = errorf "connection reset" []

abbrev next_entry : List (Result ℕ) → Script → (Script × List (Result ℕ)) × Result ℕ
next_entry [] w = ((w, []), err (sentinel iterator_done))
next_entry (r ∷ it) w = ((w, it), r)

abbrev next_listing : Script → Script × List (Result ℕ)
next_listing [] = ([], [])
next_listing (it ∷ w) = (w, it)

abbrev as_response : Result ℕ → Result (List ℕ)
as_response (ok l) = ok (l ∷ [])
as_response (err e) = err e

abbrev next_response : Script → Script × Result (List ℕ)
next_response ((r ∷ rs) ∷ w) = (rs ∷ w, as_response r)
next_response w = (w, err (sentinel end_of_file))

abbrev a_stream : TailClient Script ℕ
a_stream = record { send = λ r w. (w, none); recv = next_response; close_send = λ w. (w, none) }

abbrev pub scripted : ListClient Script (List (Result ℕ)) ℕ
scripted = record {
  list_log_entries = λ r w. next_listing w;
  next = next_entry;
  tail_log_entries = λ w. (w, ok a_stream);
}

abbrev pub attempts : ℕ
attempts = 5

abbrev pub wanted : ℕ
wanted = 2

abbrev a_puller : Puller Script (List (Result ℕ)) ℕ ℕ
a_puller = record { client = scripted; resource = "projects/foo"; retry = some attempts }

abbrev pub five_tries : Retry (Option ℕ) (Pulled Script ℕ)
five_tries b = tries attempts

abbrev pub an_interruption : Script
an_interruption = (ok 7 ∷ err broken_connection ∷ []) ∷ (ok 7 ∷ ok 8 ∷ []) ∷ []

pull-IsBounded_example : IsBounded wanted (pull five_tries a_puller "f" wanted an_interruption).1
pull-IsBounded_example =
    pull-IsBounded five_tries a_puller "f" wanted an_interruption (tries-IsRetry attempts)

-- The entry that came before the interruption is there twice.
listed_twice : (pull five_tries a_puller "f" wanted an_interruption).1 ≡ some (ok (7 ∷ 7 ∷ []))
unfolding pull pull_attempt collect after_next is_err
listed_twice = refl

the_entries-Served :
    Served scripted (list_request "projects/foo" "f") an_interruption ((7 ∷ []) ++ (7 ∷ 8 ∷ []))
unfolding is_err
the_entries-Served =
    interrupted (more refl (broken broken_connection refl refl))
      (whole (more refl (more refl (over (sentinel iterator_done) refl refl))))

pull-take_example :
    ((e : Err) × ((pull five_tries a_puller "f" wanted an_interruption).1 ≡ some (err e)))
    ⊎ ((pull five_tries a_puller "f" wanted an_interruption).1
        ≡ some (ok (take wanted ((7 ∷ []) ++ (7 ∷ 8 ∷ [])))))
pull-take_example =
    pull-take five_tries a_puller "f" wanted an_interruption ((7 ∷ []) ++ (7 ∷ 8 ∷ []))
      (tries-IsRetry attempts) the_entries-Served

-- The stream ends when its script is used up.
ended_at : (w : Script) → w ≡ [] → HasEnded a_stream (λ v. v ≡ []) w
unfolding is_err
ended_at [] h = record {
  error = sentinel end_of_file;
  received = refl;
  at_end = refl;
  still = refl;
}
ended_at (x ∷ w) h = cc

tail_attempt-endless_example :
    ((tail_attempt a_stream (tail_request "projects/foo" "f") wanted (7 ∷ [], [])).1 ≡ running)
    × ((tail_attempt a_stream (tail_request "projects/foo" "f") wanted (7 ∷ [], [])).0.0 ≡ 7 ∷ [])
tail_attempt-endless_example =
    tail_attempt-endless a_stream (λ v. v ≡ []) ended_at (tail_request "projects/foo" "f") wanted
      (7 ∷ [], []) refl refl

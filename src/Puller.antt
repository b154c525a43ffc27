-- ===== src/Puller.antt =====
-- pkg/cloudlogging/puller.go: the puller that lists log entries and streams them. The logging client
-- and the retries of the package `retry` are parameters; `W` is what the client acts on, `It` an
-- iterator over a listing, `E` a log entry and `B` a backoff.
pub mod Retries
pub mod Listing
pub mod Script
pub mod Tailing
use lumberjack.Prelude.{
  ℕ, zero, suc, String, Option, none, some, List, [], ◌∷◌, ◌++◌, length, ltb, if◌then◌else◌,
}
use lumberjack.Errors.{Err, wrap, join, Result, ok, err, is_err, iterator_done, end_of_file}
use lumberjack.Puller.Retries.{
  Attempt, finished, retryable, running, Retry, Call, returned, endless,
}

-- `loggingpb.ListLogEntriesRequest` and `loggingpb.TailLogEntriesRequest`, in the fields that the
-- puller sets
pub record ListRequest : Type 0 where
  pub resource_names : List String
  pub filter : String
  pub order_by : String
  pub page_size : ℕ

pub record TailRequest : Type 0 where
  pub resource_names : List String
  pub filter : String

-- the client that `TailLogEntries` makes
pub record TailClient (W E : Type 0) : Type 0 where
  pub send : TailRequest → W → W × Option Err
  pub recv : W → W × Result (List E)
  pub close_send : W → W × Option Err

-- `*logging.Client`, and `Next` of the iterator that it makes
pub record ListClient (W It E : Type 0) : Type 0 where
  pub list_log_entries : ListRequest → W → W × It
  pub next : It → W → (W × It) × Result E
  pub tail_log_entries : W → W × Result (TailClient W E)

pub record Puller (W It E B : Type 0) : Type 0 where
  pub client : ListClient W It E
  pub resource : String
  pub retry : Option B

abbrev pub PullerOption : Type 0 → Type 0 → Type 0 → Type 0 → Type 0
PullerOption W It E B = Puller W It E B → Puller W It E B

abbrev pub backoff_or {ℓ} : {B : Type ℓ} → Option B → B → B
backoff_or none b = b
backoff_or (some b) _ = b

abbrev pub wrap_some : String → Option Err → Option Err
wrap_some message none = none
wrap_some message (some e) = some (wrap message e)

abbrev pub list_request : String → String → ListRequest
list_request resource filter = record {
  resource_names = resource ∷ [];
  filter = filter;
  order_by = "timestamp desc";
  page_size = 1000;
}

abbrev pub tail_request : String → String → TailRequest
tail_request resource filter = record { resource_names = resource ∷ []; filter = filter }

module _ {W It E B : Type 0} where
  -- `WithRetry`
  abbrev pub with_retry : B → PullerOption W It E B
  with_retry b p = record { client = p.client; resource = p.resource; retry = some b }

  unfoldable pub apply_puller_options :
      List (PullerOption W It E B) → Puller W It E B → Puller W It E B
  apply_puller_options [] p = p
  apply_puller_options (o ∷ os) p = apply_puller_options os (o p)

  -- `NewPuller`, with the backoff that it makes when the options give none
  unfoldable pub new_puller :
      B → ListClient W It E → String → List (PullerOption W It E B) → Puller W It E B
  unfolding apply_puller_options
  new_puller fibonacci c resource os =
      let p = apply_puller_options os (record { client = c; resource = resource; retry = none }) in
      record {
        client = p.client;
        resource = p.resource;
        retry = some (backoff_or p.retry fibonacci);
      }

-- The entries that are pulled so far, and the world. `ls` of `Pull` and the channel of `StreamPull`
-- live outside of the function that is retried, which goes on from what they hold.
abbrev pub Pulled : Type 0 → Type 0 → Type 0
Pulled W E = List E × W

module _ {W E : Type 0} where
  -- the branches of the loop on the error of `Next`: an entry is handed on, and else the loop ends
  unfoldable pub after_next :
      Result E → (E → Pulled W E × Attempt) → Pulled W E → Pulled W E × Attempt
  unfolding is_err
  after_next (ok l) go_on s = go_on l
  after_next (err e) go_on s =
      if is_err iterator_done e
      then (s, finished)
      else (s, retryable (wrap "failed to get next log entry: %w, retrying" e))

  abbrev pub pull_result : Pulled W E × Call → W × Option (Result (List E))
  pull_result ((ls, w), returned none) = (w, some (ok ls))
  pull_result ((ls, w), returned (some e)) =
      (w, some (err (wrap "failed to list log entries: %w" e)))
  pull_result ((ls, w), endless) = (w, none)

  -- the branches of the loop of `StreamPull` on what `Recv` returns
  unfoldable pub after_tail :
      Result (List E) → (List E → Pulled W E × Attempt) → Pulled W E → Pulled W E × Attempt
  unfolding is_err
  after_tail (ok entries) go_on s = go_on entries
  after_tail (err e) go_on s =
      let continued = go_on [] in
      if is_err end_of_file e
      then continued
      else (s, retryable (wrap "failed to receive response: %w" e))

  -- the loop of `StreamPull`, for a number of turns
  unfoldable pub tail_loop : TailClient W E → ℕ → Pulled W E → Pulled W E × Attempt
  unfolding after_tail
  tail_loop t zero s = (s, running)
  tail_loop t (suc turns) (sent, w) =
      let r = t.recv w in
      after_tail r.1 (λ entries. tail_loop t turns (sent ++ entries, r.0)) (sent, r.0)

  abbrev pub after_send : Option Err → Pulled W E × Attempt → W → List E → Pulled W E × Attempt
  after_send none rest w sent = rest
  after_send (some e) rest w sent = ((sent, w), retryable (wrap "failed to send request: %w" e))

  -- the function that `StreamPull` retries
  unfoldable pub tail_attempt : TailClient W E → TailRequest → ℕ → Pulled W E → Pulled W E × Attempt
  unfolding tail_loop
  tail_attempt t req turns (sent, w) =
      let s = t.send req w in after_send s.1 (tail_loop t turns (sent, s.0)) s.0 sent

  -- the deferred call of `CloseSend`, after the retries have returned
  abbrev pub close_tail : TailClient W E → Pulled W E × Call → Pulled W E × Call
  close_tail t (s, endless) = (s, endless)
  close_tail t ((sent, w), returned o) =
      let c = t.close_send w in
      (
        (sent, c.0),
        returned (
            join (wrap_some "failed to pull log entries: %w" o)
              (wrap_some "failed to close tailClient %w" c.1)),
      )

  abbrev pub with_tail_client :
      List E
      → W
      → Result (TailClient W E)
      → (TailClient W E → Pulled W E × Call)
      → Pulled W E × Call
  with_tail_client sent w (ok t) next = next t
  with_tail_client sent w (err e) next =
      ((sent, w), returned (some (wrap "failed to create tailLogEntriesClient: %w" e)))

module _ {W It E : Type 0} where
  -- the loop of `Pull`, for a number of turns
  unfoldable pub collect : ListClient W It E → ℕ → ℕ → It → Pulled W E → Pulled W E × Attempt
  unfolding after_next
  collect c zero max_count it s = (s, running)
  collect c (suc turns) max_count it (ls, w) =
      let n = c.next it w in
      let rest =
        after_next n.1 (λ l. collect c turns max_count n.0.1 (ls ++ (l ∷ []), n.0.0)) (ls, n.0.0) in
      if ltb (length ls) max_count then rest else ((ls, w), finished)

  -- the function that `Pull` retries
  unfoldable pub pull_attempt :
      ListClient W It E → ListRequest → ℕ → Pulled W E → Pulled W E × Attempt
  unfolding collect
  pull_attempt c req max_count (ls, w) =
      let listing = c.list_log_entries req w in
      collect c (suc max_count) max_count listing.1 (ls, listing.0)

module _ {W It E B : Type 0} where
  -- `(*Puller).Pull`, of a count that is not negative; `none` is a call that does not return
  unfoldable pub pull :
      Retry (Option B) (Pulled W E)
      → Puller W It E B
      → String
      → ℕ
      → W
      → W × Option (Result (List E))
  unfolding pull_attempt
  pull retry_do p filter max_count w =
      pull_result (
        retry_do p.retry (pull_attempt p.client (list_request p.resource filter) max_count) ([], w))

  -- `(*Puller).StreamPull`, with the entries that its channel has carried before; every attempt makes
  -- at most the given number of turns
  unfoldable pub stream_pull :
      Retry (Option B) (Pulled W E) → Puller W It E B → String → ℕ → Pulled W E → Pulled W E × Call
  unfolding tail_attempt
  stream_pull retry_do p filter turns (sent, w) =
      let made = p.client.tail_log_entries w in
      with_tail_client sent made.0 made.1 (λ t.
        close_tail t
          (retry_do p.retry (tail_attempt t (tail_request p.resource filter) turns) (sent, made.0)))

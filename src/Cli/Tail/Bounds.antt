-- ===== src/Cli/Tail/Bounds.antt =====
-- How many lines a run of pkg/cli/tail.go prints, with the puller of pkg/cloudlogging/puller.go.
use lumberjack.Prelude.{
  ◌≡◌, ◌≢◌, refl, inl, inr, ℕ, suc, ◌+◌, ◌*◌, ◌≤◌, String, Bool, true, false, Option, none, some,
  List, [], ◌∷◌, length, length-append, Bool-cases, arith,
}
use lumberjack.Errors.{Err, Result, ok, err, Result-cases}
use lumberjack.Puller.{Puller, Pulled, pull, stream_pull}
use lumberjack.Puller.Retries.{Retry, Call, returned, endless, IsRetry}
use lumberjack.Puller.Listing.{IsBounded, pull-IsBounded}
use lumberjack.Cli.{Answer}
use lumberjack.Cli.Tail.{
  to_ℕ, TailFlags, LogPuller, LogClient, TailInput, query_filter, report_json, report_validation,
  list_turn, list_pulled, list_answer, list, summary,
}
use lumberjack.Cli.Tail.Run.{
  tail, with_client, with_puller, close_client, run_tail, IsValidTail, run_tail-IsValidTail,
}
use lumberjack.Cli.Tail.Counts.{reports, rejected, list_loop_lem}

-- A puller whose `Pull` returns, with at most as many entries as are asked for.
abbrev pub PullsAtMost : {W E : Type 0} → LogPuller W E → Type 0
PullsAtMost {W = W} p = (filter : String) (n : ℕ) (w : W) → IsBounded n (p.pull filter n w).1

abbrev call_end : Call → Option (Option Err)
call_end (returned o) = some o
call_end endless = none

-- `*cloudlogging.Puller` as a `logPuller`
abbrev pub log_puller :
    {W It E B : Type 0} → Retry (Option B) (Pulled W E) → ℕ → Puller W It E B → LogPuller W E
log_puller retry_do turns p = record {
  pull = pull retry_do p;
  stream_pull = λ filter w.
      let s = stream_pull retry_do p filter turns ([], w) in
      record { world = s.0.1; sent = s.0.0; ended = call_end s.1 };
}

pub log_puller-PullsAtMost :
    {W It E B : Type 0} (retry_do : Retry (Option B) (Pulled W E)) (turns : ℕ) (p : Puller W It E B)
    → IsRetry (retry_do p.retry)
    → PullsAtMost (log_puller retry_do turns p)
log_puller-PullsAtMost retry_do turns p documented filter n w =
    pull-IsBounded retry_do p filter n w documented

-- An answer that is final and has at most so many lines.
abbrev pub PrintsAtMost : {W : Type 0} → ℕ → Answer W → Type 0
PrintsAtMost n a = (a.ended ≢ none) × (length a.lines ≤ n)

module _ {W E : Type 0} (i : TailInput W E) (f : TailFlags) where
  report_validation-short : (id : String) (o : Option Err) → length (report_validation id o).0 ≤ 1
  report_validation-short id none = omega arith
  report_validation-short id (some e) = omega arith

  list_turn-short : (l : E) (r : Result String) → length (list_turn i f l r).0 ≤ 2
  unfolding list_turn report_json
  list_turn-short l (err e) = omega arith
  list_turn-short l (ok js) = elim (Bool-cases f.is_validating) [
    | inl y ↦ rw y (omega (arith, report_validation-short (i.insert_id l) _))
    | inr n ↦ rw n (omega arith)
  ]

  length-reports : (ls : List E) → length (reports i f ls) ≤ 2 * length ls
  length-reports [] = omega arith
  length-reports (l ∷ ls) =
      let r = (list_turn i f l (i.marshal l)).0 in
      omega (
        arith,
        length-append r (reports i f ls),
        list_turn-short l (i.marshal l),
        length-reports ls,
      )

  length-summary : (b : Bool) (n m : ℕ) → length (summary b n m) ≤ 1
  length-summary true n m = omega arith
  length-summary false n m = omega arith

  length-list_pulled : (ls : List E) → length (list_pulled i f ls) ≤ suc (2 * length ls)
  length-list_pulled [] = omega arith
  length-list_pulled (l ∷ ls) = rw (list_loop_lem i f (l ∷ ls) [] 0) (
      let s = summary f.is_validating (0 + rejected i f (l ∷ ls)) (length (l ∷ ls)) in
      omega (
        arith,
        length-append (reports i f (l ∷ ls)) s,
        length-reports (l ∷ ls),
        length-summary f.is_validating (0 + rejected i f (l ∷ ls)) (length (l ∷ ls)),
      ))

  list_answer-short :
      (w : W) (n : ℕ) (o : Option (Result (List E)))
      → IsBounded n o
      → PrintsAtMost (suc (2 * n)) (list_answer i f w o)
  list_answer-short w n none h = absurd h
  list_answer-short w n (some (err e)) h = (λ x. cc, omega arith)
  list_answer-short w n (some (ok ls)) h = (λ x. cc, omega (arith, h, length-list_pulled ls))

  tail-short :
      (p : LogPuller W E) (w : W)
      → f.follow ≡ false
      → PullsAtMost p
      → PrintsAtMost (suc (2 * to_ℕ f.max_num)) (tail i f p w)
  unfolding tail list
  tail-short p w once h = rw once (
      list_answer-short _ (to_ℕ f.max_num) _
        (h (query_filter i.quoted_time_ago f) (to_ℕ f.max_num) w))

  close_client-short :
      (c : LogClient W E) (a : Answer W) (n : ℕ) (o : Option (Option Err))
      → o ≢ none
      → length a.lines ≤ n
      → PrintsAtMost n (close_client i f c a o)
  unfolding close_client
  close_client-short c a n none h k = absurd (h refl)
  close_client-short c a n (some o) h k = (λ x. cc, k)

  with_puller-short :
      (o : Option (LogPuller W E)) (w : W)
      → f.follow ≡ false
      → ((p : LogPuller W E) → o ≡ some p → PullsAtMost p)
      → ((c : LogClient W E) → (i.new_client w).1 ≡ ok c → PullsAtMost (c.new_puller f.scope))
      → PrintsAtMost (suc (2 * to_ℕ f.max_num)) (with_puller i f o w)
  unfolding with_puller with_client
  with_puller-short (some p) w once h k = tail-short p w once (h p refl)
  with_puller-short none w once h k = elim (Result-cases (i.new_client w).1) [
    | inl (e, failed_so) ↦ rw failed_so (λ x. cc, omega arith)
    | inr (c, made) ↦ rw made (
        let (ended, short) = tail-short (c.new_puller f.scope) (i.new_client w).0 once (k c made) in
        close_client-short c _ _ _ ended short)
  ]

at_most_2001 : (f : TailFlags) → IsValidTail f → (n : ℕ) → n ≤ suc (2 * to_ℕ f.max_num) → n ≤ 2001
at_most_2001 f v n h = let h' = rw v.max_num at h in let high = v.at_most in omega (arith, h', high)

-- If every puller that it may use returns at most as many entries as it is asked for, a run of the
-- command without -follow ends, and has printed at most 2001 lines.
pub run_tail-PrintsAtMost :
    {W E : Type 0} (i : TailInput W E) (w : W)
    → ((f : TailFlags) → i.parsed ≡ ok (f, []) → f.follow ≡ false)
    → ((p : LogPuller W E) → i.test_puller ≡ some p → PullsAtMost p)
    → ((c : LogClient W E) (scope : String)
        → (i.new_client w).1 ≡ ok c
        → PullsAtMost (c.new_puller scope))
    → PrintsAtMost 2001 (run_tail i w)
run_tail-PrintsAtMost i w once h k = elim (run_tail-IsValidTail i w) [
  | inl (e, same) ↦ rw same (λ x. cc, omega arith)
  | inr (f, flags, valid, same) ↦
      let (ended, short) =
        with_puller-short i f i.test_puller w (once f flags) h (λ c. k c f.scope) in
      rw same (ended, at_most_2001 f valid _ short)
]

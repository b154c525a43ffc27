-- ===== src/Puller/Listing.antt =====
-- `Pull` of pkg/cloudlogging/puller.go: what it lists, with retries that do as the package `retry`
-- documents.
use lumberjack.Prelude.{
  inl, inr, ℕ, zero, suc, ◌+◌, ◌≤◌, ◌<◌, String, Option, none, some, List, [], ◌∷◌, ◌++◌, length,
  length-append, ltb, Bool-cases, arith,
}
use mathlib.Core.Path.{subst}
use lumberjack.Errors.{Result, ok, err, is_err, iterator_done}
use lumberjack.Puller.{
  ListClient, list_request, Puller, Pulled, after_next, collect, pull_attempt, pull_result, pull,
}
use lumberjack.Puller.Retries.{
  Attempt, finished, retryable, fatal, running, Call, Retry, Retried, IsRetry, context_ended,
  succeeded, refused, gave_up, stuck, again,
}

-- An attempt that does not leave the call running, with no more entries than are wanted.
abbrev Ends : {W E : Type 0} → ℕ → Pulled W E × Attempt → Type 0
Ends max_count ((ls, w), finished) = length ls ≤ max_count
Ends max_count ((ls, w), retryable e) = length ls ≤ max_count
Ends max_count (s, fatal e) = ⊥
Ends max_count (s, running) = ⊥

-- A call that returns no more entries than are wanted, or an error.
abbrev pub IsBounded : {E : Type 0} → ℕ → Option (Result (List E)) → Type 0
IsBounded max_count none = ⊥
IsBounded max_count (some (ok ls)) = length ls ≤ max_count
IsBounded max_count (some (err e)) = Unit

after_next-Ends :
    {W E : Type 0} (max_count : ℕ) (r : Result E) (go_on : E → Pulled W E × Attempt)
    (s : Pulled W E)
    → length s.0 ≤ max_count
    → ((l : E) → Ends max_count (go_on l))
    → Ends max_count (after_next r go_on s)
unfolding after_next
after_next-Ends max_count (ok l) go_on s h k = k l
after_next-Ends max_count (err e) go_on (ls, w) h k = elim (Bool-cases (is_err iterator_done e)) [
  | inl over ↦ rw over h
  | inr broken ↦ rw broken h
]

module _ {W It E : Type 0} (c : ListClient W It E) (max_count : ℕ) where
  collect-Ends :
      (turns : ℕ) (it : It) (ls : List E) (w : W)
      → length ls ≤ max_count
      → max_count < length ls + turns
      → Ends max_count (collect c turns max_count it (ls, w))
  unfolding collect after_next
  collect-Ends zero it ls w h k = absurd (omega arith)
  collect-Ends (suc turns) it ls w h k = elim (Bool-cases (ltb (length ls) max_count)) [
    | inl more ↦ rw more (
        after_next-Ends max_count (c.next it w).1 _ _ h (λ l.
          let n = length-append ls (l ∷ []) in
          collect-Ends turns _ (ls ++ (l ∷ [])) _ (ground arith) (ground arith)))
    | inr full ↦ rw full h
  ]

module _ {W E : Type 0} (max_count : ℕ) {f : Pulled W E → Pulled W E × Attempt} where
  Retried-IsBounded :
      ((ls : List E) (w : W) → length ls ≤ max_count → Ends max_count (f (ls, w)))
      → (ls : List E) (w : W) (r : Pulled W E × Call) → length ls ≤ max_count
      → Retried f (ls, w) r
      → IsBounded max_count (pull_result r).1
  Retried-IsBounded keeps ls w r h (context_ended _ e) = tt
  Retried-IsBounded keeps ls w r h (succeeded _ (ls', w') now) =
      subst (Ends max_count) now (keeps ls w h)
  Retried-IsBounded keeps ls w r h (refused _ s' e now) = tt
  Retried-IsBounded keeps ls w r h (gave_up _ s' e e' now) = tt
  Retried-IsBounded keeps ls w r h (stuck _ s' now) = subst (Ends max_count) now (keeps ls w h)
  Retried-IsBounded keeps ls w r h (again _ (ls', w') e _ now later) =
      Retried-IsBounded keeps ls' w' r (subst (Ends max_count) now (keeps ls w h)) later

module _ {W It E B : Type 0} where
  -- With retries as they are documented, a call of `Pull` returns, and what it returns is an error or
  -- at most as many entries as are wanted.
  pub pull-IsBounded :
      (retry_do : Retry (Option B) (Pulled W E)) (p : Puller W It E B) (filter : String)
      (max_count : ℕ) (w : W)
      → IsRetry (retry_do p.retry)
      → IsBounded max_count (pull retry_do p filter max_count w).1
  unfolding pull pull_attempt
  pull-IsBounded retry_do p filter max_count w documented =
      let c = p.client in
      let req = list_request p.resource filter in
      Retried-IsBounded max_count
        (λ ls w h.
          collect-Ends c max_count (suc max_count) (c.list_log_entries req w).1 ls
            (c.list_log_entries req w).0 h (omega arith))
        [] w _ (omega arith) (documented _ _)

-- ===== src/Puller/Script.antt =====
-- `Pull` of pkg/cloudlogging/puller.go against a listing that is known in advance.
use mathlib.Core.Path.{subst}
use mathlib.Core.List.{append_assoc, append-nil}
use lumberjack.Prelude.{
  ◌≡◌, refl, sym, ap, ◌∙◌, ◌⊎◌, inl, inr, ℕ, zero, suc, ◌+◌, ◌≤◌, ◌<◌, String, true, false, Option,
  none, some, List, [], ◌∷◌, ◌++◌, length, length-append, take, take_all, take-append, ltb,
  Bool-cases, arith,
}
use lumberjack.Errors.{Err, ok, err, wrap, is_err, iterator_done}
use lumberjack.Puller.{
  ListClient, ListRequest, list_request, Puller, Pulled, after_next, collect, pull_attempt,
  pull_result, pull,
}
use lumberjack.Puller.Retries.{
  Attempt, finished, retryable, Call, returned, Retry, Retried, IsRetry, context_ended, succeeded,
  refused, gave_up, stuck, again,
}

-- What the loop returns when the listing ends.
abbrev at_end : Option Err → Attempt
at_end none = finished
at_end (some e) = retryable (wrap "failed to get next log entry: %w, retrying" e)

module _ {W It E : Type 0} (c : ListClient W It E) where
  -- An iterator hands out these entries and then ends, or fails with an error.
  pub data Yields : It → W → List E → W → Option Err → Type 0 where
    over :
        {it it' : It} {w w' : W} (e : Err)
        → c.next it w ≡ ((w', it'), err e)
        → is_err iterator_done e ≡ true
        → Yields it w [] w' none
    broken :
        {it it' : It} {w w' : W} (e : Err)
        → c.next it w ≡ ((w', it'), err e)
        → is_err iterator_done e ≡ false
        → Yields it w [] w' (some e)
    more :
        {it it' : It} {w w' w'' : W} {l : E} {ls : List E} {o : Option Err}
        → c.next it w ≡ ((w', it'), ok l)
        → Yields it' w' ls w'' o
        → Yields it w (l ∷ ls) w'' o

  -- What the listings that are made one after the other hand out, up to the first that does not fail.
  pub data Served (req : ListRequest) : W → List E → Type 0 where
    whole :
        {w w' : W} {es : List E}
        → Yields (c.list_log_entries req w).1 (c.list_log_entries req w).0 es w' none
        → Served req w es
    interrupted :
        {w w' : W} {es more_es : List E} {e : Err}
        → Yields (c.list_log_entries req w).1 (c.list_log_entries req w).0 es w' (some e)
        → Served req w' more_es
        → Served req w (es ++ more_es)

  -- The loop ends with as many entries as are wanted, or as the listing does.
  abbrev Collected : ℕ → List E → W → Option Err → Pulled W E × Attempt → Type 0
  Collected max_count es w o r =
      ((v : W) × (max_count ≤ length es) × (r ≡ ((take max_count es, v), finished)))
      ⊎ ((length es < max_count) × (r ≡ ((es, w), at_end o)))

  module _ (max_count : ℕ) where
    collect-cases :
        (turns : ℕ) (it : It) (w w' : W) (es : List E) (o : Option Err) (ls : List E)
        → length ls ≤ max_count
        → (ltb (length ls) max_count ≡ true
            → Collected max_count (ls ++ es) w' o (collect c (suc turns) max_count it (ls, w)))
        → Collected max_count (ls ++ es) w' o (collect c (suc turns) max_count it (ls, w))
    unfolding collect
    collect-cases turns it w w' es o ls h at_room = elim (Bool-cases (ltb (length ls) max_count)) [
      | inl room ↦ at_room room
      | inr full ↦
          let n : length ls ≡ max_count = ground arith in
          inl (
            w,
            omega (arith, n, length-append ls es),
            rw (full, take-append max_count ls es (omega (arith, n)), take_all max_count ls h),
          )
    ]

    collect-Yields :
        (turns : ℕ) {it : It} {w w' : W} {es : List E} {o : Option Err} (ls : List E)
        → length ls ≤ max_count
        → max_count < length ls + turns
        → Yields it w es w' o
        → Collected max_count (ls ++ es) w' o (collect c turns max_count it (ls, w))
    unfolding collect after_next
    collect-Yields zero ls h k y = absurd (omega arith)
    collect-Yields (suc turns) ls h k (over e now d) =
        collect-cases turns _ _ _ _ none ls h
          (λ room. inr (ground (arith, length-append ls []), rw (room, now, d, append-nil ls)))
    collect-Yields (suc turns) ls h k (broken e now d) =
        collect-cases turns _ _ _ _ (some e) ls h
          (λ room. inr (ground (arith, length-append ls []), rw (room, now, d, append-nil ls)))
    collect-Yields (suc turns) ls h k (more {l = l} {ls = es} now y) =
        collect-cases turns _ _ _ _ _ ls h (λ room.
          let n = length-append ls (l ∷ []) in
          let rest = collect-Yields turns (ls ++ (l ∷ [])) (ground arith) (ground arith) y in
          rw (room, now) (rw (append_assoc ls (l ∷ []) es) at rest))

module _ {W It E : Type 0} (c : ListClient W It E) (req : ListRequest) (max_count : ℕ) where
  -- What is left after an attempt that failed: the entries so far, and listings that hand out the rest.
  record Left (all : List E) (r : Pulled W E × Attempt) : Type 0 where
    pub rest : List E
    pub error : Err
    pub failed_once : r.1 ≡ retryable error
    pub fits : length r.0.0 ≤ max_count
    pub served : Served c req r.0.1 rest
    pub all_kept : r.0.0 ++ rest ≡ all

  attempt-Served :
      (ls : List E) {w : W} {es : List E}
      → length ls ≤ max_count
      → Served c req w es
      → ((v : W) × (pull_attempt c req max_count (ls, w)
            ≡ ((take max_count (ls ++ es), v), finished)))
        ⊎ Left (ls ++ es) (pull_attempt c req max_count (ls, w))
  unfolding pull_attempt
  attempt-Served ls {es = es} h (whole {w' = w'} y) =
      elim (collect-Yields c max_count (suc max_count) ls h (omega arith) y) [
        | inl (v, _, r) ↦ inl (v, r)
        | inr (n, r) ↦ inl (w', rw (r, take_all max_count (ls ++ es) (omega arith)))
      ]
  attempt-Served ls h (interrupted {w' = w'} {es = es} {more_es = more_es} {e = e} y s) =
      let assoc = append_assoc ls es more_es in
      elim (collect-Yields c max_count (suc max_count) ls h (omega arith) y) [
        | inl (v, n, r) ↦ inl (v, rw (r, sym assoc, take-append max_count (ls ++ es) more_es n))
        | inr (n, r) ↦ inr (
            subst (Left (ls ++ (es ++ more_es))) (sym r) (record {
              rest = more_es;
              error = _;
              failed_once = refl;
              fits = omega (arith, n);
              served = s;
              all_kept = assoc;
            }))
      ]

  -- An error, or the first of these entries.
  IsTaken : List E → Pulled W E × Call → Type 0
  IsTaken es ((ls, w), c') =
      ((e : Err) × (c' ≡ returned (some e))) ⊎ ((c' ≡ returned none) × (ls ≡ take max_count es))

  Retried-IsTaken :
      (ls : List E) (w : W) (es : List E) (r : Pulled W E × Call)
      → length ls ≤ max_count
      → Served c req w es
      → Retried (pull_attempt c req max_count) (ls, w) r
      → IsTaken (ls ++ es) r
  unfolding IsTaken
  Retried-IsTaken ls w es r h served (context_ended _ e) = inl (e, refl)
  Retried-IsTaken ls w es r h served (succeeded _ (ls', w') now) =
      elim (attempt-Served ls h served) [
        | inl (v, r) ↦ inr (refl, ap (λ p. p.0.0) (sym now ∙ r))
        | inr left ↦ absurd (let e = left.failed_once in cc)
      ]
  Retried-IsTaken ls w es r h served (refused _ s' e now) = inl (e, refl)
  Retried-IsTaken ls w es r h served (gave_up _ s' e e' now) = inl (e', refl)
  Retried-IsTaken ls w es r h served (stuck _ s' now) = elim (attempt-Served ls h served) [
    | inl (v, r) ↦ absurd cc
    | inr left ↦ absurd (let e = left.failed_once in cc)
  ]
  Retried-IsTaken ls w es r h served (again _ (ls', w') e _ now later) =
      elim (attempt-Served ls h served) [
        | inl (v, finished_so) ↦ absurd cc
        | inr left ↦
            let next = subst (Left (ls ++ es)) now left in
            rw next.all_kept at (Retried-IsTaken ls' w' next.rest r next.fits next.served later)
      ]

  pull_result-IsTaken :
      (es : List E) (r : Pulled W E × Call)
      → IsTaken es r
      → ((e : Err) × ((pull_result r).1 ≡ some (err e)))
        ⊎ ((pull_result r).1 ≡ some (ok (take max_count es)))
  unfolding IsTaken
  pull_result-IsTaken es ((ls, w), c') (inl (e, h)) =
      inl (wrap "failed to list log entries: %w" e, rw h)
  pull_result-IsTaken es ((ls, w), c') (inr (h, taken)) = inr (rw (h, taken))

module _ {W It E B : Type 0} where
  -- If the listings that Pull makes one after the other hand out these entries, up to the end of the
  -- first listing that does not fail, then, with retries as they are documented, Pull returns an error
  -- or the first of the entries, as many as are wanted; so what failed listings handed out stays.
  pub pull-take :
      (retry_do : Retry (Option B) (Pulled W E)) (p : Puller W It E B) (filter : String)
      (max_count : ℕ) (w : W) (es : List E)
      → IsRetry (retry_do p.retry)
      → Served p.client (list_request p.resource filter) w es
      → ((e : Err) × ((pull retry_do p filter max_count w).1 ≡ some (err e)))
        ⊎ ((pull retry_do p filter max_count w).1 ≡ some (ok (take max_count es)))
  unfolding pull
  pull-take retry_do p filter max_count w es documented served =
      let req = list_request p.resource filter in
      pull_result-IsTaken p.client req max_count es _
        (Retried-IsTaken p.client req max_count [] w es _ (omega arith) served (documented _ _))

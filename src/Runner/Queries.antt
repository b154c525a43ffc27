-- ===== src/Runner/Queries.antt =====
-- What a test of integration/testrunner/db.go that passes has found in BigQuery.
use lumberjack.Prelude.{
  ◌≡◌, refl, sym, ap, ◌∙◌, ℕ, ◌≤◌, String, none, some, List, [], All, length, ltb, Bool-cases, inl,
  inr, arith, some_inj,
}
use mathlib.Core.Path.{subst}
use lumberjack.Errors.{ok, err}
use lumberjack.Puller.Retries.{finished, Retry, Call, returned, endless, IsRetry, Retried-nil}
use lumberjack.Runner.{Check, Passes}
use lumberjack.Runner.Db.{
  Query, BigQuery, Rows, RowLib, run_query, enough, query_attempt, check_results, check_rows,
  validate_audit_logs,
}
use lumberjack.Runner.Rows.{IsAuditRow, check_rows_iff}

module _ {W Job It : Type 0} (db : BigQuery W Job It) where
  -- One run of the query returned at least so many rows, all of them audit logs.
  pub record IsFound (lib : RowLib) (q : Query) (want turns : ℕ) (w' : W) : Type 0 where
    pub rows : List String
    pub before : W
    pub queried : run_query db q turns before ≡ (w', some (ok rows))
    pub many : want ≤ length rows
    pub good : All (IsAuditRow lib) rows

  enough-finished :
      (want : ℕ) (results : List String) (x : Rows W) (r : List String × W)
      → enough db want results x ≡ (r, finished)
      → (x ≡ (r.1, some (ok r.0))) × (want ≤ length r.0)
  enough-finished want results (w, none) r h = absurd (let k = ap (λ y. y.1) h in cc)
  enough-finished want results (w, some (err e)) r h = absurd (let k = ap (λ y. y.1) h in cc)
  enough-finished want results (w, some (ok entries)) r h =
      elim (Bool-cases (ltb (length entries) want)) [
        | inl few ↦ absurd (let k = ap (λ y. y.1) (rw few at h) in cc)
        | inr many ↦
            let same = ap (λ y. y.0) (rw many at h) in
            (
              ap (λ y. (y.1, some (ok y.0))) same,
              subst (λ y. want ≤ length y) (ap (λ y. y.0) same) (ground arith),
            )
      ]

  check_results-some :
      (lib : RowLib) (x : (List String × W) × Call) {w' : W} {c : Check (Unit {0})}
      → check_results lib x ≡ (w', some c)
      → Passes c tt
      → (x.1 ≡ returned none) × (x.0.1 ≡ w') × Passes (check_rows lib x.0.0) tt
  check_results-some lib ((rows, w), returned none) h p =
      let same = some_inj (ap (λ y. y.1) h) in
      (refl, ap (λ y. y.0) h, subst (λ c. Passes c tt) (sym same) p)
  check_results-some lib ((rows, w), returned (some e)) {c = c} h p =
      let same = some_inj (ap (λ y. y.1) h) in
      absurd (let k = ap (λ y. y.errors) same ∙ p.no_errors in cc)
  check_results-some lib ((rows, w), endless) h p = absurd (let k = ap (λ y. y.1) h in cc)

  -- With retries as they are documented, validateAuditLogsWithRetries passes only if one run of the
  -- query, the last, returned at least as many rows as are wanted, and every one of them is a log
  -- entry with a log name and a timestamp whose payload is an audit log with an email that can be
  -- parsed, a service, a method and a justification.
  pub validate_audit_logs-Passes :
      {B : Type 0} (lib : RowLib) (retry_do : Retry B (List String × W)) (backoff : B) (q : Query)
      (want turns : ℕ) (w w' : W) (c : Check (Unit {0}))
      → IsRetry (retry_do backoff)
      → validate_audit_logs lib retry_do backoff db q want turns w ≡ (w', some c)
      → Passes c tt
      → IsFound lib q want turns w'
  unfolding validate_audit_logs query_attempt
  validate_audit_logs-Passes lib retry_do backoff q want turns w w' c documented h p =
      let r = retry_do backoff (query_attempt db q want turns) ([], w) in
      let (nil, left, good) = check_results-some lib r h p in
      let (s₀, last) =
        Retried-nil ([], w) r (documented (query_attempt db q want turns) ([], w)) nil in
      let (queried, many) = enough-finished want s₀.0 (run_query db q turns s₀.1) r.0 last in
      record {
        rows = r.0.0;
        before = s₀.1;
        queried = queried ∙ ap (λ x. (x, some (ok r.0.0))) left;
        many = many;
        good = (check_rows_iff lib r.0.0).0 good;
      }

-- ===== src/Runner/Streams.antt =====
-- The subtest of integration/testrunner/grpc.go for a stream of the client that fails.
use lumberjack.Prelude.{
  ◌≡◌, refl, ap, ◌∙◌, ℕ, zero, suc, ◌+◌, String, Bool, true, Option, none, some, List, [], ◌∷◌,
  ◌++◌, nat_eq, Bool-cases, inl, inr, arith, some_inj,
}
use lumberjack.Errors.{Err, Result, ok, err}
use lumberjack.Puller.Retries.{Retry, IsRetry}
use lumberjack.Runner.{Check, Passes, append-nil_left}
use lumberjack.Runner.Settings.{Settings}
use lumberjack.Runner.Db.{BigQuery, RowLib, validate_audit_logs}
use lumberjack.Runner.Queries.{IsFound, validate_audit_logs-Passes}
use lumberjack.Runner.Grpc.{
  Numbers, Talker, Tested, preceded, check_failure, reported, error_of, invalid_argument,
  send_numbers, with_four, test_fail_on_four, make_query_for_grpc,
}

preceded-Passes :
    {W : Type 0} (es : List Err) (x : Tested W) (w' : W) (c : Check (Unit {0}))
    → preceded es x ≡ (w', some c)
    → Passes c tt
    → (es ≡ []) × ((c' : Check (Unit {0})) × (x ≡ (w', some c')) × Passes c' tt)
preceded-Passes es (w, none) w' c h p = absurd (let k = ap (λ y. y.1) h in cc)
preceded-Passes es (w, some d) w' c h p =
    let same = some_inj (ap (λ y. y.1) h) in
    let (first, second) = append-nil_left es d.errors (ap (λ y. y.errors) same ∙ p.no_errors) in
    (
      first,
      (
        d,
        ap (λ y. (y.0, some d)) h,
        record { no_errors = second; ended = ap (λ y. y.result) same ∙ p.ended },
      ),
    )

-- The stream took these numbers for the trace, in this order, each without an error.
abbrev pub Took : {W : Type 0} → Numbers W → String → List ℕ → W → W → Type 0
Took s trace_id [] w u = w ≡ u
Took {W = W} s trace_id (n ∷ ns) w u =
    (v : W) × (s.send n trace_id w ≡ (v, none)) × Took s trace_id ns v u

-- So many numbers, from the given one on.
abbrev count_from : ℕ → ℕ → List ℕ
count_from zero i = []
count_from (suc n) i = i ∷ count_from n (i + 1)

reported-nil : (message : String) (o : Option Err) → reported message o ≡ [] → o ≡ none
reported-nil message none h = refl
reported-nil message (some e) h = absurd (cc)

send_numbers-Took :
    {W : Type 0} (s : Numbers W) (trace_id : String) (n i : ℕ) (es : List Err) (w : W)
    → (send_numbers s trace_id n i es w).1 ≡ []
    → (es ≡ []) × Took s trace_id (count_from n i) w (send_numbers s trace_id n i es w).0
unfolding send_numbers
send_numbers-Took s trace_id zero i es w h = (h, refl)
send_numbers-Took s trace_id (suc n) i es w h =
    let message : String = "sending value to addition failed: %v" in
    let r = s.send i trace_id w in
    let (first, rest) = send_numbers-Took s trace_id n (i + 1) (es ++ reported message r.1) r.0 h in
    let (before, clean) = append-nil_left es (reported message r.1) first in
    (before, (r.0, ap (λ o. (r.0, o)) (reported-nil message r.1 clean), rest))

module _ (from_error : Err → ℕ × Bool) where
  check_failure-nil :
      (code : ℕ) (o : Option Err)
      → check_failure from_error code o ≡ []
      → (e : Err) × (o ≡ some e) × ((from_error e).0 ≡ code) × ((from_error e).1 ≡ true)
  unfolding check_failure
  check_failure-nil code none h = absurd (cc)
  check_failure-nil code (some e) h = elim (Bool-cases (from_error e).1) [
    | inl known ↦ elim (Bool-cases (nat_eq (from_error e).0 code)) [
      | inl same ↦ (e, refl, ground arith, known)
      | inr other ↦ absurd (let h' = rw (known, other) at h in cc)
    ]
    | inr strange ↦ absurd (let h' = rw strange at h in cc)
  ]

  error_of-some : (r : Result ℕ) (e : Err) → error_of r ≡ some e → r ≡ err e
  error_of-some (ok n) e h = absurd (cc)
  error_of-some (err x) e h = ap err (some_inj h)

  -- A stream that took the numbers from 1 to 5, and then answered with the code INVALID_ARGUMENT.
  pub record IsRefused {W : Type 0} (t : Talker W) (trace_id : String) (w w' : W) : Type 0 where
    pub opened : W
    pub stream : Numbers W
    pub opens : t.fail_on_four w ≡ (opened, ok stream)
    pub full : W
    pub sent : Took stream trace_id (1 ∷ 2 ∷ 3 ∷ 4 ∷ 5 ∷ []) opened full
    pub error : Err
    pub closed : stream.close_and_recv full ≡ (w', err error)
    pub code : (from_error error).0 ≡ 3
    pub known : (from_error error).1 ≡ true

  module _ {W : Type 0} (t : Talker W) (trace_id : String) (validate : ℕ → W → Tested W) where
    with_four-Passes :
        (w : W) (x : W × Result (Numbers W)) (w' : W) (c : Check (Unit {0}))
        → t.fail_on_four w ≡ x
        → with_four from_error t trace_id validate x ≡ (w', some c)
        → Passes c tt
        → (v : W) × IsRefused t trace_id w v
          × ((c' : Check (Unit {0})) × (validate 4 v ≡ (w', some c')) × Passes c' tt)
    with_four-Passes w (v, err e) w' c called h p =
        let same = some_inj (ap (λ y. y.1) h) in
        absurd (let k = ap (λ y. y.errors) same ∙ p.no_errors in cc)
    with_four-Passes w (v, ok s) w' c called h p =
        let sends = send_numbers s trace_id 5 1 [] v in
        let answer = s.close_and_recv sends.0 in
        let failure = check_failure from_error invalid_argument (error_of answer.1) in
        let (clean, rest) = preceded-Passes (sends.1 ++ failure) (validate 4 answer.0) w' c h p in
        let (sent, expected) = append-nil_left sends.1 failure clean in
        let (e, there, code, known) =
          check_failure-nil invalid_argument (error_of answer.1) expected in
        let refused : IsRefused t trace_id w answer.0 = record {
          opened = v;
          stream = s;
          opens = called;
          full = sends.0;
          sent = (send_numbers-Took s trace_id 5 1 [] v sent).1;
          error = e;
          closed = ap (λ y. (answer.0, y)) (error_of-some answer.1 e there);
          code = code;
          known = known;
        } in
        (answer.0, refused, rest)

  -- With retries as they are documented, the subtest fail_on_four_req_client_stream_failure passes
  -- only if the stream took the numbers from 1 to 5 and then answered with the code INVALID_ARGUMENT,
  -- and the query for the trace found at least four rows, and audit logs alone.
  pub test_fail_on_four-Passes :
      {W Job It B : Type 0} (t : Talker W) (trace_id : String) (rows : RowLib)
      (retry_do : Retry B (List String × W)) (b : B) (db : BigQuery W Job It) (s : Settings)
      (turns : ℕ) (w w' : W) (c : Check (Unit {0}))
      → IsRetry (retry_do b)
      → test_fail_on_four from_error t trace_id
          (λ want.
            validate_audit_logs rows retry_do b db (make_query_for_grpc s trace_id) want turns)
          w
        ≡ (w', some c)
      → Passes c tt
      → (v : W) × IsRefused t trace_id w v
        × IsFound db rows (make_query_for_grpc s trace_id) 4 turns w'
  unfolding test_fail_on_four
  test_fail_on_four-Passes t trace_id rows retry_do b db s turns w w' c d h p =
      let (v, refused, (c', validated, passes)) =
        with_four-Passes t trace_id
          (λ want.
            validate_audit_logs rows retry_do b db (make_query_for_grpc s trace_id) want turns)
          w (t.fail_on_four w) w' c refl h p in
      (
        v,
        refused,
        validate_audit_logs-Passes db rows retry_do b (make_query_for_grpc s trace_id) 4 turns v w'
            c' d validated passes,
      )

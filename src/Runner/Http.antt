-- ===== src/Runner/Http.antt =====
-- integration/testrunner/http.go: the test of a service with an HTTP endpoint.
use Prim.Native.String.{◌++◌ as ◌<>◌}
use lumberjack.Prelude.{
  ◌≡◌, refl, ap, ◌∙◌, ℕ, String, Option, none, some, List, [], nat_eq, if◌then◌else◌, Bool-cases,
  inl, inr, arith, some_inj,
}
use lumberjack.Errors.{Err, errorf, wrap, Result, ok, err}
use lumberjack.Puller.Retries.{
  Attempt, finished, retryable, fatal, Retry, Call, returned, endless, IsRetry, Retried-nil,
}
use lumberjack.Runner.{Check, Passes, fatal as fatal_check}
use lumberjack.Runner.Settings.{Settings, TokenLib, TestConfig, justification_token}
use lumberjack.Runner.Db.{BigQuery, Query, RowLib, make_query, validate_audit_logs}
use lumberjack.Runner.Queries.{IsFound, validate_audit_logs-Passes}

-- `*http.Request`, in the parts that are set: the URL's query has the trace's identifier
pub record HttpRequest : Type 0 where
  pub url : String
  pub trace_id : String
  pub justification_token : String
  pub authorization : String
  pub timeout : ℕ

-- `*http.Response`, with what reading the body returns
pub record HttpResponse : Type 0 where
  pub status_code : ℕ
  pub body : Result String

-- `http.NewRequestWithContext`, the clock and the source of identifiers, and `(*http.Client).Do`
pub record HttpLib (W : Type 0) : Type 0 where
  pub new_request : String → Option Err
  pub now_and_id : W → W × ℕ × String
  pub do_request : HttpRequest → W → W × Result HttpResponse

-- the text of a query, on the table of the data set, with the text at its end
abbrev pub query_text : String → String → String → String → String
query_text condition project_id dataset end =
    "WITH temptable AS (\n\t\tSELECT *\n\t\tFROM `"
    <> (project_id
        <> ("."
            <> (dataset
                <> ("`\n\t\tWHERE "
                    <> (condition
                        <> (" = ?\n \t)\n \tSELECT TO_JSON(t) AS result FROM temptable AS t\n"
                            <> end))))))

-- `makeQueryForHTTP`
unfoldable pub make_query_for_http : Settings → String → Query
make_query_for_http s trace_id =
    make_query trace_id (query_text "labels.trace_id" s.project_id s.big_query_dataset "\t")

module _ {W : Type 0} (lib : TokenLib) (http : HttpLib W) (cfg : TestConfig lib) where
  abbrev pub request_of : String → String → String → HttpRequest
  request_of endpoint trace_id token = record {
    url = endpoint;
    trace_id = trace_id;
    justification_token = token;
    authorization = "Bearer " <> cfg.settings.id_token;
    timeout = cfg.settings.audit_log_request_timeout;
  }

  abbrev pub wrap_response : W × Result HttpResponse → W × Result HttpResponse
  wrap_response (w, err e) = (w, err (wrap "failed to execute audit log request: %w" e))
  wrap_response (w, ok r) = (w, ok r)

  abbrev pub with_signed_token : String → String → Result String → W → W × Result HttpResponse
  with_signed_token endpoint trace_id (err e) w =
      (w, err (wrap "couldn't generate justification token: %w" e))
  with_signed_token endpoint trace_id (ok token) w =
      wrap_response (http.do_request (request_of endpoint trace_id token) w)

  abbrev pub requested : String → String → Option Err → W → W × Result HttpResponse
  requested endpoint trace_id (some e) w =
      (w, err (wrap "failed to create audit log http request: %w" e))
  requested endpoint trace_id none w =
      let n = http.now_and_id w in
      with_signed_token endpoint trace_id
        (justification_token lib n.1 n.2 "logging-shell" cfg.settings.justification_subject
          cfg.private_key)
        n.0

  -- `makeHTTPAuditLogRequest`
  unfoldable pub make_http_audit_log_request : String → String → W → W × Result HttpResponse
  make_http_audit_log_request endpoint trace_id w =
      requested endpoint trace_id (http.new_request endpoint) w

  abbrev pub bad_response : Result String → Attempt
  bad_response (err e) = retryable (wrap "failed to read response body: %w" e)
  bad_response (ok b) = retryable (errorf "audit logging failed, retrying" [])

  abbrev pub judge : W × Result HttpResponse → W × Attempt
  judge (w, err e) = (w, fatal (wrap "failed to make audit log request: %w" e))
  judge (w, ok r) = if nat_eq r.status_code 200 then (w, finished) else (w, bad_response r.body)

  -- the function that is retried
  unfoldable pub http_attempt : String → String → W → W × Attempt
  unfolding make_http_audit_log_request
  http_attempt endpoint trace_id w = judge (make_http_audit_log_request endpoint trace_id w)

  abbrev pub then_validate :
      W × Call → (W → W × Option (Check (Unit {0}))) → W × Option (Check (Unit {0}))
  then_validate (w, returned none) next = next w
  then_validate (w, returned (some e)) next = (w, some (fatal_check e))
  then_validate (w, endless) next = (w, none)

  -- `testHTTPEndpoint`, after the trace's identifier and the backoffs are made
  unfoldable pub test_http_endpoint :
      {B C Job It : Type 0}
      → Retry B W
      → B
      → Retry C (List String × W)
      → C
      → RowLib
      → BigQuery W Job It
      → ℕ
      → String
      → String
      → W
      → W × Option (Check (Unit {0}))
  unfolding http_attempt make_query_for_http
  test_http_endpoint retry_http b retry_db c rows db turns endpoint trace_id w =
      then_validate (retry_http b (http_attempt endpoint trace_id) w) (λ w'.
        validate_audit_logs rows retry_db c db (make_query_for_http cfg.settings trace_id) 1 turns
          w')

  -- One call of the endpoint was answered with the status 200.
  pub record IsAnswered (endpoint trace_id : String) : Type 0 where
    pub before : W
    pub after : W
    pub response : HttpResponse
    pub answered : make_http_audit_log_request endpoint trace_id before ≡ (after, ok response)
    pub succeeded : response.status_code ≡ 200

  judge-finished :
      (x : W × Result HttpResponse) (w : W)
      → judge x ≡ (w, finished)
      → (r : HttpResponse) × (x ≡ (w, ok r)) × (r.status_code ≡ 200)
  judge-finished (v, err e) w h = absurd (let k = ap (λ y. y.1) h in cc)
  judge-finished (v, ok r) w h = elim (Bool-cases (nat_eq r.status_code 200)) [
    | inl b ↦ let same = ap (λ y. y.0) (rw b at h) in (r, ap (λ y. (y, ok r)) same, ground arith)
    | inr b ↦ absurd (bad_response-ne r.body (ap (λ y. y.1) (rw b at h)))
  ]
    where
      bad_response-ne : (b : Result String) → bad_response b ≡ finished → ⊥
      bad_response-ne (err e) k = cc
      bad_response-ne (ok b) k = cc

  then_validate-some :
      (x : W × Call) (next : W → W × Option (Check (Unit {0}))) (w' : W) (c : Check (Unit {0}))
      → then_validate x next ≡ (w', some c)
      → Passes c tt
      → (x.1 ≡ returned none) × (next x.0 ≡ (w', some c))
  then_validate-some (w, returned none) next w' c h p = (refl, h)
  then_validate-some (w, returned (some e)) next w' c h p =
      let same = some_inj (ap (λ y. y.1) h) in
      absurd (let k = ap (λ y. y.errors) same ∙ p.no_errors in cc)
  then_validate-some (w, endless) next w' c h p = absurd (let k = ap (λ y. y.1) h in cc)

  -- With retries as they are documented, the test of an HTTP endpoint passes only if one call of the
  -- endpoint was answered with the status 200, and the query for the trace found at least one row,
  -- and audit logs alone.
  pub test_http_endpoint-Passes :
      {B C Job It : Type 0} (retry_http : Retry B W) (b : B) (retry_db : Retry C (List String × W))
      (c : C) (rows : RowLib) (db : BigQuery W Job It) (turns : ℕ) (endpoint trace_id : String)
      (w w' : W) (x : Check (Unit {0}))
      → IsRetry (retry_http b)
      → IsRetry (retry_db c)
      → test_http_endpoint retry_http b retry_db c rows db turns endpoint trace_id w ≡ (w', some x)
      → Passes x tt
      → IsAnswered endpoint trace_id
        × IsFound db rows (make_query_for_http cfg.settings trace_id) 1 turns w'
  unfolding test_http_endpoint http_attempt
  test_http_endpoint-Passes retry_http b retry_db c rows db turns endpoint trace_id w w' x d e h p =
      let r = retry_http b (http_attempt endpoint trace_id) w in
      let (nil, validated) = then_validate-some r _ w' x h p in
      let (w₀, last) = Retried-nil w r (d (http_attempt endpoint trace_id) w) nil in
      let (response, answered, succeeded) =
        judge-finished (make_http_audit_log_request endpoint trace_id w₀) r.0 last in
      (
        record {
          before = w₀;
          after = r.0;
          response = response;
          answered = answered;
          succeeded = succeeded;
        },
        validate_audit_logs-Passes db rows retry_db c (make_query_for_http cfg.settings trace_id) 1
            turns r.0 w' x e validated p,
      )

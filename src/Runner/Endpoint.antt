-- ===== src/Runner/Endpoint.antt =====
-- integration/testrunner/grpc.go: the connection to a service, and the test of an endpoint, whose
-- result is its subtests. They run side by side; the model has each by itself. gRPC's connections and
-- the generated client on one are parameters.
use Prim.Native.String.{◌++◌ as ◌<>◌}
use lumberjack.Prelude.{
  ◌≡◌, refl, sym, ap, ◌∙◌, ℕ, String, Bool, Option, none, some, List, [], ◌∷◌, starts_with,
  if◌then◌else◌, some_inj,
}
use lumberjack.Errors.{Err, wrap, Result, ok, err}
use lumberjack.Security.{slice_from}
use lumberjack.Puller.Retries.{Retry}
use lumberjack.Runner.{Check, Passes, pass, fatal, and_then, and_then-Passes}
use lumberjack.Runner.Settings.{Settings, TokenLib, TestConfig, justification_token}
use lumberjack.Runner.Db.{BigQuery, RowLib, validate_audit_logs}
use lumberjack.Runner.Grpc.{
  Tested, Talker, make_query_for_grpc, test_hello, test_fail, test_fibonacci, test_addition,
  test_fail_on_four,
}

-- `createConnection`: the system's certificates, and `grpc.NewClient` with TLS and this token
pub record Dialer : Type 1 where
  pub Roots : Type 0
  pub Connection : Type 0
  pub system_cert_pool : Result Roots
  pub new_client : String → String → Roots → Result Connection

abbrev pub or_whole : String → Option String → String
or_whole s none = s
or_whole s (some rest) = rest

-- `strings.TrimPrefix` of "https://", and the port
unfoldable pub dialled_address : String → String
unfolding slice_from
dialled_address addr =
    (if starts_with addr "https://" then or_whole addr (slice_from 8 addr) else addr) <> ":443"

module _ (d : Dialer) where
  abbrev dialled : Result d.Connection → Check d.Connection
  dialled (err e) = fatal (wrap "did not connect: %v" e)
  dialled (ok c) = pass c

  abbrev pub connected : String → String → Result d.Roots → Check d.Connection
  connected addr token (err e) = fatal (wrap "failed to load system cert pool: %v" e)
  connected addr token (ok pool) = dialled (d.new_client addr token pool)

  unfoldable pub create_connection : String → String → Check d.Connection
  unfolding dialled_address
  create_connection addr token = connected (dialled_address addr) token d.system_cert_pool

  dialled-Passes : (r : Result d.Connection) (c : d.Connection) → Passes (dialled r) c → r ≡ ok c
  dialled-Passes (err e) c p = absurd (let h = p.no_errors in cc)
  dialled-Passes (ok c') c p = ap ok (some_inj p.ended)

  connected-Passes :
      (addr token : String) (r : Result d.Roots) (c : d.Connection)
      → Passes (connected addr token r) c
      → (roots : d.Roots) × (r ≡ ok roots) × (d.new_client addr token roots ≡ ok c)
  connected-Passes addr token (err e) c p = absurd (let h = p.no_errors in cc)
  connected-Passes addr token (ok roots) c p =
      (roots, refl, dialled-Passes (d.new_client addr token roots) c p)

-- A subtest: its name, and what it does.
abbrev pub Subtest : Type 0 → Type 0
Subtest W = String × (W → Tested W)

-- The parameters of the subtests: `status.FromError`, the identifiers of their traces, and what
-- looks for a trace's rows.
module _ {W Job It B : Type 0} (from_error : Err → ℕ × Bool) (trace_of : String → String)
    (rows : RowLib) (retry_do : Retry B (List String × W)) (backoff : B) (db : BigQuery W Job It)
    (turns : ℕ) where
  abbrev validate_trace : Settings → String → ℕ → W → Tested W
  validate_trace s trace_id want =
      validate_audit_logs rows retry_do backoff db (make_query_for_grpc s trace_id) want turns

  -- A subtest by its name, with the identifier of a trace of its own.
  abbrev subtest : Settings → String → (String → (ℕ → W → Tested W) → W → Tested W) → Subtest W
  subtest s name test =
      let trace_id = trace_of name in (name, test trace_id (validate_trace s trace_id))

  unfoldable pub subtests : Settings → Talker W → List (Subtest W)
  unfolding test_hello test_fail test_fibonacci test_addition test_fail_on_four
  subtests s t =
      subtest s "hello_req_unary_success" (test_hello from_error t)
      ∷ subtest s "fail_req_unary_failure" (test_fail from_error t)
      ∷ subtest s "fibonacci_req_server_streaming_success"
          (λ id validate. test_fibonacci from_error t id validate turns)
      ∷ subtest s "addition_req_client_streaming_success" (test_addition from_error t)
      ∷ subtest s "fail_on_four_req_client_stream_failure" (test_fail_on_four from_error t)
      ∷ []

  -- The client puts the token in the metadata of its calls.
  abbrev pub with_token : Settings → (String → Talker W) → Result String → Check (List (Subtest W))
  with_token s talker_with (err e) = fatal (wrap "couldn't generate justification token: %v" e)
  with_token s talker_with (ok token) = pass (subtests s (talker_with token))

  with_token-Passes :
      (s : Settings) (talker_with : String → Talker W) (r : Result String) (ts : List (Subtest W))
      → Passes (with_token s talker_with r) ts
      → (token : String) × (r ≡ ok token) × (ts ≡ subtests s (talker_with token))
  with_token-Passes s talker_with (err e) ts p = absurd (let h = p.no_errors in cc)
  with_token-Passes s talker_with (ok token) ts p = (token, refl, sym (some_inj p.ended))

  module _ (d : Dialer) (new_talker_client : d.Connection → String → Talker W) where
    -- A client that is given, or one on a new connection.
    abbrev pub client_of : Option (String → Talker W) → String → String → Check (String → Talker W)
    client_of (some t) endpoint id_token = pass t
    client_of none endpoint id_token =
        and_then (create_connection d endpoint id_token) (λ conn. pass (new_talker_client conn))

    -- `testGRPCEndpoint`, at a time and with a new identifier for the token
    unfoldable pub test_grpc_endpoint :
        (lib : TokenLib)
        → TestConfig lib
        → Option (String → Talker W)
        → String
        → ℕ
        → String
        → Check (List (Subtest W))
    unfolding create_connection subtests
    test_grpc_endpoint lib cfg client endpoint now id =
        and_then (client_of client endpoint cfg.settings.id_token) (λ t. with_token cfg.settings t (
          justification_token lib now id "talker-app" cfg.settings.justification_subject
            cfg.private_key))

    -- Without a client the subtests run only if there are the system's certificates, a connection to
    -- the endpoint's address made with them and the ID token, and a justification token; they are run
    -- on a client of that connection that carries that token.
    test_grpc_endpoint-Passes :
        (lib : TokenLib) (cfg : TestConfig lib) (endpoint : String) (now : ℕ) (id : String)
        (ts : List (Subtest W))
        → Passes (test_grpc_endpoint lib cfg none endpoint now id) ts
        → (roots : d.Roots) × (d.system_cert_pool ≡ ok roots)
          × ((conn : d.Connection) × (d.new_client
                  (dialled_address endpoint)
                  cfg.settings.id_token
                  roots
                ≡ ok conn)
              × ((token : String) × (justification_token lib now id "talker-app"
                      cfg.settings.justification_subject cfg.private_key
                    ≡ ok token)
                  × (ts ≡ subtests cfg.settings (new_talker_client conn token))))
    unfolding test_grpc_endpoint create_connection
    test_grpc_endpoint-Passes lib cfg endpoint now id ts p =
        let jwt = cfg.settings.id_token in
        let (t, client, rest) = and_then-Passes (client_of none endpoint jwt) _ p in
        let (conn, connection, made) =
          and_then-Passes (create_connection d endpoint jwt) (λ c. pass (new_talker_client c))
            client in
        let (roots, loaded, dialed) =
          connected-Passes d (dialled_address endpoint) jwt d.system_cert_pool conn connection in
        let (token, signed, run) = with_token-Passes cfg.settings t _ ts rest in
        let same = some_inj made.ended in
        (
          roots,
          loaded,
          (
            conn,
            dialed,
            (token, signed, run ∙ ap (λ f. subtests cfg.settings (f token)) (sym same)),
          ),
        )

-- ===== src/Tests/Checking.antt =====
-- The tests of integration/testrunner against a service and a data set that answer as they should.
use lumberjack.Prelude.{
  ◌≡◌, ◌↔◌, refl, ℕ, zero, suc, String, Bool, true, none, some, List, [], ◌∷◌, All,
}
use lumberjack.Errors.{Err, sentinel, iterator_done, is_err, Result, ok, err, errorf, wrap}
use lumberjack.Api.{AuditLog}
use lumberjack.Api.Values.{string_value, fields, field, no_fields, get_field}
use lumberjack.Puller.Retries.{Retry}
use lumberjack.Runner.{Passes, fatal, pass}
use lumberjack.Runner.Settings.{
  Settings, TokenLib, TestConfig, justification_token, parse_private_key,
}
use lumberjack.Runner.Db.{BigQuery, RowLib, check_rows, validate_audit_logs}
use lumberjack.Runner.Rows.{IsAuditRow, check_rows_iff}
use lumberjack.Runner.Queries.{IsFound}
use lumberjack.Runner.Http.{
  HttpLib, IsAnswered, make_query_for_http, test_http_endpoint, test_http_endpoint-Passes,
}
use lumberjack.Runner.Grpc.{Numbers, Talker, make_query_for_grpc, test_fail_on_four}
use lumberjack.Runner.Endpoint.{Dialer, dialled_address, test_grpc_endpoint}
use lumberjack.Runner.Streams.{IsRefused, test_fail_on_four-Passes}
use lumberjack.Tests.{a_payload}
use lumberjack.Tests.Pulling.{tries, tries-IsRetry}

abbrev justified : AuditLog
justified = record a_payload {
  metadata = some (fields (field "justification" (string_value "ticket") no_fields));
}

abbrev rows : RowLib
rows = record {
  parse_entry = λ row. ok (record { log_name = "log"; timestamp = some 7; json_payload = none });
  print_payload = λ s. ok "{}";
  parse_audit_log = λ b. ok justified;
  print_value = λ v. ok "{\"value\":\"ticket\"}";
  parse_address = λ email. none;
}

check_rows_iff_example : Passes (check_rows rows ("{}" ∷ [])) tt ↔ All (IsAuditRow rows) ("{}" ∷ [])
check_rows_iff_example = check_rows_iff rows ("{}" ∷ [])

abbrev next_row : ℕ → ℕ → (ℕ × ℕ) × Result String
next_row zero w = ((w, zero), err (sentinel iterator_done))
next_row (suc n) w = ((suc w, n), ok "{}")

-- A query finds four rows; the world counts the rows that are read.
abbrev four_rows : BigQuery ℕ ℕ ℕ
four_rows = record {
  run = λ q w. (w, ok 0);
  wait = λ job w. (w, ok none);
  read = λ job w. (w, ok 4);
  next = next_row;
}

abbrev tokens : TokenLib
tokens = record {
  Key = String;
  Token = String;
  Headers = String;
  read_file = λ path. ok "no block";
  decode_pem = λ b. none;
  parse_ec_private_key = λ b. ok b;
  build = λ claims. ok claims.subject;
  set_justifications = λ t js. ok t;
  set_key_id = λ id. ok id;
  sign = λ t k h. ok t;
}

-- A file without a PEM block.
no_block : parse_private_key tokens "key" ≡ none
unfolding parse_private_key
no_block = refl

abbrev settings : Settings
settings = record {
  audit_log_request_timeout = 30;
  audit_log_request_wait = 4;
  http_endpoints = "https://shell";
  grpc_endpoints = "https://talker";
  log_routing_wait = 5;
  max_audit_log_request_tries = 4;
  max_db_query_tries = 100;
  justification_subject = "user@example.com";
  id_token = "token";
  project_id = "project";
  big_query_dataset = "set";
  private_key_file_path = "key";
}

abbrev config : TestConfig tokens
config = record { settings = settings; private_key = "key" }

abbrev http : HttpLib ℕ
http = record {
  new_request = λ url. none;
  now_and_id = λ w. (w, 7, "id");
  do_request = λ r w. (suc w, ok (record { status_code = 200; body = ok "" }));
}

abbrev retries : Retry ℕ ℕ
retries b = tries 2

abbrev db_retries : Retry ℕ (List String × ℕ)
db_retries b = tries 2

http_test :
    test_http_endpoint tokens http config retries 0 db_retries 0 rows four_rows 5 "https://shell"
      "id" 0
    ≡ (5, some (pass tt))
unfolding test_http_endpoint justification_token validate_audit_logs is_err get_field
http_test = refl

test_http_endpoint-Passes_example :
    IsAnswered tokens http config "https://shell" "id"
    × IsFound four_rows rows (make_query_for_http settings "id") 1 5 5
test_http_endpoint-Passes_example =
    test_http_endpoint-Passes tokens http config retries 0 db_retries 0 rows four_rows 5
      "https://shell" "id" 0 5 (pass tt) (tries-IsRetry 2) (tries-IsRetry 2) http_test
      (record { no_errors = refl; ended = refl })

abbrev refusing : Numbers ℕ
refusing = record {
  send = λ n id w. (w, none);
  close_and_recv = λ w. (w, err (errorf "value 4" []));
}

abbrev talker : Talker ℕ
talker = record {
  hello = λ id w. (w, none);
  fail = λ id w. (w, none);
  fibonacci = λ n id w. (w, err (errorf "unused" []));
  addition = λ w. (w, err (errorf "unused" []));
  fail_on_four = λ w. (w, ok refusing);
}

abbrev invalid : Err → ℕ × Bool
invalid e = (3, true)

four_test :
    test_fail_on_four invalid talker "id"
      (λ want.
        validate_audit_logs rows db_retries 0 four_rows (make_query_for_grpc settings "id") want 5)
      0
    ≡ (4, some (pass tt))
unfolding test_fail_on_four validate_audit_logs is_err get_field
four_test = refl

test_fail_on_four-Passes_example :
    (v : ℕ) × IsRefused invalid talker "id" 0 v
    × IsFound four_rows rows (make_query_for_grpc settings "id") 4 5 4
test_fail_on_four-Passes_example =
    test_fail_on_four-Passes invalid talker "id" rows db_retries 0 four_rows settings 5 0 4
      (pass tt) (tries-IsRetry 2) four_test (record { no_errors = refl; ended = refl })

-- The scheme goes, and the port comes.
an_address : dialled_address "https://a.run.app" ≡ "a.run.app:443"
unfolding dialled_address
an_address = refl

abbrev dialer : Dialer
dialer = record {
  Roots = String;
  Connection = String;
  system_cert_pool = ok "roots";
  new_client = λ addr token roots. ok addr;
}

-- A missing certificate pool stops the test before the token is made.
no_roots :
    test_grpc_endpoint invalid
      (λ name. name)
      rows
      db_retries
      0
      four_rows
      5
      (record dialer { system_cert_pool = err (errorf "no roots" []) })
      (λ conn token. talker)
      tokens
      config
      none
      "https://a.run.app"
      7
      "id"
    ≡ fatal (wrap "failed to load system cert pool: %v" (errorf "no roots" []))
unfolding test_grpc_endpoint
no_roots = refl

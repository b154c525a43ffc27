-- ===== src/Tests.antt =====
-- Concrete data for the tests of the library's modules: a client whose world is the list of the
-- requests' contents that it logged, and the parameters of the models as small functions.
pub mod Logging
pub mod Intercepting
pub mod Streaming
pub mod Choosing
pub mod Processing
pub mod Remoting
pub mod Securing
pub mod Pulling
pub mod Commanding
pub mod Configuring
pub mod Running
pub mod Delivering
pub mod Checking
use lumberjack.Prelude.{ℕ, String, Bool, true, false, ◌==◌, Option, none, some, List, [], ◌∷◌, ◌++◌}
use lumberjack.Errors.{Err, sentinel, not_exist, Result, ok, err, done, failed}
use lumberjack.Api.{
  AuditLog, AuditLogRequest, LogMode, fail_close, best_effort, data_access, RpcStatus,
}
use lumberjack.Api.Values.{Struct, fields, no_fields, field, string_value}
use lumberjack.Config.{AuditRule}
use lumberjack.Client.{Processor, Client, request_validator}
use lumberjack.Interceptor.{Interceptor, Handled}
use lumberjack.Interceptor.Convert.{GoValues, empty_map}
use lumberjack.Interceptor.Streams.Ledger.{logged_request}
use lumberjack.Interceptor.Setup.{Metadata, ErrorTexts}

abbrev pub method : String
method = "/pkg.Talker/Hello"

abbrev pub a_payload : AuditLog
a_payload = record {
  service_name = "pkg.Talker";
  method_name = method;
  resource_name = "greeting";
  authentication_info = some "user@example.com";
  status = none;
  request = none;
  response = none;
  metadata = none;
  request_metadata = none;
}

abbrev pub a_request : AuditLogRequest
a_request = record {
  log_type = data_access;
  payload = some a_payload;
  labels = some (("env", "prod") ∷ []);
  mode = fail_close;
  operation = none;
  timestamp = some 7;
  request_context = none;
  justification_token = "token";
}

abbrev pub bare_request : AuditLogRequest
bare_request = record a_request { payload = none }

-- The backend appends the request's content to the world.
abbrev pub recorder : Processor (List Struct)
recorder = record {
  process = λ r w. record { world = w ++ logged_request r; request = r; exit = done };
  stop = some (λ w. (w, none));
}

abbrev pub breaker : Processor (List Struct)
breaker = record {
  process = λ r w. record { world = w; request = r; exit = failed (sentinel not_exist) };
  stop = some (λ w. (w, some (sentinel not_exist)));
}

abbrev pub recording : Client (List Struct)
recording = record {
  validators = [];
  mutators = [];
  backends = recorder ∷ [];
  log_mode = best_effort;
}

abbrev pub breaking : Client (List Struct)
breaking = record {
  validators = request_validator ∷ [];
  mutators = [];
  backends = recorder ∷ breaker ∷ [];
  log_mode = fail_close;
}

-- Every Go value is a struct already.
abbrev pub structs : GoValues
structs = record {
  Any = Struct;
  nil = fields no_fields;
  as_struct = λ s. some s;
  marshal = λ s. ok "{}";
  unmarshal = λ b. ok empty_map;
}

abbrev pub texts : ErrorTexts
texts = record { from_error = λ e. none; text = λ e. "error" }

abbrev pub a_rule : AuditRule
a_rule = record {
  selector = "pkg.Talker/*";
  directive = "AUDIT_REQUEST_ONLY";
  log_type = "DATA_ACCESS";
}

abbrev pub message : String → Struct
message s = fields (field "text" (string_value s) no_fields)

abbrev pub user : Option Metadata → Result String
user md = ok "user@example.com"

abbrev pub nobody : Option Metadata → Result String
nobody md = err (sentinel not_exist)

abbrev pub intercepting : (Option Metadata → Result String) → LogMode → Interceptor (List Struct)
intercepting principal mode = record {
  client = recording;
  request_principal = principal;
  rules = a_rule ∷ [];
  log_mode = mode;
}

-- A handler that leaves the log request alone and answers with a message.
abbrev pub greet : Option AuditLogRequest → List Struct → Handled structs (List Struct)
greet r w = record { world = w; log_request = r; response = message "hello"; error = none }

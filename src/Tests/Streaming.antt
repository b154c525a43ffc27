-- ===== src/Tests/Streaming.antt =====
-- The stream interceptor and its wrapper on a concrete stream.
use lumberjack.Prelude.{
  ◌≡◌, refl, Option, none, some, List, [], ◌∷◌, ◌++◌, map, Bool-cases, inl, inr,
}
use lumberjack.Errors.{sentinel, not_exist, ok, done}
use lumberjack.Api.{AuditLogRequest, fail_close, is_unspecified}
use lumberjack.Api.Values.{Struct}
use lumberjack.Rules.{most_relevant_rule, is_rule_applicable}
use lumberjack.Client.{log, set_mode, stage, proceed}
use lumberjack.Interceptor.Convert.{to_proto_struct}
use lumberjack.Interceptor.Setup.{should_log_req, should_log_resp, set_req}
use lumberjack.Interceptor.Streams.{
  ServerStream, Wrapper, Server, StreamHandled, stream_interceptor, receive, respond, call,
}
use lumberjack.Interceptor.Streams.Ledger.{HasLedger, Run, stop, step, Run-ledger, logged_request}
use lumberjack.Interceptor.Streams.Modes.{IsGuarded, stream_interceptor-IsGuarded}
use lumberjack.Tests.{
  structs, texts, intercepting, user, method, message, a_rule, recording, a_payload, a_request,
}

abbrev ignore :
    Server → Option (Wrapper structs (List Struct)) → List Struct → StreamHandled (List Struct)
ignore s o w = record { world = w; log_request = none; error = none }

abbrev failing :
    Server → Option (Wrapper structs (List Struct)) → List Struct → StreamHandled (List Struct)
failing s o w = record { world = w; log_request = none; error = some (sentinel not_exist) }

stream_interceptor-IsGuarded_example :
    IsGuarded structs texts (intercepting user fail_close) failing method none a_rule [] (
      stream_interceptor structs texts (intercepting user fail_close) failing method 7 "id" none [])
unfolding most_relevant_rule is_rule_applicable
stream_interceptor-IsGuarded_example =
    stream_interceptor-IsGuarded structs texts (intercepting user fail_close) failing method 7 "id"
      none a_rule [] refl refl

-- A client that always sends the same message, and takes any.
abbrev echo : ServerStream structs (List Struct)
echo = record { recv = λ w. (w, ok (message "ping")); send = λ m w. (w, none) }

recording-logs :
    (r : AuditLogRequest) (w : List Struct)
    → (log recording r w).exit ≡ done
    → (log recording r w).world ≡ w ++ logged_request r
unfolding log set_mode stage proceed
recording-logs r w h = elim (Bool-cases (is_unspecified r.mode)) [ inl b ↦ rw b | inr b ↦ rw b ]

abbrev book : HasLedger structs recording echo
unfolding to_proto_struct
book = record {
  ledger = λ w. w;
  convert = λ s. s;
  converts = λ m. refl;
  logs = recording-logs;
  receives = λ w. refl;
  sends = λ m w. refl;
}

abbrev start : Wrapper structs (List Struct)
start = record { baseline_log_req = a_request; rule = a_rule; last_req = none; world = [] }

abbrev finish : Wrapper structs (List Struct)
finish = record start { world = message "ping" ∷ message "ping" ∷ [] }

ping_pong : Run structs recording echo start (message "ping" ∷ message "ping" ∷ []) finish
unfolding call log should_log_req set_req to_proto_struct should_log_resp
ping_pong =
    step receive refl refl (step receive refl refl (step (respond (message "pong")) refl refl stop))

Run-ledger_example :
    finish.world ++ [] ≡ ([] ++ []) ++ map (λ s. s) (message "ping" ∷ message "ping" ∷ [])
unfolding should_log_req book
Run-ledger_example =
    Run-ledger structs recording echo book a_payload refl ping_pong
      (record { rule = refl; there = refl })

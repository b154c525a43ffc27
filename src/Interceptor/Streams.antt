-- ===== src/Interceptor/Streams.antt =====
-- clients/go/pkg/audit/interceptor.go: the stream interceptor and the wrapper that it puts round a
-- server stream. Calls of `RecvMsg` on a stream do not overlap, so its lock is left out. Messages are
-- never nil.
pub mod Ledger
pub mod Modes
use lumberjack.Prelude.{
  ℕ, String, Bool, true, false, Option, none, some, List, [], ◌∷◌, if◌then◌else◌,
}
use lumberjack.Errors.{
  Err, errorf, wrap, status, internal, failed_precondition, interceptor_error, Exit, done, failed,
  panicked, Result, ok, err,
}
use lumberjack.Api.{AuditLogRequest, should_fail_close, log_mode_unspecified, Operation}
use lumberjack.Config.{AuditRule}
use lumberjack.Rules.{most_relevant_rule}
use lumberjack.Client.{Client, log}
use lumberjack.Interceptor.{Interceptor}
use lumberjack.Interceptor.Service.{service_name}
use lumberjack.Interceptor.Convert.{GoValues}
use lumberjack.Interceptor.Setup.{
  Metadata, ErrorTexts, baseline, set_principal, should_log_req, should_log_resp, Written, written,
  refused, crashed, set_req, set_resp, set_error_status,
}

-- gRPC's own stream: what `RecvMsg` and `SendMsg` do to the world.
pub record ServerStream (go : GoValues) (W : Type 0) : Type 0 where
  pub recv : W → W × Result go.Any
  pub send : go.Any → W → W × Option Err

-- `serverStreamWrapper`, with its world
pub record Wrapper (go : GoValues) (W : Type 0) : Type 0 where
  pub baseline_log_req : AuditLogRequest
  pub rule : AuditRule
  pub last_req : Option go.Any
  pub world : W

-- A call through the wrapper: the message that came, if one did, and how the call ended.
pub record Called (go : GoValues) (W : Type 0) : Type 0 where
  pub wrapper : Wrapper go W
  pub message : Option go.Any
  pub exit : Exit

-- The error of `Log`, as the wrapper returns it.
unfoldable pub emit_exit : Exit → Exit
emit_exit done = done
emit_exit (failed e) =
    failed (interceptor_error (status internal (wrap "failed to emit log: %v" e)))
emit_exit panicked = panicked

abbrev pub wrap_refused : String → Written → Written
wrap_refused message (refused e) = refused (wrap message e)
wrap_refused message x = x

module _ (go : GoValues) {W : Type 0} (c : Client W) (stream : ServerStream go W) where
  open go use {Any}

  unfoldable pub emit_request : Wrapper go W → Any → Written → Called go W
  unfolding emit_exit
  emit_request s m (refused e) = record { wrapper = s; message = some m; exit = failed e }
  emit_request s m crashed = record { wrapper = s; message = some m; exit = panicked }
  emit_request s m (written r) =
      let o = log c r s.world in
      record { wrapper = record s { world = o.world }; message = some m; exit = emit_exit o.exit }

  -- The request of the call before goes to the log now.
  unfoldable pub log_last : Wrapper go W → Any → Option Any → Called go W
  unfolding emit_request
  log_last s m none = record { wrapper = s; message = some m; exit = done }
  log_last s m (some lr) =
      if should_log_req s.rule
      then emit_request s m (set_req go lr s.baseline_log_req)
      else record { wrapper = s; message = some m; exit = done }

  -- `swapLastReq` and what follows it
  unfoldable pub after_recv : Wrapper go W → Result Any → Called go W
  unfolding log_last
  after_recv s (err e) = record {
    wrapper = s;
    message = none;
    exit = failed (wrap "failed to receive message from server stream: %w" e);
  }
  after_recv s (ok m) = log_last (record s { last_req = some m }) m s.last_req

  -- `RecvMsg`
  unfoldable pub recv_msg : Wrapper go W → Called go W
  unfolding after_recv
  recv_msg s = let (w, result) = stream.recv s.world in after_recv (record s { world = w }) result

  unfoldable pub fill_last : Wrapper go W → Option Any → Written
  fill_last s none = written s.baseline_log_req
  fill_last s (some lr) =
      if should_log_req s.rule
      then wrap_refused "failed to set request: %w" (set_req go lr s.baseline_log_req)
      else written s.baseline_log_req

  unfoldable pub fill_response : Wrapper go W → Any → Written → Written
  fill_response s m (written r) =
      if should_log_resp s.rule
      then wrap_refused "failed to set response: %w" (set_resp go m r)
      else written r
  fill_response s m x = x

  abbrev sent : Option Err → Exit
  sent none = done
  sent (some e) = failed (wrap "failed to send message to server stream: %w" e)

  -- The message goes out only when the log succeeded.
  unfoldable pub deliver : Wrapper go W → Any → Exit → Called go W
  deliver s m done =
      let (w, e) = stream.send m s.world in
      record { wrapper = record s { world = w }; message = none; exit = sent e }
  deliver s m x = record { wrapper = s; message = none; exit = x }

  unfoldable pub emit_response : Wrapper go W → Any → Written → Called go W
  unfolding emit_exit deliver
  emit_response s m (refused e) = record { wrapper = s; message = none; exit = failed e }
  emit_response s m crashed = record { wrapper = s; message = none; exit = panicked }
  emit_response s m (written r) =
      let o = log c r s.world in deliver (record s { world = o.world }) m (emit_exit o.exit)

  -- `SendMsg`, with `popLastReq`
  unfoldable pub send_msg : Wrapper go W → Any → Called go W
  unfolding fill_last fill_response emit_response
  send_msg s m =
      emit_response (record s { last_req = none }) m (fill_response s m (fill_last s s.last_req))

  -- What a handler does with its stream, call by call, up to the first error.
  pub data Event : Type 0 where
    receive : Event
    respond : Any → Event

  unfoldable pub call : Event → Wrapper go W → Called go W
  unfolding recv_msg send_msg
  call receive s = recv_msg s
  call (respond m) s = send_msg s m

-- The service that a handler is called for. `handleReturnStream` passes the context in its place.
pub data Server : Type 0 where
  service : Server
  call_context : Server

pub record StreamHandled (W : Type 0) : Type 0 where
  pub world : W
  pub log_request : Option AuditLogRequest
  pub error : Option Err

pub data StreamReply (W : Type 0) : Type 0 where
  ended : W → Option Err → StreamReply W
  crash : W → StreamReply W

module _ (go : GoValues) (texts : ErrorTexts) {W : Type 0} (i : Interceptor W) where
  -- A stream handler has the wrapper's log request in its context, or the plain stream.
  module _ (handler : Server → Option (Wrapper go W) → W → StreamHandled W) where
    abbrev pub answer : StreamHandled W → StreamReply W
    answer h = ended h.world h.error

    -- `handleReturnStream`, for an error
    unfoldable pub handle_return_stream : Err → W → StreamReply W
    handle_return_stream e w =
        let go_on = answer (handler call_context none w) in
        if should_fail_close i.log_mode then ended w (some e) else go_on

    unfoldable pub end_stream : Err → Exit → W → StreamReply W
    end_stream e panicked w = crash w
    end_stream e _ w = ended w (some e)

    unfoldable pub log_stream_error : Err → Option AuditLogRequest → W → StreamReply W
    unfolding end_stream
    log_stream_error e none w = crash w
    log_stream_error e (some r) w = let o = log i.client r w in end_stream e o.exit o.world

    abbrev or_given : AuditLogRequest → Option AuditLogRequest → AuditLogRequest
    or_given r none = r
    or_given r (some r') = r'

    unfoldable pub after_stream : AuditLogRequest → StreamHandled W → Option Err → StreamReply W
    unfolding log_stream_error
    after_stream r h none = ended h.world none
    after_stream r h (some e) = log_stream_error e (set_error_status texts e r) h.world

    unfoldable pub wrapped_stream : AuditRule → Option AuditLogRequest → W → StreamReply W
    unfolding after_stream
    wrapped_stream rule none w = crash w
    wrapped_stream rule (some r) w =
        let wrapper : Wrapper go W = record {
          baseline_log_req = r;
          rule = rule;
          last_req = none;
          world = w;
        } in
        let h = handler service (some wrapper) w in
        after_stream (or_given r h.log_request) h h.error

    -- The baseline of a stream has no mode, unlike that of a unary call.
    unfoldable pub stream_principal :
        AuditRule
        → String
        → ℕ
        → String
        → Option Metadata
        → W
        → String
        → Result String
        → StreamReply W
    unfolding wrapped_stream
    stream_principal rule m now uuid md w name (err e) =
        handle_return_stream
          (status failed_precondition
            (errorf "audit interceptor failed to get request principal" []))
          w
    stream_principal rule m now uuid md w name (ok principal) =
        wrapped_stream rule
          (set_principal principal (
            baseline name m log_mode_unspecified (some (record { id = uuid; producer = m })) now md
              rule))
          w

    unfoldable pub stream_service :
        AuditRule → String → ℕ → String → Option Metadata → W → Result String → StreamReply W
    unfolding stream_principal
    stream_service rule m now uuid md w (err e) =
        handle_return_stream (interceptor_error (status failed_precondition e)) w
    stream_service rule m now uuid md w (ok name) =
        stream_principal rule m now uuid md w name (i.request_principal md)

    unfoldable pub stream_rule :
        String → ℕ → String → Option Metadata → W → Option AuditRule → StreamReply W
    unfolding stream_service
    stream_rule m now uuid md w none = answer (handler service none w)
    stream_rule m now uuid md w (some rule) = stream_service rule m now uuid md w (service_name m)

    -- `StreamInterceptor`
    unfoldable pub stream_interceptor : String → ℕ → String → Option Metadata → W → StreamReply W
    unfolding stream_rule
    stream_interceptor m now uuid md w = stream_rule m now uuid md w (most_relevant_rule m i.rules)

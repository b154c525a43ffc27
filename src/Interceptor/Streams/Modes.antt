-- ===== src/Interceptor/Streams/Modes.antt =====
-- `StreamInterceptor` of clients/go/pkg/audit/interceptor.go in fail-close mode.
use lumberjack.Prelude.{ℕ, String, ◌≡◌, refl, ◌⊎◌, inl, inr, true, Option, none, some, [], ◌∷◌}
use lumberjack.Errors.{Err, Exit, done, failed, panicked, Result, ok, err}
use lumberjack.Api.{AuditLog, AuditLogRequest, Operation, log_mode_unspecified, should_fail_close}
use lumberjack.Config.{AuditRule}
use lumberjack.Rules.{most_relevant_rule}
use lumberjack.Client.{log}
use lumberjack.Interceptor.{Interceptor}
use lumberjack.Interceptor.Service.{service_name}
use lumberjack.Interceptor.Convert.{GoValues}
use lumberjack.Interceptor.Setup.{
  Metadata, ErrorTexts, baseline, token_header_key, trim_space, fill_jvs_token, named_payload,
  set_principal, set_error_status,
}
use lumberjack.Interceptor.Streams.{
  Wrapper, Server, service, StreamHandled, StreamReply, ended, crash, handle_return_stream,
  end_stream, log_stream_error, after_stream, wrapped_stream, stream_principal, stream_service,
  stream_rule, stream_interceptor,
}

fill_jvs_token-payload :
    (md : Option Metadata) (r : AuditLogRequest) → (fill_jvs_token md r).payload ≡ r.payload
unfolding fill_jvs_token
fill_jvs_token-payload none r = refl
fill_jvs_token-payload (some md) r =
    elim (md.get token_header_key)
      as (λ vs.
        (elim vs as (λ _. AuditLogRequest) [
          | [] ↦ r
          | v ∷ _ ↦ record r { justification_token = trim_space v }
        ]).payload
        ≡ r.payload) [ [] ↦ refl | v ∷ _ ↦ refl ]

baseline-payload :
    (name m : String) (operation : Option Operation) (now : ℕ) (md : Option Metadata)
    (rule : AuditRule)
    → (baseline name m log_mode_unspecified operation now md rule).payload
      ≡ some (named_payload name m)
unfolding baseline
baseline-payload name m operation now md rule = fill_jvs_token-payload md _

set_principal-some :
    (p : String) (r : AuditLogRequest) (q : AuditLog)
    → r.payload ≡ some q
    → set_principal p r
      ≡ some (record r { payload = some (record q { authentication_info = some p }) })
set_principal-some p r q h = rw h refl

module _ (go : GoValues) (texts : ErrorTexts) {W : Type 0} (i : Interceptor W)
    (handler : Server → Option (Wrapper go W) → W → StreamHandled W) where
  -- How a stream call ends after its handler: with the handler's error, once the client was asked to
  -- log a request on the world that the handler left, or without an error on that world.
  abbrev pub IsEnded : StreamHandled W → W → Option Err → Type 0
  IsEnded h v none = (h.error ≡ none) × (v ≡ h.world)
  IsEnded h v (some e) =
      (h.error ≡ some e) × ((r : AuditLogRequest) × ((log i.client r h.world).world ≡ v))

  -- The handler ran once, for the service, on a wrapped stream whose log request names the service of
  -- the method, the method and the call's principal.
  pub record IsWrapped (m : String) (md : Option Metadata) (rule : AuditRule) (w v : W)
      (e : Option Err) : Type 0 where
    pub principal : String
    pub known : i.request_principal md ≡ ok principal
    pub name : String
    pub named : service_name m ≡ ok name
    pub wrapper : Wrapper go W
    pub payload : AuditLog
    pub has : wrapper.baseline_log_req.payload ≡ some payload
    pub of_principal : payload.authentication_info ≡ some principal
    pub of_service : payload.service_name ≡ name
    pub of_method : payload.method_name ≡ m
    pub of_rule : wrapper.rule ≡ rule
    pub fresh : (wrapper.last_req ≡ none) × (wrapper.world ≡ w)
    pub ends : IsEnded (handler service (some wrapper) w) v e

  -- A call that is refused leaves the world, and has an error.
  abbrev pub IsGuarded : String → Option Metadata → AuditRule → W → StreamReply W → Type 0
  IsGuarded m md rule w (crash v) = Unit
  IsGuarded m md rule w (ended v e) =
      ((v ≡ w) × ((x : Err) × (e ≡ some x))) ⊎ IsWrapped m md rule w v e

  abbrev Ends : StreamHandled W → StreamReply W → Type 0
  Ends h (crash v) = Unit
  Ends h (ended v e) = IsEnded h v e

  end_stream-Ends :
      (h : StreamHandled W) (e : Err) (r : AuditLogRequest) (x : Exit) (v : W)
      → h.error ≡ some e
      → (log i.client r h.world).world ≡ v
      → Ends h (end_stream go texts i handler e x v)
  unfolding end_stream
  end_stream-Ends h e r panicked v f l = tt
  end_stream-Ends h e r done v f l = (f, (r, l))
  end_stream-Ends h e r (failed y) v f l = (f, (r, l))

  log_stream_error-Ends :
      (h : StreamHandled W) (e : Err) (o : Option AuditLogRequest)
      → h.error ≡ some e
      → Ends h (log_stream_error go texts i handler e o h.world)
  unfolding log_stream_error
  log_stream_error-Ends h e none f = tt
  log_stream_error-Ends h e (some r) f =
      end_stream-Ends h e r (log i.client r h.world).exit (log i.client r h.world).world f refl

  after_stream-Ends :
      (r : AuditLogRequest) (h : StreamHandled W) (o : Option Err)
      → h.error ≡ o
      → Ends h (after_stream go texts i handler r h o)
  unfolding after_stream
  after_stream-Ends r h none f = (f, refl)
  after_stream-Ends r h (some e) f = log_stream_error-Ends h e (set_error_status texts e r) f

  module _ (m : String) (now : ℕ) (uuid : String) (md : Option Metadata) (rule : AuditRule) (w : W)
      (closed : should_fail_close i.log_mode ≡ true) where
    return-IsGuarded :
        (e : Err) → IsGuarded m md rule w (handle_return_stream go texts i handler e w)
    unfolding handle_return_stream
    return-IsGuarded e = rw closed (inl (refl, (e, refl)))

    guarded :
        (p name : String) (wrapper : Wrapper go W) (payload : AuditLog) (x : StreamReply W)
        → i.request_principal md ≡ ok p
        → service_name m ≡ ok name
        → wrapper.baseline_log_req.payload ≡ some payload
        → (payload.authentication_info ≡ some p)
          × (payload.service_name ≡ name)
          × (payload.method_name ≡ m)
        → (wrapper.rule ≡ rule) × ((wrapper.last_req ≡ none) × (wrapper.world ≡ w))
        → Ends (handler service (some wrapper) w) x
        → IsGuarded m md rule w x
    guarded p name wrapper payload (crash v) known named has (a, b, c) f ends = tt
    guarded p name wrapper payload (ended v e) known named has (a, b, c) f ends = inr (record {
      principal = p;
      known = known;
      name = name;
      named = named;
      wrapper = wrapper;
      payload = payload;
      has = has;
      of_principal = a;
      of_service = b;
      of_method = c;
      of_rule = f.0;
      fresh = f.1;
      ends = ends;
    })

    stream_principal-IsGuarded :
        (name : String) (p : Result String)
        → service_name m ≡ ok name
        → i.request_principal md ≡ p
        → IsGuarded m md rule w (stream_principal go texts i handler rule m now uuid md w name p)
    unfolding stream_principal wrapped_stream
    stream_principal-IsGuarded name (err x) named known = return-IsGuarded _
    stream_principal-IsGuarded name (ok p) named known =
        let request =
          baseline name m log_mode_unspecified (some (record { id = uuid; producer = m })) now md
            rule in
        let plain = named_payload name m in
        let filled = set_principal-some p request plain (baseline-payload name m _ now md rule) in
        let payload = record plain { authentication_info = some p } in
        let wrapper : Wrapper go W = record {
          baseline_log_req = record request { payload = some payload };
          rule = rule;
          last_req = none;
          world = w;
        } in
        rw filled (
          guarded p name wrapper payload _ known named refl (refl, refl, refl) (refl, (refl, refl))
            (after_stream-Ends _ (handler service (some wrapper) w) _ refl))

    stream_service-IsGuarded :
        (name : Result String)
        → service_name m ≡ name
        → IsGuarded m md rule w (stream_service go texts i handler rule m now uuid md w name)
    unfolding stream_service
    stream_service-IsGuarded (err x) named = return-IsGuarded _
    stream_service-IsGuarded (ok name) named =
        stream_principal-IsGuarded name (i.request_principal md) named refl

    -- In fail-close mode a stream call that a rule matches, unless the interceptor panics, either ends
    -- with an error and leaves the world as it was, or its handler ran once, for the service, on a
    -- wrapped stream whose log request names the method, its service and the call's principal; then the
    -- call ends as the handler did, and where that is with an error the client was asked to log a
    -- request on the world that the handler left.
    pub stream_interceptor-IsGuarded :
        most_relevant_rule m i.rules ≡ some rule
        → IsGuarded m md rule w (stream_interceptor go texts i handler m now uuid md w)
    unfolding stream_interceptor stream_rule
    stream_interceptor-IsGuarded found = rw found (stream_service-IsGuarded (service_name m) refl)

-- ===== src/Interceptor/Streams/Ledger.antt =====
-- The wrapper of a server stream, of clients/go/pkg/audit/interceptor.go, with a client that keeps a
-- ledger of what it logs.
use lumberjack.Prelude.{
  ◌≡◌, refl, sym, ap, ◌∙◌, true, Option, none, some, List, [], ◌∷◌, ◌++◌, map, arith, Bool-cases,
  inl, inr,
}
use mathlib.Core.List.{append_assoc, append-nil}
use lumberjack.Errors.{Exit, done, failed, panicked, Result, ok, err}
use lumberjack.Api.{AuditLogRequest, AuditLog}
use lumberjack.Api.Values.{Struct}
use lumberjack.Client.{Client, log}
use lumberjack.Interceptor.Convert.{GoValues, to_proto_struct}
use lumberjack.Interceptor.Setup.{should_log_req, should_log_resp, written, set_req, set_resp}
use lumberjack.Interceptor.Streams.{
  ServerStream, Wrapper, Called, Event, receive, respond, call, emit_exit, emit_request, log_last,
  after_recv, recv_msg, fill_last, fill_response, deliver, emit_response, send_msg,
}

abbrev some_list {ℓ} : {A : Type ℓ} → Option A → List A
some_list none = []
some_list (some a) = a ∷ []

-- The request that a log entry holds.
abbrev pub logged_request : AuditLogRequest → List Struct
logged_request r = elim r.payload [ none ↦ [] | some p ↦ some_list p.request ]

-- What is assumed of a client that writes each log to a ledger, and of a stream that leaves it alone:
-- messages can be converted, `Log` succeeds only by adding the request to the ledger, and the
-- stream's own calls do not touch it.
pub record HasLedger (go : GoValues) {W : Type 0} (c : Client W) (stream : ServerStream go W)
    : Type 0 where
  pub ledger : W → List Struct
  pub convert : go.Any → Struct
  pub converts : (m : go.Any) → to_proto_struct go m ≡ ok (convert m)
  pub logs :
      (r : AuditLogRequest) (w : W)
      → (log c r w).exit ≡ done
      → ledger (log c r w).world ≡ ledger w ++ logged_request r
  pub receives : (w : W) → ledger (stream.recv w).0 ≡ ledger w
  pub sends : (m : go.Any) (w : W) → ledger (stream.send m w).0 ≡ ledger w

module _ (go : GoValues) {W : Type 0} (c : Client W) (stream : ServerStream go W) where
  -- A handler's calls on its stream that all succeed, and the messages that it receives by them.
  pub data Run : Wrapper go W → List go.Any → Wrapper go W → Type 0 where
    stop : {s : Wrapper go W} → Run s [] s
    step :
        {s t : Wrapper go W} {ms all : List go.Any} (e : Event go c stream)
        → (call go c stream e s).exit ≡ done
        → all ≡ some_list (call go c stream e s).message ++ ms
        → Run (call go c stream e s).wrapper ms t
        → Run s all t

emit_exit-done : (x : Exit) → emit_exit x ≡ done → x ≡ done
unfolding emit_exit
emit_exit-done done h = refl
emit_exit-done (failed e) h = cc
emit_exit-done panicked h = cc

module _ (go : GoValues) {W : Type 0} (c : Client W) (stream : ServerStream go W)
    (book : HasLedger go c stream) where
  open book use {ledger, convert, converts, logs, receives, sends}

  -- The message that waits to be logged.
  abbrev pub pending : Wrapper go W → List Struct
  pending s = map convert (some_list s.last_req)

  -- The rule asks for requests, and the stream's log request has this payload.
  pub record IsReady (p : AuditLog) (s : Wrapper go W) : Type 0 where
    pub rule : should_log_req s.rule ≡ true
    pub there : s.baseline_log_req.payload ≡ some p

  abbrev with_request : AuditLogRequest → AuditLog → Struct → AuditLogRequest
  with_request r p m = record r { payload = some (record p { request = some m }) }

  set_req_lem :
      (m : go.Any) (r : AuditLogRequest) (p : AuditLog)
      → r.payload ≡ some p
      → set_req go m r ≡ written (with_request r p (convert m))
  unfolding set_req
  set_req_lem m r p h = ground (arith, converts m)

  module _ (p : AuditLog) (bare : p.request ≡ none) where
    -- A call that succeeded, seen from the wrapper that it began with.
    abbrev IsBooked : Wrapper go W → Called go W → Type 0
    IsBooked s o =
        o.exit ≡ done
        → IsReady p o.wrapper
          × (ledger o.wrapper.world ++ pending o.wrapper
              ≡ (ledger s.world ++ pending s) ++ map convert (some_list o.message))

    log_last-some :
        (s : Wrapper go W) (m lr : go.Any)
        → IsReady p s
        → log_last go c stream s m (some lr)
          ≡ emit_request go c stream s m (written (with_request s.baseline_log_req p (convert lr)))
    unfolding log_last
    log_last-some s m lr v = rw (v.rule, set_req_lem lr s.baseline_log_req p v.there)

    log_last-IsBooked :
        (s : Wrapper go W) (m : go.Any) (last : Option go.Any)
        → IsReady p s
        → s.last_req ≡ last
        → IsBooked s (log_last go c stream (record s { last_req = some m }) m last)
    unfolding log_last emit_request
    log_last-IsBooked s m none v e = λ h. (
      record { rule = v.rule; there = v.there },
      sym (ap (λ l. l ++ convert m ∷ []) (append-nil (ledger s.world)))
          ∙ ap (λ o. (ledger s.world ++ map convert (some_list o)) ++ convert m ∷ []) (sym e),
    )
    log_last-IsBooked s m (some lr) v e =
        let s' : Wrapper go W = record s { last_req = some m } in
        let r = with_request s.baseline_log_req p (convert lr) in
        rw (log_last-some s' m lr (record { rule = v.rule; there = v.there })) λ h. (
          record { rule = v.rule; there = v.there },
          ap (λ l. l ++ convert m ∷ [])
              (logs r s.world (emit_exit-done _ h)
                ∙ ap (λ o. ledger s.world ++ map convert (some_list o)) (sym e)),
        )

    after_recv-IsBooked :
        (s : Wrapper go W) (result : Result go.Any)
        → IsReady p s
        → IsBooked s (after_recv go c stream s result)
    unfolding after_recv
    after_recv-IsBooked s (err e) v = λ h. cc
    after_recv-IsBooked s (ok m) v = log_last-IsBooked s m s.last_req v refl

    recv_msg-IsBooked : (s : Wrapper go W) → IsReady p s → IsBooked s (recv_msg go c stream s)
    unfolding recv_msg
    recv_msg-IsBooked s v h =
        let (w, result) = stream.recv s.world in
        let (v', booked) =
          after_recv-IsBooked (record s { world = w }) result
            (record { rule = v.rule; there = v.there }) h in
        (
          v',
          booked
              ∙ ap
                  (λ l.
                    (l ++ pending s) ++ map convert (some_list (recv_msg go c stream s).message))
                  (receives s.world),
        )

    -- The payload that is logged with a response: the message that waits is its request.
    fill_last_lem :
        (s : Wrapper go W) (last : Option go.Any)
        → IsReady p s
        → (q : AuditLog) × (r : AuditLogRequest) × (fill_last go c stream s last ≡ written r)
          × (r.payload ≡ some q)
          × (some_list q.request ≡ map convert (some_list last))
    unfolding fill_last
    fill_last_lem s none v = (p, s.baseline_log_req, refl, v.there, ap some_list bare)
    fill_last_lem s (some lr) v = (
      record p { request = some (convert lr) },
      with_request s.baseline_log_req p (convert lr),
      rw (v.rule, set_req_lem lr s.baseline_log_req p v.there),
      refl,
      refl,
    )

    fill_response_lem :
        (s : Wrapper go W) (m : go.Any) (q : AuditLog) (r : AuditLogRequest)
        → r.payload ≡ some q
        → (r' : AuditLogRequest) × (fill_response go c stream s m (written r) ≡ written r')
          × (logged_request r' ≡ some_list q.request)
    unfolding fill_response set_resp
    fill_response_lem s m q r h = elim (Bool-cases (should_log_resp s.rule)) [
      | inl full ↦ (
        record r { payload = some (record q { response = some (convert m) }) },
        ground (arith, converts m),
        refl,
      )
      | inr bare_rule ↦ (r, rw bare_rule, ground arith)
    ]

    deliver-ledger :
        (s : Wrapper go W) (m : go.Any) (x : Exit)
        → (deliver go c stream s m x).exit ≡ done
        → (x ≡ done)
          × (ledger (deliver go c stream s m x).wrapper.world ≡ ledger s.world)
          × ((deliver go c stream s m x).message ≡ none)
          × ((deliver go c stream s m x).wrapper
              ≡ record s { world = (deliver go c stream s m x).wrapper.world })
    unfolding deliver
    deliver-ledger s m done h = (refl, sends m s.world, refl, refl)
    deliver-ledger s m (failed e) h = cc
    deliver-ledger s m panicked h = cc

    emit_response-IsBooked :
        (s : Wrapper go W) (m : go.Any) (r : AuditLogRequest)
        → IsReady p s
        → logged_request r ≡ pending s
        → IsBooked s (emit_response go c stream (record s { last_req = none }) m (written r))
    unfolding emit_response
    emit_response-IsBooked s m r v e h =
        let o = log c r s.world in
        let s' : Wrapper go W = record s { last_req = none; world = o.world } in
        let (x, kept, quiet, shape) = deliver-ledger s' m (emit_exit o.exit) h in
        let logged : ledger o.world ≡ ledger s.world ++ pending s =
          logs r s.world (emit_exit-done o.exit x) ∙ ap (λ l. ledger s.world ++ l) e in
        rw shape (
          record { rule = v.rule; there = v.there },
          ap (λ l. l ++ []) (kept ∙ logged)
              ∙ ap
                  (λ (o : Option go.Any).
                    (ledger s.world ++ pending s) ++ map convert (some_list o))
                  (sym quiet),
        )

    send_msg-IsBooked :
        (s : Wrapper go W) (m : go.Any) → IsReady p s → IsBooked s (send_msg go c stream s m)
    unfolding send_msg
    send_msg-IsBooked s m v =
        let (q, r, filled, there, requested) = fill_last_lem s s.last_req v in
        let (r', full, logged) = fill_response_lem s m q r there in
        rw (filled, full) (emit_response-IsBooked s m r' v (logged ∙ requested))

    call-IsBooked :
        (e : Event go c stream) (s : Wrapper go W) → IsReady p s → IsBooked s (call go c stream e s)
    unfolding call
    call-IsBooked receive s v = recv_msg-IsBooked s v
    call-IsBooked (respond m) s v = send_msg-IsBooked s m v

    map-append_lists :
        (xs ys : List go.Any) → map convert (xs ++ ys) ≡ map convert xs ++ map convert ys
    map-append_lists [] ys = refl
    map-append_lists (x ∷ xs) ys = ap (λ l. convert x ∷ l) (map-append_lists xs ys)

    -- With a client and a stream as HasLedger describes them, a rule that asks for requests, and a log
    -- request whose payload has no request yet, calls of a handler that all succeed log every message
    -- that they receive, in order and once: what the ledger gains and the message that then waits
    -- are the message that waited before and those that were received.
    pub Run-ledger :
        {s t : Wrapper go W} {ms : List go.Any}
        → Run go c stream s ms t
        → IsReady p s
        → ledger t.world ++ pending t ≡ (ledger s.world ++ pending s) ++ map convert ms
    Run-ledger {s} stop v = sym (append-nil (ledger s.world ++ pending s))
    Run-ledger {s} (step {ms = rest} e fine shape run) v =
        let (v', booked) = call-IsBooked e s v fine in
        let now = some_list (call go c stream e s).message in
        Run-ledger run v'
        ∙ ap (λ l. l ++ map convert rest) booked
        ∙ append_assoc (ledger s.world ++ pending s) (map convert now) (map convert rest)
        ∙ ap (λ l. (ledger s.world ++ pending s) ++ l)
            (sym (map-append_lists now rest) ∙ ap (map convert) (sym shape))

-- ===== src/Client/Delivery.antt =====
-- What `Log` of clients/go/pkg/audit/client.go brings to the backends: the requests that pass the
-- validators and the mutators, where these look at and change the request alone.
use mathlib.Core.Path.{subst}
use mathlib.Core.List.{append_assoc}
use lumberjack.Prelude.{
  ◌≡◌, ◌≢◌, ◌⊎◌, inl, inr, refl, sym, ◌∙◌, ap, true, Option, none, some, List, [], ◌∷◌, ◌++◌, All,
  All-append, arith, Bool-cases,
}
use lumberjack.Errors.{Err, is_err, precondition_failed, Exit, done, failed, panicked}
use lumberjack.Api.{AuditLog, AuditLogRequest, LogMode, fail_close, should_fail_close}
use lumberjack.Validation.Laws.{IsComplete, HasCompletePayload}
use lumberjack.Client.{Outcome, Processor, Client, set_mode, log}
use lumberjack.Client.Laws.{replay, resume, settle, log-replay, Agrees}

-- The payload without the fields that mutators write.
abbrev pub core : Option AuditLog → Option AuditLog
core none = none
core (some p) = some (record p { metadata = none; request_metadata = none })

-- Two requests that differ in their labels and in their payload's metadata at most.
pub record Kept (r r' : AuditLogRequest) : Type 0 where
  pub payload : core r'.payload ≡ core r.payload
  pub rest : record r' { payload = r.payload; labels = r.labels } ≡ r

pub Kept-refl : (r : AuditLogRequest) → Kept r r
Kept-refl r = record { payload = refl; rest = refl }

-- The second request with the payload and the labels of the first.
abbrev restored : AuditLogRequest → AuditLogRequest → AuditLogRequest
restored r x = record x { payload = r.payload; labels = r.labels }

pub Kept-trans : {a b c : AuditLogRequest} → Kept a b → Kept b c → Kept a c
Kept-trans {a} {b} {c} h k = record {
  payload = k.payload ∙ h.payload;
  rest = ap (restored a) k.rest ∙ h.rest;
}

-- Metadata do not make a payload complete.
bare : AuditLog → AuditLog
bare p = record p { metadata = none; request_metadata = none }

bare-IsComplete : (p : AuditLog) → IsComplete p → IsComplete (bare p)
unfolding bare
bare-IsComplete p c = record {
  method = c.method;
  service = c.service;
  resource = c.resource;
  principal = c.principal;
}

of_bare-IsComplete : (p : AuditLog) → IsComplete (bare p) → IsComplete p
unfolding bare
of_bare-IsComplete p c = record {
  method = c.method;
  service = c.service;
  resource = c.resource;
  principal = c.principal;
}

core-IsComplete :
    (o o' : Option AuditLog)
    → core o' ≡ core o
    → (p : AuditLog) × (o ≡ some p) × IsComplete p
    → (p : AuditLog) × (o' ≡ some p) × IsComplete p
unfolding bare
core-IsComplete none o' h (p, e, c) = absurd (cc)
core-IsComplete (some q) none h (p, e, c) = absurd (cc)
core-IsComplete (some q) (some q') h (p, e, c) =
    let same : bare q ≡ bare q' = cc in
    let c' : IsComplete q = subst IsComplete (cc) c in
    (q', refl, of_bare-IsComplete q' (subst IsComplete same (bare-IsComplete q c')))

pub Kept-HasCompletePayload :
    {r r' : AuditLogRequest}
    → Kept r r'
    → HasCompletePayload (some r)
    → HasCompletePayload (some r')
Kept-HasCompletePayload {r} {r'} k h = core-IsComplete r.payload r'.payload k.payload h

-- In fail-close mode an end that `Log` takes for a success is one, or a failed precondition.
settle-done :
    (x : Exit)
    → settle fail_close x ≡ done
    → (x ≡ done) ⊎ ((e : Err) × (x ≡ failed e) × (is_err precondition_failed e ≡ true))
settle-done done h = inl refl
settle-done panicked h = cc
settle-done (failed e) h = elim (Bool-cases (is_err precondition_failed e)) [
  | inl b ↦ inr (e, refl, b)
  | inr b ↦ absurd (let h' = rw b at h in cc)
]

settle-panicked : (mode : LogMode) (x : Exit) → settle mode x ≡ panicked → x ≡ panicked
settle-panicked mode done h = cc
settle-panicked mode panicked h = refl
settle-panicked mode (failed e) h = elim (Bool-cases (is_err precondition_failed e)) [
  | inl b ↦ absurd (let h' = rw b at h in cc)
  | inr b ↦ elim (Bool-cases (should_fail_close mode)) [
    | inl c ↦ absurd (let h' = rw (b, c) at h in cc)
    | inr c ↦ absurd (let h' = rw (b, c) at h in cc)
  ]
]

module _ {W : Type 0} where
  -- The same for an outcome of `Log` and of a pass that keeps the mode.
  pub Agrees-done :
      (o s : Outcome W)
      → Agrees o s
      → s.request.mode ≡ fail_close
      → o.exit ≡ done
      → (s.exit ≡ done) ⊎ ((e : Err) × (s.exit ≡ failed e) × (is_err precondition_failed e ≡ true))
  Agrees-done o s a m d = let settled = a.exit in settle-done s.exit (sym (rw (d, m) at settled))

  -- A processor that leaves the world, and of the request all but labels and metadata.
  pub record IsLocal (p : Processor W) : Type 0 where
    pub world : (r : AuditLogRequest) (w : W) → (p.process r w).world ≡ w
    pub kept : (r : AuditLogRequest) (w : W) → Kept r (p.process r w).request

  -- A local processor that keeps the labels too.
  pub record IsGentle (p : Processor W) : Type 0 where
    pub local : IsLocal p
    pub labels : (r : AuditLogRequest) (w : W) → (p.process r w).request.labels ≡ r.labels

  pub All-IsLocal : (ps : List (Processor W)) → All IsGentle ps → All IsLocal ps
  All-IsLocal [] h = tt
  All-IsLocal (p ∷ ps) (g, h) = (g.local, All-IsLocal ps h)

  -- A pass from the first request to the second: every processor succeeds.
  abbrev pub Passed : List (Processor W) → W → AuditLogRequest → AuditLogRequest → Type 0
  Passed [] w r r' = r ≡ r'
  Passed (p ∷ ps) w r r' = ((p.process r w).exit ≡ done) × Passed ps w (p.process r w).request r'

  pub Passed-append :
      (ps qs : List (Processor W)) (w : W) (r r' : AuditLogRequest)
      → Passed (ps ++ qs) w r r'
      → (s : AuditLogRequest) × Passed ps w r s × Passed qs w s r'
  Passed-append [] qs w r r' h = (r, refl, h)
  Passed-append (p ∷ ps) qs w r r' (d, h) =
      let (s, before, after) = Passed-append ps qs w (p.process r w).request r' h in
      (s, (d, before), after)

  pub Passed-Kept :
      (ps : List (Processor W)) (w : W) (r r' : AuditLogRequest)
      → All IsLocal ps
      → Passed ps w r r'
      → Kept r r'
  Passed-Kept [] w r r' h e = rw (← e) (Kept-refl r)
  Passed-Kept (p ∷ ps) w r r' (l, h) (d, e) =
      Kept-trans (l.kept r w) (Passed-Kept ps w (p.process r w).request r' h e)

  pub Passed-labels :
      (ps : List (Processor W)) (w : W) (r r' : AuditLogRequest)
      → All IsGentle ps
      → Passed ps w r r'
      → r'.labels ≡ r.labels
  Passed-labels [] w r r' h e = ap (λ x. x.labels) (sym e)
  Passed-labels (p ∷ ps) w r r' (g, h) (d, e) =
      Passed-labels ps w (p.process r w).request r' h e ∙ g.labels r w

  -- A pass over local processors and then others ends at the local ones, with the world as it was, or
  -- goes on to the others with the request that has passed.
  abbrev Ended : List (Processor W) → AuditLogRequest → W → Outcome W → Type 0
  Ended ps r w o =
      (o.world ≡ w) × Kept r o.request × (o.exit ≢ done) × ((replay ps r w).exit ≡ o.exit)

  abbrev Branches :
      List (Processor W) → List (Processor W) → AuditLogRequest → W → Outcome W → Type 0
  Branches ps qs r w o =
      Ended ps r w o ⊎ ((s : AuditLogRequest) × Passed ps w r s × (o ≡ replay qs s w))

  resume-Branches :
      (p : Processor W) (ps qs : List (Processor W)) (r : AuditLogRequest) (w : W) (x : Exit)
      → IsLocal p
      → (p.process r w).exit ≡ x
      → Branches ps qs (p.process r w).request w (replay (ps ++ qs) (p.process r w).request w)
      → Branches (p ∷ ps) qs r w (resume x (p.process r w) (replay (ps ++ qs)))
  unfolding replay resume
  resume-Branches p ps qs r w done l e (inl (same, kept, short, end)) = inl (
    rw (l.world r w) same,
    Kept-trans (l.kept r w) (rw (l.world r w) kept),
    rw (l.world r w) short,
    rw (e, resume) (rw (l.world r w) end),
  )
  resume-Branches p ps qs r w done l e (inr (s, passed, goes_on)) =
      inr (s, (e, passed), rw (l.world r w) goes_on)
  resume-Branches p ps qs r w (failed x) l e h =
      inl (l.world r w, l.kept r w, (λ k. cc), rw (e, resume) refl)
  resume-Branches p ps qs r w panicked l e h =
      inl (l.world r w, l.kept r w, (λ k. cc), rw (e, resume) refl)

  replay-Branches :
      (ps qs : List (Processor W)) (r : AuditLogRequest) (w : W)
      → All IsLocal ps
      → Branches ps qs r w (replay (ps ++ qs) r w)
  unfolding replay
  replay-Branches [] qs r w h = inr (r, refl, refl)
  replay-Branches (p ∷ ps) qs r w (l, h) =
      resume-Branches p ps qs r w (p.process r w).exit l refl
        (replay-Branches ps qs (p.process r w).request w h)

  -- What a pass that stops at a failed precondition leaves.
  pub record IsDropped (c : Client W) (r : AuditLogRequest) (w w' : W) : Type 0 where
    pub world : w' ≡ w
    pub error : Err
    pub precondition : is_err precondition_failed error ≡ true
    pub stopped : (replay (c.validators ++ c.mutators) (set_mode c r) w).exit ≡ failed error

  -- A call of `Log` that brings a request to the backends.
  pub record IsBrought (c : Client W) (r : AuditLogRequest) (w : W) : Type 0 where
    pub validated : AuditLogRequest
    pub sent : AuditLogRequest
    pub by_validators : Passed c.validators w (set_mode c r) validated
    pub by_mutators : Passed c.mutators w validated sent
    pub kept : Kept (set_mode c r) sent
    pub rest : Agrees (log c r w) (replay (c.backends ++ []) sent w)

  IsDropped-of_Ended :
      (c : Client W) (r : AuditLogRequest) (w : W) (s : Outcome W)
      → Agrees (log c r w) s
      → Ended (c.validators ++ c.mutators) (set_mode c r) w s
      → (set_mode c r).mode ≡ fail_close
      → (log c r w).exit ≡ done
      → IsDropped c r w (log c r w).world
  IsDropped-of_Ended c r w s a (same, kept, short, end) mode d =
      elim (Agrees-done (log c r w) s a (ap (λ x. x.mode) kept.rest ∙ mode) d) [
        | inl finished ↦ absurd (short finished)
        | inr (e, stopped, precondition) ↦ record {
          world = a.world ∙ same;
          error = e;
          precondition = precondition;
          stopped = end ∙ stopped;
        }
      ]

  -- In fail-close mode a call of `Log` without an error, on validators and mutators that are local,
  -- stops at a failed precondition with the world as it was, or brings the request to the backends.
  pub log-brings :
      (c : Client W) (r : AuditLogRequest) (w : W)
      → All IsLocal c.validators
      → All IsLocal c.mutators
      → (set_mode c r).mode ≡ fail_close
      → (log c r w).exit ≡ done
      → IsDropped c r w (log c r w).world ⊎ IsBrought c r w
  log-brings c r w v m mode d =
      let all = All-append IsLocal c.validators c.mutators v m in
      let ps = c.validators ++ c.mutators in
      let agrees =
        rw (sym (append_assoc c.validators c.mutators (c.backends ++ []))) at (log-replay c r w) in
      elim (replay-Branches ps (c.backends ++ []) (set_mode c r) w all) [
        | inl ended ↦ inl (IsDropped-of_Ended c r w _ agrees ended mode d)
        | inr (s, passed, goes_on) ↦ inr (record {
          validated = (Passed-append c.validators c.mutators w (set_mode c r) s passed).0;
          sent = s;
          by_validators = (Passed-append c.validators c.mutators w (set_mode c r) s passed).1;
          by_mutators = (Passed-append c.validators c.mutators w (set_mode c r) s passed).2;
          kept = Passed-Kept ps w (set_mode c r) s all passed;
          rest = rw goes_on at agrees;
        })
      ]

  resume-one :
      (x : Exit) (o : Outcome W)
      → o.exit ≡ x
      → ((resume x o (replay [])).world ≡ o.world)
        × ((resume x o (replay [])).request ≡ o.request)
        × ((resume x o (replay [])).exit ≡ o.exit)
  unfolding resume replay
  resume-one done o h = (refl, refl, sym h)
  resume-one (failed e) o h = (refl, refl, refl)
  resume-one panicked o h = (refl, refl, refl)

  -- A pass over one processor leaves what the processor leaves.
  pub replay-one :
      (p : Processor W) (r : AuditLogRequest) (w : W)
      → ((replay (p ∷ []) r w).world ≡ (p.process r w).world)
        × ((replay (p ∷ []) r w).request ≡ (p.process r w).request)
        × ((replay (p ∷ []) r w).exit ≡ (p.process r w).exit)
  unfolding replay
  replay-one p r w = resume-one (p.process r w).exit (p.process r w) refl

  -- `Log` fills in the mode alone.
  pub set_mode-rest :
      (c : Client W) (r : AuditLogRequest)
      → ((set_mode c r).labels ≡ r.labels)
        × ((set_mode c r).log_type ≡ r.log_type)
        × ((set_mode c r).payload ≡ r.payload)
  unfolding set_mode
  set_mode-rest c r = (ground arith, ground arith, ground arith)

  -- Processors of which none ever panics, and a pass over them.
  abbrev pub NeverPanics : Processor W → Type 0
  NeverPanics p = (r : AuditLogRequest) (w : W) → (p.process r w).exit ≢ panicked

  resume-NeverPanics :
      (x : Exit) (o : Outcome W) (ps : List (Processor W))
      → o.exit ≡ x
      → x ≢ panicked
      → (replay ps o.request o.world).exit ≢ panicked
      → (resume x o (replay ps)).exit ≢ panicked
  unfolding resume
  resume-NeverPanics done o ps e n h = h
  resume-NeverPanics (failed x) o ps e n h = λ k. cc
  resume-NeverPanics panicked o ps e n h = absurd (n refl)

  replay-NeverPanics :
      (ps : List (Processor W)) (r : AuditLogRequest) (w : W)
      → All NeverPanics ps
      → (replay ps r w).exit ≢ panicked
  unfolding replay
  replay-NeverPanics [] r w h = λ k. cc
  replay-NeverPanics (p ∷ ps) r w (n, h) =
      resume-NeverPanics (p.process r w).exit (p.process r w) ps refl (n r w)
        (replay-NeverPanics ps (p.process r w).request (p.process r w).world h)

  -- Then `Log` does not panic.
  pub log-NeverPanics :
      (c : Client W) (r : AuditLogRequest) (w : W)
      → All NeverPanics c.validators
      → All NeverPanics c.mutators
      → All NeverPanics c.backends
      → (log c r w).exit ≢ panicked
  log-NeverPanics c r w v m b h =
      let all = All-append NeverPanics c.validators (c.mutators ++ (c.backends ++ [])) v (
        All-append NeverPanics c.mutators (c.backends ++ []) m
          (All-append NeverPanics c.backends [] b tt)) in
      let a = log-replay c r w in
      let settled = a.exit in
      replay-NeverPanics (c.validators ++ (c.mutators ++ (c.backends ++ []))) (set_mode c r) w all
        (settle-panicked _ _ (sym (rw h at settled)))

  pub set_mode_fixed : (c : Client W) (r : AuditLogRequest) → r.mode ≡ fail_close → set_mode c r ≡ r
  unfolding set_mode
  set_mode_fixed c r h = rw h

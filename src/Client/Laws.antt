-- ===== src/Client/Laws.antt =====
-- `Log` of clients/go/pkg/audit/client.go and one pass over all the processors.
use lumberjack.Prelude.{
  String, ◌≡◌, refl, List, [], ◌∷◌, ◌++◌, if◌then◌else◌, arith, Bool-cases, inl, inr,
}
use lumberjack.Errors.{Err, wrap, is_err, precondition_failed, Exit, done, failed, panicked}
use lumberjack.Api.{AuditLogRequest, LogMode, should_fail_close}
use lumberjack.Client.{
  Outcome, Processor, Client, Rest, handle_return, refuse, proceed, stage, finish, set_mode, log,
}

-- The end of a call, without the words that name the kind of processor.
abbrev pub unwrapped : Exit → Exit
unwrapped (failed (wrap _ e)) = failed e
unwrapped x = x

-- What `Log` makes of a processor's end: a failed precondition is no error, and another error is
-- one in fail-close mode only.
abbrev pub settle : LogMode → Exit → Exit
settle mode done = done
settle mode panicked = panicked
settle mode (failed e) =
    if is_err precondition_failed e then done else if should_fail_close mode then failed e else done

module _ {W : Type 0} where
  unfoldable pub resume : Exit → Outcome W → Rest W → Outcome W
  resume done o rest = rest o.request o.world
  resume (failed e) o rest = o
  resume panicked o rest = o

  -- The processors in turn, each on what the one before it left, up to the first that does not pass.
  unfoldable pub replay : List (Processor W) → Rest W
  unfolding resume
  replay [] r w = finish r w
  replay (p ∷ ps) r w = let o = p.process r w in resume o.exit o (replay ps)

  pub record Agrees (o s : Outcome W) : Type 0 where
    pub world : o.world ≡ s.world
    pub request : o.request ≡ s.request
    pub exit : unwrapped o.exit ≡ settle s.request.mode s.exit

  refuse-Agrees :
      (message : String) (e : Err) (o : Outcome W)
      → o.exit ≡ failed e
      → Agrees (refuse message e o) o
  unfolding refuse handle_return
  refuse-Agrees message e o h = elim (Bool-cases (is_err precondition_failed e)) [
    | inl drop ↦ ground arith
    | inr keep ↦ ground arith
  ]

  proceed-Agrees :
      (message : String) (x : Exit) (o : Outcome W) (k l : Rest W)
      → ((r : AuditLogRequest) (w : W) → Agrees (k r w) (l r w))
      → o.exit ≡ x
      → Agrees (proceed message x o k) (resume x o l)
  unfolding proceed resume
  proceed-Agrees message done o k l h e = h o.request o.world
  proceed-Agrees message (failed x) o k l h e = refuse-Agrees message x o e
  proceed-Agrees message panicked o k l h e = ground arith

  -- A stage and what follows it are a pass over its processors and those of the rest.
  stage-Agrees :
      (message : String) (ps qs : List (Processor W)) (k : Rest W)
      → ((r : AuditLogRequest) (w : W) → Agrees (k r w) (replay qs r w))
      → (r : AuditLogRequest) (w : W) → Agrees (stage message ps k r w) (replay (ps ++ qs) r w)
  unfolding stage replay
  stage-Agrees message [] qs k h r w = h r w
  stage-Agrees message (p ∷ ps) qs k h r w =
      proceed-Agrees message (p.process r w).exit (p.process r w) (stage message ps k)
        (replay (ps ++ qs)) (stage-Agrees message ps qs k h) refl

  finish-Agrees : (r : AuditLogRequest) (w : W) → Agrees (finish r w) (replay [] r w)
  unfolding replay
  finish-Agrees r w = ground arith

  -- `Log` leaves the world and the request that one pass over validators, mutators and backends, in
  -- this order, leaves, and its end is the pass's end as the mode settles it.
  pub log-replay :
      (c : Client W) (r : AuditLogRequest) (w : W)
      → Agrees
          (log c r w)
          (replay (c.validators ++ (c.mutators ++ (c.backends ++ []))) (set_mode c r) w)
  unfolding log
  log-replay c r w =
      stage-Agrees _ c.validators (c.mutators ++ (c.backends ++ [])) _
        (stage-Agrees _ c.mutators (c.backends ++ []) _
          (stage-Agrees _ c.backends [] finish finish-Agrees))
        (set_mode c r) w

-- ===== src/AuditOpt/Relay.antt =====
-- From `Log` over the agent to Cloud Logging: a client that clients/go/pkg/auditopt/config.go built
-- for an agent, and the agent that cmd/server/main.go starts.
use mathlib.Core.Path.{subst}
use mathlib.Core.List.{append-nil}
use lumberjack.Prelude.{
  ◌≡◌, ◌≢◌, ◌⊎◌, refl, Bool-cases, String, true, false, sym, ap, ◌∙◌, inl, inr, Option, none, some,
  [], ◌∷◌, List, ◌++◌, NodupKeys, All, length, is_some, arith, some_inj,
}
use lumberjack.Errors.{
  Err, wrap, is_err, invalid_request, precondition_failed, ok, ok_inj, Exit, done, failed, panicked,
}
use lumberjack.Api.{AuditLogRequest, fail_close}
use lumberjack.Config.{Config, Remote, CloudLogging, set_default}
use lumberjack.Client.{Client, Outcome, Processor, default_client, log, set_mode}
use lumberjack.Client.Laws.{Agrees, replay}
use lumberjack.Client.Delivery.{IsDropped, IsBrought, Agrees-done, replay-one, set_mode-rest}
use lumberjack.CloudLogging.{LoggingClient}
use lumberjack.CloudLogging.Loggers.{IsLogOf}
use lumberjack.CloudLogging.Writing.{IsApart}
use lumberjack.Remote.{RemoteProcessor, remote_processor}
use lumberjack.Remote.Agent.{IsConnected, Authenticates, remote_answer, process_remote-answer}
use lumberjack.Server.{codify_err}
use lumberjack.Server.Main.{Surroundings, agent_client}
use lumberjack.Server.Delivery.{IsStored, log-IsStored, agent_client-NeverPanics}
use lumberjack.AuditOpt.{Outside, client_from_config, remote_from_config}
use lumberjack.AuditOpt.Pieces.{number, IsRemoteOf}
use lumberjack.AuditOpt.Shape.{client_from_config-IsBuilt}
use lumberjack.AuditOpt.Delivery.{IsDelivered, brings, sent-labels}

-- An error of the agent comes back as a status, which wraps nothing.
relayed-apart :
    (message : String) (e : Err) → is_err precondition_failed (wrap message (codify_err e)) ≡ false
unfolding codify_err is_err
relayed-apart message e = elim (Bool-cases (is_err invalid_request e)) [
  | inl b ↦ rw b
  | inr b ↦ rw b
]

module _ {W : Type 0} where
  remote_answer-mode :
      (r : AuditLogRequest) (o : Outcome W) (x : Exit)
      → x ≢ panicked
      → (remote_answer r o x).request.mode ≡ r.mode
  remote_answer-mode r o done h = refl
  remote_answer-mode r o (failed e) h = refl
  remote_answer-mode r o panicked h = absurd (h refl)

  -- A relayed call that does not fail, or that fails a precondition, is one that the agent's client
  -- logged without an error.
  remote_answer-done :
      (r : AuditLogRequest) (o : Outcome W) (x : Exit)
      → x ≢ panicked
      → ((remote_answer r o x).exit ≡ done)
        ⊎ ((e : Err) × ((remote_answer r o x).exit ≡ failed e)
            × (is_err precondition_failed e ≡ true))
      → (x ≡ done) × ((remote_answer r o x).world ≡ o.world)
  unfolding codify_err
  remote_answer-done r o done n h = (refl, refl)
  remote_answer-done r o (failed e) n (inl h) = absurd (cc)
  remote_answer-done r o (failed e) n (inr (e', h, precondition)) = absurd (
      let same : wrap "remote log processing failed: %w" (codify_err e) ≡ e' = cc in
      let free = relayed-apart "remote log processing failed: %w" e in cc)
  remote_answer-done r o panicked n h = absurd (n refl)

  module _ (s : Surroundings W) (lc : LoggingClient W) (agent : Client W) where
    -- A client whose only backend is connected to the agent: what it brings to the backend, the agent
    -- has stored, if `Log` returns no error in fail-close mode.
    relayed-IsStored :
        (q : RemoteProcessor W) (c : Client W) (r : AuditLogRequest) (w : W) (d : IsBrought c r w)
        → IsConnected agent q
        → Authenticates q
        → s.logging_client ≡ ok lc
        → IsApart lc
        → agent_client s ≡ ok agent
        → c.backends ≡ remote_processor q ∷ []
        → (set_mode c r).mode ≡ fail_close
        → (log c r w).exit ≡ done
        → IsStored lc d.sent w (log c r w).world
    relayed-IsStored q c r w d connected auth k apart made one mode ends =
        let agrees : Agrees (log c r w) (replay (remote_processor q ∷ []) d.sent w) =
          subst (λ ps. Agrees (log c r w) (replay ps d.sent w)) (append-nil c.backends ∙ one)
            d.rest in
        let (world, request, exit) = replay-one (remote_processor q) d.sent w in
        let calm = agent_client-NeverPanics s lc agent d.sent w made in
        let answer = process_remote-answer agent q d.sent w connected auth calm in
        let o = log agent d.sent w in
        let sent_mode = ap (λ x. x.mode) d.kept.rest ∙ mode in
        let kept_mode = remote_answer-mode d.sent o o.exit calm in
        let ended =
          Agrees-done (log c r w) (replay (remote_processor q ∷ []) d.sent w) agrees
            (ap (λ x. x.mode) (request ∙ ap (λ x. x.request) answer) ∙ kept_mode ∙ sent_mode)
            ends in
        let answered =
          subst
            (λ x. (x ≡ done) ⊎ ((e : Err) × (x ≡ failed e) × (is_err precondition_failed e ≡ true)))
            (exit ∙ ap (λ x. x.exit) answer) ended in
        let (logged, same) = remote_answer-done d.sent o o.exit calm answered in
        let (_, stored) = log-IsStored s lc agent d.sent w k apart made sent_mode logged in
        subst (IsStored lc d.sent w) (sym (agrees.world ∙ world ∙ ap (λ x. x.world) answer ∙ same))
          stored

  module _ (o : Outside W) where
    one_remote :
        (rm : Remote) (q : RemoteProcessor W) (r : Option Remote) (cm : Option CloudLogging)
        (remotes clouds : List (Processor W))
        → remote_from_config o rm ≡ ok q
        → r ≡ some rm
        → cm ≡ none
        → length remotes ≡ number (is_some r)
        → length clouds ≡ number (is_some cm)
        → All (IsRemoteOf o r) remotes
        → remotes ++ clouds ≡ remote_processor q ∷ []
    one_remote rm q r cm (b ∷ []) [] given e f h k ((x, p, there, made, same), _) =
        let which : x ≡ rm = cc in
        let made' : ok p ≡ ok q = sym (rw which at made) ∙ given in rw (same, ok_inj made')
    one_remote rm q r cm [] cs given e f h k m = absurd (let h' = rw e at h in omega arith)
    one_remote rm q r cm (b ∷ b' ∷ bs) cs given e f h k m =
        absurd (let h' = rw e at h in omega arith)
    one_remote rm q r cm (b ∷ []) (b' ∷ bs) given e f h k m =
        absurd (let k' = rw f at k in omega arith)

    -- A client that the option for a configuration has built, with an agent as its only backend,
    -- and that returns nil in fail-close mode, has either dropped the request at a failed
    -- precondition of a validator or a mutator, with the world as it was; or the agent has written
    -- to Cloud Logging, once, synchronously and without an error, to the log of the request's type,
    -- a request with a complete payload that differs from the caller's in its mode, its payload's
    -- metadata and its labels at most, and whose labels are the caller's, with the client's
    -- configured ones for the keys that these lack. It is assumed that the connection hands on what
    -- the agent answers, that the authentication works and has no effect on the world, that the
    -- agent's client is the one that cmd/server/main.go makes, that its logging client's errors are
    -- no failed preconditions of this program, and that the configured labels are a map.
    pub log-IsRelayed :
        (s : Surroundings W) (lc : LoggingClient W) (agent : Client W) (cfg : Config) (rm : Remote)
        (q : RemoteProcessor W) (c : Client W) (r : AuditLogRequest) (w : W)
        → s.logging_client ≡ ok lc
        → IsApart lc
        → agent_client s ≡ ok agent
        → remote_from_config o rm ≡ ok q
        → IsConnected agent q
        → Authenticates q
        → NodupKeys cfg.labels
        → client_from_config o (some cfg) default_client ≡ ok c
        → (set_default o.to_upper cfg).backend
          ≡ some (record { remote = some rm; cloud_logging = none })
        → (set_mode c r).mode ≡ fail_close
        → (log c r w).exit ≡ done
        → IsDropped c r w (log c r w).world ⊎ IsDelivered o lc cfg.labels c r w (log c r w).world
    unfolding set_default
    log-IsRelayed s lc agent cfg rm q c r w k a agent_made q_made connected auth n made only mode
          ends =
        let full = set_default o.to_upper cfg in
        let b = (client_from_config-IsBuilt o cfg c made).1 in
        let there : b.backend ≡ record { remote = some rm; cloud_logging = none } =
          some_inj (sym b.backend_there ∙ only) in
        let one =
          one_remote rm q b.backend.remote b.backend.cloud_logging b.remotes b.clouds q_made
            (ap (λ x. x.remote) there) (ap (λ x. x.cloud_logging) there) b.remote_if b.cloud_if
            b.remotes_made in
        elim (brings o full c r w b mode ends) [
          | inl dropped ↦ inl dropped
          | inr d ↦
              let x =
                relayed-IsStored s lc agent q c r w d connected auth k a agent_made
                  (b.backends ∙ one) mode ends in
              inr (record {
                sent = d.sent;
                complete = x.complete;
                kept = d.kept;
                labels = λ j. sent-labels o full c r w j b d n;
                name = x.name;
                of_type =
                    subst (λ t. IsLogOf t x.name)
                      (ap (λ y. y.log_type) d.kept.rest ∙ (set_mode-rest c r).1) x.of_type;
                write = x.write;
              })
        ]

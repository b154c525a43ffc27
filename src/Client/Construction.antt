-- ===== src/Client/Construction.antt =====
-- `NewClient` of clients/go/pkg/audit/client.go with the options of the package, and `Log` of the
-- clients that it makes.
use lumberjack.Prelude.{
  String, ◌≡◌, refl, sym, ◌∙◌, ap, true, List, [], ◌∷◌, ◌++◌, arith, some, All, Option-cases, inl,
  inr,
}
use mathlib.Core.List.{append_assoc, append-nil}
use lumberjack.Errors.{
  Err, wrap, is_err, invalid_request, Result, ok, err, >>=-eq-ok, map_err-eq-ok,
}
use lumberjack.Api.{AuditLogRequest, LogMode}
use lumberjack.Validation.{validate_request}
use lumberjack.Validation.Laws.{
  validate_request-is_err, validate_request-IsFree, validate_request_iff, HasCompletePayload,
}
use lumberjack.Client.{
  Processor, Client, ClientOption, Rest, finish, handle_return, stage, set_mode, log,
  request_validator, with_validator, with_mutator, with_backend, with_log_mode, with_runtime_info,
  apply_options, default_client, new_client,
}

refused :
    (r : AuditLogRequest)
    → ¬ HasCompletePayload (some r)
    → (e : Err) × (validate_request (some r) ≡ some e)
refused r h = elim (Option-cases (validate_request (some r))) [
  | inl passed ↦ absurd (h ((validate_request_iff (some r)).0 passed))
  | inr found ↦ found
]

module _ {W : Type 0} where
  -- What the package's options do: none takes a validator away.
  abbrev pub IsAppending : ClientOption W → Type 0
  IsAppending o =
      (c c' : Client W)
      → o c ≡ ok c'
      → (more : List (Processor W)) × (c'.validators ≡ c.validators ++ more)

  pub with_validator-IsAppending : (p : Processor W) → IsAppending (with_validator p)
  unfolding with_validator
  with_validator-IsAppending p c c' h = (p ∷ [], ground arith)

  pub with_mutator-IsAppending : (p : Processor W) → IsAppending (with_mutator p)
  unfolding with_mutator
  with_mutator-IsAppending p c c' h = ([], ground (arith, append-nil c.validators))

  pub with_backend-IsAppending : (p : Processor W) → IsAppending (with_backend p)
  unfolding with_backend
  with_backend-IsAppending p c c' h = ([], ground (arith, append-nil c.validators))

  pub with_log_mode-IsAppending : (m : LogMode) → IsAppending (with_log_mode m)
  unfolding with_log_mode
  with_log_mode-IsAppending m c c' h = ([], ground (arith, append-nil c.validators))

  pub with_runtime_info-IsAppending : (p : Result (Processor W)) → IsAppending (with_runtime_info p)
  unfolding with_runtime_info
  with_runtime_info-IsAppending (err e) c c' h = cc
  with_runtime_info-IsAppending (ok p) c c' h = ([], ground (arith, append-nil c.validators))

  pub ruleset appending_options = (
    with_validator-IsAppending, with_mutator-IsAppending, with_backend-IsAppending,
    with_log_mode-IsAppending, with_runtime_info-IsAppending,
  )

  pub apply_options-IsAppending :
      (os : List (ClientOption W)) → All IsAppending os → IsAppending (apply_options os)
  unfolding apply_options
  apply_options-IsAppending [] h c c' e = ([], ground (arith, append-nil c.validators))
  apply_options-IsAppending (o ∷ os) (p, h) c c' e =
      let (d, first, later) = >>=-eq-ok (o c) (apply_options os) e in
      let (more, x) = p c d first in
      let (more', y) = apply_options-IsAppending os h d c' later in
      (more ++ more', y ∙ ap (λ l. l ++ more') x ∙ append_assoc c.validators more more')

  new_client-validators :
      (os : List (ClientOption W)) (c : Client W)
      → All IsAppending os
      → new_client os ≡ ok c
      → (more : List (Processor W)) × (c.validators ≡ request_validator ∷ more)
  unfolding new_client
  new_client-validators os c h e = apply_options-IsAppending os h default_client c (
      map_err-eq-ok (wrap "failed to apply client options: %w") (apply_options os default_client) e)

  stage_invalid :
      (message : String) (ps : List (Processor W)) (k : Rest W) (r : AuditLogRequest) (w : W)
      (e : Err)
      → validate_request (some r) ≡ some e
      → stage message (request_validator ∷ ps) k r w
        ≡ record { world = w; request = r; exit = handle_return (wrap message e) r.mode }
  unfolding stage request_validator
  stage_invalid message ps k r w e h = rw h (rw (validate_request-IsFree r e h))

  set_mode-payload : (c : Client W) (r : AuditLogRequest) → (set_mode c r).payload ≡ r.payload
  unfolding set_mode
  set_mode-payload c r = ground arith

  -- A client that `NewClient` made with options that keep the default validator first passes on no
  -- request whose payload is incomplete: the world stays, and the request has its mode filled in at
  -- most. In fail-close mode the caller gets an error that says that the request is invalid, and in
  -- any other none.
  pub new_client-log_invalid :
      (os : List (ClientOption W)) (c : Client W) (r : AuditLogRequest) (w : W)
      → All IsAppending os
      → new_client os ≡ ok c
      → ¬ HasCompletePayload (some r)
      → ((log c r w).world ≡ w)
        × ((log c r w).request ≡ set_mode c r)
        × ((e : Err) × (is_err invalid_request e ≡ true)
            × ((log c r w).exit ≡ handle_return e (set_mode c r).mode))
  unfolding log is_err
  new_client-log_invalid os c r w h made bad =
      let (more, shape) = new_client-validators os c h made in
      let (e, found) =
        refused (set_mode c r) (λ (p, q, x). bad (p, sym (set_mode-payload c r) ∙ q, x)) in
      let run =
        stage_invalid "failed to execute validator %T: %w" more
          (stage "failed to execute mutator %T: %w" c.mutators
            (stage "failed to execute backend %T: %w" c.backends finish))
          (set_mode c r) w e found in
      let message = wrap "failed to execute validator %T: %w" e in
      rw (shape, run) (refl, refl, (message, validate_request-is_err _ e found, refl))

-- ===== src/AuditOpt/Gentle.antt =====
-- The validators and mutators that clients/go/pkg/auditopt/config.go makes look at the request alone
-- and change its payload's metadata and its labels at most.
use lumberjack.Prelude.{◌≡◌, String, refl, Option, none, some, [], ◌∷◌, ◌==◌, Bool-cases, inl, inr}
use lumberjack.Errors.{Result, ok, err}
use lumberjack.Api.{AuditLog, AuditLogRequest}
use lumberjack.Api.Values.{Value, Struct, Fields}
use lumberjack.Client.{Processor, Outcome, request_validator}
use lumberjack.Client.Delivery.{core, Kept, Kept-refl, IsLocal, IsGentle}
use lumberjack.Filtering.{Regexps, PrincipalEmailMatcher, matcher_processor}
use lumberjack.Labels.{LabelProcessor, label_processor, process_labels}
use lumberjack.Runtime.{runtime_processor, process_runtime, add_resource}
use lumberjack.Justification.{
  Jvs, justification_processor, process_justification, read_token, read_reason, with_read,
  write_token, finish_with, writable, with_token,
}

process_labels-Kept : (p : LabelProcessor) (r : AuditLogRequest) → Kept r (process_labels p r)
unfolding process_labels
process_labels-Kept p r =
    elim p.default_labels as (λ d. Kept r (process_labels (record { default_labels = d }) r)) [
      | [] ↦ Kept-refl r
      | _ ∷ _ ↦ record { payload = refl; rest = refl }
    ]

module _ {W : Type 0} where
  pub request_validator-IsGentle : IsGentle {W = W} request_validator
  unfolding request_validator
  request_validator-IsGentle = record {
    local = record { world = λ r w. refl; kept = λ r w. Kept-refl r };
    labels = λ r w. refl;
  }

  pub matcher-IsGentle :
      (x : Regexps) (m : PrincipalEmailMatcher x) → IsGentle {W = W} (matcher_processor x m)
  unfolding matcher_processor
  matcher-IsGentle x m = record {
    local = record { world = λ r w. refl; kept = λ r w. Kept-refl r };
    labels = λ r w. refl;
  }

  pub label-IsLocal : (p : LabelProcessor) → IsLocal {W = W} (label_processor p)
  unfolding label_processor
  label-IsLocal p = record { world = λ r w. refl; kept = λ r w. process_labels-Kept p r }

  -- What a gentle processor leaves.
  abbrev Leaves : AuditLogRequest → W → Outcome W → Type 0
  Leaves r w o = (o.world ≡ w) × Kept r o.request × (o.request.labels ≡ r.labels)

  abbrev gentle :
      (p : Processor W) → ((r : AuditLogRequest) (w : W) → Leaves r w (p.process r w)) → IsGentle p
  gentle p h = record {
    local = record { world = λ r w. (h r w).0; kept = λ r w. (h r w).1 };
    labels = λ r w. (h r w).2;
  }

  add_resource-Leaves :
      (v : Value) (r : AuditLogRequest) (o : Option AuditLog) (w : W)
      → r.payload ≡ o
      → Leaves r w (add_resource v r o w)
  add_resource-Leaves v r none w h = (refl, Kept-refl r, refl)
  add_resource-Leaves v r (some p) w h = (refl, record { payload = rw h; rest = refl }, refl)

  process_runtime-Leaves :
      (v : Option Value) (r : AuditLogRequest) (w : W) → Leaves r w (process_runtime v r w)
  unfolding process_runtime
  process_runtime-Leaves none r w = (refl, Kept-refl r, refl)
  process_runtime-Leaves (some v) r w = add_resource-Leaves v r r.payload w refl

  pub runtime-IsGentle : (v : Option Value) → IsGentle {W = W} (runtime_processor v)
  runtime-IsGentle v = gentle (runtime_processor v) (process_runtime-Leaves v)

  module _ (jvs : Jvs) (r : AuditLogRequest) (w : W) where
    finish_with-Leaves :
        (p q : AuditLog) (reason : Result (Option String))
        → r.payload ≡ some p
        → core (some q) ≡ core (some p)
        → Leaves r w (finish_with jvs r w q reason)
    finish_with-Leaves p q (err e) h k = (refl, record { payload = rw h k; rest = refl }, refl)
    finish_with-Leaves p q (ok none) h k = (refl, record { payload = rw h k; rest = refl }, refl)
    finish_with-Leaves p q (ok (some x)) h k =
        (refl, record { payload = rw h k; rest = refl }, refl)

    write_token-Leaves :
        (token : jvs.Token) (s : Struct) (p : AuditLog) (o : Option Fields)
        → r.payload ≡ some p
        → Leaves r w (write_token jvs r w p token s o)
    write_token-Leaves token s p none h = (refl, Kept-refl r, refl)
    write_token-Leaves token s p (some fs) h =
        finish_with-Leaves p (with_token p s fs) (read_reason jvs token) h refl

    with_read-Leaves :
        (m : Result (jvs.Token × Struct)) (p : Option AuditLog)
        → r.payload ≡ p
        → Leaves r w (with_read jvs r w m p)
    with_read-Leaves (err e) p h = (refl, Kept-refl r, refl)
    with_read-Leaves (ok x) none h = (refl, Kept-refl r, refl)
    with_read-Leaves (ok (token, s)) (some p) h =
        write_token-Leaves token s p (writable p.metadata) h

    process_justification-Leaves : Leaves r w (process_justification jvs r w)
    unfolding process_justification
    process_justification-Leaves = elim (Bool-cases (r.justification_token == "")) [
      | inl b ↦ rw b (refl, Kept-refl r, refl)
      | inr b ↦ rw b (with_read-Leaves (read_token jvs r) r.payload refl)
    ]

  pub justification-IsGentle : (jvs : Jvs) → IsGentle {W = W} (justification_processor jvs)
  justification-IsGentle jvs =
      gentle (justification_processor jvs) (process_justification-Leaves jvs)

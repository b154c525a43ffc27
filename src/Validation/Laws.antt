-- ===== src/Validation/Laws.antt =====
-- What pkg/validation/validation.go and the audit client's default validator accept.
use Prim.Native.String.{String, ◌∷◌, ◌++◌}
use text.Mathlib.TextLemmas.{append-ne-nil_of_right_ne-nil, cons≢nil}
use lumberjack.Prelude.{
  refl, ◌≡◌, ◌≢◌, ◌↔◌, inl, inr, Option, none, some, List, [], ◌∷◌, eq_iff, arith, true, false,
  Option-cases,
}
use lumberjack.Api.{AuditLog, AuditLogRequest}
use lumberjack.Errors.{Err, is_err, invalid_request, precondition_failed, IsFree, join-IsFree}
use lumberjack.Validation.Split.{split, at_sign, Lacks, split-two, split_append}
use lumberjack.Validation.{
  is_malformed, require, check_principal, validate_email, validate_payload_fields,
  validate_audit_log, check_request, validate_request,
}

-- A local part, "@" and a domain that is not empty, with no other "@". The local part may be empty.
abbrev pub IsEmail : String → Type 0
IsEmail email =
    (local : String) × (domain : String) × (email ≡ local ++ (at_sign ∷ domain))
    × Lacks at_sign local
    × Lacks at_sign domain
    × (domain ≢ "")

malformed-two :
    (ps : List String)
    → is_malformed ps ≡ false
    → (a : String) × (b : String) × (ps ≡ a ∷ b ∷ []) × (b ≢ "")
unfolding is_malformed
malformed-two (a ∷ b ∷ []) h = (a, b, ground arith, ground (arith, eq_iff b ""))
malformed-two [] h = cc
malformed-two (a ∷ []) h = cc
malformed-two (a ∷ b ∷ c ∷ ps) h = cc

two-well_formed : (a b : String) → b ≢ "" → is_malformed (a ∷ b ∷ []) ≡ false
unfolding is_malformed
two-well_formed a b n = ground (arith, eq_iff b "")

validate_email_sound : (email : String) → validate_email email ≡ none → IsEmail email
unfolding validate_email
validate_email_sound email h =
    let (a, b, two, n) = malformed-two (split at_sign email) (ground arith) in
    let (shape, la, lb) = split-two at_sign email a b two in (a, b, shape, la, lb, n)

validate_email_complete : (email : String) → IsEmail email → validate_email email ≡ none
unfolding validate_email
validate_email_complete email (a, b, shape, la, lb, n) =
    let present : email ≢ "" = rw shape (append-ne-nil_of_right_ne-nil a cons≢nil) in
    let two : split at_sign email ≡ a ∷ b ∷ [] = rw shape (split_append at_sign a b la lb) in
    ground (arith, eq_iff email "", two, two-well_formed a b n)

abbrev HasEmail : Option String → Type 0
HasEmail none = ⊥
HasEmail (some email) = IsEmail email

-- The payload names its method, service and resource, and its principal by an email address.
pub record IsComplete (p : AuditLog) : Type 0 where
  pub method : p.method_name ≢ ""
  pub service : p.service_name ≢ ""
  pub resource : p.resource_name ≢ ""
  pub principal : HasEmail p.authentication_info

principal_sound : (o : Option String) → check_principal o ≡ none → HasEmail o
principal_sound none h = cc
principal_sound (some email) h = validate_email_sound email h

principal_complete : (o : Option String) → HasEmail o → check_principal o ≡ none
principal_complete none h = absurd h
principal_complete (some email) h = validate_email_complete email h

pub validate_payload_fields_iff : (p : AuditLog) → (validate_payload_fields p ≡ none) ↔ IsComplete p
unfolding validate_payload_fields
validate_payload_fields_iff p = (
  λ h. record {
    method = ground (arith, eq_iff p.method_name "");
    service = ground (arith, eq_iff p.service_name "");
    resource = ground (arith, eq_iff p.resource_name "");
    principal = principal_sound p.authentication_info (ground arith);
  },
  λ c. ground (
    arith,
    eq_iff p.method_name "",
    eq_iff p.service_name "",
    eq_iff p.resource_name "",
    principal_complete p.authentication_info c.principal,
  ),
)

-- The request is there, with a payload that is complete.
abbrev pub HasCompletePayload : Option AuditLogRequest → Type 0
HasCompletePayload none = ⊥
HasCompletePayload (some r) = (p : AuditLog) × (r.payload ≡ some p) × IsComplete p

-- The default validator passes a request exactly when its payload is complete.
pub validate_request_iff :
    (o : Option AuditLogRequest) → (validate_request o ≡ none) ↔ HasCompletePayload o
unfolding validate_request check_request validate_audit_log
validate_request_iff none = (λ h. cc, λ h. absurd h)
validate_request_iff (some r) = elim (Option-cases r.payload) [
  | inl missing ↦ (λ h. ground arith, λ (p, found, c). cc)
  | inr (p, found) ↦ (
    λ h. (p, found, (validate_payload_fields_iff p).0 (ground arith)),
    λ (q, same, c). ground (arith, (validate_payload_fields_iff q).1 c),
  )
]

-- Every error of the default validator is one for an invalid request.
pub validate_request-is_err :
    (o : Option AuditLogRequest) (e : Err)
    → validate_request o ≡ some e
    → is_err invalid_request e ≡ true
unfolding validate_request is_err
validate_request-is_err o e h = ground arith

require-IsFree : (x message : String) → IsFree precondition_failed (require x message)
unfolding is_err
require-IsFree x message = ground arith

principal-IsFree : (o : Option String) → IsFree precondition_failed (check_principal o)
unfolding validate_email is_err
principal-IsFree none = refl
principal-IsFree (some email) = ground arith

payload-IsFree : (o : Option AuditLog) → IsFree precondition_failed (validate_audit_log o)
unfolding validate_audit_log is_err
payload-IsFree none = refl
payload-IsFree (some p) =
    join-IsFree precondition_failed _ _
      (join-IsFree precondition_failed _ _
        (join-IsFree precondition_failed _ _ (require-IsFree p.method_name _)
          (require-IsFree p.service_name _))
        (require-IsFree p.resource_name _))
      (principal-IsFree p.authentication_info)

-- No error of the default validator on a request says that a precondition failed.
pub validate_request-IsFree :
    (r : AuditLogRequest) (e : Err)
    → validate_request (some r) ≡ some e
    → is_err precondition_failed e ≡ false
unfolding validate_request is_err
validate_request-IsFree r e h =
    let free = payload-IsFree r.payload in
    elim (Option-cases (validate_audit_log r.payload)) [
      | inl none_found ↦ ground arith
      | inr (x, found) ↦ let free' = rw found at free in ground arith
    ]

-- An error, if there is one, that is for an invalid request and not for a failed precondition.
abbrev pub IsInvalid : Option Err → Type 0
IsInvalid none = Unit
IsInvalid (some e) = (is_err invalid_request e ≡ true) × (is_err precondition_failed e ≡ false)

IsInvalid-if :
    (o : Option Err)
    → ((e : Err) → o ≡ some e → is_err invalid_request e ≡ true)
    → ((e : Err) → o ≡ some e → is_err precondition_failed e ≡ false)
    → IsInvalid o
IsInvalid-if none h k = tt
IsInvalid-if (some e) h k = (h e refl, k e refl)

-- Every error of the default validator on a request is one for an invalid request, and none is one of
-- a failed precondition.
pub validate_request-IsInvalid : (r : AuditLogRequest) → IsInvalid (validate_request (some r))
validate_request-IsInvalid r =
    IsInvalid-if _ (validate_request-is_err (some r)) (validate_request-IsFree r)

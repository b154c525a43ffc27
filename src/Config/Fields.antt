-- ===== src/Config/Fields.antt =====
-- What the parts of a configuration are checked for, in clients/go/apis/v1alpha1/config.go.
use lumberjack.Prelude.{
  String, ◌≡◌, ◌≢◌, ◌↔◌, refl, ◌⊎◌, none, some, Option, List, [], ◌∷◌, arith, eq_iff, true, false,
  All, is_some,
}
use lumberjack.Errors.{join-none_iff, Err, join, wrap}
use lumberjack.Config.{
  Backend, Remote, CloudLogging, AuditRule, FromRawJwt, SecurityContext, directive_default,
  directive_request_only, directive_request_and_response, validate_remote, validate_cloud_logging,
  jwts_of, validate_backend, validate_from_raw_jwt, validate_jwts, validate_security_context,
  is_known_directive, is_known_log_type, validate_rule, validate_rules, each, on_some,
}

-- One project, named or by default.
pub record IsValidCloudLogging (cl : CloudLogging) : Type 0 where
  pub a_project : (cl.project ≢ "") ⊎ (cl.default_project ≡ true)
  pub one_project : (cl.project ≡ "") ⊎ (cl.default_project ≡ false)

pub validate_cloud_logging_iff :
    (cl : CloudLogging) → (validate_cloud_logging cl ≡ none) ↔ IsValidCloudLogging cl
unfolding validate_cloud_logging
validate_cloud_logging_iff cl = ground (arith, eq_iff cl.project "")

-- The values of a field that may be nil.
abbrev pub IfSome {ℓ} : {A : Type ℓ} → (A → Type 0) → Option A → Type 0
IfSome P none = Unit
IfSome P (some a) = P a

pub each_iff {ℓ} :
    {A : Type ℓ} (f : A → Option Err) (P : A → Type 0)
    → ((a : A) → (f a ≡ none) ↔ P a)
    → (o : Option A) → (each f o ≡ none) ↔ IfSome P o
each_iff f P h none = (λ _. tt, λ _. refl)
each_iff f P h (some a) = h a

pub record IsValidBackend (b : Backend) : Type 0 where
  pub remote : IfSome (λ r. r.address ≢ "") b.remote
  pub cloud_logging : IfSome IsValidCloudLogging b.cloud_logging
  pub some_backend : (is_some b.remote ≡ true) ⊎ (is_some b.cloud_logging ≡ true)

validate_remote_iff : (r : Remote) → (validate_remote r ≡ none) ↔ (r.address ≢ "")
unfolding validate_remote
validate_remote_iff r = ground (arith, eq_iff r.address "")

pub validate_backend_iff : (b : Backend) → (validate_backend b ≡ none) ↔ IsValidBackend b
unfolding validate_backend
validate_backend_iff b = ground (
  arith,
  each_iff validate_remote (λ (r : Remote). r.address ≢ "") validate_remote_iff b.remote,
  each_iff validate_cloud_logging IsValidCloudLogging validate_cloud_logging_iff b.cloud_logging,
)

pub record IsValidRule (r : AuditRule) : Type 0 where
  pub selector : r.selector ≢ ""
  pub directive :
      (r.directive ≡ directive_default)
      ⊎ (r.directive ≡ directive_request_only)
      ⊎ (r.directive ≡ directive_request_and_response)
  pub log_type : (r.log_type ≡ "ADMIN_ACTIVITY") ⊎ (r.log_type ≡ "DATA_ACCESS")

is_known_directive_iff :
    (d : String)
    → (is_known_directive d ≡ true) ↔ (
        (d ≡ directive_default)
        ⊎ (d ≡ directive_request_only)
        ⊎ (d ≡ directive_request_and_response))
unfolding is_known_directive
is_known_directive_iff d = ground (
  arith,
  eq_iff d directive_default,
  eq_iff d directive_request_only,
  eq_iff d directive_request_and_response,
)

is_known_log_type_iff :
    (t : String) → (is_known_log_type t ≡ true) ↔ ((t ≡ "ADMIN_ACTIVITY") ⊎ (t ≡ "DATA_ACCESS"))
unfolding is_known_log_type
is_known_log_type_iff t = ground (arith, eq_iff t "ADMIN_ACTIVITY", eq_iff t "DATA_ACCESS")

known_directive_nonempty : (d : String) → is_known_directive d ≡ true → d ≢ ""
unfolding is_known_directive
known_directive_nonempty d h e = cc (rw e at h)

known_log_type_nonempty : (t : String) → is_known_log_type t ≡ true → t ≢ ""
unfolding is_known_log_type
known_log_type_nonempty t h e = cc (rw e at h)

validate_rule_sound : (r : AuditRule) → validate_rule r ≡ none → IsValidRule r
unfolding validate_rule
validate_rule_sound r h = record {
  selector = ground (arith, eq_iff r.selector "");
  directive = (is_known_directive_iff r.directive).0 (ground arith);
  log_type = (is_known_log_type_iff r.log_type).0 (ground arith);
}

validate_rule_complete : (r : AuditRule) → IsValidRule r → validate_rule r ≡ none
unfolding validate_rule
validate_rule_complete r v =
    let d = (is_known_directive_iff r.directive).1 v.directive in
    let t = (is_known_log_type_iff r.log_type).1 v.log_type in
    let d' = known_directive_nonempty r.directive d in
    let t' = known_log_type_nonempty r.log_type t in
    ground (arith, eq_iff r.selector "", eq_iff r.directive "", eq_iff r.log_type "")

validate_rule_iff : (r : AuditRule) → (validate_rule r ≡ none) ↔ IsValidRule r
validate_rule_iff r = (validate_rule_sound r, validate_rule_complete r)

pub validate_rules_iff :
    (rs : List AuditRule) (found : Option Err)
    → (validate_rules rs found ≡ none) ↔ ((found ≡ none) × All IsValidRule rs)
unfolding validate_rules
validate_rules_iff [] found = (λ h. (h, tt), λ (h, _). h)
validate_rules_iff (r ∷ rs) found = ground (
  arith,
  validate_rules_iff rs (join found (validate_rule r)),
  join-none_iff found (validate_rule r),
  validate_rule_iff r,
)

validate_jwts_iff :
    (js : List FromRawJwt) (found : Option Err)
    → (validate_jwts js found ≡ none) ↔ ((found ≡ none) × All (λ j. j.key ≢ "") js)
unfolding validate_jwts validate_from_raw_jwt
validate_jwts_iff [] found = (λ h. (h, tt), λ (h, _). h)
validate_jwts_iff (j ∷ js) found =
    let e = on_some (wrap "FromRawJWT[%d]: %w") (validate_from_raw_jwt j) in
    ground (arith, validate_jwts_iff js (join found e), join-none_iff found e, eq_iff j.key "")

abbrev pub IsValidSecurityContext : SecurityContext → Type 0
IsValidSecurityContext sc =
    (jwts_of sc.from_raw_jwt ≢ []) × All (λ j. j.key ≢ "") (jwts_of sc.from_raw_jwt)

pub validate_security_context_iff :
    (sc : SecurityContext) → (validate_security_context sc ≡ none) ↔ IsValidSecurityContext sc
unfolding validate_security_context
validate_security_context_iff sc = ground (arith, validate_jwts_iff (jwts_of sc.from_raw_jwt) none)

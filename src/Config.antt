-- ===== src/Config.antt =====
-- clients/go/apis/v1alpha1/config.go: the configuration of the audit client, its defaults and its
-- checks. `strings.ToUpper` follows the tables of Unicode and is a parameter. The entries of a list
-- of pointers are taken to be there.
pub mod Laws
pub mod Defaults
pub mod Fields
pub mod Validity
use lumberjack.Prelude.{
  ℕ, suc, String, Bool, true, false, not, ◌&&◌, ◌||◌, Option, none, some, List, [], ◌∷◌, map, Dict,
  ◌==◌, if◌then◌else◌,
}
use lumberjack.Errors.{Err, errorf, wrap, join}
use lumberjack.Api.{LogMode, log_mode_unspecified, log_mode_value}

abbrev pub version : String
version = "v1alpha1"

-- `AuditRuleDirectiveDefault`, `AuditRuleDirectiveRequestOnly`, `AuditRuleDirectiveRequestAndResponse`
abbrev pub directive_default : String
directive_default = "AUDIT"

abbrev pub directive_request_only : String
directive_request_only = "AUDIT_REQUEST_ONLY"

abbrev pub directive_request_and_response : String
directive_request_and_response = "AUDIT_REQUEST_AND_RESPONSE"

pub record Remote : Type 0 where
  pub address : String
  pub insecure_enabled : Bool
  pub impersonate_account : String

pub record CloudLogging : Type 0 where
  pub default_project : Bool
  pub project : String

pub record Backend : Type 0 where
  pub remote : Option Remote
  pub cloud_logging : Option CloudLogging

pub record RegexCondition : Type 0 where
  pub principal_include : String
  pub principal_exclude : String

pub record Condition : Type 0 where
  pub regex : Option RegexCondition

pub record FromRawJwt : Type 0 where
  pub key : String
  pub prefix : String
  -- the endpoint of `JWKs`
  pub jwks : Option String

pub record SecurityContext : Type 0 where
  -- a slice, which is nil where the field is not given
  pub from_raw_jwt : Option (List FromRawJwt)

pub record AuditRule : Type 0 where
  pub selector : String
  pub directive : String
  pub log_type : String

pub record Justification : Type 0 where
  pub public_keys_endpoint : String
  pub enabled : Bool
  pub allow_breakglass : Bool

pub record Config : Type 0 where
  pub config_version : String
  pub backend : Option Backend
  pub condition : Option Condition
  pub security_context : Option SecurityContext
  pub rules : List AuditRule
  pub labels : Dict String
  pub log_mode : String
  pub justification : Option Justification

abbrev pub is_empty_text : String → Bool
is_empty_text s = s == ""

-- `(*CloudLogging).SetDefault`
unfoldable pub default_cloud_logging : CloudLogging → CloudLogging
default_cloud_logging cl =
    if is_empty_text cl.project && not cl.default_project
    then record cl { default_project = true }
    else cl

abbrev pub on_some {ℓ} : {A : Type ℓ} → (A → A) → Option A → Option A
on_some f none = none
on_some f (some a) = some (f a)

-- `(*Backend).SetDefault`
unfoldable pub default_backend : Backend → Backend
unfolding default_cloud_logging
default_backend b = record b { cloud_logging = on_some default_cloud_logging b.cloud_logging }

-- `(*AuditRule).SetDefault`
unfoldable pub default_rule : AuditRule → AuditRule
default_rule r = record r {
  directive = if is_empty_text r.directive then directive_default else r.directive;
  log_type = if is_empty_text r.log_type then "DATA_ACCESS" else r.log_type;
}

abbrev pub check : Bool → Err → Option Err
check true e = some e
check false e = none

-- `(*Remote).Validate`
unfoldable pub validate_remote : Remote → Option Err
validate_remote b = check (is_empty_text b.address) (errorf "backend address is nil" [])

-- `(*CloudLogging).Validate`
unfoldable pub validate_cloud_logging : CloudLogging → Option Err
validate_cloud_logging cl =
    if is_empty_text cl.project && not cl.default_project
    then some (errorf "backend cloudlogging no project or using default project is set" [])
    else check (not (is_empty_text cl.project) && cl.default_project)
        (errorf "backend cloudlogging project is set while using default project" [])

abbrev pub each {ℓ} : {A : Type ℓ} → (A → Option Err) → Option A → Option Err
each f none = none
each f (some a) = f a

abbrev pub is_none {ℓ} : {A : Type ℓ} → Option A → Bool
is_none none = true
is_none (some _) = false

-- `(*Backend).Validate`
unfoldable pub validate_backend : Backend → Option Err
unfolding validate_remote validate_cloud_logging
validate_backend b =
    join (join (each validate_remote b.remote) (each validate_cloud_logging b.cloud_logging))
      (check (is_none b.remote && is_none b.cloud_logging) (errorf "no backend is set" []))

-- `(*FromRawJWT).Validate`
unfoldable pub validate_from_raw_jwt : FromRawJwt → Option Err
validate_from_raw_jwt j = check (is_empty_text j.key) (errorf "key must be specified" [])

-- the loop of `(*SecurityContext).Validate`; the index that it names stays out of the text
unfoldable pub validate_jwts : List FromRawJwt → Option Err → Option Err
unfolding validate_from_raw_jwt
validate_jwts [] found = found
validate_jwts (j ∷ js) found =
    validate_jwts js (join found (on_some (wrap "FromRawJWT[%d]: %w") (validate_from_raw_jwt j)))

abbrev pub jwts_of : Option (List FromRawJwt) → List FromRawJwt
jwts_of none = []
jwts_of (some js) = js

-- `(*SecurityContext).Validate`
unfoldable pub validate_security_context : SecurityContext → Option Err
unfolding validate_jwts
validate_security_context sc = elim (jwts_of sc.from_raw_jwt) [
  | [] ↦ some (errorf "one and only one SecurityContext option must be specified" [])
  | j ∷ js ↦ validate_jwts (j ∷ js) none
]

-- the two switches of `(*AuditRule).Validate`
unfoldable pub is_known_directive : String → Bool
is_known_directive d =
    d == directive_default || d == directive_request_only || d == directive_request_and_response

unfoldable pub is_known_log_type : String → Bool
is_known_log_type t = t == "ADMIN_ACTIVITY" || t == "DATA_ACCESS"

-- `(*AuditRule).Validate`
unfoldable pub validate_rule : AuditRule → Option Err
validate_rule r =
    if is_empty_text r.selector
    then some (errorf "audit rule selector is empty" [])
    else if is_empty_text r.directive
    then some (errorf "audit rule directive is empty" [])
    else if is_empty_text r.log_type
    then some (errorf "audit rule log type is empty" [])
    else if not (is_known_directive r.directive)
    then some (
        errorf "unexpected rule.Directive %q want one of [%q, %q, %q]" (
          r.directive ∷ directive_default ∷ directive_request_only ∷ directive_request_and_response
          ∷ []))
    else check (not (is_known_log_type r.log_type)) (
        errorf "unexpected rule.LogType %q want one of [%q, %q]"
          (r.log_type ∷ "ADMIN_ACTIVITY" ∷ "DATA_ACCESS" ∷ []))

-- `(*Justification).Validate`
unfoldable pub validate_justification : Justification → Option Err
validate_justification j =
    check (j.enabled && is_empty_text j.public_keys_endpoint)
      (errorf "public_keys_endpoint must be specified when justification is enabled" [])

unfoldable pub validate_rules : List AuditRule → Option Err → Option Err
unfolding validate_rule
validate_rules [] found = found
validate_rules (r ∷ rs) found = validate_rules rs (join found (validate_rule r))

abbrev pub required_backend : Option Backend → Option Err
required_backend none = some (errorf "backend is nil" [])
required_backend (some b) = validate_backend b

abbrev mode_or_unspecified : Option LogMode → LogMode
mode_or_unspecified none = log_mode_unspecified
mode_or_unspecified (some m) = m

module _ (to_upper : String → String) where
  -- `(*Config).SetDefault`
  unfoldable pub set_default : Config → Config
  unfolding default_backend default_rule
  set_default cfg = record cfg {
    config_version = if is_empty_text cfg.config_version then version else cfg.config_version;
    log_mode =
        if is_empty_text cfg.log_mode || to_upper cfg.log_mode == "LOG_MODE_UNSPECIFIED"
        then "FAIL_CLOSE"
        else cfg.log_mode;
    backend = on_some default_backend cfg.backend;
    rules = map default_rule cfg.rules;
  }

  unfoldable pub validate_log_mode : String → Option Err
  validate_log_mode s =
      check (not (is_empty_text s) && is_none (log_mode_value (to_upper s)))
        (errorf "invalid LogMode %q" (s ∷ []))

  -- `(*Config).Validate` past `SetDefault`
  unfoldable pub check_config : Config → Option Err
  unfolding validate_backend validate_security_context validate_rules validate_log_mode
      validate_justification
  check_config cfg =
      join
        (join
          (validate_rules cfg.rules (
            join
              (join
                (check (not (cfg.config_version == version))
                  (errorf "unexpected Version %q want %q" (cfg.config_version ∷ version ∷ [])))
                (required_backend cfg.backend))
              (each validate_security_context cfg.security_context)))
          (validate_log_mode cfg.log_mode))
        (each validate_justification cfg.justification)

  -- `(*Config).Validate`, which leaves the defaults in the configuration
  unfoldable pub validate : Config → Config × Option Err
  unfolding set_default check_config
  validate cfg = (set_default cfg, check_config (set_default cfg))

  -- `(*Config).GetLogMode`
  unfoldable pub get_log_mode : Config → LogMode
  get_log_mode cfg = mode_or_unspecified (log_mode_value (to_upper cfg.log_mode))

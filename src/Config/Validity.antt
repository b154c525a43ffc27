-- ===== src/Config/Validity.antt =====
-- What `(*Config).Validate` of clients/go/apis/v1alpha1/config.go accepts.
use lumberjack.Prelude.{
  String, ◌≡◌, ◌≢◌, ◌↔◌, refl, ◌⊎◌, inl, inr, none, some, Option, arith, eq_iff, false,
  Option-cases, All,
}
use lumberjack.Api.{LogMode, fail_close, best_effort, log_mode_value}
use lumberjack.Config.{
  Config, Backend, Justification, version, validate_security_context, validate_justification,
  required_backend, set_default, validate_log_mode, check_config, validate, get_log_mode,
}
use lumberjack.Errors.{join-none_iff}
use lumberjack.Config.Defaults.{IsFilledIn, set_default-IsFilledIn}
use lumberjack.Config.Fields.{
  IfSome, each_iff, IsValidBackend, validate_backend_iff, IsValidRule, validate_rules_iff,
  IsValidSecurityContext, validate_security_context_iff,
}

pub record IsValidConfig (to_upper : String → String) (cfg : Config) : Type 0 where
  pub right_version : cfg.config_version ≡ version
  pub backend : (b : Backend) × (cfg.backend ≡ some b) × IsValidBackend b
  pub security_context : IfSome IsValidSecurityContext cfg.security_context
  pub rules : All IsValidRule cfg.rules
  pub log_mode :
      (cfg.log_mode ≡ "") ⊎ ((m : LogMode) × (log_mode_value (to_upper cfg.log_mode) ≡ some m))
  pub justification :
      IfSome (λ j. (j.enabled ≡ false) ⊎ (j.public_keys_endpoint ≢ "")) cfg.justification

required_backend_iff :
    (o : Option Backend)
    → (required_backend o ≡ none) ↔ ((b : Backend) × (o ≡ some b) × IsValidBackend b)
required_backend_iff none = (λ h. cc, λ (b, h, v). cc)
required_backend_iff (some b) = (
  λ h. (b, refl, (validate_backend_iff b).0 h),
  λ (b', h, v). ground (arith, (validate_backend_iff b').1 v),
)

validate_justification_iff :
    (j : Justification)
    → (validate_justification j ≡ none) ↔ ((j.enabled ≡ false) ⊎ (j.public_keys_endpoint ≢ ""))
unfolding validate_justification
validate_justification_iff j = ground (arith, eq_iff j.public_keys_endpoint "")

module _ (to_upper : String → String) where
  validate_log_mode_iff :
      (s : String)
      → (validate_log_mode to_upper s ≡ none)
        ↔ ((s ≡ "") ⊎ ((m : LogMode) × (log_mode_value (to_upper s) ≡ some m)))
  unfolding validate_log_mode
  validate_log_mode_iff s = elim (Option-cases (log_mode_value (to_upper s))) [
    | inl missing ↦ ground (arith, eq_iff s "")
    | inr (m, found) ↦ (λ h. inr (m, found), λ h. ground arith)
  ]

  check_config_sound :
      (cfg : Config) → check_config to_upper cfg ≡ none → IsValidConfig to_upper cfg
  unfolding check_config
  check_config_sound cfg h =
      let (front, j) = (join-none_iff _ _).0 h in
      let (rest, mode) = (join-none_iff _ _).0 front in
      let (front', rules) = (validate_rules_iff cfg.rules _).0 rest in
      let (front'', sc) = (join-none_iff _ _).0 front' in
      let (v, b) = (join-none_iff _ _).0 front'' in
      record {
        right_version = ground (arith, eq_iff cfg.config_version version);
        backend = (required_backend_iff cfg.backend).0 b;
        security_context =
            (each_iff validate_security_context IsValidSecurityContext validate_security_context_iff
                cfg.security_context).0
              sc;
        rules = rules;
        log_mode = (validate_log_mode_iff cfg.log_mode).0 mode;
        justification =
            (each_iff validate_justification _ validate_justification_iff cfg.justification).0 j;
      }

  check_config_complete :
      (cfg : Config) → IsValidConfig to_upper cfg → check_config to_upper cfg ≡ none
  unfolding check_config
  check_config_complete cfg v = ground (
    arith,
    eq_iff cfg.config_version version,
    (required_backend_iff cfg.backend).1 v.backend,
    (each_iff validate_security_context IsValidSecurityContext validate_security_context_iff
          cfg.security_context).1
        v.security_context,
    (validate_rules_iff cfg.rules none).1 (refl, v.rules),
    (validate_log_mode_iff cfg.log_mode).1 v.log_mode,
    (each_iff validate_justification _ validate_justification_iff cfg.justification).1
        v.justification,
  )

  -- `Validate` fills in the defaults, the mode FAIL_CLOSE among them, and accepts a configuration
  -- exactly when, with its defaults, it is valid: the
  -- version is the known one, some backend is there and each that is there is well formed, so are
  -- the security context, every rule and the justification, and the mode is a declared one. It
  -- leaves the defaults in the configuration either way.
  pub validate_iff :
      (cfg : Config)
      → ((validate to_upper cfg).0 ≡ set_default to_upper cfg)
        × IsFilledIn to_upper cfg (validate to_upper cfg).0
        × (((validate to_upper cfg).1 ≡ none) ↔ IsValidConfig to_upper (set_default to_upper cfg))
  unfolding validate
  validate_iff cfg = (
    refl,
    set_default-IsFilledIn to_upper cfg,
    (
      check_config_sound (set_default to_upper cfg),
      check_config_complete (set_default to_upper cfg),
    ),
  )

  declared_mode :
      (s : String)
      → s ≢ "LOG_MODE_UNSPECIFIED"
      → (m : LogMode) → log_mode_value s ≡ some m
      → (m ≡ fail_close) ⊎ (m ≡ best_effort)
  unfolding log_mode_value
  declared_mode s n m h =
      ground (arith, eq_iff s "LOG_MODE_UNSPECIFIED", eq_iff s "FAIL_CLOSE", eq_iff s "BEST_EFFORT")

  default_mode :
      (to_upper "FAIL_CLOSE" ≡ "FAIL_CLOSE")
      → (cfg : Config)
      → ((set_default to_upper cfg).log_mode ≢ "")
        × (to_upper (set_default to_upper cfg).log_mode ≢ "LOG_MODE_UNSPECIFIED")
  unfolding set_default
  default_mode up cfg = ground (
    arith,
    up,
    eq_iff cfg.log_mode "",
    eq_iff (to_upper cfg.log_mode) "LOG_MODE_UNSPECIFIED",
    eq_iff "FAIL_CLOSE" "",
    eq_iff "FAIL_CLOSE" "LOG_MODE_UNSPECIFIED",
  )

  -- A configuration that passes has a definite mode, fail-close or best-effort, provided that
  -- `strings.ToUpper` leaves the name FAIL_CLOSE as it is.
  pub get_log_mode-validate :
      (up : to_upper "FAIL_CLOSE" ≡ "FAIL_CLOSE") (cfg : Config)
      → (validate to_upper cfg).1 ≡ none
      → (get_log_mode to_upper (validate to_upper cfg).0 ≡ fail_close)
        ⊎ (get_log_mode to_upper (validate to_upper cfg).0 ≡ best_effort)
  unfolding validate get_log_mode
  get_log_mode-validate up cfg h =
      let (present, definite) = default_mode up cfg in
      let v = check_config_sound (set_default to_upper cfg) h in
      mode_cases present definite v.log_mode
    where
      mode_cases :
          (set_default to_upper cfg).log_mode ≢ ""
          → to_upper (set_default to_upper cfg).log_mode ≢ "LOG_MODE_UNSPECIFIED"
          → ((set_default to_upper cfg).log_mode ≡ "")
            ⊎ ((m : LogMode) × (log_mode_value (to_upper (set_default to_upper cfg).log_mode)
                  ≡ some m))
          → (get_log_mode to_upper (set_default to_upper cfg) ≡ fail_close)
            ⊎ (get_log_mode to_upper (set_default to_upper cfg) ≡ best_effort)
      mode_cases p d (inl e) = absurd (p e)
      mode_cases p d (inr (m, found)) =
          rw found (declared_mode (to_upper (set_default to_upper cfg).log_mode) d m found)

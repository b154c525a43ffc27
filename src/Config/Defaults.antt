-- ===== src/Config/Defaults.antt =====
-- What `(*Config).SetDefault` of clients/go/apis/v1alpha1/config.go fills in.
use lumberjack.Prelude.{
  String, ◌≡◌, ◌≢◌, refl, ◌⊎◌, inl, inr, true, Option, none, some, List, [], ◌∷◌, map, arith,
  eq_iff, ◌==◌, Bool-cases, if◌then◌else◌,
}
use lumberjack.Config.{
  Config, Backend, CloudLogging, AuditRule, on_some, default_cloud_logging, default_backend,
  default_rule, set_default,
}

-- A text, or the default in the place of an empty one.
abbrev pub IsTextOr : String → String → String → Type 0
IsTextOr default s t = ((s ≡ "") × (t ≡ default)) ⊎ ((s ≢ "") × (t ≡ s))

-- Without a project the default project is used.
abbrev pub IsCloudFilledIn : CloudLogging → CloudLogging → Type 0
IsCloudFilledIn c d =
    (d.project ≡ c.project)
    × (((c.project ≡ "") × (d.default_project ≡ true))
        ⊎ ((c.project ≢ "") × (d.default_project ≡ c.default_project)))

abbrev pub IfBoth {ℓ} : {A : Type ℓ} → (A → A → Type 0) → Option A → Option A → Type 0
IfBoth P none none = Unit
IfBoth P (some a) (some b) = P a b
IfBoth P none (some b) = ⊥
IfBoth P (some a) none = ⊥

abbrev pub IsBackendFilledIn : Backend → Backend → Type 0
IsBackendFilledIn b d =
    (d.remote ≡ b.remote) × IfBoth IsCloudFilledIn b.cloud_logging d.cloud_logging

-- A rule asks for the directive AUDIT and the type DATA_ACCESS where it names none.
abbrev pub IsRuleFilledIn : AuditRule → AuditRule → Type 0
IsRuleFilledIn r d =
    (d.selector ≡ r.selector)
    × IsTextOr "AUDIT" r.directive d.directive
    × IsTextOr "DATA_ACCESS" r.log_type d.log_type

abbrev pub EachFilledIn : List AuditRule → List AuditRule → Type 0
EachFilledIn [] [] = Unit
EachFilledIn (r ∷ rs) (d ∷ ds) = IsRuleFilledIn r d × EachFilledIn rs ds
EachFilledIn [] (d ∷ ds) = ⊥
EachFilledIn (r ∷ rs) [] = ⊥

-- The configuration with its defaults: the version v1alpha1, the mode FAIL_CLOSE in the place of none
-- or of LOG_MODE_UNSPECIFIED, and those of the backend and of the rules; the rest stays.
pub record IsFilledIn (to_upper : String → String) (cfg d : Config) : Type 0 where
  pub version : IsTextOr "v1alpha1" cfg.config_version d.config_version
  pub log_mode :
      (((cfg.log_mode ≡ "") ⊎ (to_upper cfg.log_mode ≡ "LOG_MODE_UNSPECIFIED"))
        × (d.log_mode ≡ "FAIL_CLOSE"))
      ⊎ ((cfg.log_mode ≢ "")
          × (to_upper cfg.log_mode ≢ "LOG_MODE_UNSPECIFIED")
          × (d.log_mode ≡ cfg.log_mode))
  pub backend : IfBoth IsBackendFilledIn cfg.backend d.backend
  pub rules : EachFilledIn cfg.rules d.rules
  pub rest :
      record d {
        config_version = cfg.config_version;
        log_mode = cfg.log_mode;
        backend = cfg.backend;
        rules = cfg.rules;
      }
      ≡ cfg

text_or : (default s : String) → IsTextOr default s (if s == "" then default else s)
text_or default s = elim (Bool-cases (s == "")) [
  | inl b ↦ inl (ground (arith, eq_iff s ""), rw b refl)
  | inr b ↦ inr (ground (arith, eq_iff s ""), rw b refl)
]

on_some-IfBoth {ℓ} :
    {A : Type ℓ} (P : A → A → Type 0) (f : A → A)
    → ((a : A) → P a (f a))
    → (o : Option A) → IfBoth P o (on_some f o)
on_some-IfBoth P f h none = tt
on_some-IfBoth P f h (some a) = h a

cloud-IsCloudFilledIn : (c : CloudLogging) → IsCloudFilledIn c (default_cloud_logging c)
unfolding default_cloud_logging
cloud-IsCloudFilledIn c = ground (arith, eq_iff c.project "")

backend-IsBackendFilledIn : (b : Backend) → IsBackendFilledIn b (default_backend b)
unfolding default_backend
backend-IsBackendFilledIn b = (
  refl,
  on_some-IfBoth IsCloudFilledIn default_cloud_logging cloud-IsCloudFilledIn b.cloud_logging,
)

rules-EachFilledIn : (rs : List AuditRule) → EachFilledIn rs (map default_rule rs)
unfolding default_rule
rules-EachFilledIn [] = tt
rules-EachFilledIn (r ∷ rs) =
    ((refl, text_or "AUDIT" r.directive, text_or "DATA_ACCESS" r.log_type), rules-EachFilledIn rs)

pub set_default-IsFilledIn :
    (to_upper : String → String) (cfg : Config) → IsFilledIn to_upper cfg (set_default to_upper cfg)
unfolding set_default
set_default-IsFilledIn to_upper cfg = record {
  version = text_or "v1alpha1" cfg.config_version;
  log_mode =
      ground (arith, eq_iff cfg.log_mode "", eq_iff (to_upper cfg.log_mode) "LOG_MODE_UNSPECIFIED");
  backend = on_some-IfBoth IsBackendFilledIn default_backend backend-IsBackendFilledIn cfg.backend;
  rules = rules-EachFilledIn cfg.rules;
  rest = refl;
}

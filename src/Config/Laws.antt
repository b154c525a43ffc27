-- ===== src/Config/Laws.antt =====
-- `SetDefault` of clients/go/apis/v1alpha1/config.go.
use lumberjack.Prelude.{
  String, ◌≡◌, refl, ap, none, some, Option, List, [], ◌∷◌, map, arith, eq_iff,
}
use lumberjack.Config.{
  Config, on_some, Backend, CloudLogging, AuditRule, default_cloud_logging, default_backend,
  default_rule, set_default,
}

default_cloud_logging_idem :
    (cl : CloudLogging)
    → default_cloud_logging (default_cloud_logging cl) ≡ default_cloud_logging cl
unfolding default_cloud_logging
default_cloud_logging_idem cl = ground arith

on_some_idem {ℓ} :
    {A : Type ℓ} (f : A → A)
    → ((a : A) → f (f a) ≡ f a)
    → (o : Option A) → on_some f (on_some f o) ≡ on_some f o
on_some_idem f h none = refl
on_some_idem f h (some a) = ap some (h a)

default_backend_idem : (b : Backend) → default_backend (default_backend b) ≡ default_backend b
unfolding default_backend
default_backend_idem b =
    ground (arith, on_some_idem default_cloud_logging default_cloud_logging_idem b.cloud_logging)

default_rule_idem : (r : AuditRule) → default_rule (default_rule r) ≡ default_rule r
unfolding default_rule
default_rule_idem r =
    ground (
      arith,
      eq_iff r.directive "",
      eq_iff r.log_type "",
      eq_iff "AUDIT" "",
      eq_iff "DATA_ACCESS" "",
    )

map_idem {ℓ} :
    {A : Type ℓ} (f : A → A)
    → ((a : A) → f (f a) ≡ f a)
    → (xs : List A) → map f (map f xs) ≡ map f xs
map_idem f h [] = refl
map_idem f h (x ∷ xs) = cc (h x, map_idem f h xs)

module _ (to_upper : String → String) where
  -- Setting the defaults a second time changes nothing.
  pub set_default_idem :
      (cfg : Config) → set_default to_upper (set_default to_upper cfg) ≡ set_default to_upper cfg
  unfolding set_default
  set_default_idem cfg = ground (
    arith,
    eq_iff cfg.config_version "",
    eq_iff cfg.log_mode "",
    on_some_idem default_backend default_backend_idem cfg.backend,
    map_idem default_rule default_rule_idem cfg.rules,
  )

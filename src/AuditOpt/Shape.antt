-- ===== src/AuditOpt/Shape.antt =====
-- The clients that the options of clients/go/pkg/auditopt/config.go make.
use mathlib.Core.Path.{subst}
use lumberjack.Prelude.{
  ◌≡◌, refl, sym, ap, ◌∙◌, inl, inr, Option, none, some, List, [], ◌∷◌, ◌++◌, map, length, All,
  is_some,
}
use lumberjack.Errors.{Err, ok, >>=-eq-ok, ok_inj, Result-cases}
use lumberjack.Api.Values.{Value}
use lumberjack.Config.{Config, Backend, validate, set_default, get_log_mode}
use lumberjack.Config.Validity.{IsValidConfig, validate_iff}
use lumberjack.Client.{
  Client, ClientOption, Processor, with_mutator, with_backend, with_log_mode, with_runtime_info,
  apply_options, default_client, request_validator,
}
use lumberjack.Client.Delivery.{IsGentle}
use lumberjack.Labels.{new_label_processor, label_processor}
use lumberjack.Runtime.{runtime_processor}
use lumberjack.AuditOpt.{
  Outside, regex_of, labels_from_config, is_enabled, options_from_config, apply_validated,
  client_from_config, map_result,
}
use lumberjack.AuditOpt.Pieces.{
  number, options_for, apply_validators, apply_last_mutators, apply_backends,
  options_from_config-Made, Made, All-first, All-second, IsFilterOf, IsReasonOf, IsRemoteOf,
  IsCloudOf,
}

module _ {W : Type 0} (o : Outside W) where
  -- What a client is that a configuration with its defaults makes: the default validator and the
  -- filter of the configured expressions, the runtime's mutator, the labels' and, if it is enabled, the
  -- justification's, on the client of the configured endpoint, the backends that are configured, that of an agent first, and the configured mode.
  pub record IsBuilt (cfg : Config) (c : Client W) : Type 1 where
    pub filters : List (Processor W)
    pub validators : c.validators ≡ request_validator ∷ filters
    pub filter_if : length filters ≡ number (is_some (regex_of o cfg.condition))
    pub filters_made : All (IsFilterOf o (regex_of o cfg.condition)) filters
    pub filters_gentle : All IsGentle filters
    pub resource : Option Value
    pub detected : o.runtime_info ≡ ok resource
    pub reasons : List (Processor W)
    pub mutators :
        c.mutators
        ≡ runtime_processor resource ∷ label_processor (new_label_processor cfg.labels) ∷ reasons
    pub reason_if : length reasons ≡ number (is_enabled o cfg.justification)
    pub reasons_made : All (IsReasonOf o cfg.justification) reasons
    pub reasons_gentle : All IsGentle reasons
    pub backend : Backend
    pub backend_there : cfg.backend ≡ some backend
    pub remotes : List (Processor W)
    pub clouds : List (Processor W)
    pub backends : c.backends ≡ remotes ++ clouds
    pub remote_if : length remotes ≡ number (is_some backend.remote)
    pub cloud_if : length clouds ≡ number (is_some backend.cloud_logging)
    pub remotes_made : All (IsRemoteOf o backend.remote) remotes
    pub clouds_made : All (IsCloudOf o (get_log_mode o.to_upper cfg) backend.cloud_logging) clouds
    pub log_mode : c.log_mode ≡ get_log_mode o.to_upper cfg

  runtime_there :
      (rest : List (ClientOption W)) (c c' : Client W)
      → apply_options (with_runtime_info (map_result runtime_processor o.runtime_info) ∷ rest) c
        ≡ ok c'
      → (v : Option Value) × (o.runtime_info ≡ ok v)
  unfolding apply_options with_runtime_info
  runtime_there rest c c' h = elim (Result-cases o.runtime_info) [
    | inl (e, failed_so) ↦ absurd (let h' = rw failed_so at h in cc)
    | inr there ↦ there
  ]

  apply_parts :
      (cfg : Config) (v : Option Value) (fs bs js : List (Processor W))
      → o.runtime_info ≡ ok v
      → apply_options (options_for o cfg fs bs js) default_client
        ≡ ok (record {
          validators = request_validator ∷ fs;
          mutators = runtime_processor v ∷ label_processor (new_label_processor cfg.labels) ∷ js;
          backends = bs;
          log_mode = get_log_mode o.to_upper cfg;
        })
  unfolding apply_options with_runtime_info labels_from_config with_mutator with_log_mode
  apply_parts cfg v fs bs js there =
      let mode = get_log_mode o.to_upper cfg in
      let labels = label_processor (new_label_processor cfg.labels) in
      let last : List (ClientOption W) =
        labels_from_config o cfg ∷ with_log_mode mode ∷ map with_mutator js in
      let c1 : Client W = record default_client { mutators = runtime_processor v ∷ [] } in
      let c2 : Client W = record c1 { validators = request_validator ∷ fs } in
      let c3 : Client W = record c2 {
        backends = bs;
        mutators = runtime_processor v ∷ labels ∷ [];
        log_mode = mode;
      } in
      rw there (
        apply_validators fs (map with_backend bs ++ last) c1
        ∙ apply_backends bs last c2
        ∙ apply_last_mutators js c3)

  build :
      (cfg : Config) (os : List (ClientOption W)) (c : Client W)
      → Made o cfg os
      → apply_options os default_client ≡ ok c
      → IsBuilt cfg c
  build cfg os c m h =
      let h' = rw (sym m.options) at h in
      let (v, there) = runtime_there _ default_client c h' in
      let same =
        ok_inj (sym h' ∙ apply_parts cfg v m.filters (m.remotes ++ m.clouds) m.reasons there) in
      record {
        filters = m.filters;
        validators = ap (λ x. x.validators) same;
        filter_if = m.filter_if;
        filters_made = All-second IsGentle _ m.filters m.filters_made;
        filters_gentle = All-first IsGentle _ m.filters m.filters_made;
        resource = v;
        detected = there;
        reasons = m.reasons;
        mutators = ap (λ x. x.mutators) same;
        reason_if = m.reason_if;
        reasons_made = All-second IsGentle _ m.reasons m.reasons_made;
        reasons_gentle = All-first IsGentle _ m.reasons m.reasons_made;
        backend = m.backend;
        backend_there = m.backend_there;
        remotes = m.remotes;
        clouds = m.clouds;
        backends = ap (λ x. x.backends) same;
        remote_if = m.remote_if;
        cloud_if = m.cloud_if;
        remotes_made = m.remotes_made;
        clouds_made = m.clouds_made;
        log_mode = ap (λ x. x.log_mode) same;
      }

  pub apply_validated-passed :
      (cfg : Config) (e : Option Err) (c c' : Client W)
      → apply_validated o cfg e c ≡ ok c'
      → (e ≡ none)
        × ((os : List (ClientOption W)) × (options_from_config o cfg ≡ ok os)
            × (apply_options os c ≡ ok c'))
  apply_validated-passed cfg none c c' h =
      let (os, made, applied) = >>=-eq-ok (options_from_config o cfg) _ h in
      (refl, (os, made, applied))
  apply_validated-passed cfg (some e) c c' h = cc

  -- If the option for a configuration succeeds on a new client, the configuration passes Validate,
  -- and the client is built as it says, once its defaults are filled in.
  pub client_from_config-IsBuilt :
      (cfg : Config) (c : Client W)
      → client_from_config o (some cfg) default_client ≡ ok c
      → IsValidConfig o.to_upper (set_default o.to_upper cfg)
        × IsBuilt (set_default o.to_upper cfg) c
  unfolding client_from_config
  client_from_config-IsBuilt cfg c h =
      let (same, _, valid_iff) = validate_iff o.to_upper cfg in
      let (passed, (os, made, applied)) =
        apply_validated-passed (validate o.to_upper cfg).0 _ default_client c h in
      (
        valid_iff.0 passed,
        subst (λ x. IsBuilt x c) same
            (build (validate o.to_upper cfg).0 os c
              (options_from_config-Made o (validate o.to_upper cfg).0 made) applied),
      )

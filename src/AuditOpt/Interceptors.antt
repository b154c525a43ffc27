-- ===== src/AuditOpt/Interceptors.antt =====
-- The interceptors that the options of clients/go/pkg/auditopt/config.go make.
use mathlib.Core.Path.{subst}
use lumberjack.Prelude.{◌≡◌, refl, sym, ap, ◌∙◌, String, Option, none, some, List, [], ◌∷◌, ◌++◌}
use lumberjack.Errors.{ok, >>=-eq-ok, map_err-eq-ok, ok_inj}
use lumberjack.Config.{
  jwts_of, Config, SecurityContext, FromRawJwt, set_default, validate, get_log_mode,
}
use lumberjack.Config.Validity.{validate_iff}
use lumberjack.Client.{Client, ClientOption, new_client, apply_options, default_client}
use lumberjack.Security.{request_principal}
use lumberjack.Interceptor.Options.{
  InterceptorOption, InterceptorParts, with_audit_client, with_security_context, with_audit_rules,
  with_interceptor_log_mode,
}
use lumberjack.AuditOpt.{
  Outside, file_content, load_config, context_options, security_options, audit_client, apply_each,
  client_from_config, interceptor_from_config, interceptor_from_config_file,
}
use lumberjack.AuditOpt.Shape.{IsBuilt, client_from_config-IsBuilt}

module _ {W : Type 0} (o : Outside W) where
  abbrev options_with : Config → List FromRawJwt → List (InterceptorOption W)
  options_with cfg js =
      with_interceptor_log_mode (get_log_mode o.to_upper cfg)
      ∷ with_audit_rules (set_default o.to_upper cfg).rules
      ∷ with_security_context (request_principal o.jwt js)
      ∷ []

  context_options-given :
      (cfg : Config) (o' : Option (List FromRawJwt)) {os : List (InterceptorOption W)}
      → context_options o cfg o' ≡ ok os
      → options_with cfg (jwts_of o') ≡ os
  context_options-given cfg none h = cc
  context_options-given cfg (some js) h = ok_inj h

  security_options-given :
      (cfg : Config) (s : Option SecurityContext) {os : List (InterceptorOption W)}
      → security_options o cfg s ≡ ok os
      → (sc : SecurityContext) × (s ≡ some sc) × (options_with cfg (jwts_of sc.from_raw_jwt) ≡ os)
  unfolding security_options
  security_options-given cfg none h = cc
  security_options-given cfg (some sc) h = (sc, refl, context_options-given cfg sc.from_raw_jwt h)

  apply_given :
      (cfg : Config) (js : List FromRawJwt) (c : Client W) (i : InterceptorParts W)
      → apply_each (options_with cfg js ++ (with_audit_client c ∷ [])) i
        ≡ ok (record {
          client = some c;
          security_context = some (request_principal o.jwt js);
          rules = (set_default o.to_upper cfg).rules;
          log_mode = get_log_mode o.to_upper cfg;
        })
  unfolding apply_each with_audit_client with_interceptor_log_mode with_audit_rules
      with_security_context
  apply_given cfg js c i = refl

  one_option :
      (x : ClientOption W) (c : Client W) → new_client (x ∷ []) ≡ ok c → x default_client ≡ ok c
  unfolding new_client apply_options
  one_option x c h =
      let (d, first, same) = >>=-eq-ok (x default_client) _ (map_err-eq-ok _ _ h) in first ∙ same

  -- An interceptor that the option for a configuration file sets up has a client, built as the
  -- configuration says once its defaults are filled in; it takes the principal from the configured
  -- JWTs, and it has the configured rules. If what cfgloader loads has passed Validate, which fills in
  -- the defaults, then the interceptor's mode is that of its client.
  pub interceptor_from_config_file-agrees :
      (path : String) (i i' : InterceptorParts W)
      → ((b : String) (cfg : Config) → o.load b ≡ ok cfg → validate o.to_upper cfg ≡ (cfg, none))
      → interceptor_from_config_file o path i ≡ ok i'
      → (cfg : Config) × (sc : SecurityContext) × (c : Client W) × (cfg.security_context ≡ some sc)
        × IsBuilt o cfg c
        × (i' ≡ record {
          client = some c;
          security_context = some (request_principal o.jwt (jwts_of sc.from_raw_jwt));
          rules = cfg.rules;
          log_mode = c.log_mode;
        })
  unfolding interceptor_from_config_file load_config interceptor_from_config
  interceptor_from_config_file-agrees path i i' validated h =
      let (fc, _, h1) = >>=-eq-ok (file_content (o.read_file path)) _ h in
      let (cfg, loaded, h2) = >>=-eq-ok (load_config o fc) _ h1 in
      let (os, given, h3) = >>=-eq-ok (security_options o cfg cfg.security_context) _ h2 in
      let (c, made, h4) = >>=-eq-ok (audit_client o cfg) _ h3 in
      let (sc, there, same) = security_options-given cfg cfg.security_context given in
      let v = validated fc cfg (map_err-eq-ok _ _ loaded) in
      let (_, built) =
        client_from_config-IsBuilt o cfg c
          (one_option (client_from_config o (some cfg)) c (map_err-eq-ok _ _ made)) in
      let defaults = sym (validate_iff o.to_upper cfg).0 ∙ ap (λ x. x.0) v in
      let b : IsBuilt o cfg c = subst (λ x. IsBuilt o x c) defaults built in
      let shape = sym (rw (sym same) at h4) ∙ apply_given cfg (jwts_of sc.from_raw_jwt) c i in
      (cfg, sc, c, there, b, ok_inj shape ∙ rw (ap (λ x. x.rules) defaults, b.log_mode) refl)

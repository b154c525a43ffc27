-- ===== src/Interceptor/Options.antt =====
-- The options of clients/go/pkg/audit/interceptor.go and `NewInterceptor`: an interceptor while it
-- is made, whose client and whose security context may be missing.
use lumberjack.Prelude.{Option, none, some, List, [], ◌∷◌}
use lumberjack.Errors.{wrap, Result, ok, ◌>>=◌, map_err}
use lumberjack.Api.{LogMode, log_mode_unspecified}
use lumberjack.Config.{AuditRule}
use lumberjack.Client.{Client}
use lumberjack.Security.{Found}
use lumberjack.Interceptor.Setup.{Metadata}

-- `Interceptor`; the security context is its `RequestPrincipal`
pub record InterceptorParts (W : Type 0) : Type 0 where
  pub client : Option (Client W)
  pub security_context : Option (Option Metadata → Found)
  pub rules : List AuditRule
  pub log_mode : LogMode

abbrev pub InterceptorOption : Type 0 → Type 0
InterceptorOption W = InterceptorParts W → Result (InterceptorParts W)

module _ {W : Type 0} where
  -- `WithAuditClient`
  unfoldable pub with_audit_client : Client W → InterceptorOption W
  with_audit_client c i = ok (record i { client = some c })

  -- `WithSecurityContext`
  unfoldable pub with_security_context : (Option Metadata → Found) → InterceptorOption W
  with_security_context sc i = ok (record i { security_context = some sc })

  -- `WithAuditRules`
  unfoldable pub with_audit_rules : List AuditRule → InterceptorOption W
  with_audit_rules rs i = ok (record i { rules = rs })

  -- `WithInterceptorLogMode`
  unfoldable pub with_interceptor_log_mode : LogMode → InterceptorOption W
  with_interceptor_log_mode m i = ok (record i { log_mode = m })

  -- the loop of `NewInterceptor` over the options
  unfoldable pub apply_interceptor_options : List (InterceptorOption W) → InterceptorOption W
  apply_interceptor_options [] i = ok i
  apply_interceptor_options (o ∷ os) i =
      map_err (wrap "failed to apply interceptor option: %w") (o i) >>= apply_interceptor_options os

  -- `NewInterceptor`
  unfoldable pub new_interceptor : List (InterceptorOption W) → Result (InterceptorParts W)
  unfolding apply_interceptor_options
  new_interceptor os = apply_interceptor_options os (record {
    client = none;
    security_context = none;
    rules = [];
    log_mode = log_mode_unspecified;
  })

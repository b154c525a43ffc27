-- ===== src/Tests/Choosing.antt =====
-- Rules, filters, labels and configurations on concrete values.
use Prim.Native.String.{len}
use lumberjack.Prelude.{
  inr, ◌<◌, ◌≤◌, String, ◌≡◌, ◌↔◌, refl, ◌⊎◌, Any, All, none, some, [], ◌∷◌, true, false, lookup,
  ◌==◌, arith,
}
use lumberjack.Errors.{Err, sentinel, wrap, precondition_failed, ok}
use lumberjack.Config.{AuditRule, Config, Backend, validate, set_default}
use lumberjack.Config.Defaults.{IsFilledIn}
use lumberjack.Config.Validity.{IsValidConfig, validate_iff}
use lumberjack.Rules.{most_relevant_rule, is_rule_applicable}
use lumberjack.Rules.Laws.{most_relevant_rule-longest, most_relevant_rule-first}
use lumberjack.Labels.{
  or_empty, or_else, process_labels, new_label_processor, lookup-process_labels,
}
use lumberjack.Filtering.{
  Regexps, PrincipalEmailMatcher, filter_request, passes, filter_request-passes, DecidedAs,
}
use lumberjack.Tests.{a_rule, a_request, method}

abbrev wide_rule : AuditRule
wide_rule = record a_rule { selector = "*" }

abbrev exact_rule : AuditRule
exact_rule = record a_rule { selector = method }

-- As long as the method's name, and first in the list.
abbrev long_rule : AuditRule
long_rule = record a_rule { selector = "/pkg.Talker/Hell*" }

most_relevant_rule-longest_example :
    (Any (λ x. x ≡ a_rule) (wide_rule ∷ a_rule ∷ [])
      × (is_rule_applicable a_rule method ≡ true)
      × (0 < len a_rule.selector))
    × All
        (λ x. (is_rule_applicable x method ≡ false) ⊎ (len x.selector ≤ len a_rule.selector))
        (wide_rule ∷ a_rule ∷ [])
unfolding most_relevant_rule is_rule_applicable
most_relevant_rule-longest_example =
    most_relevant_rule-longest method (wide_rule ∷ a_rule ∷ []) a_rule
      (omega arith, (omega arith, tt)) refl

most_relevant_rule-first_example :
    most_relevant_rule method (wide_rule ∷ long_rule ∷ exact_rule ∷ []) ≡ some long_rule
unfolding is_rule_applicable
most_relevant_rule-first_example =
    most_relevant_rule-first method (wide_rule ∷ []) long_rule (exact_rule ∷ []) (omega arith)
      (inr (omega arith), tt) refl refl

lookup-process_labels_example :
    lookup "team" (
      or_empty
        (process_labels
          (new_label_processor (("env", "dev") ∷ ("team", "a") ∷ []))
          a_request).labels)
    ≡ or_else
        (lookup "team" (or_empty a_request.labels))
        (lookup "team" (("env", "dev") ∷ ("team", "a") ∷ []))
unfolding lookup
lookup-process_labels_example =
    lookup-process_labels "team" (("env", "dev") ∷ ("team", "a") ∷ []) a_request (refl, (refl, tt))

-- Expressions that match one text each.
abbrev pub exact : Regexps
exact = record { Regexp = String; compile = λ s. ok s; match_string = λ r s. r == s }

abbrev no_bots : PrincipalEmailMatcher exact
no_bots = record { includes = []; excludes = "user@example.com" ∷ [] }

filter_request-passes_example :
    DecidedAs
      (passes exact no_bots.includes no_bots.excludes "user@example.com")
      (filter_request exact no_bots a_request)
filter_request-passes_example =
    filter_request-passes exact no_bots a_request "user@example.com" refl

abbrev dropped : Err
dropped =
    wrap "request.Payload.AuthenticationInfo.PrincipalEmail matches exclude regexp %q: %w"
      (sentinel precondition_failed)

abbrev a_backend : Backend
a_backend = record {
  remote = none;
  cloud_logging = some (record { default_project = false; project = "" });
}

abbrev a_config : Config
a_config = record {
  config_version = "";
  backend = some a_backend;
  condition = none;
  security_context = none;
  rules = record { selector = "*"; directive = ""; log_type = "" } ∷ [];
  labels = [];
  log_mode = "";
  justification = none;
}

-- Texts that are in upper case already.
abbrev pub same : String → String
same s = s

validate_iff_example :
    ((validate same a_config).0 ≡ set_default same a_config)
    × IsFilledIn same a_config (validate same a_config).0
    × (((validate same a_config).1 ≡ none) ↔ IsValidConfig same (set_default same a_config))
validate_iff_example = validate_iff same a_config

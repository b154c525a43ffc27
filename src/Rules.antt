-- ===== src/Rules.antt =====
-- clients/go/pkg/audit/rules.go: which audit rule a method falls under. Lengths count bytes.
pub mod Laws
use Prim.Native.String.{String, [], ◌∷◌, len}
use lumberjack.Prelude.{
  ℕ, Char, code, Bool, true, false, ◌&&◌, Option, none, some, List, [], ◌∷◌, ◌==◌, starts_with, ltb,
  nat_eq, if◌then◌else◌,
}
use lumberjack.Config.{AuditRule}

abbrev pub slash : ℕ
slash = b'/'

-- `strings.TrimLeft(s, "/")`
unfoldable pub trim_slashes : String → String
trim_slashes [] = []
trim_slashes (c ∷ s) = let rest = trim_slashes s in if nat_eq (code c) slash then rest else c ∷ s

-- `sel[:len(sel)-1]` if `strings.HasSuffix(sel, "*")`
unfoldable pub before_wildcard : String → Option String
before_wildcard [] = none
before_wildcard (c ∷ []) = if nat_eq (code c) b'*' then some "" else none
before_wildcard (c ∷ d ∷ s) = elim (before_wildcard (d ∷ s)) [ none ↦ none | some p ↦ some (c ∷ p) ]

-- `isRuleApplicable`
unfoldable pub is_rule_applicable : AuditRule → String → Bool
unfolding trim_slashes before_wildcard
is_rule_applicable rule method_name =
    if rule.selector == "*" then true else elim (before_wildcard (trim_slashes rule.selector)) [
      | some p ↦ starts_with (trim_slashes method_name) p
      | none ↦ trim_slashes rule.selector == trim_slashes method_name
    ]

-- the loop of `mostRelevantRule`
unfoldable pub search_rules : String → List AuditRule → ℕ → Option AuditRule → Option AuditRule
search_rules method_name [] longest most_relevant = most_relevant
search_rules method_name (r ∷ rs) longest most_relevant =
    let better =
      if nat_eq (len r.selector) (len method_name)
      then some r
      else search_rules method_name rs (len r.selector) (some r) in
    let same = search_rules method_name rs longest most_relevant in
    if is_rule_applicable r method_name && ltb longest (len r.selector) then better else same

-- `mostRelevantRule`
unfoldable pub most_relevant_rule : String → List AuditRule → Option AuditRule
unfolding search_rules
most_relevant_rule method_name rules = search_rules method_name rules 0 none

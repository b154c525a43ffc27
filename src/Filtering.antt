-- ===== src/Filtering.antt =====
-- clients/go/pkg/filtering/processor.go: the validator that drops requests by their principal. The
-- expressions come from the configuration; how Go's `regexp` compiles and matches them is a
-- parameter.
use mathlib.Core.Path.{subst}
use lumberjack.Prelude.{
  String, ◌≡◌, ◌≢◌, ◌↔◌, ◌⊎◌, inl, inr, refl, sym, ap, ◌∙◌, Bool, true, false, not, ◌&&◌, ◌||◌,
  Option, none, some, List, [], ◌∷◌, ◌++◌, ◌==◌, if◌then◌else◌, any, is_empty, arith, eq_iff,
  Bool-cases,
}
use lumberjack.Errors.{
  Err, sentinel, wrap, is_err, invalid_request, precondition_failed, Result, ok, ◌>>=◌, map_err,
  map_err-eq-ok, >>=-eq-ok, ok_inj,
}
use lumberjack.Api.{AuditLogRequest, AuditLog}
use lumberjack.Client.{Processor, exit_of}

pub record Regexps : Type 1 where
  pub Regexp : Type 0
  pub compile : String → Result Regexp
  pub match_string : Regexp → String → Bool

abbrev pub principal_of : Option AuditLog → Option String
principal_of none = none
principal_of (some p) = p.authentication_info

-- A decision to let a request pass or to drop it, and the error that the validator returns.
abbrev pub DecidedAs : Bool → Option Err → Type 0
DecidedAs b none = b ≡ true
DecidedAs b (some e) = (b ≡ false) × (is_err precondition_failed e ≡ true)

module _ (lib : Regexps) where
  open lib use {Regexp, compile, match_string}

  pub record PrincipalEmailMatcher : Type 0 where
    pub includes : List Regexp
    pub excludes : List Regexp

  compile_all : String → List String → Result (List Regexp)
  compile_all message [] = ok []
  compile_all message (s ∷ ss) =
      let rest = compile_all message ss in
      if s == ""
      then rest
      else map_err (wrap message) (compile s) >>= λ r. rest >>= λ rs. ok (r ∷ rs)

  -- `WithIncludes` and `WithExcludes`. An option that fails ends `NewPrincipalEmailMatcher`, so what
  -- it had appended before is not seen.
  unfoldable pub with_includes : List String → PrincipalEmailMatcher → Result PrincipalEmailMatcher
  unfolding compile_all
  with_includes ss m =
      compile_all "failed to compile include string %q as a regular expression: %w" ss >>= λ rs.
      ok (record m { includes = m.includes ++ rs })

  unfoldable pub with_excludes : List String → PrincipalEmailMatcher → Result PrincipalEmailMatcher
  unfolding compile_all
  with_excludes ss m =
      compile_all "failed to compile exclude string %q as a regular expression: %w" ss >>= λ rs.
      ok (record m { excludes = m.excludes ++ rs })

  apply_all :
      List (PrincipalEmailMatcher → Result PrincipalEmailMatcher)
      → PrincipalEmailMatcher
      → Result PrincipalEmailMatcher
  apply_all [] m = ok m
  apply_all (o ∷ os) m =
      map_err (wrap "failed to apply NewPrincipalEmailMatcher options: %w") (o m) >>= apply_all os

  -- `NewPrincipalEmailMatcher`
  unfoldable pub new_principal_email_matcher :
      List (PrincipalEmailMatcher → Result PrincipalEmailMatcher) → Result PrincipalEmailMatcher
  unfolding apply_all
  new_principal_email_matcher os = apply_all os (record { includes = []; excludes = [] })

  abbrev pub matches : List Regexp → String → Bool
  matches rs email = any (λ r. match_string r email) rs

  -- `Process`, past the check that the principal is there
  unfoldable pub filter_email : PrincipalEmailMatcher → String → Option Err
  filter_email m email =
      if matches m.includes email
      then none
      else if is_empty m.excludes
      then some (
          wrap "request.Payload.AuthenticationInfo.PrincipalEmail not included in %q: %w"
            (sentinel precondition_failed))
      else if matches m.excludes email
      then some (
          wrap "request.Payload.AuthenticationInfo.PrincipalEmail matches exclude regexp %q: %w"
            (sentinel precondition_failed))
      else none

  abbrev with_principal : PrincipalEmailMatcher → Option String → Option Err
  with_principal m none = some (
      wrap "request.Payload.AuthenticationInfo is missing to check principal email: %w"
        (sentinel invalid_request))
  with_principal m (some email) = filter_email m email

  -- `(*PrincipalEmailMatcher).Process`
  unfoldable pub filter_request : PrincipalEmailMatcher → AuditLogRequest → Option Err
  unfolding filter_email
  filter_request m r =
      if is_empty m.includes && is_empty m.excludes
      then none
      else with_principal m (principal_of r.payload)

  unfoldable pub matcher_processor : {W : Type 0} → PrincipalEmailMatcher → Processor W
  unfolding filter_request
  matcher_processor m = record {
    process = λ r w. record { world = w; request = r; exit = exit_of (filter_request m r) };
    stop = none;
  }

  -- The four documented cases: which principals pass, by which lists are given.
  abbrev pub passes : List Regexp → List Regexp → String → Bool
  passes [] [] email = true
  passes (i ∷ is) [] email = matches (i ∷ is) email
  passes [] (e ∷ es) email = not (matches (e ∷ es) email)
  passes (i ∷ is) (e ∷ es) email = matches (i ∷ is) email || not (matches (e ∷ es) email)

  module _ (email : String) where
    abbrev IsDecided : PrincipalEmailMatcher → Option Err → Type 0
    IsDecided m o =
        ((o ≡ none) ↔ (passes m.includes m.excludes email ≡ true))
        × ((e : Err) → o ≡ some e → is_err precondition_failed e ≡ true)

    filter_email-IsDecided :
        (inc exc : List Regexp)
        → not (is_empty inc && is_empty exc) ≡ true
        → IsDecided
            (record { includes = inc; excludes = exc })
            (filter_email (record { includes = inc; excludes = exc }) email)
    unfolding filter_email is_err
    filter_email-IsDecided [] [] h = cc
    filter_email-IsDecided [] (e ∷ es) h =
        ((λ p. ground arith, λ p. ground arith), λ x p. ground arith)
    filter_email-IsDecided (i ∷ is) [] h =
        ((λ p. ground arith, λ p. ground arith), λ x p. ground arith)
    filter_email-IsDecided (i ∷ is) (e ∷ es) h =
        ((λ p. ground arith, λ p. ground arith), λ x p. ground arith)

    filter_request-IsDecided :
        (inc exc : List Regexp) (r : AuditLogRequest)
        → principal_of r.payload ≡ some email
        → IsDecided
            (record { includes = inc; excludes = exc })
            (filter_request (record { includes = inc; excludes = exc }) r)
    unfolding filter_request
    filter_request-IsDecided [] [] r h = ((λ p. refl, λ p. refl), λ x p. cc)
    filter_request-IsDecided [] (e ∷ es) r h = rw h (filter_email-IsDecided [] (e ∷ es) refl)
    filter_request-IsDecided (i ∷ is) exc r h = rw h (filter_email-IsDecided (i ∷ is) exc refl)

  decided_as :
      (b : Bool) (o : Option Err)
      → (o ≡ none) ↔ (b ≡ true)
      → ((e : Err) → o ≡ some e → is_err precondition_failed e ≡ true)
      → DecidedAs b o
  decided_as b none h k = h.0 refl
  decided_as true (some e) h k = absurd (let x = h.1 refl in cc)
  decided_as false (some e) h k = (refl, k e refl)

  -- A request with a principal passes exactly in the four documented cases, by which of the two lists
  -- are given and which expressions match; else it is dropped as a failed precondition.
  pub filter_request-passes :
      (m : PrincipalEmailMatcher) (r : AuditLogRequest) (email : String)
      → principal_of r.payload ≡ some email
      → DecidedAs (passes m.includes m.excludes email) (filter_request m r)
  filter_request-passes m r email h =
      let (pass, drop) = filter_request-IsDecided email m.includes m.excludes r h in
      decided_as _ _ pass drop

  -- The expressions for a text: the compiled text, or none if it is empty.
  abbrev pub IsCompiled : String → List Regexp → Type 0
  IsCompiled s rs =
      ((s ≡ "") × (rs ≡ [])) ⊎ ((s ≢ "") × ((x : Regexp) × (compile s ≡ ok x) × (rs ≡ x ∷ [])))

  compile_all-IsCompiled :
      (message s : String) (rs : List Regexp)
      → compile_all message (s ∷ []) ≡ ok rs
      → IsCompiled s rs
  unfolding compile_all
  compile_all-IsCompiled message s rs h = elim (Bool-cases (s == "")) [
    | inl b ↦ inl (ground (arith, eq_iff s ""), sym (ok_inj (rw b at h)))
    | inr b ↦
        let (x, compiled, same) = >>=-eq-ok (map_err (wrap message) (compile s)) _ (rw b at h) in
        inr (
          ground (arith, eq_iff s ""),
          (x, map_err-eq-ok (wrap message) (compile s) compiled, sym (ok_inj same)),
        )
  ]

  -- A matcher with one text to include and one to exclude has their compiled expressions.
  pub new_principal_email_matcher-made :
      (include exclude : String) (m : PrincipalEmailMatcher)
      → new_principal_email_matcher
          (with_includes (include ∷ []) ∷ with_excludes (exclude ∷ []) ∷ [])
        ≡ ok m
      → IsCompiled include m.includes × IsCompiled exclude m.excludes
  unfolding new_principal_email_matcher with_includes with_excludes
  new_principal_email_matcher-made include exclude m h =
      let (m1, first, rest) = >>=-eq-ok (map_err _ _) _ h in
      let (m2, second, last) = >>=-eq-ok (map_err _ _) _ rest in
      let (is, is_made, one) =
        >>=-eq-ok (compile_all _ (include ∷ [])) _ (map_err-eq-ok _ _ first) in
      let (es, es_made, two) =
        >>=-eq-ok (compile_all _ (exclude ∷ [])) _ (map_err-eq-ok _ _ second) in
      let same = ok_inj two ∙ ok_inj last in
      let before = ok_inj one in
      (
        subst (IsCompiled include) (ap (λ x. x.includes) before ∙ ap (λ x. x.includes) same)
            (compile_all-IsCompiled _ include is is_made),
        subst (IsCompiled exclude) (ap (λ x. x.excludes ++ es) before ∙ ap (λ x. x.excludes) same)
            (compile_all-IsCompiled _ exclude es es_made),
      )

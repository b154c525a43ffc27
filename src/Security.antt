-- ===== src/Security.antt =====
-- clients/go/pkg/security/grpc.go: the principal of a call, from a JWT in its metadata. Parsing a JWT
-- and `strings.ToLower` are parameters. The values of gRPC's metadata are ASCII, so that a slice of
-- bytes is one of characters.
pub mod Bearer
use Prim.Native.String.{String, [], ◌∷◌, len}
use lumberjack.Prelude.{
  ℕ, zero, suc, Bool, Option, none, some, List, [], ◌∷◌, ◌==◌, starts_with, if◌then◌else◌,
}
use lumberjack.Errors.{Err, errorf, wrap, Result, ok, err}
use lumberjack.Config.{FromRawJwt}
use lumberjack.Interceptor.Setup.{Metadata}

-- The value of a claim.
pub data Claim : Type 0 where
  text_claim : String → Claim
  other_claim : Claim

pub record Jwt : Type 1 where
  pub Token : Type 0
  -- `jwt.ParseString`, without verification
  pub parse_string : String → Result Token
  -- `token.Get`
  pub get_claim : String → Token → Option Claim
  -- `strings.ToLower`
  pub to_lower : String → String

-- How a search or a call ends: with a text, with an error, or with a panic.
pub data Found : Type 0 where
  found : String → Found
  failure : Err → Found
  out_of_range : Found

-- `s[n:]`, which panics past the end
unfoldable pub slice_from : ℕ → String → Option String
slice_from zero s = some s
slice_from (suc n) [] = none
slice_from (suc n) (c ∷ s) = slice_from n s

abbrev pub sliced : Option String → Found
sliced none = out_of_range
sliced (some s) = found s

abbrev pub first : List String → Option String
first [] = none
first (v ∷ _) = some v

-- `emailKey`
abbrev pub email_key : String
email_key = "email"

unfoldable pub check_email : Option Claim → Found
check_email none = failure (errorf "missing claim %q" (email_key ∷ []))
check_email (some other_claim) =
    failure (errorf "claim %q is not of type %T (got %T)" (email_key ∷ []))
check_email (some (text_claim email)) =
    if email == ""
    then failure (errorf "claim %q cannot be blank" (email_key ∷ []))
    else found email

module _ (jwt : Jwt) where
  -- The comparison of the prefix, without regard to case.
  unfoldable pub has_prefix : FromRawJwt → String → Bool
  has_prefix j v = starts_with (jwt.to_lower v) (jwt.to_lower j.prefix)

  unfoldable pub take_jwt : FromRawJwt → Option String → Found → Found
  unfolding has_prefix
  take_jwt j none rest = rest
  take_jwt j (some v) rest = if has_prefix j v then sliced (slice_from (len j.prefix) v) else rest

  -- `findJWT`
  unfoldable pub find_jwt : Metadata → List FromRawJwt → Found
  unfolding take_jwt
  find_jwt md [] = failure (errorf "no JWT found matching rules: %#v" [])
  find_jwt md (j ∷ js) = take_jwt j (first (md.get j.key)) (find_jwt md js)

  unfoldable pub read_email : Result jwt.Token → Found
  unfolding check_email
  read_email (err e) = failure (wrap "failed to parse jwt: %w" e)
  read_email (ok token) = check_email (jwt.get_claim email_key token)

  unfoldable pub with_jwt : Found → Found
  unfolding read_email
  with_jwt (found id_token) = read_email (jwt.parse_string id_token)
  with_jwt x = x

  -- `(*FromRawJWT).RequestPrincipal`
  unfoldable pub request_principal : List FromRawJwt → Option Metadata → Found
  unfolding find_jwt with_jwt
  request_principal js none = failure (errorf "gRPC metadata in incoming context is missing" [])
  request_principal js (some md) = with_jwt (find_jwt md js)

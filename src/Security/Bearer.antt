-- ===== src/Security/Bearer.antt =====
-- Which JWT and which principal clients/go/pkg/security/grpc.go takes from a call's metadata.
use Prim.Native.String.{len}
use lumberjack.Prelude.{
  String, ◌≡◌, ◌≢◌, refl, inl, inr, true, Option, none, some, List, [], ◌∷◌, ◌++◌, All, eq_iff,
  arith, Bool-cases, Option-cases, ap,
}
use lumberjack.Errors.{Result, ok, err}
use lumberjack.Config.{FromRawJwt}
use lumberjack.Interceptor.Setup.{Metadata}
use lumberjack.Security.{
  Claim, text_claim, other_claim, Jwt, Found, found, failure, out_of_range, slice_from, sliced,
  first, email_key, check_email, has_prefix, take_jwt, find_jwt, read_email, with_jwt,
  request_principal,
}

sliced-found : (o : Option String) (t : String) → sliced o ≡ found t → o ≡ some t
sliced-found none t h = cc
sliced-found (some s) t h = cc

check_email-found :
    (o : Option Claim) (email : String)
    → check_email o ≡ found email
    → (o ≡ some (text_claim email)) × (email ≢ "")
unfolding check_email
check_email-found none email h = cc
check_email-found (some other_claim) email h = cc
check_email-found (some (text_claim s)) email h = (ground arith, ground (arith, eq_iff s ""))

module _ (jwt : Jwt) (md : Metadata) where
  -- The first value under the rule's key has the rule's prefix.
  abbrev pub IsMatching : FromRawJwt → String → Type 0
  IsMatching j v = (first (md.get j.key) ≡ some v) × (has_prefix jwt j v ≡ true)

  -- The text is the rest, after the prefix, of the value that matches the first rule that any value
  -- matches.
  pub record IsBearer (js : List FromRawJwt) (id_token : String) : Type 0 where
    pub before : List FromRawJwt
    pub rule : FromRawJwt
    pub after : List FromRawJwt
    pub shape : js ≡ before ++ rule ∷ after
    pub skipped : All (λ j. (v : String) → ¬ IsMatching j v) before
    pub value : String
    pub matching : IsMatching rule value
    pub rest : slice_from (len rule.prefix) value ≡ some id_token

  IsBearer-skip :
      (j : FromRawJwt) (js : List FromRawJwt) (t : String)
      → ((v : String) → ¬ IsMatching j v)
      → IsBearer js t
      → IsBearer (j ∷ js) t
  IsBearer-skip j js t free b = record {
    before = j ∷ b.before;
    rule = b.rule;
    after = b.after;
    shape = ap (λ l. j ∷ l) b.shape;
    skipped = (free, b.skipped);
    value = b.value;
    matching = b.matching;
    rest = b.rest;
  }

  find_jwt_sound :
      (js : List FromRawJwt) (t : String) → find_jwt jwt md js ≡ found t → IsBearer js t
  unfolding find_jwt take_jwt
  find_jwt_sound [] t h = cc
  find_jwt_sound (j ∷ js) t h = elim (Option-cases (first (md.get j.key))) [
    | inl absent ↦ IsBearer-skip j js t (λ v (x, _). cc) (find_jwt_sound js t (rw absent at h))
    | inr (v, there) ↦ elim (Bool-cases (has_prefix jwt j v)) [
      | inr n ↦
          IsBearer-skip j js t (λ u (x, y). ground arith) (find_jwt_sound js t (rw (there, n) at h))
      | inl y ↦ record {
        before = [];
        rule = j;
        after = js;
        shape = refl;
        skipped = tt;
        value = v;
        matching = (there, y);
        rest = sliced-found _ t (rw (there, y) at h);
      }
    ]
  ]

module _ (jwt : Jwt) where
  -- The principal is the claim `email`, not empty, of the token that the text parses as.
  abbrev pub IsPrincipalOf : String → String → Type 0
  IsPrincipalOf id_token email =
      (token : jwt.Token) × (jwt.parse_string id_token ≡ ok token)
      × (jwt.get_claim email_key token ≡ some (text_claim email))
      × (email ≢ "")

  read_email-found :
      (r : Result jwt.Token) (email : String)
      → read_email jwt r ≡ found email
      → (token : jwt.Token) × (r ≡ ok token)
        × (jwt.get_claim email_key token ≡ some (text_claim email))
        × (email ≢ "")
  unfolding read_email
  read_email-found (err e) email h = cc
  read_email-found (ok token) email h =
      let (claim, present) = check_email-found (jwt.get_claim email_key token) email h in
      (token, refl, claim, present)

  with_jwt-found :
      (f : Found) (email : String)
      → with_jwt jwt f ≡ found email
      → (t : String) × (f ≡ found t) × IsPrincipalOf t email
  unfolding with_jwt
  with_jwt-found (found t) email h = (t, refl, read_email-found (jwt.parse_string t) email h)
  with_jwt-found (failure e) email h = cc
  with_jwt-found out_of_range email h = cc

  -- A call has a principal only if it has metadata, and in them a value with the prefix of a rule:
  -- the first rule that any value matches. The rest of that value is a JWT, whose claim `email` is
  -- the principal, and is not empty.
  pub request_principal-found :
      (js : List FromRawJwt) (o : Option Metadata) (email : String)
      → request_principal jwt js o ≡ found email
      → (md : Metadata) × (o ≡ some md)
        × ((t : String) × IsBearer jwt md js t × IsPrincipalOf t email)
  unfolding request_principal
  request_principal-found js none email h = cc
  request_principal-found js (some md) email h =
      let (t, raw, principal) = with_jwt-found (find_jwt jwt md js) email h in
      (md, refl, (t, find_jwt_sound jwt md js t raw, principal))

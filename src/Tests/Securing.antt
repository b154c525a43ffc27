-- ===== src/Tests/Securing.antt =====
-- The principal of a call with one header.
use lumberjack.Prelude.{String, ◌==◌, if◌then◌else◌, ◌≡◌, refl, none, some, List, [], ◌∷◌}
use lumberjack.Errors.{ok}
use lumberjack.Config.{FromRawJwt}
use lumberjack.Interceptor.Setup.{Metadata}
use lumberjack.Security.{slice_from, Jwt, text_claim, request_principal}
use lumberjack.Security.Bearer.{IsBearer, IsPrincipalOf, request_principal-found}

-- A token is its own claims, and texts are in lower case already.
abbrev pub jwt : Jwt
jwt = record {
  Token = String;
  parse_string = λ t. ok t;
  get_claim = λ k t. some (text_claim t);
  to_lower = λ s. s;
}

abbrev rules : List FromRawJwt
rules =
    record { key = "x-jwt"; prefix = ""; jwks = none }
    ∷ record { key = "authorization"; prefix = "bearer "; jwks = none }
    ∷ []

abbrev bearing : Metadata
bearing = record { get = λ k. if k == "authorization" then "bearer user@example.com" ∷ [] else [] }

request_principal-found_example :
    (md : Metadata) × (some bearing ≡ some md)
    × ((t : String) × IsBearer jwt md rules t × IsPrincipalOf jwt t "user@example.com")
unfolding request_principal slice_from
request_principal-found_example =
    request_principal-found jwt rules (some bearing) "user@example.com" refl

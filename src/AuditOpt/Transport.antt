-- ===== src/AuditOpt/Transport.antt =====
-- How the remote backend that clients/go/pkg/auditopt/config.go configures reaches the agent.
use lumberjack.Prelude.{◌≡◌, String, ◌==◌, Option, none, some, [], ◌∷◌, if◌then◌else◌}
use lumberjack.Errors.{Result, ok}
use lumberjack.Config.{Remote}
use lumberjack.Remote.{RemoteProcessor}
use lumberjack.Remote.Dial.{
  AuthLib, Parts, IdTokenAuth, Credentials, tls, with_authority, with_transport_credentials,
  Connection, audience, connected,
}
use lumberjack.AuditOpt.{Outside}

-- A processor that is being made, for this address and with this authentication.
abbrev parts_with : (lib : AuthLib) → String → Option (IdTokenAuth lib) → Parts lib
parts_with lib address auth = record { address = address; auth_opts = auth; raw_dial_opts = [] }

-- The token source that the configuration asks for: of the audience, as itself or as the account.
abbrev pub source_of : (lib : AuthLib) → String → String → Result lib.TokenSource
source_of lib account address =
    let whole = audience lib (parts_with lib address none) in
    if account == ""
    then lib.new_token_source whole
    else lib.impersonated_token_source account whole

-- The processor calls the agent over a connection that was dialled with these credentials, and with
-- this authentication.
pub record IsDialled {W : Type 0} (o : Outside W) (address : String) (c : Credentials o.auth)
    (auth : Option (IdTokenAuth o.auth)) (p : RemoteProcessor W) : Type 0 where
  pub connection : Connection o.auth W
  pub dialled :
      o.dial address (with_authority address ∷ with_transport_credentials c ∷ []) ≡ ok connection
  pub shape : p ≡ connected o.auth auth connection

-- Transport over TLS with the system's certificates, and an ID token of this source for each call.
pub record IsSecure {W : Type 0} (o : Outside W) (address : String)
    (source : Result o.auth.TokenSource) (p : RemoteProcessor W) : Type 0 where
  pub roots : o.auth.Roots
  pub system_roots : o.auth.system_cert_pool ≡ ok roots
  pub token_source : o.auth.TokenSource
  pub source_made : source ≡ ok token_source
  pub dialled :
      IsDialled o address
        (tls roots)
        (some (record {
          dial_options = with_transport_credentials (tls roots) ∷ [];
          token_source = token_source;
        }))
        p

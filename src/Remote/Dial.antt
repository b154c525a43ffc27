-- ===== src/Remote/Dial.antt =====
-- `NewProcessor` of clients/go/pkg/remote/processor.go, its options, and the authentication of
-- clients/go/pkg/remote/idtoken_auth.go. Token sources, the system's certificates and gRPC's
-- connection are parameters.
use Prim.Native.String.{[], ◌∷◌, ◌++◌ as ◌<>◌}
use lumberjack.Prelude.{String, ◌==◌, Option, none, some, List, [], ◌∷◌, ◌++◌, if◌then◌else◌}
use lumberjack.Errors.{Err, wrap, Result, ok, err, ◌>>=◌, map_err}
use lumberjack.Api.{AuditLogRequest}
use lumberjack.Remote.{RemoteProcessor}

pub record AuthLib : Type 1 where
  pub TokenSource : Type 0
  pub Roots : Type 0
  pub OtherOption : Type 0
  -- `idtoken.NewTokenSource`, of an audience
  pub new_token_source : String → Result TokenSource
  -- `impersonate.IDTokenSource`, of a principal and an audience, with the email
  pub impersonated_token_source : String → String → Result TokenSource
  -- `x509.SystemCertPool`
  pub system_cert_pool : Result Roots

-- `strings.TrimSuffix`
unfoldable pub trim_suffix : String → String → String
trim_suffix suffix [] = []
trim_suffix suffix (c ∷ s) =
    let rest = trim_suffix suffix s in if (c ∷ s) == suffix then [] else c ∷ rest

module _ (lib : AuthLib) where
  open lib use {TokenSource, Roots, OtherOption}

  -- The transport's credentials: none, or TLS with these roots.
  pub data Credentials : Type 0 where
    insecure : Credentials
    tls : Roots → Credentials

  -- `grpc.DialOption`, with the ones that the package makes apart from any other
  pub data DialOption : Type 0 where
    with_authority : String → DialOption
    with_transport_credentials : Credentials → DialOption
    other_option : OtherOption → DialOption

  -- `idTokenAuth`
  pub record IdTokenAuth : Type 0 where
    pub dial_options : List DialOption
    pub token_source : TokenSource

  -- A `Processor` that is being made: it has no connection yet.
  pub record Parts : Type 0 where
    pub address : String
    pub auth_opts : Option IdTokenAuth
    pub raw_dial_opts : List DialOption

  abbrev pub RemoteOption : Type 0
  RemoteOption = Parts → Result Parts

  -- What a processor with a connection calls outside: `Token` of a token source, and gRPC's
  -- `ProcessLog`, with the tokens of the call, and `Close`.
  pub record Connection (W : Type 0) : Type 0 where
    pub token : TokenSource → W → W × Result String
    pub process_log : List String → AuditLogRequest → W → W × Result (Option AuditLogRequest)
    pub close : W → W × Option Err

  -- `WithGRPCDialOptions`
  unfoldable pub with_grpc_dial_options : List DialOption → RemoteOption
  with_grpc_dial_options os p = ok (record p { raw_dial_opts = os })

  -- `setIDTokenAuth`
  unfoldable pub set_id_token_auth : Parts → TokenSource → Result Parts
  set_id_token_auth p ts =
      map_err (wrap "failed to load system cert pool: %w") lib.system_cert_pool >>= (λ roots.
        ok (record p {
          auth_opts = some (record {
            dial_options = with_transport_credentials (tls roots) ∷ [];
            token_source = ts;
          });
        }))

  abbrev pub audience : Parts → String
  audience p = "https://" <> trim_suffix ":443" p.address

  -- `WithIDTokenAuth`, which `WithDefaultAuth` is as well
  unfoldable pub with_id_token_auth : RemoteOption
  unfolding set_id_token_auth trim_suffix
  with_id_token_auth p =
      map_err (wrap "failed idtoken.NewTokenSource: %w") (lib.new_token_source (audience p))
      >>= set_id_token_auth p

  -- `WithImpersonatedIDTokenAuth`
  unfoldable pub with_impersonated_id_token_auth : String → RemoteOption
  unfolding set_id_token_auth trim_suffix
  with_impersonated_id_token_auth target p =
      map_err (wrap "failed impersonate.IDTokenSource: %w")
        (lib.impersonated_token_source target (audience p))
      >>= set_id_token_auth p

  -- the loop of `NewProcessor` over the options
  unfoldable pub apply_remote_options : List RemoteOption → RemoteOption
  apply_remote_options [] p = ok p
  apply_remote_options (o ∷ os) p =
      map_err (wrap "failed to set option: %w") (o p) >>= apply_remote_options os

  -- `dialOpts` of an authentication, and the fallback where there is none
  abbrev pub auth_dial_options : Option IdTokenAuth → List DialOption
  auth_dial_options none = with_transport_credentials insecure ∷ []
  auth_dial_options (some a) = a.dial_options

  abbrev pub dial_options_of : Parts → List DialOption
  dial_options_of p =
      (p.raw_dial_opts ++ (with_authority p.address ∷ [])) ++ auth_dial_options p.auth_opts

  abbrev one_token : {W : Type 0} → W × Result String → W × Result (List String)
  one_token (w, err e) = (w, err (wrap "failed to generate id token: %w" e))
  one_token (w, ok t) = (w, ok (t ∷ []))

  -- `callOpts`
  unfoldable pub call_options :
      {W : Type 0} → Connection W → IdTokenAuth → W → W × Result (List String)
  call_options c a w = one_token (c.token a.token_source w)

  -- The processor with its connection, which asks for the tokens of each call.
  abbrev pub connected : {W : Type 0} → Option IdTokenAuth → Connection W → RemoteProcessor W
  connected none c = record { call_opts = none; process_log = c.process_log; close = c.close }
  connected (some a) c = record {
    call_opts = some (call_options c a);
    process_log = c.process_log;
    close = c.close;
  }

  module _ {W : Type 0} (dial : String → List DialOption → Result (Connection W)) where
    -- `grpc.NewClient`, and the processor with its connection
    unfoldable pub connect : Parts → Result (RemoteProcessor W)
    unfolding call_options
    connect p =
        map_err (wrap "dial remote log processor failed: %w") (dial p.address (dial_options_of p))
        >>= (λ c. ok (connected p.auth_opts c))

    -- `NewProcessor`
    unfoldable pub new_remote_processor : String → List RemoteOption → Result (RemoteProcessor W)
    unfolding apply_remote_options connect
    new_remote_processor address os =
        apply_remote_options os (record { address = address; auth_opts = none; raw_dial_opts = [] })
        >>= connect

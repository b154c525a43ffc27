-- ===== src/Runner/Settings.antt =====
-- integration/testrunner/config.go: the configuration of the tests, and the justification token that
-- their calls carry.
use lumberjack.Prelude.{ℕ, ◌+◌, String, Option, none, some, List, [], ◌∷◌}
use lumberjack.Errors.{wrap, Result, ok, err, ◌>>=◌, map_err}

-- `Config`, in nanoseconds where it is a duration, before the key is parsed
pub record Settings : Type 0 where
  pub audit_log_request_timeout : ℕ
  pub audit_log_request_wait : ℕ
  pub http_endpoints : String
  pub grpc_endpoints : String
  pub log_routing_wait : ℕ
  pub max_audit_log_request_tries : ℕ
  pub max_db_query_tries : ℕ
  pub justification_subject : String
  pub id_token : String
  pub project_id : String
  pub big_query_dataset : String
  pub private_key_file_path : String

-- What the claims of a token are built from; times in seconds.
pub record Claims : Type 0 where
  pub audience : List String
  pub expiration : ℕ
  pub jwt_id : String
  pub issued_at : ℕ
  pub issuer : String
  pub not_before : ℕ
  pub subject : String

-- Files, `pem.Decode`, `x509.ParseECPrivateKey`, and the libraries for JWTs, JWSs and JVS's claims.
pub record TokenLib : Type 1 where
  pub Key : Type 0
  pub Token : Type 0
  pub Headers : Type 0
  pub read_file : String → Result String
  pub decode_pem : String → Option String
  pub parse_ec_private_key : String → Result Key
  pub build : Claims → Result Token
  pub set_justifications : Token → List (String × String) → Result Token
  pub set_key_id : String → Result Headers
  pub sign : Token → Key → Headers → Result String

module _ (lib : TokenLib) where
  open lib use {Key, Token, Headers}

  -- The end of `parsePrivateKey`; without a PEM block it panics, here no result.
  abbrev pub parse_block : Option String → Option (Result Key)
  parse_block none = none
  parse_block (some b) =
      some (map_err (wrap "failed to parse EC private key: %w") (lib.parse_ec_private_key b))

  abbrev pub parse_bytes : Result String → Option (Result Key)
  parse_bytes (err e) = some (err (wrap "failed to read data from key file %s: %w" e))
  parse_bytes (ok b) = parse_block (lib.decode_pem b)

  -- `parsePrivateKey`
  unfoldable pub parse_private_key : String → Option (Result Key)
  parse_private_key path = parse_bytes (lib.read_file path)

  -- `Config` with its parsed key
  pub record TestConfig : Type 0 where
    pub settings : Settings
    pub private_key : Key

  abbrev pub with_key : Settings → Option (Result Key) → Option (Result TestConfig)
  with_key c none = none
  with_key c (some (err e)) = some (err (wrap "failed to parse private key: %w" e))
  with_key c (some (ok k)) = some (ok (record { settings = c; private_key = k }))

  -- `newTestConfig`, of what `envconfig.Process` returns
  unfoldable pub new_test_config : Result Settings → Option (Result TestConfig)
  unfolding parse_private_key
  new_test_config (err e) = some (err (wrap "failed to process environment: %w" e))
  new_test_config (ok c) = with_key c (parse_private_key c.private_key_file_path)

  abbrev pub claims_of : String → String → ℕ → String → Claims
  claims_of audience subject now id = record {
    audience = audience ∷ [];
    expiration = now + 3600;
    jwt_id = id;
    issued_at = now;
    issuer = "lumberjack-test-runner";
    not_before = now;
    subject = subject;
  }

  -- `justificationToken`, at a time and with a new identifier
  unfoldable pub justification_token : ℕ → String → String → String → Key → Result String
  justification_token now id audience subject key =
      map_err (wrap "failed to build justification token: %w")
        (lib.build (claims_of audience subject now id))
      >>= (λ t.
          map_err (wrap "failed to set justifications: %w")
            (lib.set_justifications t (("test", "test") ∷ []))
          >>= (λ t'.
              map_err (wrap "failed to set header: %w") (lib.set_key_id "integ-key")
              >>= (λ h. map_err (wrap "failed to sign token: %w") (lib.sign t' key h))))

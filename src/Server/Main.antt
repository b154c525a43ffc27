-- ===== src/Server/Main.antt =====
-- cmd/server/main.go and pkg/server/config.go: a run of the agent's process. The environment, the
-- client of Cloud Logging and the server of gRPC are parameters; debug output is left out.
use lumberjack.Prelude.{ℕ, String, Option, none, some, [], ◌∷◌}
use lumberjack.Errors.{Err, wrap, join, Result, ok, err, ◌>>=◌, map_err}
use lumberjack.Client.{Client, with_backend, new_client, stop}
use lumberjack.CloudLogging.{
  LoggingClient, CloudProcessor, with_logging_client, new_processor, cloud_processor,
}
use lumberjack.Server.Tracing.{Telemetry, init, shutdown}

-- `Config` of pkg/server/config.go
pub record ServerConfig : Type 0 where
  pub port : String
  pub trace_ratio : ℕ

pub record Surroundings (W : Type 0) : Type 1 where
  -- `envconfig.Process`
  pub environment : Result ServerConfig
  pub telemetry : Telemetry W
  -- `logging.NewClient`, of the project of the process, and what `NewProcessor` would make by default
  pub logging_client : Result (LoggingClient W)
  pub default_logging_client : Result (LoggingClient W)
  -- `serving.New` and `StartGRPC`, of an agent with this client
  pub new_server : String → Result (Client W → W → W × Option Err)

module _ {W : Type 0} (s : Surroundings W) where
  -- `NewConfig`
  unfoldable pub new_config : Result ServerConfig
  new_config = map_err (wrap "failed to process environment: %w") s.environment

  -- `newCloudLoggingProcessor`
  unfoldable pub new_cloud_logging_processor : Result (CloudProcessor W)
  new_cloud_logging_processor =
      map_err (wrap "failed to create cloud logging client: %w") s.logging_client >>= (λ c.
        map_err (wrap "failed to create cloud logging audit log processor: %w")
          (new_processor s.default_logging_client (with_logging_client c ∷ [])))

  -- the client of the agent
  unfoldable pub agent_client : Result (Client W)
  unfolding new_cloud_logging_processor
  agent_client = new_cloud_logging_processor >>= (λ p.
      map_err (wrap "failed to create audit client: %w")
        (new_client (with_backend (cloud_processor p) ∷ [])))

  abbrev pub wrap_with : (Err → Err) → Option Err → Option Err
  wrap_with f none = none
  wrap_with f (some e) = some (f e)

  -- A call that is deferred to the end of `realMain`; it joins its error to that of the run.
  abbrev pub deferred : (W → W × Option Err) → (Err → Err) → W × Option Err → W × Option Err
  deferred f m (w, e) = let r = f w in (r.0, join e (wrap_with m r.1))

  -- the server of gRPC, from its making on
  abbrev pub serve : Result (Client W → W → W × Option Err) → Client W → W → W × Option Err
  serve (err e) c w = (w, some (wrap "failed to create serving infrastructure: %w" e))
  serve (ok start) c w = start c w

  abbrev pub serve_client : String → Result (Client W) → W → W × Option Err
  serve_client port (err e) w = (w, some e)
  serve_client port (ok c) w =
      deferred (stop c) (wrap "failed to stop audit client: %w") (serve (s.new_server port) c w)

  abbrev pub traced : String → W × Option Err → W × Option Err
  traced port (w, some e) = (w, some (wrap "failed to init tracing: %w" e))
  traced port (w, none) =
      deferred (shutdown s.telemetry) (wrap "failed to shutdown tracing: %w")
        (serve_client port agent_client w)

  abbrev pub configured : Result ServerConfig → W → W × Option Err
  configured (err e) w = (w, some (wrap "failed to process config: %w" e))
  configured (ok cfg) w = traced cfg.port (init s.telemetry cfg.trace_ratio w)

  -- `realMain`
  unfoldable pub real_main : W → W × Option Err
  unfolding new_config agent_client
  real_main w = configured new_config w

-- ===== src/Server/Tracing.antt =====
-- clients/go/pkg/trace/provider.go: the trace provider of the process. OpenTelemetry is a parameter:
-- a world `W` holds its global provider.
use lumberjack.Prelude.{ℕ, Option, none, some}
use lumberjack.Errors.{Err, wrap, Result, ok, err}

-- The exporter's making, the provider that is set with an exporter and a ratio, and the shutdown of
-- the global provider, if that is one of the SDK. The ratio is its bit pattern.
pub record Telemetry (W : Type 0) : Type 1 where
  pub Exporter : Type 0
  pub new_exporter : Result Exporter
  pub set_provider : Exporter → ℕ → W → W
  pub tracer_provider : W → Option (W → W × Option Err)

module _ {W : Type 0} (t : Telemetry W) where
  abbrev pub set_up : Result t.Exporter → ℕ → W → W × Option Err
  set_up (err e) ratio w = (w, some (wrap "failed to create trace exporter: %w" e))
  set_up (ok x) ratio w = (t.set_provider x ratio w, none)

  -- `Init`
  unfoldable pub init : ℕ → W → W × Option Err
  init ratio w = set_up t.new_exporter ratio w

  abbrev pub wrap_shutdown : W × Option Err → W × Option Err
  wrap_shutdown (w, none) = (w, none)
  wrap_shutdown (w, some e) = (w, some (wrap "failed to shutdown trace provider: %w" e))

  abbrev pub shut_provider : Option (W → W × Option Err) → W → W × Option Err
  shut_provider none w = (w, none)
  shut_provider (some stop) w = wrap_shutdown (stop w)

  -- `Shutdown`
  unfoldable pub shutdown : W → W × Option Err
  shutdown w = shut_provider (t.tracer_provider w) w

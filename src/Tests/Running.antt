-- ===== src/Tests/Running.antt =====
-- A run of the agent's process whose server handles no request.
use lumberjack.Prelude.{◌≡◌, refl, ℕ, suc, none, some}
use lumberjack.Errors.{ok}
use lumberjack.CloudLogging.{LoggingClient, new_processor, stop_cloud}
use lumberjack.Client.{new_client, with_backend, stop, request_validator}
use lumberjack.Server.Main.{Surroundings, real_main}
use lumberjack.Server.Tracing.{init, shutdown}
use lumberjack.Server.Runs.{IsServed, real_main-IsServed}

-- The world counts the calls.
abbrev pub quiet : LoggingClient ℕ
quiet = record {
  log_entry = λ name e n. suc n;
  log_sync = λ name e n. (suc n, none);
  flush = λ name n. (suc n, none);
}

abbrev pub a_process : Surroundings ℕ
a_process = record {
  environment = ok (record { port = "8080"; trace_ratio = 0 });
  telemetry = record {
    Exporter = ℕ;
    new_exporter = ok 0;
    set_provider = λ x ratio n. suc n;
    tracer_provider = λ n. some (λ m. (suc m, none));
  };
  logging_client = ok quiet;
  default_logging_client = ok quiet;
  new_server = λ port. ok (λ c n. (suc n, none));
}

-- Tracing is set up and shut down, the server runs, and five logs are flushed.
run_of_process : real_main a_process 0 ≡ (8, none)
unfolding real_main init shutdown new_processor new_client with_backend stop request_validator
    stop_cloud
run_of_process = refl

real_main-IsServed_example : IsServed a_process 0 8
real_main-IsServed_example = real_main-IsServed a_process 0 8 run_of_process

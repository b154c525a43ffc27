-- ===== src/Server/Runs.antt =====
-- Runs of `realMain` of cmd/server/main.go that end without an error.
use lumberjack.Prelude.{◌≡◌, refl, sym, ap, String, Option, none, some, [], ◌∷◌}
use lumberjack.Errors.{Err, join-none_iff, Result, ok, err, >>=-eq-ok, map_err-eq-ok, ok_inj}
use lumberjack.Api.{log_mode_unspecified}
use lumberjack.Client.{Client, with_backend, new_client, stop, request_validator, apply_options}
use lumberjack.CloudLogging.{CloudProcessor, cloud_processor}
use lumberjack.Server.Tracing.{init, shutdown}
use lumberjack.Server.Main.{
  ServerConfig, Surroundings, new_config, new_cloud_logging_processor, agent_client, wrap_with,
  deferred, serve, serve_client, traced, configured, real_main,
}

module _ {W : Type 0} (s : Surroundings W) where
  -- The client of the agent: the default validator, and one backend.
  abbrev pub agent_of : CloudProcessor W → Client W
  agent_of p = record {
    validators = request_validator ∷ [];
    mutators = [];
    backends = cloud_processor p ∷ [];
    log_mode = log_mode_unspecified;
  }

  -- How a run went that ended without an error.
  pub record IsServed (w w' : W) : Type 0 where
    pub config : ServerConfig
    pub processed : s.environment ≡ ok config
    pub at_start : W
    pub traced_from : init s.telemetry config.trace_ratio w ≡ (at_start, none)
    pub processor : CloudProcessor W
    pub made : new_cloud_logging_processor s ≡ ok processor
    pub start : Client W → W → W × Option Err
    pub server : s.new_server config.port ≡ ok start
    pub at_end : W
    pub served : start (agent_of processor) at_start ≡ (at_end, none)
    pub at_stop : W
    pub stopped : stop (agent_of processor) at_end ≡ (at_stop, none)
    pub shut_down : shutdown s.telemetry at_stop ≡ (w', none)

  wrap_with-none : (f : Err → Err) (o : Option Err) → wrap_with s f o ≡ none → o ≡ none
  wrap_with-none f none h = refl
  wrap_with-none f (some e) h = cc

  pair_path : (x : W × Option Err) {w' : W} → x.0 ≡ w' → x.1 ≡ none → x ≡ (w', none)
  pair_path (a, b) h k = rw (h, k)

  deferred-none :
      (f : W → W × Option Err) (m : Err → Err) (r : W × Option Err) {w' : W}
      → deferred s f m r ≡ (w', none)
      → (w : W) × (r ≡ (w, none)) × (f w ≡ (w', none))
  deferred-none f m (w, e) h =
      let (first, second) = (join-none_iff e (wrap_with s m (f w).1)).0 (ap (λ x. x.1) h) in
      (w, rw first, pair_path (f w) (ap (λ x. x.0) h) (wrap_with-none m (f w).1 second))

  pub agent_client-made :
      (c : Client W)
      → agent_client s ≡ ok c
      → (p : CloudProcessor W) × (new_cloud_logging_processor s ≡ ok p) × (c ≡ agent_of p)
  unfolding agent_client new_client apply_options with_backend
  agent_client-made c h =
      let (p, made, same) = >>=-eq-ok (new_cloud_logging_processor s) _ h in
      (p, made, sym (ok_inj same))

  serve-none :
      (r : Result (Client W → W → W × Option Err)) (c : Client W) (w : W) {w' : W}
      → serve s r c w ≡ (w', none)
      → (start : Client W → W → W × Option Err) × (r ≡ ok start) × (start c w ≡ (w', none))
  serve-none (err e) c w h = absurd (let x = ap (λ y. y.1) h in cc)
  serve-none (ok start) c w h = (start, refl, h)

  traced-none :
      (port : String) (r : W × Option Err) {w' : W}
      → traced s port r ≡ (w', none)
      → (w : W) × (r ≡ (w, none))
        × ((w₁ : W) × (serve_client s port (agent_client s) w ≡ (w₁, none))
            × (shutdown s.telemetry w₁ ≡ (w', none)))
  traced-none port (w, some e) h = absurd (let x = ap (λ y. y.1) h in cc)
  traced-none port (w, none) h =
      let (w₁, served, ended) = deferred-none (shutdown s.telemetry) _ _ h in
      (w, refl, (w₁, served, ended))

  configured-none :
      (r : Result ServerConfig) (w : W) {w' : W}
      → configured s r w ≡ (w', none)
      → (cfg : ServerConfig) × (r ≡ ok cfg)
        × (traced s cfg.port (init s.telemetry cfg.trace_ratio w) ≡ (w', none))
  configured-none (err e) w h = absurd (let x = ap (λ y. y.1) h in cc)
  configured-none (ok cfg) w h = (cfg, refl, h)

  serve_client-none :
      (port : String) (r : Result (Client W)) (w : W) {w' : W}
      → serve_client s port r w ≡ (w', none)
      → (c : Client W) × (r ≡ ok c)
        × ((start : Client W → W → W × Option Err) × (s.new_server port ≡ ok start)
            × ((w₁ : W) × (start c w ≡ (w₁, none)) × (stop c w₁ ≡ (w', none))))
  serve_client-none port (err e) w h = absurd (let x = ap (λ y. y.1) h in cc)
  serve_client-none port (ok c) w h =
      let (w₁, served, stopped) = deferred-none (stop c) _ (serve s (s.new_server port) c w) h in
      let (start, made, ran) = serve-none (s.new_server port) c w served in
      (c, refl, (start, made, (w₁, ran, stopped)))

  -- A run of realMain that returns nil had a client with the default validator and one backend for
  -- Cloud Logging, served it until the server ended without an error, then stopped the client, and
  -- then shut tracing down, both without an error.
  pub real_main-IsServed : (w w' : W) → real_main s w ≡ (w', none) → IsServed w w'
  unfolding real_main new_config
  real_main-IsServed w w' h =
      let (cfg, config, h1) = configured-none (new_config s) w h in
      let (w₁, started, (w₂, served, ended)) = traced-none cfg.port _ h1 in
      let (c, made, (start, server, (w₃, ran, stopped))) =
        serve_client-none cfg.port (agent_client s) w₁ served in
      let (p, p_made, shape) = agent_client-made c made in
      record {
        config = cfg;
        processed = map_err-eq-ok _ _ config;
        at_start = w₁;
        traced_from = started;
        processor = p;
        made = p_made;
        start = start;
        server = server;
        at_end = w₃;
        served = rw shape at ran;
        at_stop = w₂;
        stopped = rw shape at stopped;
        shut_down = ended;
      }

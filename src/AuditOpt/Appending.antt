-- ===== src/AuditOpt/Appending.antt =====
-- The default validator in the clients that clients/go/pkg/auditopt/config.go makes.
use mathlib.Core.Path.{subst}
use lumberjack.Prelude.{
  ◌≡◌, String, true, Option, none, some, List, [], ◌∷◌, ◌++◌, map, All, All-append,
}
use lumberjack.Errors.{Err, ok, >>=-eq-ok, is_err, invalid_request}
use lumberjack.Api.{AuditLogRequest}
use lumberjack.Config.{Config, validate}
use lumberjack.Validation.Laws.{HasCompletePayload}
use lumberjack.Client.{
  Client, ClientOption, Processor, with_validator, with_mutator, with_backend, new_client, log,
  set_mode, handle_return,
}
use lumberjack.Client.Construction.{
  IsAppending, with_validator-IsAppending, with_mutator-IsAppending, with_backend-IsAppending,
  with_log_mode-IsAppending, with_runtime_info-IsAppending, apply_options-IsAppending,
  new_client-log_invalid,
}
use lumberjack.AuditOpt.{Outside, client_from_config, from_config_file}
use lumberjack.AuditOpt.Pieces.{options_from_config-Made}
use lumberjack.AuditOpt.{config_path, file_content, load_config}
use lumberjack.AuditOpt.Shape.{apply_validated-passed}

map-IsAppending :
    {W : Type 0} (option : Processor W → ClientOption W)
    → ((p : Processor W) → IsAppending (option p))
    → (ps : List (Processor W)) → All IsAppending (map option ps)
map-IsAppending option h [] = tt
map-IsAppending option h (p ∷ ps) = (h p, map-IsAppending option h ps)

module _ {W : Type 0} (o : Outside W) where
  client_from_config-IsAppending : (cfg : Option Config) → IsAppending (client_from_config o cfg)
  unfolding client_from_config
  client_from_config-IsAppending none c c' h = cc
  client_from_config-IsAppending (some cfg) c c' h =
      let v = (validate o.to_upper cfg).0 in
      let (_, (os, made, applied)) = apply_validated-passed o v _ c c' h in
      let m = options_from_config-Made o v made in
      apply_options-IsAppending os
        (subst (All IsAppending) m.options (
          with_runtime_info-IsAppending _,
          All-append IsAppending (map with_validator m.filters) _
              (map-IsAppending with_validator with_validator-IsAppending m.filters)
              (All-append IsAppending (map with_backend (m.remotes ++ m.clouds)) _
                (map-IsAppending with_backend with_backend-IsAppending (m.remotes ++ m.clouds))
                (
                  with_mutator-IsAppending _,
                  (
                    with_log_mode-IsAppending _,
                    map-IsAppending with_mutator with_mutator-IsAppending m.reasons,
                  ),
                )),
        ))
        c c' applied

  from_config_file-IsAppending : (path : String) → IsAppending (from_config_file o path)
  unfolding from_config_file
  from_config_file-IsAppending path c c' h =
      let (fc, _, h1) = >>=-eq-ok (file_content (o.read_file (config_path path))) _ h in
      let (cfg, _, h2) = >>=-eq-ok (load_config o fc) _ h1 in
      client_from_config-IsAppending (some cfg) c c' h2

  -- A client that NewClient makes with the option for a configuration file sends no request with an
  -- incomplete payload to any other processor: the world stays, the request has its mode filled in at
  -- most, and the error is one for an invalid request, returned in fail-close mode only.
  pub from_config_file-log_invalid :
      (path : String) (c : Client W) (r : AuditLogRequest) (w : W)
      → new_client (from_config_file o path ∷ []) ≡ ok c
      → ¬ HasCompletePayload (some r)
      → ((log c r w).world ≡ w)
        × ((log c r w).request ≡ set_mode c r)
        × ((e : Err) × (is_err invalid_request e ≡ true)
            × ((log c r w).exit ≡ handle_return e (set_mode c r).mode))
  from_config_file-log_invalid path c r w made bad =
      new_client-log_invalid (from_config_file o path ∷ []) c r w
        (from_config_file-IsAppending path, tt) made bad

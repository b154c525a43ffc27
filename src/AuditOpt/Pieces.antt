-- ===== src/AuditOpt/Pieces.antt =====
-- The lists of options that clients/go/pkg/auditopt/config.go collects, by the processors that they
-- append.
use mathlib.Core.List.{append_assoc, append-nil, map-append}
use lumberjack.Prelude.{
  ◌≡◌, refl, ◌∙◌, ℕ, String, Bool, true, false, Option, none, some, List, [], ◌∷◌, ◌++◌, map,
  length, All, is_some, if◌then◌else◌,
}
use lumberjack.Errors.{Err, Result, ok, err, >>=-eq-ok, ok_inj, map_err, map_err-eq-ok}
use lumberjack.Api.{LogMode, AuditLogRequest}
use lumberjack.Config.{
  Config, RegexCondition, Backend, Remote, CloudLogging, Justification, get_log_mode,
}
use lumberjack.Client.{
  Client, ClientOption, Processor, with_validator, with_mutator, with_backend, with_log_mode,
  with_runtime_info, apply_options, exit_of,
}
use lumberjack.Client.Delivery.{IsGentle}
use lumberjack.Filtering.{
  PrincipalEmailMatcher, matcher_processor, DecidedAs, passes, principal_of, filter_request,
  filter_request-passes, IsCompiled, new_principal_email_matcher-made,
}
use lumberjack.Justification.{Jvs, process_justification, justification_processor}
use lumberjack.Runtime.{runtime_processor}
use lumberjack.CloudLogging.{CloudProcessor, cloud_processor}
use lumberjack.Remote.{RemoteProcessor, remote_processor}
use lumberjack.AuditOpt.Gentle.{matcher-IsGentle, justification-IsGentle}
use lumberjack.AuditOpt.{
  Outside, filter_option, regex_of, principal_filter_from_config, remote_backend, cloud_backend,
  backends_from_config, labels_from_config, justification_from_config, justification_option,
  is_enabled, option_of, matcher_from_config, remote_from_config, cloud_from_config,
  backend_options, options_from_config, map_result,
}

abbrev pub number : Bool → ℕ
number true = 1
number false = 0

module _ {W : Type 0} where
  -- Options that each append one processor do so one after the other.
  pub apply_validators :
      (ps : List (Processor W)) (rest : List (ClientOption W)) (c : Client W)
      → apply_options (map with_validator ps ++ rest) c
        ≡ apply_options rest (record c { validators = c.validators ++ ps })
  unfolding apply_options with_validator
  apply_validators [] rest c = rw (append-nil c.validators)
  apply_validators (p ∷ ps) rest c =
      apply_validators ps rest (record c { validators = c.validators ++ (p ∷ []) })
      ∙ rw (append_assoc c.validators (p ∷ []) ps)

  pub apply_mutators :
      (ps : List (Processor W)) (rest : List (ClientOption W)) (c : Client W)
      → apply_options (map with_mutator ps ++ rest) c
        ≡ apply_options rest (record c { mutators = c.mutators ++ ps })
  unfolding apply_options with_mutator
  apply_mutators [] rest c = rw (append-nil c.mutators)
  apply_mutators (p ∷ ps) rest c =
      apply_mutators ps rest (record c { mutators = c.mutators ++ (p ∷ []) })
      ∙ rw (append_assoc c.mutators (p ∷ []) ps)

  pub apply_last_mutators :
      (ps : List (Processor W)) (c : Client W)
      → apply_options (map with_mutator ps) c ≡ ok (record c { mutators = c.mutators ++ ps })
  unfolding apply_options
  apply_last_mutators ps c = rw (append-nil (map with_mutator ps)) at (apply_mutators ps [] c)

  pub apply_backends :
      (ps : List (Processor W)) (rest : List (ClientOption W)) (c : Client W)
      → apply_options (map with_backend ps ++ rest) c
        ≡ apply_options rest (record c { backends = c.backends ++ ps })
  unfolding apply_options with_backend
  apply_backends [] rest c = rw (append-nil c.backends)
  apply_backends (p ∷ ps) rest c =
      apply_backends ps rest (record c { backends = c.backends ++ (p ∷ []) })
      ∙ rw (append_assoc c.backends (p ∷ []) ps)

  -- What holds of each processor of a list, by its parts.
  pub All-first {κ} :
      (P : Processor W → Type 0) (Q : Processor W → Type κ) (ps : List (Processor W))
      → All (λ p. P p × Q p) ps
      → All P ps
  All-first P Q [] h = tt
  All-first P Q (p ∷ ps) ((a, b), h) = (a, All-first P Q ps h)

  pub All-second {κ} :
      (P : Processor W → Type 0) (Q : Processor W → Type κ) (ps : List (Processor W))
      → All (λ p. P p × Q p) ps
      → All Q ps
  All-second P Q [] h = tt
  All-second P Q (p ∷ ps) ((a, b), h) = (b, All-second P Q ps h)

  -- Options that append so many processors, of the given kind, by the given option.
  abbrev pub Appends {κ} :
      (Processor W → ClientOption W) → (Processor W → Type κ) → ℕ → List (ClientOption W) → Type κ
  Appends option P n os =
      (ps : List (Processor W)) × (map option ps ≡ os) × (length ps ≡ n) × All P ps

option_of-Appends {ℓ κ} :
    {A : Type ℓ} {W : Type 0} (option : Processor W → ClientOption W)
    (to_processor : A → Processor W) (P : Processor W → Type κ) (r : Result A)
    {os : List (ClientOption W)}
    → ((a : A) → r ≡ ok a → P (to_processor a))
    → option_of option to_processor r ≡ ok os
    → Appends option P 1 os
option_of-Appends option to_processor P (ok a) k h =
    (to_processor a ∷ [], ok_inj h, refl, (k a refl, tt))
option_of-Appends option to_processor P (err e) k h = cc

if-Appends {κ} :
    {W : Type 0} (option : Processor W → ClientOption W) (P : Processor W → Type κ) (b : Bool)
    (made : Result (List (ClientOption W))) {os : List (ClientOption W)}
    → ((xs : List (ClientOption W)) → made ≡ ok xs → Appends option P 1 xs)
    → (if b then made else ok []) ≡ ok os
    → Appends option P (number b) os
if-Appends option P true made h k = h _ k
if-Appends option P false made h k = ([], ok_inj k, refl, tt)

module _ {W : Type 0} (o : Outside W) where
  -- The backend that is made for a configured agent, and the one for Cloud Logging.
  abbrev pub IsRemoteOf : Option Remote → Processor W → Type 0
  IsRemoteOf r b =
      (x : Remote) × (p : RemoteProcessor W) × (r ≡ some x)
      × (remote_from_config o x ≡ ok p)
      × (b ≡ remote_processor p)

  abbrev pub IsCloudOf : LogMode → Option CloudLogging → Processor W → Type 0
  IsCloudOf mode r b =
      (x : CloudLogging) × (p : CloudProcessor W) × (r ≡ some x)
      × (cloud_from_config o mode x ≡ ok p)
      × (b ≡ cloud_processor p)

  -- The filter that is made for a configured condition: of the requests with a principal it lets pass
  -- those of the documented cases, by the two expressions, and drops the others as failed
  -- preconditions. It has no effect on the request and on the world.
  pub record IsFilterOf (r : Option RegexCondition) (p : Processor W) : Type 0 where
    pub condition : RegexCondition
    pub there : r ≡ some condition
    pub includes : List o.regexps.Regexp
    pub excludes : List o.regexps.Regexp
    pub included : IsCompiled o.regexps condition.principal_include includes
    pub excluded : IsCompiled o.regexps condition.principal_exclude excludes
    pub decides :
        (a : AuditLogRequest) (email : String) (w : W)
        → principal_of a.payload ≡ some email
        → (e : Option Err) × DecidedAs (passes o.regexps includes excludes email) e
          × (p.process a w ≡ record { world = w; request = a; exit = exit_of e })

  -- The mutator that is made for a configured justification: it asks the client for the endpoint and
  -- the setting for breakglass that the configuration has.
  pub record IsReasonOf (r : Option Justification) (p : Processor W) : Type 1 where
    pub configured : Justification
    pub there : r ≡ some configured
    pub settings : String × Bool
    pub loaded :
        o.load_jvs configured.public_keys_endpoint configured.allow_breakglass ≡ ok settings
    pub jvs : Jvs
    pub client : o.jvs_client settings ≡ ok jvs
    pub same : p ≡ record { process = process_justification jvs; stop = none }

  matcher-IsFilterOf :
      (r : RegexCondition) (m : PrincipalEmailMatcher o.regexps)
      → matcher_from_config o r ≡ ok m
      → IsFilterOf (some r) (matcher_processor o.regexps m)
  unfolding matcher_processor
  matcher-IsFilterOf r m h =
      let (included, excluded) =
        new_principal_email_matcher-made o.regexps r.principal_include r.principal_exclude m
          (map_err-eq-ok _ _ h) in
      record {
        condition = r;
        there = refl;
        includes = m.includes;
        excludes = m.excludes;
        included = included;
        excluded = excluded;
        decides = λ a email w given.
            (filter_request o.regexps m a, filter_request-passes o.regexps m a email given, refl);
      }

  filter_option-Appends :
      (r : Option RegexCondition) {os : List (ClientOption W)}
      → filter_option o r ≡ ok os
      → Appends with_validator (λ p. IsGentle p × IsFilterOf r p) (number (is_some r)) os
  filter_option-Appends none h = ([], ok_inj h, refl, tt)
  filter_option-Appends (some r) h =
      option_of-Appends with_validator _ (λ p. IsGentle p × IsFilterOf (some r) p)
        (matcher_from_config o r)
        (λ m made. (matcher-IsGentle o.regexps m, matcher-IsFilterOf r m made)) h

  remote_backend-Appends :
      (r : Option Remote) {os : List (ClientOption W)}
      → remote_backend o r ≡ ok os
      → Appends with_backend (IsRemoteOf r) (number (is_some r)) os
  remote_backend-Appends none h = ([], ok_inj h, refl, tt)
  remote_backend-Appends (some r) h =
      option_of-Appends with_backend _ (IsRemoteOf (some r)) (remote_from_config o r)
        (λ p made. (r, p, refl, made, refl)) h

  cloud_backend-Appends :
      (mode : LogMode) (r : Option CloudLogging) {os : List (ClientOption W)}
      → cloud_backend o mode r ≡ ok os
      → Appends with_backend (IsCloudOf mode r) (number (is_some r)) os
  cloud_backend-Appends mode none h = ([], ok_inj h, refl, tt)
  cloud_backend-Appends mode (some r) h =
      option_of-Appends with_backend _ (IsCloudOf mode (some r)) (cloud_from_config o mode r)
        (λ p made. (r, p, refl, made, refl)) h

  justification-IsReasonOf :
      (j : Justification) (jvs : Jvs)
      → justification_from_config o j ≡ ok jvs
      → IsReasonOf (some j) (justification_processor jvs)
  unfolding justification_from_config
  justification-IsReasonOf j jvs h =
      let (settings, loaded, made) = >>=-eq-ok (map_err _ _) _ h in
      record {
        configured = j;
        there = refl;
        settings = settings;
        loaded = map_err-eq-ok _ _ loaded;
        jvs = jvs;
        client = map_err-eq-ok _ _ made;
        same = refl;
      }

  justification_option-Appends :
      (j : Option Justification) {os : List (ClientOption W)}
      → justification_option o j ≡ ok os
      → Appends with_mutator (λ p. IsGentle p × IsReasonOf j p) (number (is_enabled o j)) os
  justification_option-Appends none h = ([], ok_inj h, refl, tt)
  justification_option-Appends (some j) h =
      if-Appends with_mutator (λ p. IsGentle p × IsReasonOf (some j) p) j.enabled _
        (λ xs k.
          option_of-Appends with_mutator _ (λ p. IsGentle p × IsReasonOf (some j) p)
            (justification_from_config o j)
            (λ jvs made. (justification-IsGentle jvs, justification-IsReasonOf j jvs made)) k)
        h

  -- What the options for a backend append: a processor for the agent, then one for Cloud Logging, each
  -- where it is configured.
  pub record AppendsBackends (mode : LogMode) (b : Backend) (os : List (ClientOption W))
      : Type 0 where
    pub remotes : List (Processor W)
    pub clouds : List (Processor W)
    pub options : map with_backend (remotes ++ clouds) ≡ os
    pub remote_if : length remotes ≡ number (is_some b.remote)
    pub cloud_if : length clouds ≡ number (is_some b.cloud_logging)
    pub remotes_made : All (IsRemoteOf b.remote) remotes
    pub clouds_made : All (IsCloudOf mode b.cloud_logging) clouds

  backends_from_config-Appends :
      (mode : LogMode) (b : Backend) {os : List (ClientOption W)}
      → backends_from_config o mode b ≡ ok os
      → AppendsBackends mode b os
  unfolding backends_from_config
  backends_from_config-Appends mode b h =
      let (rs, r, h') = >>=-eq-ok (remote_backend o b.remote) _ h in
      let (cs, c, same) = >>=-eq-ok (cloud_backend o mode b.cloud_logging) _ h' in
      let (ps, ps_same, ps_length, ps_made) = remote_backend-Appends b.remote r in
      let (qs, qs_same, qs_length, qs_made) = cloud_backend-Appends mode b.cloud_logging c in
      record {
        remotes = ps;
        clouds = qs;
        options = map-append with_backend ps qs ∙ rw (ps_same, qs_same, ok_inj same);
        remote_if = ps_length;
        cloud_if = qs_length;
        remotes_made = ps_made;
        clouds_made = qs_made;
      }

  -- the options for these processors
  abbrev pub options_for :
      Config → List (Processor W) → List (Processor W) → List (Processor W) → List (ClientOption W)
  options_for cfg fs bs js =
      with_runtime_info (map_result runtime_processor o.runtime_info)
      ∷ (map with_validator fs
          ++ (map with_backend bs
              ++ (labels_from_config o cfg
                  ∷ with_log_mode (get_log_mode o.to_upper cfg)
                  ∷ map with_mutator js)))

  pub record Made (cfg : Config) (os : List (ClientOption W)) : Type 1 where
    pub filters : List (Processor W)
    pub reasons : List (Processor W)
    pub filter_if : length filters ≡ number (is_some (regex_of o cfg.condition))
    pub filters_made : All (λ p. IsGentle p × IsFilterOf (regex_of o cfg.condition) p) filters
    pub reason_if : length reasons ≡ number (is_enabled o cfg.justification)
    pub reasons_made : All (λ p. IsGentle p × IsReasonOf cfg.justification p) reasons
    pub backend : Backend
    pub backend_there : cfg.backend ≡ some backend
    pub remotes : List (Processor W)
    pub clouds : List (Processor W)
    pub remote_if : length remotes ≡ number (is_some backend.remote)
    pub cloud_if : length clouds ≡ number (is_some backend.cloud_logging)
    pub remotes_made : All (IsRemoteOf backend.remote) remotes
    pub clouds_made : All (IsCloudOf (get_log_mode o.to_upper cfg) backend.cloud_logging) clouds
    pub options : options_for cfg filters (remotes ++ clouds) reasons ≡ os

  backend_there :
      (mode : LogMode) (b : Option Backend) {os : List (ClientOption W)}
      → backend_options o mode b ≡ ok os
      → (x : Backend) × (b ≡ some x) × (backends_from_config o mode x ≡ ok os)
  backend_there mode none h = cc
  backend_there mode (some b) h = (b, refl, h)

  pub options_from_config-Made :
      (cfg : Config) {os : List (ClientOption W)} → options_from_config o cfg ≡ ok os → Made cfg os
  unfolding options_from_config principal_filter_from_config
  options_from_config-Made cfg h =
      let mode = get_log_mode o.to_upper cfg in
      let (f, f_made, h1) = >>=-eq-ok (filter_option o (regex_of o cfg.condition)) _ h in
      let (b, b_made, h2) = >>=-eq-ok (backend_options o mode cfg.backend) _ h1 in
      let (j, j_made, h3) = >>=-eq-ok (justification_option o cfg.justification) _ h2 in
      let (fs, f_same, f_number, f_made_of) =
        filter_option-Appends (regex_of o cfg.condition) f_made in
      let (x, there, b_made') = backend_there mode cfg.backend b_made in
      let bs = backends_from_config-Appends mode x b_made' in
      let (js, j_same, j_number, j_made_of) =
        justification_option-Appends cfg.justification j_made in
      record {
        filters = fs;
        reasons = js;
        filter_if = f_number;
        filters_made = f_made_of;
        reason_if = j_number;
        reasons_made = j_made_of;
        backend = x;
        backend_there = there;
        remotes = bs.remotes;
        clouds = bs.clouds;
        remote_if = bs.remote_if;
        cloud_if = bs.cloud_if;
        remotes_made = bs.remotes_made;
        clouds_made = bs.clouds_made;
        options = rw (f_same, bs.options, j_same, ok_inj h3);
      }

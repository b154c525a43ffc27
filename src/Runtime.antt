-- ===== src/Runtime.antt =====
-- clients/go/pkg/audit/runtime.go: the processor that adds the runtime environment to a request.
-- The environment's variables, the metadata server, the file system and protojson are parameters;
-- a question to the metadata server has one answer during the detection.
pub mod Zone
pub mod Detection
pub mod Process
use lumberjack.Prelude.{
  String, Bool, true, false, ◌&&◌, ◌||◌, not, Option, none, some, List, [], ◌∷◌, Dict, is_some,
  ◌==◌, if◌then◌else◌,
}
use lumberjack.Errors.{Err, wrap, Result, ok, err, ◌>>=◌, map_err, Exit, done, panicked}
use lumberjack.Api.{AuditLog, AuditLogRequest}
use lumberjack.Api.Values.{
  Value, struct_value, Struct, nil_map, fields, Fields, no_fields, set_field,
}
use lumberjack.Client.{Outcome, Processor}
use lumberjack.Runtime.Zone.{region_from_zone}

-- `mrpb.MonitoredResource`
pub record MonitoredResource : Type 0 where
  pub resource_type : String
  pub resource_labels : Dict String

pub record Environment : Type 0 where
  -- `os.LookupEnv`
  pub lookup_env : String → Option String
  -- `metadata.ProjectIDWithContext` and its like
  pub project_id : Result String
  pub zone : Result String
  pub instance_id : Result String
  pub instance_name : Result String
  pub instance_attribute : String → Result String
  pub on_gce : Bool
  -- `os.ReadFile`
  pub read_file : String → Result String
  -- `protojson.Marshal` of a resource, and `protojson.Unmarshal` to a struct
  pub marshal_resource : MonitoredResource → Result String
  pub unmarshal_struct : String → Result Struct

-- A value, unless a call fails: then a detection returns nil.
abbrev pub or_nil {ℓ} : {A B : Type ℓ} → Result A → (A → Option B) → Option B
or_nil (ok a) f = f a
or_nil (err _) f = none

abbrev pub or_default : Option String → String → String
or_default (some v) _ = v
or_default none d = d

abbrev or_empty : Result String → String
or_empty (ok s) = s
or_empty (err _) = ""

abbrev is_nonempty : Result String → Bool
is_nonempty (ok s) = not (s == "")
is_nonempty (err _) = false

module _ (e : Environment) where
  -- `os.Getenv`
  abbrev pub getenv : String → String
  getenv k = or_default (e.lookup_env k) ""

  abbrev has_env : String → Bool
  has_env k = is_some (e.lookup_env k)

  -- `isAppEngine`
  unfoldable pub is_app_engine : Bool
  is_app_engine = has_env "GAE_SERVICE" && has_env "GAE_VERSION" && has_env "GAE_INSTANCE"

  -- `detectAppEngineResource`
  unfoldable pub detect_app_engine_resource : Option MonitoredResource
  detect_app_engine_resource = or_nil e.project_id (λ project. or_nil e.zone (λ zone. some (record {
    resource_type = "gae_app";
    resource_labels =
        ("project_id", if project == "" then getenv "GOOGLE_CLOUD_PROJECT" else project)
        ∷ ("module_id", getenv "GAE_SERVICE")
        ∷ ("version_id", getenv "GAE_VERSION")
        ∷ ("instance_id", getenv "GAE_INSTANCE")
        ∷ ("runtime", getenv "GAE_RUNTIME")
        ∷ ("zone", zone)
        ∷ [];
  })))

  -- `isCloudFunction`
  unfoldable pub is_cloud_function : Bool
  is_cloud_function =
      (has_env "FUNCTION_NAME" && has_env "FUNCTION_REGION" && has_env "ENTRY_POINT")
      || (has_env "FUNCTION_TARGET" && has_env "FUNCTION_SIGNATURE_TYPE" && has_env "K_SERVICE")

  -- `detectCloudFunction`
  unfoldable pub detect_cloud_function : Option MonitoredResource
  detect_cloud_function = or_nil e.project_id (λ project. or_nil e.zone (λ zone. some (record {
    resource_type = "cloud_function";
    resource_labels =
        ("project_id", project)
        ∷ ("region", region_from_zone zone)
        ∷ ("function_name", or_default (e.lookup_env "K_SERVICE") (getenv "FUNCTION_NAME"))
        ∷ [];
  })))

  -- `isCloudRun`
  unfoldable pub is_cloud_run : Bool
  is_cloud_run = has_env "K_CONFIGURATION" && has_env "K_SERVICE" && has_env "K_REVISION"

  -- `detectCloudRunResource`
  unfoldable pub detect_cloud_run_resource : Option MonitoredResource
  detect_cloud_run_resource = or_nil e.project_id (λ project. or_nil e.zone (λ zone. some (record {
    resource_type = "cloud_run_revision";
    resource_labels =
        ("project_id", project)
        ∷ ("location", region_from_zone zone)
        ∷ ("service_name", getenv "K_SERVICE")
        ∷ ("revision_name", getenv "K_REVISION")
        ∷ ("configuration_name", getenv "K_CONFIGURATION")
        ∷ [];
  })))

  -- `isKubernetesEngine`
  unfoldable pub is_kubernetes_engine : Bool
  is_kubernetes_engine = is_nonempty (e.instance_attribute "cluster-name")

  -- `detectKubernetesResource`
  unfoldable pub detect_kubernetes_resource : Option MonitoredResource
  detect_kubernetes_resource =
      let namespace =
        or_empty (e.read_file "/var/run/secrets/kubernetes.io/serviceaccount/namespace") in
      or_nil e.project_id (λ project. or_nil e.zone (λ zone.
        or_nil (e.instance_attribute "cluster-name") (λ cluster_name. some (record {
          resource_type = "k8s_container";
          resource_labels =
              ("cluster_name", cluster_name)
              ∷ ("location", zone)
              ∷ ("project_id", project)
              ∷ ("pod_name", getenv "HOSTNAME")
              ∷ ("namespace_name", namespace)
              ∷ ("container_name", getenv "CONTAINER_NAME")
              ∷ [];
        }))))

  -- `detectGCEResource`
  unfoldable pub detect_gce_resource : Option MonitoredResource
  detect_gce_resource = or_nil e.project_id (λ project. or_nil e.instance_id (λ id.
      or_nil e.zone (λ zone. or_nil e.instance_name (λ name. some (record {
        resource_type = "gce_instance";
        resource_labels =
            ("project_id", project)
            ∷ ("instance_id", id)
            ∷ ("instance_name", name)
            ∷ ("zone", zone)
            ∷ [];
      })))))

  -- the switch of `newRuntimeInfo`
  unfoldable pub detect : Option MonitoredResource
  unfolding is_app_engine is_cloud_function is_cloud_run is_kubernetes_engine
      detect_app_engine_resource detect_cloud_function detect_cloud_run_resource
      detect_kubernetes_resource detect_gce_resource
  detect =
      if is_app_engine
      then detect_app_engine_resource
      else if is_cloud_function
      then detect_cloud_function
      else if is_cloud_run
      then detect_cloud_run_resource
      else if is_kubernetes_engine
      then detect_kubernetes_resource
      else if e.on_gce
      then detect_gce_resource
      else none

  -- `toStructVal`
  unfoldable pub to_struct_val : MonitoredResource → Result Value
  to_struct_val r =
      map_err (wrap "error marshalling %+v to JSON: %w") (e.marshal_resource r) >>= (λ b.
        map_err (wrap "unmarshal error: %w") (e.unmarshal_struct b) >>= (λ s. ok (struct_value s)))

  abbrev pub resource_value : Option MonitoredResource → Result (Option Value)
  resource_value none = ok none
  resource_value (some r) =
      map_err (wrap "failed to convert *mrpb.MonitoredResource to *structpb.Value: %w")
        (to_struct_val r)
      >>= (λ v. ok (some v))

  -- `newRuntimeInfo`: the field `monitoredResource` of what it makes
  unfoldable pub new_runtime_info : Result (Option Value)
  unfolding detect to_struct_val
  new_runtime_info = resource_value detect

-- The fields of the metadata, made where there are none.
abbrev pub metadata_fields : Option Struct → Fields
metadata_fields none = no_fields
metadata_fields (some nil_map) = no_fields
metadata_fields (some (fields fs)) = fs

abbrev pub set_resource : Value → AuditLog → AuditLog
set_resource v p = record p {
  metadata = some (fields (set_field "originating_resource" v (metadata_fields p.metadata)));
}

module _ {W : Type 0} where
  abbrev pub add_resource : Value → AuditLogRequest → Option AuditLog → W → Outcome W
  add_resource v r none w = record { world = w; request = r; exit = panicked }
  add_resource v r (some p) w = record {
    world = w;
    request = record r { payload = some (set_resource v p) };
    exit = done;
  }

  -- `(*runtimeInfo).Process`
  unfoldable pub process_runtime : Option Value → AuditLogRequest → W → Outcome W
  process_runtime none r w = record { world = w; request = r; exit = done }
  process_runtime (some v) r w = add_resource v r r.payload w

  abbrev pub runtime_processor : Option Value → Processor W
  runtime_processor v = record { process = process_runtime v; stop = none }

-- ===== src/Runtime/Process.antt =====
-- What the processor of clients/go/pkg/audit/runtime.go does to a request.
use lumberjack.Prelude.{String, ◌≡◌, refl, Option, none, some, ◌==◌, if◌then◌else◌}
use lumberjack.Errors.{done}
use lumberjack.Api.{AuditLog, AuditLogRequest}
use lumberjack.Api.Values.{Value, Struct, nil_map, fields, get_key, get_field, get_field-set_field}
use lumberjack.Runtime.{process_runtime, metadata_fields, set_resource}

-- The value of a key of the metadata, which may be absent.
abbrev pub metadata_key : String → Option Struct → Option Value
metadata_key k none = none
metadata_key k (some s) = get_key k s

get_field-metadata_fields :
    (k : String) (m : Option Struct) → get_field k (metadata_fields m) ≡ metadata_key k m
unfolding get_field
get_field-metadata_fields k none = refl
get_field-metadata_fields k (some nil_map) = refl
get_field-metadata_fields k (some (fields fs)) = refl

-- A request with a payload is processed without an error: the payload's metadata get the detected
-- resource at the key `originating_resource` and keep every other key, and the rest of the request
-- stays as it is.
pub process_runtime_lem :
    {W : Type 0} (v : Value) (r : AuditLogRequest) (p : AuditLog) (w : W) (k : String)
    → r.payload ≡ some p
    → (q : AuditLog) × (process_runtime (some v) r w
        ≡ record { world = w; request = record r { payload = some q }; exit = done })
      × (metadata_key k q.metadata
          ≡ (if "originating_resource" == k then some v else metadata_key k p.metadata))
      × (record q { metadata = p.metadata } ≡ p)
unfolding process_runtime
process_runtime_lem v r p w k h = (
  set_resource v p,
  rw h,
  rw (
    get_field-set_field "originating_resource" k v (metadata_fields p.metadata),
    get_field-metadata_fields k p.metadata,
  ),
  refl,
)

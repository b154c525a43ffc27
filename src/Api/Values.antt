-- ===== src/Api/Values.antt =====
-- The dynamic values of an audit log: `structpb.Value` and `structpb.Struct` of protobuf, as
-- third_party/googleapis/google/cloud/audit/audit_log.proto uses them. A number is the bit pattern
-- of its float64.
use lumberjack.Prelude.{
  ℕ, String, Bool, ◌≡◌, refl, Option, none, some, ◌==◌, if◌then◌else◌, eq_iff, arith,
}

mutual
  pub data Value : Type 0 where
    null_value : Value
    number_value : ℕ → Value
    string_value : String → Value
    bool_value : Bool → Value
    struct_value : Struct → Value
    list_value : Values → Value

  pub data Values : Type 0 where
    no_values : Values
    value : Value → Values → Values

  pub data Fields : Type 0 where
    no_fields : Fields
    field : String → Value → Fields → Fields

  -- A struct whose map is nil is not one whose map is empty: a write to the first panics.
  pub data Struct : Type 0 where
    nil_map : Struct
    fields : Fields → Struct

unfoldable pub set_field : String → Value → Fields → Fields
set_field k v no_fields = field k v no_fields
set_field k v (field j w fs) = if j == k then field k v fs else field j w (set_field k v fs)

unfoldable pub get_field : String → Fields → Option Value
get_field k no_fields = none
get_field k (field j v fs) = if j == k then some v else get_field k fs

pub get_field-set_field :
    (k j : String) (v : Value) (fs : Fields)
    → get_field j (set_field k v fs) ≡ (if k == j then some v else get_field j fs)
unfolding set_field get_field
get_field-set_field k j v no_fields = refl
get_field-set_field k j v (field i w fs) =
    ground (arith, eq_iff k j, eq_iff i k, eq_iff i j, get_field-set_field k j v fs)

-- Reading a key of a struct: a nil map has no keys.
abbrev pub get_key : String → Struct → Option Value
get_key k nil_map = none
get_key k (fields fs) = get_field k fs

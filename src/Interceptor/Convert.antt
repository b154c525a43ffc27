-- ===== src/Interceptor/Convert.antt =====
-- `toProtoStruct` and its helpers, of clients/go/pkg/audit/interceptor.go: a Go value as a struct of
-- protobuf, by way of JSON. What `encoding/json` does by reflection is a parameter.
use lumberjack.Prelude.{ℕ, String, Bool, ◌≡◌, refl, ap, Option, none, some}
use lumberjack.Errors.{wrap, Result, ok, ◌>>=◌, map_err}
use lumberjack.Api.Values.{
  Value, null_value, number_value, string_value, bool_value, struct_value, list_value, Values,
  no_values, value, Fields, no_fields, field, Struct, nil_map, fields,
}

-- The dynamic values that `json.Unmarshal` stores; `other` is a value of any further type.
mutual
  pub data Json : Type 0 where
    json_null : Json
    json_bool : Bool → Json
    json_number : ℕ → Json
    json_string : String → Json
    json_map : JsonMap → Json
    json_list : JsonList → Json
    other : Json

  pub data JsonMap : Type 0 where
    empty_map : JsonMap
    entry : String → Json → JsonMap → JsonMap

  pub data JsonList : Type 0 where
    empty_list : JsonList
    item : Json → JsonList → JsonList

-- `jsonValueToStructValue`, and the loops that it and `jsonMapToProtoStruct` make
unfoldable mutual
  pub json_value_to_struct_value : Json → Value
  json_value_to_struct_value json_null = null_value
  json_value_to_struct_value (json_bool b) = bool_value b
  json_value_to_struct_value (json_number n) = number_value n
  json_value_to_struct_value (json_string s) = string_value s
  json_value_to_struct_value (json_map m) = struct_value (fields (convert_map m))
  json_value_to_struct_value (json_list l) = list_value (convert_list l)
  json_value_to_struct_value other = null_value

  pub convert_map : JsonMap → Fields
  convert_map empty_map = no_fields
  convert_map (entry k v m) = field k (json_value_to_struct_value v) (convert_map m)

  pub convert_list : JsonList → Values
  convert_list empty_list = no_values
  convert_list (item v l) = value (json_value_to_struct_value v) (convert_list l)

-- `jsonMapToProtoStruct`
unfoldable pub json_map_to_proto_struct : JsonMap → Struct
unfolding convert_map
json_map_to_proto_struct m = fields (convert_map m)

-- Go's values of type `any`, with the test that one is a `*structpb.Struct` already, and JSON's
-- printer and parser.
pub record GoValues : Type 1 where
  pub Any : Type 0
  pub nil : Any
  pub as_struct : Any → Option Struct
  pub marshal : Any → Result String
  pub unmarshal : String → Result JsonMap

module _ (go : GoValues) where
  open go use {Any, as_struct, marshal, unmarshal}

  -- `toProtoStruct`
  unfoldable pub to_proto_struct : Any → Result Struct
  to_proto_struct v = elim (as_struct v) [
    | some s ↦ ok s
    | none ↦ map_err (wrap "json.Marshal: %w") (marshal v) >>= λ jb.
        map_err (wrap "json.Unmarshal: %w") (unmarshal jb) >>= λ m. ok (json_map_to_proto_struct m)
  ]

-- The value that a struct's value was made of.
mutual
  pub of_value : Value → Json
  of_value null_value = json_null
  of_value (number_value n) = json_number n
  of_value (string_value s) = json_string s
  of_value (bool_value b) = json_bool b
  of_value (struct_value s) = json_map (of_struct s)
  of_value (list_value l) = json_list (of_values l)

  pub of_values : Values → JsonList
  of_values no_values = empty_list
  of_values (value v l) = item (of_value v) (of_values l)

  pub of_fields : Fields → JsonMap
  of_fields no_fields = empty_map
  of_fields (field k v fs) = entry k (of_value v) (of_fields fs)

  pub of_struct : Struct → JsonMap
  of_struct nil_map = empty_map
  of_struct (fields fs) = of_fields fs

-- No value of a further type is inside: what `json.Unmarshal` yields.
unfoldable mutual
  pub IsJson : Json → Type 0
  IsJson other = ⊥
  IsJson (json_map m) = IsJsonMap m
  IsJson (json_list l) = IsJsonList l
  IsJson json_null = Unit
  IsJson (json_bool b) = Unit
  IsJson (json_number n) = Unit
  IsJson (json_string s) = Unit

  pub IsJsonMap : JsonMap → Type 0
  IsJsonMap empty_map = Unit
  IsJsonMap (entry k v m) = IsJson v × IsJsonMap m

  pub IsJsonList : JsonList → Type 0
  IsJsonList empty_list = Unit
  IsJsonList (item v l) = IsJson v × IsJsonList l

mutual
  unfolding json_value_to_struct_value of_value IsJson

  of_value-convert : (v : Json) → IsJson v → of_value (json_value_to_struct_value v) ≡ v
  of_value-convert json_null h = refl
  of_value-convert (json_bool b) h = refl
  of_value-convert (json_number n) h = refl
  of_value-convert (json_string s) h = refl
  of_value-convert (json_map m) h = ap json_map (of_fields-convert m h)
  of_value-convert (json_list l) h = ap json_list (of_values-convert l h)
  of_value-convert other h = absurd h

  of_fields-convert : (m : JsonMap) → IsJsonMap m → of_fields (convert_map m) ≡ m
  of_fields-convert empty_map h = refl
  of_fields-convert (entry k v m) (p, h) = cc (of_value-convert v p, of_fields-convert m h)

  of_values-convert : (l : JsonList) → IsJsonList l → of_values (convert_list l) ≡ l
  of_values-convert empty_list h = refl
  of_values-convert (item v l) (p, h) = cc (of_value-convert v p, of_values-convert l h)

-- The conversion loses nothing of a map that JSON's parser yields: the map can be read back.
pub of_struct-json_map : (m : JsonMap) → IsJsonMap m → of_struct (json_map_to_proto_struct m) ≡ m
unfolding json_map_to_proto_struct of_struct
of_struct-json_map m h = of_fields-convert m h

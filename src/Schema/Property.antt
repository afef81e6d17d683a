-- ===== src/Schema/Property.antt =====
-- `PropertyBuilder` of internal/schema/schema.go with its setters that no kind owns, and those of
-- string.go, numeric.go, duration.go and object.go.
use gonest.Prelude.{ℕ, Bool, true, false, Option, none, some, List, [], ◌∷◌, ◌++◌, Result}
use gonest.Prelude.Bytes.{Bytes}
use gonest.Prelude.Numbers.{ℤ}
use gonest.Schema.Value.{Any, nil}

pub data Kind : Type 0 where
  unset string integer number boolean array object duration : Kind

-- `reflect.StructField`: the name, the tags and the path of indices to the field.
pub record StructField : Type 0 where
  pub name : Bytes
  pub tags : List (Bytes × Bytes)
  pub index : List ℕ

-- What a parse writes: the field, by its path of indices, and the value it is set to.
abbrev pub Destination : Type 0
Destination = List (List ℕ × Any)

-- A pointer to a schema or to a builder is its index in the store, and nil is `none`.
pub record PropertyBuilder : Type 0 where
  pub field : StructField
  pub required : Bool
  pub nullable : Bool
  pub description : Bytes
  pub examples : List Any
  pub format : Bytes
  pub kind : Kind
  pub min : Option ℤ
  pub max : Option ℤ
  pub pattern : Bytes
  pub enum_string : List Bytes
  pub enum_string_set : Bool
  pub enum_int : List ℤ
  pub enum_int_set : Bool
  pub item : Option ℕ
  pub item_ref : Option ℕ
  pub ref : Option ℕ
  pub additional_properties : Bool
  pub custom : Option (Any → Result Bytes Any)
  pub sanitize : Option (Any → Any)
  pub graphql_scalar : Bytes
  pub default_value : Any
  pub has_default : Bool

-- `&PropertyBuilder{}` with its field set.
abbrev pub new_builder : StructField → PropertyBuilder
new_builder owner = record {
  field = owner;
  required = false;
  nullable = false;
  description = [];
  examples = [];
  format = [];
  kind = unset;
  min = none;
  max = none;
  pattern = [];
  enum_string = [];
  enum_string_set = false;
  enum_int = [];
  enum_int_set = false;
  item = none;
  item_ref = none;
  ref = none;
  additional_properties = false;
  custom = none;
  sanitize = none;
  graphql_scalar = [];
  default_value = nil;
  has_default = false;
}

abbrev pub Setter : Type 0
Setter = PropertyBuilder → PropertyBuilder

abbrev pub set_required : Setter
set_required p = record p { required = true }

abbrev pub set_nullable : Setter
set_nullable p = record p { nullable = true }

-- `strings.Join(parts, " ")`
abbrev join : Bytes → List Bytes → Bytes
join word [] = word
join word (next ∷ words) = word ++ 32 ∷ join next words

abbrev pub set_description : Bytes → List Bytes → Setter
set_description word words p = record p { description = join word words }

abbrev pub set_examples : List Any → Setter
set_examples values p = record p { examples = values }

abbrev pub set_custom : Option (Any → Result Bytes Any) → Setter
set_custom fn p = record p { custom = fn }

abbrev pub set_sanitize : Option (Any → Any) → Setter
set_sanitize fn p = record p { sanitize = fn }

abbrev pub set_default : Any → Setter
set_default value p = record p { default_value = value; has_default = true }

abbrev pub set_graphql_scalar : Bytes → Setter
set_graphql_scalar name p = record p { graphql_scalar = name }

-- `Min` and `Max` of the string, numeric, duration and array branches; a duration is its nanoseconds.
abbrev pub set_min : ℤ → Setter
set_min n p = record p { min = some n }

abbrev pub set_max : ℤ → Setter
set_max n p = record p { max = some n }

abbrev pub set_pattern : Bytes → Setter
set_pattern expression p = record p { pattern = expression }

-- `StringSchema.Enum`
abbrev pub set_enum_strings : List Bytes → Setter
set_enum_strings items p = record p { enum_string = items; enum_string_set = true }

-- `NumericSchema.Enum` and `DurationSchema.Enum`
abbrev pub set_enum_ints : List ℤ → Setter
set_enum_ints items p = record p { enum_int = items; enum_int_set = true }

-- `ObjectSchema.Schema` and `ObjectSchema.AdditionalProperties`
abbrev pub set_schema : Option ℕ → Setter
set_schema schema p = record p { ref = schema }

abbrev pub set_additional_properties : Setter
set_additional_properties p = record p { additional_properties = true }

-- `ArraySchema.Object`
abbrev pub set_item_ref : Option ℕ → Setter
set_item_ref schema p = record p { item_ref = schema }

-- `EnumStringValues` and `EnumIntValues`: none when `Enum` was never called.
abbrev pub enum_values {ℓ} : {A : Type ℓ} → Bool → List A → Option (List A)
enum_values false items = none
enum_values true items = some items

abbrev pub enum_string_values : PropertyBuilder → Option (List Bytes)
enum_string_values p = enum_values p.enum_string_set p.enum_string

abbrev pub enum_int_values : PropertyBuilder → Option (List ℤ)
enum_int_values p = enum_values p.enum_int_set p.enum_int

-- `DefaultValue`
abbrev pub default_of : Bool → Any → Option Any
default_of false value = none
default_of true value = some value

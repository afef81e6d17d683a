-- ===== src/Validate/Tests.antt =====
-- Runs of the validation on the schema of a person: a name, tags and an age.
use gonest.Prelude.{
  ℕ, ◌<◌, true, false, Option, none, some, List, [], ◌∷◌, ◌≡◌, refl, ◌↔◌, ◌==◌, arith, err,
  if◌then◌else◌,
}
use gonest.Prelude.Bytes.{Bytes, text, bytes_eq}
use gonest.Prelude.Numbers.{pos, finite, nan, float_eq, float_lt, float_of_int, int_of_float}
use gonest.Schema.Value.{Any, nil, empty, item, Fields, end, field, depth, depth_fields, int64}
use gonest.Schema.Property.{
  PropertyBuilder, StructField, Kind, new_builder, set_required, set_min, set_max,
}
use gonest.Schema.Kinds.{as_string, as_integer, as_array, as_double}
use gonest.Schema.Store.{Store, GoType, update, no_field, own_properties, builders_of}
use gonest.Schema.Store.Items.{update-all}
use gonest.Validate.Violation.{Violation, Message, done, decimal, indexed}
use gonest.Validate.Primitive.{
  Library, validate_primitive, validate_string, validate_number, number_checks, is_integral,
}
use gonest.Validate.Primitive.Bounds.{validate_primitive-nan}
use gonest.Validate.Conforms.{Accepts}
use gonest.Validate.Walk.{
  validate_value, validate_array, validate_members, validate_items, tag_key_visible,
}
use gonest.Validate.Walk.Ends.{IsWalkable, validate_value_total}
use gonest.Validate.Walk.Paths.{below, validate_value-below}
use gonest.Validate.Populate.{
  Conversions, Slot, FieldType, string_type, integer_type, any_type, pointer_type, cannot_convert,
}
use gonest.Validate.Parse.{Setup}
use gonest.Validate.Parse.Settles.{Settles}
use gonest.Validate.Parse.Follows.{AllPlain, IsJudged, parse_struct-IsJudged}
use gonest.Validate.Source.{collect, collect_given, query_given, parse_source, coerce_param_string}
use gonest.Validate.Source.Admits.{AdmitsAll, collect-AdmitsAll}
use gonest.Validate.Source.Settles.{parse_source-Settles}

-- A pattern matches itself, one duration and two numbers can be read.
abbrev lib : Library
lib = record {
  compile = λ pattern. some (bytes_eq pattern);
  parse_duration = λ s. if bytes_eq s (text "5ns") then some (pos 5) else none;
  parse_float = λ s.
      if bytes_eq s (text "NaN")
      then some nan
      else if bytes_eq s (text "7")
      then some (finite (pos 7) 0)
      else none;
}

abbrev field_named : Bytes → ℕ → StructField
field_named name i = record {
  name = name;
  tags = (text "query", name) ∷ (text "json", name) ∷ [];
  index = i ∷ [];
}

abbrev name_builder : PropertyBuilder
name_builder =
    set_required
      (set_max (pos 5) (set_min (pos 1) (as_string (new_builder (field_named (text "name") 0)))))

abbrev tags_builder : PropertyBuilder
tags_builder = as_array 2 (new_builder (field_named (text "tags") 1))

abbrev age_builder : PropertyBuilder
age_builder = set_min (pos 0) (as_integer (new_builder (field_named (text "age") 2)))

abbrev builders : ℕ → PropertyBuilder
builders =
    update
      (update (update (update (λ _. new_builder no_field) 0 name_builder) 1 tags_builder) 2
        (as_string (new_builder no_field)))
      3 age_builder

abbrev person : GoType
person = record { identity = 4; fields = none }

abbrev store : Store
store = record {
  schemas = λ _. record {
    struct_type = person;
    title = [];
    properties = (0, 0) ∷ (8, 1) ∷ (16, 3) ∷ [];
    is_value = false;
    refines = [];
  };
  next_schema = 1;
  builders = builders;
  next_builder = 4;
  registry = (4, 0) ∷ [];
}

builders_ok : (i : ℕ) → IsWalkable (builders i)
builders_ok =
    update-all IsWalkable _ 3 age_builder
      (update-all IsWalkable _ 2 (as_string (new_builder no_field))
        (update-all IsWalkable _ 1 tags_builder
          (update-all IsWalkable (λ _. new_builder no_field) 0 name_builder (λ _. (tt, λ e. cc))
            (tt, λ e. cc))
          (tt, λ e. (2, refl)))
        (tt, λ e. cc))
      (tt, λ e. cc)

-- A null among the tags.
abbrev bad_tags : Any
bad_tags = Any.array (item (Any.string (text "x")) (item nil empty))

bad_tags-depth : depth bad_tags < 2
unfolding depth
bad_tags-depth = omega arith

bad_tags_run :
    validate_value lib store 2 tags_builder bad_tags (text "tags")
    ≡ done (record { at = text "tags[1]"; message = Message.cannot_be_null } ∷ [])
unfolding validate_value validate_array validate_members validate_items validate_primitive
    validate_string indexed decimal
bad_tags_run = refl

validate_value_total_example :
    (violations : List Violation) × (validate_value lib store 2 tags_builder bad_tags (text "tags")
      ≡ done violations)
    × ((violations ≡ []) ↔ Accepts lib store tags_builder bad_tags)
validate_value_total_example =
    validate_value_total lib store 2 tags_builder bad_tags (text "tags") builders_ok
      (tt, λ e. (2, refl)) bad_tags-depth

validate_value-below_example :
    validate_value lib store 2 tags_builder bad_tags (text "tags")
    ≡ below (text "tags") (validate_value lib store 2 tags_builder bad_tags [])
validate_value-below_example = validate_value-below lib store 2 tags_builder bad_tags (text "tags")

abbrev price_builder : PropertyBuilder
price_builder = set_max (pos 10) (as_double (new_builder no_field))

validate_primitive-nan_example :
    validate_primitive lib price_builder (Any.float64 nan) (text "price") Kind.number ≡ []
validate_primitive-nan_example = validate_primitive-nan lib price_builder (text "price") refl

abbrev conv : Conversions
conv = record {
  parse_duration = lib.parse_duration;
  narrow = λ f. f;
  through_json = λ t raw. err cannot_convert;
  implements = λ i raw. false;
}

-- The name is a string, the tags are of type `any`, the age is an integer.
abbrev slot_type : List ℕ → FieldType
slot_type [] = any_type
slot_type (i ∷ rest) =
    if i == 0 then string_type else if i == 2 then integer_type int64 else any_type

abbrev setup : Setup
setup = record {
  lib = lib;
  conv = conv;
  slots = λ index. record { can_set = true; field_type = slot_type index };
  fuel = 3;
}

abbrev body : Fields
body =
    field (text "name") (Any.string (text "ann"))
      (field (text "tags") bad_tags (field (text "age") (Any.float64 (finite (pos 7) 0)) end))

body-depth : depth_fields body < 3
unfolding depth
body-depth = omega arith

plain_ok : AllPlain lib store conv setup.slots (λ s. refl) (own_properties store 0)
unfolding own_properties builders_of
plain_ok = ((refl, refl, tt), ((refl, refl, tt), ((refl, refl, tt), tt)))

parse_struct-IsJudged_example : IsJudged setup store 0 body (λ s. refl) plain_ok
parse_struct-IsJudged_example =
    parse_struct-IsJudged setup store 0 body (λ s. refl) plain_ok builders_ok body-depth

abbrev queries : Bytes → Option Bytes
queries key = if bytes_eq key (text "age") then some (text "7") else none

parse_source-Settles_example :
    Settles (parse_source setup person store 0 (text "query") (query_given queries))
parse_source-Settles_example =
    parse_source-Settles setup person store 0 (text "query") (query_given queries) builders_ok
      (omega arith)

-- Without the required name, the query is refused.
query_run :
    collect lib
      (validate_value lib store 1)
      (own_properties store 0)
      (text "query")
      (query_given queries)
      ([], end)
    ≡ done (
      record { at = text "name"; message = Message.required } ∷ [],
      field (text "age") (Any.float64 (finite (pos 7) 0)) end,
    )
unfolding collect collect_given coerce_param_string validate_value validate_primitive
    validate_number number_checks is_integral float_eq float_of_int int_of_float float_lt
    own_properties builders_of tag_key_visible bytes_eq
query_run = refl

abbrev query_violations : List Violation
query_violations = record { at = text "name"; message = Message.required } ∷ []

collect-AdmitsAll_example :
    (query_violations ≡ [])
    ↔ AdmitsAll lib store (text "query") (query_given queries) (own_properties store 0)
collect-AdmitsAll_example =
    collect-AdmitsAll lib store (text "query") (query_given queries) 1 (own_properties store 0)
      query_run

abbrev form_builder : PropertyBuilder
form_builder = set_required (as_integer (new_builder no_field))

malformed_ok :
    coerce_param_string lib (text "x") form_builder.kind ≡ err (Message.not_a_number (text "x"))
unfolding coerce_param_string bytes_eq
malformed_ok = refl

abbrev nickname_slot : Slot
nickname_slot = record { can_set = true; field_type = pointer_type string_type }

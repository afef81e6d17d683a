-- ===== src/Schema/Tests.antt =====
-- A schema of a struct with two fields, declared call by call.
use gonest.Prelude.{ℕ, some, [], ◌∷◌, ◌≡◌, refl, Result, ok, err}
use gonest.Prelude.Bytes.{text}
use gonest.Schema.Property.{StructField, Kind, new_builder}
use gonest.Schema.Kinds.{as_string}
use gonest.Schema.Store.{
  Store, Panic, field_registered, GoType, struct_schema, no_field, new_schema, new_struct,
  register_schema, register_fresh, add_schema, add_builder, property, property_at, add_property,
  find_field_by_offset, set, array_of,
}
use gonest.Schema.Store.Items.{
  IsDeclared, a_schema, a_property, a_method, an_array, of_branch, start, step, Reaches-IsDeclared,
}

abbrev name_field : StructField
name_field = record { name = text "Name"; tags = (text "json", text "name") ∷ []; index = 0 ∷ [] }

abbrev user_type : GoType
user_type = record {
  identity = 7;
  fields = some (record { descriptor = name_field; field_type = 1; offsets = 0 ∷ [] } ∷ []);
}

abbrev blank : Store
blank = record {
  schemas = λ _. struct_schema user_type;
  next_schema = 0;
  builders = λ _. new_builder no_field;
  next_builder = 0;
  registry = [];
}

blank_ok : IsDeclared blank
blank_ok = (λ _. λ e. cc, λ _. tt)

abbrev state_of : Result Panic (Store × ℕ) → Store
state_of (ok (st, index)) = st
state_of _ = blank

abbrev with_schema : Store
with_schema = state_of (new_schema user_type blank)

abbrev with_name : Store
with_name = state_of (property 0 0 1 with_schema)

new_runs : new_schema user_type blank ≡ ok (with_schema, 0)
unfolding new_schema new_struct register_schema register_fresh add_schema
new_runs = refl

property_runs : property 0 0 1 with_schema ≡ ok (with_name, 0)
unfolding new_schema new_struct register_schema register_fresh add_schema property property_at
    add_property add_builder find_field_by_offset
property_runs = refl

-- A second `Property` on the same field panics.
property_again : property 0 0 1 with_name ≡ err field_registered
unfolding new_schema new_struct register_schema register_fresh add_schema property property_at
    add_property add_builder find_field_by_offset
property_again = refl

-- The name becomes a list of strings.
abbrev with_array : Store
with_array = (array_of 0 with_name).0

Reaches-IsDeclared_example : IsDeclared (set 1 as_string with_array)
Reaches-IsDeclared_example =
    Reaches-IsDeclared {st = blank} {after = set 1 as_string with_array}
      (step
        (step (step (step start (a_schema user_type new_runs)) (a_property 0 0 1 property_runs))
          (an_array 0))
        (a_method 1 (of_branch Kind.string [] (λ e. cc))))
      blank_ok

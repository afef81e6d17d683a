-- ===== src/Validate/Parse.antt =====
-- `parseDecoded`, `populateValue` and the bodies that reach them: internal/validate/validate.go and
-- graphql_args.go.
pub mod Settles
pub mod Follows
use gonest.Prelude.{
  ℕ, suc, Bool, true, false, Option, none, some, List, [], ◌∷◌, ◌++◌, Result, ok, err, ◌==◌,
  if◌then◌else◌,
}
use gonest.Prelude.Bytes.{Bytes, text}
use gonest.Prelude.Numbers.{float_of_int}
use gonest.Schema.Value.{
  Any, nil, Items, empty, item, Fields, end, field, IntType, int, int32, int64,
}
use gonest.Schema.Property.{PropertyBuilder, Destination}
use gonest.Schema.Store.{Store, Schema, GoType, Panic, own_properties, value_property}
use gonest.Validate.Violation.{Violation, Message, Outcome, done, nil_pointer, out_of_fuel}
use gonest.Validate.Primitive.{Library}
use gonest.Validate.Walk.{validate_value, validate_struct}
use gonest.Validate.Populate.{Conversions, Slot, populate, populate_field}

-- How a parse ends: the destination is written, a `BadRequestException` carries violations, or the
-- code panics. Fuel belongs to the model.
pub data Parsed : Type 0 where
  parsed : Destination → Parsed
  refused : List Violation → Parsed
  schema_mismatch nil_panic no_form_stream exhausted : Parsed

abbrev pub refused_with : Bytes → Message → Parsed
refused_with at message = refused (record { at = at; message = message } ∷ [])

-- What a parse runs with: the calls of the standard library, the fields of the type, and fuel.
pub record Setup : Type 0 where
  pub lib : Library
  pub conv : Conversions
  pub slots : List ℕ → Slot
  pub fuel : ℕ

unfoldable pub refine_violations :
    List (Destination → Option (Bytes × Bytes)) → Destination → List Violation
refine_violations [] dst = []
refine_violations (refine ∷ refines) dst = reported (refine dst) ++ refine_violations refines dst
  where
    reported : Option (Bytes × Bytes) → List Violation
    reported none = []
    reported (some (at, reason)) = record { at = at; message = Message.reported reason } ∷ []

-- Violations refuse the input; without any, the next step runs.
abbrev pub unless_refused : List Violation → Parsed → Parsed
unless_refused [] next = next
unless_refused (v ∷ violations) next = refused (v ∷ violations)

abbrev pub validated : Outcome (List Violation) → Parsed → Parsed
validated (done violations) next = unless_refused violations next
validated nil_pointer next = nil_panic
validated out_of_fuel next = exhausted

abbrev pub refined : List (Destination → Option (Bytes × Bytes)) → Destination → Parsed
refined refines dst = unless_refused (refine_violations refines dst) (parsed dst)

abbrev pub written_or : Result Bytes Destination → (Destination → Parsed) → Parsed
written_or (ok dst) next = next dst
written_or (err reason) next = refused_with [] (Message.reported reason)

-- The keys of what is not an object are absent.
abbrev pub presence_map : Any → Fields
presence_map (Any.object fields) = fields
presence_map _ = end

unfoldable pub populate_value : Setup → Store → PropertyBuilder → Any → Parsed
populate_value setup st p raw =
    validated (validate_value setup.lib st setup.fuel p raw [])
      (written_or (populate_field setup.conv setup.slots p raw) parsed)

unfoldable pub parse_struct : Setup → Store → ℕ → Fields → Parsed
unfolding refine_violations
parse_struct setup st schema fields =
    validated
      (validate_struct (validate_value setup.lib st setup.fuel) fields (own_properties st schema)
        [])
      (written_or (populate setup.conv setup.slots fields (own_properties st schema) (text "json"))
        (refined (st.schemas schema).refines))

-- The builder that `ValueProperty` points to, of a schema that `NewValue` made.
abbrev value_builder : Result Panic (Option ℕ) → Store → Option PropertyBuilder
value_builder (ok (some builder)) st = some (st.builders builder)
value_builder _ st = none

abbrev populate_found : Setup → Store → Option PropertyBuilder → Any → Parsed
populate_found setup st none raw = nil_panic
populate_found setup st (some p) raw = populate_value setup st p raw

unfoldable pub parse_decoded : Setup → Store → ℕ → Any → Parsed
parse_decoded setup st schema raw =
    if (st.schemas schema).is_value
    then populate_found setup st (value_builder (value_property st schema) st) raw
    else parse_struct setup st schema (presence_map raw)

-- `resolveSchema`: the schema is one of the type that is parsed.
abbrev pub resolve_schema : GoType → Store → ℕ → Parsed → Parsed
resolve_schema t st schema next =
    if (st.schemas schema).struct_type.identity == t.identity then next else schema_mismatch

parse_json_body : Result Bytes Any → Setup → Store → ℕ → Parsed
parse_json_body (err reason) setup st schema = refused_with [] (Message.reported reason)
parse_json_body (ok raw) setup st schema = parse_decoded setup st schema raw

-- `jsonBodySource.ParseInto`, on the result of `json.Unmarshal` of the body.
unfoldable pub parse_json : Setup → GoType → Store → ℕ → Result Bytes Any → Parsed
unfolding parse_json_body
parse_json setup t st schema unmarshalled =
    resolve_schema t st schema (parse_json_body unmarshalled setup st schema)

abbrev normalize_int : IntType → Any → Any → Any
normalize_int int converted raw = converted
normalize_int int32 converted raw = converted
normalize_int int64 converted raw = converted
normalize_int _ converted raw = raw

unfoldable mutual
  pub normalize_graphql_value : Any → Any
  normalize_graphql_value (Any.object fields) = Any.object (normalize_fields fields)
  normalize_graphql_value (Any.array items) = Any.array (normalize_items items)
  normalize_graphql_value (Any.integer t n) =
      normalize_int t (Any.float64 (float_of_int n)) (Any.integer t n)
  normalize_graphql_value (Any.float32 f) = Any.float64 f
  normalize_graphql_value raw = raw

  pub normalize_items : Items → Items
  normalize_items empty = empty
  normalize_items (item raw items) = item (normalize_graphql_value raw) (normalize_items items)

  pub normalize_fields : Fields → Fields
  normalize_fields end = end
  normalize_fields (field key raw fields) =
      field key (normalize_graphql_value raw) (normalize_fields fields)

-- `mapArgsSource.ParseInto`
unfoldable pub parse_graphql_args : Setup → GoType → Store → ℕ → Any → Parsed
parse_graphql_args setup t st schema args =
    resolve_schema t st schema (parse_decoded setup st schema (normalize_graphql_value args))

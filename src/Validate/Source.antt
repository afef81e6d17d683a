-- ===== src/Validate/Source.antt =====
-- The text sources: the environment, path parameters, the query and headers, of
-- internal/validate/{env,params,query,headers}.go.
pub mod Admits
pub mod Settles
use gonest.Prelude.{
  ℕ, Bool, true, false, not, ◌&&◌, ◌||◌, Option, none, some, List, [], ◌∷◌, ◌++◌, Result, ok, err,
  if◌then◌else◌,
}
use gonest.Prelude.Bytes.{Bytes, text, bytes_eq, has_key}
use gonest.Prelude.Numbers.{Float}
use gonest.Schema.Value.{Any, nil, Fields, end, field, presence}
use gonest.Schema.Property.{PropertyBuilder, Kind, Destination, default_of}
use gonest.Schema.Store.{Store, GoType, own_properties}
use gonest.Validate.Violation.{Violation, Message, Outcome, done, nil_pointer, out_of_fuel, ◌>>=◌}
use gonest.Validate.Primitive.{Library}
use gonest.Validate.Walk.{Checker, tag_key_visible, validate_value, required_unless_optional}
use gonest.Validate.Populate.{populate}
use gonest.Validate.Parse.{
  Parsed, parsed, refused, no_form_stream, refused_with, Setup, unless_refused, written_or,
  resolve_schema,
}

-- `strconv.ParseBool`
abbrev true_texts : List Bytes
true_texts = text "1" ∷ text "t" ∷ text "T" ∷ text "TRUE" ∷ text "true" ∷ text "True" ∷ []

abbrev false_texts : List Bytes
false_texts = text "0" ∷ text "f" ∷ text "F" ∷ text "FALSE" ∷ text "false" ∷ text "False" ∷ []

unfoldable pub parse_bool : Bytes → Option Bool
parse_bool raw =
    if has_key true_texts raw
    then some true
    else if has_key false_texts raw
    then some false
    else none

abbrev pub number_or : Option Float → Bytes → Result Message Any
number_or none raw = err (Message.not_a_number raw)
number_or (some f) raw = ok (Any.float64 f)

abbrev pub boolean_or : Option Bool → Bytes → Result Message Any
boolean_or none raw = err (Message.not_a_boolean raw)
boolean_or (some b) raw = ok (Any.boolean b)

unfoldable pub coerce_param_string : Library → Bytes → Kind → Result Message Any
coerce_param_string lib raw Kind.integer = number_or (lib.parse_float raw) raw
coerce_param_string lib raw Kind.number = number_or (lib.parse_float raw) raw
coerce_param_string lib raw Kind.boolean = boolean_or (parse_bool raw) raw
coerce_param_string lib raw _ = ok (Any.string raw)

-- What a source has for a key: nothing, a text, or the default of the property.
pub data Given : Type 0 where
  missing : Given
  supplied : Bytes → Given
  defaulted : Any → Given

-- The violations and the value that one property adds.
abbrev pub FieldOutcome : Type 0
FieldOutcome = Outcome (List Violation × Option Any)

abbrev pub recorded : Any → Outcome (List Violation) → FieldOutcome
recorded raw outcome = outcome >>= λ violations. done (violations, some raw)

abbrev check_coerced : Checker → PropertyBuilder → Bytes → Result Message Any → FieldOutcome
check_coerced check p key (err message) = done (record { at = key; message = message } ∷ [], none)
check_coerced check p key (ok value) = recorded value (check p value key)

-- A custom function takes the text as it is.
abbrev pub check_text :
    {A : Type 0} → Option A → Library → Checker → PropertyBuilder → Bytes → Bytes → FieldOutcome
check_text (some fn) lib check p key raw = recorded (Any.string raw) (check p (Any.string raw) key)
check_text none lib check p key raw = check_coerced check p key (coerce_param_string lib raw p.kind)

unfoldable pub collect_given : Library → Checker → PropertyBuilder → Bytes → Given → FieldOutcome
collect_given lib check p key missing = done (required_unless_optional p.required key, none)
collect_given lib check p key (supplied raw) = check_text p.custom lib check p key raw
collect_given lib check p key (defaulted value) = done ([], some value)

abbrev pub with_entry : Bytes → Option Any → Fields → Fields
with_entry key none fields = fields
with_entry key (some value) fields = field key value fields

-- The loop over the properties: `violations` and `presence`. The value that is written last to a key
-- stands first.
abbrev pub collect_key :
    Library
    → Checker
    → PropertyBuilder
    → Option Bytes
    → (PropertyBuilder → Bytes → Given)
    → List Violation × Fields
    → Outcome (List Violation × Fields)
collect_key lib check p none given (violations, fields) = done (violations, fields)
collect_key lib check p (some key) given (violations, fields) =
    collect_given lib check p key (given p key) >>= λ (more, value).
    done (violations ++ more, with_entry key value fields)

unfoldable pub collect :
    Library
    → Checker
    → List PropertyBuilder
    → Bytes
    → (PropertyBuilder → Bytes → Given)
    → List Violation × Fields
    → Outcome (List Violation × Fields)
collect lib check [] tag given state = done state
collect lib check (p ∷ properties) tag given state =
    collect_key lib check p (tag_key_visible p.field tag) given state >>= λ next.
    collect lib check properties tag given next

-- The end of each source: violations, or the destination is written.
abbrev pub populate_collected :
    Setup → List PropertyBuilder → Bytes → Outcome (List Violation × Fields) → Parsed
populate_collected setup properties tag nil_pointer = Parsed.nil_panic
populate_collected setup properties tag out_of_fuel = Parsed.exhausted
populate_collected setup properties tag (done (violations, fields)) =
    unless_refused violations
      (written_or (populate setup.conv setup.slots fields properties tag) parsed)

unfoldable pub parse_source :
    Setup → GoType → Store → ℕ → Bytes → (PropertyBuilder → Bytes → Given) → Parsed
parse_source setup t st schema tag given = resolve_schema t st schema (
    populate_collected setup (own_properties st schema) tag (
      collect setup.lib (validate_value setup.lib st setup.fuel) (own_properties st schema) tag
        given ([], end)))

abbrev supplied_or : Option Bytes → Given → Given
supplied_or none otherwise = otherwise
supplied_or (some raw) otherwise = supplied raw

abbrev default_or_missing : Option Any → Given
default_or_missing none = missing
default_or_missing (some value) = defaulted value

-- `ParseEnvInto`, with `os.LookupEnv`: a variable that is set, even to nothing, comes before the default.
abbrev pub env_given : (Bytes → Option Bytes) → PropertyBuilder → Bytes → Given
env_given lookup_env p key =
    supplied_or (lookup_env key) (default_or_missing (default_of p.has_default p.default_value))

unfoldable pub parse_env_into : Setup → GoType → Store → ℕ → (Bytes → Option Bytes) → Parsed
parse_env_into setup t st schema lookup_env =
    parse_source setup t st schema (text "env") (env_given lookup_env)

-- `paramsSource.ParseInto`: the route's own parameters, if the request has a route.
abbrev pub param_given : Option (List Bytes) → (Bytes → Bytes) → PropertyBuilder → Bytes → Given
param_given none param p key = missing
param_given (some names) param p key = if has_key names key then supplied (param key) else missing

unfoldable pub parse_params :
    Setup → GoType → Store → ℕ → Option (List Bytes) → (Bytes → Bytes) → Parsed
parse_params setup t st schema names param =
    parse_source setup t st schema (text "param") (param_given names param)

-- `querySource.ParseInto`
abbrev pub query_given : (Bytes → Option Bytes) → PropertyBuilder → Bytes → Given
query_given queries p key = supplied_or (queries key) missing

unfoldable pub parse_query : Setup → GoType → Store → ℕ → (Bytes → Option Bytes) → Parsed
parse_query setup t st schema queries =
    parse_source setup t st schema (text "query") (query_given queries)

-- `headersSource.ParseInto`: an empty header counts as absent.
abbrev filled_or_missing : Bytes → Given
filled_or_missing [] = missing
filled_or_missing (c ∷ raw) = supplied (c ∷ raw)

abbrev pub header_given : (Bytes → Bytes) → PropertyBuilder → Bytes → Given
header_given header p key = filled_or_missing (header key)

unfoldable pub parse_headers : Setup → GoType → Store → ℕ → (Bytes → Bytes) → Parsed
parse_headers setup t st schema header =
    parse_source setup t st schema (text "header") (header_given header)

-- ===== src/Validate/Source/Settles.antt =====
-- The text sources settle on any fuel at all: a text is a flat value.
use gonest.Prelude.{
  ℕ, ◌<◌, Bool, true, false, Option, none, some, List, [], ◌∷◌, ◌≡◌, refl, Result, ok, err, arith,
  if◌then◌else◌,
}
use gonest.Prelude.Bytes.{Bytes}
use gonest.Prelude.Numbers.{Float}
use gonest.Schema.Value.{Any, Fields, end, depth}
use gonest.Schema.Property.{PropertyBuilder, Kind}
use gonest.Schema.Store.{Store, GoType, own_properties}
use gonest.Validate.Violation.{Violation, Message, Outcome, done, nil_pointer, out_of_fuel, ◌>>=◌}
use gonest.Validate.Primitive.{Library}
use gonest.Validate.Walk.{Checker, tag_key_visible, validate_value}
use gonest.Validate.Walk.Ends.{Ends, IsWalkable, AllWalkable, own-AllWalkable, value-Ends}
use gonest.Validate.Populate.{populate}
use gonest.Validate.Parse.{Parsed, parsed, Setup, schema_mismatch}
use gonest.Validate.Parse.Settles.{Settles, unless_refused-Settles, written_or-Settles}
use gonest.Validate.Source.{
  Given, missing, supplied, defaulted, recorded, check_coerced, check_text, collect_given,
  collect_key, collect, coerce_param_string, populate_collected, parse_source, number_or,
  boolean_or, parse_bool,
}

abbrev IsDone {ℓ} : {A : Type ℓ} → Outcome A → Type 0
IsDone (done a) = Unit
IsDone nil_pointer = ⊥
IsDone out_of_fuel = ⊥

IsDone-bind {ℓ κ} :
    {A : Type ℓ} {B : Type κ} (first : Outcome A) (next : A → Outcome B)
    → IsDone first
    → ((a : A) → IsDone (next a))
    → IsDone (first >>= next)
IsDone-bind (done a) next first rest = rest a
IsDone-bind nil_pointer next first rest = first
IsDone-bind out_of_fuel next first rest = first

-- A message, or a value of depth 0.
abbrev IsFlat : Result Message Any → Type 0
IsFlat (ok raw) = depth raw ≡ 0
IsFlat (err message) = Unit

number_or-IsFlat : (f : Option Float) (raw : Bytes) → IsFlat (number_or f raw)
unfolding depth
number_or-IsFlat none raw = tt
number_or-IsFlat (some f) raw = refl

boolean_or-IsFlat : (b : Option Bool) (raw : Bytes) → IsFlat (boolean_or b raw)
unfolding depth
boolean_or-IsFlat none raw = tt
boolean_or-IsFlat (some b) raw = refl

coerce-IsFlat :
    (lib : Library) (raw : Bytes) (kind : Kind) → IsFlat (coerce_param_string lib raw kind)
unfolding coerce_param_string depth
coerce-IsFlat lib raw Kind.integer = number_or-IsFlat (lib.parse_float raw) raw
coerce-IsFlat lib raw Kind.number = number_or-IsFlat (lib.parse_float raw) raw
coerce-IsFlat lib raw Kind.boolean = boolean_or-IsFlat (parse_bool raw) raw
coerce-IsFlat lib raw _ = refl

recorded-IsDone :
    (raw : Any) (outcome : Outcome (List Violation)) → Ends outcome → IsDone (recorded raw outcome)
recorded-IsDone raw (done violations) ends = tt
recorded-IsDone raw nil_pointer ends = ends
recorded-IsDone raw out_of_fuel ends = ends

module _ (lib : Library) (st : Store) (walkable : (i : ℕ) → IsWalkable (st.builders i)) (fuel : ℕ)
    (fuelled : 0 < fuel) where
  abbrev check : Checker
  check = validate_value lib st fuel

  coerced-IsDone :
      (p : PropertyBuilder) (key : Bytes) (result : Result Message Any)
      → IsWalkable p
      → IsFlat result
      → IsDone (check_coerced check p key result)
  coerced-IsDone p key (err message) good flat = tt
  coerced-IsDone p key (ok raw) good flat =
      recorded-IsDone raw (check p raw key)
        (value-Ends lib st walkable fuel p raw key good (omega arith))

  text-IsDone :
      {A : Type 0} (custom : Option A) (p : PropertyBuilder) (key raw : Bytes)
      → IsWalkable p
      → IsDone (check_text custom lib check p key raw)
  unfolding depth
  text-IsDone (some fn) p key raw good =
      recorded-IsDone (Any.string raw) (check p (Any.string raw) key)
        (value-Ends lib st walkable fuel p (Any.string raw) key good (omega arith))
  text-IsDone none p key raw good =
      coerced-IsDone p key (coerce_param_string lib raw p.kind) good (coerce-IsFlat lib raw p.kind)

  given-IsDone :
      (p : PropertyBuilder) (key : Bytes) (source : Given)
      → IsWalkable p
      → IsDone (collect_given lib check p key source)
  unfolding collect_given
  given-IsDone p key missing good = tt
  given-IsDone p key (supplied raw) good = text-IsDone p.custom p key raw good
  given-IsDone p key (defaulted value) good = tt

  key-IsDone :
      (p : PropertyBuilder) (key : Option Bytes) (given : PropertyBuilder → Bytes → Given)
      (state : List Violation × Fields)
      → IsWalkable p
      → IsDone (collect_key lib check p key given state)
  key-IsDone p none given state good = tt
  key-IsDone p (some key) given (before, fields) good =
      IsDone-bind (collect_given lib check p key (given p key)) _
        (given-IsDone p key (given p key) good) (λ _. tt)

  collect-IsDone :
      (properties : List PropertyBuilder) (tag : Bytes) (given : PropertyBuilder → Bytes → Given)
      (state : List Violation × Fields)
      → AllWalkable properties
      → IsDone (collect lib check properties tag given state)
  unfolding collect
  collect-IsDone [] tag given state good = tt
  collect-IsDone (p ∷ properties) tag given state good =
      IsDone-bind (collect_key lib check p (tag_key_visible p.field tag) given state) _
        (key-IsDone p (tag_key_visible p.field tag) given state good.0)
        (λ next. collect-IsDone properties tag given next good.1)

collected-Settles :
    (setup : Setup) (properties : List PropertyBuilder) (tag : Bytes)
    (outcome : Outcome (List Violation × Fields))
    → IsDone outcome
    → Settles (populate_collected setup properties tag outcome)
collected-Settles setup properties tag nil_pointer ends = ends
collected-Settles setup properties tag out_of_fuel ends = ends
collected-Settles setup properties tag (done (violations, fields)) ends =
    unless_refused-Settles violations _
      (written_or-Settles (populate setup.conv setup.slots fields properties tag) parsed (λ _. tt))

resolve-Settles :
    (same : Bool) (next : Parsed) → Settles next → Settles (if same then next else schema_mismatch)
resolve-Settles true next settles = settles
resolve-Settles false next settles = tt

-- A parse of the environment, the path parameters, the query or the headers settles on any fuel but
-- none, when no sanitizer makes a value deeper and each array builder has an item builder.
pub parse_source-Settles :
    (setup : Setup) (t : GoType) (st : Store) (schema : ℕ) (tag : Bytes)
    (given : PropertyBuilder → Bytes → Given)
    → ((i : ℕ) → IsWalkable (st.builders i))
    → 0 < setup.fuel
    → Settles (parse_source setup t st schema tag given)
unfolding parse_source
parse_source-Settles setup t st schema tag given walkable fuelled =
    let properties = own_properties st schema in
    let check = validate_value setup.lib st setup.fuel in
    let outcome = collect setup.lib check properties tag given ([], end) in
    resolve-Settles _ (populate_collected setup properties tag outcome) (
      collected-Settles setup properties tag outcome (
        collect-IsDone setup.lib st walkable setup.fuel fuelled properties tag given ([], end)
          (own-AllWalkable setup.lib st walkable schema)))

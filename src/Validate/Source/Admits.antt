-- ===== src/Validate/Source/Admits.antt =====
-- A text source leaves no violation exactly when each visible property admits what the source has for
-- it, and its loop ends.
use gonest.Prelude.{
  ℕ, Bool, true, false, Option, none, some, List, [], ◌∷◌, ◌++◌, ◌≡◌, refl, ◌↔◌, Result, ok, err,
}
use gonest.Prelude.Bytes.{Bytes}
use gonest.Schema.Value.{Any, Fields, end}
use gonest.Schema.Property.{PropertyBuilder}
use gonest.Schema.Store.{Store}
use gonest.Validate.Violation.{Violation, Message, Outcome, done, nil_pointer, out_of_fuel, ◌>>=◌}
use gonest.Validate.Primitive.{Library}
use gonest.Validate.Primitive.Decides.{append-empty_iff}
use gonest.Validate.Conforms.{Accepts}
use gonest.Validate.Walk.{Checker, tag_key_visible, validate_value, required_unless_optional}
use gonest.Validate.Walk.Decides.{validate_value-Accepts}
use gonest.Validate.Source.{
  Given, missing, supplied, defaulted, FieldOutcome, recorded, check_coerced, check_text,
  collect_given, collect_key, collect, coerce_param_string, with_entry,
}

module _ (lib : Library) (st : Store) (tag : Bytes) (given : PropertyBuilder → Bytes → Given) where
  -- A text goes to a custom function as it is, and else has to be one of the property's kind first.
  abbrev AdmitsText : {A : Type 0} → Option A → PropertyBuilder → Bytes → Type 0
  AdmitsText (some fn) p raw = Accepts lib st p (Any.string raw)
  AdmitsText none p raw =
      (value : Any) × (coerce_param_string lib raw p.kind ≡ ok value) × Accepts lib st p value

  -- A default is not checked.
  abbrev pub Admits : PropertyBuilder → Given → Type 0
  Admits p missing = p.required ≡ false
  Admits p (supplied raw) = AdmitsText p.custom p raw
  Admits p (defaulted value) = Unit

  abbrev AdmitsKey : PropertyBuilder → Option Bytes → Type 0
  AdmitsKey p none = Unit
  AdmitsKey p (some key) = Admits p (given p key)

  abbrev pub AdmitsAll : List PropertyBuilder → Type 0
  AdmitsAll [] = Unit
  AdmitsAll (p ∷ properties) = AdmitsKey p (tag_key_visible p.field tag) × AdmitsAll properties

  -- What a step adds to the violations before it is empty exactly when `G` holds.
  abbrev Adds : {A : Type 0} → Type 0 → List Violation → Outcome (List Violation × A) → Type 0
  Adds G before (done (violations, rest)) = (violations ≡ []) ↔ ((before ≡ []) × G)
  Adds G before nil_pointer = Unit
  Adds G before out_of_fuel = Unit

  abbrev DecidesFirst : Type 0 → FieldOutcome → Type 0
  DecidesFirst G (done (violations, value)) = (violations ≡ []) ↔ G
  DecidesFirst G nil_pointer = Unit
  DecidesFirst G out_of_fuel = Unit

  module _ (fuel : ℕ) where
    abbrev check : Checker
    check = validate_value lib st fuel

    recorded-Decides :
        (p : PropertyBuilder) (raw value : Any) (outcome : Outcome (List Violation))
        → (path : Bytes) → validate_value lib st fuel p raw path ≡ outcome
        → DecidesFirst (Accepts lib st p raw) (recorded value outcome)
    recorded-Decides p raw value (done violations) path e =
        validate_value-Accepts lib st fuel p raw path e
    recorded-Decides p raw value nil_pointer path e = tt
    recorded-Decides p raw value out_of_fuel path e = tt

    DecidesFirst-iff :
        {G H : Type 0} (outcome : FieldOutcome)
        → G ↔ H
        → DecidesFirst G outcome
        → DecidesFirst H outcome
    DecidesFirst-iff (done (violations, value)) same right =
        (λ e. same.0 (right.0 e), λ h. right.1 (same.1 h))
    DecidesFirst-iff nil_pointer same right = tt
    DecidesFirst-iff out_of_fuel same right = tt

    coerced-Decides :
        (p : PropertyBuilder) (key : Bytes) (result : Result Message Any)
        → DecidesFirst
            ((value : Any) × (result ≡ ok value) × Accepts lib st p value)
            (check_coerced check p key result)
    coerced-Decides p key (err message) = (λ e. cc, λ (value, e, accepted). cc)
    coerced-Decides p key (ok raw) =
        DecidesFirst-iff (recorded raw (validate_value lib st fuel p raw key))
          (
            λ accepted. (raw, refl, accepted),
            λ (value, e, accepted). let same : raw ≡ value = cc in rw same accepted,
          )
          (recorded-Decides p raw raw (validate_value lib st fuel p raw key) key refl)

    text-Decides :
        {A : Type 0} (custom : Option A) (p : PropertyBuilder) (key raw : Bytes)
        → DecidesFirst (AdmitsText custom p raw) (check_text custom lib check p key raw)
    text-Decides (some fn) p key raw =
        recorded-Decides p (Any.string raw) (Any.string raw)
          (validate_value lib st fuel p (Any.string raw) key) key refl
    text-Decides none p key raw = coerced-Decides p key (coerce_param_string lib raw p.kind)

    required-Decides :
        (required : Bool) (key : Bytes)
        → (required_unless_optional required key ≡ []) ↔ (required ≡ false)
    required-Decides true key = (λ e. cc, λ e. cc)
    required-Decides false key = (λ _. refl, λ _. refl)

    given-Decides :
        (p : PropertyBuilder) (key : Bytes) (source : Given)
        → DecidesFirst (Admits p source) (collect_given lib check p key source)
    unfolding collect_given
    given-Decides p key missing = required-Decides p.required key
    given-Decides p key (supplied raw) = text-Decides p.custom p key raw
    given-Decides p key (defaulted value) = (λ _. tt, λ _. refl)

    first-Adds :
        (G : Type 0) (key : Bytes) (before : List Violation) (fields : Fields)
        (outcome : FieldOutcome)
        → DecidesFirst G outcome
        → Adds G before
            (outcome >>= λ (more, value). done (before ++ more, with_entry key value fields))
    first-Adds G key before fields (done (more, value)) right =
        append-empty_iff before more (λ e. e, λ e. e) right
    first-Adds G key before fields nil_pointer right = tt
    first-Adds G key before fields out_of_fuel right = tt

    key-Adds :
        (p : PropertyBuilder) (key : Option Bytes) (before : List Violation) (fields : Fields)
        → Adds (AdmitsKey p key) before (collect_key lib check p key given (before, fields))
    key-Adds p none before fields = (λ e. (e, tt), λ both. both.0)
    key-Adds p (some key) before fields =
        first-Adds (Admits p (given p key)) key before fields
          (collect_given lib check p key (given p key)) (given-Decides p key (given p key))

    chain-Adds :
        (G H : Type 0) (before : List Violation) (first : Outcome (List Violation × Fields))
        (rest : List Violation × Fields → Outcome (List Violation × Fields))
        → Adds G before first
        → ((state : List Violation × Fields) → Adds H state.0 (rest state))
        → Adds (G × H) before (first >>= rest)
    chain-Adds G H before (done state) rest first after = joined (rest state) (after state)
      where
        joined :
            (outcome : Outcome (List Violation × Fields))
            → Adds H state.0 outcome
            → Adds (G × H) before outcome
        joined (done (violations, fields)) right = (
          λ e. let both = right.0 e in let start = first.0 both.0 in (start.0, (start.1, both.1)),
          λ (start, (g, h)). right.1 (first.1 (start, g), h),
        )
        joined nil_pointer right = tt
        joined out_of_fuel right = tt
    chain-Adds G H before nil_pointer rest first after = tt
    chain-Adds G H before out_of_fuel rest first after = tt

    collect-Adds :
        (properties : List PropertyBuilder) (before : List Violation) (fields : Fields)
        → Adds
            (AdmitsAll properties)
            before
            (collect lib check properties tag given (before, fields))
    unfolding collect
    collect-Adds [] before fields = (λ e. (e, tt), λ both. both.0)
    collect-Adds (p ∷ properties) before fields =
        chain-Adds _ _ before
          (collect_key lib check p (tag_key_visible p.field tag) given (before, fields)) _
          (key-Adds p (tag_key_visible p.field tag) before fields)
          (λ (violations, rest). collect-Adds properties violations rest)

-- The loop of a text source over the properties of a schema, when it ends, leaves no violation exactly
-- when each visible property admits what the source has for its key: nothing, if it is optional; a text,
-- if its custom function takes it or it reads as a value of the kind that the property accepts; a
-- default, whatever it is.
pub collect-AdmitsAll :
    (lib : Library) (st : Store) (tag : Bytes) (given : PropertyBuilder → Bytes → Given) (fuel : ℕ)
    (properties : List PropertyBuilder) {violations : List Violation} {fields : Fields}
    → collect lib (validate_value lib st fuel) properties tag given ([], end)
      ≡ done (violations, fields)
    → (violations ≡ []) ↔ AdmitsAll lib st tag given properties
collect-AdmitsAll lib st tag given fuel properties ends =
    let both = rw ends at (collect-Adds lib st tag given fuel properties [] end) in
    (λ e. (both.0 e).1, λ all. both.1 (refl, all))

-- ===== src/Validate/Parse/Follows.antt =====
-- A body that follows the schema of a struct can be written to it: the error of `populate` that the code
-- calls unreachable is so, where the fields have types that hold the kinds of their properties.
use gonest.Prelude.{
  ℕ, ◌<◌, Bool, true, false, Option, none, some, List, [], ◌∷◌, ◌++◌, ◌≡◌, ◌≢◌, refl, ap, ◌∙◌, ◌⊎◌,
  inl, inr, ◌↔◌, Result, ok, err, ◌>>=◌, if◌then◌else◌,
}
use gonest.Prelude.Bytes.{Bytes, text}
use gonest.Prelude.Numbers.{ℤ}
use gonest.Schema.Value.{Any, nil, Fields, depth_fields}
use gonest.Schema.Property.{PropertyBuilder, Kind, Destination}
use gonest.Schema.Store.{Store, own_properties}
use gonest.Validate.Primitive.{Library}
use gonest.Validate.Conforms.{
  IsDuration, IsPrimitive, Accepts, Conforms, Follows, no_properties, untagged, absent, present,
}
use gonest.Validate.Conforms.Cases.{IsOfKind, IsOfKind-iff, IsAccepted, IsAccepted-iff}
use gonest.Validate.Violation.{Violation, done}
use gonest.Validate.Walk.{sanitized, validate_value, validate_struct}
use gonest.Validate.Walk.Decides.{Decides, struct-Decides, value-Decides}
use gonest.Validate.Walk.Ends.{IsWalkable, Ends-done, struct-Ends, value-Ends, own-AllWalkable}
use gonest.Validate.Parse.{refused, Setup, refined, parse_struct}
use gonest.Validate.Populate.{
  FieldType, pointer_type, integer_type, any_type, any_slice, any_map, slice_type, map_type,
  interface_type, float32_type, float64_type, string_type, bool_type, duration_type, Conversions,
  Written, assign_or, duration_from, to_float64, set_duration, convert_into, is_assignable,
  set_filled, set_type, set_field, Slot, written, transformed, populate_field, populate, pointed,
}

-- The field types that hold what a property of a kind accepts.
abbrev pub Holds : FieldType → Kind → Type 0
Holds (pointer_type t) kind = Holds t kind
Holds any_type kind = Unit
Holds string_type Kind.string = Unit
Holds bool_type Kind.boolean = Unit
Holds duration_type Kind.duration = Unit
Holds (integer_type t) Kind.integer = Unit
Holds (integer_type t) Kind.number = Unit
Holds float64_type Kind.integer = Unit
Holds float64_type Kind.number = Unit
Holds float32_type Kind.integer = Unit
Holds float32_type Kind.number = Unit
Holds _ kind = ⊥

abbrev Takes : Conversions → FieldType → Any → Type 0
Takes conv (pointer_type t) raw = Takes conv t raw
Takes conv any_type raw = Unit
Takes conv string_type (Any.string s) = Unit
Takes conv bool_type (Any.boolean b) = Unit
Takes conv duration_type (Any.string s) = (d : ℤ) × (conv.parse_duration s ≡ some d)
Takes conv (integer_type t) (Any.float64 f) = Unit
Takes conv float64_type (Any.float64 f) = Unit
Takes conv float32_type (Any.float64 f) = Unit
Takes conv _ raw = ⊥

abbrev IsStored : Written → Type 0
IsStored result = (value : Option Any) × (result ≡ ok value)

module _ (lib : Library) (conv : Conversions)
    (same : (s : Bytes) → conv.parse_duration s ≡ lib.parse_duration s) where
  duration-parses :
      (p : PropertyBuilder) (s : Bytes) (d : Option ℤ)
      → lib.parse_duration s ≡ d
      → IsDuration p d
      → (n : ℤ) × (conv.parse_duration s ≡ some n)
  duration-parses p s none e fits = absurd fits
  duration-parses p s (some d) e fits = (d, same s ∙ e)

  Holds-Takes :
      (t : FieldType) (kind : Kind) (p : PropertyBuilder) (raw : Any)
      → Holds t kind
      → IsPrimitive lib p kind raw
      → Takes conv t raw
  Holds-Takes (pointer_type t) kind p raw holds fits = Holds-Takes t kind p raw holds fits
  Holds-Takes any_type kind p raw holds fits = tt
  Holds-Takes string_type Kind.string p (Any.string s) holds fits = tt
  Holds-Takes string_type Kind.string p _ holds fits = absurd fits
  Holds-Takes bool_type Kind.boolean p (Any.boolean b) holds fits = tt
  Holds-Takes bool_type Kind.boolean p _ holds fits = absurd fits
  Holds-Takes duration_type Kind.duration p (Any.string s) holds fits =
      duration-parses p s (lib.parse_duration s) refl fits
  Holds-Takes duration_type Kind.duration p _ holds fits = absurd fits
  Holds-Takes (integer_type t) Kind.integer p (Any.float64 f) holds fits = tt
  Holds-Takes (integer_type t) Kind.integer p _ holds fits = absurd fits
  Holds-Takes (integer_type t) Kind.number p (Any.float64 f) holds fits = tt
  Holds-Takes (integer_type t) Kind.number p _ holds fits = absurd fits
  Holds-Takes float64_type Kind.integer p (Any.float64 f) holds fits = tt
  Holds-Takes float64_type Kind.integer p _ holds fits = absurd fits
  Holds-Takes float64_type Kind.number p (Any.float64 f) holds fits = tt
  Holds-Takes float64_type Kind.number p _ holds fits = absurd fits
  Holds-Takes float32_type Kind.integer p (Any.float64 f) holds fits = tt
  Holds-Takes float32_type Kind.integer p _ holds fits = absurd fits
  Holds-Takes float32_type Kind.number p (Any.float64 f) holds fits = tt
  Holds-Takes float32_type Kind.number p _ holds fits = absurd fits
  Holds-Takes _ kind p raw holds fits = absurd holds

pointed-IsStored : (result : Written) → IsStored result → IsStored (pointed result)
pointed-IsStored (ok (some value)) is_set = (_, refl)
pointed-IsStored (ok none) is_set = (_, refl)
pointed-IsStored (err reason) is_set = let (value, e) = is_set in cc

Takes-IsStored :
    (conv : Conversions) (t : FieldType) (raw : Any)
    → Takes conv t raw
    → IsStored (set_filled conv t raw)
unfolding set_filled is_assignable assign_or convert_into duration_from to_float64
Takes-IsStored conv (pointer_type t) raw takes =
    pointed-IsStored _ (Takes-IsStored conv t raw takes)
Takes-IsStored conv any_type raw takes = (_, refl)
Takes-IsStored conv string_type (Any.string s) takes = (_, refl)
Takes-IsStored conv string_type _ takes = absurd takes
Takes-IsStored conv bool_type (Any.boolean b) takes = (_, refl)
Takes-IsStored conv bool_type _ takes = absurd takes
Takes-IsStored conv duration_type (Any.string s) takes = (_, ap set_duration takes.1)
Takes-IsStored conv duration_type _ takes = absurd takes
Takes-IsStored conv (integer_type t) (Any.float64 f) takes = (_, refl)
Takes-IsStored conv (integer_type t) _ takes = absurd takes
Takes-IsStored conv float64_type (Any.float64 f) takes = (_, refl)
Takes-IsStored conv float64_type _ takes = absurd takes
Takes-IsStored conv float32_type (Any.float64 f) takes = (_, refl)
Takes-IsStored conv float32_type _ takes = absurd takes
Takes-IsStored conv _ raw takes = absurd takes

IsOfKind-IsPrimitive :
    (lib : Library) (st : Store) (kind : Kind) (p : PropertyBuilder) (raw : Any)
    → IsOfKind lib st kind p raw
    → IsPrimitive lib p kind raw
IsOfKind-IsPrimitive lib st Kind.array p raw fits = tt
IsOfKind-IsPrimitive lib st Kind.object p raw fits = tt
IsOfKind-IsPrimitive lib st _ p raw fits = fits

nil-IsStored : (conv : Conversions) (t : FieldType) → IsStored (set_type conv t nil)
unfolding set_type
nil-IsStored conv (pointer_type t) = (_, refl)
nil-IsStored conv any_type = (_, refl)
nil-IsStored conv any_slice = (_, refl)
nil-IsStored conv any_map = (_, refl)
nil-IsStored conv (slice_type t) = (_, refl)
nil-IsStored conv (map_type t) = (_, refl)
nil-IsStored conv (interface_type t) = (_, refl)
nil-IsStored conv _ = (_, refl)

module _ (lib : Library) (st : Store) (conv : Conversions) (slots : List ℕ → Slot)
    (same : (s : Bytes) → conv.parse_duration s ≡ lib.parse_duration s) where
  -- A property without a custom function, of a settable field whose type holds its kind.
  abbrev pub IsPlain : PropertyBuilder → Type 0
  IsPlain p =
      (p.custom ≡ none)
      × ((slots p.field.index).can_set ≡ true)
      × Holds (slots p.field.index).field_type p.kind

  abbrev pub AllPlain : List PropertyBuilder → Type 0
  AllPlain [] = Unit
  AllPlain (p ∷ properties) = IsPlain p × AllPlain properties

  filled-IsStored :
      (t : FieldType) (p : PropertyBuilder) (raw : Any)
      → raw ≢ nil
      → Holds t p.kind
      → Conforms lib st p raw
      → IsStored (set_filled conv t raw)
  filled-IsStored t p raw filled holds conforms = Takes-IsStored conv t raw (
      Holds-Takes lib conv same t p.kind p raw holds
        (IsOfKind-IsPrimitive lib st p.kind p raw ((IsOfKind-iff lib st filled).1 conforms)))

  type-IsStored :
      (t : FieldType) (p : PropertyBuilder) (raw : Any)
      → Holds t p.kind
      → Conforms lib st p raw
      → IsStored (set_type conv t raw)
  unfolding set_type
  type-IsStored t p nil holds conforms = nil-IsStored conv t
  type-IsStored t p _ holds conforms = filled-IsStored t p _ (λ e. cc) holds conforms

  settable-IsStored :
      (can_set : Bool) (t : FieldType) (p : PropertyBuilder) (raw : Any)
      → can_set ≡ true
      → Holds t p.kind
      → Conforms lib st p raw
      → IsStored (if can_set then set_type conv t raw else err (text "field is not settable"))
  settable-IsStored true t p raw e holds conforms = type-IsStored t p raw holds conforms
  settable-IsStored false t p raw e holds conforms = cc

  abbrev IsWritten : Result Bytes Destination → Type 0
  IsWritten result = (dst : Destination) × (result ≡ ok dst)

  written-IsWritten :
      (result : Written) (index : List ℕ)
      → IsStored result
      → IsWritten (result >>= λ value. ok (written index value))
  written-IsWritten (ok value) index is_set = (_, refl)
  written-IsWritten (err reason) index is_set = let (value, e) = is_set in cc

  plain-IsWritten :
      (custom : Option (Any → Result Bytes Any)) (p : PropertyBuilder) (raw : Any)
      → custom ≡ none
      → IsPlain p
      → IsAccepted lib st custom p raw
      → IsWritten (
          transformed custom raw >>= λ value.
          set_field conv (slots p.field.index) value >>= λ result.
          ok (written p.field.index result))
  unfolding set_field
  plain-IsWritten (some fn) p raw e plain accepted = cc
  plain-IsWritten none p raw e (_, can_set, holds) conforms =
      let slot = slots p.field.index in
      written-IsWritten (set_field conv slot raw) p.field.index
        (settable-IsStored slot.can_set slot.field_type p raw can_set holds conforms)

  field-IsWritten :
      (p : PropertyBuilder) (raw : Any)
      → IsPlain p
      → Accepts lib st p raw
      → IsWritten (populate_field conv slots p raw)
  unfolding populate_field
  field-IsWritten p raw plain accepted =
      plain-IsWritten p.custom p (sanitized p.sanitize raw) plain.0 plain
        ((IsAccepted-iff lib st).1 accepted)

  both-IsWritten :
      (first : Result Bytes Destination) (rest : Result Bytes Destination)
      → IsWritten first
      → IsWritten rest
      → IsWritten (first >>= λ writes. rest >>= λ more. ok (writes ++ more))
  both-IsWritten (ok writes) (ok more) before after = (_, refl)
  both-IsWritten (ok writes) (err reason) before (dst, e) = cc
  both-IsWritten (err reason) rest (dst, e) after = cc

  pub Follows-IsWritten :
      {properties : List PropertyBuilder} {fields : Fields}
      → AllPlain properties
      → Follows lib st properties fields
      → IsWritten (populate conv slots fields properties (text "json"))
  unfolding populate
  Follows-IsWritten plain no_properties = ([], refl)
  Follows-IsWritten plain (untagged key rest) =
      rw key (both-IsWritten (ok []) _ ([], refl) (Follows-IsWritten plain.1 rest))
  Follows-IsWritten plain (absent key missing optional rest) =
      rw (key, missing) (both-IsWritten (ok []) _ ([], refl) (Follows-IsWritten plain.1 rest))
  Follows-IsWritten plain (present {p} {raw} key found accepted rest) =
      rw (key, found)
        (both-IsWritten (populate_field conv slots p raw) _ (field-IsWritten p raw plain.0 accepted)
          (Follows-IsWritten plain.1 rest))

module _ (setup : Setup) (st : Store) (schema : ℕ) (fields : Fields)
    (same : (s : Bytes) → setup.conv.parse_duration s ≡ setup.lib.parse_duration s)
    (plain : AllPlain setup.lib st setup.conv setup.slots same (own_properties st schema)) where
  -- Refused with violations, of a body that does not follow the schema; or written, of one that does,
  -- and then only the refinements are left.
  abbrev pub IsJudged : Type 0
  IsJudged =
      ((v : Violation) × (violations : List Violation) × (¬ Follows setup.lib st
          (own_properties st schema) fields)
        × (parse_struct setup st schema fields ≡ refused (v ∷ violations)))
      ⊎ ((dst : Destination) × Follows setup.lib st (own_properties st schema) fields
          × (parse_struct setup st schema fields ≡ refined (st.schemas schema).refines dst))

  judged :
      (violations : List Violation)
      → validate_struct
          (validate_value setup.lib st setup.fuel)
          fields
          (own_properties st schema)
          []
        ≡ done violations
      → (violations ≡ []) ↔ Follows setup.lib st (own_properties st schema) fields
      → IsJudged
  unfolding parse_struct
  judged [] ends right =
      let follows = right.0 refl in
      let (dst, is_written) =
        Follows-IsWritten setup.lib st setup.conv setup.slots same plain follows in
      inr (dst, follows, rw (ends, is_written) refl)
  judged (v ∷ violations) ends right =
      inl (v, violations, λ follows. let e = right.1 follows in cc, rw ends refl)

-- An object that is parsed for the schema of a struct, on more fuel than it is deep, is refused with at
-- least one violation when it does not follow the schema, and else is written to the struct, where only
-- a refinement can still refuse it: `populate` does not fail after the validation. The conditions: the
-- properties have no custom function and settable fields of types that hold their kinds, no sanitizer
-- makes a value deeper, and each array builder has an item builder.
pub parse_struct-IsJudged :
    (setup : Setup) (st : Store) (schema : ℕ) (fields : Fields)
    (same : (s : Bytes) → setup.conv.parse_duration s ≡ setup.lib.parse_duration s)
    (plain : AllPlain setup.lib st setup.conv setup.slots same (own_properties st schema))
    → ((i : ℕ) → IsWalkable (st.builders i))
    → depth_fields fields < setup.fuel
    → IsJudged setup st schema fields same plain
parse_struct-IsJudged setup st schema fields same plain walkable shallow =
    let check = validate_value setup.lib st setup.fuel in
    let properties = own_properties st schema in
    let outcome = validate_struct check fields properties [] in
    let (violations, ends) = Ends-done outcome (
      struct-Ends setup.lib st walkable check setup.fuel
        (λ p raw path. value-Ends setup.lib st walkable setup.fuel p raw path) fields properties []
        (own-AllWalkable setup.lib st walkable schema) shallow) in
    let decides : Decides (Follows setup.lib st properties fields) outcome =
      struct-Decides setup.lib st check (value-Decides setup.lib st setup.fuel) fields properties
        [] in
    judged setup st schema fields same plain violations ends (rw ends at decides)

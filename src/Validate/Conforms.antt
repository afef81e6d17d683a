-- ===== src/Validate/Conforms.antt =====
-- What it means for a decoded value to conform to a builder and to a schema, with no order of checks,
-- no paths and no messages in it.
pub mod Cases
use gonest.Prelude.{
  ℕ, Bool, true, false, Option, none, some, List, [], ◌∷◌, ◌≡◌, ◌≢◌, ◌≤◌, ◌⊎◌, Result, ok, length,
}
use gonest.Prelude.Bytes.{Bytes}
use gonest.Prelude.Numbers.{ℤ, pos, negsuc, Float, float_lt, float_of_int, int_of_float}
use gonest.Schema.Value.{Any, nil, Items, empty, item, Fields, presence, count_items}
use gonest.Schema.Property.{PropertyBuilder, Kind, enum_string_values, enum_int_values}
use gonest.Schema.Store.{Store, own_properties}
use gonest.Validate.Primitive.{Library, is_integral}
use gonest.Validate.Walk.{json_key, sanitized, item_builder}

abbrev pub IntLe : ℤ → ℤ → Type 0
IntLe (pos a) (pos b) = a ≤ b
IntLe (pos a) (negsuc b) = ⊥
IntLe (negsuc a) (pos b) = Unit
IntLe (negsuc a) (negsuc b) = b ≤ a

-- A constraint holds when there is none.
abbrev pub Every {ℓ} : {A : Type ℓ} → Option A → (A → Type 0) → Type 0
Every none P = Unit
Every (some bound) P = P bound

abbrev pub Listed : {A : Type 0} → A → List A → Type 0
Listed a [] = ⊥
Listed a (b ∷ items) = (b ≡ a) ⊎ Listed a items

abbrev pub Within : PropertyBuilder → ℤ → Type 0
Within p n = Every p.min (λ min. IntLe min n) × Every p.max (λ max. IntLe n max)

abbrev pub Matches : Library → Bytes → Bytes → Type 0
Matches lib [] s = Unit
Matches lib (c ∷ pattern) s = Every (lib.compile (c ∷ pattern)) (λ regex. regex s ≡ true)

abbrev pub IsText : Library → PropertyBuilder → Bytes → Type 0
IsText lib p s =
    Within p (pos (length s)) × Matches lib p.pattern s × Every (enum_string_values p) (Listed s)

-- A bound on a number is rounded to a double first, and a list of integers is searched for the number
-- without its fraction.
abbrev pub IsNumber : PropertyBuilder → Float → Type 0
IsNumber p f =
    Every p.min (λ min. float_lt f (float_of_int min) ≡ false)
    × (Every p.max (λ max. float_lt (float_of_int max) f ≡ false)
        × Every (enum_int_values p) (Listed (int_of_float f)))

abbrev pub IsDuration : PropertyBuilder → Option ℤ → Type 0
IsDuration p none = ⊥
IsDuration p (some d) = Within p d × Every (enum_int_values p) (Listed d)

abbrev pub IsPrimitive : Library → PropertyBuilder → Kind → Any → Type 0
IsPrimitive lib p Kind.string (Any.string s) = IsText lib p s
IsPrimitive lib p Kind.string _ = ⊥
IsPrimitive lib p Kind.integer (Any.float64 f) = (is_integral f ≡ true) × IsNumber p f
IsPrimitive lib p Kind.integer _ = ⊥
IsPrimitive lib p Kind.number (Any.float64 f) = IsNumber p f
IsPrimitive lib p Kind.number _ = ⊥
IsPrimitive lib p Kind.boolean (Any.boolean b) = Unit
IsPrimitive lib p Kind.boolean _ = ⊥
IsPrimitive lib p Kind.duration (Any.string s) = IsDuration p (lib.parse_duration s)
IsPrimitive lib p Kind.duration _ = ⊥
IsPrimitive lib p _ _ = Unit

mutual
  pub data Accepts (lib : Library) (st : Store) : PropertyBuilder → Any → Type 0 where
    by_custom :
        {p : PropertyBuilder} {raw value : Any} {fn : Any → Result Bytes Any}
        → p.custom ≡ some fn
        → fn (sanitized p.sanitize raw) ≡ ok value
        → Accepts lib st p raw
    built_in :
        {p : PropertyBuilder} {raw : Any}
        → p.custom ≡ none
        → Conforms lib st p (sanitized p.sanitize raw)
        → Accepts lib st p raw

  pub data Conforms (lib : Library) (st : Store) : PropertyBuilder → Any → Type 0 where
    null : {p : PropertyBuilder} → p.nullable ≡ true → Conforms lib st p nil
    primitive :
        {p : PropertyBuilder} {raw : Any}
        → raw ≢ nil
        → p.kind ≢ Kind.array
        → p.kind ≢ Kind.object
        → IsPrimitive lib p p.kind raw
        → Conforms lib st p raw
    array :
        {p : PropertyBuilder} {items : Items}
        → p.kind ≡ Kind.array
        → p.item_ref ≡ none
        → Within p (pos (count_items items))
        → AcceptsAll lib st (item_builder st p.item) items
        → Conforms lib st p (Any.array items)
    array_of_structs :
        {p : PropertyBuilder} {items : Items} {schema : ℕ}
        → p.kind ≡ Kind.array
        → p.item_ref ≡ some schema
        → Within p (pos (count_items items))
        → FollowsAll lib st (own_properties st schema) items
        → Conforms lib st p (Any.array items)
    shapeless :
        {p : PropertyBuilder} {raw : Any}
        → raw ≢ nil
        → p.kind ≡ Kind.object
        → (p.additional_properties ≡ true) ⊎ (p.ref ≡ none)
        → Conforms lib st p raw
    struct :
        {p : PropertyBuilder} {fields : Fields} {schema : ℕ}
        → p.kind ≡ Kind.object
        → p.ref ≡ some schema
        → Follows lib st (own_properties st schema) fields
        → Conforms lib st p (Any.object fields)

  pub data AcceptsAll (lib : Library) (st : Store) : Option PropertyBuilder → Items → Type 0 where
    no_items : {builder : Option PropertyBuilder} → AcceptsAll lib st builder empty
    next_item :
        {builder : PropertyBuilder} {raw : Any} {items : Items}
        → Accepts lib st builder raw
        → AcceptsAll lib st (some builder) items
        → AcceptsAll lib st (some builder) (item raw items)

  -- An object follows a schema when each visible property is present and accepted, or optional.
  pub data Follows (lib : Library) (st : Store) : List PropertyBuilder → Fields → Type 0 where
    no_properties : {fields : Fields} → Follows lib st [] fields
    untagged :
        {p : PropertyBuilder} {properties : List PropertyBuilder} {fields : Fields}
        → json_key p ≡ none
        → Follows lib st properties fields
        → Follows lib st (p ∷ properties) fields
    absent :
        {p : PropertyBuilder} {properties : List PropertyBuilder} {fields : Fields} {key : Bytes}
        → json_key p ≡ some key
        → presence fields key ≡ none
        → p.required ≡ false
        → Follows lib st properties fields
        → Follows lib st (p ∷ properties) fields
    present :
        {p : PropertyBuilder} {properties : List PropertyBuilder} {fields : Fields} {key : Bytes}
        {raw : Any}
        → json_key p ≡ some key
        → presence fields key ≡ some raw
        → Accepts lib st p raw
        → Follows lib st properties fields
        → Follows lib st (p ∷ properties) fields

  pub data FollowsAll (lib : Library) (st : Store) : List PropertyBuilder → Items → Type 0 where
    no_structs : {properties : List PropertyBuilder} → FollowsAll lib st properties empty
    next_struct :
        {properties : List PropertyBuilder} {fields : Fields} {items : Items}
        → Follows lib st properties fields
        → FollowsAll lib st properties items
        → FollowsAll lib st properties (item (Any.object fields) items)

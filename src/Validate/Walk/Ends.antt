-- ===== src/Validate/Walk/Ends.antt =====
-- The walk ends within the depth of the value, when no sanitizer makes a value deeper and each array
-- has an item builder: it neither runs out of fuel nor dereferences nil.
use gonest.Prelude.{
  ℕ, zero, suc, ◌≤◌, ◌<◌, Bool, true, false, Option, none, some, List, [], ◌∷◌, ◌≡◌, refl, ◌↔◌,
  arith, if◌then◌else◌, Result,
}
use gonest.Prelude.Bytes.{Bytes, bytes_eq}
use gonest.Schema.Value.{
  Any, nil, Items, empty, item, Fields, end, field, depth, depth_items, depth_fields, presence,
  count_items,
}
use gonest.Schema.Property.{PropertyBuilder, Kind}
use gonest.Schema.Store.{Store, own_properties, builders_of}
use gonest.Schema.Store.Items.{HasItems}
use gonest.Validate.Violation.{
  Violation, Outcome, done, nil_pointer, out_of_fuel, append_violations, indexed,
}
use gonest.Validate.Primitive.{Library}
use gonest.Validate.Conforms.{Accepts}
use gonest.Validate.Walk.{
  Checker, json_key, sanitized, validate_present, validate_field, validate_struct, validate_items,
  validate_as_struct, validate_struct_items, validate_members, count_checks, validate_array,
  validate_referred, validate_object, validate_kind, validate_null_or, validate_custom_or,
  validate_value,
}
use gonest.Validate.Walk.Decides.{validate_value-Accepts}

abbrev pub Ends : Outcome (List Violation) → Type 0
Ends (done violations) = Unit
Ends nil_pointer = ⊥
Ends out_of_fuel = ⊥

-- A sanitizer that makes no value deeper.
abbrev pub IsTame : Option (Any → Any) → Type 0
IsTame none = Unit
IsTame (some fn) = (raw : Any) → depth (fn raw) ≤ depth raw

abbrev pub IsWalkable : PropertyBuilder → Type 0
IsWalkable p = IsTame p.sanitize × HasItems p

abbrev pub AllWalkable : List PropertyBuilder → Type 0
AllWalkable [] = Unit
AllWalkable (p ∷ properties) = IsWalkable p × AllWalkable properties

append_violations-Ends :
    (first rest : Outcome (List Violation))
    → Ends first
    → Ends rest
    → Ends (append_violations first rest)
append_violations-Ends (done xs) (done ys) left right = tt
append_violations-Ends (done xs) nil_pointer left right = right
append_violations-Ends (done xs) out_of_fuel left right = right
append_violations-Ends nil_pointer rest left right = left
append_violations-Ends out_of_fuel rest left right = left

tame-depth :
    (sanitize : Option (Any → Any))
    → IsTame sanitize
    → (raw : Any) → depth (sanitized sanitize raw) ≤ depth raw
tame-depth none tame raw = omega arith
tame-depth (some fn) tame raw = tame raw

abbrev ShallowerThan : ℕ → Option Any → Type 0
ShallowerThan n none = Unit
ShallowerThan n (some raw) = depth raw < n

ShallowerThan-if :
    (n : ℕ) (here : Bool) (raw : Any) (rest : Option Any)
    → depth raw < n
    → ShallowerThan n rest
    → ShallowerThan n (if here then some raw else rest)
ShallowerThan-if n true raw rest first others = first
ShallowerThan-if n false raw rest first others = others

presence-depth :
    (n : ℕ) (fields : Fields) (key : Bytes)
    → depth_fields fields < n
    → ShallowerThan n (presence fields key)
unfolding depth
presence-depth n end key shallow = tt
presence-depth n (field k raw fields) key shallow =
    ShallowerThan-if n (bytes_eq k key) raw (presence fields key) (omega arith)
      (presence-depth n fields key (omega arith))

module _ (lib : Library) (st : Store) (walkable : (i : ℕ) → IsWalkable (st.builders i)) where
  builders-AllWalkable :
      (properties : List (ℕ × ℕ)) → AllWalkable (builders_of st.builders properties)
  unfolding builders_of
  builders-AllWalkable [] = tt
  builders-AllWalkable ((offset, builder) ∷ properties) =
      (walkable builder, builders-AllWalkable properties)

  pub own-AllWalkable : (schema : ℕ) → AllWalkable (own_properties st schema)
  unfolding own_properties
  own-AllWalkable schema = builders-AllWalkable (st.schemas schema).properties

  module _ (check : Checker) (n : ℕ)
      (ends : (p : PropertyBuilder) (raw : Any) (path : Bytes)
        → IsWalkable p
        → depth raw < n
        → Ends (check p raw path)) where
    present-Ends :
        (given : Option Any) (p : PropertyBuilder) (path : Bytes)
        → IsWalkable p
        → ShallowerThan n given
        → Ends (validate_present check given p path)
    present-Ends none p path good shallow = tt
    present-Ends (some raw) p path good shallow = ends p raw path good shallow

    field-Ends :
        (key : Option Bytes) (fields : Fields) (p : PropertyBuilder) (prefix : Bytes)
        → IsWalkable p
        → depth_fields fields < n
        → Ends (validate_field check key fields p prefix)
    field-Ends none fields p prefix good shallow = tt
    field-Ends (some key) fields p prefix good shallow =
        present-Ends (presence fields key) p _ good (presence-depth n fields key shallow)

    pub struct-Ends :
        (fields : Fields) (properties : List PropertyBuilder) (prefix : Bytes)
        → AllWalkable properties
        → depth_fields fields < n
        → Ends (validate_struct check fields properties prefix)
    unfolding validate_struct
    struct-Ends fields [] prefix good shallow = tt
    struct-Ends fields (p ∷ properties) prefix good shallow =
        append_violations-Ends (validate_field check (json_key p) fields p prefix) _
          (field-Ends (json_key p) fields p prefix good.0 shallow)
          (struct-Ends fields properties prefix good.1 shallow)

    as_struct-Ends :
        (properties : List PropertyBuilder) (raw : Any) (path : Bytes)
        → AllWalkable properties
        → depth raw < suc n
        → Ends (validate_as_struct check properties raw path)
    unfolding depth
    as_struct-Ends properties (Any.object fields) path good shallow =
        struct-Ends fields properties _ good (omega arith)
    as_struct-Ends properties _ path good shallow = tt

    items-Ends :
        (builder : ℕ) (items : Items) (path : Bytes) (i : ℕ)
        → depth_items items < n
        → Ends (validate_items check (some (st.builders builder)) items path i)
    unfolding validate_items depth
    items-Ends builder empty path i shallow = tt
    items-Ends builder (item raw items) path i shallow =
        append_violations-Ends (check (st.builders builder) raw (indexed path i)) _
          (ends (st.builders builder) raw _ (walkable builder) (omega arith))
          (items-Ends builder items path (suc i) (omega arith))

    struct_items-Ends :
        (schema : ℕ) (items : Items) (path : Bytes) (i : ℕ)
        → depth_items items < n
        → Ends (validate_struct_items check (own_properties st schema) items path i)
    unfolding validate_struct_items depth
    struct_items-Ends schema empty path i shallow = tt
    struct_items-Ends schema (item raw items) path i shallow =
        append_violations-Ends
          (validate_as_struct check (own_properties st schema) raw (indexed path i)) _
          (as_struct-Ends _ raw _ (own-AllWalkable schema) (omega arith))
          (struct_items-Ends schema items path (suc i) (omega arith))

    members-Ends :
        (ref : Option ℕ) (p : PropertyBuilder) (items : Items) (path : Bytes) {builder : ℕ}
        → p.item ≡ some builder
        → depth_items items < n
        → Ends (validate_members check st ref p items path)
    unfolding validate_members
    members-Ends none p items path {builder} e shallow =
        simp e (items-Ends builder items path 0 shallow)
    members-Ends (some schema) p items path e shallow =
        struct_items-Ends schema items path 0 shallow

    array-Ends :
        (p : PropertyBuilder) (raw : Any) (path : Bytes) {builder : ℕ}
        → p.item ≡ some builder
        → depth raw < suc n
        → Ends (validate_array check st p raw path)
    unfolding validate_array depth
    array-Ends p (Any.array items) path e shallow =
        append_violations-Ends (done (count_checks p (count_items items) path)) _ tt
          (members-Ends p.item_ref p items path e (omega arith))
    array-Ends p _ path e shallow = tt

    referred-Ends :
        (ref : Option ℕ) (raw : Any) (path : Bytes)
        → depth raw < suc n
        → Ends (validate_referred check st ref raw path)
    referred-Ends none raw path shallow = tt
    referred-Ends (some schema) raw path shallow =
        as_struct-Ends _ raw path (own-AllWalkable schema) shallow

    open_or_referred-Ends :
        (additional : Bool) (ref : Option ℕ) (raw : Any) (path : Bytes)
        → depth raw < suc n
        → Ends (if additional then done [] else validate_referred check st ref raw path)
    open_or_referred-Ends true ref raw path shallow = tt
    open_or_referred-Ends false ref raw path shallow = referred-Ends ref raw path shallow

    kind-Ends :
        (p : PropertyBuilder) (raw : Any) (path : Bytes) (kind : Kind)
        → p.kind ≡ kind
        → HasItems p
        → depth raw < suc n
        → Ends (validate_kind check lib st p raw path kind)
    unfolding validate_object
    kind-Ends p raw path Kind.array e items shallow = array-Ends p raw path (items e).1 shallow
    kind-Ends p raw path Kind.object e items shallow =
        open_or_referred-Ends p.additional_properties p.ref raw path shallow
    kind-Ends p raw path _ e items shallow = tt

    null_or-Ends :
        (p : PropertyBuilder) (raw : Any) (path : Bytes)
        → HasItems p
        → depth raw < suc n
        → Ends (validate_null_or check lib st p raw path)
    null_or-Ends p nil path items shallow = tt
    null_or-Ends p _ path items shallow = kind-Ends p _ path p.kind refl items shallow

    custom_or-Ends :
        (custom : Option (Any → Result Bytes Any)) (p : PropertyBuilder) (raw : Any) (path : Bytes)
        → HasItems p
        → depth raw < suc n
        → Ends (validate_custom_or check custom lib st p raw path)
    custom_or-Ends (some fn) p raw path items shallow = tt
    custom_or-Ends none p raw path items shallow = null_or-Ends p raw path items shallow

  pub value-Ends :
      (fuel : ℕ) (p : PropertyBuilder) (raw : Any) (path : Bytes)
      → IsWalkable p
      → depth raw < fuel
      → Ends (validate_value lib st fuel p raw path)
  unfolding validate_value
  value-Ends zero p raw path good shallow = omega arith
  value-Ends (suc fuel) p raw path good shallow =
      custom_or-Ends (validate_value lib st fuel) fuel (value-Ends fuel) p.custom p _ path good.1
        (omega (arith, tame-depth p.sanitize good.0 raw))

pub Ends-done :
    (outcome : Outcome (List Violation))
    → Ends outcome
    → (violations : List Violation) × (outcome ≡ done violations)
Ends-done (done violations) ends = (violations, refl)
Ends-done nil_pointer ends = absurd ends
Ends-done out_of_fuel ends = absurd ends

-- When no sanitizer makes a value deeper and each array builder has an item builder, more fuel than the
-- depth of the value is enough: the walk ends with a list of violations, and that list is empty exactly
-- when the value is accepted.
pub validate_value_total :
    (lib : Library) (st : Store) (fuel : ℕ) (p : PropertyBuilder) (raw : Any) (path : Bytes)
    → ((i : ℕ) → IsWalkable (st.builders i))
    → IsWalkable p
    → depth raw < fuel
    → (violations : List Violation) × (validate_value lib st fuel p raw path ≡ done violations)
      × ((violations ≡ []) ↔ Accepts lib st p raw)
validate_value_total lib st fuel p raw path walkable good shallow =
    let (violations, ends) =
      Ends-done (validate_value lib st fuel p raw path)
        (value-Ends lib st walkable fuel p raw path good shallow) in
    (violations, ends, validate_value-Accepts lib st fuel p raw path ends)

-- ===== src/Validate/Walk.antt =====
-- `tagKeyVisible`, `validateStruct`, `validateValue`, `validateArray` and `validateObject`:
-- internal/validate/validate.go. The recursion follows pointers to schemas and may also be fed by
-- the program's own `Sanitize` functions, so it runs on fuel.
pub mod Decides
pub mod Paths
pub mod Ends
use gonest.Prelude.{
  ℕ, zero, suc, Bool, true, false, not, ◌&&◌, ◌||◌, Option, none, some, List, [], ◌∷◌, ◌++◌, Result,
  ok, err, if◌then◌else◌, ◌==◌,
}
use gonest.Prelude.Bytes.{Bytes, bytes_eq, text}
use gonest.Prelude.Numbers.{ℤ, pos, int_lt}
use gonest.Schema.Value.{Any, nil, Items, empty, item, Fields, presence, count_items}
use gonest.Schema.Property.{PropertyBuilder, StructField, Kind}
use gonest.Schema.Store.{Store, own_properties}
use gonest.Validate.Violation.{
  Violation, Message, Outcome, done, nil_pointer, out_of_fuel, append_violations, indexed,
}
use gonest.Validate.Primitive.{Library, check_bound, unless, validate_primitive}

-- `reflect.StructTag.Get`
abbrev tag_get : List (Bytes × Bytes) → Bytes → Bytes
tag_get [] tag = []
tag_get ((name, value) ∷ tags) tag = if bytes_eq name tag then value else tag_get tags tag

-- Up to the first comma.
abbrev before_comma : Bytes → Bytes
before_comma [] = []
before_comma (c ∷ raw) = let rest = before_comma raw in if c == 44 then [] else c ∷ rest

abbrev or_name : Bytes → Bytes → Bytes
or_name [] name = name
or_name (c ∷ tagged) name = c ∷ tagged

-- The key, or none for a field that the tag hides.
unfoldable pub tag_key_visible : StructField → Bytes → Option Bytes
tag_key_visible f tag =
    let raw = tag_get f.tags tag in
    if bytes_eq raw (text "-") then none else some (or_name (before_comma raw) f.name)

abbrev pub json_key : PropertyBuilder → Option Bytes
json_key p = tag_key_visible p.field (text "json")

abbrev pub sanitized : Option (Any → Any) → Any → Any
sanitized none raw = raw
sanitized (some fn) raw = fn raw

-- The walk of one value against one builder, at a path.
abbrev pub Checker : Type 0
Checker = PropertyBuilder → Any → Bytes → Outcome (List Violation)

abbrev pub required_unless_optional : Bool → Bytes → List Violation
required_unless_optional required path = unless (not required) path Message.required

abbrev pub item_builder : Store → Option ℕ → Option PropertyBuilder
item_builder st none = none
item_builder st (some i) = some (st.builders i)

abbrev pub count_checks : PropertyBuilder → ℕ → Bytes → List Violation
count_checks p count path =
    check_bound p.min (λ min. not (int_lt (pos count) min)) path Message.items_at_least
    ++ check_bound p.max (λ max. not (int_lt max (pos count))) path Message.items_at_most

abbrev pub custom_violations : Result Bytes Any → Bytes → List Violation
custom_violations (ok value) path = []
custom_violations (err reason) path = record { at = path; message = Message.reported reason } ∷ []

module _ (check : Checker) where
  abbrev pub validate_present : Option Any → PropertyBuilder → Bytes → Outcome (List Violation)
  validate_present none p path = done (required_unless_optional p.required path)
  validate_present (some raw) p path = check p raw path

  abbrev pub validate_field :
      Option Bytes → Fields → PropertyBuilder → Bytes → Outcome (List Violation)
  validate_field none fields p prefix = done []
  validate_field (some key) fields p prefix =
      validate_present (presence fields key) p (prefix ++ key)

  unfoldable pub validate_struct : Fields → List PropertyBuilder → Bytes → Outcome (List Violation)
  validate_struct fields [] prefix = done []
  validate_struct fields (p ∷ properties) prefix =
      append_violations (validate_field (json_key p) fields p prefix)
        (validate_struct fields properties prefix)

  -- The items from an index on, each against the builder of the items, which may be nil.
  abbrev pub validate_item : Option PropertyBuilder → Any → Bytes → Outcome (List Violation)
  validate_item none raw path = nil_pointer
  validate_item (some builder) raw path = check builder raw path

  unfoldable pub validate_items :
      Option PropertyBuilder → Items → Bytes → ℕ → Outcome (List Violation)
  validate_items builder empty path i = done []
  validate_items builder (item raw items) path i =
      append_violations (validate_item builder raw (indexed path i))
        (validate_items builder items path (suc i))

  -- Items that refer to a schema, and a property's own object.
  abbrev pub validate_as_struct : List PropertyBuilder → Any → Bytes → Outcome (List Violation)
  validate_as_struct properties (Any.object fields) path =
      validate_struct fields properties (path ++ text ".")
  validate_as_struct properties raw path =
      done (record { at = path; message = Message.expected_object } ∷ [])

  unfoldable pub validate_struct_items :
      List PropertyBuilder → Items → Bytes → ℕ → Outcome (List Violation)
  validate_struct_items properties empty path i = done []
  validate_struct_items properties (item raw items) path i =
      append_violations (validate_as_struct properties raw (indexed path i))
        (validate_struct_items properties items path (suc i))

  unfoldable pub validate_members :
      Store → Option ℕ → PropertyBuilder → Items → Bytes → Outcome (List Violation)
  validate_members st none p items path = validate_items (item_builder st p.item) items path 0
  validate_members st (some schema) p items path =
      validate_struct_items (own_properties st schema) items path 0

  unfoldable pub validate_array : Store → PropertyBuilder → Any → Bytes → Outcome (List Violation)
  validate_array st p (Any.array items) path =
      append_violations (done (count_checks p (count_items items) path))
        (validate_members st p.item_ref p items path)
  validate_array st p raw path = done (record { at = path; message = Message.expected_array } ∷ [])

  abbrev pub validate_referred : Store → Option ℕ → Any → Bytes → Outcome (List Violation)
  validate_referred st none raw path = done []
  validate_referred st (some schema) raw path =
      validate_as_struct (own_properties st schema) raw path

  unfoldable pub validate_object : Store → PropertyBuilder → Any → Bytes → Outcome (List Violation)
  validate_object st p raw path =
      if p.additional_properties then done [] else validate_referred st p.ref raw path

  abbrev pub validate_kind :
      Library → Store → PropertyBuilder → Any → Bytes → Kind → Outcome (List Violation)
  validate_kind lib st p raw path Kind.array = validate_array st p raw path
  validate_kind lib st p raw path Kind.object = validate_object st p raw path
  validate_kind lib st p raw path kind = done (validate_primitive lib p raw path kind)

  abbrev pub validate_null_or :
      Library → Store → PropertyBuilder → Any → Bytes → Outcome (List Violation)
  validate_null_or lib st p nil path = done (unless p.nullable path Message.cannot_be_null)
  validate_null_or lib st p raw path = validate_kind lib st p raw path p.kind

  abbrev pub validate_custom_or :
      Option (Any → Result Bytes Any)
      → Library
      → Store
      → PropertyBuilder
      → Any
      → Bytes
      → Outcome (List Violation)
  validate_custom_or (some fn) lib st p raw path = done (custom_violations (fn raw) path)
  validate_custom_or none lib st p raw path = validate_null_or lib st p raw path

unfoldable pub validate_value : Library → Store → ℕ → Checker
validate_value lib st zero p raw path = out_of_fuel
validate_value lib st (suc fuel) p raw path =
    validate_custom_or (validate_value lib st fuel) p.custom lib st p (sanitized p.sanitize raw)
      path

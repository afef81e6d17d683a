-- ===== src/Validate/Walk/Paths.antt =====
-- The walk reports below the path that it is given, and looks at nothing else of it.
use gonest.Prelude.{
  ℕ, zero, suc, Bool, true, false, not, Option, none, some, List, [], ◌∷◌, ◌++◌, ◌≡◌, refl, sym, ap,
  ◌∙◌, append_assoc, append-nil, Result, ok, err, if◌then◌else◌,
}
use gonest.Prelude.Bytes.{Bytes, text}
use gonest.Schema.Value.{Any, nil, Items, empty, item, Fields, presence, count_items}
use gonest.Schema.Property.{PropertyBuilder, Kind}
use gonest.Schema.Store.{Store, own_properties}
use gonest.Validate.Violation.{
  Violation, Message, Outcome, done, nil_pointer, out_of_fuel, append_violations, indexed,
}
use gonest.Validate.Primitive.{Library}
use gonest.Validate.Primitive.Paths.{
  relocate, append-relocate, unless-relocate, check_bound-relocate, primitive-relocate,
}
use gonest.Validate.Walk.{
  Checker, json_key, sanitized, validate_present, validate_field, validate_struct, validate_items,
  validate_as_struct, validate_struct_items, item_builder, validate_members, count_checks,
  validate_array, validate_referred, validate_object, validate_kind, validate_null_or,
  custom_violations, validate_custom_or, validate_value,
}

abbrev pub below : Bytes → Outcome (List Violation) → Outcome (List Violation)
below prefix (done violations) = done (relocate prefix violations)
below prefix nil_pointer = nil_pointer
below prefix out_of_fuel = out_of_fuel

module _ (prefix : Bytes) where
  append_violations-below :
      {left right : Outcome (List Violation)} (first rest : Outcome (List Violation))
      → left ≡ below prefix first
      → right ≡ below prefix rest
      → append_violations left right ≡ below prefix (append_violations first rest)
  append_violations-below (done xs) (done ys) before after =
      rw (before, after) (ap done (append-relocate prefix xs ys refl refl))
  append_violations-below (done xs) nil_pointer before after = rw (before, after) refl
  append_violations-below (done xs) out_of_fuel before after = rw (before, after) refl
  append_violations-below nil_pointer rest before after = rw before refl
  append_violations-below out_of_fuel rest before after = rw before refl

  done-below :
      {left : List Violation} (violations : List Violation)
      → left ≡ relocate prefix violations
      → done left ≡ below prefix (done violations)
  done-below violations e = cc

  indexed-append : (path : Bytes) (i : ℕ) → indexed (prefix ++ path) i ≡ prefix ++ indexed path i
  unfolding indexed
  indexed-append path i = append_assoc prefix path _

  module _ (lib : Library) (st : Store) (check : Checker)
      (moves : (p : PropertyBuilder) (raw : Any) (path : Bytes)
        → check p raw (prefix ++ path) ≡ below prefix (check p raw path)) where
    present-below :
        (given : Option Any) (p : PropertyBuilder) (path : Bytes)
        → validate_present check given p (prefix ++ path)
          ≡ below prefix (validate_present check given p path)
    present-below none p path =
        done-below _ (unless-relocate prefix (not p.required) path Message.required)
    present-below (some raw) p path = moves p raw path

    field-below :
        (key : Option Bytes) (fields : Fields) (p : PropertyBuilder) (path : Bytes)
        → validate_field check key fields p (prefix ++ path)
          ≡ below prefix (validate_field check key fields p path)
    field-below none fields p path = refl
    field-below (some key) fields p path =
        rw (append_assoc prefix path key) (present-below (presence fields key) p (path ++ key))

    pub struct-below :
        (fields : Fields) (properties : List PropertyBuilder) (path : Bytes)
        → validate_struct check fields properties (prefix ++ path)
          ≡ below prefix (validate_struct check fields properties path)
    unfolding validate_struct
    struct-below fields [] path = refl
    struct-below fields (p ∷ properties) path =
        append_violations-below (validate_field check (json_key p) fields p path) _
          (field-below (json_key p) fields p path) (struct-below fields properties path)

    as_struct-below :
        (properties : List PropertyBuilder) (raw : Any) (path : Bytes)
        → validate_as_struct check properties raw (prefix ++ path)
          ≡ below prefix (validate_as_struct check properties raw path)
    as_struct-below properties (Any.object fields) path =
        rw (append_assoc prefix path (text ".")) (struct-below fields properties (path ++ text "."))
    as_struct-below properties _ path = refl

    items-below :
        (builder : Option PropertyBuilder) (items : Items) (path : Bytes) (i : ℕ)
        → validate_items check builder items (prefix ++ path) i
          ≡ below prefix (validate_items check builder items path i)
    unfolding validate_items
    items-below builder empty path i = refl
    items-below none (item raw items) path i = refl
    items-below (some builder) (item raw items) path i =
        append_violations-below (check builder raw (indexed path i)) _
          (rw (indexed-append path i) (moves builder raw (indexed path i)))
          (items-below (some builder) items path (suc i))

    struct_items-below :
        (properties : List PropertyBuilder) (items : Items) (path : Bytes) (i : ℕ)
        → validate_struct_items check properties items (prefix ++ path) i
          ≡ below prefix (validate_struct_items check properties items path i)
    unfolding validate_struct_items
    struct_items-below properties empty path i = refl
    struct_items-below properties (item raw items) path i =
        append_violations-below (validate_as_struct check properties raw (indexed path i)) _
          (rw (indexed-append path i) (as_struct-below properties raw (indexed path i)))
          (struct_items-below properties items path (suc i))

    members-below :
        (ref : Option ℕ) (p : PropertyBuilder) (items : Items) (path : Bytes)
        → validate_members check st ref p items (prefix ++ path)
          ≡ below prefix (validate_members check st ref p items path)
    unfolding validate_members
    members-below none p items path = items-below (item_builder st p.item) items path 0
    members-below (some schema) p items path =
        struct_items-below (own_properties st schema) items path 0

    array-below :
        (p : PropertyBuilder) (raw : Any) (path : Bytes)
        → validate_array check st p raw (prefix ++ path)
          ≡ below prefix (validate_array check st p raw path)
    unfolding validate_array
    array-below p (Any.array items) path =
        append_violations-below (done (count_checks p (count_items items) path)) _
          (done-below _ (
            append-relocate prefix _ _ (check_bound-relocate prefix p.min _ path _)
              (check_bound-relocate prefix p.max _ path _)))
          (members-below p.item_ref p items path)
    array-below p _ path = refl

    referred-below :
        (ref : Option ℕ) (raw : Any) (path : Bytes)
        → validate_referred check st ref raw (prefix ++ path)
          ≡ below prefix (validate_referred check st ref raw path)
    referred-below none raw path = refl
    referred-below (some schema) raw path = as_struct-below (own_properties st schema) raw path

    open_or_referred-below :
        (additional : Bool) (ref : Option ℕ) (raw : Any) (path : Bytes)
        → (if additional then done [] else validate_referred check st ref raw (prefix ++ path))
          ≡ below prefix (if additional then done [] else validate_referred check st ref raw path)
    open_or_referred-below true ref raw path = refl
    open_or_referred-below false ref raw path = referred-below ref raw path

    kind-below :
        (p : PropertyBuilder) (raw : Any) (path : Bytes) (kind : Kind)
        → validate_kind check lib st p raw (prefix ++ path) kind
          ≡ below prefix (validate_kind check lib st p raw path kind)
    unfolding validate_object
    kind-below p raw path Kind.array = array-below p raw path
    kind-below p raw path Kind.object =
        open_or_referred-below p.additional_properties p.ref raw path
    kind-below p raw path kind = done-below _ (primitive-relocate prefix lib p raw path kind)

    null_or-below :
        (p : PropertyBuilder) (raw : Any) (path : Bytes)
        → validate_null_or check lib st p raw (prefix ++ path)
          ≡ below prefix (validate_null_or check lib st p raw path)
    null_or-below p nil path =
        done-below _ (unless-relocate prefix p.nullable path Message.cannot_be_null)
    null_or-below p _ path = kind-below p _ path p.kind

    custom_violations-below :
        (result : Result Bytes Any) (path : Bytes)
        → done (custom_violations result (prefix ++ path))
          ≡ below prefix (done (custom_violations result path))
    custom_violations-below (ok value) path = refl
    custom_violations-below (err reason) path = refl

    custom_or-below :
        (custom : Option (Any → Result Bytes Any)) (p : PropertyBuilder) (raw : Any) (path : Bytes)
        → validate_custom_or check custom lib st p raw (prefix ++ path)
          ≡ below prefix (validate_custom_or check custom lib st p raw path)
    custom_or-below (some fn) p raw path = custom_violations-below (fn raw) path
    custom_or-below none p raw path = null_or-below p raw path

  value-below :
      (lib : Library) (st : Store) (fuel : ℕ) (p : PropertyBuilder) (raw : Any) (path : Bytes)
      → validate_value lib st fuel p raw (prefix ++ path)
        ≡ below prefix (validate_value lib st fuel p raw path)
  unfolding validate_value
  value-below lib st zero p raw path = refl
  value-below lib st (suc fuel) p raw path =
      custom_or-below lib st (validate_value lib st fuel) (value-below lib st fuel) p.custom p
        (sanitized p.sanitize raw) path

-- The violations of a value at a path are those of the same value at the empty path, each with the path
-- put before its own: so every one of them lies below the path, and no check depends on it.
pub validate_value-below :
    (lib : Library) (st : Store) (fuel : ℕ) (p : PropertyBuilder) (raw : Any) (path : Bytes)
    → validate_value lib st fuel p raw path ≡ below path (validate_value lib st fuel p raw [])
validate_value-below lib st fuel p raw path =
    sym (ap (validate_value lib st fuel p raw) (append-nil path))
    ∙ value-below path lib st fuel p raw []

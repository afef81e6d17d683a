-- ===== src/Validate/Walk/Decides.antt =====
-- The walk leaves no violation exactly when the value is accepted: layer by layer, for a check of the
-- values below that is right.
use gonest.Prelude.{
  ℕ, zero, suc, Bool, true, false, Option, none, some, List, [], ◌∷◌, ◌++◌, ◌≡◌, ◌≢◌, refl, ◌↔◌,
  Result, ok, err, if◌then◌else◌,
}
use gonest.Prelude.Bytes.{Bytes}
use gonest.Prelude.Numbers.{pos}
use gonest.Schema.Value.{Any, nil, Items, empty, item, Fields, presence, count_items}
use gonest.Schema.Property.{PropertyBuilder, Kind}
use gonest.Schema.Store.{Store, own_properties}
use gonest.Validate.Violation.{
  Violation, Message, Outcome, done, nil_pointer, out_of_fuel, append_violations, indexed,
}
use gonest.Validate.Primitive.{Library}
use gonest.Validate.Primitive.Decides.{
  append-empty_iff, unless-empty_iff, check_bound-empty_iff, int_lt_iff, IsPrimitive-iff,
}
use gonest.Validate.Walk.{
  Checker, json_key, sanitized, required_unless_optional, validate_present, validate_field,
  validate_struct, validate_items, validate_as_struct, validate_struct_items, item_builder,
  validate_members, count_checks, validate_array, validate_referred, validate_object, validate_kind,
  validate_null_or, custom_violations, validate_custom_or, validate_value,
}
use gonest.Validate.Conforms.{
  Within, Accepts, Conforms, AcceptsAll, no_items, Follows, no_properties, FollowsAll, no_structs,
}
use gonest.Validate.Conforms.Cases.{
  IfPresent, FieldFollows, Follows-cons_iff, AcceptsAll-item_iff, FollowsAsStruct,
  FollowsAll-item_iff, HasMembers, IsReferred, IsObject, IsOfKind, IsOfKind-iff, null_iff,
  IsAccepted, IsAccepted-iff,
}

-- A walk that ends with violations has none exactly when `G` holds.
abbrev pub Decides : Type 0 → Outcome (List Violation) → Type 0
Decides G (done violations) = (violations ≡ []) ↔ G
Decides G nil_pointer = Unit
Decides G out_of_fuel = Unit

append_violations-Decides :
    (G H : Type 0) (first rest : Outcome (List Violation))
    → Decides G first
    → Decides H rest
    → Decides (G × H) (append_violations first rest)
append_violations-Decides G H (done xs) (done ys) left right = append-empty_iff xs ys left right
append_violations-Decides G H (done xs) nil_pointer left right = tt
append_violations-Decides G H (done xs) out_of_fuel left right = tt
append_violations-Decides G H nil_pointer rest left right = tt
append_violations-Decides G H out_of_fuel rest left right = tt

Decides-iff :
    {G H : Type 0} (outcome : Outcome (List Violation))
    → G ↔ H
    → Decides G outcome
    → Decides H outcome
Decides-iff (done violations) same right = (λ e. same.0 (right.0 e), λ h. right.1 (same.1 h))
Decides-iff nil_pointer same right = tt
Decides-iff out_of_fuel same right = tt

done_iff :
    {G H : Type 0} (violations : List Violation)
    → (violations ≡ []) ↔ G
    → G ↔ H
    → (violations ≡ []) ↔ H
done_iff violations right same = (λ e. same.0 (right.0 e), λ h. right.1 (same.1 h))

required-Decides :
    (required : Bool) (path : Bytes)
    → (required_unless_optional required path ≡ []) ↔ (required ≡ false)
required-Decides true path = (λ e. cc, λ e. cc)
required-Decides false path = (λ _. refl, λ _. refl)

count_checks_iff :
    (p : PropertyBuilder) (count : ℕ) (path : Bytes)
    → (count_checks p count path ≡ []) ↔ Within p (pos count)
count_checks_iff p count path =
    append-empty_iff _ _
      (check_bound-empty_iff p.min _ path Message.items_at_least _
        (λ min. int_lt_iff min (pos count)))
      (check_bound-empty_iff p.max _ path Message.items_at_most _
        (λ max. int_lt_iff (pos count) max))

mismatch_iff : (v : Violation) → ((v ∷ []) ≡ []) ↔ ⊥
mismatch_iff v = (λ e. cc, λ e. absurd e)

module _ (lib : Library) (st : Store) (check : Checker)
    (right : (p : PropertyBuilder) (raw : Any) (path : Bytes)
      → Decides (Accepts lib st p raw) (check p raw path)) where
  present-Decides :
      (given : Option Any) (p : PropertyBuilder) (path : Bytes)
      → Decides (IfPresent lib st given p) (validate_present check given p path)
  present-Decides none p path = required-Decides p.required path
  present-Decides (some raw) p path = right p raw path

  field-Decides :
      (key : Option Bytes) (fields : Fields) (p : PropertyBuilder) (prefix : Bytes)
      → Decides (FieldFollows lib st key fields p) (validate_field check key fields p prefix)
  field-Decides none fields p prefix = (λ _. tt, λ _. refl)
  field-Decides (some key) fields p prefix = present-Decides (presence fields key) p (prefix ++ key)

  pub struct-Decides :
      (fields : Fields) (properties : List PropertyBuilder) (prefix : Bytes)
      → Decides (Follows lib st properties fields) (validate_struct check fields properties prefix)
  unfolding validate_struct
  struct-Decides fields [] prefix = (λ _. no_properties, λ _. refl)
  struct-Decides fields (p ∷ properties) prefix =
      Decides-iff (append_violations (validate_field check (json_key p) fields p prefix) _)
        (Follows-cons_iff lib st p)
        (append_violations-Decides _ _ (validate_field check (json_key p) fields p prefix) _
          (field-Decides (json_key p) fields p prefix) (struct-Decides fields properties prefix))

  as_struct-Decides :
      (properties : List PropertyBuilder) (raw : Any) (path : Bytes)
      → Decides
          (FollowsAsStruct lib st properties raw)
          (validate_as_struct check properties raw path)
  as_struct-Decides properties (Any.object fields) path = struct-Decides fields properties _
  as_struct-Decides properties _ path = mismatch_iff _

  items-Decides :
      (builder : Option PropertyBuilder) (items : Items) (path : Bytes) (i : ℕ)
      → Decides (AcceptsAll lib st builder items) (validate_items check builder items path i)
  unfolding validate_items
  items-Decides builder empty path i = (λ _. no_items, λ _. refl)
  items-Decides none (item raw items) path i = tt
  items-Decides (some builder) (item raw items) path i =
      Decides-iff (append_violations (check builder raw (indexed path i)) _)
        (AcceptsAll-item_iff lib st)
        (append_violations-Decides _ _ (check builder raw (indexed path i)) _
          (right builder raw (indexed path i)) (items-Decides (some builder) items path (suc i)))

  struct_items-Decides :
      (properties : List PropertyBuilder) (items : Items) (path : Bytes) (i : ℕ)
      → Decides
          (FollowsAll lib st properties items)
          (validate_struct_items check properties items path i)
  unfolding validate_struct_items
  struct_items-Decides properties empty path i = (λ _. no_structs, λ _. refl)
  struct_items-Decides properties (item raw items) path i =
      Decides-iff (append_violations (validate_as_struct check properties raw (indexed path i)) _)
        (FollowsAll-item_iff lib st raw)
        (append_violations-Decides _ _ (validate_as_struct check properties raw (indexed path i)) _
          (as_struct-Decides properties raw (indexed path i))
          (struct_items-Decides properties items path (suc i)))

  members-Decides :
      (ref : Option ℕ) (p : PropertyBuilder) (items : Items) (path : Bytes)
      → Decides (HasMembers lib st ref p items) (validate_members check st ref p items path)
  unfolding validate_members
  members-Decides none p items path = items-Decides (item_builder st p.item) items path 0
  members-Decides (some schema) p items path =
      struct_items-Decides (own_properties st schema) items path 0

  array-Decides :
      (p : PropertyBuilder) (raw : Any) (path : Bytes)
      → Decides (IsOfKind lib st Kind.array p raw) (validate_array check st p raw path)
  unfolding validate_array
  array-Decides p (Any.array items) path =
      append_violations-Decides _ _ (done (count_checks p (count_items items) path)) _
        (count_checks_iff p (count_items items) path) (members-Decides p.item_ref p items path)
  array-Decides p _ path = mismatch_iff _

  IsReferred-Decides :
      (ref : Option ℕ) (raw : Any) (path : Bytes)
      → Decides (IsReferred lib st ref raw) (validate_referred check st ref raw path)
  IsReferred-Decides none raw path = (λ _. tt, λ _. refl)
  IsReferred-Decides (some schema) raw path = as_struct-Decides (own_properties st schema) raw path

  open_or_referred-Decides :
      (additional : Bool) (p : PropertyBuilder) (raw : Any) (path : Bytes)
      → Decides
          (IsObject lib st additional p raw)
          (if additional then done [] else validate_referred check st p.ref raw path)
  open_or_referred-Decides true p raw path = (λ _. tt, λ _. refl)
  open_or_referred-Decides false p raw path = IsReferred-Decides p.ref raw path

  kind-Decides :
      (p : PropertyBuilder) (raw : Any) (path : Bytes) (kind : Kind)
      → Decides (IsOfKind lib st kind p raw) (validate_kind check lib st p raw path kind)
  unfolding validate_object
  kind-Decides p raw path Kind.array = array-Decides p raw path
  kind-Decides p raw path Kind.object = open_or_referred-Decides p.additional_properties p raw path
  kind-Decides p raw path Kind.string = IsPrimitive-iff path lib p raw Kind.string
  kind-Decides p raw path Kind.integer = IsPrimitive-iff path lib p raw Kind.integer
  kind-Decides p raw path Kind.number = IsPrimitive-iff path lib p raw Kind.number
  kind-Decides p raw path Kind.boolean = IsPrimitive-iff path lib p raw Kind.boolean
  kind-Decides p raw path Kind.duration = IsPrimitive-iff path lib p raw Kind.duration
  kind-Decides p raw path Kind.unset = IsPrimitive-iff path lib p raw Kind.unset

  filled-Decides :
      (p : PropertyBuilder) (raw : Any) (path : Bytes)
      → raw ≢ nil
      → Decides (Conforms lib st p raw) (validate_kind check lib st p raw path p.kind)
  filled-Decides p raw path filled =
      Decides-iff (validate_kind check lib st p raw path p.kind) (IsOfKind-iff lib st filled)
        (kind-Decides p raw path p.kind)

  null_or-Decides :
      (p : PropertyBuilder) (raw : Any) (path : Bytes)
      → Decides (Conforms lib st p raw) (validate_null_or check lib st p raw path)
  null_or-Decides p nil path =
      done_iff _ (unless-empty_iff p.nullable path Message.cannot_be_null) (null_iff lib st)
  null_or-Decides p _ path = filled-Decides p _ path (λ e. cc)

  custom_violations_iff :
      (result : Result Bytes Any) (path : Bytes)
      → (custom_violations result path ≡ []) ↔ ((value : Any) × (result ≡ ok value))
  custom_violations_iff (ok value) path = (λ _. (value, refl), λ _. refl)
  custom_violations_iff (err reason) path = (λ e. cc, λ (value, e). cc)

  custom_or-Decides :
      (custom : Option (Any → Result Bytes Any)) (p : PropertyBuilder) (raw : Any) (path : Bytes)
      → Decides (IsAccepted lib st custom p raw) (validate_custom_or check custom lib st p raw path)
  custom_or-Decides (some fn) p raw path = custom_violations_iff (fn raw) path
  custom_or-Decides none p raw path = null_or-Decides p raw path

pub value-Decides :
    (lib : Library) (st : Store) (fuel : ℕ) (p : PropertyBuilder) (raw : Any) (path : Bytes)
    → Decides (Accepts lib st p raw) (validate_value lib st fuel p raw path)
unfolding validate_value
value-Decides lib st zero p raw path = tt
value-Decides lib st (suc fuel) p raw path =
    let check = validate_value lib st fuel in
    Decides-iff (validate_custom_or check p.custom lib st p (sanitized p.sanitize raw) path)
      (IsAccepted-iff lib st)
      (custom_or-Decides lib st check (value-Decides lib st fuel) p.custom p
        (sanitized p.sanitize raw) path)

-- A walk of a decoded value that ends with a list of violations has none in it exactly when the value
-- is accepted by the builder: whatever the fuel, the path, the custom functions and the sanitizers.
pub validate_value-Accepts :
    (lib : Library) (st : Store) (fuel : ℕ) (p : PropertyBuilder) (raw : Any) (path : Bytes)
    {violations : List Violation}
    → validate_value lib st fuel p raw path ≡ done violations
    → (violations ≡ []) ↔ Accepts lib st p raw
validate_value-Accepts lib st fuel p raw path ends =
    rw ends at (value-Decides lib st fuel p raw path)

-- ===== src/Validate/Populate.antt =====
-- `setField`, `toFloat64`, `isNumericKind` and `populate`: internal/validate/validate.go.
pub mod Pointer
use Prim.Native.Nat.{◌%◌, ◌^◌}
use gonest.Prelude.{
  ℕ, suc, ◌+◌, ◌-◌, ◌*◌, Bool, true, false, ◌&&◌, Option, none, some, List, [], ◌∷◌, ◌++◌, Result,
  ok, err, ◌>>=◌, if◌then◌else◌, ◌==◌, ltb,
}
use gonest.Prelude.Bytes.{Bytes, text}
use gonest.Prelude.Numbers.{ℤ, pos, negsuc, Float, float_of_int, int_of_float, uint_of_float}
use gonest.Schema.Value.{
  Any, nil, Items, Fields, presence, IntType, int, int8, int16, int32, int64, uint, uint8, uint16,
  uint32, uint64,
}
use gonest.Schema.Property.{PropertyBuilder, StructField, Destination}
use gonest.Validate.Walk.{tag_key_visible, sanitized}

-- The type of a field of the destination. `slice_type` and the next three are by the type's identity,
-- `any_slice` is `[]any` and `any_map` is `map[string]any`; `unsupported` is a channel or a function.
pub data FieldType : Type 0 where
  pointer_type : FieldType → FieldType
  integer_type : IntType → FieldType
  any_type any_slice any_map float32_type float64_type string_type bool_type duration_type :
      FieldType
  slice_type map_type struct_type array_type interface_type : ℕ → FieldType
  unsupported : FieldType

-- What the code calls of the standard library: `time.ParseDuration`, the conversion to float32, a value
-- that encoding/json marshals and unmarshals into another type, and whether the type of a value
-- implements an interface.
pub record Conversions : Type 0 where
  pub parse_duration : Bytes → Option ℤ
  pub narrow : Float → Float
  pub through_json : FieldType → Any → Result Bytes Any
  pub implements : ℕ → Any → Bool

abbrev pub cannot_convert : Bytes
cannot_convert = text "cannot convert"

abbrev is_nilable : FieldType → Bool
is_nilable (pointer_type t) = true
is_nilable any_type = true
is_nilable any_slice = true
is_nilable any_map = true
is_nilable (slice_type t) = true
is_nilable (map_type t) = true
is_nilable (interface_type t) = true
is_nilable _ = false

unfoldable pub to_float64 : Any → Option Float
to_float64 (Any.float64 f) = some f
to_float64 (Any.float32 f) = some f
to_float64 (Any.integer t n) = some (float_of_int n)
to_float64 _ = none

-- The number of values of an integer type, and whether it is signed.
abbrev pub width : IntType → ℕ
width int8 = 2 ^ 8
width uint8 = 2 ^ 8
width int16 = 2 ^ 16
width uint16 = 2 ^ 16
width int32 = 2 ^ 32
width uint32 = 2 ^ 32
width _ = 2 ^ 64

abbrev pub is_signed : IntType → Bool
is_signed uint = false
is_signed uint8 = false
is_signed uint16 = false
is_signed uint32 = false
is_signed uint64 = false
is_signed _ = true

-- The residue of an integer, and the signed integer with that residue.
abbrev residue : ℤ → ℕ → ℕ
residue (pos n) size = n % size
residue (negsuc n) size = size - 1 - n % size

abbrev centred : ℕ → ℕ → ℤ
centred r size = if ltb (2 * r) size then pos r else negsuc (size - 1 - r)

-- `SetInt` and `SetUint` keep the low bits.
unfoldable pub wrapped : IntType → ℤ → ℤ
wrapped t n =
    if is_signed t then centred (residue n (width t)) (width t) else pos (residue n (width t))

unfoldable pub integer_of_float : IntType → Float → ℤ
integer_of_float t f = wrapped t (if is_signed t then int_of_float f else uint_of_float f)

same_int_type : IntType → IntType → Bool
same_int_type int int = true
same_int_type int8 int8 = true
same_int_type int16 int16 = true
same_int_type int32 int32 = true
same_int_type int64 int64 = true
same_int_type uint uint = true
same_int_type uint8 uint8 = true
same_int_type uint16 uint16 = true
same_int_type uint32 uint32 = true
same_int_type uint64 uint64 = true
same_int_type _ _ = false

-- `AssignableTo`, for a value that is not nil and a type that is not a pointer.
unfoldable pub is_assignable : Conversions → FieldType → Any → Bool
unfolding same_int_type
is_assignable conv any_type raw = true
is_assignable conv any_slice (Any.array items) = true
is_assignable conv any_map (Any.object fields) = true
is_assignable conv float64_type (Any.float64 f) = true
is_assignable conv float32_type (Any.float32 f) = true
is_assignable conv string_type (Any.string s) = true
is_assignable conv bool_type (Any.boolean b) = true
is_assignable conv duration_type (Any.duration d) = true
is_assignable conv (integer_type t) (Any.integer u n) = same_int_type t u
is_assignable conv (slice_type t) (Any.other u i) = t == u
is_assignable conv (map_type t) (Any.other u i) = t == u
is_assignable conv (struct_type t) (Any.other u i) = t == u
is_assignable conv (array_type t) (Any.other u i) = t == u
is_assignable conv (interface_type i) raw = conv.implements i raw
is_assignable conv _ raw = false

-- The value that a field is set to, or none for a field that is left as it was.
abbrev pub Written : Type 0
Written = Result Bytes (Option Any)

abbrev pub set_number : (Float → Any) → Option Float → Written
set_number make none = err cannot_convert
set_number make (some f) = ok (some (make f))

abbrev pub set_duration : Option ℤ → Written
set_duration none = err cannot_convert
set_duration (some d) = ok (some (Any.duration d))

-- A duration is of a numeric kind, so what is not a string goes on to the numeric family.
unfoldable pub duration_from : Conversions → Any → Written
duration_from conv (Any.string s) = set_duration (conv.parse_duration s)
duration_from conv raw = set_number (λ f. Any.duration (int_of_float f)) (to_float64 raw)

abbrev round_trip : Result Bytes Any → Written
round_trip (ok value) = ok (some value)
round_trip (err reason) = err reason

-- The branches of `setField` after the test whether the value can be assigned as it is.
unfoldable pub convert_into : Conversions → FieldType → Any → Written
unfolding duration_from
convert_into conv duration_type raw = duration_from conv raw
convert_into conv (integer_type t) raw =
    set_number (λ f. Any.integer t (integer_of_float t f)) (to_float64 raw)
convert_into conv float64_type raw = set_number Any.float64 (to_float64 raw)
convert_into conv float32_type raw = set_number (λ f. Any.float32 (conv.narrow f)) (to_float64 raw)
convert_into conv string_type raw = err cannot_convert
convert_into conv bool_type raw = err cannot_convert
convert_into conv unsupported raw = err cannot_convert
convert_into conv (pointer_type t) raw = err cannot_convert
convert_into conv t raw = round_trip (conv.through_json t raw)

unfoldable pub assign_or : Bool → Any → Written → Written
assign_or true raw otherwise = ok (some raw)
assign_or false raw otherwise = otherwise

abbrev pub pointed : Written → Written
pointed (ok (some value)) = ok (some (Any.pointer value))
pointed (ok none) = ok (some (Any.pointer nil))
pointed (err reason) = err reason

-- `setField` on a value that is not nil.
unfoldable pub set_filled : Conversions → FieldType → Any → Written
unfolding assign_or
set_filled conv (pointer_type t) raw = pointed (set_filled conv t raw)
set_filled conv t raw = assign_or (is_assignable conv t raw) raw (convert_into conv t raw)

unfoldable pub set_type : Conversions → FieldType → Any → Written
unfolding set_filled
set_type conv t nil = if is_nilable t then ok (some nil) else ok none
set_type conv t raw = set_filled conv t raw

-- A field of the destination.
pub record Slot : Type 0 where
  pub can_set : Bool
  pub field_type : FieldType

-- `setField`
unfoldable pub set_field : Conversions → Slot → Any → Written
unfolding set_type
set_field conv slot raw =
    if slot.can_set then set_type conv slot.field_type raw else err (text "field is not settable")

abbrev pub written : List ℕ → Option Any → Destination
written index none = []
written index (some value) = (index, value) ∷ []

abbrev pub transformed : Option (Any → Result Bytes Any) → Any → Result Bytes Any
transformed none raw = ok raw
transformed (some fn) raw = fn raw

-- What `populate` does with one value: `Sanitize`, `Custom` and the write.
unfoldable pub populate_field :
    Conversions → (List ℕ → Slot) → PropertyBuilder → Any → Result Bytes Destination
populate_field conv slots p raw = transformed p.custom (sanitized p.sanitize raw) >>= λ value.
    set_field conv (slots p.field.index) value >>= λ result. ok (written p.field.index result)

abbrev pub populate_present :
    Conversions → (List ℕ → Slot) → PropertyBuilder → Option Any → Result Bytes Destination
populate_present conv slots p none = ok []
populate_present conv slots p (some raw) = populate_field conv slots p raw

abbrev pub populate_visible :
    Conversions
    → (List ℕ → Slot)
    → PropertyBuilder
    → Option Bytes
    → Fields
    → Result Bytes Destination
populate_visible conv slots p none fields = ok []
populate_visible conv slots p (some key) fields =
    populate_present conv slots p (presence fields key)

-- The writes of all properties, in their order.
unfoldable pub populate :
    Conversions → (List ℕ → Slot) → Fields → List PropertyBuilder → Bytes → Result Bytes Destination
populate conv slots fields [] tag = ok []
populate conv slots fields (p ∷ properties) tag =
    populate_visible conv slots p (tag_key_visible p.field tag) fields >>= λ first.
    populate conv slots fields properties tag >>= λ rest. ok (first ++ rest)

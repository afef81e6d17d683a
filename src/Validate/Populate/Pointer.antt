-- ===== src/Validate/Populate/Pointer.antt =====
-- What `setField` does with a value that is a pointer already.
use gonest.Prelude.{true, ◌≡◌, refl, err}
use gonest.Schema.Value.{Any}
use gonest.Validate.Populate.{
  FieldType, pointer_type, integer_type, float32_type, float64_type, string_type, bool_type,
  duration_type, Conversions, cannot_convert, set_filled, set_type, set_field, Slot, assign_or,
  is_assignable, convert_into, duration_from, to_float64,
}

abbrev pub IsScalar : FieldType → Type 0
IsScalar string_type = Unit
IsScalar bool_type = Unit
IsScalar duration_type = Unit
IsScalar float32_type = Unit
IsScalar float64_type = Unit
IsScalar (integer_type t) = Unit
IsScalar _ = ⊥

filled_pointer-refused :
    (conv : Conversions) (t : FieldType) (target : Any)
    → IsScalar t
    → set_filled conv (pointer_type t) (Any.pointer target) ≡ err cannot_convert
unfolding set_filled assign_or is_assignable convert_into duration_from to_float64
filled_pointer-refused conv string_type target scalar = refl
filled_pointer-refused conv bool_type target scalar = refl
filled_pointer-refused conv duration_type target scalar = refl
filled_pointer-refused conv float32_type target scalar = refl
filled_pointer-refused conv float64_type target scalar = refl
filled_pointer-refused conv (integer_type t) target scalar = refl
filled_pointer-refused conv _ target scalar = absurd scalar

-- A pointer to a scalar, such as a custom function returns for a field of exactly that type, is refused
-- by a field whose type is a pointer to a scalar.
pub set_field-pointer :
    (conv : Conversions) (slot : Slot) (t : FieldType) (target : Any)
    → slot.can_set ≡ true
    → slot.field_type ≡ pointer_type t
    → IsScalar t
    → set_field conv slot (Any.pointer target) ≡ err cannot_convert
unfolding set_field set_type
set_field-pointer conv slot t target can_set typed scalar =
    simp (can_set, typed, filled_pointer-refused conv t target scalar) refl

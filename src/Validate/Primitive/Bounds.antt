-- ===== src/Validate/Primitive/Bounds.antt =====
-- What the bounds of a property do not keep out.
use gonest.Prelude.{Bool, true, false, not, Option, none, some, [], ◌≡◌, refl, ap}
use gonest.Prelude.Bytes.{Bytes}
use gonest.Prelude.Numbers.{ℤ, Float, nan, float_lt, float_of_int}
use gonest.Schema.Value.{Any}
use gonest.Schema.Property.{PropertyBuilder, Kind}
use gonest.Validate.Primitive.{
  Library, check_bound, validate_primitive, validate_number, number_checks,
}
use gonest.Validate.Violation.{Message}

check_bound-holds :
    {A : Type 0} (bound : Option A) (test : A → Bool) (path : Bytes) (message : A → Message)
    → ((a : A) → test a ≡ true)
    → check_bound bound test path message ≡ []
check_bound-holds none test path message holds = refl
check_bound-holds (some a) test path message holds = rw (holds a) refl

nan-float_lt : (bound : ℤ) → float_lt nan (float_of_int bound) ≡ false
unfolding float_lt
nan-float_lt bound = refl

float_lt-nan : (f : Float) → float_lt f nan ≡ false
unfolding float_lt
float_lt-nan (Float.finite m s) = refl
float_lt-nan (Float.infinity true) = refl
float_lt-nan (Float.infinity false) = refl
float_lt-nan nan = refl

-- Not-a-number, which `strconv.ParseFloat` reads from the text `NaN` of a query, a header or a variable,
-- is accepted by a property of kind "number" without `Enum`, whatever its `Min` and `Max` are.
pub validate_primitive-nan :
    (lib : Library) (p : PropertyBuilder) (path : Bytes)
    → p.enum_int_set ≡ false
    → validate_primitive lib p (Any.float64 nan) path Kind.number ≡ []
unfolding validate_primitive validate_number number_checks
validate_primitive-nan lib p path no_enum =
    simp
      (
        check_bound-holds p.min _ path Message.at_least (λ min. ap not (nan-float_lt min)),
        check_bound-holds p.max _ path Message.at_most
            (λ max. ap not (float_lt-nan (float_of_int max))),
        no_enum,
      )
      refl

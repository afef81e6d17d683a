-- ===== src/Validate/Primitive.antt =====
-- `validatePrimitive` and its helpers: internal/validate/validate.go.
pub mod Decides
pub mod Paths
pub mod Bounds
use gonest.Prelude.{
  Bool, true, false, not, ◌&&◌, ◌||◌, Option, none, some, List, [], ◌∷◌, ◌++◌, length,
  if◌then◌else◌,
}
use gonest.Prelude.Bytes.{Bytes, bytes_eq}
use gonest.Prelude.Numbers.{
  ℤ, pos, int_lt, int_eq, Float, float_lt, float_eq, float_of_int, int_of_float,
}
use gonest.Schema.Value.{Any}
use gonest.Schema.Property.{PropertyBuilder, Kind, enum_string_values, enum_int_values}
use gonest.Validate.Violation.{Violation, Message}

-- What the code calls of the standard library: `regexp.Compile` with `MatchString`,
-- `time.ParseDuration`, whose result is in nanoseconds, and `strconv.ParseFloat`.
pub record Library : Type 0 where
  pub compile : Bytes → Option (Bytes → Bool)
  pub parse_duration : Bytes → Option ℤ
  pub parse_float : Bytes → Option Float

unfoldable pub string_slice_contains : List Bytes → Bytes → Bool
string_slice_contains [] s = false
string_slice_contains (v ∷ allowed) s =
    if bytes_eq v s then true else string_slice_contains allowed s

unfoldable pub int64_slice_contains : List ℤ → ℤ → Bool
int64_slice_contains [] n = false
int64_slice_contains (v ∷ allowed) n = if int_eq v n then true else int64_slice_contains allowed n

-- A check that appends one violation or none.
abbrev pub unless : Bool → Bytes → Message → List Violation
unless true path message = []
unless false path message = record { at = path; message = message } ∷ []

-- `if bound, ok := ...; ok && fails(bound)`
abbrev pub holds_for {ℓ} : {A : Type ℓ} → Option A → (A → Bool) → Bool
holds_for none test = true
holds_for (some bound) test = test bound

abbrev pub check_bound {ℓ} :
    {A : Type ℓ} → Option A → (A → Bool) → Bytes → (A → Message) → List Violation
check_bound none test path message = []
check_bound (some bound) test path message = unless (test bound) path (message bound)

abbrev compiled_matches : Option (Bytes → Bool) → Bytes → Bool
compiled_matches none s = true
compiled_matches (some matches) s = matches s

-- No pattern, and a pattern that does not compile, are no constraint.
abbrev pub matches_pattern : Library → Bytes → Bytes → Bool
matches_pattern lib [] s = true
matches_pattern lib (c ∷ pattern) s = compiled_matches (lib.compile (c ∷ pattern)) s

unfoldable pub validate_string : Library → PropertyBuilder → Any → Bytes → List Violation
validate_string lib p (Any.string s) path =
    check_bound p.min (λ min. not (int_lt (pos (length s)) min)) path Message.length_at_least
    ++ (check_bound p.max (λ max. not (int_lt max (pos (length s)))) path Message.length_at_most
        ++ (unless (matches_pattern lib p.pattern s) path (Message.must_match p.pattern)
            ++ check_bound (enum_string_values p) (λ allowed. string_slice_contains allowed s) path
                Message.one_of_strings))
validate_string lib p raw path = record { at = path; message = Message.expected_string } ∷ []

unfoldable pub number_checks : PropertyBuilder → Float → Bytes → List Violation
number_checks p f path =
    check_bound p.min (λ min. not (float_lt f (float_of_int min))) path Message.at_least
    ++ (check_bound p.max (λ max. not (float_lt (float_of_int max) f)) path Message.at_most
        ++ check_bound (enum_int_values p)
            (λ allowed. int64_slice_contains allowed (int_of_float f)) path Message.one_of_ints)

-- `f == float64(int64(f))`
unfoldable pub is_integral : Float → Bool
is_integral f = float_eq f (float_of_int (int_of_float f))

-- The kinds "integer", which wants an integral number, and "number".
unfoldable pub validate_number : Bool → PropertyBuilder → Any → Bytes → List Violation
unfolding number_checks
validate_number integral p (Any.float64 f) path =
    if integral && not (is_integral f)
    then record { at = path; message = Message.expected_integer } ∷ []
    else number_checks p f path
validate_number integral p raw path = record { at = path; message = Message.expected_number } ∷ []

validate_boolean : Any → Bytes → List Violation
validate_boolean (Any.boolean b) path = []
validate_boolean raw path = record { at = path; message = Message.expected_boolean } ∷ []

duration_checks : PropertyBuilder → Option ℤ → Bytes → List Violation
duration_checks p none path = record { at = path; message = Message.invalid_duration } ∷ []
duration_checks p (some d) path =
    check_bound p.min (λ min. not (int_lt d min)) path Message.duration_at_least
    ++ (check_bound p.max (λ max. not (int_lt max d)) path Message.duration_at_most
        ++ check_bound (enum_int_values p) (λ allowed. int64_slice_contains allowed d) path
            Message.one_of_ints)

validate_duration : Library → PropertyBuilder → Any → Bytes → List Violation
unfolding duration_checks
validate_duration lib p (Any.string s) path = duration_checks p (lib.parse_duration s) path
validate_duration lib p raw path = record { at = path; message = Message.expected_string } ∷ []

unfoldable pub validate_primitive : Library → PropertyBuilder → Any → Bytes → Kind → List Violation
unfolding validate_string validate_number validate_boolean validate_duration
validate_primitive lib p raw path Kind.string = validate_string lib p raw path
validate_primitive lib p raw path Kind.integer = validate_number true p raw path
validate_primitive lib p raw path Kind.number = validate_number false p raw path
validate_primitive lib p raw path Kind.boolean = validate_boolean raw path
validate_primitive lib p raw path Kind.duration = validate_duration lib p raw path
validate_primitive lib p raw path _ = []

-- ===== src/Validate/Primitive/Paths.antt =====
-- The checks of a primitive value report at the path that they are given, and look at nothing else of it.
use gonest.Prelude.{
  Bool, true, false, not, ◌&&◌, Option, none, some, List, [], ◌∷◌, ◌++◌, ◌≡◌, refl, if◌then◌else◌,
}
use gonest.Prelude.Bytes.{Bytes}
use gonest.Prelude.Numbers.{ℤ, Float}
use gonest.Schema.Value.{Any}
use gonest.Schema.Property.{PropertyBuilder, Kind, enum_string_values, enum_int_values}
use gonest.Validate.Violation.{Violation, Message}
use gonest.Validate.Primitive.{
  Library, unless, check_bound, is_integral, validate_primitive, validate_string, validate_number,
  validate_boolean, validate_duration, number_checks, duration_checks,
}

-- The same violations below another path.
abbrev pub relocate : Bytes → List Violation → List Violation
relocate prefix [] = []
relocate prefix (v ∷ violations) =
    record { at = prefix ++ v.at; message = v.message } ∷ relocate prefix violations

module _ (prefix : Bytes) where
  relocate-append :
      (xs ys : List Violation)
      → relocate prefix (xs ++ ys) ≡ relocate prefix xs ++ relocate prefix ys
  relocate-append [] ys = refl
  relocate-append (x ∷ xs) ys = let e = relocate-append xs ys in cc

  pub append-relocate :
      {left right : List Violation} (xs ys : List Violation)
      → left ≡ relocate prefix xs
      → right ≡ relocate prefix ys
      → (left ++ right) ≡ relocate prefix (xs ++ ys)
  append-relocate xs ys first rest = let e = relocate-append xs ys in cc

  pub unless-relocate :
      (test : Bool) (path : Bytes) (message : Message)
      → unless test (prefix ++ path) message ≡ relocate prefix (unless test path message)
  unless-relocate true path message = refl
  unless-relocate false path message = refl

  pub check_bound-relocate {ℓ} :
      {A : Type ℓ} (bound : Option A) (test : A → Bool) (path : Bytes) (message : A → Message)
      → check_bound bound test (prefix ++ path) message
        ≡ relocate prefix (check_bound bound test path message)
  check_bound-relocate none test path message = refl
  check_bound-relocate (some a) test path message = unless-relocate (test a) path (message a)

  number_checks-relocate :
      (p : PropertyBuilder) (f : Float) (path : Bytes)
      → number_checks p f (prefix ++ path) ≡ relocate prefix (number_checks p f path)
  unfolding number_checks
  number_checks-relocate p f path = append-relocate _ _ (check_bound-relocate p.min _ path _) (
      append-relocate _ _ (check_bound-relocate p.max _ path _)
        (check_bound-relocate (enum_int_values p) _ path _))

  integral-relocate :
      (p : PropertyBuilder) (f : Float) (path : Bytes) (wrong : Bool)
      → (if wrong
          then record { at = prefix ++ path; message = Message.expected_integer } ∷ []
          else number_checks p f (prefix ++ path))
        ≡ relocate prefix (
            if wrong
            then record { at = path; message = Message.expected_integer } ∷ []
            else number_checks p f path)
  integral-relocate p f path true = refl
  integral-relocate p f path false = number_checks-relocate p f path

  duration_checks-relocate :
      (p : PropertyBuilder) (d : Option ℤ) (path : Bytes)
      → duration_checks p d (prefix ++ path) ≡ relocate prefix (duration_checks p d path)
  unfolding duration_checks
  duration_checks-relocate p none path = refl
  duration_checks-relocate p (some d) path =
      append-relocate _ _ (check_bound-relocate p.min _ path _) (
        append-relocate _ _ (check_bound-relocate p.max _ path _)
          (check_bound-relocate (enum_int_values p) _ path _))

  string-relocate :
      (lib : Library) (p : PropertyBuilder) (raw : Any) (path : Bytes)
      → validate_string lib p raw (prefix ++ path)
        ≡ relocate prefix (validate_string lib p raw path)
  unfolding validate_string
  string-relocate lib p (Any.string s) path =
      append-relocate _ _ (check_bound-relocate p.min _ path _) (
        append-relocate _ _ (check_bound-relocate p.max _ path _) (
          append-relocate _ _ (unless-relocate _ path _)
            (check_bound-relocate (enum_string_values p) _ path _)))
  string-relocate lib p _ path = refl

  number-relocate :
      (integral : Bool) (p : PropertyBuilder) (raw : Any) (path : Bytes)
      → validate_number integral p raw (prefix ++ path)
        ≡ relocate prefix (validate_number integral p raw path)
  unfolding validate_number
  number-relocate integral p (Any.float64 f) path =
      integral-relocate p f path (integral && not (is_integral f))
  number-relocate integral p _ path = refl

  boolean-relocate :
      (raw : Any) (path : Bytes)
      → validate_boolean raw (prefix ++ path) ≡ relocate prefix (validate_boolean raw path)
  unfolding validate_boolean
  boolean-relocate (Any.boolean b) path = refl
  boolean-relocate _ path = refl

  duration-relocate :
      (lib : Library) (p : PropertyBuilder) (raw : Any) (path : Bytes)
      → validate_duration lib p raw (prefix ++ path)
        ≡ relocate prefix (validate_duration lib p raw path)
  unfolding validate_duration
  duration-relocate lib p (Any.string s) path =
      duration_checks-relocate p (lib.parse_duration s) path
  duration-relocate lib p _ path = refl

  pub primitive-relocate :
      (lib : Library) (p : PropertyBuilder) (raw : Any) (path : Bytes) (kind : Kind)
      → validate_primitive lib p raw (prefix ++ path) kind
        ≡ relocate prefix (validate_primitive lib p raw path kind)
  unfolding validate_primitive
  primitive-relocate lib p raw path Kind.string = string-relocate lib p raw path
  primitive-relocate lib p raw path Kind.integer = number-relocate true p raw path
  primitive-relocate lib p raw path Kind.number = number-relocate false p raw path
  primitive-relocate lib p raw path Kind.boolean = boolean-relocate raw path
  primitive-relocate lib p raw path Kind.duration = duration-relocate lib p raw path
  primitive-relocate lib p raw path _ = refl

-- ===== src/Validate/Primitive/Decides.antt =====
-- The checks of a primitive value leave no violation exactly when the value is what the kind wants.
use gonest.Prelude.{
  Bool, true, false, not, ◌&&◌, Option, none, some, List, [], ◌∷◌, ◌++◌, ◌≡◌, refl, ◌↔◌, ◌⊎◌, inl,
  inr, arith, length, if◌then◌else◌,
}
use gonest.Prelude.Bytes.{Bytes, bytes_eq, bytes_eq_sound, bytes_eq_refl}
use gonest.Prelude.Numbers.{ℤ, pos, negsuc, int_lt, int_eq, Float, int_of_float}
use gonest.Schema.Value.{Any}
use gonest.Schema.Property.{PropertyBuilder, Kind, enum_string_values, enum_int_values}
use gonest.Validate.Violation.{Violation, Message}
use gonest.Validate.Primitive.{
  Library, string_slice_contains, int64_slice_contains, unless, check_bound, matches_pattern,
  compiled_matches, is_integral, validate_primitive, validate_string, validate_number,
  validate_boolean, validate_duration, number_checks, duration_checks,
}
use gonest.Validate.Conforms.{
  IntLe, Every, Listed, Matches, IsText, IsNumber, IsDuration, IsPrimitive,
}

pub append-empty_iff :
    {G H : Type 0} (xs ys : List Violation)
    → (xs ≡ []) ↔ G
    → (ys ≡ []) ↔ H
    → ((xs ++ ys) ≡ []) ↔ (G × H)
append-empty_iff [] ys left right = (λ e. (left.0 refl, right.0 e), λ both. right.1 both.1)
append-empty_iff (x ∷ xs) ys left right = (λ e. cc, λ both. let e = left.1 both.0 in cc)

pub unless-empty_iff :
    (test : Bool) (path : Bytes) (message : Message)
    → (unless test path message ≡ []) ↔ (test ≡ true)
unless-empty_iff true path message = (λ _. refl, λ _. refl)
unless-empty_iff false path message = (λ e. cc, λ e. cc)

pub check_bound-empty_iff {ℓ} :
    {A : Type ℓ} (bound : Option A) (test : A → Bool) (path : Bytes) (message : A → Message)
    (P : A → Type 0)
    → ((a : A) → (test a ≡ true) ↔ P a)
    → (check_bound bound test path message ≡ []) ↔ Every bound P
check_bound-empty_iff none test path message P right = (λ _. tt, λ _. refl)
check_bound-empty_iff (some a) test path message P right =
    let e = unless-empty_iff (test a) path (message a) in
    (λ h. (right a).0 (e.0 h), λ h. e.1 ((right a).1 h))

pub int_lt_iff : (a b : ℤ) → (not (int_lt b a) ≡ true) ↔ IntLe a b
int_lt_iff (pos a) (pos b) = ground arith
int_lt_iff (pos a) (negsuc b) = ground arith
int_lt_iff (negsuc a) (pos b) = ground arith
int_lt_iff (negsuc a) (negsuc b) = ground arith

not_iff : (b : Bool) → (not b ≡ true) ↔ (b ≡ false)
not_iff true = (λ e. cc, λ e. cc)
not_iff false = (λ _. refl, λ _. refl)

int_eq_iff : (a b : ℤ) → (int_eq a b ≡ true) ↔ (a ≡ b)
int_eq_iff (pos a) (pos b) = (λ e. let k : a ≡ b = ground arith in cc, λ e. ground arith)
int_eq_iff (pos a) (negsuc b) = (λ e. cc, λ e. cc)
int_eq_iff (negsuc a) (pos b) = (λ e. cc, λ e. cc)
int_eq_iff (negsuc a) (negsuc b) = (λ e. let k : a ≡ b = ground arith in cc, λ e. ground arith)

bytes_eq_iff : (s t : Bytes) → (bytes_eq s t ≡ true) ↔ (s ≡ t)
bytes_eq_iff s t = (bytes_eq_sound s t, λ e. rw (e, bytes_eq_refl t))

-- Both searches of a list look for an equal element.
if-or_iff :
    {G H : Type 0} (test rest : Bool)
    → (test ≡ true) ↔ G
    → (rest ≡ true) ↔ H
    → ((if test then true else rest) ≡ true) ↔ (G ⊎ H)
if-or_iff true rest left right = (λ e. inl (left.0 refl), λ _. refl)
if-or_iff false rest left right = (
  λ e. inr (right.0 e),
  λ either. elim either [ inl g ↦ (let e = left.1 g in cc) | inr h ↦ right.1 h ],
)

string_slice_contains_iff :
    (allowed : List Bytes) (s : Bytes) → (string_slice_contains allowed s ≡ true) ↔ Listed s allowed
unfolding string_slice_contains
string_slice_contains_iff [] s = (λ e. cc, λ e. absurd e)
string_slice_contains_iff (v ∷ allowed) s =
    if-or_iff (bytes_eq v s) (string_slice_contains allowed s) (bytes_eq_iff v s)
      (string_slice_contains_iff allowed s)

int64_slice_contains_iff :
    (allowed : List ℤ) (n : ℤ) → (int64_slice_contains allowed n ≡ true) ↔ Listed n allowed
unfolding int64_slice_contains
int64_slice_contains_iff [] n = (λ e. cc, λ e. absurd e)
int64_slice_contains_iff (v ∷ allowed) n =
    if-or_iff (int_eq v n) (int64_slice_contains allowed n) (int_eq_iff v n)
      (int64_slice_contains_iff allowed n)

module _ (path : Bytes) where
  within_iff :
      (p : PropertyBuilder) (n : ℤ) (low high : ℤ → Message) {rest : List Violation} {G : Type 0}
      → (rest ≡ []) ↔ G
      → ((check_bound p.min (λ min. not (int_lt n min)) path low
            ++ (check_bound p.max (λ max. not (int_lt max n)) path high ++ rest))
          ≡ [])
        ↔ (Every p.min (λ min. IntLe min n) × (Every p.max (λ max. IntLe n max) × G))
  within_iff p n low high right =
      append-empty_iff _ _ (check_bound-empty_iff p.min _ path low _ (λ min. int_lt_iff min n)) (
        append-empty_iff _ _ (check_bound-empty_iff p.max _ path high _ (λ max. int_lt_iff n max))
          right)

  enum_ints_iff :
      (p : PropertyBuilder) (n : ℤ)
      → (check_bound
            (enum_int_values p)
            (λ allowed. int64_slice_contains allowed n)
            path
            Message.one_of_ints
          ≡ [])
        ↔ Every (enum_int_values p) (Listed n)
  enum_ints_iff p n =
      check_bound-empty_iff (enum_int_values p) _ path Message.one_of_ints (Listed n)
        (λ allowed. int64_slice_contains_iff allowed n)

  compiled_matches_iff :
      (regex : Option (Bytes → Bool)) (s : Bytes)
      → (compiled_matches regex s ≡ true) ↔ Every regex (λ r. r s ≡ true)
  compiled_matches_iff none s = (λ _. tt, λ _. refl)
  compiled_matches_iff (some regex) s = (λ e. e, λ e. e)

  matches_pattern_iff :
      (lib : Library) (pattern s : Bytes)
      → (matches_pattern lib pattern s ≡ true) ↔ Matches lib pattern s
  matches_pattern_iff lib [] s = (λ _. tt, λ _. refl)
  matches_pattern_iff lib (c ∷ pattern) s = compiled_matches_iff (lib.compile (c ∷ pattern)) s

  pattern_check_iff :
      (lib : Library) (pattern s : Bytes)
      → (unless (matches_pattern lib pattern s) path (Message.must_match pattern) ≡ [])
        ↔ Matches lib pattern s
  pattern_check_iff lib pattern s =
      let e = unless-empty_iff (matches_pattern lib pattern s) path (Message.must_match pattern) in
      let k = matches_pattern_iff lib pattern s in (λ h. k.0 (e.0 h), λ h. e.1 (k.1 h))

  string_iff :
      (lib : Library) (p : PropertyBuilder) (s : Bytes)
      → (validate_string lib p (Any.string s) path ≡ []) ↔ IsText lib p s
  unfolding validate_string
  string_iff lib p s =
      let (to, from) =
        within_iff p (pos (length s)) Message.length_at_least Message.length_at_most (
          append-empty_iff _ _ (pattern_check_iff lib p.pattern s) (
            check_bound-empty_iff (enum_string_values p) _ path Message.one_of_strings _
              (λ allowed. string_slice_contains_iff allowed s))) in
      (
        λ e. let (low, (high, (pattern, enum))) = to e in ((low, high), pattern, enum),
        λ ((low, high), pattern, enum). from (low, (high, (pattern, enum))),
      )

  IsNumber-iff : (p : PropertyBuilder) (f : Float) → (number_checks p f path ≡ []) ↔ IsNumber p f
  unfolding number_checks
  IsNumber-iff p f =
      append-empty_iff _ _
        (check_bound-empty_iff p.min _ path Message.at_least _ (λ min. not_iff _))
        (append-empty_iff _ _
          (check_bound-empty_iff p.max _ path Message.at_most _ (λ max. not_iff _))
          (enum_ints_iff p (int_of_float f)))

  integral_iff :
      (p : PropertyBuilder) (f : Float) (integral : Bool)
      → ((if true && not integral
            then record { at = path; message = Message.expected_integer } ∷ []
            else number_checks p f path)
          ≡ [])
        ↔ ((integral ≡ true) × IsNumber p f)
  integral_iff p f true = (λ e. (refl, (IsNumber-iff p f).0 e), λ both. (IsNumber-iff p f).1 both.1)
  integral_iff p f false = (λ e. cc, λ both. let e = both.0 in cc)

  IsDuration-iff :
      (p : PropertyBuilder) (d : Option ℤ) → (duration_checks p d path ≡ []) ↔ IsDuration p d
  unfolding duration_checks
  IsDuration-iff p none = (λ e. cc, λ e. absurd e)
  IsDuration-iff p (some d) =
      let (to, from) =
        within_iff p d Message.duration_at_least Message.duration_at_most (enum_ints_iff p d) in
      (
        λ e. let (low, (high, enum)) = to e in ((low, high), enum),
        λ ((low, high), enum). from (low, (high, enum)),
      )

  -- A value of another type leaves a violation.
  mismatch_iff : (v : Violation) → ((v ∷ []) ≡ []) ↔ ⊥
  mismatch_iff v = (λ e. cc, λ e. absurd e)

  text_iff :
      (lib : Library) (p : PropertyBuilder) (raw : Any)
      → (validate_string lib p raw path ≡ []) ↔ IsPrimitive lib p Kind.string raw
  unfolding validate_string
  text_iff lib p (Any.string s) = string_iff lib p s
  text_iff lib p _ = mismatch_iff _

  integer_iff :
      (lib : Library) (p : PropertyBuilder) (raw : Any)
      → (validate_number true p raw path ≡ []) ↔ IsPrimitive lib p Kind.integer raw
  unfolding validate_number
  integer_iff lib p (Any.float64 f) = integral_iff p f (is_integral f)
  integer_iff lib p _ = mismatch_iff _

  any_number_iff :
      (lib : Library) (p : PropertyBuilder) (raw : Any)
      → (validate_number false p raw path ≡ []) ↔ IsPrimitive lib p Kind.number raw
  unfolding validate_number
  any_number_iff lib p (Any.float64 f) = IsNumber-iff p f
  any_number_iff lib p _ = mismatch_iff _

  boolean_iff :
      (lib : Library) (p : PropertyBuilder) (raw : Any)
      → (validate_boolean raw path ≡ []) ↔ IsPrimitive lib p Kind.boolean raw
  unfolding validate_boolean
  boolean_iff lib p (Any.boolean b) = (λ _. tt, λ _. refl)
  boolean_iff lib p _ = mismatch_iff _

  any_duration_iff :
      (lib : Library) (p : PropertyBuilder) (raw : Any)
      → (validate_duration lib p raw path ≡ []) ↔ IsPrimitive lib p Kind.duration raw
  unfolding validate_duration
  any_duration_iff lib p (Any.string s) = IsDuration-iff p (lib.parse_duration s)
  any_duration_iff lib p _ = mismatch_iff _

  pub IsPrimitive-iff :
      (lib : Library) (p : PropertyBuilder) (raw : Any) (kind : Kind)
      → (validate_primitive lib p raw path kind ≡ []) ↔ IsPrimitive lib p kind raw
  unfolding validate_primitive
  IsPrimitive-iff lib p raw Kind.string = text_iff lib p raw
  IsPrimitive-iff lib p raw Kind.integer = integer_iff lib p raw
  IsPrimitive-iff lib p raw Kind.number = any_number_iff lib p raw
  IsPrimitive-iff lib p raw Kind.boolean = boolean_iff lib p raw
  IsPrimitive-iff lib p raw Kind.duration = any_duration_iff lib p raw
  IsPrimitive-iff lib p raw Kind.unset = (λ _. tt, λ _. refl)
  IsPrimitive-iff lib p raw Kind.array = (λ _. tt, λ _. refl)
  IsPrimitive-iff lib p raw Kind.object = (λ _. tt, λ _. refl)

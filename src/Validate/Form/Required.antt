-- ===== src/Validate/Form/Required.antt =====
-- A form field that cannot be read as its kind is reported twice, also as missing.
use gonest.Prelude.{
  Bool, true, false, Option, none, some, List, [], ◌∷◌, ◌++◌, ◌≡◌, refl, ◌⊎◌, inl, inr, ok, err,
  if◌then◌else◌,
}
use gonest.Prelude.Bytes.{Bytes, bytes_eq, bytes_eq_sound}
use gonest.Schema.Value.{Any, Fields, presence}
use gonest.Schema.Property.{PropertyBuilder}
use gonest.Validate.Violation.{Violation, Message, done}
use gonest.Validate.Primitive.{Library}
use gonest.Validate.Conforms.{Listed}
use gonest.Validate.Walk.{Checker, required_unless_optional}
use gonest.Validate.Source.{coerce_param_string, collect_given, check_text}
use gonest.Validate.Form.{
  value, ByKey, find_key, Gathered, onward, read_part, read_known, read_contents,
  required_if_absent, missing_required,
}

abbrev pub missing_at : Bytes → Violation
missing_at key = record { at = key; message = Message.required }

append-Listed-left : (v : Violation) (xs ys : List Violation) → Listed v xs → Listed v (xs ++ ys)
append-Listed-left v [] ys listed = absurd listed
append-Listed-left v (x ∷ xs) ys listed = elim listed [
  | inl e ↦ inl e
  | inr rest ↦ inr (append-Listed-left v xs ys rest)
]

append-Listed-right : (v : Violation) (xs ys : List Violation) → Listed v ys → Listed v (xs ++ ys)
append-Listed-right v [] ys listed = listed
append-Listed-right v (x ∷ xs) ys listed = inr (append-Listed-right v xs ys listed)

required-Listed :
    (required : Bool) (key : Bytes)
    → required ≡ true
    → Listed (missing_at key) (required_unless_optional required key)
required-Listed true key e = inl refl
required-Listed false key e = cc

absent-Listed :
    (given : Option Any) (p : PropertyBuilder) (key : Bytes)
    → given ≡ none
    → p.required ≡ true
    → Listed (missing_at key) (required_if_absent given p key)
absent-Listed none p key e required = required-Listed p.required key required
absent-Listed (some raw) p key e required = cc

if-some :
    {A : Type 0} {a b : A} {rest : Option A} (test : Bool)
    → (if test then some a else rest) ≡ some b
    → ((test ≡ true) × (a ≡ b)) ⊎ (rest ≡ some b)
if-some true e = inl (refl, cc)
if-some false e = inr e

missing_required-Listed :
    (by_key : ByKey) (fields : Fields) (key : Bytes) (p : PropertyBuilder)
    → find_key by_key key ≡ some p
    → presence fields key ≡ none
    → p.required ≡ true
    → Listed (missing_at key) (missing_required by_key fields)
unfolding missing_required
missing_required-Listed [] fields key p known absent required = cc
missing_required-Listed ((other, q) ∷ by_key) fields key p known absent required =
    elim (if-some (bytes_eq other key) known) [
      | inl (here, same) ↦
          (let e : other ≡ key = bytes_eq_sound other key here in
            let wanted : q.required ≡ true = (rw same required) in
            append-Listed-left (missing_at key) (required_if_absent (presence fields other) q other)
              (missing_required by_key fields)
              (rw e (absent-Listed (presence fields key) q key absent wanted)))
      | inr further ↦
          append-Listed-right (missing_at key) _ _
            (missing_required-Listed by_key fields key p further absent required)
    ]

coerced-turn :
    (lib : Library) (check : Checker) (p : PropertyBuilder) (key raw : Bytes) (m : Message)
    → p.custom ≡ none
    → coerce_param_string lib raw p.kind ≡ err m
    → check_text p.custom lib check p key raw ≡ done (record { at = key; message = m } ∷ [], none)
coerced-turn lib check p key raw m plain malformed = simp (plain, malformed) refl

-- A text field of a form that is known, required, without a custom function and not given before, and
-- whose text is not of its kind: reading it goes on with that violation, and the end of the form then
-- also reports the field as required, though it was given.
pub read_part-missing_required :
    (lib : Library) (check : Checker) (by_key : ByKey) (on_file : Option (Bytes → Option Bytes))
    (key raw : Bytes) (p : PropertyBuilder) (violations : List Violation) (fields : Fields)
    (m : Message)
    → find_key by_key key ≡ some p
    → p.custom ≡ none
    → p.required ≡ true
    → coerce_param_string lib raw p.kind ≡ err m
    → presence fields key ≡ none
    → (state : Gathered) × (read_part lib check by_key on_file
          (value key (ok raw))
          (violations, fields)
        ≡ onward state)
      × Listed (record { at = key; message = m }) state.0
      × Listed (missing_at key) (missing_required by_key state.1)
unfolding read_part read_known read_contents collect_given
read_part-missing_required lib check by_key on_file key raw p violations fields m known plain
      required malformed absent =
    (
      (violations ++ record { at = key; message = m } ∷ [], fields),
      simp (known, coerced-turn lib check p key raw m plain malformed) refl,
      append-Listed-right _ violations _ (inl refl),
      missing_required-Listed by_key fields key p known absent required,
    )

-- ===== src/Validate/Violation.antt =====
-- Violations, and the outcome of a walk over a value: internal/validate/validate.go.
use gonest.Prelude.{ℕ, zero, suc, ◌+◌, List, [], ◌∷◌, ◌++◌, if◌then◌else◌, ◌==◌}
use gonest.Prelude.Bytes.{Bytes, text}
use gonest.Prelude.Numbers.{ℤ}
use Prim.Native.Nat.{◌/◌, ◌%◌}

-- One constructor for each message text of the source, with the values that are printed into it.
pub data Message : Type 0 where
  required cannot_be_null : Message
  expected_string expected_number expected_integer expected_boolean : Message
  expected_array expected_object invalid_duration : Message
  length_at_least length_at_most at_least at_most : ℤ → Message
  duration_at_least duration_at_most items_at_least items_at_most : ℤ → Message
  must_match : Bytes → Message
  one_of_strings : List Bytes → Message
  one_of_ints : List ℤ → Message
  one_of_durations : List ℤ → Message
  not_a_number not_a_boolean : Bytes → Message
  reported : Bytes → Message

pub record Violation : Type 0 where
  pub at : Bytes
  pub message : Message

-- A walk ends with its violations, or with a dereference of a nil builder. Fuel belongs to the model.
pub data Outcome {ℓ} (A : Type ℓ) : Type ℓ where
  done : A → Outcome A
  nil_pointer out_of_fuel : Outcome A

infixl 5 ◌>>=◌
abbrev pub ◌>>=◌ {ℓ κ} : {A : Type ℓ} {B : Type κ} → Outcome A → (A → Outcome B) → Outcome B
done a >>= f = f a
nil_pointer >>= f = nil_pointer
out_of_fuel >>= f = out_of_fuel

-- `violations = append(violations, more...)`
abbrev pub append_violations :
    Outcome (List Violation) → Outcome (List Violation) → Outcome (List Violation)
append_violations first rest = first >>= λ violations. rest >>= λ more. done (violations ++ more)

digits_onto : ℕ → ℕ → Bytes → Bytes
digits_onto zero n tail = tail
digits_onto (suc fuel) n tail =
    let rest = digits_onto fuel (n / 10) ((48 + n % 10) ∷ tail) in
    if n / 10 == 0 then (48 + n % 10) ∷ tail else rest

-- `%d` of an index
unfoldable pub decimal : ℕ → Bytes
unfolding digits_onto
decimal n = digits_onto (suc n) n []

-- `fmt.Sprintf("%s[%d]", path, i)`
unfoldable pub indexed : Bytes → ℕ → Bytes
indexed path i = path ++ (text "[" ++ (decimal i ++ text "]"))

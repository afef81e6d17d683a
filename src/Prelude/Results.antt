-- ===== src/Prelude/Results.antt =====
-- Code that returns an error or panics: a result, beside the state where the code has written to it.
use mathlib.Core.Logic.{◌≢◌}
use mathlib.Core.Option.{some}
use mathlib.Core.Path.{◌≡◌, refl}

pub data Result {ℓ κ} (E : Type ℓ) (A : Type κ) : Type (ℓ ⊔ κ) where
  ok : A → Result E A
  err : E → Result E A

module _ {ℓ κ μ} {E : Type ℓ} {A : Type κ} {B : Type μ} where
  infixl 5 ◌>>=◌
  abbrev pub ◌>>=◌ : Result E A → (A → Result E B) → Result E B
  ◌>>=◌ (err failure) next = err failure
  ◌>>=◌ (ok value) next = next value

  -- A chain that succeeds went through its first part.
  pub bind-eq-ok :
      (first : Result E A) (next : A → Result E B) {result : B}
      → (first >>= next) ≡ ok result
      → (value : A) × (first ≡ ok value) × (next value ≡ ok result)
  bind-eq-ok (err failure) next chained = cc
  bind-eq-ok (ok value) next chained = (value, refl, chained)

pub ok-injective {ℓ κ} :
    {E : Type ℓ} {A : Type κ} {a b : A} → ◌≡◌ {A = Result E A} (ok a) (ok b) → a ≡ b
ok-injective p = cc

-- A chain fails with an error only if one of its parts does.
pub bind-ne-err {ℓ κ μ} :
    {E : Type ℓ} {A : Type κ} {B : Type μ} (m : Result E A) (f : A → Result E B) {e : E}
    → m ≢ err e
    → ((a : A) → m ≡ ok a → f a ≢ err e)
    → (m >>= f) ≢ err e
bind-ne-err (ok a) f first rest = rest a refl
bind-ne-err (err x) f first rest = λ p. first cc

pub some-injective {ℓ} : {A : Type ℓ} {a b : A} → some a ≡ some b → a ≡ b
some-injective p = cc

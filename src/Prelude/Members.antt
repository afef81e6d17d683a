-- ===== src/Prelude/Members.antt =====
-- Lists of identities (pointers are numbers): membership as a test, and lists without repetition.
use Prim.Native.Nat.{ℕ}
use mathlib.Core.Path.{◌≡◌, refl}
use mathlib.Core.Logic.{◌⊎◌}
use mathlib.Core.Bool.{Bool, true, false, ◌||◌}
use mathlib.Core.List.{List, [], ◌∷◌, ◌++◌}
use native.Mathlib.Omega.{arith}
use gonest.Prelude.Tests.{◌==◌}

abbrev pub contains : List ℕ → ℕ → Bool
contains [] a = false
contains (x ∷ xs) a = a == x || contains xs a

pub contains-append :
    (xs ys : List ℕ) (a : ℕ) → contains (xs ++ ys) a ≡ (contains xs a || contains ys a)
contains-append [] ys a = refl
contains-append (x ∷ xs) ys a = ground (arith, contains-append xs ys a)

-- Every element of the first list is in the second.
abbrev pub Within : List ℕ → List ℕ → Type 0
Within xs ys = (a : ℕ) → contains xs a ≡ true → contains ys a ≡ true

abbrev pub IsUnique : List ℕ → Type 0
IsUnique [] = Unit
IsUnique (x ∷ xs) = (contains xs x ≡ false) × IsUnique xs

pub IsUnique-snoc :
    (xs : List ℕ) (a : ℕ) → IsUnique xs → contains xs a ≡ false → IsUnique (xs ++ a ∷ [])
IsUnique-snoc [] a u h = (refl, tt)
IsUnique-snoc (x ∷ xs) a u h =
    (ground (arith, contains-append xs (a ∷ []) x), IsUnique-snoc xs a u.1 (ground arith))

pub contains-cons_cases :
    (x : ℕ) (xs : List ℕ) (a : ℕ) → contains (x ∷ xs) a ≡ true → (a ≡ x) ⊎ (contains xs a ≡ true)
contains-cons_cases x xs a h = ground arith

pub contains-append_cases :
    (xs ys : List ℕ) (a : ℕ)
    → contains (xs ++ ys) a ≡ true
    → (contains xs a ≡ true) ⊎ (contains ys a ≡ true)
contains-append_cases xs ys a h = ground (arith, contains-append xs ys a)

pub contains_self : (x : ℕ) (xs : List ℕ) → contains (x ∷ xs) x ≡ true
contains_self x xs = ground arith

-- ===== src/Di/Resolve.antt =====
-- `Find`: the provider that resolves a type for a module (internal/resolver/resolver.go).
pub mod Visible
use gonest.Prelude.{ℕ, List, [], ◌∷◌, Option, none, some, Result, ok, err, ◌==◌, if◌then◌else◌}
use gonest.Di.Assemble.{Heap}
use gonest.Di.Exports.{effective_exports}

-- The panics of `Find`; `out_of_fuel` is the model's own.
pub data FindError : Type 0 where
  not_exported : (target imported : ℕ) → FindError
  no_provider : (target : ℕ) → FindError
  out_of_fuel : FindError

-- `resolved_type` is the `ResolvedType()` of a provider; a `reflect.Type` is a number.
module _ (resolved_type : ℕ → ℕ) where
  -- `for _, p := range ps { if p.ResolvedType() == target { return p } }`
  unfoldable pub first_of_type : ℕ → List ℕ → Option ℕ
  first_of_type target [] = none
  first_of_type target (p ∷ ps) =
      if resolved_type p == target then some p else first_of_type target ps

module _ (resolved_type : ℕ → ℕ) (fuel : ℕ) (heap : Heap) (target : ℕ) where
  unfoldable pub find_own : ℕ → Option ℕ
  unfolding first_of_type
  find_own m = first_of_type resolved_type target (heap m).providers

  -- An import that does not export the type: a panic if it has the type, else the next import.
  hidden : ℕ → Option ℕ → Result FindError ℕ → Result FindError ℕ
  hidden imported (some p) rest = err (not_exported target imported)
  hidden imported none rest = rest

  exported_or : ℕ → Option ℕ → Result FindError ℕ → Result FindError ℕ
  unfolding hidden find_own
  exported_or imported (some p) rest = ok p
  exported_or imported none rest = hidden imported (find_own imported) rest

  pub find_exported : ℕ → Option (List ℕ) → Result FindError ℕ → Result FindError ℕ
  unfolding exported_or first_of_type
  find_exported imported none rest = err out_of_fuel
  find_exported imported (some ps) rest =
      exported_or imported (first_of_type resolved_type target ps) rest

  pub search_imports : List ℕ → Result FindError ℕ
  unfolding find_exported
  search_imports [] = err (no_provider target)
  search_imports (imported ∷ imports) =
      find_exported imported (effective_exports fuel heap imported) (search_imports imports)

  unfoldable pub find : ℕ → Result FindError ℕ
  unfolding find_own search_imports effective_exports
  find owner = elim (find_own owner) [ some p ↦ ok p | none ↦ search_imports (heap owner).imports ]

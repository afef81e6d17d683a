-- ===== src/Di/Direct.antt =====
-- `FindDirect`: the value that resolves a type in a scope of modules, after the providers have been
-- constructed (internal/resolver/direct.go).
pub mod Candidates
pub mod Single
use gonest.Prelude.{ℕ, List, [], ◌∷◌, Option, none, some, ◌==◌, if◌then◌else◌}
use gonest.Di.Assemble.{Heap}
use gonest.Di.Exports.{effective_exports, add_all}

infixl 5 ◌>>=◌
abbrev pub ◌>>=◌ : Option (List ℕ) → (List ℕ → Option (List ℕ)) → Option (List ℕ)
none >>= f = none
some a >>= f = f a

module _ (fuel : ℕ) (heap : Heap) where
  -- `for _, imported := range m.ImportedModules()`
  add_imports : List ℕ → List ℕ → Option (List ℕ)
  unfolding add_all
  add_imports out [] = some out
  add_imports out (imported ∷ imports) =
      effective_exports fuel heap imported >>= λ ps. add_imports (add_all out ps) imports

  add_modules : List ℕ → List ℕ → Option (List ℕ)
  unfolding add_imports
  add_modules out [] = some out
  add_modules out (m ∷ scope) =
      add_imports (add_all out (heap m).providers) (heap m).imports >>= λ out'.
      add_modules out' scope

  -- `none` means that the walk of the re-exports ran out of fuel.
  unfoldable pub candidate_providers : List ℕ → Option (List ℕ)
  unfolding add_modules effective_exports
  candidate_providers scope = add_modules [] scope

-- `if len(matches) != 1`
unfoldable pub only : {V : Type 0} → List V → Option V
only (v ∷ []) = some v
only _ = none

-- A provider's `ResolvedType()`, and its `ResolvedValue()`, which is `none` before it is resolved.
module _ {V : Type 0} (resolved_type : ℕ → ℕ) (resolved_value : ℕ → Option V) where
  with_value : Option V → List V → List V
  with_value none vs = vs
  with_value (some v) vs = v ∷ vs

  pub exact_matches : ℕ → List ℕ → List V
  unfolding with_value
  exact_matches t [] = []
  exact_matches t (p ∷ candidates) =
      let rest = exact_matches t candidates in
      if resolved_type p == t then with_value (resolved_value p) rest else rest

  -- `FindDirectAll`
  pub find_direct_all : ℕ → Heap → List ℕ → ℕ → Option (List V)
  unfolding exact_matches candidate_providers
  find_direct_all fuel heap scope t = elim (candidate_providers fuel heap scope) [
    | none ↦ none
    | some candidates ↦ some (exact_matches t candidates)
  ]

  -- `FindDirect`: not found unless exactly one value resolves the type.
  unfoldable pub find_direct : ℕ → Heap → List ℕ → ℕ → Option (Option V)
  unfolding find_direct_all only candidate_providers effective_exports
  find_direct fuel heap scope t = elim (find_direct_all fuel heap scope t) [
    | none ↦ none
    | some vs ↦ some (only vs)
  ]

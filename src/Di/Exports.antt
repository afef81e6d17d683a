-- ===== src/Di/Exports.antt =====
-- `EffectiveExports` (internal/module/module.go): what an importer of a module sees.
pub mod Walk
pub mod Exact
use gonest.Prelude.{
  ℕ, zero, suc, List, [], ◌∷◌, ◌++◌, Bool, true, false, Option, none, some, if◌then◌else◌,
}
use gonest.Prelude.Members.{contains}
use gonest.Di.Builder.{Module}
use gonest.Di.Assemble.{Heap, update}

-- The map of the modules that were expanded, and the providers that were found.
abbrev pub Visited : Type 0
Visited = ℕ → Bool

abbrev pub Found : Type 0
Found = Option (List ℕ × Visited)

infixl 5 ◌>>=◌
abbrev pub ◌>>=◌ : Found → (List ℕ × Visited → Found) → Found
none >>= f = none
some a >>= f = f a

-- The closure `add`: its map `seen` has the elements of `out` as its keys.
add : List ℕ → ℕ → List ℕ
add out p = if contains out p then out else out ++ p ∷ []

unfoldable pub add_all : List ℕ → List ℕ → List ℕ
unfolding add
add_all out [] = out
add_all out (p ∷ ps) = add_all (add out p) ps

-- `for _, re := range m.exportedModules`, with the recursive call as an argument.
pub gather : (ℕ → Visited → Found) → List ℕ → List ℕ → Visited → Found
unfolding add_all
gather expand [] out visited = some (out, visited)
gather expand (re ∷ modules) out visited =
    expand re visited >>= λ found. gather expand modules (add_all out found.0) found.1

-- `effectiveExports`. `none` means that the fuel ran out, see `effective_exports-ne-none`.
pub expand : ℕ → Heap → ℕ → Visited → Found
unfolding gather update
expand zero heap m visited = none
expand (suc fuel) heap m visited =
    let rest =
      gather (expand fuel heap) (heap m).exported_modules (add_all [] (heap m).exports)
        (update visited m true) in
    if visited m then some ([], visited) else rest

unfoldable pub effective_exports : ℕ → Heap → ℕ → Option (List ℕ)
unfolding expand
effective_exports fuel heap m = elim (expand fuel heap m (λ _. false)) [
  | none ↦ none
  | some (out, visited) ↦ some out
]

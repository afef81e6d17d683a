-- ===== src/Di/Tests.antt =====
-- A small application, and what the definitions of the dependency graph do on it.
use gonest.Prelude.{
  ℕ, ◌<◌, [], ◌∷◌, true, false, some, Result, ok, err, ◌≡◌, ◌≢◌, refl, ◌↔◌, arith, ◌==◌,
  if◌then◌else◌,
}
use gonest.Prelude.Members.{contains, IsUnique}
use gonest.Prelude.Graph.{Reaches}
use gonest.Di.Token.{module_ref, provider_ref, controller_ref, Call, LazyCall}
use gonest.Di.Builder
use gonest.Di.Builder.{Module, new}
use gonest.Di.Assemble.{Fns, Heap, State, Failure, start, built, assemble, out_of_fuel}
use gonest.Di.Assemble.Search.{imports_of, Kind}
use gonest.Di.Assemble.Fuel.{assemble-ne-out_of_fuel}
use gonest.Di.Assemble.Modules.{
  WellExported, assemble_modules, assemble_owners, assemble-WellExported,
}

-- The root 0 imports 1 and 2, which both import 3; 1 re-exports 3, which exports 30 and keeps 31.
abbrev fns : Fns
fns m =
    if m == 0
    then Call.name "root"
      ∷ Call.imports (module_ref 1 ∷ module_ref 2 ∷ [])
      ∷ Call.providers (provider_ref 10 ∷ [])
      ∷ []
    else if m == 1
    then Call.lazy
        (LazyCall.imports (module_ref 3 ∷ []) ∷ LazyCall.exports (module_ref 3 ∷ []) ∷ [])
      ∷ []
    else if m == 2
    then Call.imports (module_ref 3 ∷ []) ∷ Call.controllers (controller_ref 20 ∷ []) ∷ []
    else if m == 3
    then Call.providers (provider_ref 30 ∷ provider_ref 31 ∷ [])
      ∷ Call.exports (provider_ref 30 ∷ [])
      ∷ []
    else []

abbrev heap : Heap
heap m = new

abbrev state_of : Result Failure State → State
state_of (ok s) = s
state_of (err e) = start heap

tree : State
unfolding assemble Builder.run_fn
tree = state_of (assemble 9 fns heap 0)

assemble-tree : assemble 9 fns heap 0 ≡ ok tree
unfolding tree
assemble-tree = refl

order-tree : tree.order ≡ 0 ∷ 1 ∷ 2 ∷ 3 ∷ []
unfolding tree
order-tree = refl

assemble_modules_example :
    IsUnique tree.order
    × ((m : ℕ) → (contains tree.order m ≡ true) ↔ Reaches (imports_of fns heap) 0 m)
    × ((m : ℕ) → contains tree.order m ≡ true → tree.heap m ≡ built fns heap m)
    × ((m : ℕ) → contains tree.order m ≡ false → tree.heap m ≡ heap m)
assemble_modules_example = assemble_modules 9 fns heap 0 tree assemble-tree

assemble_owners_example :
    (a : ℕ) × (tree.owners.provider 31 ≡ some a)
    × (contains tree.order a ≡ true)
    × (contains (tree.heap a).providers 31 ≡ true)
unfolding tree
assemble_owners_example =
    assemble_owners 9 fns heap 0 tree assemble-tree Kind.provider 31 3 refl refl

assemble-WellExported_example : WellExported (tree.heap 1)
unfolding tree
assemble-WellExported_example = assemble-WellExported 9 fns heap 0 tree assemble-tree 1 refl

bounded : (m i : ℕ) → m < 4 → contains (imports_of fns heap m) i ≡ true → i < 4
unfolding Builder.run_fn
bounded m i h c = ground arith

assemble-ne-out_of_fuel_example : assemble 5 fns heap 0 ≢ err out_of_fuel
unfolding Builder.run_fn
assemble-ne-out_of_fuel_example =
    assemble-ne-out_of_fuel fns heap 0 4 (omega arith) bounded 5 (omega arith)

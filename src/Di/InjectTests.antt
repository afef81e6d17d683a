-- ===== src/Di/InjectTests.antt =====
-- Provider 1 injects the type of provider 2, and provider 2 all of a type that 1 has and that 9 shows of 2.
use gonest.Prelude.{ℕ, ◌+◌, [], ◌∷◌, true, some, ok, ◌==◌, if◌then◌else◌, ◌≡◌, ◌⊎◌, ◌↔◌, refl}
use gonest.Prelude.Members.{contains}
use gonest.Di.Builder.{new}
use gonest.Di.Assemble.{Heap}
use gonest.Di.Resolve.{find}
use gonest.Di.Resolve.Visible.{VisibleImport}
use gonest.Di.Graph.{Graph, deps, build_graph, append_deps, add_edges, add_all_edges}
use gonest.Di.Inject.{
  Bookkeeping, reset, Providers, slice_to_fill, safe_inject, inject_all, find_all_refs, add_refs,
  add_imported,
}
use gonest.Di.Inject.Refs.{StandsFor}
use gonest.Di.Inject.Recorded.{safe_inject-build_graph, inject_all-build_graph}

abbrev providers : Providers
providers = record {
  resolved_type = λ p. if p == 9 then 101 else 100 + p;
  inner = λ p. if p == 9 then 2 else p;
  is_singleton = λ _. true;
  declare = λ p b. b;
  constructor_of = λ p. some (λ b. (b, some (500 + p)));
}

abbrev heap : Heap
heap m = record new { providers = 1 ∷ 2 ∷ 9 ∷ [] }

abbrev one : Graph
one = (1, 2 ∷ []) ∷ []

safe_inject-build_graph_example : (contains (deps one 1) 2 ≡ true) ↔ (
    (contains (deps [] 1) 2 ≡ true)
    ⊎ ((◌≡◌ {A = ℕ} 1 1) × (find providers.resolved_type 3 heap 102 0 ≡ ok 2)))
unfolding find build_graph append_deps add_edges add_all_edges safe_inject
safe_inject-build_graph_example =
    safe_inject-build_graph providers 3 heap 1 0 102 reset [] one 1 2 refl refl refl refl

abbrev gathered : Bookkeeping
gathered = record reset {
  pending_all_edges = record { owner_ref = some 2; matches = 1 ∷ 2 ∷ [] } ∷ [];
}

abbrev all : Graph
all = (2, 1 ∷ 2 ∷ []) ∷ []

inject_all-build_graph_example : (contains (deps all 2) 1 ≡ true) ↔ (
    (contains (deps [] 2) 1 ≡ true)
    ⊎ ((◌≡◌ {A = ℕ} 2 2)
        × StandsFor providers 101
            (λ p. (contains (heap 0).providers p ≡ true) ⊎ VisibleImport heap 0 p)
            1))
unfolding build_graph append_deps add_edges add_all_edges inject_all find_all_refs add_refs
    add_imported
inject_all-build_graph_example =
    inject_all-build_graph providers 3 heap 2 0 101 reset gathered (slice_to_fill 0) [] all 2 1 refl
      refl refl

-- ===== src/Di/GraphTests.antt =====
-- A module whose provider 1 injects the type of provider 2, and 2 all of a type that 1 has.
use gonest.Prelude.{◌+◌, ℕ, List, [], ◌∷◌, none, some, ok, ◌≡◌, refl}
use gonest.Di.Builder.{new}
use gonest.Di.Assemble.{Heap}
use gonest.Di.Resolve.{find}
use gonest.Di.Graph.{
  PendingEdge, PendingAllEdge, Graph, build_graph, append_deps, add_edges, add_all_edges,
}

abbrev heap : Heap
heap m = record new { providers = 1 ∷ 2 ∷ [] }

abbrev type_of : ℕ → ℕ
type_of p = 100 + p

abbrev edges : List PendingEdge
edges =
    record { owner_ref = some 1; owner_module = 0; target_type = 102 }
    ∷ record { owner_ref = none; owner_module = 0; target_type = 999 }
    ∷ []

abbrev all_edges : List PendingAllEdge
all_edges = record { owner_ref = some 2; matches = 1 ∷ [] } ∷ []

abbrev graph : Graph
graph = (1, 2 ∷ []) ∷ (2, 1 ∷ []) ∷ []

built : build_graph type_of 3 heap edges all_edges ≡ ok graph
unfolding find build_graph append_deps add_edges add_all_edges
built = refl

-- ===== src/Di/Graph.antt =====
-- The provider dependency graph (BuildGraph of internal/resolver/graph.go).
pub mod Appending
pub mod Edges
pub mod Acyclic
use gonest.Prelude.{
  ℕ, List, [], ◌∷◌, ◌++◌, Bool, true, false, Option, none, some, Result, ok, err, ◌>>=◌, ◌==◌,
  if◌then◌else◌,
}
use gonest.Di.Assemble.{Heap}
use gonest.Di.Resolve.{FindError, find}

-- A `PendingEdge`: the owner's provider, unless the owner is no provider, and its module.
pub record PendingEdge : Type 0 where
  pub owner_ref : Option ℕ
  pub owner_module : ℕ
  pub target_type : ℕ

-- A `PendingAllEdge`.
pub record PendingAllEdge : Type 0 where
  pub owner_ref : Option ℕ
  pub matches : List ℕ

-- The map `graph`, a key with its list of dependencies.
abbrev pub Graph : Type 0
Graph = List (ℕ × List ℕ)

abbrev pub deps : Graph → ℕ → List ℕ
deps [] x = []
deps ((k, ys) ∷ g) x = if k == x then ys else deps g x

abbrev pub keys : Graph → List ℕ
keys [] = []
keys ((k, ys) ∷ g) = k ∷ keys g

-- `graph[owner] = append(graph[owner], targets...)`
unfoldable pub append_deps : Graph → ℕ → List ℕ → Graph
append_deps [] owner targets = (owner, targets) ∷ []
append_deps ((k, ys) ∷ g) owner targets =
    let rest = append_deps g owner targets in
    if k == owner then (k, ys ++ targets) ∷ g else (k, ys) ∷ rest

-- An edge whose owner is no provider is skipped.
abbrev pub grow : Option ℕ → List ℕ → Graph → Graph
grow none targets g = g
grow (some owner) targets g = append_deps g owner targets

-- The second loop.
unfoldable pub add_all_edges : List PendingAllEdge → Graph → Graph
add_all_edges [] g = g
add_all_edges (edge ∷ edges) g = add_all_edges edges (grow edge.owner_ref edge.matches g)

-- `resolved_type`, `fuel` and `heap` are those of `Find`.
module _ (resolved_type : ℕ → ℕ) (fuel : ℕ) (heap : Heap) where
  abbrev pub found : PendingEdge → Result FindError ℕ
  found edge = find resolved_type fuel heap edge.target_type edge.owner_module

  -- `Find` is not called, and so does not panic, for an owner that is no provider.
  abbrev pub add_edge : PendingEdge → Option ℕ → Graph → Result FindError Graph
  add_edge edge none g = ok g
  add_edge edge (some owner) g = found edge >>= λ target. ok (append_deps g owner (target ∷ []))

  -- The first loop.
  unfoldable pub add_edges : List PendingEdge → Graph → Result FindError Graph
  add_edges [] g = ok g
  add_edges (edge ∷ edges) g = add_edge edge edge.owner_ref g >>= add_edges edges

  unfoldable pub build_graph : List PendingEdge → List PendingAllEdge → Result FindError Graph
  build_graph edges all_edges = add_edges edges [] >>= λ g. ok (add_all_edges all_edges g)

-- ===== src/Di/Construct.antt =====
-- Stage 3, the construction of providers: internal/resolver/stage3.go. This file has what resolveGraph
-- computes before it starts goroutines; Steps has the goroutines.
pub mod Steps
pub mod Ready
pub mod Unready
pub mod Progress
pub mod Bounded
pub mod Whole
pub mod Edges
pub mod Filled
pub mod Complete
use gonest.Prelude.{
  ℕ, List, [], ◌∷◌, ◌++◌, Bool, true, false, not, ◌&&◌, ◌||◌, Option, none, some, Result, ok, err,
  ◌>>=◌, ◌==◌, if◌then◌else◌,
}
use gonest.Prelude.Members.{contains}
use gonest.Di.Builder.{Module}
use gonest.Di.Assemble.{Heap}
use gonest.Di.Resolve.{FindError, find}
use gonest.Di.Graph.{Graph, PendingEdge}

-- `seen` and `out` of `allProviders`. A view of another provider is seen, but not constructed.
pub record Listing : Type 0 where
  pub seen : List ℕ
  pub out : List ℕ

module _ (is_view : ℕ → Bool) where
  abbrev enlist : Bool → Bool → ℕ → Listing → Listing
  enlist true view p l = l
  enlist false true p l = record { seen = p ∷ l.seen; out = l.out }
  enlist false false p l = record { seen = p ∷ l.seen; out = l.out ++ p ∷ [] }

  unfoldable pub list_providers : List ℕ → Listing → Listing
  list_providers [] l = l
  list_providers (p ∷ providers) l =
      list_providers providers (enlist (contains l.seen p) (is_view p) p l)

  unfoldable pub list_modules : Heap → List ℕ → Listing → Listing
  list_modules heap [] l = l
  list_modules heap (m ∷ modules) l =
      list_modules heap modules (list_providers (heap m).providers l)

  unfoldable pub all_providers : Heap → List ℕ → List ℕ
  all_providers heap modules = (list_modules heap modules (record { seen = []; out = [] })).out

abbrev pub in_scope : List ℕ → List ℕ → List ℕ
in_scope nodes [] = []
in_scope nodes (d ∷ deps) =
    let rest = in_scope nodes deps in if contains nodes d then d ∷ rest else rest

-- `scopedGraph`, on the graph that BuildGraph returns.
unfoldable pub scoped_graph : List ℕ → Graph → Graph
scoped_graph nodes [] = []
scoped_graph nodes ((key, deps) ∷ full) =
    let rest = scoped_graph nodes full in
    if contains nodes key then (key, in_scope nodes deps) ∷ rest else rest

-- `overrideFor`: the type itself, or else an interface that it implements. Values are identities, and the
-- map is a list in the order in which the loop happens to go through it.
unfoldable pub override_exact : List (ℕ × ℕ) → ℕ → Option ℕ
override_exact [] t = none
override_exact ((key, v) ∷ overrides) t = if key == t then some v else override_exact overrides t

unfoldable pub override_implemented : (ℕ → Bool) → (ℕ → ℕ → Bool) → List (ℕ × ℕ) → ℕ → Option ℕ
override_implemented is_interface implements [] t = none
override_implemented is_interface implements ((key, v) ∷ overrides) t =
    if is_interface key && implements t key
    then some v
    else override_implemented is_interface implements overrides t

abbrev or_else : Option ℕ → Option ℕ → Option ℕ
or_else none other = other
or_else (some v) other = some v

unfoldable pub override_for : (ℕ → Bool) → (ℕ → ℕ → Bool) → List (ℕ × ℕ) → ℕ → Option ℕ
override_for is_interface implements overrides t =
    or_else (override_exact overrides t) (override_implemented is_interface implements overrides t)

-- `edgesFor`: the pending edges that resolve to a provider. `Find` is called, and may panic, only for an
-- edge to the provider's own type. An owner without a module is left out: `Find` of BuildGraph has panicked
-- on it before.
module _ (resolved_type : ℕ → ℕ) (fuel : ℕ) (heap : Heap) where
  abbrev keep_if : Bool → PendingEdge → List PendingEdge → List PendingEdge
  keep_if true edge edges = edge ∷ edges
  keep_if false edge edges = edges

  unfoldable pub edges_for : ℕ → List PendingEdge → Result FindError (List PendingEdge)
  edges_for node [] = ok []
  edges_for node (edge ∷ edges) =
      let rest = edges_for node edges in
      if edge.target_type == resolved_type node
      then (find resolved_type fuel heap edge.target_type edge.owner_module >>= λ target.
          rest >>= λ kept. ok (keep_if (target == node) edge kept))
      else rest

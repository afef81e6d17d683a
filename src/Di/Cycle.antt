-- ===== src/Di/Cycle.antt =====
-- The provider dependency graph and the search for a cycle in it (internal/resolver/graph.go and
-- internal/resolver/cycle.go).
pub mod Walks
pub mod Visits
pub mod Detect
use Prim.Native.String.{String}
use Prim.Native.String.{◌++◌ as str_append}
use gonest.Prelude.{
  ℕ, zero, suc, List, [], ◌∷◌, ◌++◌, map, Bool, true, false, Result, ok, err, ◌>>=◌, ◌==◌,
  if◌then◌else◌,
}
use gonest.Prelude.Members.{contains}
use gonest.Di.Assemble.{update}

pub data Color : Type 0 where
  white gray black : Color

pub record Search : Type 0 where
  pub colors : ℕ → Color
  pub path : List ℕ

-- The chain of a cycle; `out_of_fuel` is the model's own.
pub data Stop : Type 0 where
  cycle : List ℕ → Stop
  out_of_fuel : Stop

-- `path[start:]`: from the first place of the node on, or the whole path if it is not there.
unfoldable pub from_first : ℕ → List ℕ → List ℕ → List ℕ
from_first node whole [] = whole
from_first node whole (x ∷ path) = if x == node then x ∷ path else from_first node whole path

-- `cycleError`, up to the names of the nodes.
unfoldable pub cycle_chain : List ℕ → ℕ → List ℕ
unfolding from_first
cycle_chain path target = from_first target path path ++ target ∷ []

-- `path[:len(path)-1]`
unfoldable pub pop : List ℕ → List ℕ
pop [] = []
pop (x ∷ []) = []
pop (x ∷ y ∷ path) = x ∷ pop (y ∷ path)

-- A node joins the path, and leaves it again.
abbrev pub entered : ℕ → Search → Search
unfolding update
entered node s = record { colors = update s.colors node gray; path = s.path ++ node ∷ [] }

abbrev pub left : ℕ → Search → Search
unfolding update pop
left node s = record { colors = update s.colors node black; path = pop s.path }

abbrev pub unseen : Search
unseen = record { colors = λ _. white; path = [] }

-- `for _, dep := range graph[node]`, with the recursive call as an argument.
unfoldable pub visit_deps : (ℕ → Search → Result Stop Search) → List ℕ → Search → Result Stop Search
unfolding cycle_chain
visit_deps call [] s = ok s
visit_deps call (dep ∷ deps) s = elim (s.colors dep) [
  | gray ↦ err (cycle (cycle_chain s.path dep))
  | black ↦ visit_deps call deps s
  | white ↦ call dep s >>= λ s'. visit_deps call deps s'
]

module _ (graph : ℕ → List ℕ) where
  unfoldable pub visit : ℕ → ℕ → Search → Result Stop Search
  unfolding visit_deps entered left
  visit zero node s = err out_of_fuel
  visit (suc fuel) node s =
      visit_deps (visit fuel) (graph node) (entered node s) >>= λ s'. ok (left node s')

  -- `for node := range graph`, in some order of the keys.
  unfoldable pub visit_all : ℕ → List ℕ → Search → Result Stop Search
  unfolding visit
  visit_all fuel [] s = ok s
  visit_all fuel (node ∷ nodes) s = elim (s.colors node) [
    | white ↦ visit fuel node s >>= λ s'. visit_all fuel nodes s'
    | _ ↦ visit_all fuel nodes s
  ]

  -- `DetectCycle`, for the keys of the graph in the order of the iteration.
  unfoldable pub detect_cycle : ℕ → List ℕ → Result Stop (Unit {0})
  unfolding visit_all
  detect_cycle fuel keys = visit_all fuel keys unseen >>= λ _. ok tt

-- `strings.Join(names, " -> ")` and the text of the error.
join : List String → String
join [] = ""
join (name ∷ []) = name
join (name ∷ names) = str_append name (str_append " -> " (join names))

unfoldable pub message : (ℕ → String) → List ℕ → String
unfolding join
message type_name chain = str_append "circular dependency: " (join (map type_name chain))

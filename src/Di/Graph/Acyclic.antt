-- ===== src/Di/Graph/Acyclic.antt =====
-- BuildGraph followed by DetectCycle, as Resolve of internal/resolver/stage3.go runs them.
use gonest.Prelude.{ℕ, ◌<◌, List, true, ok, err, ◌≡◌, ◌⊎◌}
use gonest.Prelude.Members.{contains}
use gonest.Di.Assemble.{Heap}
use gonest.Di.Cycle.{cycle, detect_cycle}
use gonest.Di.Cycle.Walks.{IsCycle}
use gonest.Di.Cycle.Detect.{detect_cycle-Decides}
use gonest.Di.Graph.{PendingEdge, PendingAllEdge, Graph, deps, keys, build_graph}
use gonest.Di.Graph.Edges.{Wanted, Matched, keyed, build_graph_lem}

module _ (resolved_type : ℕ → ℕ) (fuel : ℕ) (heap : Heap) where
  -- When BuildGraph does not panic and n bounds the providers that are owners and those that are
  -- injected, DetectCycle with fuel n finds no cycle and no providers inject each other in a circle,
  -- or it returns providers that do.
  pub build_graph-detect_cycle :
      (edges : List PendingEdge) (all_edges : List PendingAllEdge) (g : Graph) (n : ℕ)
      → build_graph resolved_type fuel heap edges all_edges ≡ ok g
      → ((x y : ℕ) → Wanted resolved_type fuel heap edges x y ⊎ Matched all_edges x y → y < n)
      → ((x : ℕ) → contains (keys g) x ≡ true → x < n)
      → ((detect_cycle (deps g) n (keys g) ≡ ok tt)
          × ((chain : List ℕ) → ¬ (IsCycle (deps g) chain)))
        ⊎ ((chain : List ℕ) × (detect_cycle (deps g) n (keys g) ≡ err (cycle chain))
            × IsCycle (deps g) chain)
  build_graph-detect_cycle edges all_edges g n built injected owners =
      detect_cycle-Decides (deps g) n
        (λ x y h.
          injected x y ((build_graph_lem resolved_type fuel heap edges all_edges g x y built).0 h))
        (keys g) (keyed g) owners

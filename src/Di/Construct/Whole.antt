-- ===== src/Di/Construct/Whole.antt =====
-- The goroutines of resolveGraph on the graph that it has checked for cycles.
use gonest.Prelude.{
  ℕ, ◌<◌, List, [], ◌∷◌, Bool, true, ok, ◌≡◌, ◌≢◌, ◌⊎◌, ◌==◌, ==_iff, Bool-cases, inl, inr, arith,
}
use gonest.Prelude.Members.{contains}
use gonest.Di.Cycle.{detect_cycle}
use gonest.Di.Cycle.Detect.{detect_cycle-HasRank}
use gonest.Di.Graph.{Graph, deps, keys}
use gonest.Di.Graph.Edges.{keyed}
use gonest.Di.Construct.{in_scope, scoped_graph}
use gonest.Di.Construct.Steps.{finished, Site, Run, Runs, AnyEvent}
use gonest.Di.Construct.Progress.{IsSound, CanStep, Runs-CanStep}

-- The nodes, and the graph cut down to them.
abbrev pub site_of : List ℕ → Graph → (ℕ → Bool) → List ℕ → (ℕ → ℕ) → Site
site_of nodes full transient edges edge_target = record {
  nodes = nodes;
  deps = deps (scoped_graph nodes full);
  transient = transient;
  edges = edges;
  edge_target = edge_target;
}

in_scope-inside :
    (nodes listed : List ℕ) (d : ℕ)
    → contains (in_scope nodes listed) d ≡ true
    → contains nodes d ≡ true
in_scope-inside nodes [] d e = cc
in_scope-inside nodes (x ∷ listed) d e = elim (Bool-cases (contains nodes x)) [
  | inl inside ↦
      (let k : contains (x ∷ in_scope nodes listed) d ≡ true = (rw inside at e) in
        elim (Bool-cases (d == x)) [
          | inl same ↦ (let s : d ≡ x = (==_iff d x).0 same in rw s inside)
          | inr other ↦ in_scope-inside nodes listed d (ground arith)
        ])
  | inr outside ↦ in_scope-inside nodes listed d (rw outside at e)
]

scoped_graph-inside :
    (nodes : List ℕ) (full : Graph) (x d : ℕ)
    → contains (deps (scoped_graph nodes full) x) d ≡ true
    → contains nodes d ≡ true
unfolding scoped_graph
scoped_graph-inside nodes [] x d e = cc
scoped_graph-inside nodes ((key, listed) ∷ full) x d e = elim (Bool-cases (contains nodes key)) [
  | inl inside ↦
      (let k : contains (deps ((key, in_scope nodes listed) ∷ scoped_graph nodes full) x) d ≡ true =
          (rw (inside, scoped_graph) at e) in
        elim (Bool-cases (key == x)) [
          | inl here ↦ in_scope-inside nodes listed d (rw here at k)
          | inr later ↦ scoped_graph-inside nodes full x d (rw later at k)
        ])
  | inr outside ↦ scoped_graph-inside nodes full x d (rw (outside, scoped_graph) at e)
]

scoped_graph-keys :
    (nodes : List ℕ) (full : Graph) (x : ℕ)
    → contains (keys (scoped_graph nodes full)) x ≡ true
    → contains nodes x ≡ true
unfolding scoped_graph
scoped_graph-keys nodes [] x e = cc
scoped_graph-keys nodes ((key, listed) ∷ full) x e = elim (Bool-cases (contains nodes key)) [
  | inl inside ↦
      (let k : contains (key ∷ keys (scoped_graph nodes full)) x ≡ true =
          (rw (inside, scoped_graph) at e) in
        elim (Bool-cases (x == key)) [
          | inl same ↦ (let s : x ≡ key = (==_iff x key).0 same in rw s inside)
          | inr other ↦ scoped_graph-keys nodes full x (ground arith)
        ])
  | inr outside ↦ scoped_graph-keys nodes full x (rw (outside, scoped_graph) at e)
]

module _ (nodes : List ℕ) (full : Graph) (transient : ℕ → Bool) (edges : List ℕ)
    (edge_target : ℕ → ℕ) (n : ℕ) (below : (x : ℕ) → contains nodes x ≡ true → x < n)
    (targets : (e : ℕ) → contains edges e ≡ true → contains nodes (edge_target e) ≡ true) where
  -- What `DetectCycle` accepts is sound.
  accepted-IsSound :
      detect_cycle (deps (scoped_graph nodes full)) n (keys (scoped_graph nodes full)) ≡ ok tt
      → IsSound (site_of nodes full transient edges edge_target)
  accepted-IsSound accepted =
      let graph = scoped_graph nodes full in
      let (rank, falls) =
        detect_cycle-HasRank (deps graph) n
          (λ x y edge. below y (scoped_graph-inside nodes full x y edge)) (keys graph) (keyed graph)
          (λ x key. below x (scoped_graph-keys nodes full x key)) accepted in
      record {
        rank = rank;
        falls = λ x d edge. falls x d edge;
        inside = λ x d edge. scoped_graph-inside nodes full x d edge;
        targets = targets;
      }

  -- When n bounds the providers, every edge to a transient provider leads to one of them, and DetectCycle
  -- with fuel n accepts the graph that scopedGraph cuts down to them, the construction does not get stuck:
  -- in every run, with failures and cancellation included, some goroutine can take a step, whatever the
  -- caller does, as long as the goroutine of a provider or of an edge has not finished.
  pub scoped_graph-CanStep :
      (r : Run)
      → detect_cycle (deps (scoped_graph nodes full)) n (keys (scoped_graph nodes full)) ≡ ok tt
      → Runs (site_of nodes full transient edges edge_target) AnyEvent r
      → ((x : ℕ) × (contains nodes x ≡ true) × (r.node x ≢ finished))
        ⊎ ((e : ℕ) × (contains edges e ≡ true) × (r.edge e ≢ finished))
      → CanStep (site_of nodes full transient edges edge_target) r
  scoped_graph-CanStep r accepted runs unfinished =
      Runs-CanStep (site_of nodes full transient edges edge_target) r (accepted-IsSound accepted)
        runs unfinished

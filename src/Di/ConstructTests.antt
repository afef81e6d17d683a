-- ===== src/Di/ConstructTests.antt =====
-- Provider 1 injects provider 2; once 2 is a singleton, and once it is transient, with edge 7 to it.
use gonest.Prelude.{
  ℕ, ◌+◌, ◌<◌, List, [], ◌∷◌, true, false, ◌==◌, ==_iff, ◌≡◌, some, inl, refl, arith, if◌then◌else◌,
}
use gonest.Prelude.Members.{contains}
use gonest.Di.Builder.{new}
use gonest.Di.Assemble.{Heap}
use gonest.Di.Construct.Steps.{
  running, returned, waiting, Site, Run, initial, node_is, close, fill, Runs, begin, AnyEvent,
  IsCalm, edge_is, fill_edge, cancel_if, finished,
}
use gonest.Di.Construct.Unready.{IsPair, starts_after_failure, starts_before_transient}
use gonest.Di.Construct.Progress.{CanStep}
use gonest.Di.Construct.Whole.{site_of, scoped_graph-CanStep}
use gonest.Di.Construct.{edges_for, scoped_graph}
use gonest.Di.Construct.Edges.{Selected, edges_for-Selected}
use gonest.Di.Resolve.{find}
use gonest.Di.Graph.{Graph, PendingEdge}
use gonest.Di.Cycle.{detect_cycle, visit_all, visit, visit_deps}
use gonest.Di.Request.{SetCall, with_request_id, get, replay, get-replay}
use gonest.Di.Inject.{
  Bookkeeping, reset, pointer, Providers, injected, instance_of, must_lazy_by_type, declare_all,
}
use gonest.Di.Inject.Once.{must_lazy_by_type-once}

abbrev deps_of : ℕ → List ℕ
deps_of n = if n == 1 then 2 ∷ [] else []

abbrev plain : Site
plain = record {
  nodes = 1 ∷ 2 ∷ [];
  deps = deps_of;
  transient = λ _. false;
  edges = [];
  edge_target = λ _. 0;
}

abbrev mixed : Site
mixed = record {
  nodes = 1 ∷ 2 ∷ [];
  deps = deps_of;
  transient = λ n. n == 2;
  edges = 7 ∷ [];
  edge_target = λ _. 2;
}

-- 2 is constructed, then 1 starts.
abbrev built : Run
built = node_is 2 (returned false) (close 2 (fill 2 (node_is 2 running initial)))

abbrev started : Run
started = node_is 1 running built

nodes-below : (x : ℕ) → contains (1 ∷ 2 ∷ []) x ≡ true → x < 3
nodes-below x listed = ground (arith, ==_iff x 1, ==_iff x 2)

edges-targets : (e : ℕ) → contains (7 ∷ []) e ≡ true → contains (1 ∷ 2 ∷ []) 2 ≡ true
edges-targets e listed = refl

-- What BuildGraph returns has an owner 5 of another tree of modules.
abbrev full : Graph
full = (5, 1 ∷ []) ∷ (1, 2 ∷ 6 ∷ []) ∷ []

scoped_graph-CanStep_example :
    CanStep (site_of (1 ∷ 2 ∷ []) full (λ x. x == 2) (7 ∷ []) (λ _. 2)) initial
unfolding scoped_graph detect_cycle visit_all visit visit_deps
scoped_graph-CanStep_example =
    scoped_graph-CanStep (1 ∷ 2 ∷ []) full (λ x. x == 2) (7 ∷ []) (λ _. 2) 3 nodes-below
      edges-targets initial refl begin (inl (1, refl, λ e. cc))

-- Provider 2 is released, the constructor for edge 7 runs, and then that of provider 1.
abbrev whole : Site
whole = site_of (1 ∷ 2 ∷ []) full (λ x. x == 2) (7 ∷ []) (λ _. 2)

abbrev released : Run
released = node_is 2 finished (cancel_if false (node_is 2 (returned false) (close 2 initial)))

abbrev edge_running : Run
edge_running = edge_is 7 running released

abbrev edge_done : Run
edge_done =
    edge_is 7 finished (cancel_if false (edge_is 7 (returned false) (fill_edge 7 edge_running)))

abbrev node_running : Run
node_running = node_is 1 running edge_done

abbrev all_done : Run
all_done =
    node_is 1 finished
      (cancel_if false (node_is 1 (returned false) (close 1 (fill 1 node_running))))

plain-IsPair : IsPair plain 1 2
plain-IsPair = record {
  both = (refl, refl);
  distinct = omega arith;
  singleton = refl;
  only = refl;
  none = refl;
}

mixed-IsPair : IsPair mixed 1 2
mixed-IsPair = record {
  both = (refl, refl);
  distinct = omega arith;
  singleton = refl;
  only = refl;
  none = refl;
}

starts_after_failure_example :
    (r : Run) × Runs plain AnyEvent r
    × (r.node 1 ≡ running)
    × (r.node 2 ≡ returned true)
    × (r.filled 2 ≡ false)
starts_after_failure_example = starts_after_failure plain 1 2 plain-IsPair refl

starts_before_transient_example :
    (r : Run) × Runs mixed IsCalm r
    × (r.node 1 ≡ running)
    × ((e : ℕ) → (r.edge e ≡ waiting) × (r.edge_filled e ≡ false))
starts_before_transient_example = starts_before_transient mixed 1 2 mixed-IsPair refl

-- Providers 1 and 2 have the types 101 and 102; 9 is a view of 2 for the type 101.
abbrev type_of : ℕ → ℕ
type_of p = if p == 9 then 101 else 100 + p

abbrev wrapped : ℕ → ℕ
wrapped p = if p == 9 then 2 else p

abbrev providers : Providers
providers = record {
  resolved_type = type_of;
  inner = wrapped;
  is_singleton = λ _. true;
  declare = λ p b. b;
  constructor_of = λ p. some (λ b. (b, some (500 + p)));
}

abbrev heap : Heap
heap m = record new { providers = 1 ∷ 2 ∷ 9 ∷ [] }

abbrev after : Bookkeeping
after = record reset { lazy_resolved = (2, 502) ∷ [] }

must_lazy_by_type-once_example :
    must_lazy_by_type providers pointer (1 ∷ 2 ∷ []) 102 after ≡ (after, injected (instance_of 502))
unfolding must_lazy_by_type declare_all
must_lazy_by_type-once_example =
    must_lazy_by_type-once providers (1 ∷ 2 ∷ []) 102 reset after 502 refl (λ p. refl)

abbrev edge_to : ℕ → PendingEdge
edge_to t = record { owner_ref = some 1; owner_module = 0; target_type = t }

edges_for-Selected_example :
    Selected type_of 3 heap 2 (edge_to 102 ∷ edge_to 101 ∷ edge_to 999 ∷ []) (edge_to 102 ∷ [])
unfolding edges_for find
edges_for-Selected_example =
    edges_for-Selected type_of 3 heap 2 (edge_to 102 ∷ edge_to 101 ∷ edge_to 999 ∷ [])
      (edge_to 102 ∷ []) refl

-- Request 5 stores 1 and then 2 for key 3, and request 6 stores 9 in between.
abbrev calls : List SetCall
calls =
    record { ctx = some 5 ∷ []; key = 3; instance_ = 2 }
    ∷ record { ctx = some 6 ∷ []; key = 3; instance_ = 9 }
    ∷ record { ctx = some 5 ∷ []; key = 3; instance_ = 1 }
    ∷ []

get-replay_example : get (replay calls) (with_request_id (some 6 ∷ []) (some 5)) 3 ≡ some 2
get-replay_example = get-replay calls (with_request_id (some 6 ∷ []) (some 5)) 3

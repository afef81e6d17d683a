-- ===== src/Di/LookupTests.antt =====
-- Re-exports, lookups and cycles on a small application whose modules have been assembled.
use gonest.Prelude.{
  ℕ, ◌+◌, ◌<◌, List, [], ◌∷◌, true, Option, none, some, ok, err, ◌≡◌, ◌≢◌, refl, ◌↔◌, ◌⊎◌, arith,
  ◌==◌, if◌then◌else◌,
}
use gonest.Prelude.Members.{contains, IsUnique}
use gonest.Di.Builder.{new}
use gonest.Di.Assemble.{Heap}
use gonest.Di.Exports.{effective_exports}
use gonest.Di.Exports.Walk.{next, Exposes}
use gonest.Di.Exports.Exact.{effective_exports_lem, effective_exports-ne-none}
use gonest.Di.Resolve.{find, no_provider, not_exported}
use gonest.Di.Resolve.Visible.{VisibleImport, find-visible}
use gonest.Di.Direct.{find_direct, candidate_providers}
use gonest.Di.Direct.Candidates.{InScope, candidate_providers_lem}
use gonest.Di.Cycle.{cycle, detect_cycle, message}
use gonest.Di.Cycle.Walks.{IsCycle}
use gonest.Di.Cycle.Detect.{detect_cycle-Decides}

-- Module 0 imports 1; 1 and 2 re-export each other, and 2 exports provider 30 but not 31.
abbrev heap : Heap
heap m =
    if m == 0
    then record new { imports = 1 ∷ []; providers = 10 ∷ [] }
    else if m == 1
    then record new { imports = 2 ∷ []; exported_modules = 2 ∷ [] }
    else if m == 2
    then record new {
      imports = 1 ∷ [];
      providers = 30 ∷ 31 ∷ [];
      exports = 30 ∷ [];
      exported_modules = 1 ∷ [];
    }
    else new

-- A provider's type is its tenth.
abbrev type_of : ℕ → ℕ
type_of p = if p == 10 then 1 else if p == 30 then 3 else 9

exports-of_1 : effective_exports 4 heap 1 ≡ some (30 ∷ [])
unfolding effective_exports
exports-of_1 = refl

effective_exports_lem_example :
    IsUnique (30 ∷ [])
    × ((p : ℕ) → contains (30 ∷ []) p ≡ true → Exposes heap 1 p)
    × ((p : ℕ) → Exposes heap 1 p → contains (30 ∷ []) p ≡ true)
effective_exports_lem_example = effective_exports_lem heap 4 1 (30 ∷ []) exports-of_1

bounded : (m i : ℕ) → m < 3 → contains (next heap m) i ≡ true → i < 3
bounded m i h c = ground arith

effective_exports-ne-none_example : effective_exports 4 heap 1 ≢ none
effective_exports-ne-none_example = effective_exports-ne-none heap 3 bounded 1 (omega arith)

find-30 : find type_of 4 heap 3 0 ≡ ok 30
unfolding find
find-30 = refl

find-visible_example :
    (type_of 30 ≡ 3)
    × ((contains (heap 0).providers 30 ≡ true)
        ⊎ (VisibleImport heap 0 30
            × ((q : ℕ) → contains (heap 0).providers q ≡ true → type_of q ≢ 3)))
find-visible_example = find-visible type_of 4 heap 3 0 30 find-30

find-nothing : find type_of 4 heap 5 0 ≡ err (no_provider 5)
unfolding find
find-nothing = refl

-- Provider 31 is not exported: module 2 has its type, and the importer does not see it.
find_not_exported : find type_of 4 heap 9 1 ≡ err (not_exported 9 2)
unfolding find
find_not_exported = refl

abbrev value_of : ℕ → Option ℕ
value_of p = some (p + 100)

candidates-0 : candidate_providers 4 heap (0 ∷ []) ≡ some (10 ∷ 30 ∷ [])
unfolding candidate_providers
candidates-0 = refl

candidate_providers_lem_example :
    IsUnique (10 ∷ 30 ∷ [])
    × ((p : ℕ) → (contains (10 ∷ 30 ∷ []) p ≡ true) ↔ InScope heap (0 ∷ []) p)
candidate_providers_lem_example =
    candidate_providers_lem 4 heap (0 ∷ []) (10 ∷ 30 ∷ []) candidates-0

direct-30 : find_direct type_of value_of 4 heap (0 ∷ []) 3 ≡ some (some 130)
unfolding find_direct
direct-30 = refl

-- 0 → 1 → 2 → 1
abbrev graph : ℕ → List ℕ
graph x = if x == 0 then 1 ∷ [] else if x == 1 then 2 ∷ [] else if x == 2 then 1 ∷ [] else []

abbrev keys : List ℕ
keys = 0 ∷ 1 ∷ 2 ∷ []

graph_bounded : (x y : ℕ) → contains (graph x) y ≡ true → y < 3
graph_bounded x y c = ground arith

graph_keyed : (x y : ℕ) → contains (graph x) y ≡ true → contains keys x ≡ true
graph_keyed x y c = ground arith

keys_within : (x : ℕ) → contains keys x ≡ true → x < 3
keys_within x c = ground arith

detect_cycle-Decides_example :
    ((detect_cycle graph 3 keys ≡ ok tt) × ((chain : List ℕ) → ¬ (IsCycle graph chain)))
    ⊎ ((chain : List ℕ) × (detect_cycle graph 3 keys ≡ err (cycle chain)) × IsCycle graph chain)
detect_cycle-Decides_example =
    detect_cycle-Decides graph 3 graph_bounded keys graph_keyed keys_within

detect_cycle_runs : detect_cycle graph 3 keys ≡ err (cycle (1 ∷ 2 ∷ 1 ∷ []))
unfolding detect_cycle
detect_cycle_runs = refl

message_runs :
    message (λ p. if p == 1 then "*A" else "*B") (1 ∷ 2 ∷ 1 ∷ [])
    ≡ "circular dependency: *A -> *B -> *A"
unfolding message
message_runs = refl

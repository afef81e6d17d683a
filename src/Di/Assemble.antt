-- ===== src/Di/Assemble.antt =====
-- Stage 1, structural assembly (internal/module/assemble.go).
pub mod Search
pub mod Fuel
pub mod Modules
use Prim.Native.String.{String}
use gonest.Prelude.{
  ℕ, zero, suc, List, [], ◌∷◌, ◌++◌, Bool, true, false, Option, none, some, Result, ok, err, ◌>>=◌,
  ◌==◌, if◌then◌else◌,
}
use gonest.Prelude.Members.{contains}
use gonest.Di.Token.{Call, Panic}
use gonest.Di.Builder
use gonest.Di.Builder.{Module}

-- The `fn` of every module, as the builder calls that it makes.
abbrev pub Fns : Type 0
Fns = ℕ → List Call

abbrev pub Heap : Type 0
Heap = ℕ → Module

-- `out_of_fuel` is the model's own: `assemble-ne-out_of_fuel` shows when it does not arise.
pub data Failure : Type 0 where
  panicked : Panic → Failure
  undeclared_export : (owner provider : ℕ) → Failure
  unimported_reexport : (owner reexported : ℕ) → Failure
  out_of_fuel : Failure

-- Who called `SetOwnerModule` last, for each kind that a module owns.
pub record Owners : Type 0 where
  pub provider : ℕ → Option ℕ
  pub controller : ℕ → Option ℕ
  pub resolver : ℕ → Option ℕ
  pub listener : ℕ → Option ℕ
  pub scheduler : ℕ → Option ℕ

pub record State : Type 0 where
  pub heap : Heap
  pub owners : Owners
  pub visited : ℕ → Bool
  pub order : List ℕ

unfoldable pub update {ℓ} : {A : Type ℓ} → (ℕ → A) → ℕ → A → ℕ → A
update f k v j = if j == k then v else f j

-- `for _, p := range refs { p.SetOwnerModule(m) }`
unfoldable pub set_owner : ℕ → List ℕ → (ℕ → Option ℕ) → ℕ → Option ℕ
unfolding update
set_owner m [] owner = owner
set_owner m (p ∷ refs) owner = set_owner m refs (update owner p (some m))

pub set_owners : ℕ → Module → Owners → Owners
unfolding set_owner
set_owners m built o = record {
  provider = set_owner m built.providers o.provider;
  controller = set_owner m built.controllers o.controller;
  resolver = set_owner m built.resolvers o.resolver;
  listener = set_owner m built.listeners o.listener;
  scheduler = set_owner m built.schedulers o.scheduler;
}

-- The module after its `fn` has run.
abbrev pub built : Fns → Heap → ℕ → Module
built fns heap m = (Builder.run_fn (fns m) (heap m)).1

-- The state after the module `m`, whose fields are now `body`, was visited.
abbrev pub extended : ℕ → Module → State → State
unfolding update
extended m body s = record {
  heap = update s.heap m body;
  owners = set_owners m body s.owners;
  visited = update s.visited m true;
  order = s.order ++ m ∷ [];
}

after_fn : ℕ → Option Panic → Module → State → Result Failure State
unfolding extended
after_fn m (some p) body s = err (panicked p)
after_fn m none body s = ok (extended m body s)

-- The body of the loop for a module that was not visited before.
unfoldable pub visit : Fns → ℕ → State → Result Failure State
unfolding after_fn
visit fns m s = let (failed, body) = Builder.run_fn (fns m) (s.heap m) in after_fn m failed body s

-- `for len(queue) > 0`, the breadth-first walk of the imports.
unfoldable pub walk : ℕ → Fns → State → List ℕ → Result Failure State
unfolding visit
walk fuel fns s [] = ok s
walk zero fns s (m ∷ queue) = err out_of_fuel
walk (suc fuel) fns s (m ∷ queue) = elim (s.visited m) [
  | true ↦ walk fuel fns s queue
  | false ↦ visit fns m s >>= λ s'. walk fuel fns s' (queue ++ (s'.heap m).imports)
]

-- The first element that is not among the known ones.
unfoldable pub first_unknown : List ℕ → List ℕ → Option ℕ
first_unknown known [] = none
first_unknown known (p ∷ refs) = if contains known p then first_unknown known refs else some p

check_reexports : ℕ → Module → Result Failure (Unit {0})
unfolding first_unknown
check_reexports m body = elim (first_unknown body.imports body.exported_modules) [
  | some re ↦ err (unimported_reexport m re)
  | none ↦ ok tt
]

unfoldable pub validate_exports : ℕ → Module → Result Failure (Unit {0})
unfolding first_unknown check_reexports
validate_exports m body = elim (first_unknown body.providers body.exports) [
  | some p ↦ err (undeclared_export m p)
  | none ↦ check_reexports m body
]

unfoldable pub validate_all : Heap → List ℕ → Result Failure (Unit {0})
unfolding validate_exports
validate_all heap [] = ok tt
validate_all heap (m ∷ order) = validate_exports m (heap m) >>= λ _. validate_all heap order

abbrev pub unowned : Owners
unowned = record {
  provider = λ _. none;
  controller = λ _. none;
  resolver = λ _. none;
  listener = λ _. none;
  scheduler = λ _. none;
}

abbrev pub start : Heap → State
start heap = record { heap = heap; owners = unowned; visited = λ _. false; order = [] }

unfoldable pub assemble : ℕ → Fns → Heap → ℕ → Result Failure State
unfolding walk validate_all
assemble fuel fns heap root =
    walk fuel fns (start heap) (root ∷ []) >>= λ s. validate_all s.heap s.order >>= λ _. ok s

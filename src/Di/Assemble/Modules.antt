-- ===== src/Di/Assemble/Modules.antt =====
-- What `assemble` returns: the modules, their owners, and exports that were checked.
use gonest.Prelude.{
  ℕ, List, [], ◌∷◌, true, false, none, some, ok, ◌≡◌, ◌↔◌, inl, inr, arith, ◌==◌, ==_iff,
  Bool-cases, Option-cases, bind-eq-ok,
}
use gonest.Prelude.Members.{contains, Within, IsUnique}
use gonest.Prelude.Graph.{Reaches, Reaches-closed}
use gonest.Di.Builder.{Module}
use gonest.Di.Assemble.{
  Fns, Heap, State, built, walk, start, first_unknown, check_reexports, validate_exports,
  validate_all, assemble,
}
use gonest.Di.Assemble.Search.{
  imports_of, Kind, owner_of, declared, Walking, Walking-start, walk-Walking,
}

-- A module exports only providers that it declares, and re-exports only modules that it imports.
pub record WellExported (body : Module) : Type 0 where
  pub providers : Within body.exports body.providers
  pub modules : Within body.exported_modules body.imports

first_unknown-none : (known refs : List ℕ) → first_unknown known refs ≡ none → Within refs known
unfolding first_unknown
first_unknown-none known [] e a h = cc
first_unknown-none known (p ∷ refs) e a h = elim (Bool-cases (contains known p)) [
  | inl known_p ↦
      let rest = first_unknown-none known refs (rw known_p at e) a in
      ground (arith, rest, ==_iff a p)
  | inr unknown ↦ ground arith
]

first_unknown-some :
    (known refs : List ℕ) {p : ℕ}
    → first_unknown known refs ≡ some p
    → (contains refs p ≡ true) × (contains known p ≡ false)
unfolding first_unknown
first_unknown-some known [] e = cc
first_unknown-some known (q ∷ refs) {p} e =
    ground (arith, first_unknown-some known refs {p = p}, ==_iff p q)

validate_exports-eq-ok :
    (m : ℕ) (body : Module) → validate_exports m body ≡ ok tt → WellExported body
unfolding validate_exports check_reexports
validate_exports-eq-ok m body e = record {
  providers = first_unknown-none body.providers body.exports (ground arith);
  modules = first_unknown-none body.imports body.exported_modules (ground arith);
}

validate_all-eq-ok :
    (heap : Heap) (order : List ℕ)
    → validate_all heap order ≡ ok tt
    → (m : ℕ) → contains order m ≡ true
    → WellExported (heap m)
unfolding validate_all
validate_all-eq-ok heap [] e m c = cc
validate_all-eq-ok heap (x ∷ order) e m c = elim (Bool-cases (m == x)) [
  | inl same ↦
      let (_, first, _) = bind-eq-ok (validate_exports x (heap x)) _ e in
      rw ((==_iff m x).0 same) (validate_exports-eq-ok x (heap x) first)
  | inr other ↦
      let (_, _, rest) = bind-eq-ok (validate_exports x (heap x)) _ e in
      validate_all-eq-ok heap order rest m (ground arith)
]

module _ (fuel : ℕ) (fns : Fns) (heap : Heap) (root : ℕ) (s : State)
    (assembled : assemble fuel fns heap root ≡ ok s) where
  walked : walk fuel fns (start heap) (root ∷ []) ≡ ok s
  unfolding assemble
  walked =
      let (s₁, first, rest) = bind-eq-ok (walk fuel fns (start heap) (root ∷ [])) _ assembled in
      let (_, _, last) = bind-eq-ok (validate_all s₁.heap s₁.order) _ rest in rw first last

  validated : validate_all s.heap s.order ≡ ok tt
  unfolding assemble
  validated =
      let (s₁, first, rest) = bind-eq-ok (walk fuel fns (start heap) (root ∷ [])) _ assembled in
      let (_, checked, last) = bind-eq-ok (validate_all s₁.heap s₁.order) _ rest in ground arith

  walking : Walking fns heap root s []
  walking =
      walk-Walking fns heap root fuel (start heap) (root ∷ []) (Walking-start fns heap root) walked

  -- The modules that `assemble` returns are those that the root reaches by imports, each once, and
  -- the `fn` of each has run exactly once on it.
  pub assemble_modules :
      IsUnique s.order
      × ((m : ℕ) → (contains s.order m ≡ true) ↔ Reaches (imports_of fns heap) root m)
      × ((m : ℕ) → contains s.order m ≡ true → s.heap m ≡ built fns heap m)
      × ((m : ℕ) → contains s.order m ≡ false → s.heap m ≡ heap m)
  assemble_modules = (
    walking.unique,
    λ m. (
      λ c. walking.reached m (rw (walking.listed m) c),
      λ r. rw (← walking.listed m) (
          Reaches-closed (λ a. s.visited a ≡ true) (ground (arith, walking.rooted))
            (λ a b v c. ground (arith, walking.closed a b)) r),
    ),
    λ m c. walking.done m (rw (walking.listed m) c),
    λ m c. walking.fresh m (rw (walking.listed m) c),
  )

  -- Every provider, controller, resolver, listener and scheduler that a returned module declares
  -- has an owner, and its owner is a returned module that declares it.
  pub assemble_owners :
      (k : Kind) (p m : ℕ)
      → contains s.order m ≡ true
      → contains (declared k (s.heap m)) p ≡ true
      → (a : ℕ) × (owner_of k s.owners p ≡ some a)
        × (contains s.order a ≡ true)
        × (contains (declared k (s.heap a)) p ≡ true)
  assemble_owners k p m c d =
      let visited : s.visited m ≡ true = rw (walking.listed m) c in
      let owned : contains (declared k (built fns heap m)) p ≡ true =
        rw (walking.done m visited) at d in
      elim (Option-cases (owner_of k s.owners p)) [
        | inl nobody ↦ absurd (walking.has_owner k p m visited owned nobody)
        | inr (a, e) ↦
            let (by, holds) = walking.owned k p a e in
            (a, e, rw (walking.listed a) at by, rw (walking.done a by) holds)
      ]

  -- Every module that `assemble` returns exports only what it declares or imports.
  pub assemble-WellExported : (m : ℕ) → contains s.order m ≡ true → WellExported (s.heap m)
  assemble-WellExported = validate_all-eq-ok s.heap s.order validated

-- ===== src/Di/Inject.antt =====
-- The injection API: internal/inject/inject.go. Its global variables are a record; values, and the slots
-- that are filled later, are data. User constructors and `Declare` are parameters on that record.
pub mod Once
pub mod Refs
pub mod Recorded
use gonest.Prelude.{
  ℕ, suc, List, [], ◌∷◌, ◌++◌, length, Bool, true, false, not, ◌&&◌, Option, none, some, ◌==◌,
  if◌then◌else◌,
}
use gonest.Prelude.Members.{contains}
use gonest.Di.Assemble.{Heap}
use gonest.Di.Exports.{effective_exports}
use gonest.Di.Graph.{PendingEdge, PendingAllEdge}

-- What an injection returns: an instance, a placeholder (by the number of its edge), or a slice.
pub data Injectable : Type 0 where
  instance_of : ℕ → Injectable
  placeholder : ℕ → Injectable
  slice_of : List ℕ → Injectable
  slice_to_fill : ℕ → Injectable

pub record Bookkeeping : Type 0 where
  pub resolving : Bool
  pub pending_edges : List PendingEdge
  pub pending_all_edges : List PendingAllEdge
  pub lazy_resolved : List (ℕ × ℕ)
  pub global_singletons : List (ℕ × ℕ)

-- `Reset`
abbrev pub reset : Bookkeeping
reset = record {
  resolving = false;
  pending_edges = [];
  pending_all_edges = [];
  lazy_resolved = [];
  global_singletons = [];
}

abbrev pub mark_resolving : Bool → Bookkeeping → Bookkeeping
mark_resolving v b = record b { resolving = v }

abbrev pub value_at : List (ℕ × ℕ) → ℕ → Option ℕ
value_at [] key = none
value_at ((k, v) ∷ rest) key = if k == key then some v else value_at rest key

abbrev pub register_global_singleton : ℕ → ℕ → Bookkeeping → Bookkeeping
register_global_singleton t v b = record b { global_singletons = (t, v) ∷ b.global_singletons }

abbrev pub global_singleton_for : ℕ → Bookkeeping → Option ℕ
global_singleton_for t b = value_at b.global_singletons t

abbrev pub lazy_resolved_value : ℕ → Bookkeeping → Option ℕ
lazy_resolved_value p b = value_at b.lazy_resolved p

pub data TypeKind : Type 0 where
  pointer interface other_kind : TypeKind

-- The cases of the owner: a lazy module with its own providers, a controller or the like with the values
-- that its scope resolves, a provider with its module, and anything else.
pub data Owner : Type 0 where
  lazy_module : (own_providers : List ℕ) → Owner
  direct : (resolve_all : ℕ → List ℕ) (resolve : ℕ → Option ℕ) → Owner
  provider : (ref module_of : ℕ) → Owner
  no_owner : Owner

-- Errors that are returned, and panics.
pub data Reason : Type 0 where
  during_resolution not_a_pointer no_provider ambiguous unsupported_owner : Reason
  not_an_interface not_singleton no_constructor constructor_failed records_dependency out_of_fuel :
      Reason

pub data Outcome : Type 0 where
  injected : Injectable → Outcome
  refused : Reason → Outcome
  panicked : Reason → Outcome

-- What the code reads of a provider, and what it calls: `Declare`, and the constructor, if there is one,
-- which returns an instance or an error and may itself inject.
pub record Providers : Type 0 where
  pub resolved_type : ℕ → ℕ
  pub inner : ℕ → ℕ
  pub is_singleton : ℕ → Bool
  pub declare : ℕ → Bookkeeping → Bookkeeping
  pub constructor_of : ℕ → Option (Bookkeeping → Bookkeeping × Option ℕ)

module _ (ps : Providers) where
  -- `add` of `findAllRefs`; a view stands for the provider that it wraps.
  abbrev add_new : Bool → ℕ → List ℕ → List ℕ
  add_new true p out = out
  add_new false p out = out ++ p ∷ []

  abbrev pub add_ref : ℕ → ℕ → List ℕ → List ℕ
  add_ref t p out =
      if ps.resolved_type p == t then add_new (contains out (ps.inner p)) (ps.inner p) out else out

  unfoldable pub add_refs : ℕ → List ℕ → List ℕ → List ℕ
  add_refs t [] out = out
  add_refs t (p ∷ providers) out = add_refs t providers (add_ref t p out)

  unfoldable pub add_imported : ℕ → Heap → ℕ → List ℕ → List ℕ → Option (List ℕ)
  add_imported fuel heap t [] out = some out
  add_imported fuel heap t (m ∷ imports) out = elim (effective_exports fuel heap m) [
    | none ↦ none
    | some exposed ↦ add_imported fuel heap t imports (add_refs t exposed out)
  ]

  unfoldable pub find_all_refs : ℕ → Heap → ℕ → ℕ → Option (List ℕ)
  find_all_refs fuel heap m t =
      add_imported fuel heap t (heap m).imports (add_refs t (heap m).providers [])

  -- The loop of `mustLazyByType`: every own provider is declared, and the last one of the type is taken.
  last_match : Bool → ℕ → Option ℕ → Option ℕ
  last_match true p matched = some p
  last_match false p matched = matched

  unfoldable pub declare_all : ℕ → List ℕ → Bookkeeping × Option ℕ → Bookkeeping × Option ℕ
  unfolding last_match
  declare_all t [] state = state
  declare_all t (p ∷ providers) (b, matched) =
      declare_all t providers (ps.declare p b, last_match (ps.resolved_type p == t) p matched)

  abbrev constructed : ℕ → ℕ → Bookkeeping × Option ℕ → Bookkeeping × Outcome
  constructed before p (b, none) = (b, panicked constructor_failed)
  constructed before p (b, some real) =
      if length b.pending_edges == before
      then (record b { lazy_resolved = (p, real) ∷ b.lazy_resolved }, injected (instance_of real))
      else (b, panicked records_dependency)

  abbrev construct_lazily :
      Option (Bookkeeping → Bookkeeping × Option ℕ) → ℕ → Bookkeeping → Bookkeeping × Outcome
  construct_lazily none p b = (b, panicked no_constructor)
  construct_lazily (some call) p b = constructed (length b.pending_edges) p (call b)

  abbrev lazily : Option ℕ → ℕ → Bookkeeping → Bookkeeping × Outcome
  lazily (some v) p b = (b, injected (instance_of v))
  lazily none p b =
      if ps.is_singleton p
      then construct_lazily (ps.constructor_of p) p b
      else (b, panicked not_singleton)

  abbrev matched_lazily : Bookkeeping × Option ℕ → Bookkeeping × Outcome
  matched_lazily (b, none) = (b, panicked no_provider)
  matched_lazily (b, some p) = lazily (lazy_resolved_value p b) p b

  abbrev of_pointer : TypeKind → Bookkeeping × Outcome → Bookkeeping → Bookkeeping × Outcome
  of_pointer pointer result b = result
  of_pointer _ result b = (b, panicked not_a_pointer)

  unfoldable pub must_lazy_by_type : TypeKind → List ℕ → ℕ → Bookkeeping → Bookkeeping × Outcome
  must_lazy_by_type kind own t b = of_pointer kind (matched_lazily (declare_all t own (b, none))) b

  -- `LazyModule.Inject` and `LazyModule.SafeInject`, by way of the functions that `init` sets: they ask
  -- neither for a global singleton nor whether providers are constructed. The second one recovers panics.
  unfoldable pub lazy_inject : TypeKind → List ℕ → ℕ → Bookkeeping → Bookkeeping × Outcome
  lazy_inject kind own t b = must_lazy_by_type kind own t b

  abbrev recovered : Bookkeeping × Outcome → Bookkeeping × Outcome
  recovered (b, panicked reason) = (b, refused reason)
  recovered (b, outcome) = (b, outcome)

  unfoldable pub lazy_safe_inject : TypeKind → List ℕ → ℕ → Bookkeeping → Bookkeeping × Outcome
  lazy_safe_inject kind own t b = recovered (must_lazy_by_type kind own t b)

  abbrev one_of : List ℕ → Outcome
  one_of [] = refused no_provider
  one_of (v ∷ []) = injected (instance_of v)
  one_of _ = refused ambiguous

  abbrev resolved : Option ℕ → Outcome
  resolved none = refused no_provider
  resolved (some v) = injected (instance_of v)

  abbrev resolve_direct : TypeKind → (ℕ → List ℕ) → (ℕ → Option ℕ) → ℕ → Outcome
  resolve_direct interface resolve_all resolve t = one_of (resolve_all t)
  resolve_direct _ resolve_all resolve t = resolved (resolve t)

  abbrev record_edge : TypeKind → ℕ → ℕ → ℕ → Bookkeeping → Bookkeeping × Outcome
  record_edge pointer ref m t b = (
    record b {
      pending_edges =
          b.pending_edges
          ++ record { owner_ref = some ref; owner_module = m; target_type = t } ∷ [];
    },
    injected (placeholder (length b.pending_edges)),
  )
  record_edge _ ref m t b = (b, refused not_a_pointer)

  abbrev without_owner : TypeKind → Outcome
  without_owner pointer = refused unsupported_owner
  without_owner _ = refused not_a_pointer

  abbrev inject_for : TypeKind → Owner → ℕ → Bookkeeping → Bookkeeping × Outcome
  inject_for kind (lazy_module own) t b = must_lazy_by_type kind own t b
  inject_for kind (direct resolve_all resolve) t b = (b, resolve_direct kind resolve_all resolve t)
  inject_for kind (provider ref m) t b = record_edge kind ref m t b
  inject_for kind no_owner t b = (b, without_owner kind)

  abbrev unless_global : Option ℕ → TypeKind → Owner → ℕ → Bookkeeping → Bookkeeping × Outcome
  unless_global (some v) kind owner t b = (b, injected (instance_of v))
  unless_global none kind owner t b =
      if b.resolving then (b, refused during_resolution) else inject_for kind owner t b

  -- `SafeInjectByType`
  unfoldable pub safe_inject : TypeKind → Owner → ℕ → Bookkeeping → Bookkeeping × Outcome
  safe_inject kind owner t b = unless_global (global_singleton_for t b) kind owner t b

  -- `InjectByType` panics where the other returns an error.
  abbrev panicking : Outcome → Outcome
  panicking (refused reason) = panicked reason
  panicking outcome = outcome

  unfoldable pub inject : TypeKind → Owner → ℕ → Bookkeeping → Bookkeeping × Outcome
  inject kind owner t b =
      let (after, outcome) = safe_inject kind owner t b in (after, panicking outcome)

  abbrev pub all_singletons : List ℕ → Bool
  all_singletons [] = true
  all_singletons (p ∷ matches) = ps.is_singleton p && all_singletons matches

  abbrev record_all : Option (List ℕ) → ℕ → Bookkeeping → Bookkeeping × Outcome
  record_all none ref b = (b, panicked out_of_fuel)
  record_all (some matches) ref b =
      if all_singletons matches
      then (
        record b {
          pending_all_edges =
              b.pending_all_edges ++ record { owner_ref = some ref; matches = matches } ∷ [];
        },
        injected (slice_to_fill (length b.pending_all_edges)),
      )
      else (b, panicked not_singleton)

  abbrev inject_all_for : ℕ → Heap → Owner → ℕ → Bookkeeping → Bookkeeping × Outcome
  inject_all_for fuel heap (direct resolve_all resolve) t b =
      (b, injected (slice_of (resolve_all t)))
  inject_all_for fuel heap (lazy_module own) t b = (b, panicked unsupported_owner)
  inject_all_for fuel heap (provider ref m) t b = record_all (find_all_refs fuel heap m t) ref b
  inject_all_for fuel heap no_owner t b = (b, panicked unsupported_owner)

  -- `InjectAllByType`
  unfoldable pub inject_all : ℕ → Heap → TypeKind → Owner → ℕ → Bookkeeping → Bookkeeping × Outcome
  inject_all fuel heap interface owner t b =
      if b.resolving then (b, panicked during_resolution) else inject_all_for fuel heap owner t b
  inject_all fuel heap _ owner t b = (b, panicked not_an_interface)

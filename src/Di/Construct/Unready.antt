-- ===== src/Di/Construct/Unready.antt =====
-- Two runs in which a constructor is called before what it depends on is in place.
use gonest.Prelude.{
  ℕ, List, [], ◌∷◌, Bool, true, false, ◌≡◌, ◌≢◌, refl, sym, ◌∙◌, ◌==◌, ==_iff, Bool-cases, inl, inr,
}
use gonest.Prelude.Members.{contains}
use gonest.Di.Assemble.{update}
use gonest.Di.Construct.Ready.{update_self}
use gonest.Di.Construct.Steps.{
  Status, waiting, running, returned, Site, Run, initial, all_closed, node_is, close, Event, Step,
  starts, releases, fails, Runs, begin, then_step, AnyEvent, IsCalm,
}

pub update_other : {A : Type 0} (f : ℕ → A) (i j : ℕ) (a : A) → j ≢ i → update f i a j ≡ f j
unfolding update
update_other f i j a other = elim (Bool-cases (j == i)) [
  | inl e ↦ absurd (other ((==_iff j i).0 e))
  | inr e ↦ rw e refl
]

-- The one dependency of a node, when its channel is closed.
one_closed :
    (closed : ℕ → Bool) (deps : List ℕ) (d : ℕ)
    → deps ≡ d ∷ []
    → all_closed (update closed d true) deps ≡ true
one_closed closed deps d e = rw (e, update_self closed d true) refl

module _ (site : Site) (n d : ℕ) where
  -- What both runs are about: a singleton whose only dependency has none itself.
  pub record IsPair : Type 0 where
    pub both : (contains site.nodes n ≡ true) × (contains site.nodes d ≡ true)
    pub distinct : n ≢ d
    pub singleton : site.transient n ≡ false
    pub only : site.deps n ≡ d ∷ []
    pub none : site.deps d ≡ []

  -- The dependency's channel is closed, and the node is not cancelled.
  starts_after :
      (pair : IsPair) (status : Status) (r : Run)
      → r.node n ≡ waiting
      → r.cancelled ≡ false
      → Step site
          (node_is d status (close d r))
          (Event.start n)
          (node_is n running (node_is d status (close d r)))
  starts_after pair status r waits going =
      starts n pair.both.0 pair.singleton (update_other r.node d n status pair.distinct ∙ waits)
        (one_closed r.closed (site.deps n) d pair.only) going

  leaf_closed : (closed : ℕ → Bool) → IsPair → all_closed closed (site.deps d) ≡ true
  leaf_closed closed pair = let e = pair.none in rw e refl

-- For a singleton whose only dependency is another singleton without dependencies, there is a run in which
-- its constructor is called although the constructor of that dependency has failed and nothing was copied
-- to its placeholder: the failing goroutine closes its channel before errgroup cancels the context, and
-- the waiting goroutine may pass its wait in between.
pub starts_after_failure :
    (site : Site) (n d : ℕ)
    → IsPair site n d
    → site.transient d ≡ false
    → (r : Run) × Runs site AnyEvent r
      × (r.node n ≡ running)
      × (r.node d ≡ returned true)
      × (r.filled d ≡ false)
starts_after_failure site n d pair singleton =
    let building = node_is d running initial in
    let failed = node_is d (returned true) (close d building) in
    (
      node_is n running failed,
      then_step
          (then_step
            (then_step begin tt
              (starts d pair.both.1 singleton refl (leaf_closed site n d (λ _. false) pair) refl))
            tt (fails d (update_self (λ _. waiting) d running)))
          tt
          (starts_after site n d pair (returned true) building
            (update_other (λ _. waiting) d n running pair.distinct) refl),
      update_self failed.node n running,
      update_other failed.node n d running (λ e. pair.distinct (sym e))
          ∙ update_self building.node d (returned true),
      refl,
    )

-- For a singleton whose only dependency is a transient provider without dependencies, there is a run
-- without a failure in which its constructor is called although no instance of the transient provider has
-- been constructed: a transient provider's channel closes before the constructors for its edges run.
pub starts_before_transient :
    (site : Site) (n d : ℕ)
    → IsPair site n d
    → site.transient d ≡ true
    → (r : Run) × Runs site IsCalm r
      × (r.node n ≡ running)
      × ((e : ℕ) → (r.edge e ≡ waiting) × (r.edge_filled e ≡ false))
starts_before_transient site n d pair transient =
    let released = node_is d (returned false) (close d initial) in
    (
      node_is n running released,
      then_step
          (then_step begin tt
            (releases d pair.both.1 transient refl (leaf_closed site n d (λ _. false) pair) refl))
          tt (starts_after site n d pair (returned false) initial refl refl),
      update_self released.node n running,
      λ e. (refl, refl),
    )

-- ===== src/Di/Construct/Progress.antt =====
-- The construction of an acyclic graph does not get stuck.
use gonest.Prelude.{
  ℕ, zero, suc, ◌<◌, List, [], ◌∷◌, Bool, true, false, ◌≡◌, ◌≢◌, refl, subst, ◌⊎◌, Bool-cases, inl,
  inr, arith,
}
use gonest.Prelude.Members.{contains}
use gonest.Di.Construct.Steps.{
  Status, waiting, running, returned, finished, Site, Run, all_closed, node_is, close, fill,
  cancel_if, Event, cancel, Step, starts, releases, gives_up, constructs, fails, reports,
  starts_edge, gives_up_edge, constructs_edge, fails_edge, reports_edge, cancels, Runs, begin,
  then_step, AnyEvent,
}
use gonest.Di.Construct.Ready.{update-at, update_self}

open_dep :
    (closed : ℕ → Bool) (deps : List ℕ)
    → all_closed closed deps ≡ false
    → (d : ℕ) × (contains deps d ≡ true) × (closed d ≡ false)
open_dep closed [] e = cc
open_dep closed (d ∷ deps) e = elim (Bool-cases (closed d)) [
  | inl shut ↦
      (let (found, listed, open_there) = open_dep closed deps (ground arith) in
        (found, ground arith, open_there))
  | inr open_here ↦ (d, ground arith, open_here)
]

abbrev IsOpen : Status → Type 0
IsOpen waiting = Unit
IsOpen running = Unit
IsOpen _ = ⊥

-- The goroutine of an open channel has not returned.
abbrev OpenWaits : Run → Type 0
OpenWaits r = (n : ℕ) → r.closed n ≡ false → IsOpen (r.node n)

close-OpenWaits : (r : Run) (n : ℕ) → OpenWaits r → OpenWaits (close n r)
close-OpenWaits r n inv =
    update-at (λ j c. c ≡ false → IsOpen (r.node j)) r.closed n true inv (λ e. cc)

node_is-OpenWaits :
    (r : Run) (n : ℕ) (status : Status)
    → (r.closed n ≡ false → IsOpen status)
    → OpenWaits r
    → OpenWaits (node_is n status r)
node_is-OpenWaits r n status here inv =
    update-at (λ j s. r.closed j ≡ false → IsOpen s) r.node n status inv here

-- A goroutine returns with its channel closed.
return-OpenWaits :
    (r : Run) (n : ℕ) (status : Status) → OpenWaits r → OpenWaits (node_is n status (close n r))
return-OpenWaits r n status inv =
    node_is-OpenWaits (close n r) n status (λ e. let shut = update_self r.closed n true in cc)
      (close-OpenWaits r n inv)

Step-OpenWaits :
    {site : Site} {r s : Run} {event : Event} → Step site r event s → OpenWaits r → OpenWaits s
Step-OpenWaits {r} (starts n _ _ _ _ _) inv = node_is-OpenWaits r n running (λ _. tt) inv
Step-OpenWaits {r} (releases n _ _ _ _ _) inv = return-OpenWaits r n (returned false) inv
Step-OpenWaits {r} (gives_up n _ _ _) inv = return-OpenWaits r n (returned true) inv
Step-OpenWaits {r} (constructs n _) inv = return-OpenWaits (fill n r) n (returned false) inv
Step-OpenWaits {r} (fails n _) inv = return-OpenWaits r n (returned true) inv
Step-OpenWaits {r} (reports n failed back) inv =
    node_is-OpenWaits (cancel_if failed r) n finished (λ e. subst IsOpen back (inv n e)) inv
Step-OpenWaits (starts_edge _ _ _ _) inv = inv
Step-OpenWaits (gives_up_edge _ _ _ _) inv = inv
Step-OpenWaits (constructs_edge _ _) inv = inv
Step-OpenWaits (fails_edge _ _) inv = inv
Step-OpenWaits (reports_edge _ _ _) inv = inv
Step-OpenWaits cancels inv = inv

pub Runs-OpenWaits :
    {site : Site} {Allowed : Event → Type 0} {r : Run} → Runs site Allowed r → OpenWaits r
Runs-OpenWaits begin = λ n e. tt
Runs-OpenWaits (then_step before allowed step) = Step-OpenWaits step (Runs-OpenWaits before)

-- The events of the goroutines themselves: all but the cancellation from outside.
abbrev pub IsOwn : Event → Type 0
IsOwn cancel = ⊥
IsOwn event = Unit

-- Some goroutine can take a step.
abbrev pub CanStep : Site → Run → Type 0
CanStep site r = (event : Event) × (s : Run) × IsOwn event × Step site r event s

-- The graph is acyclic, and stays among the nodes.
pub record IsSound (site : Site) : Type 0 where
  pub rank : ℕ → ℕ
  pub falls : (n d : ℕ) → contains (site.deps n) d ≡ true → rank d < rank n
  pub inside : (n d : ℕ) → contains (site.deps n) d ≡ true → contains site.nodes d ≡ true
  pub targets :
      (e : ℕ) → contains site.edges e ≡ true → contains site.nodes (site.edge_target e) ≡ true

IsOpen-unfinished : (status : Status) → IsOpen status → status ≢ finished
IsOpen-unfinished waiting is_open = λ e. cc
IsOpen-unfinished running is_open = λ e. cc
IsOpen-unfinished (returned failed) is_open = absurd is_open
IsOpen-unfinished finished is_open = absurd is_open

module _ (site : Site) (sound : IsSound site) (r : Run) (waits : OpenWaits r) where
  passed-CanStep :
      (n : ℕ)
      → contains site.nodes n ≡ true
      → r.node n ≡ waiting
      → all_closed r.closed (site.deps n) ≡ true
      → r.cancelled ≡ false
      → CanStep site r
  passed-CanStep n listed here closed going = elim (Bool-cases (site.transient n)) [
    | inl transient ↦ (Event.release n, _, tt, releases n listed transient here closed going)
    | inr singleton ↦ (Event.start n, _, tt, starts n listed singleton here closed going)
  ]

  node-CanStep :
      (bound n : ℕ)
      → sound.rank n < bound
      → contains site.nodes n ≡ true
      → (status : Status) → r.node n ≡ status
      → status ≢ finished
      → CanStep site r
  node-CanStep zero n below listed status here unfinished = absurd (omega arith)
  node-CanStep (suc bound) n below listed running here unfinished =
      (Event.construct n, _, tt, constructs n here)
  node-CanStep (suc bound) n below listed (returned failed) here unfinished =
      (Event.report n, _, tt, reports n failed here)
  node-CanStep (suc bound) n below listed finished here unfinished = absurd (unfinished refl)
  node-CanStep (suc bound) n below listed waiting here unfinished = elim (Bool-cases r.cancelled) [
    | inl cancelled ↦ (Event.give_up n, _, tt, gives_up n listed here cancelled)
    | inr going ↦ elim (Bool-cases (all_closed r.closed (site.deps n))) [
      | inl closed ↦ passed-CanStep n listed here closed going
      | inr opened ↦
          (let (d, dep, is_open) = open_dep r.closed (site.deps n) opened in
            node-CanStep bound d (omega (arith, sound.falls n d dep)) (sound.inside n d dep)
              (r.node d) refl (IsOpen-unfinished (r.node d) (waits d is_open)))
    ]
  ]

  edge-CanStep :
      (e : ℕ)
      → contains site.edges e ≡ true
      → (status : Status) → r.edge e ≡ status
      → status ≢ finished
      → CanStep site r
  edge-CanStep e listed running here unfinished =
      (Event.construct_edge e, _, tt, constructs_edge e here)
  edge-CanStep e listed (returned failed) here unfinished =
      (Event.report_edge e, _, tt, reports_edge e failed here)
  edge-CanStep e listed finished here unfinished = absurd (unfinished refl)
  edge-CanStep e listed waiting here unfinished =
      let target = site.edge_target e in
      elim (Bool-cases (r.closed target)) [
        | inl closed ↦ (Event.start_edge e, _, tt, starts_edge e listed here closed)
        | inr is_open ↦
            node-CanStep (suc (sound.rank target)) target (omega arith) (sound.targets e listed)
              (r.node target) refl (IsOpen-unfinished (r.node target) (waits target is_open))
      ]

-- The construction does not get stuck: in every run over an acyclic graph, failures and cancellation
-- included, some goroutine can step as long as the goroutine of a provider or of an edge has not finished.
pub Runs-CanStep :
    (site : Site) (r : Run)
    → IsSound site
    → Runs site AnyEvent r
    → ((n : ℕ) × (contains site.nodes n ≡ true) × (r.node n ≢ finished))
      ⊎ ((e : ℕ) × (contains site.edges e ≡ true) × (r.edge e ≢ finished))
    → CanStep site r
Runs-CanStep site r sound runs (inl (n, listed, unfinished)) =
    node-CanStep site sound r (Runs-OpenWaits runs) (suc (sound.rank n)) n (omega arith) listed
      (r.node n) refl unfinished
Runs-CanStep site r sound runs (inr (e, listed, unfinished)) =
    edge-CanStep site sound r (Runs-OpenWaits runs) e listed (r.edge e) refl unfinished

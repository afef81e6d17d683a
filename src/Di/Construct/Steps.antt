-- ===== src/Di/Construct/Steps.antt =====
-- The goroutines of resolveGraph, as steps in any order: one for each provider, and one for each pending
-- edge to a transient provider (internal/resolver/stage3.go, with errgroup.Group).
use gonest.Prelude.{ℕ, List, [], ◌∷◌, Bool, true, false, ◌&&◌, ◌||◌, ◌≡◌}
use gonest.Prelude.Members.{contains}
use gonest.Di.Assemble.{update}

-- `returned` is a goroutine whose function has returned, with an error or without, before errgroup has
-- looked at its result: by then the deferred close of the channel has run, and the cancellation has not.
pub data Status : Type 0 where
  waiting running : Status
  returned : (failed : Bool) → Status
  finished : Status

-- What the goroutines share. The nodes, their dependencies among the nodes, which of them are transient,
-- and for each edge to a transient one the provider that it resolves to.
pub record Site : Type 0 where
  pub nodes : List ℕ
  pub deps : ℕ → List ℕ
  pub transient : ℕ → Bool
  pub edges : List ℕ
  pub edge_target : ℕ → ℕ

-- `closed` is the `done` channels; a provider or an edge is `filled` when its instance is copied to the
-- placeholders.
pub record Run : Type 0 where
  pub node : ℕ → Status
  pub edge : ℕ → Status
  pub closed : ℕ → Bool
  pub filled : ℕ → Bool
  pub edge_filled : ℕ → Bool
  pub cancelled : Bool

abbrev pub initial : Run
initial = record {
  node = λ _. waiting;
  edge = λ _. waiting;
  closed = λ _. false;
  filled = λ _. false;
  edge_filled = λ _. false;
  cancelled = false;
}

-- The loop of `waitDeps` has passed.
abbrev pub all_closed : (ℕ → Bool) → List ℕ → Bool
all_closed closed [] = true
all_closed closed (d ∷ deps) = closed d && all_closed closed deps

abbrev pub node_is : ℕ → Status → Run → Run
node_is n status r = record r { node = update r.node n status }

abbrev pub edge_is : ℕ → Status → Run → Run
edge_is e status r = record r { edge = update r.edge e status }

abbrev pub close : ℕ → Run → Run
close n r = record r { closed = update r.closed n true }

abbrev pub fill : ℕ → Run → Run
fill n r = record r { filled = update r.filled n true }

abbrev pub fill_edge : ℕ → Run → Run
fill_edge e r = record r { edge_filled = update r.edge_filled e true }

abbrev pub cancel_if : Bool → Run → Run
cancel_if failed r = record r { cancelled = r.cancelled || failed }

-- Each goroutine's own events, and the cancellation of the caller's context.
pub data Event : Type 0 where
  start release give_up construct fail report : ℕ → Event
  start_edge give_up_edge construct_edge fail_edge report_edge : ℕ → Event
  cancel : Event

pub data Step (site : Site) (r : Run) : Event → Run → Type 0 where
  -- `waitDeps` returns nil: the constructor of a singleton is called.
  starts :
      (n : ℕ)
      → contains site.nodes n ≡ true
      → site.transient n ≡ false
      → r.node n ≡ waiting
      → all_closed r.closed (site.deps n) ≡ true
      → r.cancelled ≡ false
      → Step site r (start n) (node_is n running r)
  -- The goroutine of a transient provider only closes its channel.
  releases :
      (n : ℕ)
      → contains site.nodes n ≡ true
      → site.transient n ≡ true
      → r.node n ≡ waiting
      → all_closed r.closed (site.deps n) ≡ true
      → r.cancelled ≡ false
      → Step site r (release n) (node_is n (returned false) (close n r))
  -- `waitDeps` returns the error of the context.
  gives_up :
      (n : ℕ)
      → contains site.nodes n ≡ true
      → r.node n ≡ waiting
      → r.cancelled ≡ true
      → Step site r (give_up n) (node_is n (returned true) (close n r))
  -- `invokeAndCopy` returns.
  constructs :
      (n : ℕ)
      → r.node n ≡ running
      → Step site r (construct n) (node_is n (returned false) (close n (fill n r)))
  fails :
      (n : ℕ) → r.node n ≡ running → Step site r (fail n) (node_is n (returned true) (close n r))
  -- errgroup sees the result, and the first error cancels the context.
  reports :
      (n : ℕ) (failed : Bool)
      → r.node n ≡ returned failed
      → Step site r (report n) (node_is n finished (cancel_if failed r))
  starts_edge :
      (e : ℕ)
      → contains site.edges e ≡ true
      → r.edge e ≡ waiting
      → r.closed (site.edge_target e) ≡ true
      → Step site r (start_edge e) (edge_is e running r)
  gives_up_edge :
      (e : ℕ)
      → contains site.edges e ≡ true
      → r.edge e ≡ waiting
      → r.cancelled ≡ true
      → Step site r (give_up_edge e) (edge_is e (returned true) r)
  constructs_edge :
      (e : ℕ)
      → r.edge e ≡ running
      → Step site r (construct_edge e) (edge_is e (returned false) (fill_edge e r))
  fails_edge :
      (e : ℕ) → r.edge e ≡ running → Step site r (fail_edge e) (edge_is e (returned true) r)
  reports_edge :
      (e : ℕ) (failed : Bool)
      → r.edge e ≡ returned failed
      → Step site r (report_edge e) (edge_is e finished (cancel_if failed r))
  cancels : Step site r cancel (cancel_if true r)

-- The runs whose events all satisfy a predicate.
pub data Runs (site : Site) (Allowed : Event → Type 0) : Run → Type 0 where
  begin : Runs site Allowed initial
  then_step :
      {r s : Run} {event : Event}
      → Runs site Allowed r
      → Allowed event
      → Step site r event s
      → Runs site Allowed s

abbrev pub AnyEvent : Event → Type 0
AnyEvent event = Unit

-- No constructor fails, and the caller's context is not cancelled.
abbrev pub IsCalm : Event → Type 0
IsCalm (fail n) = ⊥
IsCalm (fail_edge e) = ⊥
IsCalm cancel = ⊥
IsCalm event = Unit

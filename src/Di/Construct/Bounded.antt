-- ===== src/Di/Construct/Bounded.antt =====
-- The steps of the goroutines, counted: each takes at most three.
use gonest.Prelude.{
  ℕ, suc, ◌+◌, ◌*◌, ◌≤◌, ◌<◌, List, [], ◌∷◌, true, false, ◌≡◌, ◌≢◌, refl, sym, ap, ◌∙◌, ◌==◌,
  ==_iff, Bool-cases, inl, inr, arith, length,
}
use gonest.Prelude.Members.{contains}
use gonest.Di.Assemble.{update}
use gonest.Di.Construct.Steps.{
  Status, waiting, running, returned, finished, Site, Run, Event, cancel, Step, starts, releases,
  gives_up, constructs, fails, reports, starts_edge, gives_up_edge, constructs_edge, fails_edge,
  reports_edge, cancels, Runs, begin, then_step,
}
use gonest.Di.Construct.Ready.{update-at}

-- The steps that a goroutine has left.
abbrev weight : Status → ℕ
weight waiting = 3
weight running = 2
weight (returned failed) = 1
weight finished = 0

abbrev total : (ℕ → Status) → List ℕ → ℕ
total f [] = 0
total f (x ∷ xs) = weight (f x) + total f xs

total-le :
    (f : ℕ → Status) (i : ℕ) (status : Status) (xs : List ℕ)
    → weight status < weight (f i)
    → total (update f i status) xs ≤ total f xs
unfolding update
total-le f i status [] lighter = omega arith
total-le f i status (x ∷ xs) lighter = elim (Bool-cases (x == i)) [
  | inl e ↦
      (let k : x ≡ i = (==_iff x i).0 e in
        rw e (omega (arith, total-le f i status xs lighter, ap (λ y. weight (f y)) k)))
  | inr e ↦ rw e (omega (arith, total-le f i status xs lighter))
]

total-lt :
    (f : ℕ → Status) (i : ℕ) (status : Status) (xs : List ℕ)
    → contains xs i ≡ true
    → weight status < weight (f i)
    → total (update f i status) xs < total f xs
unfolding update
total-lt f i status [] listed lighter = absurd cc
total-lt f i status (x ∷ xs) listed lighter = elim (Bool-cases (x == i)) [
  | inl e ↦
      (let k : x ≡ i = (==_iff x i).0 e in
        rw e (omega (arith, total-le f i status xs lighter, ap (λ y. weight (f y)) k)))
  | inr e ↦
      rw e (omega (arith, total-lt f i status xs (ground (arith, ==_iff x i, ==_iff i x)) lighter))
]

-- Only the goroutines that there are have left their first status.
abbrev Stay : List ℕ → (ℕ → Status) → Type 0
Stay xs f = (i : ℕ) → f i ≢ waiting → contains xs i ≡ true

Stay-update :
    (xs : List ℕ) (f : ℕ → Status) (i : ℕ) (status : Status)
    → contains xs i ≡ true
    → Stay xs f
    → Stay xs (update f i status)
Stay-update xs f i status listed stay =
    update-at (λ j s. s ≢ waiting → contains xs j ≡ true) f i status stay (λ _. listed)

left-waiting : {status other : Status} → status ≡ other → other ≢ waiting → status ≢ waiting
left-waiting e other = λ h. other (sym e ∙ h)

abbrev Stays : Site → Run → Type 0
Stays site r = Stay site.nodes r.node × Stay site.edges r.edge

-- 1 for an event of a goroutine, 0 for the cancellation from outside.
abbrev pub own : Event → ℕ
own cancel = 0
own event = 1

abbrev remaining : Site → Run → ℕ
remaining site r = total r.node site.nodes + total r.edge site.edges

module _ (site : Site) where
  -- A step of a node's goroutine, and one of an edge's.
  node-Moves :
      (r : Run) (n : ℕ) (status before : Status)
      → contains site.nodes n ≡ true
      → r.node n ≡ before
      → weight status < weight before
      → Stays site r
      → Stay site.nodes (update r.node n status)
        × (suc (total (update r.node n status) site.nodes) ≤ total r.node site.nodes)
  node-Moves r n status before listed here lighter stays = (
    Stay-update site.nodes r.node n status listed stays.0,
    total-lt r.node n status site.nodes listed (rw here lighter),
  )

  edge-Moves :
      (r : Run) (e : ℕ) (status before : Status)
      → contains site.edges e ≡ true
      → r.edge e ≡ before
      → weight status < weight before
      → Stays site r
      → Stay site.edges (update r.edge e status)
        × (suc (total (update r.edge e status) site.edges) ≤ total r.edge site.edges)
  edge-Moves r e status before listed here lighter stays = (
    Stay-update site.edges r.edge e status listed stays.1,
    total-lt r.edge e status site.edges listed (rw here lighter),
  )

  abbrev Moves : Event → Run → Run → Type 0
  Moves event r s = Stays site s × (own event + remaining site s ≤ remaining site r)

  by_node :
      (r : Run) (f : ℕ → Status)
      → Stays site r
      → Stay site.nodes f × (suc (total f site.nodes) ≤ total r.node site.nodes)
      → (Stay site.nodes f × Stay site.edges r.edge)
        × (1 + (total f site.nodes + total r.edge site.edges) ≤ remaining site r)
  by_node r f stays (stay, lighter) = ((stay, stays.1), omega arith)

  by_edge :
      (r : Run) (f : ℕ → Status)
      → Stays site r
      → Stay site.edges f × (suc (total f site.edges) ≤ total r.edge site.edges)
      → (Stay site.nodes r.node × Stay site.edges f)
        × (1 + (total r.node site.nodes + total f site.edges) ≤ remaining site r)
  by_edge r f stays (stay, lighter) = ((stays.0, stay), omega arith)

  left_node :
      (r : Run) (n : ℕ) (status : Status)
      → Stays site r
      → r.node n ≡ status
      → status ≢ waiting
      → contains site.nodes n ≡ true
  left_node r n status stays here other = stays.0 n (left-waiting here other)

  left_edge :
      (r : Run) (e : ℕ) (status : Status)
      → Stays site r
      → r.edge e ≡ status
      → status ≢ waiting
      → contains site.edges e ≡ true
  left_edge r e status stays here other = stays.1 e (left-waiting here other)

  Step-Moves : {r s : Run} {event : Event} → Step site r event s → Stays site r → Moves event r s
  Step-Moves {r} (starts n listed _ here _ _) stays =
      by_node r _ stays (node-Moves r n running waiting listed here (omega arith) stays)
  Step-Moves {r} (releases n listed _ here _ _) stays =
      by_node r _ stays (node-Moves r n (returned false) waiting listed here (omega arith) stays)
  Step-Moves {r} (gives_up n listed here _) stays =
      by_node r _ stays (node-Moves r n (returned true) waiting listed here (omega arith) stays)
  Step-Moves {r} (constructs n here) stays =
      let listed = left_node r n running stays here (λ e. cc) in
      by_node r _ stays (node-Moves r n (returned false) running listed here (omega arith) stays)
  Step-Moves {r} (fails n here) stays =
      let listed = left_node r n running stays here (λ e. cc) in
      by_node r _ stays (node-Moves r n (returned true) running listed here (omega arith) stays)
  Step-Moves {r} (reports n failed here) stays =
      let listed = left_node r n (returned failed) stays here (λ e. cc) in
      by_node r _ stays (node-Moves r n finished (returned failed) listed here (omega arith) stays)
  Step-Moves {r} (starts_edge e listed here _) stays =
      by_edge r _ stays (edge-Moves r e running waiting listed here (omega arith) stays)
  Step-Moves {r} (gives_up_edge e listed here _) stays =
      by_edge r _ stays (edge-Moves r e (returned true) waiting listed here (omega arith) stays)
  Step-Moves {r} (constructs_edge e here) stays =
      let listed = left_edge r e running stays here (λ k. cc) in
      by_edge r _ stays (edge-Moves r e (returned false) running listed here (omega arith) stays)
  Step-Moves {r} (fails_edge e here) stays =
      let listed = left_edge r e running stays here (λ k. cc) in
      by_edge r _ stays (edge-Moves r e (returned true) running listed here (omega arith) stays)
  Step-Moves {r} (reports_edge e failed here) stays =
      let listed = left_edge r e (returned failed) stays here (λ k. cc) in
      by_edge r _ stays (edge-Moves r e finished (returned failed) listed here (omega arith) stays)
  Step-Moves cancels stays = (stays, omega arith)

  -- The events of goroutines in a run.
  abbrev pub taken : {Allowed : Event → Type 0} {r : Run} → Runs site Allowed r → ℕ
  taken begin = 0
  taken (then_step {event} before allowed step) = own event + taken before

  total-initial : (xs : List ℕ) → total (λ _. waiting) xs ≡ 3 * length xs
  total-initial [] = omega arith
  total-initial (x ∷ xs) = omega (arith, total-initial xs)

  abbrev Spent : Run → ℕ → Type 0
  Spent r steps =
      Stays site r × (steps + remaining site r ≤ 3 * length site.nodes + 3 * length site.edges)

  Runs-Spent :
      {Allowed : Event → Type 0} {r : Run} (runs : Runs site Allowed r) → Spent r (taken runs)
  Runs-Spent begin = (
    (λ i e. absurd (e refl), λ i e. absurd (e refl)),
    omega (arith, total-initial site.nodes, total-initial site.edges),
  )
  Runs-Spent (then_step before allowed step) =
      let (stays, spent) = Runs-Spent before in
      let (stays_on, lighter) = Step-Moves step stays in (stays_on, omega arith)

-- In every run, failures and cancellation included, the goroutines take together
-- at most three steps for each provider and three for each edge to a transient provider.
pub Runs-taken :
    (site : Site) (Allowed : Event → Type 0) (r : Run) (runs : Runs site Allowed r)
    → taken site runs ≤ 3 * length site.nodes + 3 * length site.edges
Runs-taken site Allowed r runs = omega (arith, (Runs-Spent site runs).1)

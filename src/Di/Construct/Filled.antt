-- ===== src/Di/Construct/Filled.antt =====
-- What a goroutine that has finished has filled, unless the context is cancelled.
use gonest.Prelude.{ℕ, Bool, true, false, ◌||◌, ◌≡◌, subst}
use gonest.Di.Assemble.{update}
use gonest.Di.Construct.Steps.{
  Status, waiting, running, returned, finished, Site, Run, initial, node_is, edge_is, close, fill,
  fill_edge, cancel_if, Event, Step, starts, releases, gives_up, constructs, fails, reports,
  starts_edge, gives_up_edge, constructs_edge, fails_edge, reports_edge, cancels, Runs, begin,
  then_step, AnyEvent,
}
use gonest.Di.Construct.Ready.{update-at, update_self, update-true}

-- What a goroutine that must fill placeholders has done by its status; a failure has cancelled the context
-- once it is reported.
abbrev pub Made : Bool → Status → Bool → Type 0
Made cancelled waiting filled = Unit
Made cancelled running filled = Unit
Made cancelled (returned true) filled = Unit
Made cancelled (returned false) filled = filled ≡ true
Made cancelled finished filled = cancelled ≡ false → filled ≡ true

Made-filled :
    (cancelled : Bool) (status : Status) (before after : Bool)
    → (before ≡ true → after ≡ true)
    → Made cancelled status before
    → Made cancelled status after
Made-filled cancelled waiting before after keeps made = tt
Made-filled cancelled running before after keeps made = tt
Made-filled cancelled (returned true) before after keeps made = tt
Made-filled cancelled (returned false) before after keeps made = keeps made
Made-filled cancelled finished before after keeps made = λ going. keeps (made going)

Made-cancelled :
    (cancelled failed : Bool) (status : Status) (filled : Bool)
    → Made cancelled status filled
    → Made (cancelled || failed) status filled
Made-cancelled cancelled failed waiting filled made = tt
Made-cancelled cancelled failed running filled made = tt
Made-cancelled cancelled failed (returned true) filled made = tt
Made-cancelled cancelled failed (returned false) filled made = made
Made-cancelled true failed finished filled made = λ going. cc
Made-cancelled false true finished filled made = λ going. cc
Made-cancelled false false finished filled made = made

-- A goroutine whose result is reported.
Made-reported :
    (cancelled failed : Bool) (status : Status) (filled : Bool)
    → status ≡ returned failed
    → Made cancelled status filled
    → Made (cancelled || failed) finished filled
Made-reported true failed status filled back made = λ going. cc
Made-reported false true status filled back made = λ going. cc
Made-reported false false status filled back made =
    let k : Made false (returned false) filled = subst (λ s. Made false s filled) back made in
    λ going. k

module _ (site : Site) where
  abbrev pub Needs : Bool → ℕ → Status → Bool → Type 0
  Needs cancelled n status filled = site.transient n ≡ false → Made cancelled status filled

  pub record Inv (r : Run) : Type 0 where
    pub nodes_made : (n : ℕ) → Needs r.cancelled n (r.node n) (r.filled n)
    pub edges_made : (e : ℕ) → Made r.cancelled (r.edge e) (r.edge_filled e)

  Inv-initial : Inv initial
  Inv-initial = record { nodes_made = λ n singleton. tt; edges_made = λ e. tt }

  node_is-Inv :
      (r : Run) (n : ℕ) (status : Status)
      → Needs r.cancelled n status (r.filled n)
      → Inv r
      → Inv (node_is n status r)
  node_is-Inv r n status here inv = record {
    nodes_made =
        update-at (λ j s. Needs r.cancelled j s (r.filled j)) r.node n status inv.nodes_made here;
    edges_made = inv.edges_made;
  }

  edge_is-Inv :
      (r : Run) (e : ℕ) (status : Status)
      → Made r.cancelled status (r.edge_filled e)
      → Inv r
      → Inv (edge_is e status r)
  edge_is-Inv r e status here inv = record {
    nodes_made = inv.nodes_made;
    edges_made =
        update-at (λ j s. Made r.cancelled s (r.edge_filled j)) r.edge e status inv.edges_made here;
  }

  close-Inv : (r : Run) (n : ℕ) → Inv r → Inv (close n r)
  close-Inv r n inv = record { nodes_made = inv.nodes_made; edges_made = inv.edges_made }

  fill-Inv : (r : Run) (n : ℕ) → Inv r → Inv (fill n r)
  fill-Inv r n inv = record {
    nodes_made = λ j singleton.
        Made-filled r.cancelled (r.node j) (r.filled j) (update r.filled n true j)
          (update-true r.filled n j) (inv.nodes_made j singleton);
    edges_made = inv.edges_made;
  }

  fill_edge-Inv : (r : Run) (e : ℕ) → Inv r → Inv (fill_edge e r)
  fill_edge-Inv r e inv = record {
    nodes_made = inv.nodes_made;
    edges_made = λ j.
        Made-filled r.cancelled (r.edge j) (r.edge_filled j) (update r.edge_filled e true j)
          (update-true r.edge_filled e j) (inv.edges_made j);
  }

  cancel_if-Inv : (r : Run) (failed : Bool) → Inv r → Inv (cancel_if failed r)
  cancel_if-Inv r failed inv = record {
    nodes_made = λ n singleton.
        Made-cancelled r.cancelled failed (r.node n) (r.filled n) (inv.nodes_made n singleton);
    edges_made =
        λ e. Made-cancelled r.cancelled failed (r.edge e) (r.edge_filled e) (inv.edges_made e);
  }

  Step-Inv : {r s : Run} {event : Event} → Step site r event s → Inv r → Inv s
  Step-Inv {r} (starts n _ _ _ _ _) inv = node_is-Inv r n running (λ _. tt) inv
  Step-Inv {r} (releases n _ transient _ _ _) inv =
      node_is-Inv (close n r) n (returned false) (λ singleton. cc) (close-Inv r n inv)
  Step-Inv {r} (gives_up n _ _ _) inv =
      node_is-Inv (close n r) n (returned true) (λ _. tt) (close-Inv r n inv)
  Step-Inv {r} (constructs n _) inv =
      node_is-Inv (close n (fill n r)) n (returned false) (λ _. update_self r.filled n true)
        (close-Inv (fill n r) n (fill-Inv r n inv))
  Step-Inv {r} (fails n _) inv =
      node_is-Inv (close n r) n (returned true) (λ _. tt) (close-Inv r n inv)
  Step-Inv {r} (reports n failed back) inv =
      node_is-Inv (cancel_if failed r) n finished
        (λ singleton.
          Made-reported r.cancelled failed (r.node n) (r.filled n) back
            (inv.nodes_made n singleton))
        (cancel_if-Inv r failed inv)
  Step-Inv {r} (starts_edge e _ _ _) inv = edge_is-Inv r e running tt inv
  Step-Inv {r} (gives_up_edge e _ _ _) inv = edge_is-Inv r e (returned true) tt inv
  Step-Inv {r} (constructs_edge e _) inv =
      edge_is-Inv (fill_edge e r) e (returned false) (update_self r.edge_filled e true)
        (fill_edge-Inv r e inv)
  Step-Inv {r} (fails_edge e _) inv = edge_is-Inv r e (returned true) tt inv
  Step-Inv {r} (reports_edge e failed back) inv =
      edge_is-Inv (cancel_if failed r) e finished
        (Made-reported r.cancelled failed (r.edge e) (r.edge_filled e) back (inv.edges_made e))
        (cancel_if-Inv r failed inv)
  Step-Inv {r} cancels inv = cancel_if-Inv r true inv

  pub Runs-Inv : {r : Run} → Runs site AnyEvent r → Inv r
  Runs-Inv begin = Inv-initial
  Runs-Inv (then_step before allowed step) = Step-Inv step (Runs-Inv before)

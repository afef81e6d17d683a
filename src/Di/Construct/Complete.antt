-- ===== src/Di/Construct/Complete.antt =====
-- How the construction ends: what is in place when no goroutine can go on.
use gonest.Prelude.{ℕ, List, true, false, ◌≡◌, ◌≢◌, ◌⊎◌}
use gonest.Prelude.Members.{contains}
use gonest.Di.Graph.{Graph}
use gonest.Di.Construct.Steps.{Status, finished, Site, Run}

module _ (site : Site) where
  -- Every placeholder has its instance.
  abbrev pub InPlace : Run → Type 0
  InPlace r =
      ((n : ℕ) → contains site.nodes n ≡ true → site.transient n ≡ false → r.filled n ≡ true)
      × ((e : ℕ) → contains site.edges e ≡ true → r.edge_filled e ≡ true)

  -- All goroutines have returned, all channels are closed, and without a failure or a cancellation every
  -- placeholder is filled.
  pub record IsComplete (r : Run) : Type 0 where
    pub nodes_done :
        (n : ℕ) → contains site.nodes n ≡ true → (r.node n ≡ finished) × (r.closed n ≡ true)
    pub edges_done : (e : ℕ) → contains site.edges e ≡ true → r.edge e ≡ finished
    pub in_place : (r.cancelled ≡ true) ⊎ InPlace r

-- One of the goroutines has not finished, or all have.
abbrev Left : (ℕ → Status) → List ℕ → Type 0
Left f xs = (i : ℕ) × (contains xs i ≡ true) × (f i ≢ finished)

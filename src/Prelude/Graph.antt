-- ===== src/Prelude/Graph.antt =====
-- Reachability in a graph that is given by the successors of each node.
use Prim.Native.Nat.{ℕ}
use mathlib.Core.Path.{◌≡◌}
use mathlib.Core.Bool.{true}
use mathlib.Core.List.{List}
use gonest.Prelude.Members.{contains}

pub data Reaches (next : ℕ → List ℕ) (root : ℕ) : ℕ → Type 0 where
  here : Reaches next root root
  step : {a b : ℕ} → Reaches next root a → contains (next a) b ≡ true → Reaches next root b

-- A set that holds the root and the successors of its members holds all that is reachable.
pub Reaches-closed {ℓ} :
    {next : ℕ → List ℕ} {root : ℕ} (P : ℕ → Type ℓ)
    → P root
    → ((a b : ℕ) → P a → contains (next a) b ≡ true → P b)
    → {m : ℕ} → Reaches next root m
    → P m
Reaches-closed P base closed here = base
Reaches-closed P base closed (step {a} {b} r e) = closed a b (Reaches-closed P base closed r) e

pub Reaches-edge :
    {next : ℕ → List ℕ} {a b m : ℕ}
    → contains (next a) b ≡ true
    → Reaches next b m
    → Reaches next a m
Reaches-edge e here = step here e
Reaches-edge e (step r f) = step (Reaches-edge e r) f

-- ===== src/Di/Cycle/Walks.antt =====
-- The invariant of the depth-first search: what is black has only dependencies of lower rank.
use gonest.Prelude.{
  ℕ, suc, ◌<◌, List, [], ◌∷◌, ◌++◌, true, ◌≡◌, refl, sym, inl, inr, arith, ◌==◌, ==_iff, Bool-cases,
  subst,
}
use gonest.Prelude.Members.{contains, contains-append}
use gonest.Di.Assemble.{update}
use gonest.Di.Cycle.{Color, white, gray, black, Search, from_first, cycle_chain, pop, entered, left}

pub pop-snoc : (path : List ℕ) (x : ℕ) → pop (path ++ x ∷ []) ≡ path
unfolding pop
pop-snoc [] x = refl
pop-snoc (a ∷ []) x = refl
pop-snoc (a ∷ b ∷ path) x = rw (pop-snoc (b ∷ path) x)

module _ (graph : ℕ → List ℕ) where
  -- Each node of the list depends on the next.
  abbrev pub IsWalk : List ℕ → Type 0
  IsWalk [] = Unit
  IsWalk (x ∷ []) = Unit
  IsWalk (x ∷ y ∷ path) = (contains (graph x) y ≡ true) × IsWalk (y ∷ path)

  -- A walk from a node back to itself.
  pub record IsCycle (chain : List ℕ) : Type 0 where
    pub node : ℕ
    pub between : List ℕ
    pub shape : chain ≡ node ∷ between ++ node ∷ []
    pub walk : IsWalk chain

  pub record Ranked (colors : ℕ → Color) : Type 0 where
    pub rank : ℕ → ℕ
    pub bound : ℕ
    pub below : (x : ℕ) → colors x ≡ black → rank x < bound
    pub falls :
        (x y : ℕ)
        → colors x ≡ black
        → contains (graph x) y ≡ true
        → (colors y ≡ black) × (rank y < rank x)

  -- A walk may be extended at its end by an edge.
  pub IsWalk-snoc :
      (path : List ℕ) (x y : ℕ)
      → IsWalk (path ++ x ∷ [])
      → contains (graph x) y ≡ true
      → IsWalk ((path ++ x ∷ []) ++ y ∷ [])
  IsWalk-snoc [] x y w e = (e, tt)
  IsWalk-snoc (a ∷ []) x y w e = (w.0, (e, tt))
  IsWalk-snoc (a ∷ b ∷ path) x y w e = (w.0, IsWalk-snoc (b ∷ path) x y w.1 e)

  IsWalk-tail : (a : ℕ) (path : List ℕ) → IsWalk (a ∷ path) → IsWalk path
  IsWalk-tail a [] w = tt
  IsWalk-tail a (b ∷ path) w = w.1

  -- The part of a walk from a node on closes a cycle with an edge back to the node.
  closes :
      (path whole : List ℕ) (target : ℕ)
      → IsWalk (path ++ target ∷ [])
      → contains path target ≡ true
      → IsCycle (from_first target whole path ++ target ∷ [])
  unfolding from_first
  closes [] whole target w c = cc
  closes (a ∷ path) whole target w c = elim (Bool-cases (a == target)) [
    | inl same ↦ record {
      node = target;
      between = path;
      shape = rw (same, (==_iff a target).0 same) refl;
      walk = rw same w;
    }
    | inr other ↦ rw other (
        closes path whole target (IsWalk-tail a (path ++ target ∷ []) w)
          (ground (arith, ==_iff target a, ==_iff a target)))
  ]

  -- What the search keeps, on a path into `node`.
  pub record Searching (s : Search) : Type 0 where
    pub ranked : Ranked s.colors
    pub gray_path : (x : ℕ) → s.colors x ≡ gray → contains s.path x ≡ true
    pub walk : IsWalk s.path

  pub cycle_chain-IsCycle :
      (s : Search) (path : List ℕ) (node dep : ℕ)
      → Searching s
      → s.path ≡ path ++ node ∷ []
      → contains (graph node) dep ≡ true
      → s.colors dep ≡ gray
      → IsCycle (cycle_chain s.path dep)
  unfolding cycle_chain
  cycle_chain-IsCycle s path node dep i at edge color =
      closes s.path s.path dep
        (subst (λ p. IsWalk (p ++ dep ∷ [])) (sym at)
          (IsWalk-snoc path node dep (subst IsWalk at i.walk) edge))
        (i.gray_path dep color)

  pub Searching-entered :
      (s : Search) (node : ℕ)
      → Searching s
      → s.colors node ≡ white
      → IsWalk (s.path ++ node ∷ [])
      → Searching (entered node s)
  unfolding entered
  Searching-entered s node i new walk = record {
    ranked = record {
      rank = i.ranked.rank;
      bound = i.ranked.bound;
      below = λ x e. i.ranked.below x (ground arith);
      falls = λ x y e c. ground (arith, i.ranked.falls x y, ==_iff y node);
    };
    gray_path = λ x e. ground (arith, i.gray_path x, contains-append s.path (node ∷ []) x);
    walk = walk;
  }

  -- A node that is left gets a rank above all of its dependencies.
  pub Searching-left :
      (s : Search) (path : List ℕ) (node : ℕ)
      → Searching s
      → s.path ≡ path ++ node ∷ []
      → IsWalk path
      → s.colors node ≡ gray
      → ((y : ℕ) → contains (graph node) y ≡ true → s.colors y ≡ black)
      → Searching (left node s)
  unfolding left update
  Searching-left s path node i at walk color deps = record {
    ranked = record {
      rank = update i.ranked.rank node i.ranked.bound;
      bound = suc i.ranked.bound;
      below = λ x e. ground (arith, i.ranked.below x);
      falls = λ x y e c. ground (
        arith,
        i.ranked.falls x y,
        i.ranked.below x,
        i.ranked.below y,
        deps y,
        ==_iff x node,
        ==_iff y node,
        subst (λ t. contains (graph t) y ≡ true) {x = x} {y = node},
      );
    };
    gray_path = λ x e.
        rw (at, pop-snoc path node)
          (let on : contains (path ++ node ∷ []) x ≡ true =
              subst (λ p. contains p x ≡ true) at (i.gray_path x (ground arith)) in
            ground (arith, contains-append path (node ∷ []) x, ==_iff x node));
    walk = rw (at, pop-snoc path node) walk;
  }

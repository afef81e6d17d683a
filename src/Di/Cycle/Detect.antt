-- ===== src/Di/Cycle/Detect.antt =====
-- `DetectCycle` finds a cycle exactly if the graph has one.
use gonest.Prelude.{
  ℕ, ◌≤◌, ◌<◌, List, [], ◌∷◌, ◌++◌, true, Result, ok, err, ◌>>=◌, ◌≡◌, ◌≢◌, refl, sym, ◌∙◌, inl,
  inr, arith, subst, ◌⊎◌,
}
use gonest.Prelude.Members.{contains, contains_self}
use gonest.Di.Exports.Exact.{unexpanded_all}
use gonest.Di.Cycle.{
  Color, gray, black, Search, Stop, cycle, out_of_fuel, visit, visit_all, unseen, detect_cycle,
}
use gonest.Di.Cycle.Walks.{IsWalk, IsCycle, Ranked, Searching}
use gonest.Di.Cycle.Visits.{
  Color-cases, whites, Ensures, Ensures-bind, Ensures-map, Kept, Kept-refl, Kept-trans, whites-Kept,
  Covers, Covers-cons, visit-Ensures,
}

module _ (graph : ℕ → List ℕ) (n : ℕ)
    (bounded : (x y : ℕ) → contains (graph x) y ≡ true → y < n) where
  -- Outside the recursion the path is empty, so no node is gray.
  not-gray : (s : Search) → Searching graph s → s.path ≡ [] → (x : ℕ) → s.colors x ≢ gray
  not-gray s i at x e = let c = subst (λ p. contains p x ≡ true) at (i.gray_path x e) in cc

  visit_all-Ensures :
      (fuel : ℕ) (nodes : List ℕ) (s : Search)
      → Searching graph s
      → s.path ≡ []
      → ((x : ℕ) → contains nodes x ≡ true → x < n)
      → whites s n ≤ fuel
      → Ensures graph
          (λ s'. Kept graph s s' × Covers graph n bounded nodes s')
          (visit_all graph fuel nodes s)
  unfolding visit_all
  visit_all-Ensures fuel [] s i at below h = (Kept-refl graph s i, λ y c. cc)
  visit_all-Ensures fuel (node ∷ nodes) s i at below h =
      let further = λ (y : ℕ) (c : contains nodes y ≡ true). below y (ground arith) in
      elim (Color-cases (s.colors node)) [
        | inl new ↦
            rw (new, visit_all)
              (Ensures-bind graph (λ t. Kept graph s t × (t.colors node ≡ black))
                (λ s'. Kept graph s s' × Covers graph n bounded (node ∷ nodes) s')
                (visit graph fuel node s) _
                (visit-Ensures graph n bounded fuel node s i new
                  (subst (λ p. IsWalk graph (p ++ node ∷ [])) (sym at) tt)
                  (below node (contains_self node nodes)) h)
                (λ t p.
                  Ensures-map graph (λ s'. Kept graph t s' × Covers graph n bounded nodes s')
                    (λ s'. Kept graph s s' × Covers graph n bounded (node ∷ nodes) s')
                    (visit_all graph fuel nodes t)
                    (visit_all-Ensures fuel nodes t p.0.searching (p.0.path ∙ at) further
                      (omega (arith, whites-Kept graph n p.0)))
                    (λ s' q. (
                      Kept-trans graph p.0 q.0,
                      Covers-cons graph n bounded node nodes s' (q.0.blacks node p.1) q.1,
                    ))))
        | inr (inl open_path) ↦ absurd (not-gray s i at node open_path)
        | inr (inr finished) ↦
            rw (finished, visit_all)
              (Ensures-map graph (λ s'. Kept graph s s' × Covers graph n bounded nodes s')
                (λ s'. Kept graph s s' × Covers graph n bounded (node ∷ nodes) s')
                (visit_all graph fuel nodes s) (visit_all-Ensures fuel nodes s i at further h)
                (λ s' q.
                  (q.0, Covers-cons graph n bounded node nodes s' (q.0.blacks node finished) q.1)))
      ]

  -- Along a walk from a black node the rank falls.
  rank_falls :
      (colors : ℕ → Color) (r : Ranked graph colors) (x : ℕ) (between : List ℕ) (y : ℕ)
      → colors x ≡ black
      → IsWalk graph (x ∷ between ++ y ∷ [])
      → r.rank y < r.rank x
  rank_falls colors r x [] y b w = (r.falls x y b w.0).1
  rank_falls colors r x (z ∷ between) y b w =
      let (black_z, lower) = r.falls x z b w.0 in
      omega (arith, rank_falls colors r z between y black_z w.1)

  first_edge :
      (x : ℕ) (between : List ℕ) (y : ℕ)
      → IsWalk graph (x ∷ between ++ y ∷ [])
      → (z : ℕ) × (contains (graph x) z ≡ true)
  first_edge x [] y w = (y, w.0)
  first_edge x (z ∷ between) y w = (z, w.0)

  Searching-unseen : Searching graph unseen
  Searching-unseen = record {
    ranked = record { rank = λ _. 0; bound = 0; below = λ x e. cc; falls = λ x y e c. cc };
    gray_path = λ x e. cc;
    walk = tt;
  }

  module _ (keys : List ℕ)
      (keyed : (x y : ℕ) → contains (graph x) y ≡ true → contains keys x ≡ true)
      (within : (x : ℕ) → contains keys x ≡ true → x < n) where
    acyclic :
        (s : Search)
        → Searching graph s
        → Covers graph n bounded keys s
        → (chain : List ℕ) → ¬ (IsCycle graph chain)
    acyclic s i covers chain c =
        let walk : IsWalk graph (c.node ∷ c.between ++ c.node ∷ []) =
          subst (IsWalk graph) c.shape c.walk in
        let (z, edge) = first_edge c.node c.between c.node walk in
        let lower =
          rank_falls s.colors i.ranked c.node c.between c.node (covers c.node (keyed c.node z edge))
            walk in
        omega arith

    -- The outcome, in one statement.
    abbrev Decides : Result Stop (Unit {0}) → Type 0
    Decides r =
        ((r ≡ ok tt) × ((chain : List ℕ) → ¬ (IsCycle graph chain)))
        ⊎ ((chain : List ℕ) × (r ≡ err (cycle chain)) × IsCycle graph chain)

    -- With fuel for every node, and whatever the order of the keys, `DetectCycle` returns nil and the
    -- graph has no cycle, or it returns a chain that is a cycle of the graph.
    pub detect_cycle-Decides : Decides (detect_cycle graph n keys)
    unfolding detect_cycle
    detect_cycle-Decides = from_search (visit_all graph n keys unseen) (
        visit_all-Ensures n keys unseen Searching-unseen refl within
          (omega (arith, unexpanded_all n)))
      where
        from_search :
            (r : Result Stop Search)
            → Ensures graph (λ s'. Kept graph unseen s' × Covers graph n bounded keys s') r
            → Decides (r >>= λ _. ok tt)
        from_search (ok s) p = inl (refl, acyclic s p.0.searching p.1)
        from_search (err (cycle chain)) p = inr (chain, refl, p)
        from_search (err out_of_fuel) p = absurd p

    -- A rank that falls along the edges.
    abbrev HasRank : Type 0
    HasRank = (rank : ℕ → ℕ) × ((x y : ℕ) → contains (graph x) y ≡ true → rank y < rank x)

    searched-HasRank :
        (r : Result Stop Search)
        → Ensures graph (λ s'. Kept graph unseen s' × Covers graph n bounded keys s') r
        → r >>= (λ _. ok (tt {0})) ≡ ok tt
        → HasRank
    searched-HasRank (ok s) p e =
        let r = p.0.searching.ranked in
        (r.rank, λ x y edge. (r.falls x y (p.1 x (keyed x y edge)) edge).1)
    searched-HasRank (err stop) p e = cc

    -- A graph that `DetectCycle` accepts has a rank that falls along its edges.
    pub detect_cycle-HasRank : detect_cycle graph n keys ≡ ok tt → HasRank
    unfolding detect_cycle
    detect_cycle-HasRank = searched-HasRank (visit_all graph n keys unseen) (
        visit_all-Ensures n keys unseen Searching-unseen refl within
          (omega (arith, unexpanded_all n)))

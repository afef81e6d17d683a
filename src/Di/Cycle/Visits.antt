-- ===== src/Di/Cycle/Visits.antt =====
-- What one call of `visit` ensures: a real cycle, or everything below the node is black.
use mathlib.Core.Path.{fun_ext}
use gonest.Prelude.{
  ℕ, zero, suc, ◌+◌, ◌≤◌, ◌<◌, List, [], ◌∷◌, ◌++◌, Bool, true, false, Result, ok, err, ◌>>=◌, ◌≡◌,
  refl, sym, ◌∙◌, inl, inr, arith, ==_iff, subst, ◌⊎◌, ap,
}
use gonest.Prelude.Members.{contains, contains-cons_cases, contains_self}
use gonest.Di.Assemble.{update}
use gonest.Di.Assemble.Fuel.{pending, pending-update}
use gonest.Di.Exports.Exact.{unexpanded-grows}
use gonest.Di.Cycle.{
  Color, white, gray, black, Search, Stop, cycle, out_of_fuel, visit_deps, entered, left, visit,
}
use gonest.Di.Cycle.Walks.{
  IsWalk, IsCycle, Searching, Searching-entered, Searching-left, IsWalk-snoc, cycle_chain-IsCycle,
  pop-snoc,
}

abbrev pub seen : Color → Bool
seen white = false
seen _ = true

-- The nodes below `n` that were not seen.
abbrev pub whites : Search → ℕ → ℕ
whites s = pending (λ _. 0 ∷ []) (λ x. seen (s.colors x))

whites-entered :
    (s : Search) (node n : ℕ)
    → node < n
    → s.colors node ≡ white
    → whites (entered node s) n + 1 ≡ whites s n
unfolding entered update
whites-entered s node n below new =
    ap (λ v. pending (λ _. 0 ∷ []) v n + 1) (fun_ext λ x. ground arith)
    ∙ pending-update (λ _. 0 ∷ []) (λ x. seen (s.colors x)) node n below (ground arith)

pub Color-cases : (c : Color) → (c ≡ white) ⊎ ((c ≡ gray) ⊎ (c ≡ black))
Color-cases white = inl refl
Color-cases gray = inr (inl refl)
Color-cases black = inr (inr refl)

module _ (graph : ℕ → List ℕ) where
  -- What holds of the result: the given predicate, a real cycle, or nothing for want of fuel.
  abbrev pub Ensures : {A : Type 0} → (A → Type 0) → Result Stop A → Type 0
  Ensures P (ok a) = P a
  Ensures P (err (cycle chain)) = IsCycle graph chain
  Ensures P (err out_of_fuel) = ⊥

  pub Ensures-bind :
      {A B : Type 0} (P : A → Type 0) (Q : B → Type 0) (m : Result Stop A) (f : A → Result Stop B)
      → Ensures P m
      → ((a : A) → P a → Ensures Q (f a))
      → Ensures Q (m >>= f)
  Ensures-bind P Q (ok a) f p rest = rest a p
  Ensures-bind P Q (err (cycle chain)) f p rest = p
  Ensures-bind P Q (err out_of_fuel) f p rest = p

  pub record Kept (s s' : Search) : Type 0 where
    pub searching : Searching graph s'
    pub path : s'.path ≡ s.path
    pub grays : (x : ℕ) → s.colors x ≡ gray → s'.colors x ≡ gray
    pub blacks : (x : ℕ) → s.colors x ≡ black → s'.colors x ≡ black

  pub Ensures-map :
      {A : Type 0} (P Q : A → Type 0) (m : Result Stop A)
      → Ensures P m
      → ((a : A) → P a → Q a)
      → Ensures Q m
  Ensures-map P Q (ok a) p more = more a p
  Ensures-map P Q (err (cycle chain)) p more = p
  Ensures-map P Q (err out_of_fuel) p more = p

  pub Kept-refl : (s : Search) → Searching graph s → Kept s s
  Kept-refl s i = record { searching = i; path = refl; grays = λ x e. e; blacks = λ x e. e }

  pub Kept-trans : {s t u : Search} → Kept s t → Kept t u → Kept s u
  Kept-trans f g = record {
    searching = g.searching;
    path = g.path ∙ f.path;
    grays = λ x e. g.grays x (f.grays x e);
    blacks = λ x e. g.blacks x (f.blacks x e);
  }

  seen-Kept :
      {s t : Search} → Kept s t → (x : ℕ) → seen (s.colors x) ≡ true → seen (t.colors x) ≡ true
  seen-Kept k x e = ground (arith, k.grays x, k.blacks x)

  pub whites-Kept : {s t : Search} (n : ℕ) → Kept s t → whites t n ≤ whites s n
  whites-Kept {s} {t} n k =
      unexpanded-grows (λ x. seen (s.colors x)) (λ x. seen (t.colors x)) n (seen-Kept k)

  module _ (n : ℕ) (bounded : (x y : ℕ) → contains (graph x) y ≡ true → y < n) where
    -- What one call of `visit` ensures.
    abbrev pub Visits : ℕ → Type 0
    Visits fuel =
        (node : ℕ) (s : Search)
        → Searching graph s
        → s.colors node ≡ white
        → IsWalk graph (s.path ++ node ∷ [])
        → node < n
        → whites s n ≤ fuel
        → Ensures (λ s'. Kept s s' × (s'.colors node ≡ black)) (visit graph fuel node s)

    abbrev pub Covers : List ℕ → Search → Type 0
    Covers deps s = (y : ℕ) → contains deps y ≡ true → s.colors y ≡ black

    pub Covers-cons :
        (dep : ℕ) (deps : List ℕ) (s : Search)
        → s.colors dep ≡ black
        → Covers deps s
        → Covers (dep ∷ deps) s
    Covers-cons dep deps s first rest y c = elim (contains-cons_cases dep deps y c) [
      | inl same ↦ rw same first
      | inr other ↦ rest y other
    ]

    visit_deps-Ensures :
        (fuel : ℕ)
        → Visits fuel
        → (path : List ℕ) (node : ℕ) (deps : List ℕ) (s : Search) → Searching graph s
        → s.path ≡ path ++ node ∷ []
        → ((y : ℕ) → contains deps y ≡ true → contains (graph node) y ≡ true)
        → whites s n ≤ fuel
        → Ensures (λ s'. Kept s s' × Covers deps s') (visit_deps (visit graph fuel) deps s)
    unfolding visit_deps
    visit_deps-Ensures fuel call path node [] s i at edges h = (Kept-refl s i, λ y c. cc)
    visit_deps-Ensures fuel call path node (dep ∷ deps) s i at edges h =
        let edge : contains (graph node) dep ≡ true = edges dep (contains_self dep deps) in
        let further = λ (y : ℕ) (c : contains deps y ≡ true). edges y (ground arith) in
        elim (Color-cases (s.colors dep)) [
          | inl new ↦
              rw (new, visit_deps)
                (Ensures-bind (λ t. Kept s t × (t.colors dep ≡ black))
                  (λ s'. Kept s s' × Covers (dep ∷ deps) s') (visit graph fuel dep s) _
                  (call dep s i new
                    (subst (λ p. IsWalk graph (p ++ dep ∷ [])) (sym at)
                      (IsWalk-snoc graph path node dep (subst (IsWalk graph) at i.walk) edge))
                    (bounded node dep edge) h)
                  (λ t p.
                    Ensures-map (λ s'. Kept t s' × Covers deps s')
                      (λ s'. Kept s s' × Covers (dep ∷ deps) s')
                      (visit_deps (visit graph fuel) deps t)
                      (visit_deps-Ensures fuel call path node deps t p.0.searching (p.0.path ∙ at)
                        further (omega (arith, whites-Kept n p.0)))
                      (λ s' q.
                        (Kept-trans p.0 q.0, Covers-cons dep deps s' (q.0.blacks dep p.1) q.1))))
          | inr (inl open_path) ↦
              rw (open_path, visit_deps)
                (cycle_chain-IsCycle graph s path node dep i at edge open_path)
          | inr (inr finished) ↦
              rw (finished, visit_deps)
                (Ensures-map (λ s'. Kept s s' × Covers deps s')
                  (λ s'. Kept s s' × Covers (dep ∷ deps) s') (visit_deps (visit graph fuel) deps s)
                  (visit_deps-Ensures fuel call path node deps s i at further h)
                  (λ s' q. (q.0, Covers-cons dep deps s' (q.0.blacks dep finished) q.1)))
        ]

    Kept-left :
        (s t : Search) (node : ℕ)
        → Searching graph s
        → s.colors node ≡ white
        → Kept (entered node s) t
        → Covers (graph node) t
        → Kept s (left node t) × ((left node t).colors node ≡ black)
    unfolding entered left update
    Kept-left s t node i new k covers = (
      record {
        searching =
            Searching-left graph t s.path node k.searching k.path i.walk
              (k.grays node (ground arith)) covers;
        path = rw (k.path, pop-snoc s.path node);
        grays = λ x e. ground (arith, k.grays x, ==_iff x node);
        blacks = λ x e. ground (arith, k.blacks x, ==_iff x node);
      },
      ground arith,
    )

    pub visit-Ensures : (fuel : ℕ) → Visits fuel
    unfolding visit
    visit-Ensures zero node s i new walk below h =
        absurd (omega (arith, whites-entered s node n below new))
    visit-Ensures (suc fuel) node s i new walk below h =
        Ensures-bind (λ t. Kept (entered node s) t × Covers (graph node) t)
          (λ s'. Kept s s' × (s'.colors node ≡ black))
          (visit_deps (visit graph fuel) (graph node) (entered node s)) _
          (visit_deps-Ensures fuel (visit-Ensures fuel) s.path node (graph node) (entered node s)
            (Searching-entered graph s node i new walk) (unfold entered in refl) (λ y c. c)
            (omega (arith, whites-entered s node n below new)))
          (λ t p. Kept-left s t node i new p.0 p.1)

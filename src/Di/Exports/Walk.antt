-- ===== src/Di/Exports/Walk.antt =====
-- What one call of `effectiveExports` adds to the walk.
use gonest.Prelude.{
  ℕ, zero, suc, List, [], ◌∷◌, true, false, ◌||◌, some, ◌≡◌, refl, ◌⊎◌, inl, inr, arith, ◌==◌,
  ==_iff, Bool-cases, Option-cases, some-injective, ap, subst,
}
use gonest.Prelude.Members.{
  contains, contains-append, contains-cons_cases, contains_self, Within, IsUnique, IsUnique-snoc,
}
use gonest.Prelude.Graph.{Reaches, here, Reaches-edge}
use gonest.Di.Assemble.{Heap, update}
use gonest.Di.Exports.{Visited, Found, add, add_all, gather, expand}

contains-add : (out : List ℕ) (p a : ℕ) → contains (add out p) a ≡ (a == p || contains out a)
unfolding add
contains-add out p a = ground (arith, contains-append out (p ∷ []) a, ==_iff a p)

pub contains-add_all :
    (out ps : List ℕ) (a : ℕ) → contains (add_all out ps) a ≡ (contains ps a || contains out a)
unfolding add_all
contains-add_all out [] a = refl
contains-add_all out (p ∷ ps) a =
    ground (arith, contains-add_all (add out p) ps a, contains-add out p a)

IsUnique-add : (out : List ℕ) (p : ℕ) → IsUnique out → IsUnique (add out p)
unfolding add
IsUnique-add out p u = ground (arith, IsUnique-snoc out p u)

pub IsUnique-add_all : (out ps : List ℕ) → IsUnique out → IsUnique (add_all out ps)
unfolding add_all
IsUnique-add_all out [] u = u
IsUnique-add_all out (p ∷ ps) u = IsUnique-add_all (add out p) ps (IsUnique-add out p u)

module _ (heap : Heap) where
  abbrev pub next : ℕ → List ℕ
  next m = (heap m).exported_modules

  -- A module that is reached from `m` by re-exports, and exports `p` itself.
  pub record Exposes (m p : ℕ) : Type 0 where
    pub by : ℕ
    pub reached : Reaches next m by
    pub exported : contains (heap by).exports p ≡ true

  -- The modules that a part of the walk expands: all that they export and re-export is covered.
  pub record Expands (before after : Visited) (out : List ℕ) : Type 0 where
    pub grows : (x : ℕ) → before x ≡ true → after x ≡ true
    pub closed :
        (x y : ℕ) → before x ≡ false → after x ≡ true → contains (next x) y ≡ true → after y ≡ true
    pub exported :
        (x p : ℕ)
        → before x ≡ false
        → after x ≡ true
        → contains (heap x).exports p ≡ true
        → contains out p ≡ true

  -- One call on the module `m`.
  pub record Expanded (m : ℕ) (before after : Visited) (out : List ℕ) : Type 0 where
    pub expands : Expands before after out
    pub marked : after m ≡ true
    pub unique : IsUnique out
    pub sound : (p : ℕ) → contains out p ≡ true → Exposes m p

  -- The loop over re-exported modules, from the providers `out₀`.
  pub record Gathered (modules out₀ : List ℕ) (before after : Visited) (out : List ℕ) : Type 0 where
    pub expands : Expands before after out
    pub kept : Within out₀ out
    pub marked : (y : ℕ) → contains modules y ≡ true → after y ≡ true
    pub unique : IsUnique out₀ → IsUnique out
    pub sound :
        (p : ℕ)
        → contains out p ≡ true
        → (contains out₀ p ≡ true) ⊎ ((y : ℕ) × (contains modules y ≡ true) × Exposes y p)

  Expands-refl : (v : Visited) (out : List ℕ) → Expands v v out
  Expands-refl v out = record {
    grows = λ x e. e;
    closed = λ x y old new. cc;
    exported = λ x p old new. cc;
  }

  Expands-trans :
      (v v₁ v' : Visited) (ps out : List ℕ)
      → Expands v v₁ ps
      → Expands v₁ v' out
      → Within ps out
      → Expands v v' out
  Expands-trans v v₁ v' ps out f g within = record {
    grows = λ x e. g.grows x (f.grows x e);
    closed = λ x y old new edge. elim (Bool-cases (v₁ x)) [
      | inl early ↦ g.grows y (f.closed x y old early edge)
      | inr late ↦ g.closed x y late new edge
    ];
    exported = λ x p old new e. elim (Bool-cases (v₁ x)) [
      | inl early ↦ within p (f.exported x p old early e)
      | inr late ↦ g.exported x p late new e
    ];
  }

  Gathered-cons :
      (re : ℕ) (modules out₀ ps : List ℕ) (v v₁ v' : Visited) (out : List ℕ)
      → Expanded re v v₁ ps
      → Gathered modules (add_all out₀ ps) v₁ v' out
      → Gathered (re ∷ modules) out₀ v v' out
  Gathered-cons re modules out₀ ps v v₁ v' out f g = record {
    expands =
        Expands-trans v v₁ v' ps out f.expands g.expands
          (λ a c. g.kept a (ground (arith, contains-add_all out₀ ps a)));
    kept = λ a c. g.kept a (ground (arith, contains-add_all out₀ ps a));
    marked = λ y c. elim (contains-cons_cases re modules y c) [
      | inl same ↦ rw same (g.expands.grows re f.marked)
      | inr later ↦ g.marked y later
    ];
    unique = λ u. g.unique (IsUnique-add_all out₀ ps u);
    sound = λ p c. elim (g.sound p c) [
      | inl early ↦ elim (Bool-cases (contains ps p)) [
        | inl first ↦ inr (re, contains_self re modules, f.sound p first)
        | inr other ↦ inl (ground (arith, contains-add_all out₀ ps p))
      ]
      | inr (y, m, exposes) ↦ inr (y, ground arith, exposes)
    ];
  }

  module _ (call : ℕ → Visited → Found)
      (calls : (m : ℕ) (v : Visited) (out : List ℕ) (v' : Visited)
        → call m v ≡ some (out, v')
        → Expanded m v v' out) where
    gather-Gathered :
        (modules out₀ : List ℕ) (v : Visited) (out : List ℕ) (v' : Visited)
        → gather call modules out₀ v ≡ some (out, v')
        → Gathered modules out₀ v v' out
    unfolding gather
    gather-Gathered [] out₀ v out v' e =
        rw (← ap (λ f. f.0) (some-injective e), ← ap (λ f. f.1) (some-injective e))
          (record {
            expands = Expands-refl v out₀;
            kept = λ a c. c;
            marked = λ y c. cc;
            unique = λ u. u;
            sound = λ p c. inl c;
          })
    gather-Gathered (re ∷ modules) out₀ v out v' e = elim (Option-cases (call re v)) [
      | inl stop ↦ absurd (cc)
      | inr ((ps, v₁), found) ↦
          let first = calls re v ps v₁ found in
          let rest = gather-Gathered modules (add_all out₀ ps) v₁ out v' (rw found at e) in
          Gathered-cons re modules out₀ ps v v₁ v' out first rest
    ]

  Expanded-new :
      (m : ℕ) (v v' : Visited) (out : List ℕ)
      → v m ≡ false
      → Gathered (next m) (add_all [] (heap m).exports) (update v m true) v' out
      → Expanded m v v' out
  unfolding update
  Expanded-new m v v' out new g = record {
    expands = record {
      grows = λ x e. g.expands.grows x (ground arith);
      closed = λ x y old after edge. elim (Bool-cases (x == m)) [
        | inl same ↦ g.marked y (subst (λ t. contains (next t) y ≡ true) ((==_iff x m).0 same) edge)
        | inr other ↦ g.expands.closed x y (rw other old) after edge
      ];
      exported = λ x p old after e. elim (Bool-cases (x == m)) [
        | inl same ↦
            let own : contains (heap m).exports p ≡ true =
              subst (λ t. contains (heap t).exports p ≡ true) ((==_iff x m).0 same) e in
            g.kept p (ground (arith, contains-add_all [] (heap m).exports p))
        | inr other ↦ g.expands.exported x p (rw other old) after e
      ];
    };
    marked = g.expands.grows m (ground arith);
    unique = g.unique (IsUnique-add_all [] (heap m).exports tt);
    sound = λ p c. elim (g.sound p c) [
      | inl own ↦ record {
        by = m;
        reached = here;
        exported = ground (arith, contains-add_all [] (heap m).exports p);
      }
      | inr (y, edge, exposes) ↦ record {
        by = exposes.by;
        reached = Reaches-edge edge exposes.reached;
        exported = exposes.exported;
      }
    ];
  }

  pub expand-Expanded :
      (fuel m : ℕ) (v : Visited) (out : List ℕ) (v' : Visited)
      → expand fuel heap m v ≡ some (out, v')
      → Expanded m v v' out
  unfolding expand
  expand-Expanded zero m v out v' e = cc
  expand-Expanded (suc fuel) m v out v' e = elim (Bool-cases (v m)) [
    | inl old ↦
        let done : some ([], v) ≡ some (out, v') = rw (old, expand) at e in
        rw (← ap (λ f. f.0) (some-injective done), ← ap (λ f. f.1) (some-injective done))
          (record { expands = Expands-refl v []; marked = old; unique = tt; sound = λ p c. cc })
    | inr new ↦ Expanded-new m v v' out new (
        gather-Gathered (expand fuel heap) (expand-Expanded fuel) (next m)
          (add_all [] (heap m).exports) (update v m true) out v' (rw (new, expand) at e))
  ]

-- ===== src/Di/Graph/Appending.antt =====
-- What appending to an entry of the graph does.
use gonest.Prelude.{
  ℕ, List, [], ◌∷◌, true, false, ◌||◌, ◌≡◌, refl, sym, ◌∙◌, ◌⊎◌, inl, inr, ◌==◌, ==_iff, Bool-cases,
  arith, subst,
}
use gonest.Prelude.Members.{contains, contains-append}
use gonest.Di.Graph.{Graph, deps, append_deps}

abbrev pub HasEdge : Graph → ℕ → ℕ → Type 0
HasEdge g x y = contains (deps g x) y ≡ true

append_deps_self :
    (g : Graph) (owner y : ℕ) (targets : List ℕ)
    → contains (deps (append_deps g owner targets) owner) y
      ≡ (contains (deps g owner) y || contains targets y)
unfolding append_deps
append_deps_self [] owner y targets = ground arith
append_deps_self ((k, ys) ∷ g) owner y targets = elim (Bool-cases (k == owner)) [
  | inl same ↦ rw (same, same) (contains-append ys targets y)
  | inr other ↦ rw (other, other) (append_deps_self g owner y targets)
]

append_deps-other :
    (g : Graph) (owner x : ℕ) (targets : List ℕ)
    → (owner == x) ≡ false
    → deps (append_deps g owner targets) x ≡ deps g x
unfolding append_deps
append_deps-other [] owner x targets h = rw h refl
append_deps-other ((k, ys) ∷ g) owner x targets h = elim (Bool-cases (k == owner)) [
  | inl same ↦
      let e = ==_iff k owner in
      let k_ne : (k == x) ≡ false = subst (λ n. (n == x) ≡ false) (sym (e.0 same)) h in
      rw (same, k_ne) refl
  | inr other ↦ elim (Bool-cases (k == x)) [
    | inl here ↦ rw (other, here) refl
    | inr there ↦ rw (other, there) (append_deps-other g owner x targets h)
  ]
]

pub append_deps-cases :
    (g : Graph) (owner x y : ℕ) (targets : List ℕ)
    → HasEdge (append_deps g owner targets) x y
    → HasEdge g x y ⊎ ((owner ≡ x) × (contains targets y ≡ true))
append_deps-cases g owner x y targets h = elim (Bool-cases (owner == x)) [
  | inr other ↦
      inl (subst (λ ys. contains ys y ≡ true) (append_deps-other g owner x targets other) h)
  | inl same ↦
      let e : owner ≡ x = (==_iff owner x).0 same in
      let k =
        sym (append_deps_self g owner y targets)
        ∙ subst (λ n. HasEdge (append_deps g owner targets) n y) (sym e) h in
      elim (Bool-cases (contains (deps g owner) y)) [
        | inl old ↦ inl (subst (λ n. HasEdge g n y) e old)
        | inr new ↦ inr (e, ground arith)
      ]
]

pub append_deps-keeps :
    (g : Graph) (owner x y : ℕ) (targets : List ℕ)
    → HasEdge g x y
    → HasEdge (append_deps g owner targets) x y
append_deps-keeps g owner x y targets h = elim (Bool-cases (owner == x)) [
  | inr other ↦
      subst (λ ys. contains ys y ≡ true) (sym (append_deps-other g owner x targets other)) h
  | inl same ↦
      let e : owner ≡ x = (==_iff owner x).0 same in
      let old : HasEdge g owner y = subst (λ n. HasEdge g n y) (sym e) h in
      subst (λ n. HasEdge (append_deps g owner targets) n y) e
        (append_deps_self g owner y targets ∙ (rw old refl))
]

pub append_deps-adds :
    (g : Graph) (owner y : ℕ) (targets : List ℕ)
    → contains targets y ≡ true
    → HasEdge (append_deps g owner targets) owner y
append_deps-adds g owner y targets h = append_deps_self g owner y targets ∙ ground arith

-- ===== src/Di/Graph/Edges.antt =====
-- What the graph holds.
use gonest.Prelude.{
  ℕ, List, [], ◌∷◌, true, false, Option, none, some, ok, ◌≡◌, sym, ap, ◌∙◌, ◌⊎◌, inl, inr, ◌↔◌,
  ◌==◌, ==_iff, Bool-cases, arith, bind-eq-ok, ok-injective, subst, some-injective,
}
use gonest.Prelude.Members.{contains}
use gonest.Di.Assemble.{Heap}
use gonest.Di.Graph.{
  PendingEdge, PendingAllEdge, Graph, deps, keys, append_deps, grow, add_all_edges, add_edge,
  add_edges, build_graph, found,
}
use gonest.Di.Graph.Appending.{HasEdge, append_deps-cases, append_deps-keeps, append_deps-adds}

-- What an edge asks for.
abbrev Wants : Option ℕ → List ℕ → ℕ → ℕ → Type 0
Wants owner targets x y = (owner ≡ some x) × (contains targets y ≡ true)

grow-cases :
    (owner : Option ℕ) (targets : List ℕ) (g : Graph) (x y : ℕ)
    → HasEdge (grow owner targets g) x y
    → HasEdge g x y ⊎ Wants owner targets x y
grow-cases none targets g x y h = inl h
grow-cases (some owner) targets g x y h = elim (append_deps-cases g owner x y targets h) [
  | inl old ↦ inl old
  | inr (same, listed) ↦ inr (ap some same, listed)
]

grow-keeps :
    (owner : Option ℕ) (targets : List ℕ) (g : Graph) (x y : ℕ)
    → HasEdge g x y
    → HasEdge (grow owner targets g) x y
grow-keeps none targets g x y h = h
grow-keeps (some owner) targets g x y h = append_deps-keeps g owner x y targets h

grow-adds :
    (owner : Option ℕ) (targets : List ℕ) (g : Graph) (x y : ℕ)
    → Wants owner targets x y
    → HasEdge (grow owner targets g) x y
grow-adds owner targets g x y (ref, listed) = rw ref (append_deps-adds g x y targets listed)

-- An edge for all providers of a type wants the dependency.
abbrev pub Matched : List PendingAllEdge → ℕ → ℕ → Type 0
Matched [] x y = false ≡ true
Matched (edge ∷ edges) x y =
    ((edge.owner_ref ≡ some x) × (contains edge.matches y ≡ true)) ⊎ Matched edges x y

add_all_edges-cases :
    (edges : List PendingAllEdge) (g : Graph) (x y : ℕ)
    → HasEdge (add_all_edges edges g) x y
    → HasEdge g x y ⊎ Matched edges x y
unfolding add_all_edges
add_all_edges-cases [] g x y h = inl h
add_all_edges-cases (edge ∷ edges) g x y h =
    elim (add_all_edges-cases edges (grow edge.owner_ref edge.matches g) x y h) [
      | inr later ↦ inr (inr later)
      | inl grown ↦ elim (grow-cases edge.owner_ref edge.matches g x y grown) [
        | inl old ↦ inl old
        | inr here ↦ inr (inl here)
      ]
    ]

add_all_edges-adds :
    (edges : List PendingAllEdge) (g : Graph) (x y : ℕ)
    → HasEdge g x y ⊎ Matched edges x y
    → HasEdge (add_all_edges edges g) x y
unfolding add_all_edges
add_all_edges-adds [] g x y (inl old) = old
add_all_edges-adds [] g x y (inr absent) = cc
add_all_edges-adds (edge ∷ edges) g x y (inl old) =
    add_all_edges-adds edges (grow edge.owner_ref edge.matches g) x y
      (inl (grow-keeps edge.owner_ref edge.matches g x y old))
add_all_edges-adds (edge ∷ edges) g x y (inr (inl here)) =
    add_all_edges-adds edges (grow edge.owner_ref edge.matches g) x y
      (inl (grow-adds edge.owner_ref edge.matches g x y here))
add_all_edges-adds (edge ∷ edges) g x y (inr (inr later)) =
    add_all_edges-adds edges (grow edge.owner_ref edge.matches g) x y (inr later)

module _ (resolved_type : ℕ → ℕ) (fuel : ℕ) (heap : Heap) where
  -- An edge for one type wants the dependency: `Find` gives it for the type and the owner's module.
  abbrev pub Wanted : List PendingEdge → ℕ → ℕ → Type 0
  Wanted [] x y = false ≡ true
  Wanted (edge ∷ edges) x y =
      ((edge.owner_ref ≡ some x) × (found resolved_type fuel heap edge ≡ ok y)) ⊎ Wanted edges x y

  -- The step of the first loop, when it does not panic.
  add_edge_iff :
      (edge : PendingEdge) (owner : Option ℕ) (g g₁ : Graph) (x y : ℕ)
      → add_edge resolved_type fuel heap edge owner g ≡ ok g₁
      → (HasEdge g₁ x y
          → HasEdge g x y ⊎ ((owner ≡ some x) × (found resolved_type fuel heap edge ≡ ok y)))
        × (HasEdge g x y ⊎ ((owner ≡ some x) × (found resolved_type fuel heap edge ≡ ok y))
            → HasEdge g₁ x y)
  add_edge_iff edge none g g₁ x y e =
      let k = ok-injective e in
      (
        λ h. inl (subst (λ m. HasEdge m x y) (sym k) h),
        elim [ inl old ↦ subst (λ m. HasEdge m x y) k old | inr (absent, t) ↦ cc ],
      )
  add_edge_iff edge (some owner) g g₁ x y e =
      let (target, t, k₀) = bind-eq-ok (found resolved_type fuel heap edge) _ e in
      let k = ok-injective k₀ in
      (
        λ h.
            elim (append_deps-cases g owner x y (target ∷ [])
              (subst (λ m. HasEdge m x y) (sym k) h)) [
                | inl old ↦ inl old
                | inr (same, listed) ↦
                    let y_eq : target ≡ y = ground arith in inr (ap some same, t ∙ ap ok y_eq)
              ],
        elim [
          | inl old ↦ subst (λ m. HasEdge m x y) k (append_deps-keeps g owner x y (target ∷ []) old)
          | inr (same, found_y) ↦
              let y_eq = ok-injective (sym t ∙ found_y) in
              let listed : contains (target ∷ []) y ≡ true = ground arith in
              subst (λ m. HasEdge m x y) k
                (subst (λ n. HasEdge (append_deps g owner (target ∷ [])) n y) (some-injective same)
                  (append_deps-adds g owner y (target ∷ []) listed))
        ],
      )

  add_edges-cases :
      (edges : List PendingEdge) (g g₁ : Graph) (x y : ℕ)
      → add_edges resolved_type fuel heap edges g ≡ ok g₁
      → HasEdge g₁ x y
      → HasEdge g x y ⊎ Wanted edges x y
  unfolding add_edges
  add_edges-cases [] g g₁ x y e h = inl (subst (λ m. HasEdge m x y) (sym (ok-injective e)) h)
  add_edges-cases (edge ∷ edges) g g₁ x y e h =
      let (g₂, first, rest) =
        bind-eq-ok (add_edge resolved_type fuel heap edge edge.owner_ref g) _ e in
      elim (add_edges-cases edges g₂ g₁ x y rest h) [
        | inr later ↦ inr (inr later)
        | inl grown ↦ elim ((add_edge_iff edge edge.owner_ref g g₂ x y first).0 grown) [
          | inl old ↦ inl old
          | inr here ↦ inr (inl here)
        ]
      ]

  add_edges-adds :
      (edges : List PendingEdge) (g g₁ : Graph) (x y : ℕ)
      → add_edges resolved_type fuel heap edges g ≡ ok g₁
      → HasEdge g x y ⊎ Wanted edges x y
      → HasEdge g₁ x y
  unfolding add_edges
  add_edges-adds [] g g₁ x y e (inl old) = subst (λ m. HasEdge m x y) (ok-injective e) old
  add_edges-adds [] g g₁ x y e (inr absent) = cc
  add_edges-adds (edge ∷ edges) g g₁ x y e w =
      let (g₂, first, rest) =
        bind-eq-ok (add_edge resolved_type fuel heap edge edge.owner_ref g) _ e in
      let grows = (add_edge_iff edge edge.owner_ref g g₂ x y first).1 in
      add_edges-adds edges g₂ g₁ x y rest (regroup grows w)
    where
      regroup : {A B C D : Type 0} → (A ⊎ B → D) → A ⊎ (B ⊎ C) → D ⊎ C
      regroup f (inl a) = inl (f (inl a))
      regroup f (inr (inl b)) = inl (f (inr b))
      regroup f (inr (inr c)) = inr c

  -- When BuildGraph does not panic, its graph has a dependency of one provider on another exactly if
  -- the first called MustInject for a type for which Find gives the second, or MustInjectAll and the
  -- second is among the matches; what other owners injected is not in it.
  pub build_graph_lem :
      (edges : List PendingEdge) (all_edges : List PendingAllEdge) (g : Graph) (x y : ℕ)
      → build_graph resolved_type fuel heap edges all_edges ≡ ok g
      → (contains (deps g x) y ≡ true) ↔ (Wanted edges x y ⊎ Matched all_edges x y)
  unfolding build_graph
  build_graph_lem edges all_edges g x y e =
      let (g₁, first, k₀) = bind-eq-ok (add_edges resolved_type fuel heap edges []) _ e in
      let k = ok-injective k₀ in
      (
        λ h. elim (add_all_edges-cases all_edges g₁ x y (subst (λ m. HasEdge m x y) (sym k) h)) [
          | inr matched ↦ inr matched
          | inl single ↦ elim (add_edges-cases edges [] g₁ x y first single) [
            | inl nothing ↦ cc
            | inr wanted ↦ inl wanted
          ]
        ],
        elim [
          | inl wanted ↦
              subst (λ m. HasEdge m x y) k
                (add_all_edges-adds all_edges g₁ x y
                  (inl (add_edges-adds edges [] g₁ x y first (inr wanted))))
          | inr matched ↦
              subst (λ m. HasEdge m x y) k (add_all_edges-adds all_edges g₁ x y (inr matched))
        ],
      )

pub keyed : (g : Graph) (x y : ℕ) → HasEdge g x y → contains (keys g) x ≡ true
keyed [] x y h = cc
keyed ((k, ys) ∷ g) x y h = elim (Bool-cases (k == x)) [
  | inl same ↦
      let e = ==_iff k x in subst (λ n. contains (k ∷ keys g) n ≡ true) (e.0 same) (ground arith)
  | inr other ↦ let rest = keyed g x y (rw other at h) in ground arith
]

-- ===== src/Di/Inject/Recorded.antt =====
-- Injection and BuildGraph together: what an injection of a provider adds to the dependency graph.
use gonest.Prelude.{
  ℕ, List, [], ◌∷◌, ◌++◌, Bool, true, false, Option, none, some, some-injective, ok, ◌≡◌, refl, sym,
  ap, subst, ◌⊎◌, ◌↔◌, inl, inr, Bool-cases, if◌then◌else◌,
}
use gonest.Prelude.Members.{contains}
use gonest.Di.Assemble.{Heap}
use gonest.Di.Resolve.{find}
use gonest.Di.Resolve.Visible.{VisibleImport}
use gonest.Di.Graph.{PendingEdge, PendingAllEdge, Graph, deps, build_graph, found}
use gonest.Di.Graph.Edges.{Wanted, Matched, build_graph_lem}
use gonest.Di.Inject.{
  Bookkeeping, Injectable, pointer, interface, provider, Outcome, injected, panicked,
  during_resolution, Providers, safe_inject, unless_global, record_edge, inject_all, record_all,
  all_singletons, find_all_refs, global_singleton_for,
}
use gonest.Di.Inject.Refs.{StandsFor, find_all_refs_lem}

Matched-snoc :
    (edges : List PendingAllEdge) (last : PendingAllEdge) (x y : ℕ)
    → Matched (edges ++ last ∷ []) x y
      ↔ (Matched edges x y ⊎ ((last.owner_ref ≡ some x) × (contains last.matches y ≡ true)))
Matched-snoc [] last x y = (
  λ either. elim either [ inl here ↦ inr here | inr absent ↦ inl absent ],
  λ either. elim either [ inl absent ↦ inr absent | inr here ↦ inl here ],
)
Matched-snoc (edge ∷ edges) last x y =
    let (apart, together) = Matched-snoc edges last x y in
    (
      λ either. elim either [
        | inl first ↦ inl (inl first)
        | inr later ↦ elim (apart later) [ inl mid ↦ inl (inr mid) | inr here ↦ inr here ]
      ],
      λ either. elim either [
        | inl old ↦ elim old [ inl first ↦ inl first | inr mid ↦ inr (together (inl mid)) ]
        | inr here ↦ inr (together (inr here))
      ],
    )

module _ (ps : Providers) (fuel : ℕ) (heap : Heap) where
  Wanted-snoc :
      (edges : List PendingEdge) (last : PendingEdge) (x y : ℕ)
      → Wanted ps.resolved_type fuel heap (edges ++ last ∷ []) x y ↔ (
          Wanted ps.resolved_type fuel heap edges x y
          ⊎ ((last.owner_ref ≡ some x) × (found ps.resolved_type fuel heap last ≡ ok y)))
  Wanted-snoc [] last x y = (
    λ either. elim either [ inl here ↦ inr here | inr absent ↦ inl absent ],
    λ either. elim either [ inl absent ↦ inr absent | inr here ↦ inl here ],
  )
  Wanted-snoc (edge ∷ edges) last x y =
      let (apart, together) = Wanted-snoc edges last x y in
      (
        λ either. elim either [
          | inl first ↦ inl (inl first)
          | inr later ↦ elim (apart later) [ inl mid ↦ inl (inr mid) | inr here ↦ inr here ]
        ],
        λ either. elim either [
          | inl old ↦ elim old [ inl first ↦ inl first | inr mid ↦ inr (together (inl mid)) ]
          | inr here ↦ inr (together (inr here))
        ],
      )

  -- The graph that BuildGraph builds from the bookkeeping.
  abbrev pub Builds : Bookkeeping → Graph → Type 0
  Builds b g = build_graph ps.resolved_type fuel heap b.pending_edges b.pending_all_edges ≡ ok g

  unless_global-records :
      (global : Option ℕ) (ref m t : ℕ) (b : Bookkeeping)
      → b.resolving ≡ false
      → global ≡ none
      → unless_global ps global pointer (provider ref m) t b ≡ record_edge ps pointer ref m t b
  unless_global-records (some v) ref m t b going missing = cc
  unless_global-records none ref m t b going missing = if-going b.resolving going
    where
      if-going :
          (resolving : Bool)
          → resolving ≡ false
          → (if resolving
              then (b, Outcome.refused during_resolution)
              else record_edge ps pointer ref m t b)
            ≡ record_edge ps pointer ref m t b
      if-going true e = cc
      if-going false e = refl

  -- Before the construction, the injection of a type by a provider, when no global singleton of the type
  -- is there and BuildGraph does not panic before or after it, adds to the graph exactly the dependency of
  -- that provider on the one that Find gives for the type in the provider's module.
  pub safe_inject-build_graph :
      (ref m t : ℕ) (b : Bookkeeping) (before after : Graph) (x y : ℕ)
      → b.resolving ≡ false
      → global_singleton_for t b ≡ none
      → Builds b before
      → Builds (safe_inject ps pointer (provider ref m) t b).0 after
      → (contains (deps after x) y ≡ true) ↔ (
          (contains (deps before x) y ≡ true)
          ⊎ ((x ≡ ref) × (find ps.resolved_type fuel heap t m ≡ ok y)))
  unfolding safe_inject
  safe_inject-build_graph ref m t b before after x y going missing built built_after =
      let recorded = unless_global-records (global_singleton_for t b) ref m t b going missing in
      let edge : PendingEdge = record { owner_ref = some ref; owner_module = m; target_type = t } in
      let (wanted, adds) = Wanted-snoc b.pending_edges edge x y in
      let old =
        build_graph_lem ps.resolved_type fuel heap b.pending_edges b.pending_all_edges before x y
          built in
      let now =
        build_graph_lem ps.resolved_type fuel heap (b.pending_edges ++ edge ∷ [])
          b.pending_all_edges after x y
          (subst (λ s. Builds s after) (ap (λ s. s.0) recorded) built_after) in
      (
        λ listed. elim (now.0 listed) [
          | inl single ↦ elim (wanted single) [
            | inl earlier ↦ inl (old.1 (inl earlier))
            | inr (owner, finds) ↦ inr (sym (some-injective owner), finds)
          ]
          | inr matched ↦ inl (old.1 (inr matched))
        ],
        λ either. elim either [
          | inl earlier ↦ elim (old.0 earlier) [
            | inl single ↦ now.1 (inl (adds (inl single)))
            | inr matched ↦ now.1 (inr matched)
          ]
          | inr (owner, finds) ↦ now.1 (inl (adds (inr (ap some (sym owner), finds))))
        ],
      )

  -- What the bookkeeping holds after an InjectAll that returns a slice.
  record Recorded (ref m t : ℕ) (b after : Bookkeeping) : Type 0 where
    matches : List ℕ
    gathered : find_all_refs ps fuel heap m t ≡ some matches
    after_is : after ≡ record b {
      pending_all_edges =
          b.pending_all_edges ++ record { owner_ref = some ref; matches = matches } ∷ [];
    }

  record_all-Recorded :
      (gathered : Option (List ℕ)) (ref m t : ℕ) (b after : Bookkeeping) (slice : Injectable)
      → find_all_refs ps fuel heap m t ≡ gathered
      → record_all ps gathered ref b ≡ (after, injected slice)
      → Recorded ref m t b after
  record_all-Recorded none ref m t b after slice e recorded = cc
  record_all-Recorded (some matches) ref m t b after slice e recorded =
      elim (Bool-cases (all_singletons ps matches)) [
        | inl singletons ↦
            (let k = (rw singletons at recorded) in
              record { matches = matches; gathered = e; after_is = sym (ap (λ s. s.0) k) })
        | inr other ↦ (let k = (rw other at recorded) in cc)
      ]

  if-injected :
      (resolving : Bool) (b after : Bookkeeping) (slice : Injectable) (rest : Bookkeeping × Outcome)
      → (if resolving then (b, panicked during_resolution) else rest) ≡ (after, injected slice)
      → rest ≡ (after, injected slice)
  if-injected true b after slice rest e = cc
  if-injected false b after slice rest e = e

  inject_all-Recorded :
      (ref m t : ℕ) (b after : Bookkeeping) (slice : Injectable)
      → inject_all ps fuel heap interface (provider ref m) t b ≡ (after, injected slice)
      → Recorded ref m t b after
  unfolding inject_all
  inject_all-Recorded ref m t b after slice e =
      let gathered = find_all_refs ps fuel heap m t in
      record_all-Recorded gathered ref m t b after slice refl
        (if-injected b.resolving b after slice (record_all ps gathered ref b) e)

  -- An InjectAll of a provider that returns a slice, when BuildGraph does not panic before or after it,
  -- adds to the graph exactly the dependencies of that provider on those that stand for a provider of the
  -- type which its module declares or which an import of the module exposes.
  pub inject_all-build_graph :
      (ref m t : ℕ) (b after_b : Bookkeeping) (slice : Injectable) (before after : Graph) (x y : ℕ)
      → inject_all ps fuel heap interface (provider ref m) t b ≡ (after_b, injected slice)
      → Builds b before
      → Builds after_b after
      → (contains (deps after x) y ≡ true) ↔ (
          (contains (deps before x) y ≡ true)
          ⊎ ((x ≡ ref)
              × StandsFor ps t
                  (λ p. (contains (heap m).providers p ≡ true) ⊎ VisibleImport heap m p)
                  y))
  inject_all-build_graph ref m t b after_b slice before after x y call built built_after =
      let r = inject_all-Recorded ref m t b after_b slice call in
      let edge : PendingAllEdge = record { owner_ref = some ref; matches = r.matches } in
      let (matched, adds) = Matched-snoc b.pending_all_edges edge x y in
      let exact = (find_all_refs_lem ps t fuel heap m r.matches r.gathered).1 y in
      let old =
        build_graph_lem ps.resolved_type fuel heap b.pending_edges b.pending_all_edges before x y
          built in
      let now =
        build_graph_lem ps.resolved_type fuel heap b.pending_edges
          (b.pending_all_edges ++ edge ∷ []) after x y
          (subst (λ s. Builds s after) r.after_is built_after) in
      (
        λ listed. elim (now.0 listed) [
          | inl single ↦ inl (old.1 (inl single))
          | inr all ↦ elim (matched all) [
            | inl earlier ↦ inl (old.1 (inr earlier))
            | inr (owner, found_one) ↦ inr (sym (some-injective owner), exact.0 found_one)
          ]
        ],
        λ either. elim either [
          | inl earlier ↦ elim (old.0 earlier) [
            | inl single ↦ now.1 (inl single)
            | inr all ↦ now.1 (inr (adds (inl all)))
          ]
          | inr (owner, stands) ↦ now.1 (inr (adds (inr (ap some (sym owner), exact.1 stands))))
        ],
      )

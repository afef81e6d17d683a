-- ===== src/Di/Construct/Edges.antt =====
-- What `edgesFor` returns, against what `Find` resolves an edge to.
use gonest.Prelude.{
  ℕ, List, [], ◌∷◌, Bool, true, false, ok, bind-eq-ok, ok-injective, ◌≡◌, refl, sym, ◌∙◌, subst,
  ◌==◌, ==_iff, Bool-cases, inl, inr,
}
use gonest.Di.Assemble.{Heap}
use gonest.Di.Resolve.{find}
use gonest.Di.Resolve.Visible.{find-visible}
use gonest.Di.Graph.{PendingEdge}
use gonest.Di.Construct.{edges_for, keep_if}

module _ (resolved_type : ℕ → ℕ) (fuel : ℕ) (heap : Heap) (node : ℕ) where
  abbrev Finds : PendingEdge → Type 0
  Finds edge = find resolved_type fuel heap edge.target_type edge.owner_module ≡ ok node

  -- The edges that resolve to the node, in their order.
  pub data Selected : List PendingEdge → List PendingEdge → Type 0 where
    nothing : Selected [] []
    takes :
        {edge : PendingEdge} {edges kept : List PendingEdge}
        → Finds edge
        → Selected edges kept
        → Selected (edge ∷ edges) (edge ∷ kept)
    skips :
        {edge : PendingEdge} {edges kept : List PendingEdge}
        → ¬ Finds edge
        → Selected edges kept
        → Selected (edge ∷ edges) kept

  keep_if-Selected :
      (same : Bool) (target : ℕ) (edge : PendingEdge) (edges kept : List PendingEdge)
      → (target == node) ≡ same
      → find resolved_type fuel heap edge.target_type edge.owner_module ≡ ok target
      → Selected edges kept
      → Selected (edge ∷ edges) (keep_if resolved_type fuel heap same edge kept)
  keep_if-Selected true target edge edges kept same finds rest =
      let k : target ≡ node = (==_iff target node).0 same in takes (rw k at finds) rest
  keep_if-Selected false target edge edges kept other finds rest =
      skips (λ here. let k = (==_iff target node).1 (ok-injective (sym finds ∙ here)) in cc) rest

  -- When edgesFor does not panic, it returns exactly the edges that Find resolves to the provider, in the
  -- order in which they were recorded: the test of the type, which saves calls of Find, drops no edge.
  pub edges_for-Selected :
      (edges kept : List PendingEdge)
      → edges_for resolved_type fuel heap node edges ≡ ok kept
      → Selected edges kept
  unfolding edges_for
  edges_for-Selected [] kept e = subst (Selected []) (ok-injective e) nothing
  edges_for-Selected (edge ∷ edges) kept e =
      elim (Bool-cases (edge.target_type == resolved_type node)) [
        | inl typed ↦
            (let called = (rw (typed, edges_for) at e) in
              let (target, finds, next) =
                bind-eq-ok (find resolved_type fuel heap edge.target_type edge.owner_module) _
                  called in
              let (rest, selected, done) =
                bind-eq-ok (edges_for resolved_type fuel heap node edges) _ next in
              subst (Selected (edge ∷ edges)) (ok-injective done) (
                keep_if-Selected (target == node) target edge edges rest refl finds
                  (edges_for-Selected edges rest selected)))
        | inr other ↦
            (let rest = (rw (other, edges_for) at e) in
              skips
                (λ finds.
                  let visible =
                    find-visible resolved_type fuel heap edge.target_type edge.owner_module node
                      finds in
                  let k = (==_iff edge.target_type (resolved_type node)).1 (sym visible.0) in cc)
                (edges_for-Selected edges kept rest))
      ]

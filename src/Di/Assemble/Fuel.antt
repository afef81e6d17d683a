-- ===== src/Di/Assemble/Fuel.antt =====
-- The walk of `assemble` ends: every module is visited once, so its imports are queued once.
use gonest.Prelude.{
  ℕ, zero, suc, ◌+◌, ◌≤◌, ◌<◌, List, [], ◌∷◌, ◌++◌, Bool, true, false, ok, err, ◌≡◌, ◌≢◌, refl, inl,
  inr, arith, ==_iff, Bool-cases, if◌then◌else◌, length, length-append, bind-ne-err,
}
use gonest.Prelude.Members.{contains, contains_self}
use gonest.Prelude.Graph.{Reaches, Reaches-closed}
use gonest.Di.Builder.{Module}
use gonest.Di.Assemble.{
  Fns, Heap, out_of_fuel, State, built, extended, update, after_fn, visit, walk, start,
  validate_exports, check_reexports, validate_all, assemble,
}
use gonest.Di.Assemble.Search.{
  imports_of, Walking, Walking-start, Walking-skip, Walking-visit, visit-eq-ok, heap-extended,
}

-- The number of imports that the modules below `n` which are not visited will still queue.
abbrev pub pending : (ℕ → List ℕ) → (ℕ → Bool) → ℕ → ℕ
pending imports visited zero = 0
pending imports visited (suc k) =
    (if visited k then 0 else length (imports k)) + pending imports visited k

module _ (imports : ℕ → List ℕ) (visited : ℕ → Bool) (m : ℕ) where
  pending-update_above :
      (n : ℕ) → n ≤ m → pending imports (update visited m true) n ≡ pending imports visited n
  unfolding update
  pending-update_above zero h = refl
  pending-update_above (suc k) h = ground (arith, pending-update_above k)

  pub pending-update :
      (n : ℕ)
      → m < n
      → visited m ≡ false
      → pending imports (update visited m true) n + length (imports m) ≡ pending imports visited n
  unfolding update
  pending-update zero h new = absurd (omega arith)
  pending-update (suc k) h new =
      ground (arith, pending-update k, pending-update_above k, ==_iff k m)

validate_exports-ne-out_of_fuel :
    (m : ℕ) (body : Module) → validate_exports m body ≢ err out_of_fuel
unfolding validate_exports check_reexports
validate_exports-ne-out_of_fuel m body = ground arith

validate_all-ne-out_of_fuel :
    (heap : Heap) (order : List ℕ) → validate_all heap order ≢ err out_of_fuel
unfolding validate_all
validate_all-ne-out_of_fuel heap [] = λ e. cc
validate_all-ne-out_of_fuel heap (m ∷ order) =
    bind-ne-err (validate_exports m (heap m)) _ (validate_exports-ne-out_of_fuel m (heap m))
      (λ _ _. validate_all-ne-out_of_fuel heap order)

module _ (fns : Fns) (heap : Heap) (root n : ℕ) (inside : root < n)
    (bounded : (m i : ℕ) → m < n → contains (imports_of fns heap m) i ≡ true → i < n) where
  visit-ne-out_of_fuel : (m : ℕ) (s : State) → visit fns m s ≢ err out_of_fuel
  unfolding visit after_fn
  visit-ne-out_of_fuel m s = ground arith

  reached-lt : {m : ℕ} → Reaches (imports_of fns heap) root m → m < n
  reached-lt = Reaches-closed (λ m. m < n) inside bounded

  -- A visit takes one module off the queue, and what it queues is no longer pending.
  visit-shrinks :
      (fuel : ℕ) (s : State) (m : ℕ) (queue : List ℕ) {s₁ : State}
      → Walking fns heap root s (m ∷ queue)
      → length (m ∷ queue) + pending (imports_of fns heap) s.visited n ≤ suc fuel
      → s.visited m ≡ false
      → visit fns m s ≡ ok s₁
      → length (queue ++ (s₁.heap m).imports) + pending (imports_of fns heap) s₁.visited n ≤ fuel
  visit-shrinks fuel s m queue w h new visited =
      rw
        (
          visit-eq-ok fns heap root m s (w.fresh m new) visited,
          heap-extended m (built fns heap m) s,
        )
        (unfold extended in
          omega (
            arith,
            length-append queue (imports_of fns heap m),
            pending-update (imports_of fns heap) s.visited m n
                (reached-lt (w.queued m (contains_self m queue))) new,
          ))

  walk-ne-out_of_fuel :
      (fuel : ℕ) (s : State) (queue : List ℕ)
      → Walking fns heap root s queue
      → length queue + pending (imports_of fns heap) s.visited n ≤ fuel
      → walk fuel fns s queue ≢ err out_of_fuel
  unfolding walk
  walk-ne-out_of_fuel zero s [] w h = λ e. cc
  walk-ne-out_of_fuel (suc fuel) s [] w h = λ e. cc
  walk-ne-out_of_fuel zero s (m ∷ queue) w h = absurd (omega arith)
  walk-ne-out_of_fuel (suc fuel) s (m ∷ queue) w h = elim (Bool-cases (s.visited m)) [
    | inl old ↦
        rw (old, walk)
          (walk-ne-out_of_fuel fuel s queue (Walking-skip fns heap root m queue s w old)
            (omega arith))
    | inr new ↦
        rw (new, walk)
          (bind-ne-err (visit fns m s) _ (visit-ne-out_of_fuel m s) (λ s₁ visited.
            walk-ne-out_of_fuel fuel s₁ (queue ++ (s₁.heap m).imports)
              (Walking-visit fns heap root m queue s w new visited)
              (visit-shrinks fuel s m queue w h new visited)))
  ]

  -- With fuel for the root and for every import of every module, the walk is never cut short.
  pub assemble-ne-out_of_fuel :
      (fuel : ℕ)
      → suc (pending (imports_of fns heap) (λ _. false) n) ≤ fuel
      → assemble fuel fns heap root ≢ err out_of_fuel
  unfolding assemble
  assemble-ne-out_of_fuel fuel h =
      bind-ne-err (walk fuel fns (start heap) (root ∷ [])) _
        (walk-ne-out_of_fuel fuel (start heap) (root ∷ []) (Walking-start fns heap root)
          (omega arith))
        (λ s _.
          bind-ne-err (validate_all s.heap s.order) _ (validate_all-ne-out_of_fuel s.heap s.order)
            (λ _ _ e. cc))

-- ===== src/Di/Exports/Exact.antt =====
-- The effective exports are exactly what the re-export chains expose.
use gonest.Prelude.{
  ℕ, zero, suc, ◌≤◌, ◌<◌, List, [], ◌∷◌, true, false, none, some, ◌≡◌, ◌≢◌, inl, inr, arith,
  Bool-cases, Option-cases, some-injective, subst, refl,
}
use gonest.Prelude.Members.{contains, IsUnique, contains_self}
use gonest.Prelude.Graph.{Reaches-closed}
use gonest.Di.Assemble.{Heap, update}
use gonest.Di.Assemble.Fuel.{pending, pending-update}
use gonest.Di.Exports.{Visited, add_all, gather, expand, effective_exports}
use gonest.Di.Exports.Walk.{next, Exposes, Expanded, expand-Expanded}

module _ (heap : Heap) (fuel m : ℕ) (out : List ℕ)
    (found : effective_exports fuel heap m ≡ some out) where
  -- An importer sees each provider once, and sees exactly those that the module, or a module that it
  -- reaches by re-exports, exports itself.
  pub effective_exports_lem :
      IsUnique out
      × ((p : ℕ) → contains out p ≡ true → Exposes heap m p)
      × ((p : ℕ) → Exposes heap m p → contains out p ≡ true)
  unfolding effective_exports
  effective_exports_lem = elim (Option-cases (expand fuel heap m (λ _. false))) [
    | inl stop ↦ absurd (cc)
    | inr ((out', after), e) ↦
        let same : out' ≡ out = some-injective (rw (e, effective_exports) at found) in
        let r =
          subst (Expanded heap m (λ _. false) after) same
            (expand-Expanded heap fuel m (λ _. false) out' after e) in
        (
          r.unique,
          r.sound,
          λ p x.
              r.expands.exported x.by p refl
                (Reaches-closed (λ a. after a ≡ true) r.marked (λ a b. r.expands.closed a b refl)
                  x.reached)
                x.exported,
        )
  ]

-- How many modules below `n` were not expanded.
abbrev pub unexpanded : Visited → ℕ → ℕ
unexpanded = pending (λ _. 0 ∷ [])

pub unexpanded_all : (n : ℕ) → unexpanded (λ _. false) n ≡ n
unexpanded_all zero = refl
unexpanded_all (suc k) = omega (arith, unexpanded_all k)

pub unexpanded-grows :
    (v v' : Visited) (k : ℕ)
    → ((x : ℕ) → v x ≡ true → v' x ≡ true)
    → unexpanded v' k ≤ unexpanded v k
unexpanded-grows v v' zero grows = omega arith
unexpanded-grows v v' (suc k) grows = ground (arith, grows k, unexpanded-grows v v' k grows)

module _ (heap : Heap) (n : ℕ)
    (bounded : (m i : ℕ) → m < n → contains (next heap m) i ≡ true → i < n) where
  gather-ne-none :
      (fuel : ℕ)
      → ((m : ℕ) (v : Visited) → m < n → unexpanded v n < fuel → expand fuel heap m v ≢ none)
      → (modules out : List ℕ) (v : Visited) → ((y : ℕ) → contains modules y ≡ true → y < n)
      → unexpanded v n < fuel
      → gather (expand fuel heap) modules out v ≢ none
  unfolding gather
  gather-ne-none fuel call [] out v below h = λ e. cc
  gather-ne-none fuel call (re ∷ modules) out v below h =
      elim (Option-cases (expand fuel heap re v)) [
        | inl stop ↦ absurd (call re v (below re (contains_self re modules)) h stop)
        | inr ((ps, v₁), e) ↦ rw e (
            gather-ne-none fuel call modules (add_all out ps) v₁ (λ y c. below y (ground arith))
              (omega (
                arith,
                unexpanded-grows v v₁ n (expand-Expanded heap fuel re v ps v₁ e).expands.grows,
              )))
      ]

  expand-ne-none :
      (fuel m : ℕ) (v : Visited) → m < n → unexpanded v n < fuel → expand fuel heap m v ≢ none
  unfolding expand
  expand-ne-none zero m v below h = absurd (omega arith)
  expand-ne-none (suc fuel) m v below h = elim (Bool-cases (v m)) [
    | inl old ↦ rw (old, expand) (λ e. cc)
    | inr new ↦
        rw (new, expand)
          (gather-ne-none fuel (expand-ne-none fuel) (next heap m) (add_all [] (heap m).exports)
            (update v m true) (λ y. bounded m y below)
            (omega (arith, pending-update (λ _. 0 ∷ []) v m n below new)))
  ]

  -- Whatever cycles the re-exports have, the walk ends: fuel above the number of modules is enough.
  pub effective_exports-ne-none : (m : ℕ) → m < n → effective_exports (suc n) heap m ≢ none
  unfolding effective_exports
  effective_exports-ne-none m below =
      ground (arith, expand-ne-none (suc n) m (λ _. false) below (omega (arith, unexpanded_all n)))

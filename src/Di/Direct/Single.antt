-- ===== src/Di/Direct/Single.antt =====
-- `FindDirect` finds a value exactly if one visible provider resolves the type.
use gonest.Prelude.{
  ℕ, List, [], ◌∷◌, true, Option, some, ◌≡◌, ◌⊎◌, inl, inr, arith, ◌==◌, Bool-cases, Option-cases,
  subst,
}
use gonest.Prelude.Members.{contains, contains_self, contains-cons_cases}
use gonest.Di.Assemble.{Heap}
use gonest.Di.Direct.{only, with_value, exact_matches, find_direct, candidate_providers}
use gonest.Di.Direct.Candidates.{InScope, candidate_providers_lem}

only-some : {V : Type 0} (vs : List V) (v : V) → only vs ≡ some v → vs ≡ v ∷ []
unfolding only
only-some [] v e = cc
only-some (w ∷ []) v e = cc
only-some (w ∷ u ∷ vs) v e = cc

module _ {V : Type 0} (resolved_type : ℕ → ℕ) (resolved_value : ℕ → Option V) (t : ℕ) where
  -- A provider that resolves the type, with its value.
  pub record Resolves (p : ℕ) (v : V) : Type 0 where
    pub typed : resolved_type p ≡ t
    pub value : resolved_value p ≡ some v

  abbrev matches : List ℕ → List V
  matches = exact_matches resolved_type resolved_value t

  -- One candidate is passed over, or it is the first match.
  matches-cons :
      (q : ℕ) (ps : List ℕ)
      → (((w : V) → ¬ (Resolves q w)) × (matches (q ∷ ps) ≡ matches ps))
        ⊎ ((w : V) × Resolves q w × (matches (q ∷ ps) ≡ w ∷ matches ps))
  unfolding exact_matches with_value
  matches-cons q ps = elim (Bool-cases (resolved_type q == t)) [
    | inl same ↦ elim (Option-cases (resolved_value q)) [
      | inl missing ↦ inl (λ w r. ground (arith, r.value), ground arith)
      | inr (w, e) ↦ inr (w, ground arith, ground arith)
    ]
    | inr other ↦ inl (λ w r. ground (arith, r.typed), ground arith)
  ]

  matches-nil :
      (ps : List ℕ) → matches ps ≡ [] → (p : ℕ) (v : V) → contains ps p ≡ true → ¬ (Resolves p v)
  matches-nil [] e p v c r = cc
  matches-nil (q ∷ ps) e p v c r = elim (matches-cons q ps) [
    | inl (skip, same) ↦ elim (contains-cons_cases q ps p c) [
      | inl here ↦ skip v (subst (λ a. Resolves a v) here r)
      | inr there ↦ matches-nil ps (rw same at e) p v there r
    ]
    | inr (w, found, same) ↦ cc
  ]

  -- The one match, and no other.
  pub record Alone (ps : List ℕ) (v : V) : Type 0 where
    pub provider : ℕ
    pub listed : contains ps provider ≡ true
    pub resolves : Resolves provider v
    pub alone : (p : ℕ) (w : V) → contains ps p ≡ true → Resolves p w → p ≡ provider

  matches-single : (ps : List ℕ) (v : V) → matches ps ≡ v ∷ [] → Alone ps v
  unfolding exact_matches
  matches-single [] v e = cc
  matches-single (q ∷ ps) v e = elim (matches-cons q ps) [
    | inl (skip, same) ↦
        let rest = matches-single ps v (rw same at e) in
        record {
          provider = rest.provider;
          listed = ground (arith, rest.listed);
          resolves = rest.resolves;
          alone = λ p w c r. elim (contains-cons_cases q ps p c) [
            | inl here ↦ absurd (skip w (subst (λ a. Resolves a w) here r))
            | inr there ↦ rest.alone p w there r
          ];
        }
    | inr (w, found, same) ↦ record {
      provider = q;
      listed = contains_self q ps;
      resolves = subst (Resolves q) (cc) found;
      alone = λ p u c r. elim (contains-cons_cases q ps p c) [
        | inl here ↦ here
        | inr there ↦ absurd (matches-nil ps (cc) p u there r)
      ];
    }
  ]

  -- A value that `FindDirect` returns is that of a provider visible from the scope which resolves the
  -- type, and no other visible provider with a value resolves it.
  pub find_direct_lem :
      (fuel : ℕ) (heap : Heap) (scope : List ℕ) (v : V)
      → find_direct resolved_type resolved_value fuel heap scope t ≡ some (some v)
      → (p : ℕ) × InScope heap scope p
        × Resolves p v
        × ((q : ℕ) (w : V) → InScope heap scope q → Resolves q w → q ≡ p)
  unfolding find_direct
  find_direct_lem fuel heap scope v e = elim (Option-cases (candidate_providers fuel heap scope)) [
    | inl stop ↦ absurd (cc)
    | inr (ps, found) ↦
        let (unique, exact) = candidate_providers_lem fuel heap scope ps found in
        let one = matches-single ps v (only-some (matches ps) v (direct e found)) in
        (
          one.provider,
          (exact one.provider).0 one.listed,
          one.resolves,
          λ q w x r. one.alone q w ((exact q).1 x) r,
        )
  ]
    where
      direct :
          find_direct resolved_type resolved_value fuel heap scope t ≡ some (some v)
          → {ps : List ℕ} → candidate_providers fuel heap scope ≡ some ps
          → only (matches ps) ≡ some v
      direct e found = ground arith

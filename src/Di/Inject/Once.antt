-- ===== src/Di/Inject/Once.antt =====
-- A lazy injection constructs its provider once.
use gonest.Prelude.{
  ℕ, List, [], ◌∷◌, length, Option, none, some, ◌≡◌, refl, sym, ap, ◌∙◌, ◌==◌, ==_iff, Bool-cases,
  inl, inr,
}
use gonest.Di.Inject.{
  Bookkeeping, pointer, injected, instance_of, Providers, must_lazy_by_type, declare_all,
  matched_lazily, lazily, construct_lazily, constructed, last_match, lazy_resolved_value, value_at,
}

module _ (ps : Providers) where
  -- The provider that the loop takes does not depend on the bookkeeping.
  declare_all-same :
      (t : ℕ) (own : List ℕ) (b c : Bookkeeping) (matched : Option ℕ)
      → ((p : ℕ) → ps.declare p c ≡ c)
      → declare_all ps t own (c, matched) ≡ (c, (declare_all ps t own (b, matched)).1)
  unfolding declare_all
  declare_all-same t [] b c matched declared = refl
  declare_all-same t (p ∷ own) b c matched declared = rw (declared p) (
      declare_all-same t own (ps.declare p b) c (last_match ps (ps.resolved_type p == t) p matched)
        declared)

  value_at-first : (p v : ℕ) (rest : List (ℕ × ℕ)) → value_at ((p, v) ∷ rest) p ≡ some v
  value_at-first p v rest = rw ((==_iff p p).1 refl) refl

  -- A provider that was injected lazily is there from then on.
  constructed-kept :
      (before p : ℕ) (result : Bookkeeping × Option ℕ) (after : Bookkeeping) (v : ℕ)
      → constructed ps before p result ≡ (after, injected (instance_of v))
      → lazy_resolved_value p after ≡ some v
  constructed-kept before p (b, none) after v e = cc
  constructed-kept before p (b, some real) after v e =
      elim (Bool-cases (length b.pending_edges == before)) [
        | inl same ↦
            (let k = (rw same at e) in
              let same_value : real ≡ v = cc in
              sym (ap (λ x. lazy_resolved_value p x.0) k)
              ∙ (value_at-first p real b.lazy_resolved ∙ ap some same_value))
        | inr other ↦ (let k = (rw other at e) in cc)
      ]

  construct_lazily-kept :
      (call : Option (Bookkeeping → Bookkeeping × Option ℕ)) (p : ℕ) (b after : Bookkeeping) (v : ℕ)
      → construct_lazily ps call p b ≡ (after, injected (instance_of v))
      → lazy_resolved_value p after ≡ some v
  construct_lazily-kept none p b after v e = cc
  construct_lazily-kept (some call) p b after v e =
      constructed-kept (length b.pending_edges) p (call b) after v e

  lazily-kept :
      (found : Option ℕ) (p : ℕ) (b after : Bookkeeping) (v : ℕ)
      → lazy_resolved_value p b ≡ found
      → lazily ps found p b ≡ (after, injected (instance_of v))
      → lazy_resolved_value p after ≡ some v
  lazily-kept (some w) p b after v known e =
      let same : b ≡ after = ap (λ x. x.0) e in
      let same_value : w ≡ v = cc in
      ap (lazy_resolved_value p) (sym same) ∙ (known ∙ ap some same_value)
  lazily-kept none p b after v known e = elim (Bool-cases (ps.is_singleton p)) [
    | inl singleton ↦ construct_lazily-kept (ps.constructor_of p) p b after v (rw singleton at e)
    | inr other ↦ (let k = (rw other at e) in cc)
  ]

  matched_lazily-again :
      (state : Bookkeeping × Option ℕ) (after : Bookkeeping) (v : ℕ)
      → matched_lazily ps state ≡ (after, injected (instance_of v))
      → matched_lazily ps (after, state.1) ≡ (after, injected (instance_of v))
  matched_lazily-again (b, none) after v e = cc
  matched_lazily-again (b, some p) after v e =
      rw (lazily-kept (lazy_resolved_value p b) p b after v refl e) refl

  -- A lazy injection that has returned an instance returns the same instance again, without a second call
  -- of the constructor and without a change of the bookkeeping, when the providers are declared by then.
  pub must_lazy_by_type-once :
      (own : List ℕ) (t : ℕ) (b after : Bookkeeping) (v : ℕ)
      → must_lazy_by_type ps pointer own t b ≡ (after, injected (instance_of v))
      → ((p : ℕ) → ps.declare p after ≡ after)
      → must_lazy_by_type ps pointer own t after ≡ (after, injected (instance_of v))
  unfolding must_lazy_by_type
  must_lazy_by_type-once own t b after v e declared =
      rw (declare_all-same t own b after none declared)
        (matched_lazily-again (declare_all ps t own (b, none)) after v e)

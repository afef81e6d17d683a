-- ===== src/Di/Resolve/Visible.antt =====
-- `Find` returns what is visible from a module, its own providers first.
use gonest.Prelude.{
  ℕ, List, [], ◌∷◌, true, Option, none, some, Result, ok, err, ◌≡◌, ◌≢◌, refl, ◌⊎◌, inl, inr, arith,
  ◌==◌, ==_iff, Bool-cases, Option-cases, subst,
}
use gonest.Prelude.Members.{contains, contains-cons_cases, contains_self}
use gonest.Di.Assemble.{Heap}
use gonest.Di.Exports.Walk.{Exposes}
use gonest.Di.Exports.Exact.{effective_exports_lem}
use gonest.Di.Resolve.{
  FindError, no_provider, first_of_type, find_own, hidden, exported_or, find_exported,
  search_imports, find,
}

module _ (resolved_type : ℕ → ℕ) (target : ℕ) where
  pub first_of_type-some :
      (ps : List ℕ) {p : ℕ}
      → first_of_type resolved_type target ps ≡ some p
      → (contains ps p ≡ true) × (resolved_type p ≡ target)
  unfolding first_of_type
  first_of_type-some [] e = cc
  first_of_type-some (q ∷ ps) {p} e =
      ground (arith, first_of_type-some ps {p = p}, ==_iff p q, ==_iff (resolved_type q) target)

  pub first_of_type-none :
      (ps : List ℕ)
      → first_of_type resolved_type target ps ≡ none
      → (p : ℕ) → contains ps p ≡ true
      → resolved_type p ≢ target
  unfolding first_of_type
  first_of_type-none [] e p c = cc
  first_of_type-none (q ∷ ps) e p c = elim (Bool-cases (p == q)) [
    | inl same ↦ rw ((==_iff p q).0 same) (λ t. ground arith)
    | inr other ↦ first_of_type-none ps (ground arith) p (ground arith)
  ]

-- A provider that a module's importers see.
pub record VisibleImport (heap : Heap) (owner p : ℕ) : Type 0 where
  pub via : ℕ
  pub imported : contains (heap owner).imports via ≡ true
  pub exposed : Exposes heap via p

module _ (resolved_type : ℕ → ℕ) (fuel : ℕ) (heap : Heap) (target : ℕ) where
  -- The three ways on from one import.
  find_exported-eq-ok :
      (i : ℕ) (found : Option (List ℕ)) (rest : Result FindError ℕ) {p : ℕ}
      → find_exported resolved_type fuel heap target i found rest ≡ ok p
      → (ps : List ℕ) × (found ≡ some ps)
        × ((first_of_type resolved_type target ps ≡ some p) ⊎ (rest ≡ ok p))
  unfolding find_exported exported_or hidden
  find_exported-eq-ok i none rest e = cc
  find_exported-eq-ok i (some ps) rest e = (ps, refl, ground arith)

  find_exported-eq-no_provider :
      (i : ℕ) (found : Option (List ℕ)) (rest : Result FindError ℕ) {t : ℕ}
      → find_exported resolved_type fuel heap target i found rest ≡ err (no_provider t)
      → (ps : List ℕ) × (found ≡ some ps)
        × (first_of_type resolved_type target ps ≡ none)
        × (rest ≡ err (no_provider t))
  unfolding find_exported exported_or hidden
  find_exported-eq-no_provider i none rest e = cc
  find_exported-eq-no_provider i (some ps) rest e = (ps, refl, ground arith, ground arith)

  search_imports-visible :
      (imports : List ℕ) {p : ℕ}
      → search_imports resolved_type fuel heap target imports ≡ ok p
      → (via : ℕ) × (contains imports via ≡ true) × Exposes heap via p × (resolved_type p ≡ target)
  unfolding search_imports
  search_imports-visible [] e = cc
  search_imports-visible (i ∷ imports) {p} e =
      let (ps, exports, found) = find_exported-eq-ok i _ _ e in
      elim found [
        | inl first ↦
            let (listed, typed) = first_of_type-some resolved_type target ps first in
            (
              i,
              contains_self i imports,
              (effective_exports_lem heap fuel i ps exports).1 p listed,
              typed,
            )
        | inr later ↦
            let (via, c, exposed, typed) = search_imports-visible imports later in
            (via, ground (arith, c), exposed, typed)
      ]

  search_imports-nothing :
      (imports : List ℕ) {t : ℕ}
      → search_imports resolved_type fuel heap target imports ≡ err (no_provider t)
      → (via p : ℕ) → contains imports via ≡ true
      → Exposes heap via p
      → resolved_type p ≢ target
  unfolding search_imports
  search_imports-nothing [] e via p c x = cc
  search_imports-nothing (i ∷ imports) e via p c x =
      let (ps, exports, missing, later) = find_exported-eq-no_provider i _ _ e in
      elim (contains-cons_cases i imports via c) [
        | inl same ↦ first_of_type-none resolved_type target ps missing p (
            (effective_exports_lem heap fuel i ps exports).2 p
              (subst (λ v. Exposes heap v p) same x))
        | inr other ↦ search_imports-nothing imports later via p other x
      ]

  -- What `Find` returns resolves the type, and is a provider of the module itself, or else none of
  -- the module's own providers resolves the type and an imported module exposes it.
  pub find-visible :
      (owner p : ℕ)
      → find resolved_type fuel heap target owner ≡ ok p
      → (resolved_type p ≡ target)
        × ((contains (heap owner).providers p ≡ true)
            ⊎ (VisibleImport heap owner p
                × ((q : ℕ) → contains (heap owner).providers q ≡ true → resolved_type q ≢ target)))
  unfolding find find_own
  find-visible owner p e = elim (Option-cases (find_own resolved_type fuel heap target owner)) [
    | inl missing ↦
        let (via, c, exposed, typed) = search_imports-visible (heap owner).imports (ground arith) in
        (
          typed,
          inr (
            record { via = via; imported = c; exposed = exposed },
            first_of_type-none resolved_type target (heap owner).providers missing,
          ),
        )
    | inr (q, own) ↦
        let same : q ≡ p = ground arith in
        let (listed, typed) =
          first_of_type-some resolved_type target (heap owner).providers (rw same at own) in
        (typed, inl listed)
  ]

  find-eq-no_provider :
      (owner t : ℕ)
      → find resolved_type fuel heap target owner ≡ err (no_provider t)
      → (first_of_type resolved_type target (heap owner).providers ≡ none)
        × (search_imports resolved_type fuel heap target (heap owner).imports ≡ err (no_provider t))
  unfolding find find_own
  find-eq-no_provider owner t e = ground arith

  -- `Find` panics with "no provider registered" only if no visible provider resolves the type.
  pub find-no_provider :
      (owner t : ℕ)
      → find resolved_type fuel heap target owner ≡ err (no_provider t)
      → (p : ℕ) → (contains (heap owner).providers p ≡ true) ⊎ VisibleImport heap owner p
      → resolved_type p ≢ target
  find-no_provider owner t e p (inl own) =
      first_of_type-none resolved_type target (heap owner).providers
        (find-eq-no_provider owner t e).0 p own
  find-no_provider owner t e p (inr x) =
      search_imports-nothing (heap owner).imports (find-eq-no_provider owner t e).1 x.via p
        x.imported x.exposed

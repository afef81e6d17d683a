-- ===== src/Di/Inject/Refs.antt =====
-- What `findAllRefs` returns.
use gonest.Prelude.{
  ℕ, List, [], ◌∷◌, Bool, true, false, some, ◌≡◌, refl, sym, ap, subst, ◌↔◌, ◌⊎◌, inl, inr, ◌==◌,
  ==_iff, Bool-cases, Option-cases, arith, some-injective,
}
use gonest.Prelude.Members.{
  contains, contains-append, contains-append_cases, contains-cons_cases, contains_self, Within,
  IsUnique, IsUnique-snoc,
}
use gonest.Di.Assemble.{Heap}
use gonest.Di.Exports.{effective_exports}
use gonest.Di.Exports.Walk.{Exposes}
use gonest.Di.Exports.Exact.{effective_exports_lem}
use gonest.Di.Resolve.Visible.{VisibleImport}
use gonest.Di.Inject.{Providers, add_ref, add_new, add_refs, add_imported, find_all_refs}

module _ (ps : Providers) (t : ℕ) where
  -- Providers of the type that satisfy `P`, by what they stand for.
  abbrev pub StandsFor : (ℕ → Type 0) → ℕ → Type 0
  StandsFor P q = (p : ℕ) × P p × (ps.resolved_type p ≡ t) × (ps.inner p ≡ q)

  -- `out` has what `before` has and what stands for a provider with `P`.
  record Adds (before out : List ℕ) (P : ℕ → Type 0) : Type 0 where
    kept : Within before out
    added : (q : ℕ) → StandsFor P q → contains out q ≡ true
    sound : (q : ℕ) → contains out q ≡ true → (contains before q ≡ true) ⊎ StandsFor P q
    unique : IsUnique before → IsUnique out

  Adds-none : (before : List ℕ) (P : ℕ → Type 0) → ((p : ℕ) → ¬ P p) → Adds before before P
  Adds-none before P empty = record {
    kept = λ q e. e;
    added = λ q (p, holds, _, _). absurd (empty p holds);
    sound = λ q e. inl e;
    unique = λ u. u;
  }

  Adds-then :
      {before between out : List ℕ} {P Q R : ℕ → Type 0}
      → ((p : ℕ) → R p ↔ (P p ⊎ Q p))
      → Adds before between P
      → Adds between out Q
      → Adds before out R
  Adds-then split first rest = record {
    kept = λ q e. rest.kept q (first.kept q e);
    added = λ q (p, holds, typed, wrapped). elim ((split p).0 holds) [
      | inl here ↦ rest.kept q (first.added q (p, here, typed, wrapped))
      | inr later ↦ rest.added q (p, later, typed, wrapped)
    ];
    sound = λ q e. elim (rest.sound q e) [
      | inl earlier ↦ elim (first.sound q earlier) [
        | inl start ↦ inl start
        | inr (p, holds, typed, wrapped) ↦ inr (p, (split p).1 (inl holds), typed, wrapped)
      ]
      | inr (p, holds, typed, wrapped) ↦ inr (p, (split p).1 (inr holds), typed, wrapped)
    ];
    unique = λ u. rest.unique (first.unique u);
  }

  add_new-Adds :
      (known : Bool) (p : ℕ) (out : List ℕ)
      → ps.resolved_type p ≡ t
      → contains out (ps.inner p) ≡ known
      → Adds out (add_new ps known (ps.inner p) out) (λ x. x ≡ p)
  add_new-Adds true p out typed known = record {
    kept = λ q e. e;
    added = λ q (x, same, _, wrapped). rw⁻¹ wrapped (rw same known);
    sound = λ q e. inl e;
    unique = λ u. u;
  }
  add_new-Adds false p out typed known = record {
    kept = λ q e. ground (arith, contains-append out (ps.inner p ∷ []) q);
    added = λ q (x, same, _, wrapped).
        let k : ps.inner p ≡ q = (rw same at wrapped) in
        ground (arith, contains-append out (ps.inner p ∷ []) q, ==_iff q (ps.inner p));
    sound = λ q e. elim (contains-append_cases out (ps.inner p ∷ []) q e) [
      | inl earlier ↦ inl earlier
      | inr here ↦ inr (p, refl, typed, sym (ground (arith, ==_iff q (ps.inner p))))
    ];
    unique = λ u. IsUnique-snoc out (ps.inner p) u known;
  }

  add_ref-Adds : (p : ℕ) (out : List ℕ) → Adds out (add_ref ps t p out) (λ x. x ≡ p)
  add_ref-Adds p out = elim (Bool-cases (ps.resolved_type p == t)) [
    | inl same ↦
        (let typed = (==_iff (ps.resolved_type p) t).0 same in
          rw same (add_new-Adds (contains out (ps.inner p)) p out typed refl))
    | inr other ↦ rw other (record {
      kept = λ q e. e;
      added = λ q (x, here, typed, _).
          absurd (ground (arith, ==_iff (ps.resolved_type p) t, ap ps.resolved_type here));
      sound = λ q e. inl e;
      unique = λ u. u;
    })
  ]

  cons_split :
      (p : ℕ) (providers : List ℕ) (x : ℕ)
      → (contains (p ∷ providers) x ≡ true) ↔ ((x ≡ p) ⊎ (contains providers x ≡ true))
  cons_split p providers x = (
    contains-cons_cases p providers x,
    λ either. elim either [
      | inl same ↦ (rw same (contains_self p providers))
      | inr later ↦ ground arith
    ],
  )

  add_refs-Adds :
      (providers out : List ℕ)
      → Adds out (add_refs ps t providers out) (λ x. contains providers x ≡ true)
  unfolding add_refs
  add_refs-Adds [] out = Adds-none out _ (λ p e. cc)
  add_refs-Adds (p ∷ providers) out =
      Adds-then (cons_split p providers) (add_ref-Adds p out)
        (add_refs-Adds providers (add_ref ps t p out))

  module _ (fuel : ℕ) (heap : Heap) where
    abbrev ExposedBy : List ℕ → ℕ → Type 0
    ExposedBy imports p = (via : ℕ) × (contains imports via ≡ true) × Exposes heap via p

    Exposed_split :
        (m : ℕ) (imports exposed : List ℕ)
        → effective_exports fuel heap m ≡ some exposed
        → (p : ℕ) → ExposedBy (m ∷ imports) p ↔ ((contains exposed p ≡ true) ⊎ ExposedBy imports p)
    Exposed_split m imports exposed e p =
        let (_, sound, complete) = effective_exports_lem heap fuel m exposed e in
        (
          λ (via, imported, exposes). elim (contains-cons_cases m imports via imported) [
            | inl here ↦ inl (complete p (subst (λ y. Exposes heap y p) here exposes))
            | inr later ↦ inr (via, later, exposes)
          ],
          λ either. elim either [
            | inl shown ↦ (m, contains_self m imports, sound p shown)
            | inr (via, imported, exposes) ↦ (via, ground arith, exposes)
          ],
        )

    add_imported-Adds :
        (imports before out : List ℕ)
        → add_imported ps fuel heap t imports before ≡ some out
        → Adds before out (ExposedBy imports)
    unfolding add_imported
    add_imported-Adds [] before out e =
        subst (λ o. Adds before o (ExposedBy [])) (some-injective e)
          (Adds-none before (ExposedBy []) (λ p (via, imported, _). cc))
    add_imported-Adds (m ∷ imports) before out e =
        elim (Option-cases (effective_exports fuel heap m)) [
          | inl stop ↦ (let k = (rw (stop, add_imported) at e) in cc)
          | inr (exposed, found) ↦
              (let rest = (rw (found, add_imported) at e) in
                Adds-then (Exposed_split m imports exposed found) (add_refs-Adds exposed before)
                  (add_imported-Adds imports (add_refs ps t exposed before) out rest))
        ]

    -- `findAllRefs` returns each provider once, and exactly those that stand for a provider of the type
    -- which the module declares itself or which one of its imports exposes.
    pub find_all_refs_lem :
        (m : ℕ) (out : List ℕ)
        → find_all_refs ps fuel heap m t ≡ some out
        → IsUnique out
          × ((q : ℕ)
              → (contains out q ≡ true)
                ↔ StandsFor
                    (λ p. (contains (heap m).providers p ≡ true) ⊎ VisibleImport heap m p)
                    q)
    unfolding find_all_refs
    find_all_refs_lem m out e =
        let own = add_refs-Adds (heap m).providers [] in
        let rest = add_imported-Adds (heap m).imports (add_refs ps t (heap m).providers []) out e in
        let split : (p : ℕ)
            → ((contains (heap m).providers p ≡ true) ⊎ VisibleImport heap m p)
              ↔ ((contains (heap m).providers p ≡ true) ⊎ ExposedBy (heap m).imports p) =
          λ p. (
            λ either. elim either [
              | inl here ↦ inl here
              | inr x ↦ inr (x.via, x.imported, x.exposed)
            ],
            λ either. elim either [
              | inl here ↦ inl here
              | inr (via, imported, exposed) ↦
                  inr (record { via = via; imported = imported; exposed = exposed })
            ],
          ) in
        let all = Adds-then split own rest in
        (
          all.unique tt,
          λ q. (
            λ listed. elim (all.sound q listed) [ inl nothing ↦ absurd cc | inr stands ↦ stands ],
            all.added q,
          ),
        )

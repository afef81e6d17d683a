-- ===== src/Di/Direct/Candidates.antt =====
-- The candidates of a scope are what its modules declare and what their imports expose.
use gonest.Prelude.{
  ℕ, List, [], ◌∷◌, true, Option, none, some, ◌≡◌, ◌↔◌, refl, ◌⊎◌, inl, inr, arith, Bool-cases,
  some-injective, subst,
}
use gonest.Prelude.Members.{contains, contains_self, contains-cons_cases, Within, IsUnique}
use gonest.Di.Assemble.{Heap}
use gonest.Di.Exports.{effective_exports, add_all}
use gonest.Di.Exports.Walk.{Exposes, contains-add_all, IsUnique-add_all}
use gonest.Di.Exports.Exact.{effective_exports_lem}
use gonest.Di.Resolve.Visible.{VisibleImport}
use gonest.Di.Direct.{◌>>=◌, add_imports, add_modules, candidate_providers}

-- A provider that a module of the scope declares, or that an import of one exposes.
pub record InScope (heap : Heap) (scope : List ℕ) (p : ℕ) : Type 0 where
  pub member : ℕ
  pub listed : contains scope member ≡ true
  pub visible : (contains (heap member).providers p ≡ true) ⊎ VisibleImport heap member p

bind-eq-some :
    (o : Option (List ℕ)) (f : List ℕ → Option (List ℕ)) {out : List ℕ}
    → (o >>= f) ≡ some out
    → (a : List ℕ) × (o ≡ some a) × (f a ≡ some out)
bind-eq-some none f e = cc
bind-eq-some (some a) f e = (a, refl, e)

record Adds (before out : List ℕ) (P : ℕ → Type 0) : Type 0 where
  kept : Within before out
  added : (p : ℕ) → P p → contains out p ≡ true
  sound : (p : ℕ) → contains out p ≡ true → (contains before p ≡ true) ⊎ P p
  unique : IsUnique before → IsUnique out

module _ (fuel : ℕ) (heap : Heap) where
  abbrev ExposedBy : List ℕ → ℕ → Type 0
  ExposedBy imports p = (via : ℕ) × (contains imports via ≡ true) × Exposes heap via p

  add_imports-Adds :
      (before imports out : List ℕ)
      → add_imports fuel heap before imports ≡ some out
      → Adds before out (ExposedBy imports)
  unfolding add_imports
  add_imports-Adds before [] out e =
      subst (λ o. Adds before o (ExposedBy [])) (some-injective e)
        (record {
          kept = λ a c. c;
          added = λ p (via, c, x). cc;
          sound = λ p c. inl c;
          unique = λ u. u;
        })
  add_imports-Adds before (i ∷ imports) out e =
      let (ps, exports, later) = bind-eq-some (effective_exports fuel heap i) _ e in
      let exact = effective_exports_lem heap fuel i ps exports in
      let rest = add_imports-Adds (add_all before ps) imports out later in
      record {
        kept = λ a c. rest.kept a (ground (arith, contains-add_all before ps a));
        added = λ p (via, c, x). elim (contains-cons_cases i imports via c) [
          | inl same ↦
              let listed : contains ps p ≡ true =
                exact.2 p (subst (λ v. Exposes heap v p) same x) in
              rest.kept p (ground (arith, contains-add_all before ps p))
          | inr other ↦ rest.added p (via, other, x)
        ];
        sound = λ p c. elim (rest.sound p c) [
          | inl early ↦ elim (Bool-cases (contains ps p)) [
            | inl here ↦ inr (i, contains_self i imports, exact.1 p here)
            | inr other ↦ inl (ground (arith, contains-add_all before ps p))
          ]
          | inr (via, listed, x) ↦ inr (via, ground (arith, listed), x)
        ];
        unique = λ u. rest.unique (IsUnique-add_all before ps u);
      }

  abbrev Visible : ℕ → ℕ → Type 0
  Visible m p = (contains (heap m).providers p ≡ true) ⊎ VisibleImport heap m p

  add_module-Adds :
      (before : List ℕ) (m : ℕ) (out : List ℕ)
      → add_imports fuel heap (add_all before (heap m).providers) (heap m).imports ≡ some out
      → Adds before out (Visible m)
  add_module-Adds before m out e =
      let own = (heap m).providers in
      let rest = add_imports-Adds (add_all before own) (heap m).imports out e in
      record {
        kept = λ a c. rest.kept a (ground (arith, contains-add_all before own a));
        added = λ p x. elim x [
          | inl declared ↦ rest.kept p (ground (arith, contains-add_all before own p))
          | inr seen ↦ rest.added p (seen.via, seen.imported, seen.exposed)
        ];
        sound = λ p c. elim (rest.sound p c) [
          | inl early ↦ elim (Bool-cases (contains own p)) [
            | inl declared ↦ inr (inl declared)
            | inr other ↦ inl (ground (arith, contains-add_all before own p))
          ]
          | inr (via, imported, exposed) ↦
              inr (inr (record { via = via; imported = imported; exposed = exposed }))
        ];
        unique = λ u. rest.unique (IsUnique-add_all before own u);
      }

  not-InScope_nil : (p : ℕ) → ¬ (InScope heap [] p)
  not-InScope_nil p x = let c = x.listed in cc

  add_modules-Adds :
      (before scope out : List ℕ)
      → add_modules fuel heap before scope ≡ some out
      → Adds before out (InScope heap scope)
  unfolding add_modules
  add_modules-Adds before [] out e =
      subst (λ o. Adds before o (InScope heap [])) (some-injective e)
        (record {
          kept = λ a c. c;
          added = λ p x. absurd (not-InScope_nil p x);
          sound = λ p c. inl c;
          unique = λ u. u;
        })
  add_modules-Adds before (m ∷ scope) out e =
      let (mid, seen, later) =
        bind-eq-some (add_imports fuel heap (add_all before (heap m).providers) (heap m).imports) _
          e in
      let first = add_module-Adds before m mid seen in
      let rest = add_modules-Adds mid scope out later in
      record {
        kept = λ a c. rest.kept a (first.kept a c);
        added = λ p x. elim (contains-cons_cases m scope x.member x.listed) [
          | inl same ↦ rest.kept p (first.added p (subst (λ t. Visible t p) same x.visible))
          | inr other ↦
              rest.added p (record { member = x.member; listed = other; visible = x.visible })
        ];
        sound = λ p c. elim (rest.sound p c) [
          | inl early ↦ elim (first.sound p early) [
            | inl old ↦ inl old
            | inr v ↦ inr (record { member = m; listed = contains_self m scope; visible = v })
          ]
          | inr x ↦
              inr (record {
                member = x.member;
                listed = ground (arith, x.listed);
                visible = x.visible;
              })
        ];
        unique = λ u. rest.unique (first.unique u);
      }

  -- The candidates are the providers that are visible from the scope, each once.
  pub candidate_providers_lem :
      (scope out : List ℕ)
      → candidate_providers fuel heap scope ≡ some out
      → IsUnique out × ((p : ℕ) → (contains out p ≡ true) ↔ InScope heap scope p)
  unfolding candidate_providers
  candidate_providers_lem scope out e =
      let a = add_modules-Adds [] scope out e in
      (a.unique tt, λ p. (λ c. from_scope p (a.sound p c), a.added p))
    where
      from_scope : (p : ℕ) → (contains [] p ≡ true) ⊎ InScope heap scope p → InScope heap scope p
      from_scope p (inl c) = absurd (cc)
      from_scope p (inr x) = x

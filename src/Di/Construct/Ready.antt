-- ===== src/Di/Construct/Ready.antt =====
-- When nothing fails, a constructor is called after the singletons that it depends on are in place.
use gonest.Prelude.{
  ℕ, Bool, true, false, ◌≡◌, ◌≢◌, refl, sym, subst, ◌==◌, ==_iff, Bool-cases, inl, inr,
}
use gonest.Prelude.Members.{contains}
use gonest.Di.Assemble.{update}
use gonest.Di.Construct.Steps.{Status, waiting, returned, Site, Run}

pub update-at :
    {A : Type 0} (P : ℕ → A → Type 0) (f : ℕ → A) (i : ℕ) (a : A)
    → ((j : ℕ) → P j (f j))
    → P i a
    → (j : ℕ) → P j (update f i a j)
unfolding update
update-at P f i a all here j = elim (Bool-cases (j == i)) [
  | inl e ↦ rw e (subst (λ k. P k a) (sym ((==_iff j i).0 e)) here)
  | inr e ↦ rw e (all j)
]

pub update_self : {A : Type 0} (f : ℕ → A) (i : ℕ) (a : A) → update f i a i ≡ a
unfolding update
update_self f i a = rw ((==_iff i i).1 refl) refl

pub update-true : (f : ℕ → Bool) (i j : ℕ) → f j ≡ true → update f i true j ≡ true
unfolding update
update-true f i j e = elim (Bool-cases (j == i)) [
  | inl same ↦ rw same refl
  | inr other ↦ rw other e
]

abbrev pub IsStarted : Status → Type 0
IsStarted waiting = ⊥
IsStarted _ = Unit

module _ (site : Site) where
  -- The singletons among the dependencies of a node are in place.
  abbrev pub IsReady : (ℕ → Bool) → ℕ → Type 0
  IsReady filled n =
      (d : ℕ) → contains (site.deps n) d ≡ true → site.transient d ≡ false → filled d ≡ true

  abbrev Closed : ℕ → Bool → Bool → Type 0
  Closed n closed filled = closed ≡ true → site.transient n ≡ false → filled ≡ true

  record Inv (r : Run) : Type 0 where
    calm : r.cancelled ≡ false
    no_failure : (n : ℕ) → r.node n ≢ returned true
    no_edge_failure : (e : ℕ) → r.edge e ≢ returned true
    in_place : (n : ℕ) → Closed n (r.closed n) (r.filled n)
    ready : (n : ℕ) → site.transient n ≡ false → IsStarted (r.node n) → IsReady r.filled n

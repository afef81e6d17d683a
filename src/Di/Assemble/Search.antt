-- ===== src/Di/Assemble/Search.antt =====
-- The breadth-first walk of `assemble`: its invariant.
use gonest.Prelude.{
  ℕ, zero, suc, List, [], ◌∷◌, ◌++◌, true, false, ◌||◌, Option, none, some, ok, ◌≡◌, ◌≢◌, refl, inl,
  inr, arith, ◌==◌, ==_iff, Bool-cases, if◌then◌else◌, bind-eq-ok, ok-injective, subst,
}
use gonest.Prelude.Members.{
  contains, contains-append, contains-append_cases, contains-cons_cases, contains_self, IsUnique,
  IsUnique-snoc,
}
use gonest.Prelude.Graph.{Reaches, here, step}
use gonest.Di.Builder.{Module}
use gonest.Di.Assemble.{
  Fns, Heap, Owners, State, unowned, set_owner, set_owners, built, extended, update, after_fn,
  visit, walk, start,
}

pub heap-extended : (m : ℕ) (body : Module) (s : State) → (extended m body s).heap m ≡ body
unfolding extended update
heap-extended m body s = ground arith

-- The kinds of what a module owns, with the owner of each, and what a module declares of it.
pub data Kind : Type 0 where
  provider controller resolver listener scheduler : Kind

abbrev pub owner_of : Kind → Owners → ℕ → Option ℕ
owner_of provider o = o.provider
owner_of controller o = o.controller
owner_of resolver o = o.resolver
owner_of listener o = o.listener
owner_of scheduler o = o.scheduler

abbrev pub declared : Kind → Module → List ℕ
declared provider body = body.providers
declared controller body = body.controllers
declared resolver body = body.resolvers
declared listener body = body.listeners
declared scheduler body = body.schedulers

set_owner_lem :
    (m : ℕ) (refs : List ℕ) (owner : ℕ → Option ℕ) (p : ℕ)
    → set_owner m refs owner p ≡ (if contains refs p then some m else owner p)
unfolding set_owner
set_owner_lem m [] owner p = refl
set_owner_lem m (r ∷ refs) owner p =
    rw (set_owner_lem m refs (update owner r (some m)) p) (unfold update in ground arith)

owner_of-set_owners :
    (k : Kind) (m : ℕ) (body : Module) (o : Owners) (p : ℕ)
    → owner_of k (set_owners m body o) p
      ≡ (if contains (declared k body) p then some m else owner_of k o p)
unfolding set_owners
owner_of-set_owners provider m body o p = set_owner_lem m body.providers o.provider p
owner_of-set_owners controller m body o p = set_owner_lem m body.controllers o.controller p
owner_of-set_owners resolver m body o p = set_owner_lem m body.resolvers o.resolver p
owner_of-set_owners listener m body o p = set_owner_lem m body.listeners o.listener p
owner_of-set_owners scheduler m body o p = set_owner_lem m body.schedulers o.scheduler p

module _ (fns : Fns) (heap : Heap) where
  abbrev pub imports_of : ℕ → List ℕ
  imports_of m = (built fns heap m).imports

module _ (fns : Fns) (heap : Heap) (root : ℕ) where
  -- What holds at the head of the loop, with the given queue.
  pub record Walking (s : State) (queue : List ℕ) : Type 0 where
    pub listed : (m : ℕ) → s.visited m ≡ contains s.order m
    pub unique : IsUnique s.order
    pub fresh : (m : ℕ) → s.visited m ≡ false → s.heap m ≡ heap m
    pub done : (m : ℕ) → s.visited m ≡ true → s.heap m ≡ built fns heap m
    pub closed :
        (m i : ℕ)
        → s.visited m ≡ true
        → contains (imports_of fns heap m) i ≡ true
        → (s.visited i || contains queue i) ≡ true
    pub rooted : (s.visited root || contains queue root) ≡ true
    pub reached : (m : ℕ) → s.visited m ≡ true → Reaches (imports_of fns heap) root m
    pub owned :
        (k : Kind) (p m : ℕ)
        → owner_of k s.owners p ≡ some m
        → (s.visited m ≡ true) × (contains (declared k (built fns heap m)) p ≡ true)
    pub has_owner :
        (k : Kind) (p m : ℕ)
        → s.visited m ≡ true
        → contains (declared k (built fns heap m)) p ≡ true
        → owner_of k s.owners p ≢ none
    pub queued : (m : ℕ) → contains queue m ≡ true → Reaches (imports_of fns heap) root m

  no_owner : (k : Kind) (p : ℕ) {m : ℕ} → owner_of k unowned p ≢ some m
  no_owner provider p = λ e. cc
  no_owner controller p = λ e. cc
  no_owner resolver p = λ e. cc
  no_owner listener p = λ e. cc
  no_owner scheduler p = λ e. cc

  pub Walking-start : Walking (start heap) (root ∷ [])
  Walking-start = record {
    listed = λ m. refl;
    unique = tt;
    fresh = λ m e. refl;
    done = λ m e. cc;
    closed = λ m i e. cc;
    rooted = ground (arith, ==_iff root root);
    reached = λ m e. cc;
    owned = λ k p m e. absurd (no_owner k p e);
    has_owner = λ k p m e c. cc;
    queued =
        λ m e. elim (contains-cons_cases root [] m e) [ inl same ↦ rw same here | inr absent ↦ cc ];
  }

  module _ (m : ℕ) (queue : List ℕ) (s : State) (w : Walking s (m ∷ queue)) where
    pub Walking-skip : s.visited m ≡ true → Walking s queue
    Walking-skip old = record {
      listed = w.listed;
      unique = w.unique;
      fresh = w.fresh;
      done = w.done;
      closed = λ a i e c. ground (arith, w.closed a i, ==_iff i m);
      rooted = ground (arith, w.rooted);
      reached = w.reached;
      owned = w.owned;
      has_owner = w.has_owner;
      queued = λ a e. w.queued a (ground arith);
    }

    -- The module's `fn` ran on the module as the program set it up.
    pub Walking-extended :
        s.visited m ≡ false
        → Walking (extended m (built fns heap m) s) (queue ++ imports_of fns heap m)
    unfolding extended update
    Walking-extended new = record {
      listed = λ a. ground (arith, w.listed a, contains-append s.order (m ∷ []) a, ==_iff a m);
      unique = IsUnique-snoc s.order m w.unique (ground (arith, w.listed m));
      fresh = λ a e. ground (arith, w.fresh a);
      done = λ a e. ground (arith, w.done a, ==_iff a m);
      closed = λ a i e c. ground (
        arith,
        contains-append queue (imports_of fns heap m) i,
        w.closed a i,
        ==_iff a m,
        ==_iff i m,
      );
      rooted =
          ground
            (arith, contains-append queue (imports_of fns heap m) root, w.rooted, ==_iff root m);
      reached = λ a e. elim (Bool-cases (a == m)) [
        | inl same ↦ rw ((==_iff a m).0 same) (w.queued m (contains_self m queue))
        | inr other ↦ w.reached a (rw other at e)
      ];
      owned = λ k p a e.
          ground (
            arith,
            w.owned k p a,
            ==_iff a m,
            owner_of-set_owners k m (built fns heap m) s.owners p,
          );
      has_owner = λ k p a e c. ground (
        arith,
        w.has_owner k p a,
        ==_iff a m,
        owner_of-set_owners k m (built fns heap m) s.owners p,
      );
      queued = λ a e. elim (contains-append_cases queue (imports_of fns heap m) a e) [
        | inl old ↦ w.queued a (ground arith)
        | inr added ↦ step (w.queued m (contains_self m queue)) added
      ];
    }

  pub visit-eq-ok :
      (m : ℕ) (s : State) {s' : State}
      → s.heap m ≡ heap m
      → visit fns m s ≡ ok s'
      → s' ≡ extended m (built fns heap m) s
  unfolding visit after_fn
  visit-eq-ok m s same e = ground (arith, same)

  pub Walking-visit :
      (m : ℕ) (queue : List ℕ) (s : State) {s₁ : State}
      → Walking s (m ∷ queue)
      → s.visited m ≡ false
      → visit fns m s ≡ ok s₁
      → Walking s₁ (queue ++ (s₁.heap m).imports)
  Walking-visit m queue s w new visited =
      rw (visit-eq-ok m s (w.fresh m new) visited, heap-extended m (built fns heap m) s)
        (Walking-extended m queue s w new)

  -- The invariant holds at the end of a walk that returns.
  pub walk-Walking :
      (fuel : ℕ) (s : State) (queue : List ℕ) {s' : State}
      → Walking s queue
      → walk fuel fns s queue ≡ ok s'
      → Walking s' []
  unfolding walk
  walk-Walking zero s [] w e = subst (λ t. Walking t []) (ok-injective e) w
  walk-Walking (suc fuel) s [] w e = subst (λ t. Walking t []) (ok-injective e) w
  walk-Walking zero s (m ∷ queue) w e = cc
  walk-Walking (suc fuel) s (m ∷ queue) w e = elim (Bool-cases (s.visited m)) [
    | inl old ↦ walk-Walking fuel s queue (Walking-skip m queue s w old) (rw (old, walk) at e)
    | inr new ↦
        let (s₁, visited, rest) = bind-eq-ok (visit fns m s) _ (rw (new, walk) at e) in
        walk-Walking fuel s₁ (queue ++ (s₁.heap m).imports) (Walking-visit m queue s w new visited)
          rest
  ]

-- ===== src/Http/Filter/Laws.antt =====
-- Which filter handles an exception.
use gonest.Prelude.{
  ℕ, List, [], ◌∷◌, ◌++◌, true, Option, none, some, ◌≡◌, ◌≢◌, refl, sym, ap, arith, inl, inr,
  Bool-cases, Option-cases, some-injective, ◌==◌, ==_iff, subst,
}
use gonest.Http.Exception.{Exception}
use gonest.Http.Chain.{Handler, Exit, returned, panicked, exception, other}
use gonest.Http.Filter.{
  Filter, Reaction, function, context_type, catch_, handler_for, find_catch, lookup_catch, or_next,
  react, recover, filtered_handler, is_valid_catch_signature,
}

is_valid_catch_signature-Exact :
    (ins outs : List ℕ) (exc_type : ℕ)
    → is_valid_catch_signature ins outs exc_type ≡ true
    → (ins ≡ context_type ∷ exc_type ∷ []) × (outs ≡ [])
unfolding is_valid_catch_signature
is_valid_catch_signature-Exact [] outs exc_type h = absurd (ground arith)
is_valid_catch_signature-Exact (a ∷ []) outs exc_type h = absurd (ground arith)
is_valid_catch_signature-Exact (a ∷ b ∷ c ∷ ins) outs exc_type h = absurd (ground arith)
is_valid_catch_signature-Exact (a ∷ b ∷ []) (o ∷ outs) exc_type h = absurd (ground arith)
is_valid_catch_signature-Exact (a ∷ b ∷ []) [] exc_type h =
    let e : a ≡ context_type = ground arith in let k : b ≡ exc_type = ground arith in (cc, refl)

append_nil {ℓ} : {A : Type ℓ} (xs : List A) → xs ++ [] ≡ xs
append_nil [] = refl
append_nil (x ∷ xs) = ap (λ t. x ∷ t) (append_nil xs)

module _ {ℓ} {S : Type ℓ} where
  lookup_catch_self :
      (key : ℕ) (call : Reaction S) (catches : List (ℕ × Reaction S))
      → lookup_catch ((key, call) ∷ catches) key ≡ some call
  lookup_catch_self key call catches = ground arith

  lookup_catch-other :
      (key kind : ℕ) (call : Reaction S) (catches : List (ℕ × Reaction S))
      → kind ≢ key
      → lookup_catch ((key, call) ∷ catches) kind ≡ lookup_catch catches kind
  lookup_catch-other key kind call catches h = ground arith

  find_catch-append :
      (fs gs : List (Filter S)) (kind : ℕ)
      → find_catch (fs ++ gs) kind ≡ or_next (find_catch fs kind) (find_catch gs kind)
  unfolding find_catch
  find_catch-append [] gs kind = refl
  find_catch-append (f ∷ fs) gs kind = elim (Option-cases (handler_for f kind)) [
    | inl nothing ↦ rw nothing (find_catch-append fs gs kind)
    | inr (call, found) ↦ rw found refl
  ]

  react-or_next :
      (e : Exception) (c : S) (first second : Option (Reaction S)) (otherwise : S × Exit)
      → react e c (or_next first second) otherwise ≡ react e c first (react e c second otherwise)
  react-or_next e c none second otherwise = refl
  react-or_next e c (some call) second otherwise = refl

  -- The two searches are one in the controller's filters with the global ones behind them.
  pub filtered_handler-first :
      (controller_filters global_filters : List (Filter S)) (next : Handler S) (c d : S)
      (e : Exception)
      → next c ≡ (d, panicked (exception e))
      → filtered_handler controller_filters global_filters next c
        ≡ react e d
            (find_catch (controller_filters ++ global_filters) e.kind)
            (d, panicked (exception e))
  unfolding filtered_handler
  filtered_handler-first controller_filters global_filters next c d e h =
      rw
        (
          h,
          find_catch-append controller_filters global_filters e.kind,
          react-or_next e d (find_catch controller_filters e.kind)
              (find_catch global_filters e.kind) (d, panicked (exception e)),
        )
        refl

  -- The entry that a map of catches has for a type, and that it has none; the latest entry counts.
  pub data Registered : List (ℕ × Reaction S) → ℕ → Reaction S → Type ℓ where
    newest :
        {kind : ℕ} {call : Reaction S} {catches : List (ℕ × Reaction S)}
        → Registered ((kind, call) ∷ catches) kind call
    older :
        {key kind : ℕ} {other call : Reaction S} {catches : List (ℕ × Reaction S)}
        → kind ≢ key
        → Registered catches kind call
        → Registered ((key, other) ∷ catches) kind call

  pub data Unregistered : List (ℕ × Reaction S) → ℕ → Type ℓ where
    empty : {kind : ℕ} → Unregistered [] kind
    passed :
        {key kind : ℕ} {other : Reaction S} {catches : List (ℕ × Reaction S)}
        → kind ≢ key
        → Unregistered catches kind
        → Unregistered ((key, other) ∷ catches) kind

  -- What filters make of an exception: the first that has caught its type reacts, and without one the
  -- panic goes on.
  pub data Handles (e : Exception) (c : S) : List (Filter S) → S × Exit → Type ℓ where
    unhandled : Handles e c [] (c, panicked (exception e))
    reacts :
        {f : Filter S} {filters : List (Filter S)} {call : Reaction S}
        → Registered f.catches e.kind call
        → Handles e c (f ∷ filters) (call e c)
    skips :
        {f : Filter S} {filters : List (Filter S)} {result : S × Exit}
        → Unregistered f.catches e.kind
        → Handles e c filters result
        → Handles e c (f ∷ filters) result

  -- What they make of the end of a handler: they leave a return and any other panic as it is.
  pub data Recovers (filters : List (Filter S)) : S × Exit → S × Exit → Type ℓ where
    on_return : {c : S} → Recovers filters (c, returned) (c, returned)
    on_other :
        {c : S} {value : ℕ}
        → Recovers filters (c, panicked (other value)) (c, panicked (other value))
    on_exception :
        {e : Exception} {c : S} {result : S × Exit}
        → Handles e c filters result
        → Recovers filters (c, panicked (exception e)) result

  abbrev Looked : List (ℕ × Reaction S) → ℕ → Option (Reaction S) → Type ℓ
  Looked catches kind none = Unregistered catches kind
  Looked catches kind (some call) = Registered catches kind call

  Looked-behind :
      (key kind : ℕ) (call : Reaction S) (catches : List (ℕ × Reaction S))
      (found : Option (Reaction S))
      → kind ≢ key
      → Looked catches kind found
      → Looked ((key, call) ∷ catches) kind found
  Looked-behind key kind call catches none different looked = passed different looked
  Looked-behind key kind call catches (some later) different looked = older different looked

  lookup_catch-Looked :
      (catches : List (ℕ × Reaction S)) (kind : ℕ) → Looked catches kind (lookup_catch catches kind)
  lookup_catch-Looked [] kind = empty
  lookup_catch-Looked ((key, call) ∷ catches) kind = elim (Bool-cases (key == kind)) [
    | inl same ↦
        let e : key ≡ kind = (==_iff key kind).0 same in
        rw same (subst (λ k. Registered ((k, call) ∷ catches) kind call) (sym e) newest)
    | inr other_key ↦ rw other_key (
        Looked-behind key kind call catches (lookup_catch catches kind)
          (λ e. let k = (==_iff key kind).1 (sym e) in cc) (lookup_catch-Looked catches kind))
  ]

  -- One list of filters, with what happens behind it.
  react-Handles :
      (e : Exception) (c : S) (filters others : List (Filter S)) (otherwise : S × Exit)
      → Handles e c others otherwise
      → Handles e c (filters ++ others) (react e c (find_catch filters e.kind) otherwise)
  unfolding find_catch handler_for
  react-Handles e c [] others otherwise rest = rest
  react-Handles e c (f ∷ filters) others otherwise rest =
      let looked = lookup_catch-Looked f.catches e.kind in
      elim (Option-cases (lookup_catch f.catches e.kind)) [
        | inl nothing ↦
            rw nothing
              (skips (rw nothing at looked) (react-Handles e c filters others otherwise rest))
        | inr (call, found) ↦ rw found (reacts (rw found at looked))
      ]

  -- An exception with which the handlers below panic goes to the reaction of the first filter that has
  -- caught its type, the controller's filters before the global ones, and is passed on when no filter
  -- has; a return, and a panic with anything else, is left as it is.
  pub filtered_handler-Recovers :
      (controller_filters global_filters : List (Filter S)) (next : Handler S) (c : S)
      → Recovers
          (controller_filters ++ global_filters)
          (next c)
          (filtered_handler controller_filters global_filters next c)
  unfolding filtered_handler
  filtered_handler-Recovers controller_filters global_filters next c = recovered (next c)
    where
      recovered :
          (ended : S × Exit)
          → Recovers
              (controller_filters ++ global_filters)
              ended
              (recover controller_filters global_filters ended)
      recovered (d, returned) = on_return
      recovered (d, panicked (other value)) = on_other
      recovered (d, panicked (exception e)) = on_exception (
          react-Handles e d controller_filters global_filters _ (
            subst
              (λ fs.
                Handles e d fs
                  (react e d (find_catch global_filters e.kind) (d, panicked (exception e))))
              (append_nil global_filters) (react-Handles e d global_filters [] _ unhandled)))

  -- When Catch succeeds, it was given a function of a context and of the exemplar's type that returns
  -- nothing; from then on the filter reacts with it to exceptions of exactly that type, and to every
  -- other type as before.
  pub catch-handler_for :
      (f g : Filter S) (exc_type kind : ℕ) (ins outs : List ℕ) (call : Reaction S)
      → catch_ f exc_type (function ins outs call) ≡ some g
      → kind ≢ exc_type
      → (ins ≡ context_type ∷ exc_type ∷ [])
        × (outs ≡ [])
        × (handler_for g exc_type ≡ some call)
        × (handler_for g kind ≡ handler_for f kind)
  unfolding catch_ handler_for
  catch-handler_for f g exc_type kind ins outs call h different =
      elim (Bool-cases (is_valid_catch_signature ins outs exc_type)) [
        | inr invalid ↦ let k = (rw invalid at h) in cc
        | inl valid ↦
            let k = (rw valid at h) in
            let (ins_eq, outs_eq) = is_valid_catch_signature-Exact ins outs exc_type valid in
            let e = sym (some-injective k) in
            (
              ins_eq,
              outs_eq,
              rw e (lookup_catch_self exc_type call f.catches),
              rw e (lookup_catch-other exc_type kind call f.catches different),
            )
      ]

-- ===== src/Http/Filter.antt =====
-- Exception filters (internal/filter/filter.go, and filteredHandler and findCatch of
-- internal/app/app.go). Types are numbers.
pub mod Laws
use gonest.Prelude.{
  ℕ, List, [], ◌∷◌, Bool, true, false, ◌&&◌, Option, none, some, ◌==◌, if◌then◌else◌,
}
use gonest.Http.Exception.{Exception}
use gonest.Http.Chain.{Handler, Exit, returned, panicked, exception, other}

-- `contextType`, the type `*execution.HttpContext`.
abbrev pub context_type : ℕ
context_type = 0

abbrev pub Reaction {ℓ} : Type ℓ → Type ℓ
Reaction S = Exception → Handler S

-- What `Catch` is given for a handler: a function with its signature, or another value.
pub data Given {ℓ} (S : Type ℓ) : Type ℓ where
  not_a_function : Given S
  function : List ℕ → List ℕ → Reaction S → Given S

-- The map `catches`, the latest entry first.
pub record Filter {ℓ} (S : Type ℓ) : Type ℓ where
  pub catches : List (ℕ × Reaction S)

unfoldable pub is_valid_catch_signature : List ℕ → List ℕ → ℕ → Bool
is_valid_catch_signature (first ∷ second ∷ []) [] exc_type =
    first == context_type && second == exc_type
is_valid_catch_signature ins outs exc_type = false

module _ {ℓ} {S : Type ℓ} where
  abbrev pub new_filter : Filter S
  new_filter = record { catches = [] }

  -- `Catch`; nothing is returned where the source panics.
  unfoldable pub catch_ : Filter S → ℕ → Given S → Option (Filter S)
  catch_ f exc_type not_a_function = none
  catch_ f exc_type (function ins outs call) =
      if is_valid_catch_signature ins outs exc_type
      then some (record { catches = (exc_type, call) ∷ f.catches })
      else none

  abbrev pub lookup_catch : List (ℕ × Reaction S) → ℕ → Option (Reaction S)
  lookup_catch [] exc_type = none
  lookup_catch ((key, call) ∷ catches) exc_type =
      if key == exc_type then some call else lookup_catch catches exc_type

  -- `HandlerFor`
  unfoldable pub handler_for : Filter S → ℕ → Option (Reaction S)
  handler_for f exc_type = lookup_catch f.catches exc_type

  abbrev pub or_next : Option (Reaction S) → Option (Reaction S) → Option (Reaction S)
  or_next (some call) next = some call
  or_next none next = next

  unfoldable pub find_catch : List (Filter S) → ℕ → Option (Reaction S)
  find_catch [] exc_type = none
  find_catch (f ∷ filters) exc_type = or_next (handler_for f exc_type) (find_catch filters exc_type)

  -- The deferred function, once for each of the two lists that it searches.
  abbrev pub react : Exception → S → Option (Reaction S) → S × Exit → S × Exit
  react e c (some call) otherwise = call e c
  react e c none otherwise = otherwise

  abbrev pub recover : List (Filter S) → List (Filter S) → S × Exit → S × Exit
  recover controller_filters global_filters (c, returned) = (c, returned)
  recover controller_filters global_filters (c, panicked (other value)) =
      (c, panicked (other value))
  recover controller_filters global_filters (c, panicked (exception e)) =
      react e c (find_catch controller_filters e.kind)
        (react e c (find_catch global_filters e.kind) (c, panicked (exception e)))

  unfoldable pub filtered_handler : List (Filter S) → List (Filter S) → Handler S → Handler S
  filtered_handler controller_filters global_filters next c =
      recover controller_filters global_filters (next c)

-- ===== src/Http/Chain.antt =====
-- The handlers round a route (composeHandler, gatedHandler and interceptedHandler of
-- internal/app/app.go).
pub mod Order
use gonest.Prelude.{ℕ, List, [], ◌∷◌, ◌++◌, Bool, true, false, Option, none}
use mathlib.Core.List.{reverse}
use gonest.Http.Exception.{Exception}
use gonest.Http.Exception.Builtin.{forbidden, new_exception}

-- A value that is panicked with: an exception, or any other value.
pub data Panic : Type 0 where
  exception : Exception → Panic
  other : ℕ → Panic

pub data Exit : Type 0 where
  returned : Exit
  panicked : Panic → Exit

-- What a handler does to the state that it can reach, and how it ends.
abbrev pub Handler {ℓ} : Type ℓ → Type ℓ
Handler S = S → S × Exit

-- A middleware or interceptor is given the rest of the chain, which it may run, or not, or twice.
abbrev pub Middleware {ℓ} : Type ℓ → Type ℓ
Middleware S = Handler S → Handler S

-- A guard's verdict, or its panic.
pub data Verdict : Type 0 where
  verdict : Bool → Verdict
  guard_panicked : Panic → Verdict

abbrev pub Guard {ℓ} : Type ℓ → Type ℓ
Guard S = S → S × Verdict

abbrev pub refusal : Panic
refusal = exception (new_exception forbidden "" (none ∷ []))

module _ {ℓ} {S : Type ℓ} where
  -- The loop from the last of a chain to its first, given in that order.
  unfoldable pub wrap : List (Middleware S) → Handler S → Handler S
  wrap [] next = next
  wrap (mw ∷ earlier) next = wrap earlier (λ c. mw next c)

  unfoldable pub compose_handler : List (Middleware S) → List (Middleware S) → Handler S → Handler S
  compose_handler global_middleware controller_middleware handler c =
      wrap (reverse (global_middleware ++ controller_middleware)) handler c

  unfoldable pub intercepted_handler : List (Middleware S) → Handler S → Handler S
  intercepted_handler interceptors route_handler c = wrap (reverse interceptors) route_handler c

  -- What follows a guard.
  abbrev pub judge : S × Verdict → Handler S → S × Exit
  judge (c, verdict true) rest = rest c
  judge (c, verdict false) rest = (c, panicked refusal)
  judge (c, guard_panicked p) rest = (c, panicked p)

  unfoldable pub gated_handler : List (Guard S) → Handler S → Handler S
  gated_handler [] route_handler c = route_handler c
  gated_handler (g ∷ guards) route_handler c = judge (g c) (gated_handler guards route_handler)

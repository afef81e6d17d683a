-- ===== src/Lifecycle/Phase/Flat.antt =====
-- A phase as one list of hook calls.
use gonest.Prelude.{
  List, [], ◌∷◌, ◌++◌, Option, none, some, ◌≡◌, refl, sym, ap, ◌∙◌, ℕ, ◌⊎◌, inl, inr,
}
use gonest.Prelude.Bytes.{Bytes}
use gonest.Lifecycle.Hook.{
  HookName, HookError, Hook, Scope, singleton, transient, request, run_hook, run_gated, hook_of,
  invoke_hook,
}
use gonest.Lifecycle.Phase.{
  Participant, provider, no_runner, unless_failed, run_providers, run_modules,
}

abbrev pub Step {ℓ} : Type ℓ → Type ℓ
Step W = W → W × Option HookError

module _ {ℓ} {W : Type ℓ} where
  -- One after the other, up to the first that fails.
  abbrev pub run_all : List (Step W) → Step W
  run_all [] w = (w, none)
  run_all (s ∷ steps) w = unless_failed (s w) (run_all steps)

  unless_failed_assoc :
      (r : W × Option HookError) (f g : Step W)
      → unless_failed (unless_failed r f) g ≡ unless_failed r (λ w. unless_failed (f w) g)
  unless_failed_assoc (w, none) f g = refl
  unless_failed_assoc (w, some e) f g = refl

  pub run_all-append :
      (xs ys : List (Step W)) (w : W)
      → run_all (xs ++ ys) w ≡ unless_failed (run_all xs w) (run_all ys)
  run_all-append [] ys w = refl
  run_all-append (s ∷ xs) ys w =
      ap (unless_failed (s w)) (λ i v. run_all-append xs ys v i)
      ∙ sym (unless_failed_assoc (s w) (run_all xs) (run_all ys))

  -- The calls of a hook: of the providers that are singletons, are resolved and have the hook.
  abbrev pub gated_steps :
      HookName → Option Bytes → Scope → Option (Hook W) → Option ℕ → List (Step W)
  gated_steps name signal singleton (some h) (some resolved) =
      (λ w. invoke_hook h resolved name signal w) ∷ []
  gated_steps name signal _ _ _ = []

  abbrev pub steps_of : HookName → Option Bytes → List (Participant W) → List (Step W)
  steps_of name signal [] = []
  steps_of name signal (no_runner ∷ ps) = steps_of name signal ps
  steps_of name signal (provider p ∷ ps) =
      gated_steps name signal p.scope (hook_of name p) p.resolved ++ steps_of name signal ps

  abbrev pub all_steps : HookName → Option Bytes → List (List (Participant W)) → List (Step W)
  all_steps name signal [] = []
  all_steps name signal (m ∷ modules) = steps_of name signal m ++ all_steps name signal modules

  run_gated-steps :
      (name : HookName) (signal : Option Bytes) (scope : Scope) (hook : Option (Hook W))
      (resolved : Option ℕ) (rest : List (Step W)) (w : W)
      → unless_failed (run_gated name signal scope hook resolved w) (run_all rest)
        ≡ run_all (gated_steps name signal scope hook resolved ++ rest) w
  run_gated-steps name signal transient hook resolved rest w = refl
  run_gated-steps name signal request hook resolved rest w = refl
  run_gated-steps name signal singleton none resolved rest w = refl
  run_gated-steps name signal singleton (some h) none rest w = refl
  run_gated-steps name signal singleton (some h) (some resolved) rest w = refl

  run_providers-all :
      (name : HookName) (signal : Option Bytes) (ps : List (Participant W)) (w : W)
      → run_providers name signal ps w ≡ run_all (steps_of name signal ps) w
  unfolding run_providers run_hook
  run_providers-all name signal [] w = refl
  run_providers-all name signal (no_runner ∷ ps) w = run_providers-all name signal ps w
  run_providers-all name signal (provider p ∷ ps) w =
      ap (unless_failed (run_gated name signal p.scope (hook_of name p) p.resolved w))
        (λ i v. run_providers-all name signal ps v i)
      ∙ run_gated-steps name signal p.scope (hook_of name p) p.resolved (steps_of name signal ps) w

  pub run_modules-all :
      (name : HookName) (signal : Option Bytes) (modules : List (List (Participant W))) (w : W)
      → run_modules name signal modules w ≡ run_all (all_steps name signal modules) w
  unfolding run_modules
  run_modules-all name signal [] w = refl
  run_modules-all name signal (m ∷ modules) w =
      rw
        (
          run_providers-all name signal m w,
          run_all-append (steps_of name signal m) (all_steps name signal modules) w,
        )
        (ap (unless_failed (run_all (steps_of name signal m) w))
          (λ i v. run_modules-all name signal modules v i))

  outcome-cases :
      (r : W × Option HookError)
      → ((x : W) × (r ≡ (x, none))) ⊎ ((x : W) × (f : HookError) × (r ≡ (x, some f)))
  outcome-cases (x, none) = inl (x, refl)
  outcome-cases (x, some f) = inr (x, f, refl)

  -- How a list of calls ends with an error.
  pub run_all-failed :
      (steps : List (Step W)) (w v : W) (e : HookError)
      → run_all steps w ≡ (v, some e)
      → (before : List (Step W)) × (s : Step W) × (after : List (Step W)) × (u : W) × (steps
          ≡ before ++ s ∷ after)
        × (run_all before w ≡ (u, none))
        × (s u ≡ (v, some e))
  run_all-failed [] w v e h = cc
  run_all-failed (s ∷ steps) w v e h = elim (outcome-cases (s w)) [
    | inr (x, f, k) ↦ ([], s, steps, w, refl, refl, k ∙ (rw k at h))
    | inl (x, k) ↦
        let (before, t, after, u, split, ran, failed) = run_all-failed steps x v e (rw k at h) in
        (
          s ∷ before,
          t,
          after,
          u,
          ap (λ l. s ∷ l) split,
          ap (λ r. unless_failed r (run_all before)) k ∙ ran,
          failed,
        )
  ]

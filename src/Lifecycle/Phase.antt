-- ===== src/Lifecycle/Phase.antt =====
-- The phases: each runs one hook of all providers (internal/app/lifecycle.go).
pub mod Flat
use gonest.Prelude.{List, [], ◌∷◌, Option, none, some}
use mathlib.Core.List.{reverse}
use gonest.Prelude.Bytes.{Bytes}
use gonest.Lifecycle.Hook.{
  HookName, HookError, module_init, application_bootstrap, module_destroy,
  before_application_shutdown, application_shutdown, Provider, run_hook,
}

-- A registered provider, which may be of a type that has no hooks.
pub data Participant {ℓ} (W : Type ℓ) : Type ℓ where
  provider : Provider W → Participant W
  no_runner : Participant W

module _ {ℓ} {W : Type ℓ} where
  -- What follows a run that may have failed.
  abbrev pub unless_failed :
      W × Option HookError → (W → W × Option HookError) → W × Option HookError
  unless_failed (w, none) rest = rest w
  unless_failed (w, some e) rest = (w, some e)

  -- The inner loop of a phase, over the providers of a module.
  unfoldable pub run_providers :
      HookName → Option Bytes → List (Participant W) → W → W × Option HookError
  run_providers name signal [] w = (w, none)
  run_providers name signal (no_runner ∷ ps) w = run_providers name signal ps w
  run_providers name signal (provider p ∷ ps) w =
      unless_failed (run_hook name signal p w) (run_providers name signal ps)

  -- The outer loop.
  unfoldable pub run_modules :
      HookName → Option Bytes → List (List (Participant W)) → W → W × Option HookError
  run_modules name signal [] w = (w, none)
  run_modules name signal (m ∷ modules) w =
      unless_failed (run_providers name signal m w) (run_modules name signal modules)

  unfoldable pub run_module_init_phase : List (List (Participant W)) → W → W × Option HookError
  run_module_init_phase modules w = run_modules module_init none (reverse modules) w

  unfoldable pub run_application_bootstrap_phase :
      List (List (Participant W)) → W → W × Option HookError
  run_application_bootstrap_phase modules w =
      run_modules application_bootstrap none (reverse modules) w

  unfoldable pub run_module_destroy_phase : List (List (Participant W)) → W → W × Option HookError
  run_module_destroy_phase modules w = run_modules module_destroy none modules w

  unfoldable pub run_before_application_shutdown_phase :
      List (List (Participant W)) → Bytes → W → W × Option HookError
  run_before_application_shutdown_phase modules signal w =
      run_modules before_application_shutdown (some signal) modules w

  unfoldable pub run_application_shutdown_phase :
      List (List (Participant W)) → Bytes → W → W × Option HookError
  run_application_shutdown_phase modules signal w =
      run_modules application_shutdown (some signal) modules w

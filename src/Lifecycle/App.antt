-- ===== src/Lifecycle/App.antt =====
-- Start-up and shutdown of an application (New of internal/app/app.go, for the phases of hooks, and
-- internal/app/lifecycle.go).
pub mod Once
pub mod Order
use gonest.Prelude.{ℕ, suc, List, [], ◌∷◌, Bool, true, false, Option, none, some}
use gonest.Prelude.Bytes.{Bytes, text}
use gonest.Lifecycle.Hook.{HookError}
use gonest.Lifecycle.Phase.{
  Participant, unless_failed, run_module_init_phase, run_application_bootstrap_phase,
  run_module_destroy_phase, run_before_application_shutdown_phase, run_application_shutdown_phase,
}

-- The signals that are listened for, and any other with its text.
pub data Signal : Type 0 where
  interrupt : Signal
  sigterm : Signal
  other_signal : Bytes → Signal

-- `signalName`
unfoldable pub signal_name : Signal → Bytes
signal_name interrupt = text "SIGINT"
signal_name sigterm = text "SIGTERM"
signal_name (other_signal name) = name

-- What shutdown returns: an error of the adapter, or of a hook.
pub data AppError : Type 0 where
  adapter_error : ℕ → AppError
  lifecycle_error : HookError → AppError

-- `shutdown_once` is whether `shutdownOnce` was used; `closings` counts how often `shutdownDone` was
-- closed (a second time would panic).
pub record App {ℓ} (W : Type ℓ) : Type ℓ where
  pub modules : List (List (Participant W))
  pub shutdown_hooks_enabled : Bool
  pub shutdown_once : Bool
  pub closings : ℕ
  pub shutdown_err : Option AppError

module _ {ℓ} {W : Type ℓ} where
  -- The two phases that `New` runs.
  unfoldable pub run_startup_phases : List (List (Participant W)) → W → W × Option HookError
  run_startup_phases modules w =
      unless_failed (run_module_init_phase modules w) (run_application_bootstrap_phase modules)

  -- `EnableShutdownHooks`, without the goroutine that calls `shutdown` on a signal.
  unfoldable pub enable_shutdown_hooks : App W → App W
  enable_shutdown_hooks a = record a { shutdown_hooks_enabled = true }

  abbrev pub of_hooks : W × Option HookError → W × Option AppError
  of_hooks (w, none) = (w, none)
  of_hooks (w, some e) = (w, some (lifecycle_error e))

  -- The three phases of shutdown.
  unfoldable pub run_destroy_phases : List (List (Participant W)) → Bytes → W → W × Option HookError
  run_destroy_phases modules signal w = unless_failed (run_module_destroy_phase modules w) (λ v.
      unless_failed (run_before_application_shutdown_phase modules signal v)
        (run_application_shutdown_phase modules signal))

  abbrev pub hooks_if : Bool → List (List (Participant W)) → Bytes → W → W × Option AppError
  hooks_if false modules signal w = (w, none)
  hooks_if true modules signal w = of_hooks (run_destroy_phases modules signal w)

  -- `adapter_shutdown` is `Shutdown` of the HTTP adapter.
  module _ (adapter_shutdown : W → W × Option ℕ) where
    abbrev pub after_adapter :
        W × Option ℕ → Bool → List (List (Participant W)) → Bytes → W × Option AppError
    after_adapter (w, some e) enabled modules signal = (w, some (adapter_error e))
    after_adapter (w, none) enabled modules signal = hooks_if enabled modules signal w

    unfoldable pub run_shutdown_sequence : App W → Bytes → W → W × Option AppError
    run_shutdown_sequence a signal w =
        after_adapter (adapter_shutdown w) a.shutdown_hooks_enabled a.modules signal

    -- The closure that `shutdownOnce` runs, with what `shutdown` returns behind it.
    abbrev pub finish_shutdown : App W → W × Option AppError → App W × W × Option AppError
    finish_shutdown a (w, e) =
        (record a { shutdown_once = true; closings = suc a.closings; shutdown_err = e }, w, e)

    abbrev pub do_once : Bool → App W → Bytes → W → App W × W × Option AppError
    do_once true a signal w = (a, w, a.shutdown_err)
    do_once false a signal w = finish_shutdown a (run_shutdown_sequence a signal w)

    unfoldable pub shutdown : App W → Bytes → W → App W × W × Option AppError
    shutdown a signal w = do_once a.shutdown_once a signal w

    unfoldable pub close_ : App W → W → App W × W × Option AppError
    close_ a w = shutdown a [] w

    -- The body of the goroutine, for a signal that has arrived.
    unfoldable pub on_signal : App W → Signal → W → App W × W × Option AppError
    on_signal a sig w = shutdown a (signal_name sig) w

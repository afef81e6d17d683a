-- ===== src/Lifecycle/App/Order.antt =====
-- The order of the hooks at start-up and at shutdown.
use gonest.Prelude.{ℕ, List, ◌∷◌, ◌++◌, true, Option, none, some, ◌≡◌, sym, ap, ◌∙◌}
use mathlib.Core.List.{reverse}
use gonest.Prelude.Bytes.{Bytes}
use gonest.Lifecycle.Hook.{
  HookError, module_init, application_bootstrap, module_destroy, before_application_shutdown,
  application_shutdown,
}
use gonest.Lifecycle.Phase.{
  Participant, unless_failed, run_module_init_phase, run_application_bootstrap_phase,
  run_module_destroy_phase, run_before_application_shutdown_phase, run_application_shutdown_phase,
  run_modules,
}
use gonest.Lifecycle.Phase.Flat.{
  Step, run_all, run_all-append, run_all-failed, all_steps, run_modules-all,
}
use gonest.Lifecycle.App.{
  App, run_startup_phases, run_destroy_phases, run_shutdown_sequence, of_hooks, hooks_if,
  after_adapter,
}

module _ {ℓ} {W : Type ℓ} where
  -- All OnModuleInit hooks, the last module's first, then all OnApplicationBootstrap hooks alike.
  abbrev pub startup_steps : List (List (Participant W)) → List (Step W)
  startup_steps modules =
      all_steps module_init none (reverse modules)
      ++ all_steps application_bootstrap none (reverse modules)

  -- All OnModuleDestroy hooks, the first module's first, then those before and at shutdown alike.
  abbrev pub destroy_steps : List (List (Participant W)) → Bytes → List (Step W)
  destroy_steps modules signal =
      all_steps module_destroy none modules
      ++ (all_steps before_application_shutdown (some signal) modules
          ++ all_steps application_shutdown (some signal) modules)

  -- Start-up runs every OnModuleInit hook before every OnApplicationBootstrap hook, within each phase
  -- the modules from last to first and a module's providers as declared, up to the first hook that
  -- fails; providers that are no singletons, are not resolved or have no such hook are passed over.
  pub run_startup_phases-order :
      (modules : List (List (Participant W))) (w : W)
      → run_startup_phases modules w ≡ run_all (startup_steps modules) w
  unfolding run_startup_phases run_module_init_phase run_application_bootstrap_phase
  run_startup_phases-order modules w =
      rw
        (
          run_modules-all module_init none (reverse modules) w,
          run_all-append (all_steps module_init none (reverse modules))
              (all_steps application_bootstrap none (reverse modules)) w,
        )
        (ap (unless_failed (run_all (all_steps module_init none (reverse modules)) w))
          (λ i v. run_modules-all application_bootstrap none (reverse modules) v i))

  -- When start-up fails, one hook returned the error or panicked, all hooks before it in the order of
  -- start-up succeeded, and none behind it ran: the state is the one that the failing hook left.
  pub run_startup_phases-failed :
      (modules : List (List (Participant W))) (w v : W) (e : HookError)
      → run_startup_phases modules w ≡ (v, some e)
      → (before : List (Step W)) × (s : Step W) × (after : List (Step W)) × (u : W) × (startup_steps
            modules
          ≡ before ++ s ∷ after)
        × (run_all before w ≡ (u, none))
        × (s u ≡ (v, some e))
  run_startup_phases-failed modules w v e h =
      run_all-failed (startup_steps modules) w v e (sym (run_startup_phases-order modules w) ∙ h)

  run_destroy_phases-order :
      (modules : List (List (Participant W))) (signal : Bytes) (w : W)
      → run_destroy_phases modules signal w ≡ run_all (destroy_steps modules signal) w
  unfolding run_destroy_phases run_module_destroy_phase run_before_application_shutdown_phase
      run_application_shutdown_phase
  run_destroy_phases-order modules signal w =
      let second = all_steps before_application_shutdown (some signal) modules in
      let third = all_steps application_shutdown (some signal) modules in
      rw
        (
          run_modules-all module_destroy none modules w,
          run_all-append (all_steps module_destroy none modules) (second ++ third) w,
        )
        (ap (unless_failed (run_all (all_steps module_destroy none modules) w)) (λ i v.
          (ap (λ r. unless_failed r (λ u. run_modules application_shutdown (some signal) modules u))
                (run_modules-all before_application_shutdown (some signal) modules v)
              ∙ ap (unless_failed (run_all second v))
                  (λ j u. run_modules-all application_shutdown (some signal) modules u j)
              ∙ sym (run_all-append second third v))
            i))

  -- When hooks are enabled and the HTTP adapter has shut down without an error, shutdown runs every
  -- OnModuleDestroy hook, then every BeforeApplicationShutdown hook, then every OnApplicationShutdown
  -- hook, within each phase the modules from first to last, up to the first hook that fails, whose
  -- error is returned.
  pub run_shutdown_sequence-order :
      (adapter_shutdown : W → W × Option ℕ) (a : App W) (signal : Bytes) (w v : W)
      → a.shutdown_hooks_enabled ≡ true
      → adapter_shutdown w ≡ (v, none)
      → run_shutdown_sequence adapter_shutdown a signal w
        ≡ of_hooks (run_all (destroy_steps a.modules signal) v)
  unfolding run_shutdown_sequence
  run_shutdown_sequence-order adapter_shutdown a signal w v enabled drained =
      ap (λ r. after_adapter adapter_shutdown r a.shutdown_hooks_enabled a.modules signal) drained
      ∙ ap (λ b. hooks_if b a.modules signal v) enabled
      ∙ ap of_hooks (run_destroy_phases-order a.modules signal v)

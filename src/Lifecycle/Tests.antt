-- ===== src/Lifecycle/Tests.antt =====
-- Two modules whose hooks write to a log.
use gonest.Prelude.{ℕ, ◌+◌, List, [], ◌∷◌, ◌++◌, true, false, Option, none, some, ◌≡◌, refl}
use gonest.Prelude.Bytes.{text}
use gonest.Lifecycle.Hook.{
  context_type, string_type, error_type, other_type, done, returned_error, Hook, hook_error,
  singleton, Provider, hook_args, run_hook, invoke_hook,
}
use gonest.Lifecycle.Phase.{
  Participant, provider, no_runner, run_providers, run_modules, run_module_init_phase,
  run_application_bootstrap_phase, run_module_destroy_phase, run_before_application_shutdown_phase,
  run_application_shutdown_phase,
}
use gonest.Lifecycle.Phase.Flat.{Step, run_all}
use gonest.Lifecycle.App.{
  App, interrupt, run_startup_phases, run_destroy_phases, run_shutdown_sequence, of_hooks, shutdown,
  close_, on_signal, signal_name,
}
use gonest.Lifecycle.App.Once.{closed, signalled, handle_all, repeat, handle_all-once}
use gonest.Lifecycle.App.Order.{
  startup_steps, destroy_steps, run_startup_phases-failed, run_shutdown_sequence-order,
}

abbrev Log : Type 0
Log = List ℕ

abbrev writes : ℕ → Hook Log
writes n = record { ins = other_type 1 ∷ []; outs = []; call = λ args w. (w ++ n ∷ [], done) }

abbrev fails : ℕ → Hook Log
fails n = record {
  ins = other_type 1 ∷ context_type ∷ [];
  outs = error_type ∷ [];
  call = λ args w. (w ++ n ∷ [], returned_error n);
}

abbrev with_signal : ℕ → Hook Log
with_signal n = record {
  ins = other_type 1 ∷ context_type ∷ string_type ∷ [];
  outs = [];
  call = λ args w. (w ++ n ∷ [], done);
}

abbrev service : ℕ → Provider Log
service n = record {
  scope = singleton;
  resolved = some n;
  on_module_init = some (writes n);
  on_application_bootstrap = some (writes (10 + n));
  on_module_destroy = some (writes (20 + n));
  on_before_application_shutdown = some (with_signal (30 + n));
  on_application_shutdown = none;
}

abbrev broken : Provider Log
broken = record (service 3) { on_application_bootstrap = some (fails 13) }

-- The root first.
abbrev modules : List (List (Participant Log))
modules = (provider (service 1) ∷ no_runner ∷ []) ∷ (provider (service 2) ∷ []) ∷ []

abbrev broken_modules : List (List (Participant Log))
broken_modules = (provider broken ∷ provider (service 1) ∷ []) ∷ (provider (service 2) ∷ []) ∷ []

-- Opens the definitions for the tests below.
run : Log → Log
unfolding run_startup_phases run_destroy_phases run_shutdown_sequence run_module_init_phase
    run_application_bootstrap_phase run_module_destroy_phase run_before_application_shutdown_phase
    run_application_shutdown_phase run_modules run_providers run_hook invoke_hook hook_args shutdown
    close_ on_signal
run w = w

startup : run_startup_phases modules [] ≡ (2 ∷ 1 ∷ 12 ∷ 11 ∷ [], none)
unfolding run
startup = refl

failing_startup :
    run_startup_phases broken_modules [] ≡ (2 ∷ 3 ∷ 1 ∷ 12 ∷ 13 ∷ [], some (hook_error 13))
unfolding run
failing_startup = refl

run_startup_phases-failed_example :
    (before : List (Step Log)) × (s : Step Log) × (after : List (Step Log)) × (u : Log)
    × (startup_steps broken_modules ≡ before ++ s ∷ after)
    × (run_all before [] ≡ (u, none))
    × (s u ≡ (2 ∷ 3 ∷ 1 ∷ 12 ∷ 13 ∷ [], some (hook_error 13)))
run_startup_phases-failed_example =
    run_startup_phases-failed broken_modules [] (2 ∷ 3 ∷ 1 ∷ 12 ∷ 13 ∷ []) (hook_error 13)
      failing_startup

abbrev drain : Log → Log × Option ℕ
drain w = (w ++ 0 ∷ [], none)

abbrev app : App Log
app = record {
  modules = modules;
  shutdown_hooks_enabled = true;
  shutdown_once = false;
  closings = 0;
  shutdown_err = none;
}

teardown :
    (handle_all drain app (signalled interrupt ∷ closed ∷ []) []).1 ≡ 0 ∷ 21 ∷ 22 ∷ 31 ∷ 32 ∷ []
unfolding run
teardown = refl

run_shutdown_sequence-order_example :
    run_shutdown_sequence drain app (text "SIGTERM") []
    ≡ of_hooks (run_all (destroy_steps modules (text "SIGTERM")) (0 ∷ []))
run_shutdown_sequence-order_example =
    run_shutdown_sequence-order drain app (text "SIGTERM") [] (0 ∷ []) refl refl

handle_all-once_example : handle_all drain app (signalled interrupt ∷ closed ∷ []) [] ≡ (
  record app {
    shutdown_once = true;
    closings = 1;
    shutdown_err = (run_shutdown_sequence drain app (signal_name interrupt) []).1;
  },
  (run_shutdown_sequence drain app (signal_name interrupt) []).0,
  repeat drain
      (run_shutdown_sequence drain app (signal_name interrupt) []).1
      (signalled interrupt ∷ closed ∷ []),
)
handle_all-once_example = handle_all-once drain app (signalled interrupt) (closed ∷ []) [] refl

abbrev plain : Provider Log
plain = record {
  scope = singleton;
  resolved = none;
  on_module_init = none;
  on_application_bootstrap = none;
  on_module_destroy = none;
  on_before_application_shutdown = none;
  on_application_shutdown = none;
}

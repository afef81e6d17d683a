-- ===== src/Lifecycle/Hook.antt =====
-- A provider's hooks (internal/provider/lifecycle.go). Types are given by what the code asks of them.
pub mod Types
use gonest.Prelude.{
  ℕ, List, [], ◌∷◌, ◌++◌, Bool, true, false, ◌||◌, ◌&&◌, Option, none, some, if◌then◌else◌, length,
  ◌==◌,
}
use gonest.Prelude.Bytes.{Bytes}

-- The types that the code compares with, and all others.
pub data Ty : Type 0 where
  context_type : Ty
  string_type : Ty
  error_type : Ty
  other_type : ℕ → Ty

abbrev pub is_context : Ty → Bool
is_context context_type = true
is_context _ = false

abbrev pub is_string : Ty → Bool
is_string string_type = true
is_string _ = false

abbrev pub is_error : Ty → Bool
is_error error_type = true
is_error _ = false

-- The second `switch` of both tests.
abbrev pub valid_outs : List Ty → Bool
valid_outs [] = true
valid_outs (out ∷ []) = is_error out
valid_outs (first ∷ second ∷ outs) = false

-- `isValidHookSignature`, on the types of parameters and results.
unfoldable pub is_valid_hook_signature : List Ty → List Ty → Bool
is_valid_hook_signature [] outs = false
is_valid_hook_signature (first ∷ []) outs = valid_outs outs
is_valid_hook_signature (first ∷ second ∷ []) outs = is_context second && valid_outs outs
is_valid_hook_signature (first ∷ second ∷ third ∷ ins) outs = false

-- `isValidSignalHookSignature`
unfoldable pub is_valid_signal_hook_signature : List Ty → List Ty → Bool
is_valid_signal_hook_signature [] outs = false
is_valid_signal_hook_signature (first ∷ []) outs = false
is_valid_signal_hook_signature (first ∷ second ∷ []) outs = is_string second && valid_outs outs
is_valid_signal_hook_signature (first ∷ second ∷ third ∷ []) outs =
    is_context second && is_string third && valid_outs outs
is_valid_signal_hook_signature (first ∷ second ∷ third ∷ fourth ∷ ins) outs = false

-- What a hook is called with: the instance, the context, the signal.
pub data Arg : Type 0 where
  instance_arg : ℕ → Arg
  context_arg : Arg
  signal_arg : Bytes → Arg

-- How a call ends; values of errors and panics are numbers.
pub data Outcome : Type 0 where
  done : Outcome
  returned_error : ℕ → Outcome
  panicked : ℕ → Outcome

-- A function value: its types, and what a call of it does to the state that user code can reach.
pub record Hook {ℓ} (W : Type ℓ) : Type ℓ where
  pub ins : List Ty
  pub outs : List Ty
  pub call : List Arg → W → W × Outcome

pub data HookName : Type 0 where
  module_init : HookName
  application_bootstrap : HookName
  module_destroy : HookName
  before_application_shutdown : HookName
  application_shutdown : HookName

-- An error that a hook returned, or that stands for its panic.
pub data HookError : Type 0 where
  hook_error : ℕ → HookError
  hook_panic : HookName → ℕ → HookError

pub data Scope : Type 0 where
  singleton : Scope
  transient : Scope
  request : Scope

-- The fields of a `Provider` that its hooks depend on; `resolved` is ResolvedValue.
pub record Provider {ℓ} (W : Type ℓ) : Type ℓ where
  pub scope : Scope
  pub resolved : Option ℕ
  pub on_module_init : Option (Hook W)
  pub on_application_bootstrap : Option (Hook W)
  pub on_module_destroy : Option (Hook W)
  pub on_before_application_shutdown : Option (Hook W)
  pub on_application_shutdown : Option (Hook W)

-- A value that is given for a hook.
pub data Given {ℓ} (W : Type ℓ) : Type ℓ where
  not_a_function : Given W
  function : Hook W → Given W

abbrev context_arg_if : Bool → List Arg
context_arg_if true = context_arg ∷ []
context_arg_if false = []

-- The variable `args` of `invokeHook`, for a function of `num_in` parameters.
unfoldable pub hook_args : ℕ → ℕ → Option Bytes → List Arg
hook_args num_in resolved (some signal) =
    instance_arg resolved ∷ (context_arg_if (num_in == 3) ++ signal_arg signal ∷ [])
hook_args num_in resolved none = instance_arg resolved ∷ context_arg_if (num_in == 2)

module _ {ℓ} {W : Type ℓ} where
  -- `validateHookFunc` and `validateSignalHookFunc`; nothing is returned where they panic.
  unfoldable pub validate_hook_func : Given W → Option (Hook W)
  validate_hook_func not_a_function = none
  validate_hook_func (function h) = if is_valid_hook_signature h.ins h.outs then some h else none

  unfoldable pub validate_signal_hook_func : Given W → Option (Hook W)
  validate_signal_hook_func not_a_function = none
  validate_signal_hook_func (function h) =
      if is_valid_signal_hook_signature h.ins h.outs then some h else none

  -- The two functions for the five setters.
  abbrev pub store : HookName → Hook W → Provider W → Provider W
  store module_init h p = record p { on_module_init = some h }
  store application_bootstrap h p = record p { on_application_bootstrap = some h }
  store module_destroy h p = record p { on_module_destroy = some h }
  store before_application_shutdown h p = record p { on_before_application_shutdown = some h }
  store application_shutdown h p = record p { on_application_shutdown = some h }

  abbrev pub stored : HookName → Provider W → Option (Hook W) → Option (Provider W)
  stored name p none = none
  stored name p (some h) = some (store name h p)

  -- `OnModuleInit`, `OnApplicationBootstrap`, `OnModuleDestroy`, `BeforeApplicationShutdown` and
  -- `OnApplicationShutdown`.
  unfoldable pub register_hook : HookName → Given W → Provider W → Option (Provider W)
  register_hook before_application_shutdown fn p =
      stored before_application_shutdown p (validate_signal_hook_func fn)
  register_hook application_shutdown fn p =
      stored application_shutdown p (validate_signal_hook_func fn)
  register_hook name fn p = stored name p (validate_hook_func fn)

  abbrev pub hook_of : HookName → Provider W → Option (Hook W)
  hook_of module_init p = p.on_module_init
  hook_of application_bootstrap p = p.on_application_bootstrap
  hook_of module_destroy p = p.on_module_destroy
  hook_of before_application_shutdown p = p.on_before_application_shutdown
  hook_of application_shutdown p = p.on_application_shutdown

  abbrev pub hook_result : HookName → W × Outcome → W × Option HookError
  hook_result name (w, done) = (w, none)
  hook_result name (w, returned_error e) = (w, some (hook_error e))
  hook_result name (w, panicked p) = (w, some (hook_panic name p))

  unfoldable pub invoke_hook : Hook W → ℕ → HookName → Option Bytes → W → W × Option HookError
  invoke_hook h resolved name signal w =
      hook_result name (h.call (hook_args (length h.ins) resolved signal) w)

  abbrev pub run_gated :
      HookName → Option Bytes → Scope → Option (Hook W) → Option ℕ → W → W × Option HookError
  run_gated name signal singleton (some h) (some resolved) w = invoke_hook h resolved name signal w
  run_gated name signal _ _ _ w = (w, none)

  -- `runHook` and `runSignalHook`
  unfoldable pub run_hook : HookName → Option Bytes → Provider W → W → W × Option HookError
  run_hook name signal p w = run_gated name signal p.scope (hook_of name p) p.resolved w

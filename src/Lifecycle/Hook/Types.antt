-- ===== src/Lifecycle/Hook/Types.antt =====
-- A registered hook is called with arguments of its parameters' types.
use gonest.Prelude.{List, [], ◌∷◌, Option, none, some}
use gonest.Prelude.Bytes.{Bytes}
use gonest.Lifecycle.Hook.{
  Ty, context_type, string_type, error_type, Arg, instance_arg, context_arg, signal_arg, Hook,
  HookName, before_application_shutdown, application_shutdown,
}

-- The types of arguments, where `t` is the type of the instance.
abbrev pub types_of : Ty → List Arg → List Ty
types_of t [] = []
types_of t (instance_arg i ∷ args) = t ∷ types_of t args
types_of t (context_arg ∷ args) = context_type ∷ types_of t args
types_of t (signal_arg s ∷ args) = string_type ∷ types_of t args

-- The signal that a phase passes on: only the two shutdown phases have one.
abbrev pub signal_for : HookName → Bytes → Option Bytes
signal_for before_application_shutdown signal = some signal
signal_for application_shutdown signal = some signal
signal_for name signal = none

-- The function's first parameter, which the tests of signatures do not look at.
abbrev pub first_type : List Ty → Ty
first_type [] = error_type
first_type (t ∷ ins) = t

-- ===== src/Di/Token.antt =====
-- The tokens that a module's builder methods accept (internal/module/module.go), and the calls of
-- builder methods that a module's `fn` makes. A pointer is a number, its identity.
use gonest.Prelude.{ℕ, List}
use Prim.Native.String.{String}

-- The concrete kinds of a `TokenRef`. `other` is a type of the user's that satisfies `TokenRef` alone.
pub data TokenRef : Type 0 where
  module_ref provider_ref controller_ref resolver_ref middleware_ref filter_ref : ℕ → TokenRef
  listener_ref scheduler_ref other : ℕ → TokenRef

pub data Method : Type 0 where
  imports providers controllers resolvers exports uses filters listeners schedulers : Method

-- `panic(fmt.Sprintf("gonest: Module.Imports received a TokenRef that is not a *Module (%T)", ref))`
-- and the like: the method, and the token that it does not take.
pub data Panic : Type 0 where
  wrong_token : Method → TokenRef → Panic

pub data LazyCall : Type 0 where
  imports exports : List TokenRef → LazyCall

-- `fn` is the user's: the calls that it makes on its module, in order. `lazy` holds the calls that
-- the callback of `Lazy` makes on its `LazyModule`.
pub data Call : Type 0 where
  name : String → Call
  imports providers controllers resolvers exports uses filters : List TokenRef → Call
  listeners schedulers : List TokenRef → Call
  lazy : List LazyCall → Call

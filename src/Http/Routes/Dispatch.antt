-- ===== src/Http/Routes/Dispatch.antt =====
-- A request to a registered route.
use gonest.Prelude.{List, [], ◌∷◌, ◌++◌, map, false, none, ◌≡◌, ap}
use gonest.Http.Exception.Builtin.{forbidden, new_exception}
use gonest.Http.Chain.{panicked, Guard, verdict, refusal}
use gonest.Http.Chain.Order.{
  Layer, around, opening, closing, Pass, compose_handler-order, compose_handler-refused,
}
use gonest.Http.Filter.{find_catch, react, recover, filtered_handler}
use gonest.Http.Filter.Laws.{filtered_handler-first}
use gonest.Http.Routes.{Ctx, Route, Controller, Root, route_handler, with_route, attach}

module _ {ℓ} {U : Type ℓ} (root : Root U) (rc : Controller U) (r : Route U) where
  -- For a route whose middleware acts before and after the rest of the chain: when a guard refuses a
  -- request that the guards before it let pass, the route ends with the ForbiddenException that the
  -- first filter for its type handles, the controller's filters first; with no such filter it panics.
  -- What the middleware wrote on the way in is kept, and the route was set on the request first.
  pub route_handler-refused :
      (outer inner : List (Layer (Ctx U))) (passed : List (Guard (Ctx U))) (g : Guard (Ctx U))
      (others : List (Guard (Ctx U))) (c d e : Ctx U)
      → root.own_middleware ≡ map around outer
      → rc.middleware ≡ map around inner
      → rc.guards ≡ passed ++ g ∷ others
      → Pass passed (opening (outer ++ inner) (attach r c)) d
      → g d ≡ (e, verdict false)
      → route_handler root rc r c
        ≡ react
            (new_exception forbidden "" (none ∷ []))
            e
            (find_catch
              (rc.filters ++ root.own_filters)
              (new_exception forbidden "" (none ∷ [])).kind)
            (e, panicked refusal)
  unfolding route_handler
  route_handler-refused outer inner passed g others c d e mw_outer mw_inner guards pass refused =
      filtered_handler-first rc.filters root.own_filters _ c e
        (new_exception forbidden "" (none ∷ []))
        (unfold with_route in
          rw (mw_outer, mw_inner, guards)
            (compose_handler-refused outer inner passed g others rc.interceptors r.handler_func
              (attach r c) d e pass refused))

  -- For a route whose middleware and interceptors act before and after the rest of the chain, and
  -- guards that let the request pass: the route is set on the request, then middleware, guards and
  -- interceptors act in order, then the handler, then the later parts in reverse; the filters see
  -- how that ends.
  pub route_handler-order :
      (outer inner interceptors : List (Layer (Ctx U))) (c d : Ctx U)
      → root.own_middleware ≡ map around outer
      → rc.middleware ≡ map around inner
      → rc.interceptors ≡ map around interceptors
      → Pass rc.guards (opening (outer ++ inner) (attach r c)) d
      → route_handler root rc r c
        ≡ recover rc.filters root.own_filters (
            closing
              (outer ++ inner)
              (closing interceptors (r.handler_func (opening interceptors d))))
  unfolding route_handler filtered_handler with_route
  route_handler-order outer inner interceptors c d mw_outer mw_inner its pass =
      rw (mw_outer, mw_inner, its)
        (ap (recover rc.filters root.own_filters) (
          compose_handler-order outer inner interceptors rc.guards r.handler_func (attach r c) d
            pass))

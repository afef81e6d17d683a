-- ===== src/Http/Routes/Collect.antt =====
-- No route is registered twice, and none at all if a key is repeated.
use gonest.Prelude.{
  List, [], ◌∷◌, ◌++◌, true, false, Option, some, Result, ok, err, ◌>>=◌, ◌≡◌, refl, sym, ◌∙◌,
  append_assoc, append-nil, ℕ,
}
use gonest.Prelude.Bytes.{Bytes, has_key}
use gonest.Http.Chain.{Handler}
use gonest.Http.Method.{HttpMethod}
use gonest.Http.Routes.{
  Ctx, Route, Controller, ControllerRef, routable, not_routable, Root, Collected, Routes,
  RouteError, duplicate_route, collected, key_of, collect_one, collect_routes, collect_controllers,
  collect_modules, no_routes, register_all, register_routes,
}

module _ {ℓ} {U : Type ℓ} where
  -- All routes, in the order of the modules, of their controllers and of these controllers' routes.
  abbrev pub routes_of : Root U → Controller U → List (Route U) → List (Collected U)
  routes_of root rc [] = []
  routes_of root rc (r ∷ rs) = collected root rc r ∷ routes_of root rc rs

  abbrev pub routes_in : Root U → List (ControllerRef U) → List (Collected U)
  routes_in root [] = []
  routes_in root (not_routable ∷ cs) = routes_in root cs
  routes_in root (routable rc ∷ cs) = routes_of root rc rc.own_routes ++ routes_in root cs

  abbrev pub all_routes : Root U → List (List (ControllerRef U)) → List (Collected U)
  all_routes root [] = []
  all_routes root (m ∷ modules) = routes_in root m ++ all_routes root modules

  collect_all : List (Collected U) → Routes U → Result RouteError (Routes U)
  collect_all [] s = ok s
  collect_all (x ∷ xs) s = collect_one x s >>= collect_all xs

  bind-same :
      (m : Result RouteError (Routes U)) (f g : Routes U → Result RouteError (Routes U))
      → ((s : Routes U) → f s ≡ g s)
      → (m >>= f) ≡ (m >>= g)
  bind-same (ok s) f g h = h s
  bind-same (err e) f g h = refl

  bind_assoc :
      (m : Result RouteError (Routes U)) (f g : Routes U → Result RouteError (Routes U))
      → ((m >>= f) >>= g) ≡ (m >>= λ s. f s >>= g)
  bind_assoc (ok s) f g = refl
  bind_assoc (err e) f g = refl

  collect_all-append :
      (xs ys : List (Collected U)) (s : Routes U)
      → collect_all (xs ++ ys) s ≡ (collect_all xs s >>= collect_all ys)
  unfolding collect_all
  collect_all-append [] ys s = refl
  collect_all-append (x ∷ xs) ys s =
      bind-same (collect_one x s) (collect_all (xs ++ ys))
        (λ t. collect_all xs t >>= collect_all ys) (collect_all-append xs ys)
      ∙ sym (bind_assoc (collect_one x s) (collect_all xs) (collect_all ys))

  module _ (root : Root U) where
    collect_routes-all :
        (rc : Controller U) (rs : List (Route U)) (s : Routes U)
        → collect_routes root rc rs s ≡ collect_all (routes_of root rc rs) s
    unfolding collect_routes collect_all
    collect_routes-all rc [] s = refl
    collect_routes-all rc (r ∷ rs) s =
        bind-same (collect_one (collected root rc r) s) (collect_routes root rc rs)
          (collect_all (routes_of root rc rs)) (collect_routes-all rc rs)

    collect_controllers-all :
        (cs : List (ControllerRef U)) (s : Routes U)
        → collect_controllers root cs s ≡ collect_all (routes_in root cs) s
    unfolding collect_controllers
    collect_controllers-all [] s = unfold collect_all in refl
    collect_controllers-all (not_routable ∷ cs) s = collect_controllers-all cs s
    collect_controllers-all (routable rc ∷ cs) s =
        rw
          (
            collect_routes-all rc rc.own_routes s,
            collect_all-append (routes_of root rc rc.own_routes) (routes_in root cs) s,
          )
          (bind-same (collect_all (routes_of root rc rc.own_routes) s) (collect_controllers root cs)
            (collect_all (routes_in root cs)) (collect_controllers-all cs))

    collect_modules-all :
        (modules : List (List (ControllerRef U))) (s : Routes U)
        → collect_modules root modules s ≡ collect_all (all_routes root modules) s
    unfolding collect_modules
    collect_modules-all [] s = unfold collect_all in refl
    collect_modules-all (m ∷ modules) s =
        rw
          (
            collect_controllers-all m s,
            collect_all-append (routes_in root m) (all_routes root modules) s,
          )
          (bind-same (collect_all (routes_in root m) s) (collect_modules root modules)
            (collect_all (all_routes root modules)) (collect_modules-all modules))

  -- No key is among those seen or those before it.
  abbrev pub AreFresh : List Bytes → List (Collected U) → Type 0
  AreFresh seen [] = Unit
  AreFresh seen (x ∷ xs) = (has_key seen (key_of x) ≡ false) × AreFresh (key_of x ∷ seen) xs

  -- The keys seen after a list, the latest first.
  abbrev pub seen_after : List Bytes → List (Collected U) → List Bytes
  seen_after seen [] = seen
  seen_after seen (x ∷ xs) = seen_after (key_of x ∷ seen) xs

  collect_all-AreFresh :
      (xs : List (Collected U)) (s : Routes U)
      → AreFresh s.seen xs
      → collect_all xs s ≡ ok (record { routes = s.routes ++ xs; seen = seen_after s.seen xs })
  unfolding collect_all collect_one
  collect_all-AreFresh [] s h = rw (append-nil s.routes) refl
  collect_all-AreFresh (x ∷ xs) s h =
      let t : Routes U = record { routes = s.routes ++ x ∷ []; seen = key_of x ∷ s.seen } in
      rw (h.0, collect_all-AreFresh xs t h.1, append_assoc s.routes (x ∷ []) xs) refl

  collect_all-repeated :
      (xs : List (Collected U)) (x : Collected U) (ys : List (Collected U)) (s : Routes U)
      → AreFresh s.seen xs
      → has_key (seen_after s.seen xs) (key_of x) ≡ true
      → collect_all (xs ++ x ∷ ys) s ≡ err (duplicate_route (key_of x))
  unfolding collect_all collect_one
  collect_all-repeated [] x ys s h k = rw k refl
  collect_all-repeated (y ∷ xs) x ys s h k =
      let t : Routes U = record { routes = s.routes ++ y ∷ []; seen = key_of y ∷ s.seen } in
      rw h.0 (collect_all-repeated xs x ys t h.1 k)

  module _ {κ} {A : Type κ}
      (register_route : HttpMethod → Bytes → Handler (Ctx U) → A → A × Option ℕ) where
    -- When no key of the whole tree is repeated, the adapter is given all routes, in the order of
    -- modules, controllers and declarations.
    pub register_routes-all :
        (root : Root U) (modules : List (List (ControllerRef U))) (a : A)
        → AreFresh [] (all_routes root modules)
        → register_routes register_route root modules a
          ≡ register_all register_route (all_routes root modules) a
    unfolding register_routes
    register_routes-all root modules a h =
        rw
          (
            collect_modules-all root modules no_routes,
            collect_all-AreFresh (all_routes root modules) no_routes h,
          )
          refl

    -- When a route's key is that of a route before it, the first such key is reported and nothing is
    -- registered: the adapter is as before.
    pub register_routes-repeated :
        (root : Root U) (modules : List (List (ControllerRef U))) (a : A) (xs : List (Collected U))
        (x : Collected U) (ys : List (Collected U))
        → all_routes root modules ≡ xs ++ x ∷ ys
        → AreFresh [] xs
        → has_key (seen_after [] xs) (key_of x) ≡ true
        → register_routes register_route root modules a ≡ (a, some (duplicate_route (key_of x)))
    unfolding register_routes
    register_routes-repeated root modules a xs x ys e h k =
        rw
          (
            collect_modules-all root modules no_routes,
            e,
            collect_all-repeated xs x ys no_routes h k,
          )
          refl

-- ===== src/Http/Chain/Order.antt =====
-- The order in which the handlers of a chain run.
use gonest.Prelude.{List, [], ◌∷◌, ◌++◌, map, true, false, ◌≡◌, refl, ap}
use mathlib.Core.List.{reverse, reverse-cons, map-append}
use gonest.Http.Chain.{
  Exit, returned, panicked, Handler, Middleware, Guard, verdict, Panic, wrap, compose_handler,
  intercepted_handler, gated_handler, refusal,
}

-- What a layer does before and after the rest of the chain.
abbrev pub Layer {ℓ} : Type ℓ → Type ℓ
Layer S = (S → S) × (S → S)

module _ {ℓ} {S : Type ℓ} where
  -- A chain as it is meant: the first is outermost.
  abbrev pub nest : List (Middleware S) → Handler S → Handler S
  nest [] handler = handler
  nest (mw ∷ chain) handler = mw (nest chain handler)

  wrap-append :
      (later earlier : List (Middleware S)) (handler : Handler S)
      → wrap (later ++ earlier) handler ≡ wrap earlier (wrap later handler)
  unfolding wrap
  wrap-append [] earlier handler = refl
  wrap-append (mw ∷ later) earlier handler = wrap-append later earlier (mw handler)

  wrap-reverse :
      (chain : List (Middleware S)) (handler : Handler S)
      → wrap (reverse chain) handler ≡ nest chain handler
  wrap-reverse [] handler = unfold wrap in refl
  wrap-reverse (mw ∷ chain) handler =
      rw
        (
          reverse-cons mw chain,
          wrap-append (reverse chain) (mw ∷ []) handler,
          wrap-reverse chain handler,
        )
        (unfold wrap in refl)

  pub compose_handler-nest :
      (outer inner : List (Middleware S)) (handler : Handler S)
      → compose_handler outer inner handler ≡ nest (outer ++ inner) handler
  unfolding compose_handler
  compose_handler-nest outer inner handler = wrap-reverse (outer ++ inner) handler

  pub intercepted_handler-nest :
      (interceptors : List (Middleware S)) (handler : Handler S)
      → intercepted_handler interceptors handler ≡ nest interceptors handler
  unfolding intercepted_handler
  intercepted_handler-nest interceptors handler = wrap-reverse interceptors handler

  abbrev pub finish : (S → S) → S × Exit → S × Exit
  finish after (c, returned) = (after c, returned)
  finish after (c, panicked p) = (c, panicked p)

  -- The middleware of a layer. It calls the rest once and does not recover from its panics.
  abbrev pub around : Layer S → Middleware S
  around (before, after) next c = finish after (next (before c))

  abbrev pub opening : List (Layer S) → S → S
  opening [] c = c
  opening ((before, after) ∷ layers) c = opening layers (before c)

  abbrev pub closing : List (Layer S) → S × Exit → S × Exit
  closing [] outcome = outcome
  closing ((before, after) ∷ layers) outcome = finish after (closing layers outcome)

  nest-around :
      (layers : List (Layer S)) (handler : Handler S) (c : S)
      → nest (map around layers) handler c ≡ closing layers (handler (opening layers c))
  nest-around [] handler c = refl
  nest-around ((before, after) ∷ layers) handler c =
      ap (finish after) (nest-around layers handler (before c))

  closing-panicked :
      (layers : List (Layer S)) (c : S) (p : Panic)
      → closing layers (c, panicked p) ≡ (c, panicked p)
  closing-panicked [] c p = refl
  closing-panicked ((before, after) ∷ layers) c p = ap (finish after) (closing-panicked layers c p)

  -- The guards that let a request pass, and the state that they leave.
  abbrev pub Pass : List (Guard S) → S → S → Type ℓ
  Pass [] c d = c ≡ d
  Pass (g ∷ guards) c d = (b : S) × (g c ≡ (b, verdict true)) × Pass guards b d

  pub gated_handler-Pass :
      (guards : List (Guard S)) (handler : Handler S) (c d : S)
      → Pass guards c d
      → gated_handler guards handler c ≡ handler d
  unfolding gated_handler
  gated_handler-Pass [] handler c d e = ap handler e
  gated_handler-Pass (g ∷ guards) handler c d (b, e, rest) =
      rw e (gated_handler-Pass guards handler b d rest)

  gated_handler-refused :
      (passed : List (Guard S)) (g : Guard S) (others : List (Guard S)) (handler : Handler S)
      (c d e : S)
      → Pass passed c d
      → g d ≡ (e, verdict false)
      → gated_handler (passed ++ g ∷ others) handler c ≡ (e, panicked refusal)
  unfolding gated_handler
  gated_handler-refused [] g others handler c d e same h = rw (same, h) refl
  gated_handler-refused (f ∷ passed) g others handler c d e (b, first, rest) h =
      rw first (gated_handler-refused passed g others handler b d e rest h)

  -- With middleware and interceptors that act before and after the rest of the chain, a request whose
  -- guards pass goes through global middleware, controller middleware, guards and interceptors, each
  -- in the order of registration, to the handler, and back through the later parts of interceptors
  -- and middleware in the reverse order; when the handler panics, none of the later parts runs.
  pub compose_handler-order :
      (outer inner interceptors : List (Layer S)) (guards : List (Guard S)) (handler : Handler S)
      (c d : S)
      → Pass guards (opening (outer ++ inner) c) d
      → compose_handler
          (map around outer)
          (map around inner)
          (gated_handler guards (intercepted_handler (map around interceptors) handler))
          c
        ≡ closing (outer ++ inner) (closing interceptors (handler (opening interceptors d)))
  compose_handler-order outer inner interceptors guards handler c d pass =
      let gate = gated_handler guards (intercepted_handler (map around interceptors) handler) in
      rw
        (
          compose_handler-nest (map around outer) (map around inner) gate,
          ← map-append around outer inner,
          nest-around (outer ++ inner) gate c,
          gated_handler-Pass guards (intercepted_handler (map around interceptors) handler)
              (opening (outer ++ inner) c) d pass,
          intercepted_handler-nest (map around interceptors) handler,
          nest-around interceptors handler d,
        )
        refl

  -- With middleware that acts before and after the rest, the first guard that refuses stops a request
  -- with a ForbiddenException: later guards, interceptors and the handler do not run, whatever they
  -- are, and what the middleware would do afterwards is skipped.
  pub compose_handler-refused :
      (outer inner : List (Layer S)) (passed : List (Guard S)) (g : Guard S)
      (others : List (Guard S)) (interceptors : List (Middleware S)) (handler : Handler S)
      (c d e : S)
      → Pass passed (opening (outer ++ inner) c) d
      → g d ≡ (e, verdict false)
      → compose_handler
          (map around outer)
          (map around inner)
          (gated_handler (passed ++ g ∷ others) (intercepted_handler interceptors handler))
          c
        ≡ (e, panicked refusal)
  compose_handler-refused outer inner passed g others interceptors handler c d e pass h =
      let gate = gated_handler (passed ++ g ∷ others) (intercepted_handler interceptors handler) in
      rw
        (
          compose_handler-nest (map around outer) (map around inner) gate,
          ← map-append around outer inner,
          nest-around (outer ++ inner) gate c,
          gated_handler-refused passed g others (intercepted_handler interceptors handler)
              (opening (outer ++ inner) c) d e pass h,
        )
        (closing-panicked (outer ++ inner) e refusal)

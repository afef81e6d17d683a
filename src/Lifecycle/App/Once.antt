-- ===== src/Lifecycle/App/Once.antt =====
-- Shutdown runs once.
use gonest.Prelude.{ℕ, suc, List, [], ◌∷◌, true, false, Option, ◌≡◌, refl}
use gonest.Prelude.Bytes.{Bytes}
use gonest.Lifecycle.App.{
  App, AppError, Signal, signal_name, shutdown, run_shutdown_sequence, close_, on_signal,
}

-- A call of `Close`, or a signal that arrives.
pub data Event : Type 0 where
  closed : Event
  signalled : Signal → Event

module _ {ℓ} {W : Type ℓ} (adapter_shutdown : W → W × Option ℕ) where
  abbrev pub signal_of : Event → Bytes
  signal_of closed = []
  signal_of (signalled sig) = signal_name sig

  abbrev pub handle : App W → Event → W → App W × W × Option AppError
  handle a closed w = close_ adapter_shutdown a w
  handle a (signalled sig) w = on_signal adapter_shutdown a sig w

  -- Events in the order in which they reach `shutdownOnce`, with what each call returned.
  abbrev pub handle_all : App W → List Event → W → App W × W × List (Option AppError)
  handle_all a [] w = (a, w, [])
  handle_all a (event ∷ events) w =
      let (b, v, e) = handle a event w in
      let (c, u, errors) = handle_all b events v in (c, u, e ∷ errors)

  abbrev pub repeat : Option AppError → List Event → List (Option AppError)
  repeat e [] = []
  repeat e (event ∷ events) = e ∷ repeat e events

  handle-shutdown :
      (a : App W) (event : Event) (w : W)
      → handle a event w ≡ shutdown adapter_shutdown a (signal_of event) w
  unfolding close_ on_signal
  handle-shutdown a closed w = refl
  handle-shutdown a (signalled sig) w = refl

  handle-done :
      (a : App W) (event : Event) (w : W)
      → a.shutdown_once ≡ true
      → handle a event w ≡ (a, w, a.shutdown_err)
  handle-done a event w h = rw (handle-shutdown a event w) (unfold shutdown in rw h refl)

  handle_all-done :
      (a : App W) (events : List Event) (w : W)
      → a.shutdown_once ≡ true
      → handle_all a events w ≡ (a, w, repeat a.shutdown_err events)
  handle_all-done a [] w h = refl
  handle_all-done a (event ∷ events) w h =
      rw (handle-done a event w h, handle_all-done a events w h) refl

  -- Whatever calls of Close and signals come behind the first one, the teardown runs once, with the
  -- first one's signal, the channel is closed once more, and every call returns the same error.
  pub handle_all-once :
      (a : App W) (event : Event) (events : List Event) (w : W)
      → a.shutdown_once ≡ false
      → handle_all a (event ∷ events) w ≡ (
        record a {
          shutdown_once = true;
          closings = suc a.closings;
          shutdown_err = (run_shutdown_sequence adapter_shutdown a (signal_of event) w).1;
        },
        (run_shutdown_sequence adapter_shutdown a (signal_of event) w).0,
        repeat (run_shutdown_sequence adapter_shutdown a (signal_of event) w).1 (event ∷ events),
      )
  unfolding run_shutdown_sequence
  handle_all-once a event events w h = rw (handle-shutdown a event w) (
      unfold shutdown in
      rw h (
        rw
          (handle_all-done
            (record a {
              shutdown_once = true;
              closings = suc a.closings;
              shutdown_err = (run_shutdown_sequence adapter_shutdown a (signal_of event) w).1;
            })
            events (run_shutdown_sequence adapter_shutdown a (signal_of event) w).0 refl)
          refl))

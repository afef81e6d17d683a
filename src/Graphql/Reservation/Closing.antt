-- ===== src/Graphql/Reservation/Closing.antt =====
-- No channel is closed twice.
use gonest.Prelude.{
  ℕ, ◌+◌, ◌≤◌, [], none, some, ◌≡◌, arith, Option-cases, Bool-cases, inl, inr, ◌==◌, ==_iff, subst,
}
use gonest.Graphql.Reservation.{
  Reservation, Registry, new_registry, lookup, insert, delete, to_close, reserve, attach,
  start_operation, stop_operation, release, stop_channel,
}
use gonest.Graphql.Reservation.Maps.{
  one, count, total, count-append, channels-insert, channels-delete, total-insert, total-insert_le,
  total-delete,
}

-- A call of a method that changes the registry.
pub data Event : Type 0 where
  reserved : ℕ → Event
  attached : ℕ → ℕ → Event
  started : ℕ → ℕ → ℕ → Event
  stopped : ℕ → ℕ → Event
  released : ℕ → Event

abbrev pub step : Event → Registry → Registry
step (reserved token) r = reserve token r
step (attached token write) r = (attach token write r).0
step (started token operation done) r = (start_operation token operation done r).0
step (stopped token operation) r = (stop_operation token operation r).0
step (released token) r = release token r

-- How often a channel is open in the registry or was closed by it.
abbrev pub known : ℕ → Registry → ℕ
known c r = total r.by_tok c + count r.closed c

-- How often an event brings in a channel.
abbrev pub brought : Event → ℕ → ℕ
brought (started token operation done) c = one done c
brought event c = 0

attach-known :
    (token write : ℕ) (r : Registry) (c : ℕ) → known c (attach token write r).0 ≤ known c r
unfolding attach
attach-known token write r c = elim (Option-cases (lookup r.by_tok token)) [
  | inl missing ↦ rw missing (omega arith)
  | inr (res, found) ↦
      let new : Reservation = record res { write = some write } in
      rw found (omega (arith, total-insert r.by_tok token res new c found))
]

start-known :
    (token operation done : ℕ) (r : Registry) (c : ℕ)
    → known c (start_operation token operation done r).0 ≤ known c r + one done c
unfolding start_operation
start-known token operation done r c = elim (Option-cases (lookup r.by_tok token)) [
  | inl missing ↦ rw missing (omega arith)
  | inr (res, found) ↦
      let new : Reservation = record res { ops = insert res.ops operation done } in
      rw found (
        omega (
          arith,
          total-insert r.by_tok token res new c found,
          channels-insert res.ops operation done c,
        ))
]

stop_found-known :
    (token operation : ℕ) (r : Registry) (res : Reservation) (c : ℕ)
    → lookup r.by_tok token ≡ some res
    → known c (stop_channel token operation r res (lookup res.ops operation)).0 ≤ known c r
stop_found-known token operation r res c found = elim (Option-cases (lookup res.ops operation)) [
  | inl nothing ↦ rw nothing (omega arith)
  | inr (done, active) ↦
      let new : Reservation = record res { ops = delete res.ops operation } in
      rw active (
        omega (
          arith,
          total-insert r.by_tok token res new c found,
          channels-delete res.ops operation done c active,
        ))
]

stop-known :
    (token operation : ℕ) (r : Registry) (c : ℕ)
    → known c (stop_operation token operation r).0 ≤ known c r
unfolding stop_operation
stop-known token operation r c = elim (Option-cases (lookup r.by_tok token)) [
  | inl missing ↦ rw missing (omega arith)
  | inr (res, found) ↦ rw found (stop_found-known token operation r res c found)
]

release-known : (token : ℕ) (r : Registry) (c : ℕ) → known c (release token r) ≤ known c r
unfolding release
release-known token r c = omega (
  arith,
  count-append (to_close (lookup r.by_tok token)) r.closed c,
  total-delete r.by_tok token c,
)

reserve-known : (token : ℕ) (r : Registry) (c : ℕ) → known c (reserve token r) ≤ known c r
unfolding reserve
reserve-known token r c =
    omega (arith, total-insert_le r.by_tok token (record { write = none; ops = [] }) c)

pub step-known :
    (event : Event) (r : Registry) (c : ℕ) → known c (step event r) ≤ known c r + brought event c
step-known (reserved token) r c = omega (arith, reserve-known token r c)
step-known (attached token write) r c = omega (arith, attach-known token write r c)
step-known (started token operation done) r c = start-known token operation done r c
step-known (stopped token operation) r c = omega (arith, stop-known token operation r c)
step-known (released token) r c = omega (arith, release-known token r c)

-- A channel that is started is a new one, as `make` gives it.
abbrev pub IsNew : Event → Registry → Type 0
IsNew (started token operation done) r = known done r ≡ 0
IsNew event r = Unit

-- The registries that calls lead to.
pub data Reachable : Registry → Type 0 where
  initial : Reachable new_registry
  called : {r : Registry} → Reachable r → (event : Event) → IsNew event r → Reachable (step event r)

zero_known : (r : Registry) (d c : ℕ) → d ≡ c → known d r ≡ 0 → known c r ≡ 0
zero_known r d c e h = subst (λ x. known x r ≡ 0) e h

step-bound :
    (event : Event) (r : Registry) (c : ℕ)
    → IsNew event r
    → known c r ≤ 1
    → known c r + brought event c ≤ 1
step-bound (reserved token) r c n h = omega arith
step-bound (attached token write) r c n h = omega arith
step-bound (stopped token operation) r c n h = omega arith
step-bound (released token) r c n h = omega arith
step-bound (started token operation done) r c n h = elim (Bool-cases (done == c)) [
  | inr other ↦ rw other (omega arith)
  | inl same ↦ let e = ==_iff done c in rw same (omega (arith, zero_known r done c (e.0 same) n))
]

-- In every registry that calls lead to, each channel is open for at most one operation or was closed
-- once, and not both: no channel is closed twice, which would panic.
pub known-Reachable : {r : Registry} → Reachable r → (c : ℕ) → known c r ≤ 1
known-Reachable initial c = omega arith
known-Reachable (called {r} reachable event new) c =
    omega (arith, step-known event r c, step-bound event r c new (known-Reachable reachable c))

-- ===== src/Graphql/Reservation/Stopping.antt =====
-- What stopping, releasing and restarting do to a single operation.
use gonest.Prelude.{
  ℕ, ◌+◌, ◌≤◌, List, [], ◌∷◌, true, false, none, some, ◌≡◌, ◌≢◌, refl, arith, Bool-cases, inl, inr,
  ◌==◌, some-injective,
}
use gonest.Graphql.Reservation.{
  Reservation, Registry, lookup, insert, delete, channels, start_operation, stop_operation, release,
  route,
}
use gonest.Graphql.Reservation.Maps.{
  one, count, count-append, total-insert, lookup-insert, lookup-delete,
}
use gonest.Graphql.Reservation.Closing.{
  Event, started, step, known, brought, step-known, Reachable, known-Reachable,
}

-- An operation that was started can be stopped, which closes its channel, and only once: a second call
-- finds nothing and changes nothing.
pub stop_operation-once :
    (token operation done : ℕ) (r : Registry) (res : Reservation)
    → lookup r.by_tok token ≡ some res
    → let r₁ = (start_operation token operation done r).0 in
      let r₂ = (stop_operation token operation r₁).0 in
      ((stop_operation token operation r₁).1 ≡ true)
      × (r₂.closed ≡ done ∷ r.closed)
      × (stop_operation token operation r₂ ≡ (r₂, false))
unfolding start_operation stop_operation
stop_operation-once token operation done r res found =
    let new : Reservation = record res { ops = insert res.ops operation done } in
    let old : Reservation = record new { ops = delete new.ops operation } in
    (
      rw (found, lookup-insert r.by_tok token new, lookup-insert res.ops operation done) refl,
      rw (found, lookup-insert r.by_tok token new, lookup-insert res.ops operation done) refl,
      rw
          (
            found,
            lookup-insert r.by_tok token new,
            lookup-insert res.ops operation done,
            lookup-insert (insert r.by_tok token new) token old,
            lookup-delete (insert res.ops operation done) operation,
          )
          refl,
    )

lookup-count :
    (ops : List (ℕ × ℕ)) (operation done : ℕ)
    → lookup ops operation ≡ some done
    → 1 ≤ count (channels ops) done
lookup-count [] operation done h = cc
lookup-count ((j, e) ∷ ops) operation done h = elim (Bool-cases (j == operation)) [
  | inl same ↦ let e_eq = some-injective (rw same at h) in rw e_eq (ground arith)
  | inr other ↦ omega (arith, lookup-count ops operation done (rw other at h))
]

-- When a connection is released, the channel of every operation that is registered for its token is
-- closed, no message is routed to it any more, and no operation of it can be stopped.
pub release-closes :
    (token operation done other : ℕ) (r : Registry) (res : Reservation)
    → lookup r.by_tok token ≡ some res
    → lookup res.ops operation ≡ some done
    → (1 ≤ count (release token r).closed done)
      × (route token (release token r) ≡ none)
      × (stop_operation token other (release token r) ≡ (release token r, false))
unfolding release route stop_operation
release-closes token operation done other r res found active = (
  rw found (
      omega (
        arith,
        count-append (channels res.ops) r.closed done,
        lookup-count res.ops operation done active,
      )),
  rw (lookup-delete r.by_tok token) refl,
  rw (lookup-delete r.by_tok token) refl,
)

channels-replace :
    (ops : List (ℕ × ℕ)) (k d old c : ℕ)
    → lookup ops k ≡ some old
    → count (channels (insert ops k d)) c + one old c ≡ count (channels ops) c + one d c
channels-replace [] k d old c h = cc
channels-replace ((j, e) ∷ ops) k d old c h = elim (Bool-cases (j == k)) [
  | inl same ↦ let e_eq = some-injective (rw same at h) in rw (same, e_eq) (omega arith)
  | inr other ↦ rw other (omega (arith, channels-replace ops k d old c (rw other at h)))
]

one_self : (c : ℕ) → one c c ≡ 1
one_self c = ground arith

one-ne : (d c : ℕ) → d ≢ c → one d c ≡ 0
one-ne d c h = ground arith

start-forgets :
    (token operation done old : ℕ) (r : Registry) (res : Reservation)
    → known old r ≤ 1
    → lookup r.by_tok token ≡ some res
    → lookup res.ops operation ≡ some old
    → done ≢ old
    → known old (start_operation token operation done r).0 ≡ 0
unfolding start_operation
start-forgets token operation done old r res once found active different =
    let new : Reservation = record res { ops = insert res.ops operation done } in
    rw found (
      omega (
        arith,
        total-insert r.by_tok token res new old found,
        channels-replace res.ops operation done old old active,
        one_self old,
        one-ne done old different,
      ))

abbrev pub run : List Event → Registry → Registry
run [] r = r
run (event ∷ events) r = run events (step event r)

-- No event of a list starts an operation with the channel.
abbrev pub NeverBrought : List Event → ℕ → Type 0
NeverBrought [] c = Unit
NeverBrought (event ∷ events) c = (brought event c ≡ 0) × NeverBrought events c

run-forgotten :
    (events : List Event) (r : Registry) (c : ℕ)
    → known c r ≡ 0
    → NeverBrought events c
    → known c (run events r) ≡ 0
run-forgotten [] r c h never = h
run-forgotten (event ∷ events) r c h never =
    run-forgotten events (step event r) c (omega (arith, step-known event r c, never.0)) never.1

-- When a second operation is started under the id of one that still runs, the channel of the first is
-- forgotten: whatever is called afterwards, a stop or a release included, it is never closed.
pub start_operation-forgets :
    (token operation done old : ℕ) {r : Registry} (res : Reservation) (events : List Event)
    → Reachable r
    → lookup r.by_tok token ≡ some res
    → lookup res.ops operation ≡ some old
    → done ≢ old
    → NeverBrought events old
    → count (run events (step (started token operation done) r)).closed old ≡ 0
start_operation-forgets token operation done old {r} res events reachable found active different
      never =
    omega (
      arith,
      run-forgotten events (step (started token operation done) r) old
          (start-forgets token operation done old r res (known-Reachable reachable old) found active
            different)
          never,
    )

-- ===== src/Graphql/Socket/Closing.antt =====
-- Every subscription's channel is closed exactly once.
use gonest.Prelude.{
  ℕ, ◌+◌, ◌≤◌, List, [], ◌∷◌, Bool, true, false, Option, none, some, ◌≡◌, refl, sym, ap, ◌∙◌, arith,
  Bool-cases, Option-cases, inl, inr, ◌==◌, ==_iff, if◌then◌else◌, some-injective, subst,
}
use gonest.Graphql.Reservation.{lookup, channels}
use gonest.Graphql.Reservation.Maps.{count}
use gonest.Graphql.Socket.{
  Conn, opened, Reply, Sent, unmarshalled, delivered, refused, after_write, Frame, undecodable,
  connection_init, ping, subscribe, complete, other_type, register_op, stop_op, stop_found,
  stop_all_ops, write_json, and_complete, dispatch, handle_subscribe, handle_message, go_on, Event,
  received, dropped, timed_out, emitted, finished, after_emit, step, next, connection_ack, pong,
  error_reply, completed, close_with,
}
use gonest.Graphql.Socket.Operations.{known, made, step-known}

-- A connection that is over has no active subscription.
abbrev pub Quiet : Conn → Type 0
Quiet s = s.over ≡ true → s.active ≡ []

stop_op-over : (id : ℕ) (s : Conn) → (stop_op id s).over ≡ s.over
unfolding stop_op
stop_op-over id s = elim (Option-cases (lookup s.active id)) [
  | inl nothing ↦ rw nothing refl
  | inr (done, found) ↦ rw found refl
]

stop_found-empty :
    (id : ℕ) (s : Conn) (found : Option ℕ)
    → lookup s.active id ≡ found
    → s.active ≡ []
    → (stop_found id s found).active ≡ []
stop_found-empty id s none e h = h
stop_found-empty id s (some done) e h = let k = (rw h at e) in cc

stop_op-Quiet : (id : ℕ) (s : Conn) → Quiet s → Quiet (stop_op id s)
unfolding stop_op
stop_op-Quiet id s q over =
    stop_found-empty id s (lookup s.active id) refl (q (sym (stop_op-over id s) ∙ over))

unless-Quiet :
    (b : Bool) (x y : Conn) → Quiet x → (b ≡ false → Quiet y) → Quiet (if b then x else y)
unless-Quiet true x y h k = h
unless-Quiet false x y h k = k refl

if_conn-Quiet : (b : Bool) (x y : Conn) → Quiet x → Quiet y → Quiet (if b then x else y)
if_conn-Quiet true x y h k = h
if_conn-Quiet false x y h k = k

if-over :
    (b o : Bool) (x y : Conn × Bool) → x.0.over ≡ o → y.0.over ≡ o → (if b then x else y).0.over ≡ o
if-over true o x y h k = h
if-over false o x y h k = k

stop_all_ops-Quiet : (s : Conn) → Quiet (stop_all_ops s)
unfolding stop_all_ops
stop_all_ops-Quiet s over = refl

go_on-Quiet : (r : Conn × Bool) → r.0.over ≡ false → Quiet (go_on r)
go_on-Quiet (s, true) going = λ over. let e = sym going ∙ over in cc
go_on-Quiet (s, false) going = stop_all_ops-Quiet s

after_emit-Quiet : (id : ℕ) (r : Conn × Bool) → Quiet r.0 → Quiet (after_emit id r)
after_emit-Quiet id (s, true) q = q
after_emit-Quiet id (s, false) q = stop_op-Quiet id s q

after_write-over :
    (reply : Reply) (s : Conn) (sent : Sent) → (after_write reply s sent).0.over ≡ s.over
after_write-over reply s unmarshalled = refl
after_write-over reply s delivered = refl
after_write-over reply s refused = refl

after_write-Quiet :
    (reply : Reply) (s : Conn) → Quiet s → (sent : Sent) → Quiet (after_write reply s sent).0
after_write-Quiet reply s q unmarshalled = q
after_write-Quiet reply s q delivered = q
after_write-Quiet reply s q refused = q

module _ (write_ok : List Reply → Reply → Sent) (root_field : ℕ → Option ℕ)
    (is_subscription : ℕ → Bool) where
  write_json-over :
      (reply : Reply) (s : Conn)
      → (write_json write_ok root_field is_subscription reply s).0.over ≡ s.over
  unfolding write_json
  write_json-over reply s = after_write-over reply s (write_ok s.sent reply)

  write_json-Quiet :
      (reply : Reply) (s : Conn)
      → Quiet s
      → Quiet (write_json write_ok root_field is_subscription reply s).0
  unfolding write_json
  write_json-Quiet reply s q = after_write-Quiet reply s q (write_ok s.sent reply)

  and_complete-over :
      (id : ℕ) (r : Conn × Bool)
      → (and_complete write_ok root_field is_subscription id r).0.over ≡ r.0.over
  and_complete-over id (s, true) = write_json-over (completed id) s
  and_complete-over id (s, false) = refl

  dispatch-over :
      (id done : ℕ) (s : Conn) (field : Option ℕ)
      → (dispatch write_ok root_field is_subscription id done s field).0.over ≡ s.over
  unfolding register_op
  dispatch-over id done s none = write_json-over (error_reply id) s
  dispatch-over id done s (some field) =
      let r = write_json write_ok root_field is_subscription (next id) s in
      if-over (is_subscription field) s.over (register_op id done s, true)
        (and_complete write_ok root_field is_subscription id r) refl
        (and_complete-over id r ∙ write_json-over (next id) s)

  handle_subscribe-over :
      (id payload done : ℕ) (s : Conn)
      → (handle_subscribe write_ok root_field is_subscription id payload done s).0.over ≡ s.over
  unfolding handle_subscribe
  handle_subscribe-over id payload done s = elim (Option-cases (lookup s.active id)) [
    | inr (other, used) ↦ rw used refl
    | inl free ↦ rw free (dispatch-over id done s (root_field payload))
  ]

  handle_message-over :
      (frame : Frame) (done : ℕ) (s : Conn)
      → (handle_message write_ok root_field is_subscription frame done s).0.over ≡ s.over
  unfolding handle_message
  handle_message-over undecodable done s = refl
  handle_message-over other_type done s = refl
  handle_message-over ping done s = write_json-over pong s
  handle_message-over (complete id) done s = stop_op-over id s
  handle_message-over connection_init done s =
      let first : Conn = record s { acked = true } in
      if-over s.acked s.over (close_with 4429 s)
        (write_json write_ok root_field is_subscription connection_ack first) refl
        (write_json-over connection_ack first)
  handle_message-over (subscribe id payload) done s =
      if-over s.acked s.over
        (handle_subscribe write_ok root_field is_subscription id payload done s) (close_with 4401 s)
        (handle_subscribe-over id payload done s) refl

  step-Quiet :
      (event : Event) (s : Conn)
      → Quiet s
      → Quiet (step write_ok root_field is_subscription event s)
  unfolding step
  step-Quiet (received frame done) s q =
      let t : Conn = record s { waiting = false } in
      let r = handle_message write_ok root_field is_subscription frame done t in
      unless-Quiet s.over s (go_on r) q
        (λ going. go_on-Quiet r (handle_message-over frame done t ∙ going))
  step-Quiet dropped s q = if_conn-Quiet s.over s (stop_all_ops s) q (stop_all_ops-Quiet s)
  step-Quiet timed_out s q =
      let closing = go_on (close_with 4408 s) in
      if_conn-Quiet s.over s (if s.waiting then closing else s) q
        (if_conn-Quiet s.waiting closing s (stop_all_ops-Quiet (close_with 4408 s).0) q)
  step-Quiet (emitted id) s q =
      after_emit-Quiet id (write_json write_ok root_field is_subscription (next id) s)
        (write_json-Quiet (next id) s q)
  step-Quiet (finished id) s q = stop_op-Quiet id s q

  -- A channel that is made is a new one.
  abbrev pub IsNew : Event → Conn → Type 0
  IsNew (received frame done) s = known done s ≡ 0
  IsNew event s = Unit

  -- What the events of a connection lead to.
  pub data Runs (s : Conn) : Conn → Type 0 where
    stay : Runs s s
    then_ :
        {t : Conn}
        → Runs s t
        → (event : Event) → IsNew event t
        → Runs s (step write_ok root_field is_subscription event t)

  Runs-Quiet : {s t : Conn} → Quiet s → Runs s t → Quiet t
  Runs-Quiet q stay = q
  Runs-Quiet q (then_ {t} runs event new) = step-Quiet event t (Runs-Quiet q runs)

  Runs-known : {s t : Conn} (c : ℕ) → Runs s t → known c s ≤ known c t
  Runs-known c stay = omega arith
  Runs-known c (then_ {t} runs event new) =
      omega (arith, Runs-known c runs, (step-known write_ok root_field is_subscription event t c).0)

  Runs-append : {r s t : Conn} → Runs r s → Runs s t → Runs r t
  Runs-append first stay = first
  Runs-append first (then_ runs event new) = then_ (Runs-append first runs) event new

  zero_known : (s : Conn) (d c : ℕ) → d ≡ c → known d s ≡ 0 → known c s ≡ 0
  zero_known s d c e h = subst (λ x. known x s ≡ 0) e h

  made-bound :
      (event : Event) (s : Conn) (c : ℕ)
      → IsNew event s
      → known c s ≤ 1
      → known c s + made event c ≤ 1
  made-bound dropped s c n h = omega arith
  made-bound timed_out s c n h = omega arith
  made-bound (emitted id) s c n h = omega arith
  made-bound (finished id) s c n h = omega arith
  made-bound (received frame done) s c n h = elim (Bool-cases (done == c)) [
    | inr other ↦ rw other (omega arith)
    | inl same ↦ let e = ==_iff done c in rw same (omega (arith, zero_known s done c (e.0 same) n))
  ]

  Runs-once : {t : Conn} (c : ℕ) → Runs opened t → known c t ≤ 1
  Runs-once c stay = omega arith
  Runs-once c (then_ {t} runs event new) = omega (
    arith,
    (step-known write_ok root_field is_subscription event t c).1,
    made-bound event t c new (Runs-once c runs),
  )

  lookup-known :
      (ops : List (ℕ × ℕ)) (id c : ℕ) → lookup ops id ≡ some c → 1 ≤ count (channels ops) c
  lookup-known [] id c h = cc
  lookup-known ((k, d) ∷ ops) id c h = elim (Bool-cases (k == id)) [
    | inl same ↦ let e = some-injective (rw same at h) in rw e (ground arith)
    | inr other ↦ omega (arith, lookup-known ops id c (rw other at h))
  ]

  -- When a connection is over, however it ended and whatever happened before, the channel of every
  -- subscription that was once active has been closed exactly once.
  pub Runs-closed :
      {s t : Conn} (id c : ℕ)
      → Runs opened s
      → lookup s.active id ≡ some c
      → Runs s t
      → t.over ≡ true
      → count t.closed c ≡ 1
  Runs-closed {s} {t} id c before active after over =
      let empty = Runs-Quiet (λ no. refl) (Runs-append before after) over in
      omega (
        arith,
        lookup-known s.active id c active,
        Runs-known c after,
        Runs-once c (Runs-append before after),
        ap (λ ops. count (channels ops) c) empty,
      )

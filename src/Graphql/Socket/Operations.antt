-- ===== src/Graphql/Socket/Operations.antt =====
-- What an event does to the channels of a connection.
use gonest.Prelude.{
  ℕ, ◌+◌, ◌≤◌, List, [], ◌∷◌, Bool, true, false, Option, none, some, ◌≡◌, refl, arith, Bool-cases,
  Option-cases, inl, inr, ◌==◌, if◌then◌else◌, some-injective,
}
use gonest.Graphql.Reservation.{lookup, insert, channels}
use gonest.Graphql.Reservation.Maps.{one, count, count-append}
use gonest.Graphql.Socket.{
  Conn, Reply, Sent, unmarshalled, delivered, refused, after_write, Frame, undecodable,
  connection_init, ping, subscribe, complete, other_type, remove, register_op, stop_op,
  stop_all_ops, write_json, and_complete, dispatch, handle_subscribe, handle_message, go_on, Event,
  received, dropped, timed_out, emitted, finished, after_emit, step, next, connection_ack, pong,
  error_reply, completed, close_with,
}

-- How often a channel is active or was closed.
abbrev pub known : ℕ → Conn → ℕ
known c s = count (channels s.active) c + count s.closed c

channels-remove :
    (ops : List (ℕ × ℕ)) (id d c : ℕ)
    → lookup ops id ≡ some d
    → count (channels (remove ops id)) c + one d c ≡ count (channels ops) c
channels-remove [] id d c h = cc
channels-remove ((k, e) ∷ ops) id d c h = elim (Bool-cases (k == id)) [
  | inl same ↦ let e_eq = some-injective (rw same at h) in rw (same, e_eq) (omega arith)
  | inr other ↦ rw other (omega (arith, channels-remove ops id d c (rw other at h)))
]

channels-insert_new :
    (ops : List (ℕ × ℕ)) (id d c : ℕ)
    → lookup ops id ≡ none
    → count (channels (insert ops id d)) c ≡ count (channels ops) c + one d c
channels-insert_new [] id d c h = omega arith
channels-insert_new ((k, e) ∷ ops) id d c h = elim (Bool-cases (k == id)) [
  | inl same ↦ let x = (rw same at h) in cc
  | inr other ↦ rw other (omega (arith, channels-insert_new ops id d c (rw other at h)))
]

stop_op-known : (id : ℕ) (s : Conn) (c : ℕ) → known c (stop_op id s) ≡ known c s
unfolding stop_op
stop_op-known id s c = elim (Option-cases (lookup s.active id)) [
  | inl nothing ↦ rw nothing refl
  | inr (done, found) ↦ rw found (omega (arith, channels-remove s.active id done c found))
]

stop_all_ops-known : (s : Conn) (c : ℕ) → known c (stop_all_ops s) ≡ known c s
unfolding stop_all_ops
stop_all_ops-known s c = omega (arith, count-append (channels s.active) s.closed c)

-- No channel is lost, and at most the one that was made is new.
abbrev pub Keeps : ℕ → ℕ → Conn → Conn → Type 0
Keeps done c s t = (known c s ≤ known c t) × (known c t ≤ known c s + one done c)

if-Keeps :
    (b : Bool) (done c : ℕ) (s : Conn) (x y : Conn × Bool)
    → Keeps done c s x.0
    → Keeps done c s y.0
    → Keeps done c s (if b then x else y).0
if-Keeps true done c s x y h k = h
if-Keeps false done c s x y h k = k

same-Keeps : (done c : ℕ) (s t : Conn) → known c t ≡ known c s → Keeps done c s t
same-Keeps done c s t e = (omega arith, omega arith)

if_conn-Keeps :
    (b : Bool) (done c : ℕ) (s x y : Conn)
    → Keeps done c s x
    → Keeps done c s y
    → Keeps done c s (if b then x else y)
if_conn-Keeps true done c s x y h k = h
if_conn-Keeps false done c s x y h k = k

if_conn-known :
    (b : Bool) (c n : ℕ) (x y : Conn)
    → known c x ≡ n
    → known c y ≡ n
    → known c (if b then x else y) ≡ n
if_conn-known true c n x y h k = h
if_conn-known false c n x y h k = k

-- The channel that an event makes.
abbrev pub made : Event → ℕ → ℕ
made (received frame done) c = one done c
made event c = 0

pub go_on-known : (r : Conn × Bool) (c : ℕ) → known c (go_on r) ≡ known c r.0
go_on-known (s, true) c = refl
go_on-known (s, false) c = stop_all_ops-known s c

after_emit-known : (id : ℕ) (r : Conn × Bool) (c : ℕ) → known c (after_emit id r) ≡ known c r.0
after_emit-known id (s, true) c = refl
after_emit-known id (s, false) c = stop_op-known id s c

after_write-known :
    (reply : Reply) (s : Conn) (c : ℕ) (sent : Sent)
    → known c (after_write reply s sent).0 ≡ known c s
after_write-known reply s c unmarshalled = refl
after_write-known reply s c delivered = refl
after_write-known reply s c refused = refl

module _ (write_ok : List Reply → Reply → Sent) (root_field : ℕ → Option ℕ)
    (is_subscription : ℕ → Bool) where
  write_json-known :
      (reply : Reply) (s : Conn) (c : ℕ)
      → known c (write_json write_ok root_field is_subscription reply s).0 ≡ known c s
  unfolding write_json
  write_json-known reply s c = after_write-known reply s c (write_ok s.sent reply)

  and_complete-known :
      (id : ℕ) (r : Conn × Bool) (c : ℕ)
      → known c (and_complete write_ok root_field is_subscription id r).0 ≡ known c r.0
  and_complete-known id (s, true) c = write_json-known (completed id) s c
  and_complete-known id (s, false) c = refl

  dispatch-Keeps :
      (id done : ℕ) (s : Conn) (field : Option ℕ) (c : ℕ)
      → lookup s.active id ≡ none
      → Keeps done c s (dispatch write_ok root_field is_subscription id done s field).0
  unfolding register_op
  dispatch-Keeps id done s none c free =
      let e = write_json-known (error_reply id) s c in (omega (arith, e), omega (arith, e))
  dispatch-Keeps id done s (some field) c free = elim (Bool-cases (is_subscription field)) [
    | inl stream ↦
        let e = channels-insert_new s.active id done c free in
        (rw stream (omega (arith, e)), rw stream (omega (arith, e)))
    | inr single ↦
        let r = write_json write_ok root_field is_subscription (next id) s in
        let e = write_json-known (next id) s c in
        let k = and_complete-known id r c in
        (rw single (omega (arith, e, k)), rw single (omega (arith, e, k)))
  ]

  handle_subscribe-Keeps :
      (id payload done : ℕ) (s : Conn) (c : ℕ)
      → Keeps done c s (handle_subscribe write_ok root_field is_subscription id payload done s).0
  unfolding handle_subscribe
  handle_subscribe-Keeps id payload done s c = elim (Option-cases (lookup s.active id)) [
    | inr (other, used) ↦ (rw used (omega arith), rw used (omega arith))
    | inl free ↦
        let k = dispatch-Keeps id done s (root_field payload) c free in (rw free k.0, rw free k.1)
  ]

  handle_message-Keeps :
      (frame : Frame) (done : ℕ) (s : Conn) (c : ℕ)
      → Keeps done c s (handle_message write_ok root_field is_subscription frame done s).0
  unfolding handle_message
  handle_message-Keeps undecodable done s c = same-Keeps done c s (close_with 4400 s).0 refl
  handle_message-Keeps other_type done s c = same-Keeps done c s (close_with 4400 s).0 refl
  handle_message-Keeps ping done s c =
      same-Keeps done c s (write_json write_ok root_field is_subscription pong s).0
        (write_json-known pong s c)
  handle_message-Keeps (complete id) done s c =
      same-Keeps done c s (stop_op id s) (stop_op-known id s c)
  handle_message-Keeps connection_init done s c =
      let first : Conn = record s { acked = true } in
      let reply = write_json write_ok root_field is_subscription connection_ack first in
      if-Keeps s.acked done c s (close_with 4429 s) reply
        (same-Keeps done c s (close_with 4429 s).0 refl)
        (same-Keeps done c s reply.0 (write_json-known connection_ack first c))
  handle_message-Keeps (subscribe id payload) done s c =
      if-Keeps s.acked done c s
        (handle_subscribe write_ok root_field is_subscription id payload done s) (close_with 4401 s)
        (handle_subscribe-Keeps id payload done s c)
        (same-Keeps done c s (close_with 4401 s).0 refl)

  pub step-known :
      (event : Event) (s : Conn) (c : ℕ)
      → (known c s ≤ known c (step write_ok root_field is_subscription event s))
        × (known c (step write_ok root_field is_subscription event s) ≤ known c s + made event c)
  unfolding step
  step-known (received frame done) s c =
      let t : Conn = record s { waiting = false } in
      let r = handle_message write_ok root_field is_subscription frame done t in
      let k = handle_message-Keeps frame done t c in
      let e = go_on-known r c in
      if_conn-Keeps s.over done c s s (go_on r) (same-Keeps done c s s refl)
        (omega (arith, k.0, e), omega (arith, k.1, e))
  step-known dropped s c =
      let e = if_conn-known s.over c (known c s) s (stop_all_ops s) refl (stop_all_ops-known s c) in
      (omega (arith, e), omega (arith, e))
  step-known timed_out s c =
      let closing = go_on (close_with 4408 s) in
      let e = if_conn-known s.over c (known c s) s (if s.waiting then closing else s) refl (
        if_conn-known s.waiting c (known c s) closing s (go_on-known (close_with 4408 s) c) refl) in
      (omega (arith, e), omega (arith, e))
  step-known (emitted id) s c =
      let r = write_json write_ok root_field is_subscription (next id) s in
      let e = write_json-known (next id) s c in
      let k = after_emit-known id r c in (omega (arith, e, k), omega (arith, e, k))
  step-known (finished id) s c =
      let e = stop_op-known id s c in (omega (arith, e), omega (arith, e))

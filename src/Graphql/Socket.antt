-- ===== src/Graphql/Socket.antt =====
-- The graphql-transport-ws protocol (WSProtocolHandler and handleSubscribe of
-- internal/graphql/ws_protocol.go). Ids, payloads, root fields and channels are numbers.
pub mod Operations
pub mod Closing
use gonest.Prelude.{
  ℕ, List, [], ◌∷◌, ◌++◌, Bool, true, false, not, Option, none, some, ◌==◌, if◌then◌else◌,
}
use gonest.Graphql.Reservation.{lookup, insert, channels}

-- The frames that are written; an error reply, `next` and `complete` carry the operation's id.
pub data Reply : Type 0 where
  connection_ack : Reply
  pong : Reply
  next : ℕ → Reply
  error_reply : ℕ → Reply
  completed : ℕ → Reply

-- A frame that is read: one that is no JSON, or a message by its type. `other_type` stands for every
-- type that the switch does not name.
pub data Frame : Type 0 where
  undecodable : Frame
  connection_init : Frame
  ping : Frame
  subscribe : ℕ → ℕ → Frame
  complete : ℕ → Frame
  other_type : Frame

-- The variables of the handler: `active` is the map `activeOps`, `waiting` is before the first frame,
-- `over` after the handler has returned; with the channels that were closed, the latest first.
pub record Conn : Type 0 where
  pub acked : Bool
  pub active : List (ℕ × ℕ)
  pub closed : List ℕ
  pub sent : List Reply
  pub close_code : Option ℕ
  pub waiting : Bool
  pub over : Bool

abbrev pub opened : Conn
opened = record {
  acked = false;
  active = [];
  closed = [];
  sent = [];
  close_code = none;
  waiting = true;
  over = false;
}

-- `delete`, where the map has at most one entry for a key.
abbrev pub remove : List (ℕ × ℕ) → ℕ → List (ℕ × ℕ)
remove [] id = []
remove ((k, d) ∷ ops) id = let rest = remove ops id in if k == id then ops else (k, d) ∷ rest

abbrev pub close_with : ℕ → Conn → Conn × Bool
close_with code s = (record s { close_code = some code }, false)

unfoldable pub register_op : ℕ → ℕ → Conn → Conn
register_op id done s = record s { active = insert s.active id done }

abbrev pub stop_found : ℕ → Conn → Option ℕ → Conn
stop_found id s none = s
stop_found id s (some done) = record s { active = remove s.active id; closed = done ∷ s.closed }

unfoldable pub stop_op : ℕ → Conn → Conn
stop_op id s = stop_found id s (lookup s.active id)

-- `stopAllOps`, in the order of the entries, deferred to the return of the handler.
unfoldable pub stop_all_ops : Conn → Conn
stop_all_ops s = record s { active = []; closed = channels s.active ++ s.closed; over = true }

abbrev pub go_on : Conn × Bool → Conn
go_on (s, true) = s
go_on (s, false) = stop_all_ops s

-- What happens: a frame is read, with the channel that is made if it starts a subscription; the read
-- fails; the time for the first frame is up; a subscription emits a value, or its handler returns.
pub data Event : Type 0 where
  received : Frame → ℕ → Event
  dropped : Event
  timed_out : Event
  emitted : ℕ → Event
  finished : ℕ → Event

abbrev pub after_emit : ℕ → Conn × Bool → Conn
after_emit id (s, true) = s
after_emit id (s, false) = stop_op id s

-- What comes of a reply: json.Marshal fails, and nothing is written; WriteMessage succeeds; or it fails.
pub data Sent : Type 0 where
  unmarshalled delivered refused : Sent

abbrev pub after_write : Reply → Conn → Sent → Conn × Bool
after_write reply s unmarshalled = (s, true)
after_write reply s delivered = (record s { sent = s.sent ++ reply ∷ [] }, true)
after_write reply s refused = (s, false)

-- `write_ok` is what comes of a reply, after what was sent; `root_field` is the root field of a
-- payload, if it can be decoded and has one; `is_subscription` is the keys of `subs`.
module _ (write_ok : List Reply → Reply → Sent) (root_field : ℕ → Option ℕ)
    (is_subscription : ℕ → Bool) where
  -- `writeJSON`
  unfoldable pub write_json : Reply → Conn → Conn × Bool
  write_json reply s = after_write reply s (write_ok s.sent reply)

  abbrev pub and_complete : ℕ → Conn × Bool → Conn × Bool
  and_complete id (s, true) = write_json (completed id) s
  and_complete id (s, false) = (s, false)

  -- `done` is the channel that is made for a subscription.
  abbrev pub dispatch : ℕ → ℕ → Conn → Option ℕ → Conn × Bool
  dispatch id done s none = write_json (error_reply id) s
  dispatch id done s (some field) =
      if is_subscription field
      then (register_op id done s, true)
      else and_complete id (write_json (next id) s)

  abbrev pub subscribe_if_free : ℕ → ℕ → ℕ → Conn → Option ℕ → Conn × Bool
  subscribe_if_free id payload done s (some active_done) = close_with 4409 s
  subscribe_if_free id payload done s none = dispatch id done s (root_field payload)

  unfoldable pub handle_subscribe : ℕ → ℕ → ℕ → Conn → Conn × Bool
  handle_subscribe id payload done s = subscribe_if_free id payload done s (lookup s.active id)

  -- `handleMessage`; false ends the connection.
  unfoldable pub handle_message : Frame → ℕ → Conn → Conn × Bool
  handle_message undecodable done s = close_with 4400 s
  handle_message connection_init done s =
      if s.acked then close_with 4429 s else write_json connection_ack (record s { acked = true })
  handle_message ping done s = write_json pong s
  handle_message (subscribe id payload) done s =
      if s.acked then handle_subscribe id payload done s else close_with 4401 s
  handle_message (complete id) done s = (stop_op id s, true)
  handle_message other_type done s = close_with 4400 s

  -- The read loop has ended when `over` is set; then only subscriptions that still run act.
  unfoldable pub step : Event → Conn → Conn
  step (received frame done) s =
      if s.over then s else go_on (handle_message frame done (record s { waiting = false }))
  step dropped s = if s.over then s else stop_all_ops s
  step timed_out s = if s.over then s else if s.waiting then go_on (close_with 4408 s) else s
  step (emitted id) s = after_emit id (write_json (next id) s)
  step (finished id) s = stop_op id s

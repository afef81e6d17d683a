-- ===== src/Graphql/SocketTests.antt =====
-- A connection with one subscription.
use gonest.Prelude.{ℕ, List, [], ◌∷◌, Bool, true, Option, some, ◌≡◌, refl}
use gonest.Graphql.Reservation.{lookup}
use gonest.Graphql.Reservation.Maps.{count}
use gonest.Graphql.Socket.{
  Conn, opened, Reply, Sent, delivered, connection_init, subscribe, Event, received, emitted,
  finished, step, handle_message, handle_subscribe, write_json, stop_op, stop_all_ops, register_op,
}
use gonest.Graphql.Socket.Closing.{Runs, stay, then_, Runs-closed}

abbrev always : List Reply → Reply → Sent
always sent reply = delivered

abbrev field_of : ℕ → Option ℕ
field_of payload = some payload

abbrev streams : ℕ → Bool
streams field = true

abbrev after : Event → Conn → Conn
after event s = step always field_of streams event s

abbrev live : Conn
live = after (received (subscribe 1 5) 10) (after (received connection_init 9) opened)

abbrev ended : Conn
ended = after (finished 1) (after (received (subscribe 1 5) 11) (after (emitted 1) live))

-- Opens the definitions for the tests below.
run : Conn → Conn
unfolding step handle_message handle_subscribe write_json stop_op stop_all_ops register_op
run s = s

live-active : live.active ≡ (1, 10) ∷ []
unfolding run
live-active = refl

-- A second subscription with the id ends the connection.
ended-over : (ended.over ≡ true) × (ended.close_code ≡ some 4409) × (ended.closed ≡ 10 ∷ [])
unfolding run
ended-over = (refl, refl, refl)

live-Runs : Runs always field_of streams opened live
unfolding run
live-Runs = then_ (then_ stay (received connection_init 9) refl) (received (subscribe 1 5) 10) refl

ended-Runs : Runs always field_of streams live ended
unfolding run
ended-Runs =
    then_ (then_ (then_ stay (emitted 1) tt) (received (subscribe 1 5) 11) refl) (finished 1) tt

live-lookup : lookup live.active 1 ≡ some 10
unfolding run
live-lookup = refl

Runs-closed_example : count ended.closed 10 ≡ 1
Runs-closed_example =
    Runs-closed always field_of streams 1 10 live-Runs live-lookup ended-Runs ended-over.0

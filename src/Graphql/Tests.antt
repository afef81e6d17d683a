-- ===== src/Graphql/Tests.antt =====
-- A token with two operations.
use gonest.Prelude.{◌≤◌, [], ◌∷◌, some, refl}
use gonest.Graphql.Reservation.{Reservation, Registry, reserve, attach, start_operation}
use gonest.Graphql.Reservation.Closing.{
  reserved, attached, started, known, Reachable, initial, called, known-Reachable,
}

abbrev empty : Reservation
empty = record { write = some 5; ops = [] }

abbrev waiting : Registry
waiting = record { by_tok = (7, empty) ∷ []; closed = [] }

-- Operation 1 has channel 10.
abbrev running : Reservation
running = record { write = some 5; ops = (1, 10) ∷ [] }

abbrev streaming : Registry
streaming = record { by_tok = (7, running) ∷ []; closed = [] }

streaming-Reachable : Reachable streaming
unfolding reserve attach start_operation
streaming-Reachable =
    called (called (called initial (reserved 7) tt) (attached 7 5) tt) (started 7 1 10) refl

known-Reachable_example : known 10 streaming ≤ 1
known-Reachable_example = known-Reachable streaming-Reachable 10

-- ===== src/Graphql/Reservation.antt =====
-- The registry of reservations for server-sent events (internal/graphql/reservation.go). Tokens,
-- operation ids, channels and write functions are numbers; the mutex makes each method one step.
pub mod Maps
pub mod Closing
pub mod Stopping
use gonest.Prelude.{
  ℕ, List, [], ◌∷◌, ◌++◌, Bool, true, false, Option, none, some, ◌==◌, if◌then◌else◌,
}

-- A Go map with keys that are compared, as its entries.
abbrev pub lookup {ℓ} : {V : Type ℓ} → List (ℕ × V) → ℕ → Option V
lookup [] key = none
lookup ((k, v) ∷ m) key = if k == key then some v else lookup m key

abbrev pub insert {ℓ} : {V : Type ℓ} → List (ℕ × V) → ℕ → V → List (ℕ × V)
insert [] key value = (key, value) ∷ []
insert ((k, v) ∷ m) key value =
    let rest = insert m key value in if k == key then (key, value) ∷ m else (k, v) ∷ rest

abbrev pub delete {ℓ} : {V : Type ℓ} → List (ℕ × V) → ℕ → List (ℕ × V)
delete [] key = []
delete ((k, v) ∷ m) key = let rest = delete m key in if k == key then rest else (k, v) ∷ rest

-- A `reservation`; a nil map `ops` is an empty one, which the methods do not tell apart.
pub record Reservation : Type 0 where
  pub write : Option ℕ
  pub ops : List (ℕ × ℕ)

-- A `ReservationRegistry`, and the channels that its methods have closed, the latest first.
pub record Registry : Type 0 where
  pub by_tok : List (ℕ × Reservation)
  pub closed : List ℕ

abbrev pub new_registry : Registry
new_registry = record { by_tok = []; closed = [] }

-- `Reserve`, where `token` is what uuid.NewString has returned.
unfoldable pub reserve : ℕ → Registry → Registry
reserve token r = record r { by_tok = insert r.by_tok token (record { write = none; ops = [] }) }

abbrev pub attach_found : ℕ → ℕ → Registry → Option Reservation → Registry × Bool
attach_found token write r none = (r, false)
attach_found token write r (some res) =
    (record r { by_tok = insert r.by_tok token (record res { write = some write }) }, true)

unfoldable pub attach : ℕ → ℕ → Registry → Registry × Bool
attach token write r = attach_found token write r (lookup r.by_tok token)

abbrev pub write_of : Option Reservation → Option ℕ
write_of none = none
write_of (some res) = res.write

-- `Route`: the write function, if there is one.
unfoldable pub route : ℕ → Registry → Option ℕ
route token r = write_of (lookup r.by_tok token)

abbrev pub start_found : ℕ → ℕ → ℕ → Registry → Option Reservation → Registry × Bool
start_found token operation done r none = (r, false)
start_found token operation done r (some res) = (
  record r { by_tok = insert r.by_tok token (record res { ops = insert res.ops operation done }) },
  true,
)

unfoldable pub start_operation : ℕ → ℕ → ℕ → Registry → Registry × Bool
start_operation token operation done r = start_found token operation done r (lookup r.by_tok token)

abbrev pub stop_channel : ℕ → ℕ → Registry → Reservation → Option ℕ → Registry × Bool
stop_channel token operation r res none = (r, false)
stop_channel token operation r res (some done) = (
  record {
    by_tok = insert r.by_tok token (record res { ops = delete res.ops operation });
    closed = done ∷ r.closed;
  },
  true,
)

abbrev pub stop_found : ℕ → ℕ → Registry → Option Reservation → Registry × Bool
stop_found token operation r none = (r, false)
stop_found token operation r (some res) =
    stop_channel token operation r res (lookup res.ops operation)

unfoldable pub stop_operation : ℕ → ℕ → Registry → Registry × Bool
stop_operation token operation r = stop_found token operation r (lookup r.by_tok token)

-- The slice `toClose`; the order of the map iteration is that of the entries.
abbrev pub channels : List (ℕ × ℕ) → List ℕ
channels [] = []
channels ((operation, done) ∷ ops) = done ∷ channels ops

abbrev pub to_close : Option Reservation → List ℕ
to_close none = []
to_close (some res) = channels res.ops

unfoldable pub release : ℕ → Registry → Registry
release token r = record {
  by_tok = delete r.by_tok token;
  closed = to_close (lookup r.by_tok token) ++ r.closed;
}

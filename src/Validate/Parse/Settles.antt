-- ===== src/Validate/Parse/Settles.antt =====
-- A parse settles: it does not run out of fuel and dereferences no nil builder.
use gonest.Prelude.{
  ℕ, ◌≤◌, ◌<◌, Bool, true, false, List, [], ◌∷◌, ◌≡◌, Result, ok, err, arith, if◌then◌else◌,
}
use gonest.Prelude.Bytes.{Bytes}
use gonest.Schema.Value.{Any, Fields, depth, depth_fields}
use gonest.Schema.Property.{Destination}
use gonest.Schema.Store.{Store, own_properties}
use gonest.Validate.Violation.{Violation, Outcome, done, nil_pointer, out_of_fuel}
use gonest.Validate.Walk.{validate_value, validate_struct}
use gonest.Validate.Walk.Ends.{Ends, IsWalkable, own-AllWalkable, struct-Ends, value-Ends}
use gonest.Validate.Parse.{
  Parsed, nil_panic, exhausted, Setup, unless_refused, validated, written_or, refine_violations,
  presence_map, parse_struct, parse_decoded,
}

abbrev pub Settles : Parsed → Type 0
Settles nil_panic = ⊥
Settles exhausted = ⊥
Settles _ = Unit

pub unless_refused-Settles :
    (violations : List Violation) (next : Parsed)
    → Settles next
    → Settles (unless_refused violations next)
unless_refused-Settles [] next settles = settles
unless_refused-Settles (v ∷ violations) next settles = tt

pub written_or-Settles :
    (result : Result Bytes Destination) (next : Destination → Parsed)
    → ((dst : Destination) → Settles (next dst))
    → Settles (written_or result next)
written_or-Settles (ok dst) next settles = settles dst
written_or-Settles (err reason) next settles = tt

validated-Settles :
    (outcome : Outcome (List Violation)) (next : Parsed)
    → Ends outcome
    → Settles next
    → Settles (validated outcome next)
validated-Settles (done violations) next ends settles =
    unless_refused-Settles violations next settles
validated-Settles nil_pointer next ends settles = ends
validated-Settles out_of_fuel next ends settles = ends

presence_map-depth : (raw : Any) (n : ℕ) → depth raw ≤ n → depth_fields (presence_map raw) ≤ n
unfolding depth
presence_map-depth (Any.object fields) n shallow = omega arith
presence_map-depth _ n shallow = omega arith

parse_struct-Settles :
    (setup : Setup) (st : Store) (schema : ℕ) (fields : Fields)
    → ((i : ℕ) → IsWalkable (st.builders i))
    → depth_fields fields < setup.fuel
    → Settles (parse_struct setup st schema fields)
unfolding parse_struct
parse_struct-Settles setup st schema fields walkable shallow =
    let check = validate_value setup.lib st setup.fuel in
    validated-Settles (validate_struct check fields (own_properties st schema) []) _
      (struct-Ends setup.lib st walkable check setup.fuel
        (λ p raw path. value-Ends setup.lib st walkable setup.fuel p raw path) fields
        (own_properties st schema) [] (own-AllWalkable setup.lib st walkable schema) shallow)
      (written_or-Settles _ _
        (λ dst. unless_refused-Settles (refine_violations (st.schemas schema).refines dst) _ tt))

decoded-Settles :
    (is_value : Bool) (of_value of_struct : Parsed)
    → is_value ≡ false
    → Settles of_struct
    → Settles (if is_value then of_value else of_struct)
decoded-Settles true of_value of_struct e settles = cc
decoded-Settles false of_value of_struct e settles = settles

-- A decoded body of a struct's schema, parsed on more fuel than it is deep, is written or refused: when
-- no sanitizer makes a value deeper and each array builder has an item builder.
pub parse_decoded-Settles :
    (setup : Setup) (st : Store) (schema : ℕ) (raw : Any)
    → ((i : ℕ) → IsWalkable (st.builders i))
    → (st.schemas schema).is_value ≡ false
    → depth raw < setup.fuel
    → Settles (parse_decoded setup st schema raw)
unfolding parse_decoded
parse_decoded-Settles setup st schema raw walkable is_struct shallow =
    decoded-Settles (st.schemas schema).is_value _ _ is_struct (
      parse_struct-Settles setup st schema (presence_map raw) walkable
        (omega (arith, presence_map-depth raw (depth raw) (omega arith))))

-- ===== src/Schema/Value.antt =====
-- A Go value of type `any`, as far as encoding/json, the GraphQL library and the defaults of a
-- property make one. A list or a map inside a value has a list type of its own.
use Prim.Native.Nat.{max}
use gonest.Prelude.{ℕ, suc, Bool, Option, none, some, if◌then◌else◌}
use gonest.Prelude.Bytes.{Bytes, bytes_eq}
use gonest.Prelude.Numbers.{ℤ, Float}

pub data IntType : Type 0 where
  int int8 int16 int32 int64 uint uint8 uint16 uint32 uint64 : IntType

-- `pointer` is a pointer to a value; `other` is a value of a type that the code does not look at, by its
-- type and its identity.
mutual
  pub data Any : Type 0 where
    nil : Any
    boolean : Bool → Any
    float64 : Float → Any
    float32 : Float → Any
    integer : IntType → ℤ → Any
    duration : ℤ → Any
    string : Bytes → Any
    array : Items → Any
    object : Fields → Any
    pointer : Any → Any
    other : (its_type identity : ℕ) → Any

  pub data Items : Type 0 where
    empty : Items
    item : Any → Items → Items

  pub data Fields : Type 0 where
    end : Fields
    field : Bytes → Any → Fields → Fields

unfoldable mutual
  pub depth : Any → ℕ
  depth (array items) = suc (depth_items items)
  depth (object fields) = suc (depth_fields fields)
  depth _ = 0

  pub depth_items : Items → ℕ
  depth_items empty = 0
  depth_items (item v items) = max (depth v) (depth_items items)

  pub depth_fields : Fields → ℕ
  depth_fields end = 0
  depth_fields (field key v fields) = max (depth v) (depth_fields fields)

abbrev pub count_items : Items → ℕ
count_items empty = 0
count_items (item v items) = suc (count_items items)

-- `presence[key]`
abbrev pub presence : Fields → Bytes → Option Any
presence end key = none
presence (field k v fields) key = if bytes_eq k key then some v else presence fields key

-- ===== src/Schema/Store.antt =====
-- `Schema`, its registry and the builders it makes: internal/schema/{schema,value,registry,array}.go.
-- A store holds what the Go program has allocated; the registry is its global map by type.
pub mod Items
use gonest.Prelude.{
  ℕ, suc, ◌+◌, Bool, true, false, ◌&&◌, Option, none, some, List, [], ◌∷◌, ◌++◌, map, Result, ok,
  err, ◌>>=◌, ◌==◌, if◌then◌else◌,
}
use gonest.Prelude.Bytes.{Bytes}
use gonest.Schema.Property.{Destination, PropertyBuilder, StructField, Setter, new_builder}
use gonest.Schema.Kinds.{as_array, as_object}

-- A field that `reflect.VisibleFields` lists: its type, and the offset in its struct of each field on
-- the way to it.
pub record VisibleField : Type 0 where
  pub descriptor : StructField
  pub field_type : ℕ
  pub offsets : List ℕ

-- A type of the program: a struct has its visible fields.
pub record GoType : Type 0 where
  pub identity : ℕ
  pub fields : Option (List VisibleField)

pub record Schema : Type 0 where
  pub struct_type : GoType
  pub title : Bytes
  pub properties : List (ℕ × ℕ)
  pub is_value : Bool
  pub refines : List (Destination → Option (Bytes × Bytes))

pub record Store : Type 0 where
  pub schemas : ℕ → Schema
  pub next_schema : ℕ
  pub builders : ℕ → PropertyBuilder
  pub next_builder : ℕ
  pub registry : List (ℕ × ℕ)

pub data Panic : Type 0 where
  not_a_struct not_a_value already_registered field_registered foreign_pointer : Panic

-- A map by numbers as an association list.
abbrev pub find_entry {ℓ} : {A : Type ℓ} → List (ℕ × A) → ℕ → Option A
find_entry [] key = none
find_entry ((k, v) ∷ rest) key = if k == key then some v else find_entry rest key

abbrev pub remove_entry {ℓ} : {A : Type ℓ} → List (ℕ × A) → ℕ → List (ℕ × A)
remove_entry [] key = []
remove_entry ((k, v) ∷ rest) key =
    let others = remove_entry rest key in if k == key then others else (k, v) ∷ others

abbrev pub update {ℓ} : {A : Type ℓ} → (ℕ → A) → ℕ → A → ℕ → A
update f i a j = if j == i then a else f j

unfoldable pub register_fresh : Option ℕ → GoType → ℕ → Store → Result Panic Store
register_fresh (some other) t schema st = err already_registered
register_fresh none t schema st = ok (record st { registry = (t.identity, schema) ∷ st.registry })

unfoldable pub register_schema : GoType → ℕ → Store → Result Panic Store
unfolding register_fresh
register_schema t schema st = register_fresh (find_entry st.registry t.identity) t schema st

abbrev pub lookup_schema : GoType → Store → Option ℕ
lookup_schema t st = find_entry st.registry t.identity

abbrev pub deregister_schema : GoType → Store → Store
deregister_schema t st = record st { registry = remove_entry st.registry t.identity }

unfoldable pub add_schema : Schema → Store → Store
add_schema s st = record st {
  schemas = update st.schemas st.next_schema s;
  next_schema = suc st.next_schema;
}

unfoldable pub add_builder : PropertyBuilder → Store → Store
add_builder p st = record st {
  builders = update st.builders st.next_builder p;
  next_builder = suc st.next_builder;
}

-- The schema that `New` allocates, and that of `NewValue` with its one builder.
abbrev pub struct_schema : GoType → Schema
struct_schema t = record {
  struct_type = t;
  title = [];
  properties = [];
  is_value = false;
  refines = [];
}

abbrev pub value_schema : GoType → ℕ → Schema
value_schema t builder = record {
  struct_type = t;
  title = [];
  properties = (0, builder) ∷ [];
  is_value = true;
  refines = [];
}

-- The field of a builder that stands for no field of a struct.
abbrev pub no_field : StructField
no_field = record { name = []; tags = []; index = [] }

abbrev pub returning {ℓ} : {A : Type ℓ} → A → Result Panic Store → Result Panic (Store × A)
returning a (ok st) = ok (st, a)
returning a (err panic) = err panic

unfoldable pub new_struct : Option (List VisibleField) → GoType → Store → Result Panic (Store × ℕ)
new_struct none t st = err not_a_struct
new_struct (some fields) t st =
    returning st.next_schema (register_schema t st.next_schema (add_schema (struct_schema t) st))

-- `New`: the schema's index beside the store.
unfoldable pub new_schema : GoType → Store → Result Panic (Store × ℕ)
unfolding new_struct
new_schema t st = new_struct t.fields t st

-- `NewValue`: the indices of the schema and of its only builder.
unfoldable pub new_value : GoType → Store → Result Panic (Store × (ℕ × ℕ))
new_value t st =
    returning (st.next_schema, st.next_builder)
      (register_schema t st.next_schema
        (add_schema (value_schema t st.next_builder) (add_builder (new_builder no_field) st)))

abbrev pub cumulative_offset : List ℕ → ℕ
cumulative_offset [] = 0
cumulative_offset (offset ∷ offsets) = offset + cumulative_offset offsets

unfoldable pub find_field_by_offset : List VisibleField → ℕ → ℕ → Option StructField
find_field_by_offset [] offset want = none
find_field_by_offset (f ∷ fields) offset want =
    if f.field_type == want && cumulative_offset f.offsets == offset
    then some f.descriptor
    else find_field_by_offset fields offset want

abbrev pub fields_of : Option (List VisibleField) → List VisibleField
fields_of none = []
fields_of (some fields) = fields

unfoldable pub add_property : Option StructField → ℕ → ℕ → Store → Result Panic (Store × ℕ)
unfolding add_builder
add_property none schema offset st = err foreign_pointer
add_property (some owner) schema offset st =
    let s = st.schemas schema in
    let extended = record s { properties = s.properties ++ (offset, st.next_builder) ∷ [] } in
    let added = add_builder (new_builder owner) st in
    ok (record added { schemas = update st.schemas schema extended }, st.next_builder)

unfoldable pub property_at : Option ℕ → ℕ → ℕ → ℕ → Store → Result Panic (Store × ℕ)
unfolding add_property
property_at (some builder) schema offset want st = err field_registered
property_at none schema offset want st =
    add_property
      (find_field_by_offset (fields_of (st.schemas schema).struct_type.fields) offset want) schema
      offset st

-- `Property` with a pointer to the given offset, of the given type: the new builder's index.
unfoldable pub property : ℕ → ℕ → ℕ → Store → Result Panic (Store × ℕ)
unfolding property_at
property schema offset want st =
    property_at (find_entry (st.schemas schema).properties offset) schema offset want st

unfoldable pub builders_of : (ℕ → PropertyBuilder) → List (ℕ × ℕ) → List PropertyBuilder
builders_of builders [] = []
builders_of builders ((offset, builder) ∷ rest) = builders builder ∷ builders_of builders rest

-- `OwnProperties`: the map's own order is open in Go; here it is the order of the calls.
unfoldable pub own_properties : Store → ℕ → List PropertyBuilder
unfolding builders_of
own_properties st schema = builders_of st.builders (st.schemas schema).properties

value_property_of : Bool → Store → ℕ → Result Panic (Option ℕ)
value_property_of false st schema = err not_a_value
value_property_of true st schema = ok (find_entry (st.schemas schema).properties 0)

unfoldable pub value_property : Store → ℕ → Result Panic (Option ℕ)
unfolding value_property_of
value_property st schema = value_property_of (st.schemas schema).is_value st schema

abbrev pub refine : ℕ → (Destination → Option (Bytes × Bytes)) → Store → Store
refine schema fn st =
    let s = st.schemas schema in
    record st { schemas = update st.schemas schema (record s { refines = s.refines ++ fn ∷ [] }) }

-- A setter of a builder, called through a pointer to it.
abbrev pub set : ℕ → Setter → Store → Store
set builder setter st = record st {
  builders = update st.builders builder (setter (st.builders builder));
}

-- `Array`: the item builder is new, and the array schema keeps its own pointer to it.
pub record ArraySchema : Type 0 where
  pub owner : ℕ
  pub items : ℕ

unfoldable pub array_of : ℕ → Store → Store × ArraySchema
array_of builder st = (
  set builder (as_array st.next_builder) (add_builder (new_builder no_field) st),
  record { owner = builder; items = st.next_builder },
)

-- The branch methods of `ArraySchema` set the builder of the items, the others that of the array.
abbrev pub set_items : ArraySchema → Setter → Store → Store
set_items am setter st = set am.items setter st

abbrev pub set_array : ArraySchema → Setter → Store → Store
set_array am setter st = set am.owner setter st

-- `Object`: the function that it takes has the builder's own schema to work on.
abbrev pub object_of : ℕ → (Store → Store) → Store → Store
object_of builder fn st = fn (set builder as_object st)

-- ===== src/Schema/Store/Items.antt =====
-- What every store has that declarations lead to: builders of kind "array" with an item builder, and
-- schemas with one builder for each offset.
use gonest.Prelude.{
  ℕ, ◌==◌, Bool-cases, inl, inr, false, Option, none, some, List, [], ◌∷◌, ◌++◌, ◌≡◌, ◌≢◌, refl,
  subst, arith, Result, ok, err, ok-injective,
}
use gonest.Prelude.Bytes.{Bytes}
use gonest.Prelude.Numbers.{ℤ}
use gonest.Prelude.Members.{contains, IsUnique, IsUnique-snoc}
use gonest.Schema.Value.{Any}
use gonest.Schema.Property.{
  Destination, PropertyBuilder, StructField, Kind, Setter, new_builder, set_required, set_nullable,
  set_description, set_examples, set_custom, set_sanitize, set_default, set_graphql_scalar, set_min,
  set_max, set_pattern, set_enum_strings, set_enum_ints, set_schema, set_additional_properties,
  set_item_ref,
}
use gonest.Schema.Kinds.{set_kind, as_array, as_object}
use gonest.Schema.Store.{
  Store, Schema, Panic, GoType, VisibleField, find_entry, update, register_schema, register_fresh,
  add_schema, add_builder, new_schema, new_struct, new_value, add_property, property_at, property,
  refine, set, array_of, struct_schema, value_schema, no_field, returning,
}

abbrev pub HasItems : PropertyBuilder → Type 0
HasItems p = p.kind ≡ Kind.array → (items : ℕ) × (p.item ≡ some items)

-- The methods of a builder that change it alone. Every branch method is a `set_kind`.
pub data IsMethod : Setter → Type 0 where
  of_required : IsMethod set_required
  of_nullable : IsMethod set_nullable
  of_description : (word : Bytes) (words : List Bytes) → IsMethod (set_description word words)
  of_examples : (values : List Any) → IsMethod (set_examples values)
  of_custom : (fn : Option (Any → Result Bytes Any)) → IsMethod (set_custom fn)
  of_sanitize : (fn : Option (Any → Any)) → IsMethod (set_sanitize fn)
  of_default : (value : Any) → IsMethod (set_default value)
  of_graphql_scalar : (name : Bytes) → IsMethod (set_graphql_scalar name)
  of_min : (n : ℤ) → IsMethod (set_min n)
  of_max : (n : ℤ) → IsMethod (set_max n)
  of_pattern : (expression : Bytes) → IsMethod (set_pattern expression)
  of_enum_strings : (items : List Bytes) → IsMethod (set_enum_strings items)
  of_enum_ints : (items : List ℤ) → IsMethod (set_enum_ints items)
  of_schema : (schema : Option ℕ) → IsMethod (set_schema schema)
  of_additional_properties : IsMethod set_additional_properties
  of_item_ref : (schema : Option ℕ) → IsMethod (set_item_ref schema)
  of_branch : (kind : Kind) (format : Bytes) → kind ≢ Kind.array → IsMethod (set_kind kind format)
  of_object : IsMethod as_object

-- One call of the declaring program.
pub data Declares (st : Store) : Store → Type 0 where
  a_schema :
      {after : Store} {schema : ℕ} (t : GoType)
      → new_schema t st ≡ ok (after, schema)
      → Declares st after
  a_value :
      {after : Store} {schema builder : ℕ} (t : GoType)
      → new_value t st ≡ ok (after, (schema, builder))
      → Declares st after
  a_property :
      {after : Store} {builder : ℕ} (schema offset want : ℕ)
      → property schema offset want st ≡ ok (after, builder)
      → Declares st after
  a_refine :
      (schema : ℕ) (fn : Destination → Option (Bytes × Bytes)) → Declares st (refine schema fn st)
  a_method : {setter : Setter} (builder : ℕ) → IsMethod setter → Declares st (set builder setter st)
  an_array : (builder : ℕ) → Declares st (array_of builder st).0

pub data Reaches (st : Store) : Store → Type 0 where
  start : Reaches st st
  step : {before after : Store} → Reaches st before → Declares before after → Reaches st after

abbrev offsets : List (ℕ × ℕ) → List ℕ
offsets [] = []
offsets ((offset, builder) ∷ rest) = offset ∷ offsets rest

abbrev pub IsDeclared : Store → Type 0
IsDeclared st =
    ((i : ℕ) → HasItems (st.builders i))
    × ((schema : ℕ) → IsUnique (offsets (st.schemas schema).properties))

method-HasItems :
    {setter : Setter} → IsMethod setter → (p : PropertyBuilder) → HasItems p → HasItems (setter p)
method-HasItems (of_branch kind format other) p items = λ e. absurd (other e)
method-HasItems of_object p items = λ e. cc
method-HasItems of_required p items = items
method-HasItems of_nullable p items = items
method-HasItems (of_description word words) p items = items
method-HasItems (of_examples values) p items = items
method-HasItems (of_custom fn) p items = items
method-HasItems (of_sanitize fn) p items = items
method-HasItems (of_default value) p items = items
method-HasItems (of_graphql_scalar name) p items = items
method-HasItems (of_min n) p items = items
method-HasItems (of_max n) p items = items
method-HasItems (of_pattern expression) p items = items
method-HasItems (of_enum_strings values) p items = items
method-HasItems (of_enum_ints values) p items = items
method-HasItems (of_schema schema) p items = items
method-HasItems of_additional_properties p items = items
method-HasItems (of_item_ref schema) p items = items

new_builder-HasItems : (owner : StructField) → HasItems (new_builder owner)
new_builder-HasItems owner = λ e. cc

pub update-all :
    {A : Type 0} (P : A → Type 0) (f : ℕ → A) (i : ℕ) (a : A)
    → ((j : ℕ) → P (f j))
    → P a
    → (j : ℕ) → P (update f i a j)
update-all P f i a all here j = elim (Bool-cases (j == i)) [
  | inl e ↦ rw e here
  | inr e ↦ rw e (all j)
]

offsets-snoc :
    (properties : List (ℕ × ℕ)) (offset builder : ℕ)
    → offsets (properties ++ (offset, builder) ∷ []) ≡ offsets properties ++ offset ∷ []
offsets-snoc [] offset builder = refl
offsets-snoc ((o, b) ∷ properties) offset builder =
    let e = offsets-snoc properties offset builder in cc

find_entry-offsets :
    (properties : List (ℕ × ℕ)) (offset : ℕ)
    → find_entry properties offset ≡ none
    → contains (offsets properties) offset ≡ false
find_entry-offsets [] offset missing = refl
find_entry-offsets ((o, b) ∷ properties) offset missing =
    ground (arith, find_entry-offsets properties offset)

register_schema-keeps :
    {after : Store} (t : GoType) (schema : ℕ) (st : Store) (other : Option ℕ)
    → register_fresh other t schema st ≡ ok after
    → IsDeclared st
    → IsDeclared after
unfolding register_fresh
register_schema-keeps t schema st (some other) done declared = cc
register_schema-keeps t schema st none done declared = rw⁻¹ (ok-injective done) declared

add_schema-keeps :
    (s : Schema) (st : Store)
    → IsUnique (offsets s.properties)
    → IsDeclared st
    → IsDeclared (add_schema s st)
unfolding add_schema
add_schema-keeps s st unique declared = (
  declared.0,
  update-all (λ x. IsUnique (offsets x.properties)) st.schemas st.next_schema s declared.1 unique,
)

add_builder-keeps :
    (owner : StructField) (st : Store)
    → IsDeclared st
    → IsDeclared (add_builder (new_builder owner) st)
unfolding add_builder
add_builder-keeps owner st declared = (
  update-all HasItems st.builders st.next_builder (new_builder owner) declared.0
      (new_builder-HasItems owner),
  declared.1,
)

returning-eq-ok :
    {A : Type 0} (a : A) {b : A} {after : Store} (result : Result Panic Store)
    → returning a result ≡ ok (after, b)
    → result ≡ ok after
returning-eq-ok a (ok st) done = cc
returning-eq-ok a (err panic) done = cc

new_struct-keeps :
    {after : Store} {schema : ℕ} (fields : Option (List VisibleField)) (t : GoType) (st : Store)
    → new_struct fields t st ≡ ok (after, schema)
    → IsDeclared st
    → IsDeclared after
unfolding new_struct register_schema
new_struct-keeps none t st done declared = cc
new_struct-keeps (some fields) t st done declared =
    let added = add_schema (struct_schema t) st in
    register_schema-keeps t st.next_schema added (find_entry added.registry t.identity)
      (returning-eq-ok _ (register_schema t st.next_schema added) done)
      (add_schema-keeps (struct_schema t) st tt declared)

new_value-keeps :
    {after : Store} {schema builder : ℕ} (t : GoType) (st : Store)
    → new_value t st ≡ ok (after, (schema, builder))
    → IsDeclared st
    → IsDeclared after
unfolding new_value register_schema
new_value-keeps t st done declared =
    let built = add_builder (new_builder no_field) st in
    let added = add_schema (value_schema t st.next_builder) built in
    register_schema-keeps t st.next_schema added (find_entry added.registry t.identity)
      (returning-eq-ok _ (register_schema t st.next_schema added) done)
      (add_schema-keeps (value_schema t st.next_builder) built (refl, tt)
        (add_builder-keeps no_field st declared))

first-of :
    {A B : Type 0} {a b : A} {c d : B}
    → ◌≡◌ {A = Result Panic (A × B)} (ok (a, c)) (ok (b, d))
    → a ≡ b
first-of e = cc

add_property-keeps :
    {after : Store} {builder : ℕ} (owner : Option StructField) (schema offset : ℕ) (st : Store)
    → add_property owner schema offset st ≡ ok (after, builder)
    → find_entry (st.schemas schema).properties offset ≡ none
    → IsDeclared st
    → IsDeclared after
unfolding add_property add_builder
add_property-keeps none schema offset st done fresh declared = cc
add_property-keeps (some owner) schema offset st done fresh declared =
    let properties = (st.schemas schema).properties in
    let unique =
      IsUnique-snoc (offsets properties) offset (declared.1 schema)
        (find_entry-offsets properties offset fresh) in
    subst IsDeclared (first-of done) (
      (add_builder-keeps owner st declared).0,
      update-all (λ x. IsUnique (offsets x.properties)) st.schemas schema _ declared.1
          (rw (offsets-snoc properties offset st.next_builder) unique),
    )

property_at-keeps :
    {after : Store} {builder : ℕ} (found : Option ℕ) (schema offset want : ℕ) (st : Store)
    → property_at found schema offset want st ≡ ok (after, builder)
    → find_entry (st.schemas schema).properties offset ≡ found
    → IsDeclared st
    → IsDeclared after
unfolding property_at
property_at-keeps (some other) schema offset want st done e declared = cc
property_at-keeps none schema offset want st done e declared =
    add_property-keeps _ schema offset st done e declared

set-keeps :
    (builder : ℕ) (setter : Setter) (st : Store)
    → HasItems (setter (st.builders builder))
    → IsDeclared st
    → IsDeclared (set builder setter st)
set-keeps builder setter st items declared =
    (update-all HasItems st.builders builder _ declared.0 items, declared.1)

refine-keeps :
    (schema : ℕ) (fn : Destination → Option (Bytes × Bytes)) (st : Store)
    → IsDeclared st
    → IsDeclared (refine schema fn st)
refine-keeps schema fn st declared = (
  declared.0,
  update-all (λ x. IsUnique (offsets x.properties)) st.schemas schema _ declared.1
      (declared.1 schema),
)

Declares-keeps :
    {before after : Store} → Declares before after → IsDeclared before → IsDeclared after
unfolding new_schema property array_of
Declares-keeps {before} (a_schema t done) declared =
    new_struct-keeps t.fields t before done declared
Declares-keeps {before} (a_value t done) declared = new_value-keeps t before done declared
Declares-keeps {before} (a_property schema offset want done) declared =
    property_at-keeps _ schema offset want before done refl declared
Declares-keeps {before} (a_refine schema fn) declared = refine-keeps schema fn before declared
Declares-keeps {before} (a_method {setter} builder method) declared =
    set-keeps builder setter before
      (method-HasItems method (before.builders builder) (declared.0 builder)) declared
Declares-keeps {before} (an_array builder) declared =
    let added = add_builder (new_builder no_field) before in
    set-keeps builder (as_array before.next_builder) added (λ _. (before.next_builder, refl))
      (add_builder-keeps no_field before declared)

-- Every store that a program reaches by declaring, from one whose builders and schemas are in order, has
-- an item builder for each builder of kind "array" and no offset twice among a schema's properties.
pub Reaches-IsDeclared : {st after : Store} → Reaches st after → IsDeclared st → IsDeclared after
Reaches-IsDeclared start declared = declared
Reaches-IsDeclared (step before last) declared =
    Declares-keeps last (Reaches-IsDeclared before declared)

-- ===== src/Validate/Conforms/Cases.antt =====
-- Conformance read off the fields of the builder, in the order in which the code looks at them.
use gonest.Prelude.{
  ℕ, Bool, true, false, Option, none, some, List, ◌∷◌, ◌≡◌, ◌≢◌, refl, ◌↔◌, ◌⊎◌, inl, inr, Result,
  ok,
}
use gonest.Prelude.Bytes.{Bytes}
use gonest.Prelude.Numbers.{pos}
use gonest.Schema.Value.{Any, nil, Items, item, Fields, presence, count_items}
use gonest.Schema.Property.{PropertyBuilder, Kind}
use gonest.Schema.Store.{Store, own_properties}
use gonest.Validate.Primitive.{Library}
use gonest.Validate.Walk.{json_key, sanitized, item_builder}
use gonest.Validate.Conforms.{
  Within, IsPrimitive, Accepts, by_custom, built_in, Conforms, null, primitive, array,
  array_of_structs, shapeless, struct, AcceptsAll, next_item, Follows, untagged, absent, present,
  FollowsAll, next_struct,
}

module _ (lib : Library) (st : Store) where
  abbrev pub IfPresent : Option Any → PropertyBuilder → Type 0
  IfPresent none p = p.required ≡ false
  IfPresent (some raw) p = Accepts lib st p raw

  abbrev pub FieldFollows : Option Bytes → Fields → PropertyBuilder → Type 0
  FieldFollows none fields p = Unit
  FieldFollows (some key) fields p = IfPresent (presence fields key) p

  Follows-head :
      {p : PropertyBuilder} {properties : List PropertyBuilder} {fields : Fields}
      → Follows lib st (p ∷ properties) fields
      → FieldFollows (json_key p) fields p × Follows lib st properties fields
  Follows-head (untagged key rest) = (rw key tt, rest)
  Follows-head (absent key missing optional rest) = (rw (key, missing) optional, rest)
  Follows-head (present key found accepted rest) = (rw (key, found) accepted, rest)

  module _ {properties : List PropertyBuilder} {fields : Fields} (p : PropertyBuilder) where
    IfPresent-Follows :
        {key : Bytes} (given : Option Any)
        → json_key p ≡ some key
        → presence fields key ≡ given
        → IfPresent given p
        → Follows lib st properties fields
        → Follows lib st (p ∷ properties) fields
    IfPresent-Follows none keyed found optional rest = absent keyed found optional rest
    IfPresent-Follows (some raw) keyed found accepted rest = present keyed found accepted rest

    FieldFollows-Follows :
        (key : Option Bytes)
        → json_key p ≡ key
        → FieldFollows key fields p
        → Follows lib st properties fields
        → Follows lib st (p ∷ properties) fields
    FieldFollows-Follows none keyed _ rest = untagged keyed rest
    FieldFollows-Follows (some key) keyed follows rest =
        IfPresent-Follows (presence fields key) keyed refl follows rest

  pub Follows-cons_iff :
      {properties : List PropertyBuilder} {fields : Fields} (p : PropertyBuilder)
      → (FieldFollows (json_key p) fields p × Follows lib st properties fields)
        ↔ Follows lib st (p ∷ properties) fields
  Follows-cons_iff p =
      (λ (head, rest). FieldFollows-Follows p (json_key p) refl head rest, Follows-head)

  AcceptsAll-head :
      {builder : PropertyBuilder} {raw : Any} {items : Items}
      → AcceptsAll lib st (some builder) (item raw items)
      → Accepts lib st builder raw × AcceptsAll lib st (some builder) items
  AcceptsAll-head (next_item first rest) = (first, rest)

  pub AcceptsAll-item_iff :
      {builder : PropertyBuilder} {raw : Any} {items : Items}
      → (Accepts lib st builder raw × AcceptsAll lib st (some builder) items)
        ↔ AcceptsAll lib st (some builder) (item raw items)
  AcceptsAll-item_iff = (λ (first, rest). next_item first rest, AcceptsAll-head)

  abbrev pub FollowsAsStruct : List PropertyBuilder → Any → Type 0
  FollowsAsStruct properties (Any.object fields) = Follows lib st properties fields
  FollowsAsStruct properties _ = ⊥

  FollowsAll-head :
      {properties : List PropertyBuilder} {raw : Any} {items : Items}
      → FollowsAll lib st properties (item raw items)
      → FollowsAsStruct properties raw × FollowsAll lib st properties items
  FollowsAll-head (next_struct first rest) = (first, rest)

  FollowsAll-cons :
      {properties : List PropertyBuilder} {items : Items} (raw : Any)
      → FollowsAsStruct properties raw
      → FollowsAll lib st properties items
      → FollowsAll lib st properties (item raw items)
  FollowsAll-cons (Any.object fields) first rest = next_struct first rest
  FollowsAll-cons _ first rest = absurd first

  pub FollowsAll-item_iff :
      {properties : List PropertyBuilder} {items : Items} (raw : Any)
      → (FollowsAsStruct properties raw × FollowsAll lib st properties items)
        ↔ FollowsAll lib st properties (item raw items)
  FollowsAll-item_iff raw = (λ (first, rest). FollowsAll-cons raw first rest, FollowsAll-head)

  abbrev pub HasMembers : Option ℕ → PropertyBuilder → Items → Type 0
  HasMembers none p items = AcceptsAll lib st (item_builder st p.item) items
  HasMembers (some schema) p items = FollowsAll lib st (own_properties st schema) items

  abbrev pub IsArray : PropertyBuilder → Any → Type 0
  IsArray p (Any.array items) = Within p (pos (count_items items)) × HasMembers p.item_ref p items
  IsArray p _ = ⊥

  abbrev pub IsReferred : Option ℕ → Any → Type 0
  IsReferred none raw = Unit
  IsReferred (some schema) raw = FollowsAsStruct (own_properties st schema) raw

  abbrev pub IsObject : Bool → PropertyBuilder → Any → Type 0
  IsObject true p raw = Unit
  IsObject false p raw = IsReferred p.ref raw

  abbrev pub IsOfKind : Kind → PropertyBuilder → Any → Type 0
  IsOfKind Kind.array p raw = IsArray p raw
  IsOfKind Kind.object p raw = IsObject p.additional_properties p raw
  IsOfKind kind p raw = IsPrimitive lib p kind raw

  IsPrimitive-IsOfKind :
      (p : PropertyBuilder) (raw : Any) (kind : Kind)
      → kind ≢ Kind.array
      → kind ≢ Kind.object
      → IsPrimitive lib p kind raw
      → IsOfKind kind p raw
  IsPrimitive-IsOfKind p raw Kind.array not_array not_object fits = absurd (not_array refl)
  IsPrimitive-IsOfKind p raw Kind.object not_array not_object fits = absurd (not_object refl)
  IsPrimitive-IsOfKind p raw _ not_array not_object fits = fits

  open_or_unset :
      (p : PropertyBuilder) (raw : Any) (additional : Bool) (ref : Option ℕ)
      → p.ref ≡ ref
      → (additional ≡ true) ⊎ (ref ≡ none)
      → IsObject additional p raw
  open_or_unset p raw true ref e either = tt
  open_or_unset p raw false none e either = rw e tt
  open_or_unset p raw false (some schema) e either = elim either [ inl h ↦ cc | inr h ↦ cc ]

  Follows-IsObject :
      {fields : Fields} (p : PropertyBuilder) {schema : ℕ} (additional : Bool)
      → p.ref ≡ some schema
      → Follows lib st (own_properties st schema) fields
      → IsObject additional p (Any.object fields)
  Follows-IsObject p true e follows = tt
  Follows-IsObject p false e follows = rw e follows

  Conforms-IsOfKind :
      {p : PropertyBuilder} {raw : Any} → raw ≢ nil → Conforms lib st p raw → IsOfKind p.kind p raw
  Conforms-IsOfKind filled (null _) = absurd (filled refl)
  Conforms-IsOfKind {p} filled (primitive _ not_array not_object fits) =
      IsPrimitive-IsOfKind p _ p.kind not_array not_object fits
  Conforms-IsOfKind filled (array kind ref within accepted) = rw (kind, ref) (within, accepted)
  Conforms-IsOfKind filled (array_of_structs kind ref within follow) =
      rw (kind, ref) (within, follow)
  Conforms-IsOfKind {p} filled (shapeless _ kind either) =
      simp kind (open_or_unset p _ p.additional_properties p.ref refl either)
  Conforms-IsOfKind {p} filled (struct kind ref follows) =
      simp kind (Follows-IsObject p p.additional_properties ref follows)

  HasMembers-Conforms :
      {p : PropertyBuilder} {items : Items} (ref : Option ℕ)
      → p.kind ≡ Kind.array
      → p.item_ref ≡ ref
      → Within p (pos (count_items items))
      → HasMembers ref p items
      → Conforms lib st p (Any.array items)
  HasMembers-Conforms none kind e within members = array kind e within members
  HasMembers-Conforms (some schema) kind e within members = array_of_structs kind e within members

  IsArray-Conforms :
      {p : PropertyBuilder} (raw : Any)
      → p.kind ≡ Kind.array
      → IsArray p raw
      → Conforms lib st p raw
  IsArray-Conforms {p} (Any.array items) kind fits =
      HasMembers-Conforms p.item_ref kind refl fits.0 fits.1
  IsArray-Conforms _ kind fits = absurd fits

  IsReferred-Conforms :
      {p : PropertyBuilder} (raw : Any) (ref : Option ℕ)
      → raw ≢ nil
      → p.kind ≡ Kind.object
      → p.ref ≡ ref
      → IsReferred ref raw
      → Conforms lib st p raw
  IsReferred-Conforms raw none filled kind e fits = shapeless filled kind (inr e)
  IsReferred-Conforms (Any.object fields) (some schema) filled kind e fits = struct kind e fits
  IsReferred-Conforms _ (some schema) filled kind e fits = absurd fits

  IsObject-Conforms :
      {p : PropertyBuilder} {raw : Any} (additional : Bool)
      → raw ≢ nil
      → p.kind ≡ Kind.object
      → p.additional_properties ≡ additional
      → IsObject additional p raw
      → Conforms lib st p raw
  IsObject-Conforms true filled kind e fits = shapeless filled kind (inl e)
  IsObject-Conforms {p} {raw} false filled kind e fits =
      IsReferred-Conforms raw p.ref filled kind refl fits

  IsOfKind-Conforms :
      {p : PropertyBuilder} {raw : Any} (kind : Kind)
      → raw ≢ nil
      → p.kind ≡ kind
      → IsOfKind kind p raw
      → Conforms lib st p raw
  IsOfKind-Conforms {p} {raw} Kind.array filled e fits = IsArray-Conforms raw e fits
  IsOfKind-Conforms {p} {raw} Kind.object filled e fits =
      IsObject-Conforms p.additional_properties filled e refl fits
  IsOfKind-Conforms _ filled e fits = primitive filled (λ h. cc) (λ h. cc) (rw e fits)

  pub IsOfKind-iff :
      {p : PropertyBuilder} {raw : Any} → raw ≢ nil → IsOfKind p.kind p raw ↔ Conforms lib st p raw
  IsOfKind-iff {p} filled = (IsOfKind-Conforms p.kind filled refl, Conforms-IsOfKind filled)

  nil-Conforms :
      {p : PropertyBuilder} {raw : Any} → raw ≡ nil → Conforms lib st p raw → p.nullable ≡ true
  nil-Conforms e (null allowed) = allowed
  nil-Conforms e (primitive filled _ _ _) = absurd (filled e)
  nil-Conforms e (array _ _ _ _) = cc
  nil-Conforms e (array_of_structs _ _ _ _) = cc
  nil-Conforms e (shapeless filled _ _) = absurd (filled e)
  nil-Conforms e (struct _ _ _) = cc

  pub null_iff : {p : PropertyBuilder} → (p.nullable ≡ true) ↔ Conforms lib st p nil
  null_iff = (null, nil-Conforms refl)

  abbrev pub IsAccepted : Option (Any → Result Bytes Any) → PropertyBuilder → Any → Type 0
  IsAccepted (some fn) p raw = (value : Any) × (fn raw ≡ ok value)
  IsAccepted none p raw = Conforms lib st p raw

  Accepts-IsAccepted :
      {p : PropertyBuilder} {raw : Any}
      → Accepts lib st p raw
      → IsAccepted p.custom p (sanitized p.sanitize raw)
  Accepts-IsAccepted (by_custom e succeeds) = rw e (_, succeeds)
  Accepts-IsAccepted (built_in e conforms) = simp e conforms

  IsAccepted-Accepts :
      {p : PropertyBuilder} {raw : Any} (custom : Option (Any → Result Bytes Any))
      → p.custom ≡ custom
      → IsAccepted custom p (sanitized p.sanitize raw)
      → Accepts lib st p raw
  IsAccepted-Accepts (some fn) e accepted = by_custom e accepted.1
  IsAccepted-Accepts none e accepted = built_in e accepted

  pub IsAccepted-iff :
      {p : PropertyBuilder} {raw : Any}
      → IsAccepted p.custom p (sanitized p.sanitize raw) ↔ Accepts lib st p raw
  IsAccepted-iff {p} = (IsAccepted-Accepts p.custom refl, Accepts-IsAccepted)

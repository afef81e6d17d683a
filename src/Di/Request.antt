-- ===== src/Di/Request.antt =====
-- The cache of one request's instances: internal/resolver/request.go. The mutex makes Get and Set one
-- step each.
use gonest.Prelude.{
  ℕ, List, [], ◌∷◌, Bool, false, ◌&&◌, Option, none, some, ◌≡◌, refl, ◌==◌, ==_iff, Bool-cases, inl,
  inr, if◌then◌else◌,
}
use gonest.Di.Assemble.{update}

-- The values that a context carries under `requestIDKey`, the newest first; nil is `none`.
abbrev pub Context : Type 0
Context = List (Option ℕ)

abbrev pub with_request_id : Context → Option ℕ → Context
with_request_id parent id = id ∷ parent

abbrev pub request_id_from : Context → Option ℕ
request_id_from [] = none
request_id_from (id ∷ parent) = id

abbrev pub Bucket : Type 0
Bucket = ℕ → Option ℕ

abbrev pub RequestScope : Type 0
RequestScope = ℕ → Option Bucket

abbrev pub new_request_scope : RequestScope
new_request_scope id = none

abbrev instance_in : Option Bucket → ℕ → Option ℕ
instance_in none key = none
instance_in (some bucket) key = bucket key

abbrev get_for : Option ℕ → RequestScope → ℕ → Option ℕ
get_for none r key = none
get_for (some id) r key = instance_in (r id) key

-- `Get`
unfoldable pub get : RequestScope → Context → ℕ → Option ℕ
get r ctx key = get_for (request_id_from ctx) r key

abbrev bucket_of : Option Bucket → Bucket
bucket_of none = λ key. none
bucket_of (some bucket) = bucket

unfoldable set_for : Option ℕ → RequestScope → ℕ → ℕ → RequestScope
unfolding update
set_for none r key instance_ = r
set_for (some id) r key instance_ =
    update r id (some (update (bucket_of (r id)) key (some instance_)))

-- `Set`
unfoldable pub set : RequestScope → Context → ℕ → ℕ → RequestScope
unfolding set_for
set r ctx key instance_ = set_for (request_id_from ctx) r key instance_

-- What a cache promises, without a cache: the calls of Set, the newest first, and which of them a Get
-- looks for.
pub record SetCall : Type 0 where
  pub ctx : Context
  pub key : ℕ
  pub instance_ : ℕ

abbrev pub same_request : Option ℕ → Option ℕ → Bool
same_request (some a) (some b) = a == b
same_request _ _ = false

abbrev pub latest : List SetCall → Context → ℕ → Option ℕ
latest [] ctx key = none
latest (c ∷ earlier) ctx key =
    let rest = latest earlier ctx key in
    if same_request (request_id_from ctx) (request_id_from c.ctx) && (key == c.key)
    then some c.instance_
    else rest

unfoldable pub replay : List SetCall → RequestScope
unfolding set
replay [] = new_request_scope
replay (c ∷ earlier) = set (replay earlier) c.ctx c.key c.instance_

instance_in-bucket_of :
    (found : Option Bucket) (key : ℕ) → bucket_of found key ≡ instance_in found key
instance_in-bucket_of none key = refl
instance_in-bucket_of (some bucket) key = refl

get_for-set_for :
    (r : RequestScope) (id set_id : Option ℕ) (key set_key instance_ : ℕ)
    → get_for id (set_for set_id r set_key instance_) key
      ≡ (if same_request id set_id && (key == set_key) then some instance_ else get_for id r key)
unfolding set_for update
get_for-set_for r none none key set_key instance_ = refl
get_for-set_for r none (some b) key set_key instance_ = refl
get_for-set_for r (some a) none key set_key instance_ = refl
get_for-set_for r (some a) (some b) key set_key instance_ = elim (Bool-cases (a == b)) [
  | inl same ↦
      (let e : a ≡ b = (==_iff a b).0 same in
        rw same (elim (Bool-cases (key == set_key)) [
          | inl here ↦ rw here refl
          | inr other ↦ rw (other, e) (instance_in-bucket_of (r b) key)
        ]))
  | inr other ↦ rw other refl
]

-- Whatever was stored before, in whatever order, Get returns what the newest call of Set for the same
-- request and the same key stored, and nothing if there is none: requests do not see each other, and a
-- context without a request identity neither stores nor finds anything.
pub get-replay :
    (calls : List SetCall) (ctx : Context) (key : ℕ)
    → get (replay calls) ctx key ≡ latest calls ctx key
unfolding get replay set
get-replay [] ctx key = new_request_scope-empty (request_id_from ctx) key
  where
    new_request_scope-empty : (id : Option ℕ) (key : ℕ) → get_for id new_request_scope key ≡ none
    new_request_scope-empty none key = refl
    new_request_scope-empty (some id) key = refl
get-replay (c ∷ earlier) ctx key =
    rw
      (
        get_for-set_for (replay earlier) (request_id_from ctx) (request_id_from c.ctx) key c.key
            c.instance_,
        get-replay earlier ctx key,
      )
      refl

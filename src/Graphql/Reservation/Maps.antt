-- ===== src/Graphql/Reservation/Maps.antt =====
-- How often a channel occurs in the maps.
use gonest.Prelude.{
  ℕ, ◌+◌, ◌≤◌, List, [], ◌∷◌, ◌++◌, none, some, ◌≡◌, refl, arith, ◌==◌, if◌then◌else◌, Bool-cases,
  inl, inr, some-injective,
}
use gonest.Graphql.Reservation.{Reservation, lookup, insert, delete, channels, to_close}

abbrev pub one : ℕ → ℕ → ℕ
one d c = if d == c then 1 else 0

abbrev pub count : List ℕ → ℕ → ℕ
count [] c = 0
count (d ∷ ds) c = one d c + count ds c

-- The open channels of all reservations.
abbrev pub total : List (ℕ × Reservation) → ℕ → ℕ
total [] c = 0
total ((token, res) ∷ m) c = count (channels res.ops) c + total m c

pub count-append : (xs ys : List ℕ) (c : ℕ) → count (xs ++ ys) c ≡ count xs c + count ys c
count-append [] ys c = omega arith
count-append (x ∷ xs) ys c = omega (arith, count-append xs ys c)

pub channels-insert :
    (ops : List (ℕ × ℕ)) (k d c : ℕ)
    → count (channels (insert ops k d)) c ≤ one d c + count (channels ops) c
channels-insert [] k d c = omega arith
channels-insert ((j, e) ∷ ops) k d c = elim (Bool-cases (j == k)) [
  | inl same ↦ rw same (omega arith)
  | inr other ↦ rw other (omega (arith, channels-insert ops k d c))
]

channels-delete_le :
    (ops : List (ℕ × ℕ)) (k c : ℕ) → count (channels (delete ops k)) c ≤ count (channels ops) c
channels-delete_le [] k c = omega arith
channels-delete_le ((j, e) ∷ ops) k c = elim (Bool-cases (j == k)) [
  | inl same ↦ rw same (omega (arith, channels-delete_le ops k c))
  | inr other ↦ rw other (omega (arith, channels-delete_le ops k c))
]

pub channels-delete :
    (ops : List (ℕ × ℕ)) (k d c : ℕ)
    → lookup ops k ≡ some d
    → one d c + count (channels (delete ops k)) c ≤ count (channels ops) c
channels-delete [] k d c h = cc
channels-delete ((j, e) ∷ ops) k d c h = elim (Bool-cases (j == k)) [
  | inl same ↦
      let e_eq = some-injective (rw same at h) in
      rw (same, e_eq) (omega (arith, channels-delete_le ops k c))
  | inr other ↦ rw other (omega (arith, channels-delete ops k d c (rw other at h)))
]

pub total-insert :
    (m : List (ℕ × Reservation)) (token : ℕ) (res new : Reservation) (c : ℕ)
    → lookup m token ≡ some res
    → total (insert m token new) c + count (channels res.ops) c
      ≡ total m c + count (channels new.ops) c
total-insert [] token res new c h = cc
total-insert ((j, r) ∷ m) token res new c h = elim (Bool-cases (j == token)) [
  | inl same ↦ let r_eq = some-injective (rw same at h) in rw (same, r_eq) (omega arith)
  | inr other ↦ rw other (omega (arith, total-insert m token res new c (rw other at h)))
]

pub total-insert_le :
    (m : List (ℕ × Reservation)) (token : ℕ) (new : Reservation) (c : ℕ)
    → total (insert m token new) c ≤ total m c + count (channels new.ops) c
total-insert_le [] token new c = omega arith
total-insert_le ((j, r) ∷ m) token new c = elim (Bool-cases (j == token)) [
  | inl same ↦ rw same (omega arith)
  | inr other ↦ rw other (omega (arith, total-insert_le m token new c))
]

pub total-delete :
    (m : List (ℕ × Reservation)) (token c : ℕ)
    → count (to_close (lookup m token)) c + total (delete m token) c ≤ total m c
total-delete [] token c = omega arith
total-delete ((j, r) ∷ m) token c = elim (Bool-cases (j == token)) [
  | inl same ↦ rw same (omega (arith, total-delete m token c))
  | inr other ↦ rw other (omega (arith, total-delete m token c))
]

module _ {ℓ} {V : Type ℓ} where
  pub lookup-insert : (m : List (ℕ × V)) (k : ℕ) (v : V) → lookup (insert m k v) k ≡ some v
  lookup-insert [] k v = ground arith
  lookup-insert ((j, u) ∷ m) k v = elim (Bool-cases (j == k)) [
    | inl same ↦ rw same (ground arith)
    | inr other ↦ rw (other, other) (lookup-insert m k v)
  ]

  pub lookup-delete : (m : List (ℕ × V)) (k : ℕ) → lookup (delete m k) k ≡ none
  lookup-delete [] k = refl
  lookup-delete ((j, u) ∷ m) k = elim (Bool-cases (j == k)) [
    | inl same ↦ rw same (lookup-delete m k)
    | inr other ↦ rw (other, other) (lookup-delete m k)
  ]

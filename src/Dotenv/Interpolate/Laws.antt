-- ===== src/Dotenv/Interpolate/Laws.antt =====
-- Interpolation ends, and leaves text without a dollar sign alone.
use gonest.Prelude.{
  ℕ, zero, suc, ◌≤◌, ◌<◌, [], ◌∷◌, false, Option, none, some, ◌≡◌, ◌≢◌, refl, inl, inr, arith, ◌==◌,
  length, Option-cases, Bool-cases,
}
use gonest.Prelude.Members.{contains}
use gonest.Prelude.Bytes.{Bytes}
use gonest.Dotenv.Bytes.{split_byte}
use gonest.Dotenv.Interpolate.{
  Env, Resolved, is_var_name_start, span_name, brace, variable, piece, write, interpolate,
}

span_name-le : (s : Bytes) → length (span_name s).1 ≤ length s
unfolding span_name
span_name-le [] = omega arith
span_name-le (c ∷ s) = ground (arith, span_name-le s)

split_byte-lt :
    (c : ℕ) (s before after : Bytes)
    → split_byte c s ≡ some (before, after)
    → length after < length s
unfolding split_byte
split_byte-lt c [] before after e = cc
split_byte-lt c (d ∷ s) before after e = elim (Bool-cases (d == c)) [
  | inl same ↦ ground arith
  | inr other ↦ elim (Option-cases (split_byte c s)) [
    | inl missing ↦ ground arith
    | inr ((b, a), found) ↦ ground (arith, split_byte-lt c s b a found)
  ]
]

write-ne-none : (out : Bytes) (o : Option Bytes) → o ≢ none → write out o ≢ none
write-ne-none out none h = h
write-ne-none out (some more) h = λ e. cc

module _ (env : Env) (resolved : Resolved) where
  brace-le : (s : Bytes) → length (brace env resolved s).1 ≤ suc (length s)
  unfolding brace
  brace-le s = elim (Option-cases (split_byte b'}' s)) [
    | inl missing ↦ rw (missing, brace) (omega arith)
    | inr ((inner, rest), found) ↦
        rw (found, brace) (omega (arith, split_byte-lt b'}' s inner rest found))
  ]

  variable-le : (s : Bytes) → length (variable env resolved s).1 ≤ length s
  unfolding variable
  variable-le s = span_name-le s

  -- Every round takes at least one byte.
  piece-le : (c : ℕ) (s : Bytes) → length (piece env resolved c s).1 ≤ length s
  unfolding piece
  piece-le c [] = omega arith
  piece-le c (next ∷ s) = elim (Bool-cases (c == b'$')) [
    | inl dollar ↦ elim (Bool-cases (next == b'{')) [
      | inl open_brace ↦ rw (dollar, open_brace) (brace-le s)
      | inr other ↦ elim (Bool-cases (is_var_name_start next)) [
        | inl start ↦ rw (dollar, other, start) (variable-le (next ∷ s))
        | inr nothing ↦ rw (dollar, other, nothing) (omega arith)
      ]
    ]
    | inr plain ↦ rw plain (omega arith)
  ]

  -- The loop of `resolveInterpolation` ends within as many rounds as the text has bytes.
  pub resolve_interpolation-ne-none :
      (fuel : ℕ) (s : Bytes) → length s ≤ fuel → interpolate env resolved fuel s ≢ none
  unfolding interpolate
  resolve_interpolation-ne-none zero [] h = λ e. cc
  resolve_interpolation-ne-none (suc fuel) [] h = λ e. cc
  resolve_interpolation-ne-none zero (c ∷ s) h = absurd (omega arith)
  resolve_interpolation-ne-none (suc fuel) (c ∷ s) h =
      let (out, rest) = piece env resolved c s in
      write-ne-none out (interpolate env resolved fuel rest)
        (resolve_interpolation-ne-none fuel rest (omega (arith, piece-le c s)))

  -- Text with no dollar sign is left as it is.
  pub interpolate_plain :
      (fuel : ℕ) (s : Bytes)
      → length s ≤ fuel
      → contains s b'$' ≡ false
      → interpolate env resolved fuel s ≡ some s
  unfolding interpolate piece
  interpolate_plain zero [] h p = refl
  interpolate_plain (suc fuel) [] h p = refl
  interpolate_plain zero (c ∷ s) h p = absurd (omega arith)
  interpolate_plain (suc fuel) (c ∷ []) h p = ground (arith, interpolate_plain fuel [])
  interpolate_plain (suc fuel) (c ∷ d ∷ s) h p = ground (arith, interpolate_plain fuel (d ∷ s))

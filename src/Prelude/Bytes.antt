-- ===== src/Prelude/Bytes.antt =====
-- Byte strings.
use Prim.Native.Nat.{ℕ}
use Prim.Native.Char.{code}
use Prim.Native.String.{String}
use mathlib.Core.Path.{◌≡◌, refl}
use mathlib.Core.Bool.{Bool, true, false, ◌&&◌, ◌||◌}
use mathlib.Core.List.{List, [], ◌∷◌}
use native.Mathlib.Omega.{arith}
use gonest.Prelude.Tests.{◌==◌}

abbrev pub Bytes : Type 0
Bytes = List ℕ

unfoldable pub bytes_eq : Bytes → Bytes → Bool
bytes_eq [] [] = true
bytes_eq [] (d ∷ t) = false
bytes_eq (c ∷ s) [] = false
bytes_eq (c ∷ s) (d ∷ t) = c == d && bytes_eq s t

pub bytes_eq_sound : (s t : Bytes) → bytes_eq s t ≡ true → s ≡ t
unfolding bytes_eq
bytes_eq_sound [] [] h = refl
bytes_eq_sound [] (d ∷ t) h = cc
bytes_eq_sound (c ∷ s) [] h = cc
bytes_eq_sound (c ∷ s) (d ∷ t) h =
    let e = bytes_eq_sound s t (ground arith) in let k : c ≡ d = ground arith in cc

pub bytes_eq_refl : (s : Bytes) → bytes_eq s s ≡ true
unfolding bytes_eq
bytes_eq_refl [] = refl
bytes_eq_refl (c ∷ s) = ground (arith, bytes_eq_refl s)

-- Whether a set of strings, listed, has a string.
abbrev pub has_key : List Bytes → Bytes → Bool
has_key [] key = false
has_key (other ∷ keys) key = bytes_eq key other || has_key keys key

-- The bytes of a text that is ASCII.
abbrev pub text : String → Bytes
text String.[] = []
text (String.◌∷◌ c s) = code c ∷ text s

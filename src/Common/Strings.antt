-- ===== src/Common/Strings.antt =====
-- A Go string or byte slice is the list of its bytes. Strings compare byte by byte.
use Prim.Native.Char.{code}
use Prim.Native.Nat.{ℕ}
use Prim.Native.String.{String}
use mathlib.Core.Path.{◌≡◌, refl}
use mathlib.Core.Logic.{◌↔◌}
use mathlib.Core.Bool.{Bool, true, false, ◌&&◌, ◌||◌}
use mathlib.Core.List.{List, [], ◌∷◌}
use native.Mathlib.Omega.{arith}
use harikube.Common.Tests.{ltb, ◌==◌}

abbrev pub Bytes : Type 0
Bytes = List ℕ

-- The bytes of an ASCII text.
abbrev pub codes : String → Bytes
codes String.[] = []
codes (String.◌∷◌ letter rest) = code letter ∷ codes rest

unfoldable pub bytes_eq : Bytes → Bytes → Bool
bytes_eq [] [] = true
bytes_eq [] (y ∷ ys) = false
bytes_eq (x ∷ xs) [] = false
bytes_eq (x ∷ xs) (y ∷ ys) = x == y && bytes_eq xs ys

unfoldable pub bytes_lt : Bytes → Bytes → Bool
bytes_lt [] [] = false
bytes_lt [] (y ∷ ys) = true
bytes_lt (x ∷ xs) [] = false
bytes_lt (x ∷ xs) (y ∷ ys) = ltb x y || x == y && bytes_lt xs ys

pub bytes_eq_refl : (k : Bytes) → bytes_eq k k ≡ true
unfolding bytes_eq
bytes_eq_refl [] = refl
bytes_eq_refl (x ∷ k) = ground (arith, bytes_eq_refl k)

bytes_eq_sound : (k j : Bytes) → bytes_eq k j ≡ true → k ≡ j
unfolding bytes_eq
bytes_eq_sound [] [] h = refl
bytes_eq_sound [] (y ∷ ys) h = cc
bytes_eq_sound (x ∷ xs) [] h = cc
bytes_eq_sound (x ∷ xs) (y ∷ ys) h = ground (arith, bytes_eq_sound xs ys)

pub bytes_eq_iff : (k j : Bytes) → (bytes_eq k j ≡ true) ↔ (k ≡ j)
bytes_eq_iff k j = (bytes_eq_sound k j, λ e. rw e (bytes_eq_refl j))

pub bytes_eq_comm : (k j : Bytes) → bytes_eq k j ≡ bytes_eq j k
unfolding bytes_eq
bytes_eq_comm [] [] = refl
bytes_eq_comm [] (y ∷ ys) = refl
bytes_eq_comm (x ∷ xs) [] = refl
bytes_eq_comm (x ∷ xs) (y ∷ ys) = ground (arith, bytes_eq_comm xs ys)

pub bytes_lt_irrefl : (k : Bytes) → bytes_lt k k ≡ false
unfolding bytes_lt
bytes_lt_irrefl [] = refl
bytes_lt_irrefl (x ∷ k) = ground (arith, bytes_lt_irrefl k)

pub bytes_lt_trans :
    (i j k : Bytes) → bytes_lt i j ≡ true → bytes_lt j k ≡ true → bytes_lt i k ≡ true
unfolding bytes_lt
bytes_lt_trans [] [] k p q = cc
bytes_lt_trans [] (y ∷ ys) [] p q = cc
bytes_lt_trans [] (y ∷ ys) (z ∷ zs) p q = refl
bytes_lt_trans (x ∷ xs) [] k p q = cc
bytes_lt_trans (x ∷ xs) (y ∷ ys) [] p q = cc
bytes_lt_trans (x ∷ xs) (y ∷ ys) (z ∷ zs) p q = ground (arith, bytes_lt_trans xs ys zs)

-- Exactly one of `<`, `=`, `>` holds; the third case as the code meets it.
pub bytes_lt_total :
    (j k : Bytes) → bytes_lt j k ≡ false → bytes_eq j k ≡ false → bytes_lt k j ≡ true
unfolding bytes_lt bytes_eq
bytes_lt_total [] [] p q = cc
bytes_lt_total [] (y ∷ ys) p q = cc
bytes_lt_total (x ∷ xs) [] p q = refl
bytes_lt_total (x ∷ xs) (y ∷ ys) p q = ground (arith, bytes_lt_total xs ys)

-- From `k ≤ j` and `j < x`.
pub bytes_le_lt_trans :
    (k j x : Bytes) → bytes_lt j k ≡ false → bytes_lt j x ≡ true → bytes_lt k x ≡ true
bytes_le_lt_trans k j x p q =
    ground (arith, bytes_lt_total j k, bytes_lt_trans k j x, bytes_eq_iff j k)

-- `strings.HasPrefix(s, p)`, with the prefix first.
unfoldable pub has_prefix : Bytes → Bytes → Bool
has_prefix [] s = true
has_prefix (p ∷ ps) [] = false
has_prefix (p ∷ ps) (c ∷ s) = p == c && has_prefix ps s

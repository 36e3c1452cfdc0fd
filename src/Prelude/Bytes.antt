-- ===== src/Prelude/Bytes.antt =====
-- Byte strings (Go's []byte and string) as lists of numbers, with their comparisons.
use Prim.Native.Nat.{ℕ}
use mathlib.Core.Path.{◌≡◌, refl}
use mathlib.Core.Logic.{◌↔◌}
use mathlib.Core.Bool.{Bool, true, false}
use mathlib.Core.List.{List, [], ◌∷◌}
use native.Mathlib.Omega.{arith}
use bloc.Prelude.Tests.{◌==◌, ltb, if◌then◌else◌}

abbrev pub Bytes : Type 0
Bytes = List ℕ

-- bytes.Equal, and == on strings.
abbrev pub bytes_eq : Bytes → Bytes → Bool
bytes_eq [] [] = true
bytes_eq [] (y ∷ ys) = false
bytes_eq (x ∷ xs) [] = false
bytes_eq (x ∷ xs) (y ∷ ys) = let rest = bytes_eq xs ys in if x == y then rest else false

-- < on strings.
abbrev pub bytes_lt : Bytes → Bytes → Bool
bytes_lt [] [] = false
bytes_lt [] (y ∷ ys) = true
bytes_lt (x ∷ xs) [] = false
bytes_lt (x ∷ xs) (y ∷ ys) = let rest = bytes_lt xs ys in if x == y then rest else ltb x y

pub bytes_eq_iff : (a b : Bytes) → (bytes_eq a b ≡ true) ↔ (a ≡ b)
bytes_eq_iff [] [] = ground arith
bytes_eq_iff [] (y ∷ ys) = ground arith
bytes_eq_iff (x ∷ xs) [] = ground arith
bytes_eq_iff (x ∷ xs) (y ∷ ys) = ground (arith, bytes_eq_iff xs ys)

pub bytes_eq_self : (a : Bytes) → bytes_eq a a ≡ true
bytes_eq_self a = (bytes_eq_iff a a).1 refl

pub bytes_lt_irrefl : (a : Bytes) → bytes_lt a a ≡ false
bytes_lt_irrefl [] = refl
bytes_lt_irrefl (x ∷ xs) = ground (arith, bytes_lt_irrefl xs)

pub bytes_lt_trans :
    (a b c : Bytes) → bytes_lt a b ≡ true → bytes_lt b c ≡ true → bytes_lt a c ≡ true
bytes_lt_trans [] [] c h k = cc
bytes_lt_trans [] (y ∷ ys) [] h k = cc
bytes_lt_trans [] (y ∷ ys) (z ∷ zs) h k = refl
bytes_lt_trans (x ∷ xs) [] c h k = cc
bytes_lt_trans (x ∷ xs) (y ∷ ys) [] h k = cc
bytes_lt_trans (x ∷ xs) (y ∷ ys) (z ∷ zs) h k = ground (arith, bytes_lt_trans xs ys zs)

pub bytes_lt-total : (a b : Bytes) → bytes_lt a b ≡ false → bytes_lt b a ≡ false → a ≡ b
bytes_lt-total [] [] h k = refl
bytes_lt-total [] (y ∷ ys) h k = cc
bytes_lt-total (x ∷ xs) [] h k = cc
bytes_lt-total (x ∷ xs) (y ∷ ys) h k = ground (arith, bytes_lt-total xs ys)

pub bytes_lt-between :
    (a b c : Bytes) → bytes_lt a c ≡ true → bytes_lt a b ≡ false → bytes_lt b c ≡ true
bytes_lt-between [] b [] h k = cc
bytes_lt-between (x ∷ xs) b [] h k = cc
bytes_lt-between [] [] (z ∷ zs) h k = refl
bytes_lt-between [] (y ∷ ys) (z ∷ zs) h k = cc
bytes_lt-between (x ∷ xs) [] (z ∷ zs) h k = refl
bytes_lt-between (x ∷ xs) (y ∷ ys) (z ∷ zs) h k = ground (arith, bytes_lt-between xs ys zs)

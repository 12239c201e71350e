-- ===== src/Base/Bytes.antt =====
-- Python's `bytes` as lists of numbers below 256: equality and the order by `memcmp`, a shorter
-- prefix first.
use Prim.Native.Nat.{ℕ, ◌<◌}
use mathlib.Core.Bool.{Bool, true, false, not, ◌&&◌, ◌||◌}
use mathlib.Core.List.{List, [], ◌∷◌}
use mathlib.Core.Logic.{◌↔◌}
use mathlib.Core.Path.{◌≡◌, refl}
use native.Mathlib.Omega.{arith}
use oxide_db.Base.Lists.{All}
use oxide_db.Base.Tests.{ltb, ◌==◌}

abbrev pub Bytes : Type 0
Bytes = List ℕ

-- every element is a byte
abbrev pub IsBytes : Bytes → Type 0
IsBytes = All (λ b. b < 256)

-- `a == b`
unfoldable pub bytes_eq : Bytes → Bytes → Bool
bytes_eq [] [] = true
bytes_eq [] (y ∷ ys) = false
bytes_eq (x ∷ xs) [] = false
bytes_eq (x ∷ xs) (y ∷ ys) = (x == y) && bytes_eq xs ys

-- `a < b`
unfoldable pub bytes_lt : Bytes → Bytes → Bool
bytes_lt xs [] = false
bytes_lt [] (y ∷ ys) = true
bytes_lt (x ∷ xs) (y ∷ ys) = ltb x y || ((x == y) && bytes_lt xs ys)

-- `a <= b`
abbrev pub bytes_le : Bytes → Bytes → Bool
bytes_le a b = not (bytes_lt b a)

pub bytes_eq_refl : (a : Bytes) → bytes_eq a a ≡ true
unfolding bytes_eq
bytes_eq_refl [] = refl
bytes_eq_refl (x ∷ xs) = ground (arith, bytes_eq_refl xs)

pub eq_of_bytes_eq : (a b : Bytes) → bytes_eq a b ≡ true → a ≡ b
unfolding bytes_eq
eq_of_bytes_eq [] [] h = refl
eq_of_bytes_eq [] (y ∷ ys) h = ground arith
eq_of_bytes_eq (x ∷ xs) [] h = ground arith
eq_of_bytes_eq (x ∷ xs) (y ∷ ys) h = ground (arith, eq_of_bytes_eq xs ys)

pub bytes_eq_iff : (a b : Bytes) → (bytes_eq a b ≡ true) ↔ (a ≡ b)
bytes_eq_iff a b = (eq_of_bytes_eq a b, λ e. rw e (bytes_eq_refl b))

pub bytes_lt_irrefl : (a : Bytes) → bytes_lt a a ≡ false
unfolding bytes_lt
bytes_lt_irrefl [] = refl
bytes_lt_irrefl (x ∷ xs) = ground (arith, bytes_lt_irrefl xs)

pub bytes_lt_trans :
    (a b c : Bytes) → bytes_lt a b ≡ true → bytes_lt b c ≡ true → bytes_lt a c ≡ true
unfolding bytes_lt
bytes_lt_trans a b [] h k = k
bytes_lt_trans a [] (z ∷ zs) h k = ground arith
bytes_lt_trans [] (y ∷ ys) (z ∷ zs) h k = refl
bytes_lt_trans (x ∷ xs) (y ∷ ys) (z ∷ zs) h k = ground (arith, bytes_lt_trans xs ys zs)

-- the order is total: not smaller and not larger is equal
pub bytes_eq_of_not-lt : (a b : Bytes) → bytes_lt a b ≡ false → bytes_lt b a ≡ false → a ≡ b
unfolding bytes_lt
bytes_eq_of_not-lt [] [] h k = refl
bytes_eq_of_not-lt [] (y ∷ ys) h k = ground arith
bytes_eq_of_not-lt (x ∷ xs) [] h k = ground arith
bytes_eq_of_not-lt (x ∷ xs) (y ∷ ys) h k = ground (arith, bytes_eq_of_not-lt xs ys)

pub bytes_lt_asymm : (a b : Bytes) → bytes_lt a b ≡ true → bytes_lt b a ≡ false
unfolding bytes_lt
bytes_lt_asymm [] [] h = refl
bytes_lt_asymm [] (y ∷ ys) h = refl
bytes_lt_asymm (x ∷ xs) [] h = ground arith
bytes_lt_asymm (x ∷ xs) (y ∷ ys) h = ground (arith, bytes_lt_asymm xs ys)

-- `not (b < a)` and `not (c < b)` give `not (c < a)`
pub bytes_le_trans :
    (a b c : Bytes) → bytes_lt b a ≡ false → bytes_lt c b ≡ false → bytes_lt c a ≡ false
unfolding bytes_lt
bytes_le_trans [] b c h k = ground arith
bytes_le_trans (x ∷ xs) [] c h k = ground arith
bytes_le_trans (x ∷ xs) (y ∷ ys) [] h k = ground arith
bytes_le_trans (x ∷ xs) (y ∷ ys) (z ∷ zs) h k = ground (arith, bytes_le_trans xs ys zs)

-- `not (b < a)` and `b < c` give `a < c`
pub bytes_lt_of_le_of_lt :
    (a b c : Bytes) → bytes_lt b a ≡ false → bytes_lt b c ≡ true → bytes_lt a c ≡ true
unfolding bytes_lt
bytes_lt_of_le_of_lt a b [] h k = ground arith
bytes_lt_of_le_of_lt [] b (z ∷ zs) h k = refl
bytes_lt_of_le_of_lt (x ∷ xs) [] (z ∷ zs) h k = ground arith
bytes_lt_of_le_of_lt (x ∷ xs) (y ∷ ys) (z ∷ zs) h k = ground (arith, bytes_lt_of_le_of_lt xs ys zs)

-- `a < b` and `not (c < b)` give `a < c`
pub bytes_lt_of_lt_of_le :
    (a b c : Bytes) → bytes_lt a b ≡ true → bytes_lt c b ≡ false → bytes_lt a c ≡ true
unfolding bytes_lt
bytes_lt_of_lt_of_le a [] c h k = ground arith
bytes_lt_of_lt_of_le a (y ∷ ys) [] h k = ground arith
bytes_lt_of_lt_of_le [] (y ∷ ys) (z ∷ zs) h k = refl
bytes_lt_of_lt_of_le (x ∷ xs) (y ∷ ys) (z ∷ zs) h k = ground (arith, bytes_lt_of_lt_of_le xs ys zs)

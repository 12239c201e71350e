-- ===== src/Storage/Keyspace/Prefix.antt =====
-- The byte order on keys that share a prefix, and what lies between a prefix and an extension.
use oxide_db.Base.{ℕ, suc, ◌≡◌, refl, true, false, [], ◌∷◌, ◌++◌, arith, length, drop}
use oxide_db.Base.Bytes.{Bytes, bytes_lt}
use oxide_db.Storage.Keyspace.{contains}

pub bytes_lt-append : (p a b : Bytes) → bytes_lt (p ++ a) (p ++ b) ≡ bytes_lt a b
unfolding bytes_lt
bytes_lt-append [] a b = refl
bytes_lt-append (x ∷ p) a b = ground (arith, bytes_lt-append p a b)

-- what is not below `p` and is below an extension of `p` is an extension of `p`
pub extension_of_between :
    (p s x : Bytes) → bytes_lt x p ≡ false → bytes_lt x (p ++ s) ≡ true → x ≡ p ++ drop (length p) x
unfolding bytes_lt
extension_of_between [] s x h k = refl
extension_of_between (y ∷ p) s [] h k = ground arith
extension_of_between (y ∷ p) s (z ∷ x) h k = ground (arith, extension_of_between p s x)

pub not-lt_of_extension : (p s : Bytes) → bytes_lt (p ++ s) p ≡ false
unfolding bytes_lt
not-lt_of_extension [] s = refl
not-lt_of_extension (x ∷ p) s = ground (arith, not-lt_of_extension p s)

-- two keys without the separator, each behind it: equal texts have equal keys and equal rests
pub eq_of_separated :
    (b : ℕ) (k j s t : Bytes)
    → contains b k ≡ false
    → contains b j ≡ false
    → k ++ b ∷ s ≡ j ++ b ∷ t
    → (k ≡ j) × (s ≡ t)
unfolding contains
eq_of_separated b [] [] s t hk hj e = ground arith
eq_of_separated b [] (y ∷ j) s t hk hj e = absurd (ground arith)
eq_of_separated b (x ∷ k) [] s t hk hj e = absurd (ground arith)
eq_of_separated b (x ∷ k) (y ∷ j) s t hk hj e = ground (arith, eq_of_separated b k j s t)

-- what lies from `p` with the separator up to `p` with the byte 1 begins with `p` and the separator
pub separated_of_between :
    (p x : Bytes)
    → bytes_lt x (p ++ 0 ∷ []) ≡ false
    → bytes_lt x (p ++ 1 ∷ []) ≡ true
    → x ≡ (p ++ 0 ∷ []) ++ drop (suc (length p)) x
unfolding bytes_lt
separated_of_between [] [] h k = ground arith
separated_of_between [] (z ∷ x) h k = ground arith
separated_of_between (y ∷ p) [] h k = ground arith
separated_of_between (y ∷ p) (z ∷ x) h k = ground (arith, separated_of_between p x)

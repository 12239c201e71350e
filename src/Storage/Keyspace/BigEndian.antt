-- ===== src/Storage/Keyspace/BigEndian.antt =====
-- Big-endian numbers of a fixed width: their length, reading them back, and their order.
use native.Mathlib.Nat.{div-add-mod, mod-lt, pow-suc, div-lt_iff_lt-mul, mul-le-mul_left}
use mathlib.Core.Path.{ap₂}
use oxide_db.Base.{
  sym, ◌∙◌, ◌||◌, ◌&&◌, ℕ, zero, suc, ◌+◌, ◌*◌, ◌/◌, ◌%◌, ◌^◌, ◌<◌, ◌≡◌, refl, ap, arith, ltb, ◌==◌,
  length,
}
use oxide_db.Base.Bytes.{IsBytes, bytes_lt}
use oxide_db.Storage.Keyspace.{be, of_be_from}

pow_pos : (w : ℕ) → 0 < 256 ^ w
pow_pos zero = omega arith
pow_pos (suc w) = rw pow-suc (omega (arith, pow_pos w))

pub length-be : (w n : ℕ) → length (be w n) ≡ w
unfolding be
length-be zero n = refl
length-be (suc w) n = ap suc (length-be w (n % 256 ^ w))

pub be-IsBytes : (w n : ℕ) → n < 256 ^ w → IsBytes (be w n)
unfolding be
be-IsBytes zero n h = tt
be-IsBytes (suc w) n h = (
  (div-lt_iff_lt-mul (pow_pos w)).1 (omega (arith, pow-suc 256 w)),
  be-IsBytes w (n % 256 ^ w) (mod-lt n (pow_pos w)),
)

-- one digit more, with the weight of the digits behind it as a variable
digit_step : (acc q p r n : ℕ) → p * q + r ≡ n → (acc * 256 + q) * p + r ≡ acc * (p * 256) + n
digit_step acc q p r n h = grind arith

pub of_be_from-be : (w n acc : ℕ) → n < 256 ^ w → of_be_from acc (be w n) ≡ acc * 256 ^ w + n
unfolding be of_be_from
of_be_from-be zero n acc h = omega arith
of_be_from-be (suc w) n acc h =
    of_be_from-be w (n % 256 ^ w) (acc * 256 + n / 256 ^ w) (mod-lt n (pow_pos w))
    ∙ digit_step acc (n / 256 ^ w) (256 ^ w) (n % 256 ^ w) n (div-add-mod n (256 ^ w))
    ∙ rw pow-suc refl

lt_of_digit : (p q r q' r' : ℕ) → r < p → q < q' → p * q + r < p * q' + r'
lt_of_digit p q r q' r' h k = omega (arith, mul-le-mul_left p k)

-- numbers compare by their leading digits, and by the rests where those agree
lt_by_digits :
    (p q r q' r' : ℕ)
    → r < p
    → r' < p
    → ltb (p * q + r) (p * q' + r') ≡ ltb q q' || ((q == q') && ltb r r')
lt_by_digits p q r q' r' h k = ground (
  arith,
  lt_of_digit p q r q' r',
  lt_of_digit p q' r' q r,
  λ (e : q ≡ q'). ap (λ (t : ℕ). p * t) e,
)

pub bytes_lt-be : (w n m : ℕ) → n < 256 ^ w → m < 256 ^ w → bytes_lt (be w n) (be w m) ≡ ltb n m
unfolding be bytes_lt
bytes_lt-be zero n m h k = ground arith
bytes_lt-be (suc w) n m h k =
    let P = 256 ^ w in
    rw (bytes_lt-be w (n % P) (m % P) (mod-lt n (pow_pos w)) (mod-lt m (pow_pos w))) (
      sym (
        lt_by_digits P (n / P) (n % P) (m / P) (m % P) (mod-lt n (pow_pos w))
          (mod-lt m (pow_pos w)))
      ∙ ap₂ ltb (div-add-mod n P) (div-add-mod m P))

-- ===== src/Storage/Keyspace.antt =====
-- oxidedb/storage/mvcc.py, the encoding: `namespace || key || 0x00 || timestamp` with the
-- timestamp in eight big-endian bytes, and back.
pub mod BigEndian
pub mod Prefix
use oxide_db.Base.{
  ℕ, zero, suc, ◌+◌, ◌-◌, ◌*◌, ◌/◌, ◌%◌, ◌^◌, Bool, true, false, ◌||◌, List, [], ◌∷◌, ◌++◌, ltb,
  leb, ◌==◌, if◌then◌else◌, length, take, drop,
}
use oxide_db.Base.Bytes.{Bytes}

-- the exceptions that the storage raises
pub data Error : Type 0 where
  value_error : Error
  unpack_error : Error

pub data Result (A : Type 0) : Type 0 where
  ok : A → Result A
  raise : Error → Result A

infixl 5 ◌>>=◌ ◌>>◌
abbrev pub ◌>>=◌ : {A B : Type 0} → Result A → (A → Result B) → Result B
ok a >>= f = f a
raise e >>= f = raise e

abbrev pub ◌>>◌ : {A B : Type 0} → Result A → Result B → Result B
m >> n = m >>= λ _. n

-- the namespaces and the separator
abbrev pub version_ns : ℕ
version_ns = 1

abbrev pub write_ns : ℕ
write_ns = 3

abbrev pub lock_ns : ℕ
lock_ns = 4

abbrev pub sep : ℕ
sep = 0

abbrev pub all_start : Bytes
all_start = 1 ∷ []

abbrev pub all_end : Bytes
all_end = 5 ∷ []

abbrev pub max_ts : ℕ
max_ts = 2 ^ 64 - 1

-- `n.to_bytes(w, 'big')`, for n below 256 ^ w
unfoldable pub be : ℕ → ℕ → Bytes
be zero n = []
be (suc w) n = (n / 256 ^ w) ∷ be w (n % 256 ^ w)

-- `int.from_bytes(l, 'big')`, with what is read so far
unfoldable pub of_be_from : ℕ → Bytes → ℕ
of_be_from acc [] = acc
of_be_from acc (b ∷ l) = of_be_from (acc * 256 + b) l

abbrev pub of_be : Bytes → ℕ
of_be = of_be_from 0

unfoldable pub ts_bytes : ℕ → Result Bytes
ts_bytes timestamp = if leb timestamp max_ts then ok (be 8 timestamp) else raise value_error

unfoldable pub contains : ℕ → Bytes → Bool
contains b [] = false
contains b (x ∷ l) = (b == x) || contains b l

unfoldable pub check_user_key : Bytes → Result Bytes
check_user_key key = if contains sep key then raise value_error else ok key

-- `namespace || key || 0x00`
abbrev pub prefix : ℕ → Bytes → Bytes
prefix ns key = ns ∷ key ++ sep ∷ []

abbrev pub version_prefix : Bytes → Bytes
version_prefix = prefix version_ns

abbrev pub key_upper_bound : ℕ → Bytes → Bytes
key_upper_bound ns key = ns ∷ key ++ 1 ∷ []

-- The user key and the timestamp of a row's key: the last eight bytes are the timestamp, and the
-- separator stands before them.
unfoldable pub split_version_key : Bytes → Result (Bytes × ℕ)
split_version_key row_key =
    let body = drop 1 row_key in
    if ltb (length body) 9
    then raise value_error
    else ok (take (length body - 9) body, of_be (drop (length body - 8) body))

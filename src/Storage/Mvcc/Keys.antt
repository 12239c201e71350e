-- ===== src/Storage/Mvcc/Keys.antt =====
-- The keys that the storage writes: where a row's key lies against the bounds of a scan, and what
-- a key between those bounds is.
use mathlib.Core.List.{append_assoc}
use oxide_db.Base.{
  ℕ, suc, ◌+◌, ◌-◌, ◌≤◌, ◌≡◌, refl, sym, ap, ◌∙◌, true, false, [], ◌∷◌, ◌++◌, arith, ltb, length,
  length-append, take, drop, is_some,
}
use oxide_db.Base.Bytes.{Bytes, bytes_lt}
use oxide_db.Storage.Engine.{Engine, get}
use oxide_db.Storage.Keyspace.{
  ok, sep, max_ts, be, of_be, contains, prefix, key_upper_bound, split_version_key,
}
use oxide_db.Storage.Keyspace.BigEndian.{length-be, of_be_from-be, bytes_lt-be}
use oxide_db.Storage.Keyspace.Prefix.{bytes_lt-append, not-lt_of_extension, eq_of_separated}

-- `namespace || key || 0x00 || timestamp`
abbrev pub row_key : ℕ → Bytes → ℕ → Bytes
row_key ns key ts = prefix ns key ++ be 8 ts

-- a key that the storage writes
pub record RowKey (k : Bytes) : Type 0 where
  pub ns : ℕ
  pub user_key : Bytes
  pub ts : ℕ
  pub legal : contains sep user_key ≡ false
  pub fits : ts ≤ max_ts
  pub layout : k ≡ row_key ns user_key ts

-- every key of the engine is one that the storage writes
pub record IsKeyspace (e : Engine) : Type 0 where
  pub rows : (k : Bytes) → is_some (get k e) ≡ true → RowKey k

pub row_key_split : (ns : ℕ) (key : Bytes) (ts : ℕ) → row_key ns key ts ≡ ns ∷ key ++ sep ∷ be 8 ts
row_key_split ns key ts = ap (◌∷◌ ns) (append_assoc key (sep ∷ []) (be 8 ts))

drop_append : (p s : Bytes) → drop (length p) (p ++ s) ≡ s
drop_append [] s = refl
drop_append (x ∷ p) s = drop_append p s

pub of_be-be_ts : (ts : ℕ) → ts ≤ max_ts → of_be (be 8 ts) ≡ ts
of_be-be_ts ts h = omega (arith, of_be_from-be 8 ts 0)

-- the timestamp behind the prefix reads back
pub of_be-row_key :
    (ns : ℕ) (key : Bytes) (ts : ℕ)
    → ts ≤ max_ts
    → of_be (drop (length (prefix ns key)) (row_key ns key ts)) ≡ ts
of_be-row_key ns key ts h = ap of_be (drop_append (prefix ns key) (be 8 ts)) ∙ of_be-be_ts ts h

-- a row is at or past its own prefix
pub prefix-le-row_key :
    (ns : ℕ) (key : Bytes) (ts : ℕ) → bytes_lt (row_key ns key ts) (prefix ns key) ≡ false
prefix-le-row_key ns key ts = not-lt_of_extension (prefix ns key) (be 8 ts)

-- two rows of a key are in the order of their timestamps
pub row_key_lt :
    (ns : ℕ) (key : Bytes) (t u : ℕ)
    → t ≤ max_ts
    → u ≤ max_ts
    → bytes_lt (row_key ns key t) (row_key ns key u) ≡ ltb t u
row_key_lt ns key t u h k =
    bytes_lt-append (prefix ns key) (be 8 t) (be 8 u)
    ∙ bytes_lt-be 8 t u (omega arith) (omega arith)

pub row_key-lt-upper_bound :
    (ns : ℕ) (key : Bytes) (ts : ℕ) → bytes_lt (row_key ns key ts) (key_upper_bound ns key) ≡ true
unfolding bytes_lt
row_key-lt-upper_bound ns key ts =
    ap (λ k. bytes_lt k (key_upper_bound ns key)) (row_key_split ns key ts)
    ∙ bytes_lt-append (ns ∷ key) (sep ∷ be 8 ts) (1 ∷ [])

-- equal rows have equal parts
pub row_key_injective :
    (ns ms : ℕ) (k j : Bytes) (t u : ℕ)
    → contains sep k ≡ false
    → contains sep j ≡ false
    → t ≤ max_ts
    → u ≤ max_ts
    → row_key ns k t ≡ row_key ms j u
    → (ns ≡ ms) × (k ≡ j) × (t ≡ u)
row_key_injective ns ms k j t u hk hj ht hu e =
    let e' = sym (row_key_split ns k t) ∙ e ∙ row_key_split ms j u in
    let tails : k ++ sep ∷ be 8 t ≡ j ++ sep ∷ be 8 u = ap (drop 1) e' in
    let (same, times) = eq_of_separated sep k j (be 8 t) (be 8 u) hk hj tails in
    (cc e', same, sym (of_be-be_ts t ht) ∙ ap of_be times ∙ of_be-be_ts u hu)

-- A row of the storage that begins with the prefix of `key` is a row of `key`.
pub row_of_prefix :
    (ns : ℕ) (key k rest : Bytes)
    → contains sep key ≡ false
    → RowKey k
    → k ≡ prefix ns key ++ rest
    → (ts : ℕ) × (ts ≤ max_ts) × (k ≡ row_key ns key ts)
row_of_prefix ns key k rest legal r e =
    let e' : ns ∷ key ++ sep ∷ rest ≡ r.ns ∷ r.user_key ++ sep ∷ be 8 r.ts =
      sym (ap (◌∷◌ ns) (append_assoc key (sep ∷ []) rest))
      ∙ sym e
      ∙ r.layout
      ∙ row_key_split r.ns r.user_key r.ts in
    let (same, times) =
      eq_of_separated sep key r.user_key rest (be 8 r.ts) legal r.legal (ap (drop 1) e') in
    (r.ts, r.fits, e ∙ ap (λ t. prefix ns key ++ t) times)

take_append : (p s : Bytes) → take (length p) (p ++ s) ≡ p
take_append [] s = refl
take_append (x ∷ p) s = ap (◌∷◌ x) (take_append p s)

drop_append_suc : (p : Bytes) (b : ℕ) (s : Bytes) → drop (suc (length p)) (p ++ b ∷ s) ≡ s
drop_append_suc [] b s = refl
drop_append_suc (x ∷ p) b s = drop_append_suc p b s

split_body :
    (ns : ℕ) (body key : Bytes) (ts : ℕ)
    → 9 ≤ length body
    → take (length body - 9) body ≡ key
    → of_be (drop (length body - 8) body) ≡ ts
    → split_version_key (ns ∷ body) ≡ ok (key, ts)
unfolding split_version_key
split_body ns body key ts size user times = ground arith

-- The key and the timestamp of a row read back from its last eight bytes, whatever bytes the
-- timestamp has.
pub split-row_key :
    (ns : ℕ) (key : Bytes) (ts : ℕ)
    → ts ≤ max_ts
    → split_version_key (row_key ns key ts) ≡ ok (key, ts)
unfolding split_version_key
split-row_key ns key ts h =
    let body = key ++ sep ∷ be 8 ts in
    let size : length body ≡ length key + 9 =
      omega (arith, length-append key (sep ∷ be 8 ts), length-be 8 ts) in
    let at_times : length body - 8 ≡ suc (length key) = omega arith in
    let at_key : length body - 9 ≡ length key = omega arith in
    let times = ap (λ n. drop n body) at_times ∙ drop_append_suc key sep (be 8 ts) in
    let user = ap (λ n. take n body) at_key ∙ take_append key (sep ∷ be 8 ts) in
    ap split_version_key (row_key_split ns key ts)
    ∙ split_body ns body key ts (omega arith) user (ap of_be times ∙ of_be-be_ts ts h)

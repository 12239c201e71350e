-- ===== src/Storage/Mvcc/Latest.antt =====
-- What the `get_newest_lock` and `get_latest_...` methods return: the newest row of the key.
use oxide_db.Base.{
  ℕ, ◌+◌, ◌≡◌, ap, ◌∙◌, ◌⊎◌, inl, inr, false, none, some, [], ◌∷◌, arith, length, length-append,
  drop, Option-cases,
}
use oxide_db.Base.Bytes.{Bytes}
use oxide_db.Storage.Engine.{Engine}
use oxide_db.Storage.Keyspace.{
  ok, ◌>>=◌, version_ns, write_ns, lock_ns, sep, max_ts, of_be, check_user_key, contains, prefix,
}
use oxide_db.Storage.Mvcc.{
  newest_row, decode_version, decode_lock, get_latest_version, get_latest_write, get_newest_lock,
}
use oxide_db.Storage.Mvcc.Keys.{row_key, IsKeyspace, of_be-row_key, split-row_key}
use oxide_db.Storage.Mvcc.Newest.{Newest, NoRow, upper-Closes, Newest-some, Newest-none}
use oxide_db.Storage.Mvcc.Types.{MsgPack}

module _ (key : Bytes) (e : Engine) (legal : contains sep key ≡ false) (k : IsKeyspace e) where
  -- the newest row of `key` in a namespace, if there is one
  newest_row_cases :
      (ns : ℕ)
      → ((newest_row ns key e ≡ none) × NoRow ns key max_ts e)
        ⊎ ((ts : ℕ) × (raw : Bytes) × (newest_row ns key e ≡ some (row_key ns key ts, raw))
            × Newest ns key max_ts e ts raw)
  newest_row_cases ns = elim (Option-cases (newest_row ns key e)) [
    | inl h ↦ inl (h, Newest-none e legal k (upper-Closes ns key max_ts (omega arith)) h)
    | inr (row, h) ↦
        let (ts, same, newest) =
          Newest-some e legal k (upper-Closes ns key max_ts (omega arith)) h in
        inr (ts, row.1, h ∙ ap (λ i. some (i, row.1)) same, newest)
  ]

  pub get_newest_lock_cases :
      (msgpack : MsgPack)
      → ((get_newest_lock msgpack key e ≡ ok none) × NoRow lock_ns key max_ts e)
        ⊎ ((ts : ℕ) × (raw : Bytes) × (get_newest_lock msgpack key e
              ≡ (decode_lock msgpack raw key ts >>= λ l. ok (some l)))
            × Newest lock_ns key max_ts e ts raw)
  unfolding get_newest_lock check_user_key
  get_newest_lock_cases msgpack = elim (newest_row_cases lock_ns) [
    | inl (h, absent) ↦ inl (ground arith, absent)
    | inr (ts, raw, h, n) ↦ inr (ts, raw, ground (arith, split-row_key lock_ns key ts), n)
  ]

  pub get_latest_version_cases :
      ((get_latest_version key e ≡ ok none) × NoRow version_ns key max_ts e)
      ⊎ ((ts : ℕ) × (raw : Bytes) × (get_latest_version key e ≡ ok (decode_version raw ts))
          × Newest version_ns key max_ts e ts raw)
  unfolding get_latest_version check_user_key
  get_latest_version_cases = elim (newest_row_cases version_ns) [
    | inl (h, absent) ↦ inl (ground arith, absent)
    | inr (ts, raw, h, n) ↦ inr (ts, raw, ground (arith, split-row_key version_ns key ts), n)
  ]

  pub get_latest_write_cases :
      ((get_latest_write key e ≡ ok none) × NoRow write_ns key max_ts e)
      ⊎ ((ts : ℕ) × (raw : Bytes) × (get_latest_write key e
            ≡ ok (some (record { start_ts = of_be raw; commit_ts = ts })))
          × Newest write_ns key max_ts e ts raw)
  unfolding get_latest_write check_user_key
  get_latest_write_cases = elim (newest_row_cases write_ns) [
    | inl (h, absent) ↦ inl (ground arith, absent)
    | inr (ts, raw, h, n) ↦
        let size : 1 + length key + 1 ≡ length (prefix write_ns key) =
          omega (arith, length-append key (sep ∷ [])) in
        inr (
          ts,
          raw,
          rw (legal, h)
              (ap (λ c. ok (some (record { start_ts = of_be raw; commit_ts = c })))
                (ap (λ n. of_be (drop n (row_key write_ns key ts))) size
                  ∙ of_be-row_key write_ns key ts n.fits)),
          n,
        )
  ]

-- ===== src/Storage/Mvcc.antt =====
-- oxidedb/storage/mvcc.py: `MVCCStorage`, versions, locks and write records in one engine. A method
-- that raises has written nothing. Rows of locks and snapshots are msgpack, a parameter.
pub mod Types
pub mod Scan
pub mod Keys
pub mod Newest
pub mod Writes
pub mod Snapshot
pub mod Dump
pub mod Points
pub mod Latest
pub mod Sound
use oxide_db.Base.{
  ℕ, zero, suc, ◌+◌, ◌≡◌, Bool, true, false, Option, none, some, List, [], ◌∷◌, ◌++◌, ltb, ◌==◌,
  if◌then◌else◌, length, drop, last?,
}
use oxide_db.Base.Bytes.{Bytes, bytes_eq}
use oxide_db.Storage.Engine
use oxide_db.Storage.Engine.{Engine}
use oxide_db.Storage.Keyspace.{
  Result, ok, raise, value_error, ◌>>=◌, ◌>>◌, version_ns, write_ns, lock_ns, all_start, all_end,
  max_ts, of_be, ts_bytes, check_user_key, prefix, version_prefix, key_upper_bound,
  split_version_key,
}
use Types.{MvccRecord, WriteRecord, LockStatus, LockFields, Lock, MsgPack}

-- `_decode_version`
unfoldable pub decode_version : Bytes → ℕ → Option MvccRecord
decode_version [] timestamp = none
decode_version (flag ∷ payload) timestamp =
    some (record { value = payload; timestamp = timestamp; deleted = flag == 0 })

-- `_get_version_at`
unfoldable pub get_version_at : Bytes → ℕ → Engine → Result (Option MvccRecord)
get_version_at user_key timestamp e = do
  key ← check_user_key user_key
  end ←
      (if ltb timestamp max_ts
        then (do next ← ts_bytes (timestamp + 1); ok (version_prefix key ++ next))
        else ok (key_upper_bound version_ns key))
  ok (elim (last? (Engine.scan (version_prefix key) end e)) [
    | none ↦ none
    | some (last_key, last_value) ↦
        decode_version last_value (of_be (drop (length (version_prefix key)) last_key))
  ])

abbrev pub visible : Option MvccRecord → Option MvccRecord
visible none = none
visible (some r) = if r.deleted then none else some r

unfoldable pub get_version : Bytes → ℕ → Engine → Result (Option MvccRecord)
get_version key timestamp e = do found ← get_version_at key timestamp e; ok (visible found)

-- `MVCCStorage.get`
unfoldable pub get : Bytes → ℕ → Engine → Result (Option Bytes)
get key timestamp e = do
  version ← get_version key timestamp e
  ok (elim version [ none ↦ none | some r ↦ some r.value ])

unfoldable pub set : Bytes → Bytes → ℕ → Engine → Result Engine
set user_key value timestamp e = do
  key ← check_user_key user_key
  ts ← ts_bytes timestamp
  ok (Engine.put (version_prefix key ++ ts) (1 ∷ value) e)

unfoldable pub delete : Bytes → ℕ → Engine → Result Engine
delete user_key timestamp e = do
  key ← check_user_key user_key
  ts ← ts_bytes timestamp
  ok (Engine.put (version_prefix key ++ ts) (0 ∷ []) e)

-- The last row of everything that belongs to `key` in a namespace, with its timestamp.
abbrev pub newest_row : ℕ → Bytes → Engine → Option (Bytes × Bytes)
newest_row ns key e = last? (Engine.scan (prefix ns key) (key_upper_bound ns key) e)

unfoldable pub get_latest_version : Bytes → Engine → Result (Option MvccRecord)
get_latest_version user_key e = do
  key ← check_user_key user_key
  elim (newest_row version_ns key e) [
    | none ↦ ok none
    | some (row_key, raw) ↦ do
      (_, version_ts) ← split_version_key row_key
      ok (decode_version raw version_ts)
  ]

unfoldable pub get_latest_write : Bytes → Engine → Result (Option WriteRecord)
get_latest_write user_key e = do
  key ← check_user_key user_key
  ok (elim (newest_row write_ns key e) [
    | none ↦ none
    | some (row_key, raw) ↦
        some
          (record { start_ts = of_be raw; commit_ts = of_be (drop (1 + length key + 1) row_key) })
  ])

unfoldable pub write_write_record : Bytes → ℕ → ℕ → Engine → Result Engine
write_write_record user_key start_ts commit_ts e = do
  key ← check_user_key user_key
  at ← ts_bytes commit_ts
  from ← ts_bytes start_ts
  ok (Engine.put (prefix write_ns key ++ at) from e)

module _ (codec : MsgPack) where
  open codec use {pack_lock, unpack_lock, pack_rows, unpack_rows}

  unfoldable pub put_lock : Bytes → ℕ → LockStatus → Bytes → ℕ → Bytes → Engine → Result Engine
  put_lock user_key start_ts status primary_key lock_time value e = do
    key ← check_user_key user_key
    ts ← ts_bytes start_ts
    ok (
        Engine.put (prefix lock_ns key ++ ts)
          (pack_lock (record {
            status = status;
            primary_key = primary_key;
            lock_time = lock_time;
            value = value;
          }))
          e)

  -- `_decode_lock`, on a row that is there
  unfoldable pub decode_lock : Bytes → Bytes → ℕ → Result Lock
  decode_lock raw key start_ts = do
    fields ← unpack_lock raw
    ok (record { fields = fields; key = key; start_ts = start_ts })

  unfoldable pub get_lock : Bytes → ℕ → Engine → Result (Option Lock)
  get_lock user_key start_ts e = do
    key ← check_user_key user_key
    ts ← ts_bytes start_ts
    elim (Engine.get (prefix lock_ns key ++ ts) e) [
      | none ↦ ok none
      | some raw ↦ do lock ← decode_lock raw key start_ts; ok (some lock)
    ]

  unfoldable pub get_newest_lock : Bytes → Engine → Result (Option Lock)
  get_newest_lock user_key e = do
    key ← check_user_key user_key
    elim (newest_row lock_ns key e) [
      | none ↦ ok none
      | some (row_key, raw) ↦ do
        (_, start_ts) ← split_version_key row_key
        lock ← decode_lock raw key start_ts
        ok (some lock)
    ]

  -- the loop of `iter_locks`
  unfoldable pub locks_of : List (Bytes × Bytes) → Result (List (Bytes × Lock))
  locks_of [] = ok []
  locks_of ((row_key, raw) ∷ rows) =
      let rest = locks_of rows in
      do
        (key, start_ts) ← split_version_key row_key
        lock ← decode_lock raw key start_ts
        locks ← rest
        ok ((key, lock) ∷ locks)

  unfoldable pub iter_locks : Engine → Result (List (Bytes × Lock))
  iter_locks e = locks_of (Engine.scan (lock_ns ∷ []) all_end e)

  unfoldable pub set_write_intent : Bytes → Bytes → ℕ → ℕ → Engine → Result Engine
  set_write_intent key value start_ts now e =
      put_lock key start_ts LockStatus.locked key now value e

  unfoldable pub get_write_intent : Bytes → ℕ → Engine → Result (Option Bytes)
  get_write_intent key start_ts e = do
    lock ← get_lock key start_ts e
    ok (elim lock [ none ↦ none | some l ↦ some l.value ])

  unfoldable pub dump : Engine → Bytes
  dump e = pack_rows (Engine.scan all_start all_end e)

  -- `unpackb(data) if data else []` comes first, so that data which is refused changes nothing
  unfoldable pub load : Bytes → Engine → Result Engine
  load [] e = ok (Engine.put_batch [] (Engine.delete_range all_start all_end e))
  load (b ∷ rest) e = do
    rows ← unpack_rows (b ∷ rest)
    ok (Engine.put_batch rows (Engine.delete_range all_start all_end e))

unfoldable pub remove_lock : Bytes → ℕ → Engine → Result Engine
remove_lock user_key start_ts e = do
  key ← check_user_key user_key
  ts ← ts_bytes start_ts
  ok (Engine.delete (prefix lock_ns key ++ ts) e)

unfoldable pub clear : Engine → Engine
clear e = Engine.delete_range all_start all_end e

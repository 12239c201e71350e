-- ===== src/Storage/Mvcc/Writes.antt =====
-- What the writes of the storage do to the engine: they put or drop one row, and every key that
-- they leave is one of the storage's.
use oxide_db.Base.{ℕ, ◌≤◌, ◌≡◌, false, [], ◌∷◌, arith, Bool-cases, inl, inr}
use oxide_db.Base.Bytes.{Bytes, bytes_eq, bytes_eq_iff}
use oxide_db.Storage.Engine
use oxide_db.Storage.Engine.{Engine}
use oxide_db.Storage.Engine.Laws.{get-put, get-delete}
use oxide_db.Storage.Keyspace.{
  ok, version_ns, write_ns, lock_ns, sep, max_ts, be, ts_bytes, check_user_key, contains,
}
use oxide_db.Storage.Mvcc.{set, delete, put_lock, remove_lock, write_write_record}
use oxide_db.Storage.Mvcc.Types.{LockFields, MsgPack}
use oxide_db.Storage.Mvcc.Keys.{row_key, IsKeyspace}

-- the two checks that every write makes
pub record Legal (key : Bytes) (ts : ℕ) : Type 0 where
  pub legal : contains sep key ≡ false
  pub fits : ts ≤ max_ts

pub set_lem :
    (key value : Bytes) (ts : ℕ) (e : Engine) {e' : Engine}
    → set key value ts e ≡ ok e'
    → Legal key ts × (e' ≡ Engine.put (row_key version_ns key ts) (1 ∷ value) e)
unfolding set check_user_key ts_bytes
set_lem key value ts e h = ground arith

pub delete_lem :
    (key : Bytes) (ts : ℕ) (e : Engine) {e' : Engine}
    → delete key ts e ≡ ok e'
    → Legal key ts × (e' ≡ Engine.put (row_key version_ns key ts) (0 ∷ []) e)
unfolding delete check_user_key ts_bytes
delete_lem key ts e h = ground arith

pub write_write_record_lem :
    (key : Bytes) (start_ts commit_ts : ℕ) (e : Engine) {e' : Engine}
    → write_write_record key start_ts commit_ts e ≡ ok e'
    → Legal key commit_ts
      × (start_ts ≤ max_ts)
      × (e' ≡ Engine.put (row_key write_ns key commit_ts) (be 8 start_ts) e)
unfolding write_write_record check_user_key ts_bytes
write_write_record_lem key start_ts commit_ts e h = ground arith

pub put_lock_lem :
    (codec : MsgPack) (key : Bytes) (start_ts : ℕ) (f : LockFields) (e : Engine) {e' : Engine}
    → put_lock codec key start_ts f.status f.primary_key f.lock_time f.value e ≡ ok e'
    → Legal key start_ts × (e' ≡ Engine.put (row_key lock_ns key start_ts) (codec.pack_lock f) e)
unfolding put_lock check_user_key ts_bytes
put_lock_lem codec key start_ts f e h = ground arith

pub remove_lock_lem :
    (key : Bytes) (start_ts : ℕ) (e : Engine) {e' : Engine}
    → remove_lock key start_ts e ≡ ok e'
    → Legal key start_ts × (e' ≡ Engine.delete (row_key lock_ns key start_ts) e)
unfolding remove_lock check_user_key ts_bytes
remove_lock_lem key start_ts e h = ground arith

pub put-IsKeyspace :
    (ns : ℕ) (key : Bytes) (ts : ℕ) (v : Bytes) (e : Engine)
    → Legal key ts
    → IsKeyspace e
    → IsKeyspace (Engine.put (row_key ns key ts) v e)
put-IsKeyspace ns key ts v e l h = record {
  rows = λ k there. elim (Bool-cases (bytes_eq k (row_key ns key ts))) [
    | inl same ↦ record {
      ns = ns;
      user_key = key;
      ts = ts;
      legal = l.legal;
      fits = l.fits;
      layout = (bytes_eq_iff k (row_key ns key ts)).0 same;
    }
    | inr other ↦ h.rows k (ground (arith, get-put (row_key ns key ts) k v e))
  ];
}

pub delete-IsKeyspace : (k : Bytes) (e : Engine) → IsKeyspace e → IsKeyspace (Engine.delete k e)
delete-IsKeyspace k e h = record { rows = λ j there. h.rows j (ground (arith, get-delete k j e)) }

-- every write of the storage keeps the layout of its keys
module _ {e e' : Engine} (keyspace : IsKeyspace e) where
  pub set-IsKeyspace : (key value : Bytes) (ts : ℕ) → set key value ts e ≡ ok e' → IsKeyspace e'
  set-IsKeyspace key value ts h =
      let (l, eq) = set_lem key value ts e h in
      rw eq (put-IsKeyspace version_ns key ts (1 ∷ value) e l keyspace)

  pub delete_version-IsKeyspace : (key : Bytes) (ts : ℕ) → delete key ts e ≡ ok e' → IsKeyspace e'
  delete_version-IsKeyspace key ts h =
      let (l, eq) = delete_lem key ts e h in
      rw eq (put-IsKeyspace version_ns key ts (0 ∷ []) e l keyspace)

  pub write_write_record-IsKeyspace :
      (key : Bytes) (start_ts commit_ts : ℕ)
      → write_write_record key start_ts commit_ts e ≡ ok e'
      → IsKeyspace e'
  write_write_record-IsKeyspace key start_ts commit_ts h =
      let (l, _, eq) = write_write_record_lem key start_ts commit_ts e h in
      rw eq (put-IsKeyspace write_ns key commit_ts (be 8 start_ts) e l keyspace)

  pub put_lock-IsKeyspace :
      (codec : MsgPack) (key : Bytes) (start_ts : ℕ) (f : LockFields)
      → put_lock codec key start_ts f.status f.primary_key f.lock_time f.value e ≡ ok e'
      → IsKeyspace e'
  put_lock-IsKeyspace codec key start_ts f h =
      let (l, eq) = put_lock_lem codec key start_ts f e h in
      rw eq (put-IsKeyspace lock_ns key start_ts (codec.pack_lock f) e l keyspace)

  pub remove_lock-IsKeyspace :
      (key : Bytes) (start_ts : ℕ) → remove_lock key start_ts e ≡ ok e' → IsKeyspace e'
  remove_lock-IsKeyspace key start_ts h =
      let (_, eq) = remove_lock_lem key start_ts e h in
      rw eq (delete-IsKeyspace (row_key lock_ns key start_ts) e keyspace)

-- on a legal key at a 64-bit timestamp no write raises
module _ (key : Bytes) (ts : ℕ) (e : Engine) (l : Legal key ts) where
  pub set-eq :
      (value : Bytes)
      → set key value ts e ≡ ok (Engine.put (row_key version_ns key ts) (1 ∷ value) e)
  unfolding set check_user_key ts_bytes
  set-eq value = ground (arith, l.legal, l.fits)

  pub write_write_record-eq :
      (start_ts : ℕ)
      → start_ts ≤ max_ts
      → write_write_record key start_ts ts e
        ≡ ok (Engine.put (row_key write_ns key ts) (be 8 start_ts) e)
  unfolding write_write_record check_user_key ts_bytes
  write_write_record-eq start_ts h = ground (arith, l.legal, l.fits)

  pub put_lock-eq :
      (codec : MsgPack) (f : LockFields)
      → put_lock codec key ts f.status f.primary_key f.lock_time f.value e
        ≡ ok (Engine.put (row_key lock_ns key ts) (codec.pack_lock f) e)
  unfolding put_lock check_user_key ts_bytes
  put_lock-eq codec f = ground (arith, l.legal, l.fits)

  pub remove_lock-eq : remove_lock key ts e ≡ ok (Engine.delete (row_key lock_ns key ts) e)
  unfolding remove_lock check_user_key ts_bytes
  remove_lock-eq = ground (arith, l.legal, l.fits)

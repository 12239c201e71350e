-- ===== src/Storage/Mvcc/Types.antt =====
-- oxidedb/storage/mvcc.py: the records of the storage, and msgpack as it is used there.
use oxide_db.Base.{ℕ, Bool, ◌≡◌, ◌≢◌, List, []}
use oxide_db.Base.Bytes.{Bytes}
use oxide_db.Storage.Keyspace.{Result, ok}

pub record MvccRecord : Type 0 where
  pub value : Bytes
  pub timestamp : ℕ
  pub deleted : Bool

pub record WriteRecord : Type 0 where
  pub start_ts : ℕ
  pub commit_ts : ℕ

pub data LockStatus : Type 0 where
  locked committed aborted : LockStatus

-- what `put_lock` packs
pub record LockFields : Type 0 where
  pub status : LockStatus
  pub primary_key : Bytes
  pub lock_time : ℕ
  pub value : Bytes

-- what `_decode_lock` returns
pub record Lock : Type 0 where
  pub fields : LockFields
  pub open fields use *
  pub key : Bytes
  pub start_ts : ℕ

-- msgpack: unpacking undoes packing, and a packed list has a header byte at least
pub record MsgPack : Type 0 where
  pub pack_lock : LockFields → Bytes
  pub unpack_lock : Bytes → Result LockFields
  pub unpack_pack_lock : (f : LockFields) → unpack_lock (pack_lock f) ≡ ok f
  pub pack_rows : List (Bytes × Bytes) → Bytes
  pub unpack_rows : Bytes → Result (List (Bytes × Bytes))
  pub unpack_pack_rows : (r : List (Bytes × Bytes)) → unpack_rows (pack_rows r) ≡ ok r
  pub pack_rows_nonempty : (r : List (Bytes × Bytes)) → pack_rows r ≢ []

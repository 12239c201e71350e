-- ===== src/Raft/StateMachine.antt =====
-- oxidedb/raft/state_machine.py: the commands, their results, and `MVCCStateMachine`.
pub mod Actions
pub mod Reads
pub mod Keeps
pub mod Commands
pub mod Prewrite
pub mod Conflicts
pub mod Invariant
pub mod Commit
pub mod Transaction
pub mod Snapshots
use oxide_db.Base.{
  ℕ, ◌+◌, Bool, true, false, ◌||◌, ◌&&◌, not, Option, none, some, List, [], ◌∷◌, map, ltb, ◌==◌,
  if◌then◌else◌,
}
use oxide_db.Base.Bytes.{Bytes, bytes_lt, bytes_eq}
use oxide_db.Raft.ErrorCode
use oxide_db.Storage.Engine.{Engine, in_range}
use oxide_db.Storage.Keyspace.{Error, Result, ok, raise}
use oxide_db.Storage.Mvcc
use oxide_db.Storage.Mvcc.Types.{MvccRecord, WriteRecord, LockStatus, Lock, MsgPack}
use Actions.{Machine, Exec, ◌>>=◌, ◌>>◌, pure, ask, write, advance}

-- A command as `msgpack.unpackb` hands it over. The optional fields are those that `apply` reads
-- with a default or tests against None; `unknown` is every other type.
pub data Command : Type 0 where
  set : Bytes → Bytes → Option ℕ → Option ℕ → Command
  delete : Bytes → Option ℕ → Command
  prewrite : Bytes → Bytes → ℕ → Bytes → Command
  commit : Bytes → ℕ → ℕ → Command
  rollback : Bytes → ℕ → Command
  clean_lock : Bytes → Option ℕ → Command
  unknown : Command

-- what msgpack does with a command, which it may refuse
pub record CommandCodec : Type 0 where
  pub unpack : Bytes → Option Command

pub record ApplyResult : Type 0 where
  pub success : Bool
  pub error_code : Option ℕ
  pub payload : Option Bytes
  pub index : Option ℕ

abbrev pub succeeded : ApplyResult
succeeded = record {
  success = true;
  error_code = some ErrorCode.success;
  payload = none;
  index = none;
}

abbrev pub failure : ℕ → ApplyResult
failure code = record { success = false; error_code = some code; payload = none; index = none }

-- `kind in DATA_COMMANDS`
unfoldable pub is_data_command : Command → Bool
is_data_command (set _ _ _ _) = true
is_data_command (delete _ _) = true
is_data_command (prewrite _ _ _ _) = true
is_data_command _ = false

unfoldable pub writes_new_data : CommandCodec → Bytes → Bool
unfolding is_data_command
writes_new_data codec command = elim (codec.unpack command) [
  | none ↦ true
  | some c ↦ is_data_command c
]

-- `cmd.get("timestamp", self._last_applied_timestamp + 1)`
abbrev timestamp_or_next : Option ℕ → Machine → ℕ
timestamp_or_next none m = m.last_applied_timestamp + 1
timestamp_or_next (some t) m = t

abbrev is_locked : LockStatus → Bool
is_locked LockStatus.locked = true
is_locked _ = false

abbrev pub holds : Option Lock → Bool
holds none = false
holds (some l) = is_locked l.status

abbrev pub written_after : ℕ → Option WriteRecord → Bool
written_after start_ts none = false
written_after start_ts (some w) = ltb start_ts w.commit_ts

abbrev pub version_after : ℕ → Option MvccRecord → Bool
version_after start_ts none = false
version_after start_ts (some v) = ltb start_ts v.timestamp

-- `if start_ts is not None: write_write_record(...)`
unfoldable pub record_start : Bytes → Option ℕ → ℕ → Exec (Unit {0})
record_start key none timestamp = pure tt
record_start key (some start_ts) timestamp = write (Mvcc.write_write_record key start_ts timestamp)

-- the body of `_apply_set`, where the timestamp is known
unfoldable pub set_at : Bytes → Bytes → Option ℕ → ℕ → Exec ApplyResult
unfolding ◌>>=◌ write advance record_start
set_at key value start_ts timestamp = do
  write (Mvcc.set key value timestamp)
  record_start key start_ts timestamp
  advance timestamp
  pure succeeded

unfoldable pub apply_set : Bytes → Bytes → Option ℕ → Option ℕ → Exec ApplyResult
unfolding set_at
apply_set key value given start_ts m = set_at key value start_ts (timestamp_or_next given m) m

-- the body of `_apply_delete`, where the timestamp is known
unfoldable pub delete_at : Bytes → ℕ → Exec ApplyResult
unfolding ◌>>=◌ write advance
delete_at key timestamp = do write (Mvcc.delete key timestamp); advance timestamp; pure succeeded

unfoldable pub apply_delete : Bytes → Option ℕ → Exec ApplyResult
unfolding delete_at
apply_delete key given m = delete_at key (timestamp_or_next given m) m

-- the refusal where the lock of this transaction is not there, by the lock that is
abbrev lock_missing : ApplyResult → Option Lock → ApplyResult
lock_missing none_left none = none_left
lock_missing none_left (some other) = failure ErrorCode.err_timestamp_mismatch

-- the commit of a lock that is there
unfoldable pub publish : Bytes → ℕ → ℕ → Lock → Exec ApplyResult
unfolding ◌>>=◌ write advance
publish key start_ts commit_ts lock =
    if not (is_locked lock.status) then pure (failure ErrorCode.err_lock_status_invalid) else do
      write (Mvcc.set key lock.value commit_ts)
      write (Mvcc.write_write_record key start_ts commit_ts)
      write (Mvcc.remove_lock key start_ts)
      advance commit_ts
      pure succeeded

-- `start_ts is None or lock["start_ts"] == start_ts`
abbrev pub names : Option ℕ → ℕ → Bool
names none lock_ts = true
names (some start_ts) lock_ts = lock_ts == start_ts

-- `_apply_clean_lock`, by the newest lock of the key
unfoldable pub clean_lock_found : Bytes → Option ℕ → Option Lock → Exec ApplyResult
unfolding ◌>>=◌ write
clean_lock_found key start_ts none = pure succeeded
clean_lock_found key start_ts (some lock) =
    if names start_ts lock.start_ts
    then (do write (Mvcc.remove_lock key lock.start_ts); pure succeeded)
    else pure succeeded

module _ (msgpack : MsgPack) where
  unfoldable pub apply_prewrite : ℕ → Bytes → Bytes → ℕ → Bytes → Exec ApplyResult
  unfolding ◌>>=◌ write
  apply_prewrite now key value start_ts primary_key = do
    lock ← ask (Mvcc.get_newest_lock msgpack key)
    if holds lock then pure (failure ErrorCode.err_locked) else do
      existing_write ← ask (Mvcc.get_latest_write key)
      if written_after start_ts existing_write
          then pure (failure ErrorCode.err_write_conflict)
          else do
            existing_version ← ask (Mvcc.get_latest_version key)
            if version_after start_ts existing_version
                then pure (failure ErrorCode.err_write_conflict)
                else do
                  write (Mvcc.put_lock msgpack key start_ts LockStatus.locked primary_key now value)
                  pure succeeded

  -- `_apply_commit`, by the lock of this transaction
  unfoldable pub commit_lock : Bytes → ℕ → ℕ → Option Lock → Exec ApplyResult
  unfolding publish
  commit_lock key start_ts commit_ts none = do
    newest ← ask (Mvcc.get_newest_lock msgpack key)
    pure (lock_missing (failure ErrorCode.err_no_lock) newest)
  commit_lock key start_ts commit_ts (some lock) = publish key start_ts commit_ts lock

  unfoldable pub apply_commit : Bytes → ℕ → ℕ → Exec ApplyResult
  unfolding commit_lock
  apply_commit key start_ts commit_ts = do
    lock ← ask (Mvcc.get_lock msgpack key start_ts)
    commit_lock key start_ts commit_ts lock

  -- `_apply_rollback`, by the lock of this transaction
  unfoldable pub rollback_lock : Bytes → ℕ → Option Lock → Exec ApplyResult
  unfolding ◌>>=◌ write
  rollback_lock key start_ts none = do
    newest ← ask (Mvcc.get_newest_lock msgpack key)
    pure (lock_missing succeeded newest)
  rollback_lock key start_ts (some lock) = do write (Mvcc.remove_lock key start_ts); pure succeeded

  unfoldable pub apply_rollback : Bytes → ℕ → Exec ApplyResult
  unfolding rollback_lock
  apply_rollback key start_ts = do
    lock ← ask (Mvcc.get_lock msgpack key start_ts)
    rollback_lock key start_ts lock

  unfoldable pub apply_clean_lock : Bytes → Option ℕ → Exec ApplyResult
  unfolding clean_lock_found
  apply_clean_lock key start_ts = do
    lock ← ask (Mvcc.get_newest_lock msgpack key)
    clean_lock_found key start_ts lock

  -- the `if`/`elif` of `apply`; `now` is what `time.time()` answers
  unfoldable pub run_command : ℕ → Command → Exec ApplyResult
  unfolding apply_set apply_delete apply_prewrite apply_commit apply_rollback apply_clean_lock
  run_command now (set key value timestamp start_ts) = apply_set key value timestamp start_ts
  run_command now (delete key timestamp) = apply_delete key timestamp
  run_command now (prewrite key value start_ts primary_key) =
      apply_prewrite now key value start_ts primary_key
  run_command now (commit key start_ts commit_ts) = apply_commit key start_ts commit_ts
  run_command now (rollback key start_ts) = apply_rollback key start_ts
  run_command now (clean_lock key start_ts) = apply_clean_lock key start_ts
  run_command now unknown = pure (failure ErrorCode.err_unknown)

  abbrev pub caught : Result ApplyResult → ApplyResult
  caught (ok r) = r
  caught (raise x) = failure ErrorCode.err_apply_error

  -- `apply`, on a command that is unpacked
  unfoldable pub apply_command : ℕ → Command → Machine → ApplyResult × Machine
  apply_command now c m = let (r, m') = run_command now c m in (caught r, m')

  unfoldable pub apply : CommandCodec → ℕ → Bytes → Machine → ApplyResult × Machine
  apply codec now command m = elim (codec.unpack command) [
    | none ↦ (failure ErrorCode.err_apply_error, m)
    | some c ↦ apply_command now c m
  ]

-- ===== src/Transaction/LockResolver.antt =====
-- oxidedb/transaction/lock_resolver.py: what became of the transaction that left a lock. A client
-- is the state machine of the leader it reaches, none where there is no leader; `now` is the
-- clock, in the unit of the TTL.
pub mod Committed
use oxide_db.Base.{
  ℕ, ◌+◌, ◌-◌, Bool, true, false, not, ◌&&◌, Option, none, some, ltb, ◌==◌, if◌then◌else◌,
}
use oxide_db.Base.Bytes.{Bytes}
use oxide_db.Storage.Keyspace.{Result, ok, raise}
use oxide_db.Storage.Mvcc.Types.{WriteRecord, Lock, MsgPack}
use oxide_db.Raft.StateMachine.{ApplyResult, Command, apply_command}
use oxide_db.Raft.StateMachine.Actions.{Machine}
use oxide_db.Raft.StateMachine.Reads.{get_write_record, get_lock_status}

pub data PrimaryStatus : Type 0 where
  committed pending aborted unknown : PrimaryStatus

-- `max(0.0, self._lock_ttl - (time.time() - lock["lock_time"]))`
unfoldable pub remaining_ttl : ℕ → ℕ → Lock → ℕ
remaining_ttl lock_ttl now lock = lock_ttl + lock.lock_time - now

-- the second question of `primary_status`, of the lock of the primary key
abbrev pub status_of_lock : ℕ → ℕ → ℕ → Result (Option Lock) → Result PrimaryStatus
status_of_lock lock_ttl now start_ts (raise x) = raise x
status_of_lock lock_ttl now start_ts (ok none) = ok PrimaryStatus.aborted
status_of_lock lock_ttl now start_ts (ok (some lock)) =
    if (lock.start_ts == start_ts) && ltb 0 (remaining_ttl lock_ttl now lock)
    then ok PrimaryStatus.pending
    else ok PrimaryStatus.aborted

-- `write_record is not None and write_record["start_ts"] == start_ts`
abbrev pub wrote : ℕ → Option WriteRecord → Bool
wrote start_ts none = false
wrote start_ts (some w) = w.start_ts == start_ts

abbrev pub status_of_write :
    ℕ → Result PrimaryStatus → Result (Option WriteRecord) → Result PrimaryStatus
status_of_write start_ts otherwise (raise x) = raise x
status_of_write start_ts otherwise (ok w) =
    if wrote start_ts w then ok PrimaryStatus.committed else otherwise

-- the timestamp of the write record, if it is of this transaction
abbrev pub commit_of : ℕ → Result (Option WriteRecord) → Result (Option ℕ)
commit_of start_ts (raise x) = raise x
commit_of start_ts (ok none) = ok none
commit_of start_ts (ok (some w)) = if w.start_ts == start_ts then ok (some w.commit_ts) else ok none

unfoldable pub primary_commit_ts : Option Machine → Bytes → ℕ → Result (Option ℕ)
unfolding get_write_record
primary_commit_ts none primary_key start_ts = ok none
primary_commit_ts (some m) primary_key start_ts =
    commit_of start_ts (get_write_record primary_key m)

module _ (msgpack : MsgPack) (lock_ttl now : ℕ) where
  unfoldable pub primary_status : Option Machine → Bytes → ℕ → Result PrimaryStatus
  unfolding get_write_record get_lock_status
  primary_status none primary_key start_ts = ok PrimaryStatus.unknown
  primary_status (some m) primary_key start_ts =
      status_of_write start_ts
        (status_of_lock lock_ttl now start_ts (get_lock_status msgpack primary_key m))
        (get_write_record primary_key m)

  -- `current is None or current["start_ts"] != start_ts`
  abbrev settled : ℕ → Result (Option Lock) → Result Bool
  settled start_ts (raise x) = raise x
  settled start_ts (ok none) = ok true
  settled start_ts (ok (some lock)) = ok (not (lock.start_ts == start_ts))

  -- `_settle`, on the machine of the lock's shard, where the command is committed there
  unfoldable pub settle : Bytes → ℕ → Command → Machine → Result Bool × Machine
  settle key start_ts command m =
      let (result, after) = apply_command msgpack now command m in
      if result.success
      then (ok true, after)
      else (settled start_ts (get_lock_status msgpack key after), after)

  abbrev pub roll_forward : Bytes → ℕ → Result (Option ℕ) → Machine → Result Bool × Machine
  roll_forward key start_ts (raise x) m = (raise x, m)
  roll_forward key start_ts (ok none) m = (ok false, m)
  roll_forward key start_ts (ok (some commit_ts)) m =
      settle key start_ts (Command.commit key start_ts commit_ts) m

  abbrev pub resolve_by :
      Result PrimaryStatus → Option Machine → Bytes → Lock → Machine → Result Bool × Machine
  resolve_by (raise x) primary key lock m = (raise x, m)
  resolve_by (ok PrimaryStatus.committed) primary key lock m =
      roll_forward key lock.start_ts (primary_commit_ts primary lock.primary_key lock.start_ts) m
  resolve_by (ok PrimaryStatus.aborted) primary key lock m =
      settle key lock.start_ts (Command.rollback key lock.start_ts) m
  resolve_by (ok PrimaryStatus.pending) primary key lock m = (ok false, m)
  resolve_by (ok PrimaryStatus.unknown) primary key lock m = (ok false, m)

  -- `resolve_lock`, of a lock that the caller has read
  unfoldable pub resolve_lock : Option Machine → Bytes → Lock → Machine → Result Bool × Machine
  unfolding settle primary_status primary_commit_ts
  resolve_lock primary key lock m =
      resolve_by (primary_status primary lock.primary_key lock.start_ts) primary key lock m

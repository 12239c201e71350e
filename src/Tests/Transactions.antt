-- ===== src/Tests/Transactions.antt =====
-- The commands of the state machine at concrete inputs.
use oxide_db.Base.{ℕ, ◌≤◌, ◌≡◌, ◌↔◌, refl, true, false, none, some, [], ◌∷◌, arith, is_some}
use oxide_db.Base.Bytes.{Bytes, bytes_eq}
use oxide_db.Raft.ErrorCode
use oxide_db.Raft.StateMachine.{
  CommandCodec, Command, apply_prewrite, apply_commit, apply, succeeded, failure,
}
use oxide_db.Raft.StateMachine.Actions.{Machine}
use oxide_db.Raft.StateMachine.Conflicts.{prewrite_iff, prewrite_locked}
use oxide_db.Raft.StateMachine.Invariant.{apply-Sound}
use oxide_db.Raft.StateMachine.Prewrite.{IsFree}
use oxide_db.Raft.StateMachine.Transaction.{prewrite-commit}
use oxide_db.Storage.Engine
use oxide_db.Storage.Engine.{Engine}
use oxide_db.Storage.Keyspace.{ok, lock_ns, sep, contains, be}
use oxide_db.Storage.Mvcc.{get_version}
use oxide_db.Storage.Mvcc.Keys.{row_key}
use oxide_db.Storage.Mvcc.Snapshot.{Unseen}
use oxide_db.Storage.Mvcc.Sound.{Sound, put_version-Sound, put_lock-Sound}
use oxide_db.Storage.Mvcc.Types.{LockStatus, LockFields}
use oxide_db.Transaction.LockResolver.{PrimaryStatus, primary_status, primary_commit_ts}
use oxide_db.Transaction.LockResolver.Committed.{primary_status-committed}
use oxide_db.Raft.StateMachine.Reads.{StateCodec, snapshot, restore}
use oxide_db.Raft.StateMachine.Snapshots.{restore-snapshot}
use oxide_db.Storage.Engine.{in_range}
use oxide_db.Storage.Keyspace.{Result, raise, value_error, all_start, all_end}
use oxide_db.Base.{◌≢◌, if◌then◌else◌}
use oxide_db.Tests.Codec.{test_codec}
use oxide_db.Tests.Storage.{user, other, stored, empty-IsKeyspace, user-Legal, other-Legal}

empty-Sound : Sound test_codec Engine.empty
unfolding Engine.get Engine.lookup
empty-Sound = record {
  layout = empty-IsKeyspace;
  versions = λ k u raw l h. absurd (ground (arith, h));
  locks = λ k u raw l h. absurd (ground (arith, h));
  single = λ k t u l l' h h'. absurd (ground (arith, h));
}

stored-Sound : Sound test_codec stored
stored-Sound =
    put_version-Sound test_codec Engine.empty empty-Sound other 5 (other-Legal 5 (omega arith)) 1
      (7 ∷ [])

abbrev machine : Machine
machine = record { storage = stored; last_applied_timestamp = 5 }

-- no row of the user key, whatever its kind
user-IsFree : IsFree test_codec 1 user (65 ∷ []) 8 user stored
unfolding Engine.get Engine.lookup Engine.put Engine.insert bytes_eq
user-IsFree = record {
  unlocked = λ u fits bound. refl;
  no_newer_version = λ u fits later. refl;
  no_newer_write = λ u fits later. refl;
}

prewrite_iff_example :
    ((apply_prewrite test_codec 1 user (65 ∷ []) 8 user machine).0 ≡ ok succeeded)
    ↔ IsFree test_codec 1 user (65 ∷ []) 8 user stored
prewrite_iff_example =
    prewrite_iff test_codec 1 user (65 ∷ []) 8 user machine stored-Sound
      (user-Legal 8 (omega arith))

user-prewritten : (apply_prewrite test_codec 1 user (65 ∷ []) 8 user machine).0 ≡ ok succeeded
user-prewritten =
    (prewrite_iff test_codec 1 user (65 ∷ []) 8 user machine stored-Sound
        (user-Legal 8 (omega arith))).1
      user-IsFree

abbrev after_commit : Machine
after_commit =
    (apply_commit test_codec user 8 10
      (apply_prewrite test_codec 1 user (65 ∷ []) 8 user machine).1).1

prewrite-commit_example :
    ((apply_commit test_codec user 8 10
        (apply_prewrite test_codec 1 user (65 ∷ []) 8 user machine).1).0
      ≡ ok succeeded)
    × ((t : ℕ)
        → 10 ≤ t
        → get_version user t after_commit.storage
          ≡ ok (some (record { value = 65 ∷ []; timestamp = 10; deleted = false })))
    × ((j : Bytes) (t : ℕ)
        → contains sep j ≡ false
        → Unseen user 10 j t
        → get_version j t after_commit.storage ≡ get_version j t machine.storage)
prewrite-commit_example =
    prewrite-commit test_codec 1 user (65 ∷ []) 8 10 user machine stored-Sound
      (user-Legal 8 (omega arith)) (user-Legal 10 (omega arith)) (omega arith) user-prewritten

-- a codec that reads every command as a write of the user key
abbrev write_codec : CommandCodec
write_codec = record { unpack = λ command. some (Command.set user command (some 20) none) }

apply-Sound_example : Sound test_codec (apply test_codec write_codec 1 (66 ∷ []) machine).1.storage
apply-Sound_example = apply-Sound test_codec write_codec 1 (66 ∷ []) machine stored-Sound

abbrev lock : LockFields
lock = record { status = LockStatus.locked; primary_key = user; lock_time = 0; value = 65 ∷ [] }

-- the machine with a lock on the user key
abbrev locked_machine : Machine
locked_machine = record {
  storage = Engine.put (row_key lock_ns user 3) (test_codec.pack_lock lock) stored;
  last_applied_timestamp = 5;
}

locked-Sound : Sound test_codec locked_machine.storage
locked-Sound =
    put_lock-Sound test_codec stored stored-Sound user 3 (user-Legal 3 (omega arith)) lock refl
      user-IsFree.unlocked

lock-there : is_some (Engine.get (row_key lock_ns user 3) locked_machine.storage) ≡ true
unfolding Engine.get Engine.lookup Engine.put Engine.insert bytes_eq be
lock-there = refl

prewrite_locked_example :
    apply_prewrite test_codec 1 user (65 ∷ []) 8 user locked_machine
    ≡ (ok (failure ErrorCode.err_locked), locked_machine)
prewrite_locked_example =
    prewrite_locked test_codec 1 user (65 ∷ []) 8 user locked_machine locked-Sound
      (user-Legal 8 (omega arith)) 3 (omega arith) lock-there

primary_status-committed_example :
    (primary_status test_codec 5 100 (some after_commit) user 8 ≡ ok PrimaryStatus.committed)
    × (primary_commit_ts (some after_commit) user 8 ≡ ok (some 10))
primary_status-committed_example =
    primary_status-committed test_codec 1 user (65 ∷ []) 8 10 user machine stored-Sound
      (user-Legal 8 (omega arith)) (user-Legal 10 (omega arith)) (omega arith) user-prewritten 5 100

state_nonempty : (ts : ℕ) (dump : Bytes) → ts ∷ dump ≢ []
state_nonempty ts dump h = absurd (ground arith)

abbrev unpack_state : Bytes → Result (ℕ × Bytes)
unpack_state [] = raise value_error
unpack_state (ts ∷ dump) = ok (ts, dump)

abbrev state_codec : StateCodec
state_codec = record {
  pack_state = λ ts dump. ts ∷ dump;
  unpack_state = unpack_state;
  unpack_pack_state = λ ts dump. refl;
  pack_state_nonempty = state_nonempty;
}

restore-snapshot_example :
    (after : Machine) × ((restore test_codec state_codec
          (snapshot test_codec state_codec machine)
          locked_machine
        ≡ ok after)
      × ((after.last_applied_timestamp ≡ 5)
          × ((k : Bytes)
              → Engine.get k after.storage ≡ (
                  if in_range all_start all_end k
                  then Engine.get k machine.storage
                  else Engine.get k locked_machine.storage))))
restore-snapshot_example = restore-snapshot test_codec state_codec machine locked_machine

-- ===== src/Raft/StateMachine/Reads.antt =====
-- oxidedb/raft/state_machine.py: the reads of `MVCCStateMachine` and its snapshots.
use oxide_db.Base.{
  ℕ, ◌≡◌, ◌≢◌, ◌⊎◌, inl, inr, Bool, Option, none, some, List, [], ◌∷◌, map, ltb, ◌==◌, true, false,
  if◌then◌else◌,
}
use oxide_db.Base.Bytes.{Bytes, bytes_eq, bytes_le}
use oxide_db.Raft.ErrorCode
use oxide_db.Storage.Engine.{Engine, in_range}
use oxide_db.Storage.Keyspace.{Error, Result, ok, raise}
use oxide_db.Storage.Mvcc
use oxide_db.Storage.Mvcc.Scan
use oxide_db.Storage.Mvcc.Scan.{Row}
use oxide_db.Storage.Mvcc.Types.{MvccRecord, WriteRecord, Lock, MsgPack}
use oxide_db.Raft.StateMachine.Actions.{Machine}

pub record ReadResult : Type 0 where
  pub success : Bool
  pub value : Option Bytes
  pub commit_ts : ℕ
  pub error_code : Option ℕ
  pub read_index : Option ℕ

abbrev pub found : Option Bytes → ℕ → ReadResult
found value commit_ts = record {
  success = true;
  value = value;
  commit_ts = commit_ts;
  error_code = none;
  read_index = none;
}

abbrev pub refused : ℕ → ReadResult
refused code = record {
  success = false;
  value = none;
  commit_ts = 0;
  error_code = some code;
  read_index = none;
}

-- `ReadResult.locked()`
abbrev pub locked : ReadResult
locked = refused ErrorCode.err_locked

-- what a read at `timestamp` does about a lock: answer with it, refuse, or look past it
pub data LockRule : Type 0 where
  own blocks ignored : LockRule

unfoldable pub lock_rule : Option ℕ → ℕ → LockRule
lock_rule none lock_ts = LockRule.blocks
lock_rule (some t) lock_ts =
    if lock_ts == t
    then LockRule.own
    else if ltb lock_ts t
    then LockRule.blocks
    else LockRule.ignored

abbrev pub read_at : Option ℕ → Machine → ℕ
read_at none m = m.last_applied_timestamp
read_at (some t) m = t

abbrev then_read : {A B : Type 0} → Result A → (A → Result B) → Result B
then_read (ok a) f = f a
then_read (raise x) f = raise x

abbrev pub version_result : Result (Option MvccRecord) → Result ReadResult
version_result (raise x) = raise x
version_result (ok none) = ok (found none 0)
version_result (ok (some r)) = ok (found (some r.value) r.timestamp)

-- the version at the read's timestamp, where no lock is in the way
unfoldable pub read_version : Bytes → Option ℕ → Machine → Result ReadResult
read_version key timestamp m = version_result (Mvcc.get_version key (read_at timestamp m) m.storage)

-- a range read answers with rows, refuses with a code and the key in the way, or raises
pub data ScanAnswer : Type 0 where
  rows : List Row → ScanAnswer
  scan_refused : ℕ → Bytes → ScanAnswer
  raised : Error → ScanAnswer

-- `rows[key] = (value, commit_ts)`
unfoldable pub set_row : Bytes → Bytes → ℕ → List Row → List Row
set_row key value commit_ts [] = (key, value, commit_ts) ∷ []
set_row key value commit_ts ((k, v, t) ∷ l) =
    let rest = set_row key value commit_ts l in
    if bytes_eq key k then (key, value, commit_ts) ∷ l else (k, v, t) ∷ rest

insert_row : Row → List Row → List Row
insert_row r [] = r ∷ []
insert_row r (q ∷ l) = let rest = insert_row r l in if bytes_le r.0 q.0 then r ∷ q ∷ l else q ∷ rest

-- `sorted(rows.items())`: the keys of a dictionary differ, so they alone decide the order
unfoldable pub sort_rows : List Row → List Row
unfolding insert_row
sort_rows [] = []
sort_rows (r ∷ l) = insert_row r (sort_rows l)

-- the loop over `iter_locks`
unfoldable pub judge_locks : Bytes → Bytes → Option ℕ → List (Bytes × Lock) → List Row → ScanAnswer
unfolding sort_rows set_row lock_rule
judge_locks start_key end_key timestamp [] found_rows = rows (sort_rows found_rows)
judge_locks start_key end_key timestamp ((key, lock) ∷ locks) found_rows =
    let own = judge_locks start_key end_key timestamp locks (set_row key lock.value 0 found_rows) in
    let past = judge_locks start_key end_key timestamp locks found_rows in
    if in_range start_key end_key key
    then (elim (lock_rule timestamp lock.start_ts) [
      | LockRule.own ↦ own
      | LockRule.blocks ↦ scan_refused ErrorCode.err_locked key
      | LockRule.ignored ↦ past
    ])
    else past

abbrev judged :
    Bytes → Bytes → Option ℕ → Result (List Row) → Result (List (Bytes × Lock)) → ScanAnswer
judged start_key end_key timestamp (raise x) locks = raised x
judged start_key end_key timestamp (ok r) (raise x) = raised x
judged start_key end_key timestamp (ok r) (ok l) = judge_locks start_key end_key timestamp l r

abbrev without_versions : ScanAnswer → Result (List (Bytes × Bytes)) ⊎ (ℕ × Bytes)
without_versions (rows l) = inl (ok (map (λ r. (r.0, r.1)) l))
without_versions (scan_refused code key) = inr (code, key)
without_versions (raised x) = inl (raise x)

-- what msgpack does with a snapshot of the machine: the timestamp beside the storage's dump
pub record StateCodec : Type 0 where
  pub pack_state : ℕ → Bytes → Bytes
  pub unpack_state : Bytes → Result (ℕ × Bytes)
  pub unpack_pack_state :
      (ts : ℕ) (dump : Bytes) → unpack_state (pack_state ts dump) ≡ ok (ts, dump)
  pub pack_state_nonempty : (ts : ℕ) (dump : Bytes) → pack_state ts dump ≢ []

module _ (msgpack : MsgPack) where
  abbrev past_lock : Bytes → Option ℕ → Machine → Option Lock → Result ReadResult
  past_lock key timestamp m none = read_version key timestamp m
  past_lock key timestamp m (some l) = elim (lock_rule timestamp l.start_ts) [
    | LockRule.own ↦ ok (found (some l.value) 0)
    | LockRule.blocks ↦ ok locked
    | LockRule.ignored ↦ read_version key timestamp m
  ]

  unfoldable pub get : Bytes → Option ℕ → Machine → Result ReadResult
  unfolding lock_rule read_version
  get key timestamp m =
      then_read (Mvcc.get_newest_lock msgpack key m.storage) (past_lock key timestamp m)

  unfoldable pub scan_versions : Bytes → Bytes → Option ℕ → Machine → ScanAnswer
  unfolding judge_locks
  scan_versions start_key end_key timestamp m =
      judged start_key end_key timestamp
        (Scan.scan_versions start_key end_key (read_at timestamp m) m.storage)
        (Mvcc.iter_locks msgpack m.storage)

  unfoldable pub scan :
      Bytes → Bytes → Option ℕ → Machine → Result (List (Bytes × Bytes)) ⊎ (ℕ × Bytes)
  unfolding scan_versions
  scan start_key end_key timestamp m =
      without_versions (scan_versions start_key end_key timestamp m)

  unfoldable pub get_lock_status : Bytes → Machine → Result (Option Lock)
  get_lock_status key m = Mvcc.get_newest_lock msgpack key m.storage

  module _ (codec : StateCodec) where
    open codec use {pack_state, unpack_state}

    unfoldable pub snapshot : Machine → Bytes
    snapshot m = pack_state m.last_applied_timestamp (Mvcc.dump msgpack m.storage)

    -- `load` comes before the timestamp is assigned; what raises changes neither
    abbrev pub restored : Machine → ℕ → Result Engine → Result Machine
    restored m ts (raise x) = raise x
    restored m ts (ok e) = ok (record { storage = e; last_applied_timestamp = ts })

    abbrev pub restore_from : Machine → Result (ℕ × Bytes) → Result Machine
    restore_from m (raise x) = raise x
    restore_from m (ok (ts, dump)) = restored m ts (Mvcc.load msgpack dump m.storage)

    unfoldable pub restore : Bytes → Machine → Result Machine
    restore [] m = restored m 0 (Mvcc.load msgpack [] m.storage)
    restore (b ∷ rest) m = restore_from m (unpack_state (b ∷ rest))

unfoldable pub get_write_record : Bytes → Machine → Result (Option WriteRecord)
get_write_record key m = Mvcc.get_latest_write key m.storage

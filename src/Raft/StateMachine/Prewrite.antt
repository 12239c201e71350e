-- ===== src/Raft/StateMachine/Prewrite.antt =====
-- What a prewrite does: it takes the lock behind its three tests, or it changes nothing.
use oxide_db.Base.{
  ℕ, ◌≤◌, ◌<◌, ◌≡◌, ◌≢◌, refl, ◌⊎◌, inl, inr, false, Option, none, arith, Bool-cases,
}
use oxide_db.Base.Bytes.{Bytes}
use oxide_db.Storage.Engine
use oxide_db.Storage.Engine.{Engine}
use oxide_db.Storage.Keyspace.{Error, Result, ok, raise, version_ns, write_ns, lock_ns, max_ts}
use oxide_db.Storage.Mvcc
use oxide_db.Storage.Mvcc.Keys.{row_key}
use oxide_db.Storage.Mvcc.Newest.{NoRow}
use oxide_db.Storage.Mvcc.Types.{MvccRecord, WriteRecord, LockStatus, LockFields, Lock, MsgPack}
use oxide_db.Raft.StateMachine.{succeeded, holds, written_after, version_after, apply_prewrite}
use oxide_db.Raft.StateMachine.Actions.{Machine}

pub Result-cases :
    {A : Type 0} (r : Result A) → ((a : A) × (r ≡ ok a)) ⊎ ((x : Error) × (r ≡ raise x))
Result-cases (ok a) = inl (a, refl)
Result-cases (raise x) = inr (x, refl)

module _ (msgpack : MsgPack) (now : ℕ) (key value : Bytes) (start_ts : ℕ)
    (primary_key : Bytes) where
  abbrev pub fields : LockFields
  fields = record {
    status = LockStatus.locked;
    primary_key = primary_key;
    lock_time = now;
    value = value;
  }

  -- the tests that a prewrite has passed, and the lock that it has written
  pub record Prewritten (m m' : Machine) : Type 0 where
    pub lock : Option Lock
    pub no_lock : Mvcc.get_newest_lock msgpack key m.storage ≡ ok lock
    pub free : holds lock ≡ false
    pub last_write : Option WriteRecord
    pub no_write : Mvcc.get_latest_write key m.storage ≡ ok last_write
    pub not_written : written_after start_ts last_write ≡ false
    pub version : Option MvccRecord
    pub no_version : Mvcc.get_latest_version key m.storage ≡ ok version
    pub not_newer : version_after start_ts version ≡ false
    pub engine : Engine
    pub taken :
        Mvcc.put_lock msgpack key start_ts LockStatus.locked primary_key now value m.storage
        ≡ ok engine
    pub after : m' ≡ record m { storage = engine }

  pub prewrite_cases :
      (m : Machine)
      → (((apply_prewrite msgpack now key value start_ts primary_key m).1 ≡ m)
          × ((apply_prewrite msgpack now key value start_ts primary_key m).0 ≢ ok succeeded))
        ⊎ (((apply_prewrite msgpack now key value start_ts primary_key m).0 ≡ ok succeeded)
            × Prewritten m (apply_prewrite msgpack now key value start_ts primary_key m).1)
  unfolding apply_prewrite
  prewrite_cases m = elim (Result-cases (Mvcc.get_newest_lock msgpack key m.storage)) [
    | inr (x, e) ↦ inl (ground arith, ground arith)
    | inl (lock, e1) ↦ elim (Bool-cases (holds lock)) [
      | inl e ↦ inl (ground arith, ground arith)
      | inr free ↦ elim (Result-cases (Mvcc.get_latest_write key m.storage)) [
        | inr (x, e) ↦ inl (ground arith, ground arith)
        | inl (w, e2) ↦ elim (Bool-cases (written_after start_ts w)) [
          | inl e ↦ inl (ground arith, ground arith)
          | inr old ↦ elim (Result-cases (Mvcc.get_latest_version key m.storage)) [
            | inr (x, e) ↦ inl (ground arith, ground arith)
            | inl (v, e3) ↦ elim (Bool-cases (version_after start_ts v)) [
              | inl e ↦ inl (ground arith, ground arith)
              | inr older ↦
                  elim (Result-cases (
                    Mvcc.put_lock msgpack key start_ts LockStatus.locked primary_key now value
                      m.storage)) [
                        | inr (x, e) ↦ inl (ground arith, ground arith)
                        | inl (engine, e4) ↦ inr (
                          ground arith,
                          record {
                            lock = lock;
                            no_lock = e1;
                            free = free;
                            last_write = w;
                            no_write = e2;
                            not_written = old;
                            version = v;
                            no_version = e3;
                            not_newer = older;
                            engine = engine;
                            taken = e4;
                            after = ground arith;
                          },
                        )
                      ]
            ]
          ]
        ]
      ]
    ]
  ]

  -- nothing stands in the way of the transaction: no lock on the key, and no version and no write
  -- record of it after the transaction's start
  pub record IsFree (e : Engine) : Type 0 where
    pub unlocked : NoRow lock_ns key max_ts e
    pub no_newer_version :
        (u : ℕ) → u ≤ max_ts → start_ts < u → Engine.get (row_key version_ns key u) e ≡ none
    pub no_newer_write :
        (u : ℕ) → u ≤ max_ts → start_ts < u → Engine.get (row_key write_ns key u) e ≡ none

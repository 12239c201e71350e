-- ===== src/Raft/StateMachine/Conflicts.antt =====
-- A prewrite succeeds exactly where no lock and no newer version or write record is in its way.
use oxide_db.Base.{
  ℕ, ◌≤◌, ◌<◌, ◌≡◌, ◌↔◌, refl, ap, inl, inr, true, false, Option, none, some, arith, Option-cases,
  is_some,
}
use oxide_db.Base.Bytes.{Bytes}
use oxide_db.Raft.ErrorCode
use oxide_db.Storage.Engine
use oxide_db.Storage.Engine.{Engine}
use oxide_db.Storage.Keyspace.{ok, version_ns, write_ns, lock_ns, sep, max_ts, contains}
use oxide_db.Storage.Mvcc
use oxide_db.Storage.Mvcc.{decode_version, decode_lock, get_newest_lock, put_lock}
use oxide_db.Storage.Mvcc.Keys.{row_key}
use oxide_db.Storage.Mvcc.Latest.{
  get_newest_lock_cases, get_latest_version_cases, get_latest_write_cases,
}
use oxide_db.Storage.Mvcc.Newest.{Newest, NoRow}
use oxide_db.Storage.Mvcc.Sound.{Sound}
use oxide_db.Storage.Mvcc.Types.{MvccRecord, WriteRecord, LockStatus, Lock, MsgPack}
use oxide_db.Storage.Mvcc.Writes.{Legal, put_lock-eq}
use oxide_db.Raft.StateMachine.{
  succeeded, failure, holds, written_after, version_after, apply_prewrite,
}
use oxide_db.Raft.StateMachine.Actions.{Machine}
use oxide_db.Raft.StateMachine.Prewrite.{IsFree, prewrite_cases}

-- no row after `start_ts`
abbrev NoneAfter : ℕ → Bytes → ℕ → Engine → Type 0
NoneAfter ns key start_ts e =
    (u : ℕ) → u ≤ max_ts → start_ts < u → Engine.get (row_key ns key u) e ≡ none

-- nothing is after `start_ts` where the newest row is not
NoneAfter-Newest :
    (ns : ℕ) (key : Bytes) (start_ts ts : ℕ) {raw : Bytes} (e : Engine)
    → Newest ns key max_ts e ts raw
    → ts ≤ start_ts
    → NoneAfter ns key start_ts e
NoneAfter-Newest ns key start_ts ts e n h u fits past =
    elim (Option-cases (Engine.get (row_key ns key u) e)) [
      | inl gone ↦ gone
      | inr (v, there) ↦ absurd (omega (arith, n.newest u fits fits (ap is_some there)))
    ]

module _ (msgpack : MsgPack) (key : Bytes) (e : Engine) (legal : contains sep key ≡ false)
    (s : Sound msgpack e) where
  -- the lock that is read holds exactly where the key has a row of a lock
  pub lock_free :
      (o : Option Lock)
      → get_newest_lock msgpack key e ≡ ok o
      → holds o ≡ false
      → NoRow lock_ns key max_ts e
  unfolding decode_lock
  lock_free o h free = elim (get_newest_lock_cases key e legal s.layout msgpack) [
    | inl (r, absent) ↦ absent
    | inr (ts, raw, r, n) ↦
        let (f, unpacked, held) =
          s.locks key ts raw (record { legal = legal; fits = n.fits }) n.stored in
        absurd (ground arith)
  ]

  lock_absent : NoRow lock_ns key max_ts e → get_newest_lock msgpack key e ≡ ok none
  lock_absent gone = elim (get_newest_lock_cases key e legal s.layout msgpack) [
    | inl (r, absent) ↦ r
    | inr (ts, raw, r, n) ↦ absurd (cc (n.stored, gone ts n.fits n.fits))
  ]

  lock_held :
      (u : ℕ)
      → u ≤ max_ts
      → is_some (Engine.get (row_key lock_ns key u) e) ≡ true
      → (l : Lock) × (get_newest_lock msgpack key e ≡ ok (some l)) × (holds (some l) ≡ true)
  unfolding decode_lock
  lock_held u fits there = elim (get_newest_lock_cases key e legal s.layout msgpack) [
    | inl (r, absent) ↦ absurd (cc (there, absent u fits fits))
    | inr (ts, raw, r, n) ↦
        let (f, unpacked, held) =
          s.locks key ts raw (record { legal = legal; fits = n.fits }) n.stored in
        (record { fields = f; key = key; start_ts = ts }, ground arith, ground arith)
  ]

  version_old :
      (start_ts : ℕ) (o : Option MvccRecord)
      → Mvcc.get_latest_version key e ≡ ok o
      → version_after start_ts o ≡ false
      → NoneAfter version_ns key start_ts e
  unfolding decode_version
  version_old start_ts o h old = elim (get_latest_version_cases key e legal s.layout) [
    | inl (r, absent) ↦ λ u fits past. absent u fits fits
    | inr (ts, raw, r, n) ↦
        NoneAfter-Newest version_ns key start_ts ts e n
          (ground (arith, s.versions key ts raw (record { legal = legal; fits = n.fits }) n.stored))
  ]

  version_passes :
      (start_ts : ℕ)
      → NoneAfter version_ns key start_ts e
      → (o : Option MvccRecord) × (Mvcc.get_latest_version key e ≡ ok o)
        × (version_after start_ts o ≡ false)
  unfolding decode_version
  version_passes start_ts gone = elim (get_latest_version_cases key e legal s.layout) [
    | inl (r, absent) ↦ (none, r, refl)
    | inr (ts, raw, r, n) ↦ (decode_version raw ts, r, ground (arith, n.stored, gone ts n.fits))
  ]

  write_old :
      (start_ts : ℕ) (o : Option WriteRecord)
      → Mvcc.get_latest_write key e ≡ ok o
      → written_after start_ts o ≡ false
      → NoneAfter write_ns key start_ts e
  write_old start_ts o h old = elim (get_latest_write_cases key e legal s.layout) [
    | inl (r, absent) ↦ λ u fits past. absent u fits fits
    | inr (ts, raw, r, n) ↦ NoneAfter-Newest write_ns key start_ts ts e n (ground arith)
  ]

  write_passes :
      (start_ts : ℕ)
      → NoneAfter write_ns key start_ts e
      → (o : Option WriteRecord) × (Mvcc.get_latest_write key e ≡ ok o)
        × (written_after start_ts o ≡ false)
  write_passes start_ts gone = elim (get_latest_write_cases key e legal s.layout) [
    | inl (r, absent) ↦ (none, r, refl)
    | inr (ts, raw, r, n) ↦ (some _, r, ground (arith, n.stored, gone ts n.fits))
  ]

module _ (msgpack : MsgPack) (now : ℕ) (key value : Bytes) (start_ts : ℕ) (primary_key : Bytes)
    (m : Machine) (s : Sound msgpack m.storage) (l : Legal key start_ts) where
  prewrite-IsFree :
      (apply_prewrite msgpack now key value start_ts primary_key m).0 ≡ ok succeeded
      → IsFree msgpack now key value start_ts primary_key m.storage
  prewrite-IsFree h = elim (prewrite_cases msgpack now key value start_ts primary_key m) [
    | inl (_, not_succeeded) ↦ absurd (not_succeeded h)
    | inr (_, p) ↦ record {
      unlocked = lock_free msgpack key m.storage l.legal s p.lock p.no_lock p.free;
      no_newer_version =
          version_old msgpack key m.storage l.legal s start_ts p.version p.no_version p.not_newer;
      no_newer_write =
          write_old msgpack key m.storage l.legal s start_ts p.last_write p.no_write p.not_written;
    }
  ]

  IsFree-prewrite :
      IsFree msgpack now key value start_ts primary_key m.storage
      → (apply_prewrite msgpack now key value start_ts primary_key m).0 ≡ ok succeeded
  unfolding apply_prewrite
  IsFree-prewrite f =
      let (v, read_v, old_v) =
        version_passes msgpack key m.storage l.legal s start_ts f.no_newer_version in
      let (w, read_w, old_w) =
        write_passes msgpack key m.storage l.legal s start_ts f.no_newer_write in
      ground (
        arith,
        lock_absent msgpack key m.storage l.legal s f.unlocked,
        put_lock-eq key start_ts m.storage l msgpack (record {
          status = LockStatus.locked;
          primary_key = primary_key;
          lock_time = now;
          value = value;
        }),
      )

  -- A prewrite of a legal key succeeds exactly where the key has no lock and no version and no
  -- write record after the transaction's start.
  pub prewrite_iff :
      ((apply_prewrite msgpack now key value start_ts primary_key m).0 ≡ ok succeeded)
      ↔ IsFree msgpack now key value start_ts primary_key m.storage
  prewrite_iff = (prewrite-IsFree, IsFree-prewrite)

  -- Where the key has a lock, whosever it is, a prewrite is refused as locked and the machine is
  -- left as it was.
  pub prewrite_locked :
      (u : ℕ)
      → u ≤ max_ts
      → is_some (Engine.get (row_key lock_ns key u) m.storage) ≡ true
      → apply_prewrite msgpack now key value start_ts primary_key m
        ≡ (ok (failure ErrorCode.err_locked), m)
  unfolding apply_prewrite
  prewrite_locked u fits there =
      let (lock, read, held) = lock_held msgpack key m.storage l.legal s u fits there in
      ground arith

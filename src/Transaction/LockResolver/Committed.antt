-- ===== src/Transaction/LockResolver/Committed.antt =====
-- oxidedb/transaction/lock_resolver.py: right after a commit the primary key says of the
-- transaction that it committed, and when.
use oxide_db.Base.{
  ℕ, ◌≤◌, ◌<◌, ◌≡◌, refl, ap, sym, ◌∙◌, true, none, some, ◌∷◌, arith, ◌==◌, if◌then◌else◌, is_some,
  inl, inr, Bool-cases,
}
use oxide_db.Base.Bytes.{Bytes, bytes_eq_refl}
use oxide_db.Storage.Engine
use oxide_db.Storage.Engine.{Engine}
use oxide_db.Storage.Keyspace.{ok, version_ns, write_ns, lock_ns, max_ts, be}
use oxide_db.Storage.Mvcc.{get_latest_write}
use oxide_db.Storage.Mvcc.Keys.{row_key, IsKeyspace, of_be-be_ts}
use oxide_db.Storage.Mvcc.Latest.{get_latest_write_cases}
use oxide_db.Storage.Mvcc.Points.{get-put_row, get-delete_row}
use oxide_db.Storage.Mvcc.Sound.{Sound}
use oxide_db.Storage.Mvcc.Types.{MsgPack}
use oxide_db.Storage.Mvcc.Writes.{Legal}
use oxide_db.Raft.StateMachine.{apply_prewrite, apply_commit, succeeded}
use oxide_db.Raft.StateMachine.Actions.{Machine}
use oxide_db.Raft.StateMachine.Commit.{committed, committed-IsKeyspace}
use oxide_db.Raft.StateMachine.Conflicts.{prewrite_iff}
use oxide_db.Raft.StateMachine.Prewrite.{fields}
use oxide_db.Raft.StateMachine.Reads.{get_write_record}
use oxide_db.Raft.StateMachine.Transaction.{locked, storage-after_commit, locked-IsKeyspace}
use oxide_db.Transaction.LockResolver.{PrimaryStatus, primary_status, primary_commit_ts}

module _ (key : Bytes) (start_ts commit_ts : ℕ) (l : Legal key start_ts) (lc : Legal key commit_ts)
    (value : Bytes) (e : Engine) where
  -- the write records after a commit: one more
  write_row-committed :
      (u : ℕ)
      → u ≤ max_ts
      → Engine.get (row_key write_ns key u) (committed key start_ts commit_ts value e)
        ≡ (if u == commit_ts then some (be 8 start_ts) else Engine.get (row_key write_ns key u) e)
  write_row-committed u fits =
      let lu : Legal key u = record { legal = l.legal; fits = fits } in
      let e1 = Engine.put (row_key version_ns key commit_ts) (1 ∷ value) e in
      let e2 = Engine.put (row_key write_ns key commit_ts) (be 8 start_ts) e1 in
      let r1 = get-delete_row write_ns lock_ns key key u start_ts lu l e2 in
      let r2 = get-put_row write_ns write_ns key key u commit_ts lu lc (be 8 start_ts) e1 in
      let r3 = get-put_row write_ns version_ns key key u commit_ts lu lc (1 ∷ value) e in
      ground (arith, r1, r2, r3, bytes_eq_refl key)

  -- the write record of the commit is the latest one if there is none after it
  get_latest_write-committed :
      IsKeyspace e
      → ((u : ℕ) → u ≤ max_ts → commit_ts < u → Engine.get (row_key write_ns key u) e ≡ none)
      → get_latest_write key (committed key start_ts commit_ts value e)
        ≡ ok (some (record { start_ts = start_ts; commit_ts = commit_ts }))
  get_latest_write-committed k none_after =
      elim (get_latest_write_cases key after l.legal
        (committed-IsKeyspace key start_ts commit_ts l lc value e k)) [
          | inl (r, absent) ↦
              let none_there = absent commit_ts lc.fits lc.fits in
              let no : some (be 8 start_ts) ≡ none = sym at_commit ∙ none_there in
              absurd (ground (arith, no))
          | inr (ts, raw, r, n) ↦
              let there : is_some (Engine.get (row_key write_ns key commit_ts) after) ≡ true =
                rw at_commit refl in
              let low = n.newest commit_ts lc.fits lc.fits there in
              let row = sym n.stored ∙ write_row-committed ts n.fits in
              elim (Bool-cases (ts == commit_ts)) [
                | inl same ↦
                    let at : ts ≡ commit_ts = ground (arith, same) in
                    let stored : some raw ≡ some (be 8 start_ts) = row ∙ rw same refl in
                    let bytes : raw ≡ be 8 start_ts = ground (arith, stored) in
                    r ∙ rw (bytes, at, of_be-be_ts start_ts l.fits) refl
                | inr other ↦
                    let gone : some raw ≡ none =
                      row ∙ rw other (none_after ts n.fits (ground (arith, low, other))) in
                    absurd (ground (arith, gone))
              ]
        ]
    where
      after : Engine
      after = committed key start_ts commit_ts value e

      at_commit : Engine.get (row_key write_ns key commit_ts) after ≡ some (be 8 start_ts)
      at_commit =
          let same : (commit_ts == commit_ts) ≡ true = ground arith in
          write_row-committed commit_ts lc.fits ∙ rw same refl

module _ (msgpack : MsgPack) (now : ℕ) (key value : Bytes) (start_ts commit_ts : ℕ)
    (primary_key : Bytes) (m : Machine) (s : Sound msgpack m.storage) (l : Legal key start_ts)
    (lc : Legal key commit_ts) (later : start_ts ≤ commit_ts)
    (prewritten : (apply_prewrite msgpack now key value start_ts primary_key m).0
      ≡ ok succeeded) where
  no_later_write :
      (u : ℕ)
      → u ≤ max_ts
      → commit_ts < u
      → Engine.get (row_key write_ns key u) (
          locked msgpack key start_ts (fields msgpack now key value start_ts primary_key) m.storage)
        ≡ none
  no_later_write u fits past =
      let free = (prewrite_iff msgpack now key value start_ts primary_key m s l).0 prewritten in
      get-put_row write_ns lock_ns key key u start_ts (record { legal = l.legal; fits = fits }) l
        (msgpack.pack_lock (fields msgpack now key value start_ts primary_key)) m.storage
      ∙ free.no_newer_write u fits (omega arith)

  -- Right after the commit of a primary key whose prewrite succeeded, the key says so: whatever the
  -- clock and the TTL of whoever asks, the transaction is committed, at its commit timestamp. Nothing
  -- is claimed of what the key says after later commands.
  pub primary_status-committed :
      (lock_ttl asked : ℕ)
      → (primary_status msgpack lock_ttl asked
            (some
              (apply_commit msgpack key start_ts commit_ts
                (apply_prewrite msgpack now key value start_ts primary_key m).1).1)
            key
            start_ts
          ≡ ok PrimaryStatus.committed)
        × (primary_commit_ts
              (some
                (apply_commit msgpack key start_ts commit_ts
                  (apply_prewrite msgpack now key value start_ts primary_key m).1).1)
              key
              start_ts
            ≡ ok (some commit_ts))
  unfolding primary_status primary_commit_ts get_write_record
  primary_status-committed lock_ttl asked =
      let f = fields msgpack now key value start_ts primary_key in
      let e = locked msgpack key start_ts f m.storage in
      let read =
        ap (get_latest_write key) (
          storage-after_commit msgpack now key value start_ts commit_ts primary_key m s l lc later
            prewritten)
        ∙ get_latest_write-committed key start_ts commit_ts l lc value e
            (locked-IsKeyspace msgpack now key value start_ts commit_ts primary_key m s l lc later
              prewritten)
            no_later_write in
      let same : (start_ts == start_ts) ≡ true = ground arith in
      (rw (read, same) refl, rw (read, same) refl)

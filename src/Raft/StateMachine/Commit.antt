-- ===== src/Raft/StateMachine/Commit.antt =====
-- A commit publishes the value of the lock, and a transaction's prewrite and commit together are
-- one new version.
use oxide_db.Base.{ℕ, ◌≡◌, refl, ◌∙◌, false, ◌∷◌, arith}
use oxide_db.Base.Bytes.{Bytes}
use oxide_db.Storage.Engine
use oxide_db.Storage.Engine.{Engine}
use oxide_db.Storage.Keyspace.{ok, version_ns, write_ns, lock_ns, sep, be, contains}
use oxide_db.Storage.Mvcc.{get_version}
use oxide_db.Storage.Mvcc.Keys.{row_key, IsKeyspace}
use oxide_db.Storage.Mvcc.Newest.Versions.{get_version_at_ext}
use oxide_db.Storage.Mvcc.Points.{get-put_row, get-delete_row}
use oxide_db.Storage.Mvcc.Types.{LockStatus, Lock}
use oxide_db.Storage.Mvcc.Writes.{
  Legal, set-eq, write_write_record-eq, remove_lock-eq, put-IsKeyspace, delete-IsKeyspace,
}
use oxide_db.Raft.StateMachine.{succeeded, publish}
use oxide_db.Raft.StateMachine.Actions.{Machine}

-- the storage after the lock of `start_ts` is published at `commit_ts`
abbrev pub committed : Bytes → ℕ → ℕ → Bytes → Engine → Engine
committed key start_ts commit_ts value e = Engine.delete (row_key lock_ns key start_ts) (
    Engine.put (row_key write_ns key commit_ts) (be 8 start_ts)
      (Engine.put (row_key version_ns key commit_ts) (1 ∷ value) e))

module _ (key : Bytes) (start_ts commit_ts : ℕ) (l : Legal key start_ts)
    (lc : Legal key commit_ts) where
  pub publish-committed :
      (lock : Lock) (m : Machine)
      → lock.status ≡ LockStatus.locked
      → ((publish key start_ts commit_ts lock m).0 ≡ ok succeeded)
        × ((publish key start_ts commit_ts lock m).1.storage
            ≡ committed key start_ts commit_ts lock.value m.storage)
  unfolding publish
  publish-committed lock m held =
      let e1 = Engine.put (row_key version_ns key commit_ts) (1 ∷ lock.value) m.storage in
      let e2 = Engine.put (row_key write_ns key commit_ts) (be 8 start_ts) e1 in
      let s1 = set-eq key commit_ts m.storage lc lock.value in
      let s2 = write_write_record-eq key commit_ts e1 lc start_ts l.fits in
      let s3 = remove_lock-eq key start_ts e2 l in
      (ground (arith, s1, s2, s3), ground (arith, s1, s2, s3))

  -- the rows of versions after a commit: one more
  pub version_row-committed :
      (j value : Bytes) (u : ℕ) (e : Engine)
      → Legal j u
      → Engine.get (row_key version_ns j u) (committed key start_ts commit_ts value e)
        ≡ Engine.get
            (row_key version_ns j u)
            (Engine.put (row_key version_ns key commit_ts) (1 ∷ value) e)
  version_row-committed j value u e lj =
      let e1 = Engine.put (row_key version_ns key commit_ts) (1 ∷ value) e in
      get-delete_row version_ns lock_ns j key u start_ts lj l
        (Engine.put (row_key write_ns key commit_ts) (be 8 start_ts) e1)
      ∙ get-put_row version_ns write_ns j key u commit_ts lj lc (be 8 start_ts) e1

  pub committed-IsKeyspace :
      (value : Bytes) (e : Engine)
      → IsKeyspace e
      → IsKeyspace (committed key start_ts commit_ts value e)
  committed-IsKeyspace value e k = delete-IsKeyspace (row_key lock_ns key start_ts) _ (
      put-IsKeyspace write_ns key commit_ts (be 8 start_ts) _ lc
        (put-IsKeyspace version_ns key commit_ts (1 ∷ value) e lc k))

  -- a read after a commit is a read after the commit's version alone
  pub get_version-committed :
      (j value : Bytes) (t : ℕ) (e : Engine)
      → IsKeyspace e
      → contains sep j ≡ false
      → get_version j t (committed key start_ts commit_ts value e)
        ≡ get_version j t (Engine.put (row_key version_ns key commit_ts) (1 ∷ value) e)
  unfolding get_version
  get_version-committed j value t e k legal =
      rw
        (get_version_at_ext j t (committed key start_ts commit_ts value e)
          (Engine.put (row_key version_ns key commit_ts) (1 ∷ value) e) legal
          (committed-IsKeyspace value e k)
          (put-IsKeyspace version_ns key commit_ts (1 ∷ value) e lc k)
          (λ u fits bound.
            version_row-committed j value u e (record { legal = legal; fits = fits })))
        refl

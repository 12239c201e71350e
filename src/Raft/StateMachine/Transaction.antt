-- ===== src/Raft/StateMachine/Transaction.antt =====
-- A transaction's prewrite and commit of a key, together: one new version at the commit
-- timestamp, seen by every read from then on and by no read before.
use oxide_db.Base.{ℕ, ◌≤◌, ◌<◌, ◌≡◌, refl, ap, ◌∙◌, inl, inr, false, none, some, arith}
use oxide_db.Base.Bytes.{Bytes, bytes_eq_refl}
use oxide_db.Storage.Engine
use oxide_db.Storage.Engine.{Engine}
use oxide_db.Storage.Keyspace.{
  ok, version_ns, lock_ns, sep, max_ts, contains, ts_bytes, check_user_key,
}
use oxide_db.Storage.Mvcc.{get_version, get_lock, decode_lock}
use oxide_db.Storage.Mvcc.Keys.{row_key, IsKeyspace}
use oxide_db.Storage.Mvcc.Newest.Versions.{get_version_at_ext}
use oxide_db.Storage.Mvcc.Points.{get-put_row}
use oxide_db.Storage.Mvcc.Snapshot.{Unseen, get_version-set, get_version-set-Unseen}
use oxide_db.Storage.Mvcc.Sound.{Sound}
use oxide_db.Storage.Mvcc.Types.{LockStatus, LockFields, Lock, MsgPack}
use oxide_db.Storage.Mvcc.Writes.{Legal, set-eq, put-IsKeyspace, put_lock_lem}
use oxide_db.Raft.StateMachine.{succeeded, commit_lock, apply_prewrite, apply_commit}
use oxide_db.Raft.StateMachine.Actions.{Machine}
use oxide_db.Raft.StateMachine.Commit.{committed, publish-committed, get_version-committed}
use oxide_db.Raft.StateMachine.Conflicts.{prewrite_iff}
use oxide_db.Raft.StateMachine.Prewrite.{fields, prewrite_cases}

-- the storage with the lock of a prewrite
abbrev pub locked : MsgPack → Bytes → ℕ → LockFields → Engine → Engine
locked msgpack key start_ts f e = Engine.put (row_key lock_ns key start_ts) (msgpack.pack_lock f) e

module _ (msgpack : MsgPack) (key : Bytes) (start_ts : ℕ) (l : Legal key start_ts)
    (f : LockFields) where
  get_lock-locked :
      (e : Engine)
      → get_lock msgpack key start_ts (locked msgpack key start_ts f e)
        ≡ ok (some (record { fields = f; key = key; start_ts = start_ts }))
  unfolding get_lock decode_lock check_user_key ts_bytes
  get_lock-locked e = ground (
    arith,
    l.legal,
    l.fits,
    msgpack.unpack_pack_lock f,
    bytes_eq_refl key,
    get-put_row lock_ns lock_ns key key start_ts start_ts l l (msgpack.pack_lock f) e,
  )

  -- a lock is no version: reads of versions do not see it
  get_version-locked :
      (j : Bytes) (t : ℕ) (e : Engine)
      → IsKeyspace e
      → contains sep j ≡ false
      → get_version j t (locked msgpack key start_ts f e) ≡ get_version j t e
  unfolding get_version
  get_version-locked j t e k legal =
      rw
        (get_version_at_ext j t (locked msgpack key start_ts f e) e legal
          (put-IsKeyspace lock_ns key start_ts (msgpack.pack_lock f) e l k) k
          (λ u fits bound.
            get-put_row version_ns lock_ns j key u start_ts (record { legal = legal; fits = fits })
              l (msgpack.pack_lock f) e))
        refl

  -- the commit of a lock that is there publishes it
  commit-locked :
      (commit_ts : ℕ) (m : Machine) (e : Engine)
      → Legal key commit_ts
      → f.status ≡ LockStatus.locked
      → m.storage ≡ locked msgpack key start_ts f e
      → ((apply_commit msgpack key start_ts commit_ts m).0 ≡ ok succeeded)
        × ((apply_commit msgpack key start_ts commit_ts m).1.storage
            ≡ committed key start_ts commit_ts f.value m.storage)
  unfolding apply_commit commit_lock
  commit-locked commit_ts m e lc held same =
      let lock : Lock = record { fields = f; key = key; start_ts = start_ts } in
      let read : get_lock msgpack key start_ts m.storage ≡ ok (some lock) =
        ap (get_lock msgpack key start_ts) same ∙ get_lock-locked e in
      let done = publish-committed key start_ts commit_ts l lc lock m held in
      rw (read, apply_commit) done

module _ (msgpack : MsgPack) (now : ℕ) (key value : Bytes) (start_ts commit_ts : ℕ)
    (primary_key : Bytes) (m : Machine) (s : Sound msgpack m.storage) (l : Legal key start_ts)
    (lc : Legal key commit_ts) (later : start_ts ≤ commit_ts)
    (prewritten : (apply_prewrite msgpack now key value start_ts primary_key m).0
      ≡ ok succeeded) where
  abbrev pub lock_fields : LockFields
  lock_fields = fields msgpack now key value start_ts primary_key

  abbrev pub before_commit : Machine
  before_commit = (apply_prewrite msgpack now key value start_ts primary_key m).1

  abbrev pub after_commit : Machine
  after_commit = (apply_commit msgpack key start_ts commit_ts before_commit).1

  storage-before_commit : before_commit.storage ≡ locked msgpack key start_ts lock_fields m.storage
  storage-before_commit = elim (prewrite_cases msgpack now key value start_ts primary_key m) [
    | inl (_, not_succeeded) ↦ absurd (not_succeeded prewritten)
    | inr (_, p) ↦
        ap (λ (x : Machine). x.storage) p.after
        ∙ (put_lock_lem msgpack key start_ts lock_fields m.storage p.taken).1
  ]

  commit_outcome :
      ((apply_commit msgpack key start_ts commit_ts before_commit).0 ≡ ok succeeded)
      × (after_commit.storage ≡ committed key start_ts commit_ts value before_commit.storage)
  commit_outcome =
      commit-locked msgpack key start_ts l lock_fields commit_ts before_commit m.storage lc refl
        storage-before_commit

  -- the storage after both commands
  pub storage-after_commit :
      after_commit.storage
      ≡ committed key start_ts commit_ts value (locked msgpack key start_ts lock_fields m.storage)
  storage-after_commit =
      commit_outcome.1 ∙ ap (committed key start_ts commit_ts value) storage-before_commit

  no_later_version :
      (u : ℕ)
      → u ≤ max_ts
      → commit_ts < u
      → Engine.get (row_key version_ns key u) (locked msgpack key start_ts lock_fields m.storage)
        ≡ none
  no_later_version u fits past =
      let free = (prewrite_iff msgpack now key value start_ts primary_key m s l).0 prewritten in
      get-put_row version_ns lock_ns key key u start_ts (record { legal = l.legal; fits = fits }) l
        (msgpack.pack_lock lock_fields) m.storage
      ∙ free.no_newer_version u fits (omega arith)

  pub locked-IsKeyspace : IsKeyspace (locked msgpack key start_ts lock_fields m.storage)
  locked-IsKeyspace =
      put-IsKeyspace lock_ns key start_ts (msgpack.pack_lock lock_fields) m.storage l s.layout

  seen_after :
      (t : ℕ)
      → commit_ts ≤ t
      → get_version key t after_commit.storage
        ≡ ok (some (record { value = value; timestamp = commit_ts; deleted = false }))
  seen_after t at =
      let e1 = locked msgpack key start_ts lock_fields m.storage in
      ap (get_version key t) storage-after_commit
      ∙ get_version-committed key start_ts commit_ts l lc key value t e1 locked-IsKeyspace l.legal
      ∙ get_version-set key value commit_ts t e1 locked-IsKeyspace
          (set-eq key commit_ts e1 lc value) at (λ u fits past _. no_later_version u fits past)

  Unseen-before :
      (j : Bytes) (t : ℕ)
      → contains sep j ≡ false
      → Unseen key commit_ts j t
      → get_version j t after_commit.storage ≡ get_version j t m.storage
  Unseen-before j t legal unseen =
      let e1 = locked msgpack key start_ts lock_fields m.storage in
      ap (get_version j t) storage-after_commit
      ∙ get_version-committed key start_ts commit_ts l lc j value t e1 locked-IsKeyspace legal
      ∙ get_version-set-Unseen key j value commit_ts t e1 locked-IsKeyspace
          (set-eq key commit_ts e1 lc value) legal unseen
      ∙ get_version-locked msgpack key start_ts l lock_fields j t m.storage s.layout legal

  -- After a prewrite that succeeded, the commit of the same transaction at any later or equal
  -- timestamp succeeds. Every read of the key from the commit timestamp on then returns the
  -- prewritten value with that timestamp, and every read of another key, or of this one before the
  -- commit timestamp, returns what it did before the prewrite.
  pub prewrite-commit :
      ((apply_commit msgpack key start_ts commit_ts
          (apply_prewrite msgpack now key value start_ts primary_key m).1).0
        ≡ ok succeeded)
      × ((t : ℕ)
          → commit_ts ≤ t
          → get_version key t after_commit.storage
            ≡ ok (some (record { value = value; timestamp = commit_ts; deleted = false })))
      × ((j : Bytes) (t : ℕ)
          → contains sep j ≡ false
          → Unseen key commit_ts j t
          → get_version j t after_commit.storage ≡ get_version j t m.storage)
  prewrite-commit = (commit_outcome.0, seen_after, Unseen-before)

-- ===== src/Storage/Mvcc/Sound.antt =====
-- The invariant of the storage under a state machine: rows of the storage only, versions that
-- decode, and at most one lock to a key, which is a lock that is held.
use oxide_db.Base.{
  ℕ, ◌≡◌, ◌≢◌, sym, ap, ◌∙◌, true, ◌&&◌, some, [], ◌∷◌, arith, ◌==◌, Bool-cases, inl, inr, is_some,
}
use oxide_db.Base.Bytes.{Bytes, bytes_eq, bytes_eq_iff}
use oxide_db.Storage.Engine
use oxide_db.Storage.Engine.{Engine}
use oxide_db.Storage.Keyspace.{ok, version_ns, write_ns, lock_ns, max_ts}
use oxide_db.Storage.Mvcc.Keys.{row_key, IsKeyspace}
use oxide_db.Storage.Mvcc.Newest.{NoRow}
use oxide_db.Storage.Mvcc.Points.{get-put_row, get-delete_row}
use oxide_db.Storage.Mvcc.Types.{LockStatus, LockFields, MsgPack}
use oxide_db.Storage.Mvcc.Writes.{Legal, put-IsKeyspace, delete-IsKeyspace}

abbrev pub Has : ℕ → Bytes → ℕ → Engine → Type 0
Has ns k u e = is_some (Engine.get (row_key ns k u) e) ≡ true

-- a row that is a lock which is held
abbrev pub HeldLock : MsgPack → Bytes → Type 0
HeldLock msgpack raw =
    (f : LockFields) × (msgpack.unpack_lock raw ≡ ok f) × (f.status ≡ LockStatus.locked)

pub record Sound (msgpack : MsgPack) (e : Engine) : Type 0 where
  pub layout : IsKeyspace e
  pub versions :
      (k : Bytes) (u : ℕ) (raw : Bytes)
      → Legal k u
      → Engine.get (row_key version_ns k u) e ≡ some raw
      → raw ≢ []
  pub locks :
      (k : Bytes) (u : ℕ) (raw : Bytes)
      → Legal k u
      → Engine.get (row_key lock_ns k u) e ≡ some raw
      → HeldLock msgpack raw
  pub single :
      (k : Bytes) (t u : ℕ) → Legal k t → Legal k u → Has lock_ns k t e → Has lock_ns k u e → t ≡ u

module _ (msgpack : MsgPack) (e : Engine) (s : Sound msgpack e) (key : Bytes) (ts : ℕ)
    (l : Legal key ts) where
  pub put_version-Sound :
      (b : ℕ) (v : Bytes) → Sound msgpack (Engine.put (row_key version_ns key ts) (b ∷ v) e)
  put_version-Sound b v = record {
    layout = put-IsKeyspace version_ns key ts (b ∷ v) e l s.layout;
    versions = λ k u raw lk h.
        ground (
          arith,
          get-put_row version_ns version_ns k key u ts lk l (b ∷ v) e,
          s.versions k u raw lk,
        );
    locks = λ k u raw lk h.
        s.locks k u raw lk (sym (get-put_row lock_ns version_ns k key u ts lk l (b ∷ v) e) ∙ h);
    single = λ k t u lt lu h h'. s.single k t u lt lu (rw get-put_row at h) (rw get-put_row at h');
  }

  pub put_record-Sound : (v : Bytes) → Sound msgpack (Engine.put (row_key write_ns key ts) v e)
  put_record-Sound v = record {
    layout = put-IsKeyspace write_ns key ts v e l s.layout;
    versions = λ k u raw lk h.
        s.versions k u raw lk (sym (get-put_row version_ns write_ns k key u ts lk l v e) ∙ h);
    locks = λ k u raw lk h.
        s.locks k u raw lk (sym (get-put_row lock_ns write_ns k key u ts lk l v e) ∙ h);
    single = λ k t u lt lu h h'. s.single k t u lt lu (rw get-put_row at h) (rw get-put_row at h');
  }

  pub delete_lock-Sound : Sound msgpack (Engine.delete (row_key lock_ns key ts) e)
  delete_lock-Sound = record {
    layout = delete-IsKeyspace (row_key lock_ns key ts) e s.layout;
    versions = λ k u raw lk h.
        s.versions k u raw lk (sym (get-delete_row version_ns lock_ns k key u ts lk l e) ∙ h);
    locks = λ k u raw lk h.
        s.locks k u raw lk (ground (arith, get-delete_row lock_ns lock_ns k key u ts lk l e));
    single = λ k t u lt lu h h'.
        s.single k t u lt lu (ground (arith, get-delete_row lock_ns lock_ns k key t ts lt l e))
          (ground (arith, get-delete_row lock_ns lock_ns k key u ts lu l e));
  }

  -- a lock is taken where the key has none
  pub put_lock-Sound :
      (f : LockFields)
      → f.status ≡ LockStatus.locked
      → NoRow lock_ns key max_ts e
      → Sound msgpack (Engine.put (row_key lock_ns key ts) (msgpack.pack_lock f) e)
  put_lock-Sound f held absent = record {
    layout = put-IsKeyspace lock_ns key ts raw e l s.layout;
    versions = λ k u raw' lk h.
        s.versions k u raw' lk (sym (get-put_row version_ns lock_ns k key u ts lk l raw e) ∙ h);
    locks = λ k u raw' lk h. elim (Bool-cases (bytes_eq k key && u == ts)) [
      | inl same ↦ (
        f,
        ap msgpack.unpack_lock (ground (arith, get-put_row lock_ns lock_ns k key u ts lk l raw e))
            ∙ msgpack.unpack_pack_lock f,
        held,
      )
      | inr other ↦
          s.locks k u raw' lk (ground (arith, get-put_row lock_ns lock_ns k key u ts lk l raw e))
    ];
    single = λ k t u lt lu h h'. elim (Bool-cases (bytes_eq k key)) [
      | inl same ↦
          let here : k ≡ key = (bytes_eq_iff k key).0 same in
          let gone = λ (w : ℕ) (lw : Legal k w).
            ap (λ j. Engine.get (row_key lock_ns j w) e) here ∙ absent w lw.fits lw.fits in
          ground (
            arith,
            gone t lt,
            gone u lu,
            get-put_row lock_ns lock_ns k key t ts lt l raw e,
            get-put_row lock_ns lock_ns k key u ts lu l raw e,
          )
      | inr other ↦
          s.single k t u lt lu (ground (arith, get-put_row lock_ns lock_ns k key t ts lt l raw e))
            (ground (arith, get-put_row lock_ns lock_ns k key u ts lu l raw e))
    ];
  }
    where
      raw : Bytes
      raw = msgpack.pack_lock f

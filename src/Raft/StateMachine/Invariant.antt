-- ===== src/Raft/StateMachine/Invariant.antt =====
-- Every command keeps the invariant of the storage.
use oxide_db.Base.{ℕ, refl, inl, inr}
use oxide_db.Base.Bytes.{Bytes}
use oxide_db.Storage.Mvcc.Sound.{
  Sound, put_version-Sound, put_record-Sound, put_lock-Sound, delete_lock-Sound,
}
use oxide_db.Storage.Mvcc.Types.{MsgPack}
use oxide_db.Storage.Mvcc.Writes.{
  set_lem, delete_lem, write_write_record_lem, remove_lock_lem, put_lock_lem,
}
use oxide_db.Raft.StateMachine.{apply_prewrite, apply, CommandCodec}
use oxide_db.Raft.StateMachine.Actions.{Machine}
use oxide_db.Raft.StateMachine.Commands.{OfStorage, WritesKeep, apply-Keeps}
use oxide_db.Raft.StateMachine.Conflicts.{lock_free}
use oxide_db.Raft.StateMachine.Keeps.{Keeps}
use oxide_db.Raft.StateMachine.Prewrite.{fields, prewrite_cases}

module _ (msgpack : MsgPack) where
  Sound-WritesKeep : WritesKeep (Sound msgpack)
  Sound-WritesKeep = record {
    set_keeps = λ key value t e e' h s.
        let (l, eq) = set_lem key value t e h in
        rw eq (put_version-Sound msgpack e s key t l 1 value);
    delete_keeps = λ key t e e' h s.
        let (l, eq) = delete_lem key t e h in rw eq (put_version-Sound msgpack e s key t l 0 _);
    record_keeps = λ key b c e e' h s.
        let (l, _, eq) = write_write_record_lem key b c e h in
        rw eq (put_record-Sound msgpack e s key c l _);
    remove_keeps = λ key t e e' h s.
        let (l, eq) = remove_lock_lem key t e h in rw eq (delete_lock-Sound msgpack e s key t l);
  }

  prewrite-Keeps :
      (now : ℕ) (key value : Bytes) (t : ℕ) (p : Bytes)
      → Keeps (OfStorage (Sound msgpack)) (apply_prewrite msgpack now key value t p)
  prewrite-Keeps now key value t p = record {
    at = λ m s. elim (prewrite_cases msgpack now key value t p m) [
      | inl (same, _) ↦ rw same s
      | inr (_, done) ↦
          let f = fields msgpack now key value t p in
          let (l, eq) = put_lock_lem msgpack key t f m.storage done.taken in
          rw done.after (
            rw eq (
              put_lock-Sound msgpack m.storage s key t l f refl
                (lock_free msgpack key m.storage l.legal s done.lock done.no_lock done.free)))
    ];
  }

  -- Whatever the command, refused and failing ones included, the machine's storage afterwards has
  -- rows of legal keys at 64-bit timestamps only, versions that decode, and at most one lock to a
  -- key, which is held.
  pub apply-Sound :
      (codec : CommandCodec) (now : ℕ) (command : Bytes) (m : Machine)
      → Sound msgpack m.storage
      → Sound msgpack (apply msgpack codec now command m).1.storage
  apply-Sound = apply-Keeps (Sound msgpack) Sound-WritesKeep msgpack prewrite-Keeps

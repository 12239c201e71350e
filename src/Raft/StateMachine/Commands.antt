-- ===== src/Raft/StateMachine/Commands.antt =====
-- A property of the storage is kept by every command if it is kept by each write and by a
-- prewrite, whose lock is taken only behind its tests.
use oxide_db.Base.{ℕ, ◌≡◌, Option, none, some, Option-cases, inl, inr}
use oxide_db.Base.Bytes.{Bytes}
use oxide_db.Storage.Engine.{Engine}
use oxide_db.Storage.Keyspace.{ok}
use oxide_db.Storage.Mvcc
use oxide_db.Storage.Mvcc.Types.{Lock, MsgPack}
use oxide_db.Raft.StateMachine.{
  Command, set, delete, prewrite, commit, rollback, clean_lock, unknown, record_start, set_at,
  delete_at, apply_prewrite, publish, clean_lock_found, commit_lock, rollback_lock, run_command,
  apply_command, apply, CommandCodec,
}
use oxide_db.Raft.StateMachine.Actions.{Machine, write, advance}
use oxide_db.Raft.StateMachine.Keeps.{
  Keeps, Keeps-pure, Keeps-ask, Keeps-if, Keeps-bind, Keeps-write, Keeps-advance,
}

-- what `Q` says of the machine's storage
abbrev pub OfStorage : (Engine → Type 0) → Machine → Type 0
OfStorage Q m = Q m.storage

-- the writes of the storage keep `Q`
pub record WritesKeep (Q : Engine → Type 0) : Type 0 where
  pub set_keeps :
      (key value : Bytes) (t : ℕ) (e e' : Engine) → Mvcc.set key value t e ≡ ok e' → Q e → Q e'
  pub delete_keeps :
      (key : Bytes) (t : ℕ) (e e' : Engine) → Mvcc.delete key t e ≡ ok e' → Q e → Q e'
  pub record_keeps :
      (key : Bytes) (s c : ℕ) (e e' : Engine)
      → Mvcc.write_write_record key s c e ≡ ok e'
      → Q e
      → Q e'
  pub remove_keeps :
      (key : Bytes) (s : ℕ) (e e' : Engine) → Mvcc.remove_lock key s e ≡ ok e' → Q e → Q e'

module _ (Q : Engine → Type 0) (k : WritesKeep Q) where
  set-write : (key value : Bytes) (t : ℕ) → Keeps (OfStorage Q) (write (Mvcc.set key value t))
  set-write key value t = Keeps-write _ (λ m e. k.set_keeps key value t m.storage e)

  delete-write : (key : Bytes) (t : ℕ) → Keeps (OfStorage Q) (write (Mvcc.delete key t))
  delete-write key t = Keeps-write _ (λ m e. k.delete_keeps key t m.storage e)

  record_write :
      (key : Bytes) (s c : ℕ) → Keeps (OfStorage Q) (write (Mvcc.write_write_record key s c))
  record_write key s c = Keeps-write _ (λ m e. k.record_keeps key s c m.storage e)

  remove_write : (key : Bytes) (s : ℕ) → Keeps (OfStorage Q) (write (Mvcc.remove_lock key s))
  remove_write key s = Keeps-write _ (λ m e. k.remove_keeps key s m.storage e)

  advance_write : (t : ℕ) → Keeps (OfStorage Q) (advance t)
  advance_write = Keeps-advance Q

  start_write : (key : Bytes) (s : Option ℕ) (t : ℕ) → Keeps (OfStorage Q) (record_start key s t)
  unfolding record_start
  start_write key none t = Keeps-pure tt
  start_write key (some s) t = record_write key s t

  ruleset write_rules = (
    Keeps-pure, Keeps-ask, Keeps-if, Keeps-bind, set-write, delete-write, record_write,
    remove_write, advance_write, start_write,
  )

  set_at-Keeps :
      (key value : Bytes) (s : Option ℕ) (t : ℕ) → Keeps (OfStorage Q) (set_at key value s t)
  unfolding set_at
  set_at-Keeps key value s t = search write_rules depth 12

  delete_at-Keeps : (key : Bytes) (t : ℕ) → Keeps (OfStorage Q) (delete_at key t)
  unfolding delete_at
  delete_at-Keeps key t = search write_rules depth 12

  publish-Keeps : (key : Bytes) (s c : ℕ) (l : Lock) → Keeps (OfStorage Q) (publish key s c l)
  unfolding publish
  publish-Keeps key s c l = search write_rules depth 12

  clean-Keeps :
      (key : Bytes) (s : Option ℕ) (o : Option Lock)
      → Keeps (OfStorage Q) (clean_lock_found key s o)
  unfolding clean_lock_found
  clean-Keeps key s none = Keeps-pure _
  clean-Keeps key s (some l) = search write_rules depth 12

  module _ (msgpack : MsgPack) where
    commit-Keeps :
        (key : Bytes) (s c : ℕ) (o : Option Lock)
        → Keeps (OfStorage Q) (commit_lock msgpack key s c o)
    unfolding commit_lock
    commit-Keeps key s c none = search write_rules depth 12
    commit-Keeps key s c (some l) = publish-Keeps key s c l

    rollback-Keeps :
        (key : Bytes) (s : ℕ) (o : Option Lock)
        → Keeps (OfStorage Q) (rollback_lock msgpack key s o)
    unfolding rollback_lock
    rollback-Keeps key s none = search write_rules depth 12
    rollback-Keeps key s (some l) = search write_rules depth 12

    module _
        (prewrite_keeps : (now : ℕ) (key value : Bytes) (s : ℕ) (p : Bytes)
          → Keeps (OfStorage Q) (apply_prewrite msgpack now key value s p)) where
      run-Keeps : (now : ℕ) (c : Command) → Keeps (OfStorage Q) (run_command msgpack now c)
      unfolding run_command
      run-Keeps now (set key value t s) = record { at = λ m. (set_at-Keeps key value s _).at m }
      run-Keeps now (delete key t) = record { at = λ m. (delete_at-Keeps key _).at m }
      run-Keeps now (prewrite key value s p) = prewrite_keeps now key value s p
      run-Keeps now (commit key s c) = Keeps-bind _ _ (Keeps-ask _) (commit-Keeps key s c)
      run-Keeps now (rollback key s) = Keeps-bind _ _ (Keeps-ask _) (rollback-Keeps key s)
      run-Keeps now (clean_lock key s) = Keeps-bind _ _ (Keeps-ask _) (clean-Keeps key s)
      run-Keeps now unknown = Keeps-pure _

      pub apply-Keeps :
          (codec : CommandCodec) (now : ℕ) (command : Bytes) (m : Machine)
          → Q m.storage
          → Q (apply msgpack codec now command m).1.storage
      unfolding apply apply_command
      apply-Keeps codec now command m h = elim (Option-cases (codec.unpack command)) [
        | inl e ↦ rw (e, apply) h
        | inr (c, e) ↦ rw (e, apply) ((run-Keeps now c).at m h)
      ]

-- ===== src/Raft/StateMachine/Snapshots.antt =====
-- oxidedb/raft/state_machine.py: `snapshot` and `restore` of `MVCCStateMachine`.
use oxide_db.Base.{◌≡◌, ◌≢◌, refl, ap, ◌∙◌, [], ◌∷◌, if◌then◌else◌}
use oxide_db.Base.Bytes.{Bytes}
use oxide_db.Storage.Engine
use oxide_db.Storage.Engine.{in_range}
use oxide_db.Storage.Keyspace.{ok, all_start, all_end}
use oxide_db.Storage.Mvcc
use oxide_db.Storage.Mvcc.Dump.{get-load-dump}
use oxide_db.Storage.Mvcc.Types.{MsgPack}
use oxide_db.Raft.StateMachine.Actions.{Machine}
use oxide_db.Raft.StateMachine.Reads.{StateCodec, snapshot, restore, restore_from, restored}

module _ (msgpack : MsgPack) (codec : StateCodec) where
  restore-nonempty :
      (blob : Bytes) (m : Machine)
      → blob ≢ []
      → restore msgpack codec blob m ≡ restore_from msgpack codec m (codec.unpack_state blob)
  unfolding restore
  restore-nonempty [] m h = absurd (h refl)
  restore-nonempty (b ∷ blob) m h = refl

  -- Restoring a snapshot on any machine gives it the timestamp of the one that was taken, and each
  -- key of the keyspace what it had there, absent ones included; other keys are as they were.
  pub restore-snapshot :
      (m target : Machine)
      → (after : Machine) × ((restore msgpack codec (snapshot msgpack codec m) target ≡ ok after)
          × ((after.last_applied_timestamp ≡ m.last_applied_timestamp)
              × ((k : Bytes)
                  → Engine.get k after.storage ≡ (
                      if in_range all_start all_end k
                      then Engine.get k m.storage
                      else Engine.get k target.storage))))
  unfolding snapshot
  restore-snapshot m target =
      let (e, loaded, same) = get-load-dump msgpack m.storage target.storage in
      let dump = Mvcc.dump msgpack m.storage in
      let ts = m.last_applied_timestamp in
      let blob = codec.pack_state ts dump in
      let read : restore msgpack codec blob target
          ≡ restored msgpack codec target ts (Mvcc.load msgpack dump target.storage) =
        restore-nonempty blob target (codec.pack_state_nonempty ts dump)
        ∙ ap (restore_from msgpack codec target) (codec.unpack_pack_state ts dump) in
      (
        record { storage = e; last_applied_timestamp = ts },
        (read ∙ ap (restored msgpack codec target ts) loaded, (refl, same)),
      )

-- ===== src/Raft/Node/Install.antt =====
-- oxidedb/raft/node.py: `install_snapshot`, the state itself for a follower behind the log.
use oxide_db.Base.{Bool, true, false, Option, none, some, ltb, leb, if◌then◌else◌, filter, max}
use oxide_db.Raft.Disk
use oxide_db.Raft.Node.{
  Node, StateMachine, InstallSnapshotRequest, InstallSnapshotResponse, on_disk, save_commit_index,
}
use oxide_db.Raft.Node.Append.{follow_term, follow_leader, settle_term}

module _ {S : Type 0} where
  -- the state after the machine is restored
  unfoldable pub install : InstallSnapshotRequest → S → Node S → Node S
  unfolding save_commit_index
  install r machine n = save_commit_index (record n {
    machine = machine;
    log = filter (λ e. ltb r.last_included_index e.index) n.log;
    storage =
        on_disk
          (λ d.
            Disk.compact_log r.last_included_index
              (Disk.save_snapshot r.last_included_index r.last_included_term r.blob d))
          n.storage;
    last_included_index = r.last_included_index;
    last_included_term = r.last_included_term;
    last_applied = r.last_included_index;
    commit_index = max n.commit_index r.last_included_index;
  })

  abbrev pub answer_install : Bool → Node S → Node S × Option InstallSnapshotResponse
  answer_install success n = (n, some (record { term = n.current_term; success = success }))

  -- `restore` may raise, and then there is no answer and the log is as it was
  abbrev pub install_restored :
      InstallSnapshotRequest → Option S → Node S → Node S × Option InstallSnapshotResponse
  install_restored r none n = (n, none)
  install_restored r (some machine) n = answer_install true (install r machine n)

module _ {S : Type 0} (sm : StateMachine S) where
  -- `install_snapshot`
  unfoldable pub install_snapshot :
      InstallSnapshotRequest → Node S → Node S × Option InstallSnapshotResponse
  unfolding follow_term follow_leader settle_term install
  install_snapshot r n =
      let changed = ltb n.current_term r.term in
      let n1 = follow_term r.term n in
      if ltb r.term n1.current_term
      then answer_install false (settle_term changed n1)
      else (let n2 = settle_term changed (follow_leader r.leader_id n1) in
          if leb r.last_included_index n2.last_applied
          then answer_install true n2
          else install_restored r (sm.restore r.blob n2.machine) n2)

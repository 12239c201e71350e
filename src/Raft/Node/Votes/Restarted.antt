-- ===== src/Raft/Node/Votes/Restarted.antt =====
-- oxidedb/raft/node.py: a node that starts again has the vote that its disk has.
use oxide_db.Base.{ℕ, ◌≡◌, refl, Option, none, some, arith, max, min}
use oxide_db.Raft.Disk.{Disk, Snapshot}
use oxide_db.Raft.Node.{Node, StateMachine, last_log_index}
use oxide_db.Raft.Node.Apply.{apply_committed_entries}
use oxide_db.Raft.Node.Load.{
  fresh, loaded, load_snapshot, load_commit, load_disk, load_from_storage, with_machine,
  from_snapshot,
}
use oxide_db.Raft.Node.Steps.{restart}
use oxide_db.Raft.Node.Votes.{disk_ballot, ballot-apply_committed_entries}
use oxide_db.Raft.Node.Votes.Once.{Kept, HoldsDisk, same}

module _ {S : Type 0} (term c : ℕ) (sm : StateMachine S) where
  load_commit-Remembers : (d : Disk) (n : Node S) → Kept term c n → Kept term c (load_commit sm d n)
  unfolding load_commit
  load_commit-Remembers d n h =
      let n2 : Node S = record n {
        commit_index = max (min d.commit_index (last_log_index n)) n.last_applied;
      } in
      same term c n (apply_committed_entries sm n2) (ballot-apply_committed_entries sm n2) h

  -- where a load gives a node, it has what the disk says
  load_snapshot-Remembers :
      (d : Disk) (found : Option Snapshot) (n : Node S) {n' : Node S}
      → Kept term c n
      → loaded sm d (load_snapshot sm found n) ≡ some n'
      → Kept term c n'
  load_snapshot-Remembers d none n {n'} h eq =
      let at : load_commit sm d n ≡ n' = ground (arith, eq) in
      let k : Kept term c (load_commit sm d n) = load_commit-Remembers d n h in rw at at k
  load_snapshot-Remembers d (some s) n {n'} h eq = on (sm.restore s.blob n.machine) eq
    where
      on : (m : Option S) → loaded sm d (with_machine s m n) ≡ some n' → Kept term c n'
      on none eq = absurd (ground arith)
      on (some m) eq =
          let n2 : Node S = from_snapshot s m n in
          let here : load_commit sm d n2 ≡ n' = ground (arith, eq) in
          let k : Kept term c (load_commit sm d n2) =
            load_commit-Remembers d n2 (same term c n n2 refl h) in
          rw here at k

  pub restart-Remembers :
      (machine : S) (n : Node S) {n' : Node S}
      → Kept term c n
      → restart sm machine n ≡ some n'
      → Kept term c n'
  unfolding load_from_storage fresh
  restart-Remembers machine n {n'} h eq = on n.storage h.disk eq
    where
      on :
          (s : Option Disk)
          → HoldsDisk term c (disk_ballot s)
          → load_disk sm s
              (fresh n.node_id n.peers machine s n.snapshot_interval n.apply_results_window)
            ≡ some n'
          → Kept term c n'
      on none k eq = absurd (ground arith)
      on (some d) k eq =
          load_snapshot-Remembers d d.snapshot
            (record (fresh n.node_id n.peers machine (some d) n.snapshot_interval
              n.apply_results_window) {
                current_term = d.current_term;
                voted_for = d.voted_for;
                log = d.log;
              })
            (record { memory = k; disk = k }) eq

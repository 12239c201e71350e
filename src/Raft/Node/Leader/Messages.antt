-- ===== src/Raft/Node/Leader/Messages.antt =====
-- oxidedb/raft/node.py: `_replicate` and the requests that `_append_entries` and
-- `_install_snapshot` build, from the copy of the log that the leader took.
use oxide_db.Base.{
  ℕ, ◌+◌, ◌-◌, Bool, true, ◌&&◌, Option, none, some, List, [], ltb, leb, ◌==◌, if◌then◌else◌,
  filter,
}
use oxide_db.Raft.Disk.{LogEntry, Disk}
use oxide_db.Raft.Node.{
  Node, AppendEntriesRequest, InstallSnapshotRequest, entry_in, last_log_index,
}

-- the copy that the leader takes under its lock
pub record Copy : Type 0 where
  pub term : ℕ
  pub leader_id : ℕ
  pub log : List LogEntry
  pub log_base : ℕ
  pub log_base_term : ℕ
  pub last_log_index : ℕ
  pub leader_commit : ℕ

unfoldable pub copy_of : {S : Type 0} → Node S → Copy
copy_of n = record {
  term = n.current_term;
  leader_id = n.node_id;
  log = n.log;
  log_base = n.last_included_index;
  log_base_term = n.last_included_term;
  last_log_index = last_log_index n;
  leader_commit = n.commit_index;
}

abbrev pub next_or : ℕ → Option ℕ → ℕ
next_or last none = last + 1
next_or last (some i) = i

-- the term of the entry before the new ones: the log's, the snapshot's at its boundary, or 0
abbrev prev_term : Copy → ℕ → Option LogEntry → ℕ
prev_term c index (some e) = e.term
prev_term c index none = if index == c.log_base then c.log_base_term else 0

-- the request that `_append_entries` sends, none where nothing is left to append
unfoldable pub append_request : Copy → Option ℕ → Option AppendEntriesRequest
append_request c next =
    let next_index = next_or c.last_log_index next in
    if leb next_index c.log_base
    then none
    else (let prev = next_index - 1 in
        some (record {
          term = c.term;
          leader_id = c.leader_id;
          prev_log_index = prev;
          prev_log_term = prev_term c prev (entry_in c.log c.log_base prev);
          entries = if ltb prev c.last_log_index then filter (λ e. ltb prev e.index) c.log else [];
          leader_commit = c.leader_commit;
        }))

abbrev behind : ℕ → Option ℕ → Bool
behind base none = true
behind base (some i) = leb i base

-- `_replicate` sends the snapshot to a peer that has fallen behind the compacted prefix
unfoldable pub needs_snapshot : Copy → Option ℕ → Bool
needs_snapshot c next = ltb 0 c.log_base && behind c.log_base next

abbrev of_disk : ℕ → ℕ → Option Disk → Option InstallSnapshotRequest
of_disk term id none = none
of_disk term id (some d) = elim d.snapshot [
  | none ↦ none
  | some s ↦ some (record {
    term = term;
    leader_id = id;
    last_included_index = s.index;
    last_included_term = s.term;
    blob = s.blob;
  })
]

-- the request that `_install_snapshot` sends
unfoldable pub snapshot_request : {S : Type 0} → ℕ → Node S → Option InstallSnapshotRequest
snapshot_request term n = of_disk term n.node_id n.storage

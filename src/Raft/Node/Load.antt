-- ===== src/Raft/Node/Load.antt =====
-- oxidedb/raft/node.py: a node that starts on what its disk holds.
use oxide_db.Base.{ℕ, false, Option, none, some, List, [], ltb, filter, min, max}
use oxide_db.Raft.Disk.{Disk, Snapshot}
use oxide_db.Raft.Node.{Node, StateMachine, FreezeReason, follower, last_log_index}
use oxide_db.Raft.Node.Apply.{apply_committed_entries}

module _ {S : Type 0} where
  -- `__init__`, up to `_load_from_storage`
  unfoldable pub fresh : ℕ → List ℕ → S → Option Disk → ℕ → ℕ → Node S
  fresh node_id peers machine storage snapshot_interval window = record {
    node_id = node_id;
    peers = peers;
    machine = machine;
    storage = storage;
    state = follower;
    current_term = 0;
    voted_for = none;
    leader_id = none;
    log = [];
    commit_index = 0;
    last_applied = 0;
    last_included_index = 0;
    last_included_term = 0;
    snapshot_interval = snapshot_interval;
    next_index = [];
    match_index = [];
    votes_received = [];
    writes_frozen = false;
    freeze_reason = FreezeReason.split;
    proposes = 0;
    apply_results = [];
    apply_results_window = window;
  }

  -- what the snapshot covers leaves the log
  abbrev pub from_snapshot : Snapshot → S → Node S → Node S
  from_snapshot s machine n = record n {
    machine = machine;
    last_included_index = s.index;
    last_included_term = s.term;
    last_applied = s.index;
    log = filter (λ e. ltb s.index e.index) n.log;
  }

  abbrev pub with_machine : Snapshot → Option S → Node S → Option (Node S)
  with_machine s none n = none
  with_machine s (some machine) n = some (from_snapshot s machine n)

module _ {S : Type 0} (sm : StateMachine S) where
  abbrev pub load_snapshot : Option Snapshot → Node S → Option (Node S)
  load_snapshot none n = some n
  load_snapshot (some s) n = with_machine s (sm.restore s.blob n.machine) n

  -- only committed entries are handed to the state machine
  unfoldable pub load_commit : Disk → Node S → Node S
  unfolding apply_committed_entries
  load_commit d n =
      apply_committed_entries sm
        (record n { commit_index = max (min d.commit_index (last_log_index n)) n.last_applied })

  abbrev pub loaded : Disk → Option (Node S) → Option (Node S)
  loaded d none = none
  loaded d (some n) = some (load_commit d n)

  abbrev pub load_disk : Option Disk → Node S → Option (Node S)
  load_disk none n = some n
  load_disk (some d) n = loaded d (
      load_snapshot d.snapshot
        (record n { current_term = d.current_term; voted_for = d.voted_for; log = d.log }))

  -- `_load_from_storage`; none where the machine cannot be restored
  unfoldable pub load_from_storage : Node S → Option (Node S)
  unfolding load_commit
  load_from_storage n = load_disk n.storage n

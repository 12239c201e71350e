-- ===== src/Raft/Node.antt =====
-- oxidedb/raft/node.py: the state of `MemoryRaftNode`, the messages, and the reads of the log.
-- Deadlines, threads and the pool of RPCs are not part of the state: a handler may run whenever
-- its message is there, in any order.
pub mod Apply
pub mod Commit
pub mod Election
pub mod Append
pub mod Install
pub mod Leader
pub mod Load
pub mod Log
pub mod WellFormed
pub mod Keeps
pub mod Answers
pub mod Steps
pub mod Votes
use oxide_db.Base.{
  ℕ, ◌+◌, ◌-◌, Bool, true, false, Option, none, some, List, [], ◌∷◌, ◌++◌, ltb, leb, if◌then◌else◌,
  get_elem?, last?,
}
use oxide_db.Base.Bytes.{Bytes}
use oxide_db.Raft.Disk
use oxide_db.Raft.Disk.{Disk, LogEntry}
use oxide_db.Raft.StateMachine.{ApplyResult}

pub data NodeState : Type 0 where
  follower candidate leader : NodeState

-- what the node needs of its state machine: `snapshot` and `restore` may raise
pub record StateMachine (S : Type 0) : Type 0 where
  pub apply : Bytes → S → ApplyResult × S
  pub snapshot : S → Option Bytes
  pub restore : Bytes → S → Option S

-- `FREEZE_SPLIT` and `FREEZE_MIGRATION`
pub data FreezeReason : Type 0 where
  split migration : FreezeReason

pub record Node (S : Type 0) : Type 0 where
  pub node_id : ℕ
  pub peers : List ℕ
  pub machine : S
  pub storage : Option Disk
  pub state : NodeState
  pub current_term : ℕ
  pub voted_for : Option ℕ
  pub leader_id : Option ℕ
  pub log : List LogEntry
  pub commit_index : ℕ
  pub last_applied : ℕ
  pub last_included_index : ℕ
  pub last_included_term : ℕ
  pub snapshot_interval : ℕ
  pub next_index : List (ℕ × ℕ)
  pub match_index : List (ℕ × ℕ)
  pub votes_received : List ℕ
  pub writes_frozen : Bool
  pub freeze_reason : FreezeReason
  pub proposes : ℕ
  pub apply_results : List (ℕ × ApplyResult)
  pub apply_results_window : ℕ

pub record RequestVoteRequest : Type 0 where
  pub term : ℕ
  pub candidate_id : ℕ
  pub last_log_index : ℕ
  pub last_log_term : ℕ

pub record RequestVoteResponse : Type 0 where
  pub term : ℕ
  pub vote_granted : Bool

pub record AppendEntriesRequest : Type 0 where
  pub term : ℕ
  pub leader_id : ℕ
  pub prev_log_index : ℕ
  pub prev_log_term : ℕ
  pub entries : List LogEntry
  pub leader_commit : ℕ

pub record AppendEntriesResponse : Type 0 where
  pub term : ℕ
  pub success : Bool
  pub match_index : ℕ

pub record InstallSnapshotRequest : Type 0 where
  pub term : ℕ
  pub leader_id : ℕ
  pub last_included_index : ℕ
  pub last_included_term : ℕ
  pub blob : Bytes

pub record InstallSnapshotResponse : Type 0 where
  pub term : ℕ
  pub success : Bool

-- `NOOP_COMMAND`
abbrev pub noop_command : Bytes
noop_command = []

-- `_entry_in`: the entry at `index` of a log whose first entry is at `log_base + 1`
unfoldable pub entry_in : List LogEntry → ℕ → ℕ → Option LogEntry
entry_in log log_base index =
    if ltb log_base index then get_elem? log (index - log_base - 1) else none

abbrev pub index_or : ℕ → Option LogEntry → ℕ
index_or base none = base
index_or base (some e) = e.index

abbrev pub term_or : ℕ → Option LogEntry → ℕ
term_or term none = term
term_or term (some e) = e.term

-- `if self._storage is not None: ...`
abbrev pub on_disk : (Disk → Disk) → Option Disk → Option Disk
on_disk f none = none
on_disk f (some d) = some (f d)

module _ {S : Type 0} where
  unfoldable pub last_log_index : Node S → ℕ
  last_log_index n = index_or n.last_included_index (last? n.log)

  unfoldable pub last_log_term : Node S → ℕ
  last_log_term n = term_or n.last_included_term (last? n.log)

  unfoldable pub entry_at : Node S → ℕ → Option LogEntry
  unfolding entry_in
  entry_at n index = entry_in n.log n.last_included_index index

  unfoldable pub save_meta : Node S → Node S
  unfolding Disk.save_meta
  save_meta n = record n { storage = on_disk (Disk.save_meta n.current_term n.voted_for) n.storage }

  unfoldable pub save_commit_index : Node S → Node S
  unfolding Disk.save_commit_index
  save_commit_index n = record n {
    storage = on_disk (Disk.save_commit_index n.commit_index) n.storage;
  }

  -- `self._log.append(entry); self._save_log_entry(entry)`
  unfoldable pub append_entry : LogEntry → Node S → Node S
  unfolding Disk.append_log_entry
  append_entry e n = record n {
    log = n.log ++ e ∷ [];
    storage = on_disk (Disk.append_log_entry e) n.storage;
  }

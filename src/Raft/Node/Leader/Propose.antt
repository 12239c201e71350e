-- ===== src/Raft/Node/Leader/Propose.antt =====
-- oxidedb/raft/node.py: `propose` and `_propose_command`, the freeze, and the ReadIndex handshake.
use oxide_db.Base.{
  ℕ, ◌+◌, ◌-◌, Bool, true, false, ◌&&◌, ◌||◌, not, Option, none, some, ltb, ◌==◌, if◌then◌else◌,
}
use oxide_db.Base.Bytes.{Bytes}
use oxide_db.Raft.Disk.{LogEntry}
use oxide_db.Raft.ErrorCode
use oxide_db.Raft.StateMachine.{ApplyResult, CommandCodec, failure, succeeded, writes_new_data}
use oxide_db.Raft.Node.{Node, StateMachine, FreezeReason, last_log_index, entry_at, append_entry}
use oxide_db.Raft.Node.Apply.{get_result}
use oxide_db.Raft.Node.Commit.{majority, of_term, update_commit_index}
use oxide_db.Raft.Node.Election.{is_leader}

-- `FREEZE_REFUSALS`
abbrev pub freeze_refusal : FreezeReason → ℕ
freeze_refusal FreezeReason.split = ErrorCode.err_split_in_progress
freeze_refusal FreezeReason.migration = ErrorCode.err_migrating

-- what a call finds when it is let in: an answer at once, or the way on
pub data Admission : Type 0 where
  refuse : ApplyResult → Admission
  admit : Admission

abbrev pub overwritten : ℕ → Option LogEntry → Bool
overwritten term none = false
overwritten term (some e) = not (e.term == term)

abbrev pub answer_at : ℕ → Option ApplyResult → ApplyResult
answer_at index none = record succeeded { index = some index }
answer_at index (some r) = record r { index = some index }

module _ {S : Type 0} where
  -- the first part of `propose`
  unfoldable pub enter : CommandCodec → Bytes → Node S → Admission × Node S
  enter codec command n =
      if not (is_leader n.state)
      then (refuse (failure ErrorCode.err_not_leader), n)
      else if n.writes_frozen && writes_new_data codec command
      then (refuse (failure (freeze_refusal n.freeze_reason)), n)
      else (admit, record n { proposes = n.proposes + 1 })

  -- the `finally` of `propose`
  unfoldable pub leave : Node S → Node S
  leave n = record n { proposes = n.proposes - 1 }

  unfoldable pub freeze_writes : FreezeReason → Node S → Node S
  freeze_writes reason n = record n { writes_frozen = true; freeze_reason = reason }

  unfoldable pub resume_writes : Node S → Node S
  resume_writes n = record n { writes_frozen = false }

  -- `has_committed_in_its_own_term`
  unfoldable pub has_committed_in_its_own_term : Node S → Bool
  has_committed_in_its_own_term n =
      is_leader n.state && of_term n.current_term (entry_at n n.commit_index)

  -- One look of the waiting loop of `_propose_command` at the node, for the entry at `index` of
  -- `term`; `timed_out` says that the deadline has passed, and none is another wait.
  unfoldable pub outcome : ℕ → ℕ → Bool → Node S → Option ApplyResult
  unfolding get_result
  outcome index term timed_out n =
      if ltb n.commit_index index
      then (if not (is_leader n.state) || not (n.current_term == term)
          then some (failure ErrorCode.err_leadership_lost)
          else if timed_out
          then some (failure ErrorCode.err_timeout)
          else none)
      else if overwritten term (entry_at n index)
      then some (failure ErrorCode.err_entry_overwritten)
      else some (answer_at index (get_result index n.apply_results))

module _ {S : Type 0} (sm : StateMachine S) where
  -- the first part of `_propose_command`: the entry's index and term, none where the node does
  -- not lead
  unfoldable pub append_command : Bytes → Node S → Option (ℕ × ℕ) × Node S
  unfolding append_entry update_commit_index
  append_command command n =
      let index = last_log_index n + 1 in
      if is_leader n.state
      then (
        some (index, n.current_term),
        update_commit_index sm
            (append_entry (record { term = n.current_term; index = index; command = command }) n),
      )
      else (none, n)

  -- The end of `_read_index` on a node that has asked its peers: the index of the read, or none
  -- where leadership was lost or the quorum did not answer.
  unfoldable pub confirm_read : ℕ → ℕ → Node S → Option ℕ × Node S
  unfolding update_commit_index
  confirm_read term acks n =
      if not (is_leader n.state) || not (n.current_term == term)
      then (none, n)
      else if ltb acks (majority n.peers)
      then (none, n)
      else (let n' = update_commit_index sm n in (some n'.commit_index, n'))

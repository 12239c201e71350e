-- ===== src/Raft/Node/Append.antt =====
-- oxidedb/raft/node.py: `append_entries`, the follower's side of replication.
pub mod Bounds
pub mod Matching
use oxide_db.Base.{
  ℕ, ◌+◌, ◌-◌, Bool, true, false, ◌&&◌, ◌||◌, not, Option, none, some, List, [], ◌∷◌, ltb, leb,
  ◌==◌, if◌then◌else◌, take, min,
}
use oxide_db.Raft.Disk
use oxide_db.Raft.Disk.{LogEntry}
use oxide_db.Raft.Node.{
  Node, NodeState, StateMachine, follower, candidate, leader, AppendEntriesRequest,
  AppendEntriesResponse, last_log_index, entry_at, on_disk, save_meta, save_commit_index,
  append_entry,
}
use oxide_db.Raft.Node.Apply.{apply_committed_entries}

abbrev votes_of_follower : NodeState → List ℕ → List ℕ
votes_of_follower follower votes = votes
votes_of_follower _ votes = []

module _ {S : Type 0} where
  -- `if request.term > self._current_term: ...`; the belief about the leader stays
  unfoldable pub follow_term : ℕ → Node S → Node S
  follow_term term n =
      if ltb n.current_term term
      then record n { current_term = term; state = follower; voted_for = none; votes_received = [] }
      else n

  -- a message of this term is the proof that its sender leads
  unfoldable pub follow_leader : ℕ → Node S → Node S
  follow_leader id n = record n {
    state = follower;
    votes_received = votes_of_follower n.state n.votes_received;
    leader_id = some id;
  }

  -- `if term_changed: self._save_meta()`
  unfoldable pub settle_term : Bool → Node S → Node S
  unfolding save_meta
  settle_term changed n = if changed then save_meta n else n

  abbrev pub prev_term_ok : AppendEntriesRequest → Node S → Option LogEntry → Bool
  prev_term_ok r n none =
      not
        (r.prev_log_index == n.last_included_index && not (r.prev_log_term == n.last_included_term))
  prev_term_ok r n (some e) = e.term == r.prev_log_term

  -- the entry before the new ones is in this log, with the leader's term
  unfoldable pub prev_ok : AppendEntriesRequest → Node S → Bool
  prev_ok r n =
      leb r.prev_log_index (last_log_index n) && prev_term_ok r n (entry_at n r.prev_log_index)

  -- the suffix from a conflicting entry on is dropped, on the disk too
  unfoldable pub drop_from : ℕ → Node S → Node S
  drop_from index n =
      let log = take (index - n.last_included_index - 1) n.log in
      let short = record n { log = log; storage = on_disk (Disk.truncate_log index) n.storage } in
      let commit = min n.commit_index (last_log_index short) in
      record short { commit_index = commit; last_applied = min n.last_applied commit }

  abbrev pub place_entry : LogEntry → Option LogEntry → Node S → Node S
  place_entry e none n = append_entry e n
  place_entry e (some existing) n =
      if existing.term == e.term then n else append_entry e (drop_from e.index n)

  -- one round of the loop over the entries of a request
  unfoldable pub add_entry : LogEntry → Node S → Node S
  unfolding append_entry drop_from
  add_entry e n =
      if leb e.index n.last_included_index then n else place_entry e (entry_at n e.index) n

  unfoldable pub add_entries : List LogEntry → Node S → Node S
  add_entries [] n = n
  add_entries (e ∷ l) n = add_entries l (add_entry e n)

  abbrev pub refuse_append : Node S → Node S × AppendEntriesResponse
  refuse_append n = (n, record { term = n.current_term; success = false; match_index = 0 })

module _ {S : Type 0} (sm : StateMachine S) where
  -- `if request.leader_commit > self._commit_index: ...`
  unfoldable pub follow_commit : ℕ → Node S → Node S
  unfolding apply_committed_entries save_commit_index
  follow_commit leader_commit n =
      if ltb n.commit_index leader_commit
      then apply_committed_entries sm
          (save_commit_index (record n { commit_index = min leader_commit (last_log_index n) }))
      else n

  -- the entries of a request whose predecessor is there
  unfoldable pub take_entries :
      AppendEntriesRequest → Bool → Node S → Node S × AppendEntriesResponse
  unfolding settle_term follow_commit
  take_entries r changed n =
      let n' = settle_term changed (add_entries r.entries n) in
      (
        follow_commit r.leader_commit n',
        record { term = n'.current_term; success = true; match_index = last_log_index n' },
      )

  -- `append_entries`
  unfoldable pub append_entries : AppendEntriesRequest → Node S → Node S × AppendEntriesResponse
  unfolding follow_term follow_leader settle_term prev_ok take_entries
  append_entries r n =
      let changed = ltb n.current_term r.term in
      let n1 = follow_term r.term n in
      if ltb r.term n1.current_term
      then refuse_append (settle_term changed n1)
      else (let n2 = follow_leader r.leader_id n1 in
          if prev_ok r n2
          then take_entries r changed n2
          else refuse_append (settle_term changed n2))

-- ===== src/Raft/Node/Leader.antt =====
-- oxidedb/raft/node.py: the leader's side: what it sends to a peer, what it does with the answers,
-- proposals, the freeze, and the index of a read.
pub mod Messages
pub mod Propose
use oxide_db.Base.{
  ℕ, ◌+◌, ◌-◌, Bool, true, false, ◌&&◌, Option, none, some, List, [], ◌∷◌, ltb, leb, ◌==◌,
  if◌then◌else◌, max, length,
}
use oxide_db.Raft.Node.{
  Node, NodeState, StateMachine, follower, AppendEntriesResponse, InstallSnapshotResponse,
}
use oxide_db.Raft.Node.Commit.{update_commit_index}
use oxide_db.Raft.Node.Election.{is_leader}

-- `d[key] = value` and `d.get(key)`
unfoldable pub set_index : ℕ → ℕ → List (ℕ × ℕ) → List (ℕ × ℕ)
set_index key value [] = (key, value) ∷ []
set_index key value ((k, v) ∷ l) =
    let rest = set_index key value l in if key == k then (key, value) ∷ l else (k, v) ∷ rest

unfoldable pub get_index : ℕ → List (ℕ × ℕ) → Option ℕ
get_index key [] = none
get_index key ((k, v) ∷ l) = if key == k then some v else get_index key l

abbrev pub index_or_one : Option ℕ → ℕ
index_or_one none = 1
index_or_one (some i) = i

module _ {S : Type 0} where
  -- a peer that answers with a newer term: the term is adopted in memory and not saved
  unfoldable pub step_down : ℕ → Node S → Node S
  step_down term n = record n {
    current_term = term;
    state = follower;
    leader_id = none;
    voted_for = none;
  }

  -- `self._next_index[peer_id] = max(1, self._next_index.get(peer_id, 1) - 1)`
  unfoldable pub back_off : ℕ → Node S → Node S
  unfolding set_index get_index
  back_off peer_id n = record n {
    next_index =
        set_index peer_id (max 1 (index_or_one (get_index peer_id n.next_index) - 1)) n.next_index;
  }

  -- the peer holds everything up to `index`
  unfoldable pub acknowledge : ℕ → ℕ → Node S → Node S
  unfolding set_index
  acknowledge peer_id index n = record n {
    next_index = set_index peer_id (index + 1) n.next_index;
    match_index = set_index peer_id index n.match_index;
  }

module _ {S : Type 0} (sm : StateMachine S) where
  -- what `_append_entries` does with an answer
  unfoldable pub on_append_response : ℕ → AppendEntriesResponse → Node S → Node S
  unfolding step_down back_off acknowledge update_commit_index
  on_append_response peer_id r n =
      if ltb n.current_term r.term
      then step_down r.term n
      else if is_leader n.state
      then (if r.success
          then update_commit_index sm (acknowledge peer_id r.match_index n)
          else back_off peer_id n)
      else n

  -- what `_install_snapshot` does with an answer to the snapshot at `index`
  unfoldable pub on_snapshot_response : ℕ → ℕ → InstallSnapshotResponse → Node S → Node S
  unfolding step_down back_off acknowledge update_commit_index
  on_snapshot_response peer_id index r n =
      if ltb n.current_term r.term
      then step_down r.term n
      else if is_leader n.state
      then (if r.success
          then update_commit_index sm (acknowledge peer_id index n)
          else back_off peer_id n)
      else n

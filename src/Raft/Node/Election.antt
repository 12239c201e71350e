-- ===== src/Raft/Node/Election.antt =====
-- oxidedb/raft/node.py: elections, the votes that are asked for, and the votes that are given.
use oxide_db.Base.{
  ℕ, ◌+◌, Bool, true, false, ◌&&◌, ◌||◌, Option, none, some, List, [], ◌∷◌, map, ltb, leb, ◌==◌,
  if◌then◌else◌, length,
}
use oxide_db.Raft.Node.{
  Node, NodeState, StateMachine, follower, candidate, leader, RequestVoteRequest,
  RequestVoteResponse, noop_command, last_log_index, last_log_term, save_meta, append_entry,
}
use oxide_db.Raft.Node.Commit.{majority, update_commit_index}

-- `d[key] = True` of a dictionary that is read as a set
unfoldable pub add_vote : ℕ → List ℕ → List ℕ
add_vote id [] = id ∷ []
add_vote id (j ∷ l) = let rest = add_vote id l in if id == j then j ∷ l else j ∷ rest

abbrev pub is_candidate : NodeState → Bool
is_candidate candidate = true
is_candidate _ = false

abbrev pub is_leader : NodeState → Bool
is_leader leader = true
is_leader _ = false

-- `self._voted_for is None or self._voted_for == candidate_id`
abbrev pub can_vote : Option ℕ → ℕ → Bool
can_vote none id = true
can_vote (some j) id = j == id

-- the candidate's log is at least as up to date as this node's
abbrev pub log_ok : RequestVoteRequest → ℕ → ℕ → Bool
log_ok r index term =
    ltb term r.last_log_term || ((r.last_log_term == term) && leb index r.last_log_index)

module _ {S : Type 0} where
  -- what a node does about a request of a newer term
  unfoldable pub adopt_term : ℕ → Node S → Node S
  adopt_term term n = record n {
    current_term = term;
    state = follower;
    leader_id = none;
    voted_for = none;
    votes_received = [];
  }

  -- the answer to a request that is not of an older term
  unfoldable pub answer_vote : RequestVoteRequest → ℕ → ℕ → Node S → Node S × RequestVoteResponse
  unfolding save_meta
  answer_vote r index term n =
      if can_vote n.voted_for r.candidate_id && log_ok r index term
      then (
        save_meta (record n { voted_for = some r.candidate_id }),
        record { term = n.current_term; vote_granted = true },
      )
      else (n, record { term = n.current_term; vote_granted = false })

  -- `request_vote`
  unfoldable pub request_vote : RequestVoteRequest → Node S → Node S × RequestVoteResponse
  unfolding answer_vote adopt_term save_meta
  request_vote r n =
      let index = last_log_index n in
      let term = last_log_term n in
      let n' = if ltb n.current_term r.term then save_meta (adopt_term r.term n) else n in
      if ltb r.term n'.current_term
      then (n', record { term = n'.current_term; vote_granted = false })
      else answer_vote r index term n'

module _ {S : Type 0} (sm : StateMachine S) where
  -- `_append_noop_entry`
  unfoldable pub append_noop_entry : Node S → Node S
  unfolding append_entry update_commit_index
  append_noop_entry n =
      let index = last_log_index n + 1 in
      update_commit_index sm
        (append_entry (record { term = n.current_term; index = index; command = noop_command }) n)

  -- the state of a node that has won its election
  unfoldable pub lead : Node S → Node S
  lead n = record n {
    state = leader;
    leader_id = some n.node_id;
    votes_received = [];
    next_index = map (λ p. (p, last_log_index n + 1)) n.peers;
    match_index = map (λ p. (p, 0)) n.peers;
  }

  -- `_check_vote_count`, whose heartbeats are messages that `Leader` builds
  unfoldable pub check_vote_count : Node S → Node S
  unfolding lead append_noop_entry
  check_vote_count n =
      if is_candidate n.state && leb (majority n.peers) (length n.votes_received)
      then append_noop_entry (lead n)
      else n

  -- `_start_election`
  unfoldable pub start_election : Node S → Node S
  unfolding check_vote_count save_meta
  start_election n =
      if is_leader n.state
      then n
      else check_vote_count (
          save_meta (record n {
            state = candidate;
            leader_id = none;
            current_term = n.current_term + 1;
            voted_for = some n.node_id;
            votes_received = n.node_id ∷ [];
          }))

  -- what `_request_vote` does with an answer. A newer term is adopted in memory and not saved.
  unfoldable pub on_vote_response : ℕ → RequestVoteResponse → Node S → Node S
  unfolding adopt_term check_vote_count add_vote
  on_vote_response peer_id r n =
      if ltb n.current_term r.term
      then adopt_term r.term n
      else if is_candidate n.state && r.vote_granted
      then check_vote_count (record n { votes_received = add_vote peer_id n.votes_received })
      else n

-- the request that a candidate sends
unfoldable pub vote_request : {S : Type 0} → Node S → Option RequestVoteRequest
vote_request n =
    if is_candidate n.state
    then some (record {
      term = n.current_term;
      candidate_id = n.node_id;
      last_log_index = last_log_index n;
      last_log_term = last_log_term n;
    })
    else none

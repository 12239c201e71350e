-- ===== src/Raft/Node/Answers.antt =====
-- oxidedb/raft/node.py: elections, answers, proposals, reads and the freeze keep the invariant.
use oxide_db.Base.{
  not, ◌||◌, ◌==◌, ℕ, ◌+◌, refl, ap, Option, none, some, [], ◌∷◌, length, ltb, leb, ◌&&◌, if_rule,
}
use oxide_db.Base.Bytes.{Bytes}
use oxide_db.Raft.Node.{
  Node, FreezeReason, candidate, StateMachine, InstallSnapshotResponse, RequestVoteResponse,
  AppendEntriesResponse,
}
use oxide_db.Raft.Node.WellFormed.{
  WellFormed, WellFormed-view, last_log_index-eq, save_meta-WellFormed, append_entry-WellFormed,
}
use oxide_db.Raft.Node.Commit.{majority}
use oxide_db.Raft.Node.Election.{
  is_candidate, is_leader, append_noop_entry, lead, check_vote_count, start_election,
  on_vote_response, add_vote,
}
use oxide_db.Raft.Node.Leader.{
  step_down, back_off, acknowledge, on_append_response, on_snapshot_response,
}
use oxide_db.Raft.Node.Leader.Propose.{
  Admission, append_command, confirm_read, enter, leave, freeze_writes, resume_writes,
}
use oxide_db.Raft.Node.Keeps.{adopt_term-WellFormed, update_commit_index-WellFormed}
use oxide_db.Raft.StateMachine.{CommandCodec, writes_new_data}

module _ {S : Type 0} (sm : StateMachine S) where
  append_noop_entry-WellFormed : (n : Node S) → WellFormed n → WellFormed (append_noop_entry sm n)
  unfolding append_noop_entry
  append_noop_entry-WellFormed n w =
      update_commit_index-WellFormed sm _
        (append_entry-WellFormed _ n w (ap (λ i. i + 1) (last_log_index-eq n w)))

  check_vote_count-WellFormed : (n : Node S) → WellFormed n → WellFormed (check_vote_count sm n)
  unfolding check_vote_count lead
  check_vote_count-WellFormed n w =
      if_rule WellFormed (is_candidate n.state && leb (majority n.peers) (length n.votes_received))
        (λ _. append_noop_entry-WellFormed (lead sm n) (WellFormed-view n _ refl w)) (λ _. w)

  -- `_start_election` keeps the invariant, the election that it wins at once included.
  pub start_election-WellFormed : (n : Node S) → WellFormed n → WellFormed (start_election sm n)
  unfolding start_election
  start_election-WellFormed n w =
      if_rule WellFormed (is_leader n.state) (λ _. w)
        (λ _. check_vote_count-WellFormed _ (
          save_meta-WellFormed
            (record n {
              state = candidate;
              leader_id = none;
              current_term = n.current_term + 1;
              voted_for = some n.node_id;
              votes_received = n.node_id ∷ [];
            })
            (WellFormed-view n _ refl w)))

  -- The answer of a peer to a request for its vote keeps the invariant.
  pub on_vote_response-WellFormed :
      (peer : ℕ) (r : RequestVoteResponse) (n : Node S)
      → WellFormed n
      → WellFormed (on_vote_response sm peer r n)
  unfolding on_vote_response
  on_vote_response-WellFormed peer r n w =
      if_rule WellFormed (ltb n.current_term r.term) (λ _. adopt_term-WellFormed r.term n w)
        (λ _.
          if_rule WellFormed (is_candidate n.state && r.vote_granted)
            (λ _.
              check_vote_count-WellFormed
                (record n { votes_received = add_vote peer n.votes_received })
                (WellFormed-view n _ refl w))
            (λ _. w))

  -- The answer of a peer to `append_entries` keeps the invariant.
  pub on_append_response-WellFormed :
      (peer : ℕ) (r : AppendEntriesResponse) (n : Node S)
      → WellFormed n
      → WellFormed (on_append_response sm peer r n)
  unfolding on_append_response step_down acknowledge back_off
  on_append_response-WellFormed peer r n w =
      if_rule WellFormed (ltb n.current_term r.term) (λ _. WellFormed-view n _ refl w)
        (λ _.
          if_rule WellFormed (is_leader n.state)
            (λ _.
              if_rule WellFormed r.success
                (λ _.
                  update_commit_index-WellFormed sm (acknowledge peer r.match_index n)
                    (WellFormed-view n _ refl w))
                (λ _. WellFormed-view n _ refl w))
            (λ _. w))

  -- The answer of a peer to `install_snapshot` keeps the invariant.
  pub on_snapshot_response-WellFormed :
      (peer index : ℕ) (r : InstallSnapshotResponse) (n : Node S)
      → WellFormed n
      → WellFormed (on_snapshot_response sm peer index r n)
  unfolding on_snapshot_response step_down acknowledge back_off
  on_snapshot_response-WellFormed peer index r n w =
      if_rule WellFormed (ltb n.current_term r.term) (λ _. WellFormed-view n _ refl w)
        (λ _.
          if_rule WellFormed (is_leader n.state)
            (λ _.
              if_rule WellFormed r.success
                (λ _.
                  update_commit_index-WellFormed sm (acknowledge peer index n)
                    (WellFormed-view n _ refl w))
                (λ _. WellFormed-view n _ refl w))
            (λ _. w))

  -- The entry of a proposal keeps the invariant.
  pub append_command-WellFormed :
      (command : Bytes) (n : Node S) → WellFormed n → WellFormed (append_command sm command n).1
  unfolding append_command
  append_command-WellFormed command n w =
      if_rule (λ (a : Option (ℕ × ℕ) × Node S). WellFormed a.1) (is_leader n.state)
        (λ _.
          update_commit_index-WellFormed sm _
            (append_entry-WellFormed _ n w (ap (λ i. i + 1) (last_log_index-eq n w))))
        (λ _. w)

  -- The end of a read keeps the invariant.
  pub confirm_read-WellFormed :
      (term acks : ℕ) (n : Node S) → WellFormed n → WellFormed (confirm_read sm term acks n).1
  unfolding confirm_read
  confirm_read-WellFormed term acks n w =
      if_rule (λ (a : Option ℕ × Node S). WellFormed a.1)
        (not (is_leader n.state) || not (n.current_term == term)) (λ _. w)
        (λ _.
          if_rule (λ (a : Option ℕ × Node S). WellFormed a.1) (ltb acks (majority n.peers)) (λ _. w)
            (λ _. update_commit_index-WellFormed sm n w))

module _ {S : Type 0} where
  pub enter-WellFormed :
      (codec : CommandCodec) (command : Bytes) (n : Node S)
      → WellFormed n
      → WellFormed (enter codec command n).1
  unfolding enter
  enter-WellFormed codec command n w =
      if_rule (λ (a : Admission × Node S). WellFormed a.1) (not (is_leader n.state)) (λ _. w)
        (λ _.
          if_rule (λ (a : Admission × Node S). WellFormed a.1)
            (n.writes_frozen && writes_new_data codec command) (λ _. w)
            (λ _. WellFormed-view n _ refl w))

  pub leave-WellFormed : (n : Node S) → WellFormed n → WellFormed (leave n)
  unfolding leave
  leave-WellFormed n w = WellFormed-view n _ refl w

  pub freeze_writes-WellFormed :
      (reason : FreezeReason) (n : Node S) → WellFormed n → WellFormed (freeze_writes reason n)
  unfolding freeze_writes
  freeze_writes-WellFormed reason n w = WellFormed-view n _ refl w

  pub resume_writes-WellFormed : (n : Node S) → WellFormed n → WellFormed (resume_writes n)
  unfolding resume_writes
  resume_writes-WellFormed n w = WellFormed-view n _ refl w

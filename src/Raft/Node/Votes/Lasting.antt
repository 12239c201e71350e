-- ===== src/Raft/Node/Votes/Lasting.antt =====
-- oxidedb/raft/node.py: elections, answers, proposals and crashes do not forget a vote.
use oxide_db.Base.{
  not, ◌||◌, ◌==◌, ◌-◌, true, false, ℕ, ◌+◌, ◌<◌, refl, ◌∙◌, Option, none, some, [], ◌∷◌, arith,
  ltb, leb, ◌&&◌, if_rule, length, ltb→lt,
}
use oxide_db.Base.Bytes.{Bytes}
use oxide_db.Raft.Disk.{LogEntry}
use oxide_db.Raft.Node.{
  Node, FreezeReason, StateMachine, RequestVoteResponse, AppendEntriesResponse,
  InstallSnapshotResponse, candidate, noop_command, last_log_index, save_meta, append_entry,
}
use oxide_db.Raft.Node.Commit.{majority, update_commit_index}
use oxide_db.Raft.Node.Election.{
  add_vote, is_candidate, is_leader, append_noop_entry, lead, check_vote_count, start_election,
  on_vote_response,
}
use oxide_db.Raft.Node.Leader.{
  step_down, acknowledge, back_off, on_append_response, on_snapshot_response,
}
use oxide_db.Raft.Node.Leader.Propose.{
  Admission, append_command, confirm_read, enter, leave, freeze_writes, resume_writes,
}
use oxide_db.Raft.StateMachine.{CommandCodec, writes_new_data}
use oxide_db.Raft.Node.Steps.{Step, Steps}
use oxide_db.Raft.Node.Votes.{ballot-append_entry, ballot-update_commit_index}
use oxide_db.Raft.Node.Votes.Once.{
  Kept, newer, same, save_meta-Remembers, adopt_term-Remembers, request_vote-Remembers,
  append_entries-Remembers, install_snapshot-Remembers,
}
use oxide_db.Raft.Node.Votes.Restarted.{restart-Remembers}

module _ {S : Type 0} (term c : ℕ) (sm : StateMachine S) where
  check_vote_count-Remembers : (n : Node S) → Kept term c n → Kept term c (check_vote_count sm n)
  unfolding check_vote_count lead append_noop_entry
  check_vote_count-Remembers n h =
      if_rule (Kept term c)
        (is_candidate n.state && leb (majority n.peers) (length n.votes_received))
        (λ _.
          let e : LogEntry = record {
            term = n.current_term;
            index = last_log_index (lead sm n) + 1;
            command = noop_command;
          } in
          let n2 = append_entry e (lead sm n) in
          same term c n (update_commit_index sm n2)
            (ballot-update_commit_index sm n2 ∙ ballot-append_entry e (lead sm n)) h)
        (λ _. h)

  start_election-Remembers : (n : Node S) → Kept term c n → Kept term c (start_election sm n)
  unfolding start_election
  start_election-Remembers n h =
      if_rule (Kept term c) (is_leader n.state) (λ _. h)
        (λ _.
          let n1 : Node S = record n {
            state = candidate;
            leader_id = none;
            current_term = n.current_term + 1;
            voted_for = some n.node_id;
            votes_received = n.node_id ∷ [];
          } in
          let h1 : Kept term c n1 = record {
            memory = newer term c h.memory (omega arith);
            disk = h.disk;
          } in
          check_vote_count-Remembers (save_meta n1) (save_meta-Remembers term c n1 h1))

  on_vote_response-Remembers :
      (peer : ℕ) (r : RequestVoteResponse) (n : Node S)
      → Kept term c n
      → Kept term c (on_vote_response sm peer r n)
  unfolding on_vote_response
  on_vote_response-Remembers peer r n h =
      if_rule (Kept term c) (ltb n.current_term r.term)
        (λ later. adopt_term-Remembers term c r.term n h (ltb→lt n.current_term r.term later))
        (λ _.
          if_rule (Kept term c) (is_candidate n.state && r.vote_granted)
            (λ _.
              check_vote_count-Remembers
                (record n { votes_received = add_vote peer n.votes_received })
                (same term c n (record n { votes_received = add_vote peer n.votes_received }) refl
                  h))
            (λ _. h))

  step_down-Remembers :
      (t : ℕ) (n : Node S) → Kept term c n → n.current_term < t → Kept term c (step_down t n)
  unfolding step_down
  step_down-Remembers t n h later = record { memory = newer term c h.memory later; disk = h.disk }

  -- an acknowledged index and the commit that follows
  acknowledge-Remembers :
      (peer index : ℕ) (n : Node S)
      → Kept term c n
      → Kept term c (update_commit_index sm (acknowledge peer index n))
  unfolding acknowledge
  acknowledge-Remembers peer index n h =
      same term c n (update_commit_index sm (acknowledge peer index n))
        (ballot-update_commit_index sm (acknowledge peer index n)) h

  back_off-Remembers : (peer : ℕ) (n : Node S) → Kept term c n → Kept term c (back_off peer n)
  unfolding back_off
  back_off-Remembers peer n h = record { memory = h.memory; disk = h.disk }

  on_append_response-Remembers :
      (peer : ℕ) (r : AppendEntriesResponse) (n : Node S)
      → Kept term c n
      → Kept term c (on_append_response sm peer r n)
  unfolding on_append_response
  on_append_response-Remembers peer r n h =
      if_rule (Kept term c) (ltb n.current_term r.term)
        (λ later. step_down-Remembers r.term n h (ltb→lt n.current_term r.term later))
        (λ _.
          if_rule (Kept term c) (is_leader n.state)
            (λ _.
              if_rule (Kept term c) r.success (λ _. acknowledge-Remembers peer r.match_index n h)
                (λ _. back_off-Remembers peer n h))
            (λ _. h))

  on_snapshot_response-Remembers :
      (peer index : ℕ) (r : InstallSnapshotResponse) (n : Node S)
      → Kept term c n
      → Kept term c (on_snapshot_response sm peer index r n)
  unfolding on_snapshot_response
  on_snapshot_response-Remembers peer index r n h =
      if_rule (Kept term c) (ltb n.current_term r.term)
        (λ later. step_down-Remembers r.term n h (ltb→lt n.current_term r.term later))
        (λ _.
          if_rule (Kept term c) (is_leader n.state)
            (λ _.
              if_rule (Kept term c) r.success (λ _. acknowledge-Remembers peer index n h)
                (λ _. back_off-Remembers peer n h))
            (λ _. h))

  append_command-Remembers :
      (command : Bytes) (n : Node S) → Kept term c n → Kept term c (append_command sm command n).1
  unfolding append_command
  append_command-Remembers command n h =
      if_rule (λ (a : Option (ℕ × ℕ) × Node S). Kept term c a.1) (is_leader n.state)
        (λ _.
          let e : LogEntry = record {
            term = n.current_term;
            index = last_log_index n + 1;
            command = command;
          } in
          let n2 = append_entry e n in
          same term c n (update_commit_index sm n2)
            (ballot-update_commit_index sm n2 ∙ ballot-append_entry e n) h)
        (λ _. h)

  confirm_read-Remembers :
      (t acks : ℕ) (n : Node S) → Kept term c n → Kept term c (confirm_read sm t acks n).1
  unfolding confirm_read
  confirm_read-Remembers t acks n h =
      if_rule (λ (a : Option ℕ × Node S). Kept term c a.1)
        (not (is_leader n.state) || not (n.current_term == t)) (λ _. h)
        (λ _.
          if_rule (λ (a : Option ℕ × Node S). Kept term c a.1) (ltb acks (majority n.peers))
            (λ _. h)
            (λ _. same term c n (update_commit_index sm n) (ballot-update_commit_index sm n) h))

  enter-Remembers :
      (codec : CommandCodec) (command : Bytes) (n : Node S)
      → Kept term c n
      → Kept term c (enter codec command n).1
  unfolding enter
  enter-Remembers codec command n h =
      if_rule (λ (a : Admission × Node S). Kept term c a.1) (not (is_leader n.state)) (λ _. h)
        (λ _.
          if_rule (λ (a : Admission × Node S). Kept term c a.1)
            (n.writes_frozen && writes_new_data codec command) (λ _. h)
            (λ _. same term c n (record n { proposes = n.proposes + 1 }) refl h))

  leave-Remembers : (n : Node S) → Kept term c n → Kept term c (leave n)
  unfolding leave
  leave-Remembers n h = same term c n (record n { proposes = n.proposes - 1 }) refl h

  freeze_writes-Remembers :
      (reason : FreezeReason) (n : Node S) → Kept term c n → Kept term c (freeze_writes reason n)
  unfolding freeze_writes
  freeze_writes-Remembers reason n h =
      same term c n (record n { writes_frozen = true; freeze_reason = reason }) refl h

  resume_writes-Remembers : (n : Node S) → Kept term c n → Kept term c (resume_writes n)
  unfolding resume_writes
  resume_writes-Remembers n h = same term c n (record n { writes_frozen = false }) refl h

  Step-Remembers : {n n' : Node S} → Step sm n n' → Kept term c n → Kept term c n'
  Step-Remembers {n} (Step.vote r) h = request_vote-Remembers term c r n h
  Step-Remembers {n} (Step.append r f) h = append_entries-Remembers term c sm r n h
  Step-Remembers {n} (Step.snapshot r) h = install_snapshot-Remembers term c sm r n h
  Step-Remembers {n} (Step.voted peer r) h = on_vote_response-Remembers peer r n h
  Step-Remembers {n} (Step.appended peer r) h = on_append_response-Remembers peer r n h
  Step-Remembers {n} (Step.installed peer i r) h = on_snapshot_response-Remembers peer i r n h
  Step-Remembers {n} Step.elect h = start_election-Remembers n h
  Step-Remembers {n} (Step.propose command) h = append_command-Remembers command n h
  Step-Remembers {n} (Step.read t acks) h = confirm_read-Remembers t acks n h
  Step-Remembers {n} (Step.enter codec command) h = enter-Remembers codec command n h
  Step-Remembers {n} Step.leave h = leave-Remembers n h
  Step-Remembers {n} (Step.freeze reason) h = freeze_writes-Remembers reason n h
  Step-Remembers {n} Step.resume h = resume_writes-Remembers n h
  Step-Remembers {n} (Step.crash machine eq) h = restart-Remembers term c sm machine n h eq

  pub Steps-Remembers : {n n' : Node S} → Steps sm n n' → Kept term c n → Kept term c n'
  Steps-Remembers Steps.done h = h
  Steps-Remembers (Steps.more steps step) h = Step-Remembers step (Steps-Remembers steps h)

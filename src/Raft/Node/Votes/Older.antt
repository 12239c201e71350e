-- ===== src/Raft/Node/Votes/Older.antt =====
-- oxidedb/raft/node.py: the votes of older terms that a candidate counts.
use oxide_db.Base.{
  ℕ, zero, suc, ◌+◌, ◌-◌, ◌*◌, ◌<◌, ◌≡◌, refl, ◌∙◌, true, false, ◌&&◌, Option, none, some, List, [],
  ◌∷◌, length, arith, ltb, leb, ◌==◌, if_rule, All,
}
use oxide_db.Base.Bytes.{Bytes, bytes_eq}
use oxide_db.Raft.Disk.{LogEntry}
use oxide_db.Raft.Node.{
  Node, StateMachine, leader, candidate, RequestVoteResponse, entry_at, save_commit_index,
  noop_command, append_entry, last_log_index,
}
use oxide_db.Raft.Node.Apply.{
  run_at, apply_next, apply_rounds, snapshot_at, snapshot_entry, has_storage, maybe_snapshot,
  apply_committed_entries,
}
use oxide_db.Raft.Node.Commit.{majority, of_term, quorum_index, commit_to, update_commit_index}
use oxide_db.Raft.Node.Election.{
  add_vote, is_candidate, lead, append_noop_entry, check_vote_count, on_vote_response,
}

length-add_vote :
    (id : ℕ) (votes : List ℕ)
    → All (λ j. (id == j) ≡ false) votes
    → length (add_vote id votes) ≡ length votes + 1
unfolding add_vote
length-add_vote id [] h = refl
length-add_vote id (j ∷ l) h = rw h.0 (omega (arith, length-add_vote id l h.1))

module _ {S : Type 0} (sm : StateMachine S) where
  -- the state of a node is not changed by what it applies
  run_at-state :
      (i : ℕ) (found : Option LogEntry) (n : Node S) → (run_at sm i found n).state ≡ n.state
  run_at-state i none n = refl
  run_at-state i (some e) n =
      if_rule (λ (m : Node S). m.state ≡ n.state) (bytes_eq e.command noop_command) (λ _. refl)
        (λ _. refl)

  apply_rounds-state : (k : ℕ) (n : Node S) → (apply_rounds sm k n).state ≡ n.state
  unfolding apply_rounds apply_next
  apply_rounds-state zero n = refl
  apply_rounds-state (suc k) n =
      let i = n.last_applied + 1 in
      apply_rounds-state k (apply_next sm n)
      ∙ run_at-state i (entry_at n i) (record n { last_applied = i })

  maybe_snapshot-state : (n : Node S) → (maybe_snapshot sm n).state ≡ n.state
  unfolding maybe_snapshot
  maybe_snapshot-state n =
      if_rule Same (n.snapshot_interval == 0) (λ _. refl)
        λ _.
          if_rule Same (has_storage sm n.storage)
            (λ _.
              if_rule Same (ltb (n.last_applied - n.last_included_index) n.snapshot_interval)
                (λ _. refl) (λ _. at (entry_at n n.last_applied)))
            (λ _. refl)
    where
      Same : Node S → Type 0
      Same m = m.state ≡ n.state

      taken : (e : LogEntry) (t : Option Bytes) → Same (snapshot_at sm e t n)
      taken e none = refl
      taken e (some blob) = refl

      at : (found : Option LogEntry) → Same (snapshot_entry sm found n)
      at none = refl
      at (some e) = taken e (sm.snapshot n.machine)

  commit_to-state : (found : Option ℕ) (n : Node S) → (commit_to sm found n).state ≡ n.state
  unfolding apply_committed_entries save_commit_index
  commit_to-state none n = refl
  commit_to-state (some i) n =
      if_rule (λ (m : Node S). m.state ≡ n.state)
        (ltb n.commit_index i && of_term n.current_term (entry_at n i))
        (λ _.
          let c = save_commit_index (record n { commit_index = i }) in
          let k = c.commit_index - c.last_applied in
          maybe_snapshot-state (apply_rounds sm k c) ∙ apply_rounds-state k c)
        (λ _. refl)

  elected-state : (n : Node S) → (append_noop_entry sm (lead sm n)).state ≡ leader
  unfolding append_noop_entry update_commit_index append_entry lead
  elected-state n =
      let m =
        append_entry
          (record {
            term = n.current_term;
            index = last_log_index (lead sm n) + 1;
            command = noop_command;
          })
          (lead sm n) in
      commit_to-state (quorum_index m) m

  -- A candidate counts a vote that was given to it in an older term: where it has the votes of more than half of
  -- the group, this one included and not counted before, the answer makes it the leader of its
  -- own term.
  pub on_vote_response-older :
      (peer : ℕ) (r : RequestVoteResponse) (n : Node S)
      → r.term < n.current_term
      → r.vote_granted ≡ true
      → n.state ≡ candidate
      → All (λ j. (peer == j) ≡ false) n.votes_received
      → length n.peers + 1 < 2 * (length n.votes_received + 1)
      → (on_vote_response sm peer r n).state ≡ leader
  unfolding on_vote_response check_vote_count
  on_vote_response-older peer r n older granted standing new enough =
      let current : ltb n.current_term r.term ≡ false = ground (arith, older) in
      let m = record n { votes_received = add_vote peer n.votes_received } in
      let size = length-add_vote peer n.votes_received new in
      let won : leb (majority n.peers) (length (add_vote peer n.votes_received)) ≡ true =
        ground (arith, size, enough) in
      let is_standing : is_candidate n.state ≡ true = rw standing refl in
      rw (current, is_standing, granted, won) (elected-state m)

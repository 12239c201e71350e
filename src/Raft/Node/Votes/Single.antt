-- ===== src/Raft/Node/Votes/Single.antt =====
-- oxidedb/raft/node.py: `request_vote` gives one vote in a term.
use oxide_db.Base.{
  ℕ, ◌≤◌, ◌≡◌, refl, inr, true, false, Option, none, some, arith, ltb, ◌&&◌, if_rule,
}
use oxide_db.Raft.Disk
use oxide_db.Raft.Disk.{Disk, LogEntry, Snapshot}
use oxide_db.Raft.Node.{
  Node, StateMachine, RequestVoteRequest, RequestVoteResponse, last_log_index, last_log_term,
  save_meta, on_disk,
}
use oxide_db.Raft.Node.Election.{can_vote, log_ok, adopt_term, answer_vote, request_vote}
use oxide_db.Raft.Node.Steps.{Steps}
use oxide_db.Raft.Node.Votes.Lasting.{Steps-Remembers}
use oxide_db.Raft.Node.Votes.{disk_ballot}
use oxide_db.Raft.Node.Votes.Once.{Kept, HasDisk, Holds, HoldsDisk, at_term, at_term-Remembers}

-- a vote that is asked for again is given to the same candidate only
can_vote-same :
    (term c id t : ℕ) (v : Option ℕ)
    → Holds term c t v
    → ltb term t ≡ false
    → can_vote v id ≡ true
    → id ≡ c
can_vote-same term c id t none h late k = absurd (ground (arith, h))
can_vote-same term c id t (some j) h late k = ground (arith, h)

HasDisk-on_disk : (f : Disk → Disk) (s : Option Disk) → HasDisk s → HasDisk (on_disk f s)
HasDisk-on_disk f none h = h
HasDisk-on_disk f (some d) h = tt

module _ {S : Type 0} where
  given :
      (term c : ℕ) (n : Node S)
      → HasDisk n.storage
      → Holds term c n.current_term n.voted_for
      → Kept term c (save_meta n)
  unfolding save_meta Disk.save_meta
  given term c n d h = record { memory = h; disk = on n.storage d }
    where
      on :
          (s : Option Disk)
          → HasDisk s
          → HoldsDisk term c (disk_ballot (on_disk (Disk.save_meta n.current_term n.voted_for) s))
      on none d = d
      on (some x) d = h

  at_term-HasDisk :
      (r : RequestVoteRequest) (n : Node S) → HasDisk n.storage → HasDisk (at_term r n).storage
  unfolding adopt_term save_meta
  at_term-HasDisk r n d =
      if_rule (λ (m : Node S). HasDisk m.storage) (ltb n.current_term r.term)
        (λ _. HasDisk-on_disk _ n.storage d) (λ _. d)

  at_term-reaches : (r : RequestVoteRequest) (n : Node S) → r.term ≤ (at_term r n).current_term
  unfolding adopt_term save_meta
  at_term-reaches r n =
      if_rule (λ (m : Node S). r.term ≤ m.current_term) (ltb n.current_term r.term)
        (λ _. omega arith) (λ old. ground arith)

  -- a vote that is given is in memory and on the disk
  request_vote-granted :
      (r : RequestVoteRequest) (n : Node S)
      → HasDisk n.storage
      → (request_vote r n).1.vote_granted ≡ true
      → Kept r.term r.candidate_id (request_vote r n).0
  unfolding request_vote answer_vote
  request_vote-granted r n d =
      let n' = at_term r n in
      if_rule Given (ltb r.term n'.current_term) (λ _ granted. absurd (ground arith))
        (λ late.
          if_rule Given
            (can_vote n'.voted_for r.candidate_id && log_ok r (last_log_index n) (last_log_term n))
            (λ _ granted.
              given r.term r.candidate_id (record n' { voted_for = some r.candidate_id })
                (at_term-HasDisk r n d) (inr (ground (arith, at_term-reaches r n, late), refl)))
            (λ _ granted. absurd (ground arith)))
    where
      Given : Node S × RequestVoteResponse → Type 0
      Given a = a.1.vote_granted ≡ true → Kept r.term r.candidate_id a.0

  -- a node that remembers its vote gives it to no other
  request_vote-same :
      (c : ℕ) (r : RequestVoteRequest) (n : Node S)
      → Kept r.term c n
      → (request_vote r n).1.vote_granted ≡ true
      → r.candidate_id ≡ c
  unfolding request_vote answer_vote
  request_vote-same c r n k =
      let n' = at_term r n in
      let h : Kept r.term c n' = at_term-Remembers r.term c r n k in
      if_rule Given (ltb r.term n'.current_term) (λ _ granted. absurd (ground arith))
        (λ late.
          if_rule Given
            (can_vote n'.voted_for r.candidate_id && log_ok r (last_log_index n) (last_log_term n))
            (λ ok granted.
              can_vote-same r.term c r.candidate_id n'.current_term n'.voted_for h.memory late
                (ground (arith, ok)))
            (λ _ granted. absurd (ground arith)))
    where
      Given : Node S × RequestVoteResponse → Type 0
      Given a = a.1.vote_granted ≡ true → r.candidate_id ≡ c

module _ {S : Type 0} (sm : StateMachine S) where
  -- A node that has a disk gives its vote in a term to one candidate: whatever happens after the
  -- vote, elections, newer leaders and crashes included, a later vote in the same term is for the
  -- same candidate. The steps between the two are those of `Steps`, where the entries of a leader's
  -- request follow each other.
  pub one_vote :
      (r q : RequestVoteRequest) (n m : Node S)
      → HasDisk n.storage
      → (request_vote r n).1.vote_granted ≡ true
      → Steps sm (request_vote r n).0 m
      → (request_vote q m).1.vote_granted ≡ true
      → q.term ≡ r.term
      → q.candidate_id ≡ r.candidate_id
  one_vote r q n m d granted steps again same_term =
      request_vote-same r.candidate_id q m
        (rw same_term
          (Steps-Remembers r.term r.candidate_id sm steps (request_vote-granted r n d granted)))
        again

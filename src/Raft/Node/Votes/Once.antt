-- ===== src/Raft/Node/Votes/Once.antt =====
-- oxidedb/raft/node.py: a node votes for one candidate in a term, whatever happens to it.
use oxide_db.Base.{
  ℕ, ◌<◌, ◌≡◌, ◌⊎◌, inl, Bool, true, false, Option, none, some, arith, ltb, leb, ◌&&◌,
  if◌then◌else◌, if_rule, max, ltb→lt,
}
use oxide_db.Raft.Disk
use oxide_db.Raft.Disk.{Disk, LogEntry, Snapshot}
use oxide_db.Raft.Node.{
  Node, StateMachine, RequestVoteRequest, RequestVoteResponse, AppendEntriesRequest,
  AppendEntriesResponse, InstallSnapshotRequest, InstallSnapshotResponse, last_log_index,
  last_log_term, save_meta, on_disk, save_commit_index,
}
use oxide_db.Raft.Node.Votes.{Ballot, ballot, disk_ballot, ballot-add_entries, ballot-follow_commit}
use oxide_db.Raft.Node.Append.{
  follow_term, follow_leader, settle_term, prev_ok, add_entries, follow_commit, take_entries,
  append_entries,
}
use oxide_db.Raft.Node.Install.{install, install_restored, install_snapshot}
use oxide_db.Raft.Node.Election.{can_vote, log_ok, adopt_term, answer_vote, request_vote}

-- Given a vote for `c` in `term`, what a pair of a term and a vote has to say: a later term, or
-- this vote.
abbrev pub Holds : ℕ → ℕ → ℕ → Option ℕ → Type 0
Holds term c t v = (term < t) ⊎ ((t ≡ term) × (v ≡ some c))

abbrev pub HoldsDisk : ℕ → ℕ → Option (ℕ × Option ℕ) → Type 0
HoldsDisk term c none = false ≡ true
HoldsDisk term c (some (t, v)) = Holds term c t v

-- the vote for `c` in `term` is not forgotten, in memory or on the disk
pub record Remembers (term c : ℕ) (b : Ballot) : Type 0 where
  pub memory : Holds term c b.term b.vote
  pub disk : HoldsDisk term c b.disk

-- the state is on a disk
abbrev pub HasDisk : Option Disk → Type 0
HasDisk none = false ≡ true
HasDisk (some d) = Unit

-- a newer term has no vote to agree with
pub newer :
    (term c : ℕ) {t t' : ℕ} {v v' : Option ℕ} → Holds term c t v → t < t' → Holds term c t' v'
newer term c h later = inl (ground (arith, h))

vote-Holds :
    (term c id t : ℕ) (v : Option ℕ)
    → Holds term c t v
    → can_vote v id ≡ true
    → Holds term c t (some id)
vote-Holds term c id t none h k = inl (ground (arith, h))
vote-Holds term c id t (some j) h k = ground (arith, h)

-- the node of a request after the request's term is seen
abbrev pub at_term : {S : Type 0} → RequestVoteRequest → Node S → Node S
at_term r n = if ltb n.current_term r.term then save_meta (adopt_term r.term n) else n

module _ {S : Type 0} (term c : ℕ) where
  abbrev pub Kept : Node S → Type 0
  Kept n = Remembers term c (ballot n)

  pub save_meta-Remembers : (n : Node S) → Kept n → Kept (save_meta n)
  unfolding save_meta Disk.save_meta
  save_meta-Remembers n h = record { memory = h.memory; disk = on n.storage h.disk }
    where
      on :
          (s : Option Disk)
          → HoldsDisk term c (disk_ballot s)
          → HoldsDisk term c (disk_ballot (on_disk (Disk.save_meta n.current_term n.voted_for) s))
      on none k = k
      on (some d) k = h.memory

  pub adopt_term-Remembers :
      (t : ℕ) (n : Node S) → Kept n → n.current_term < t → Kept (adopt_term t n)
  unfolding adopt_term
  adopt_term-Remembers t n h later = record { memory = newer term c h.memory later; disk = h.disk }

  pub at_term-Remembers : (r : RequestVoteRequest) (n : Node S) → Kept n → Kept (at_term r n)
  at_term-Remembers r n h =
      if_rule Kept (ltb n.current_term r.term)
        (λ later.
          save_meta-Remembers (adopt_term r.term n)
            (adopt_term-Remembers r.term n h (ltb→lt n.current_term r.term later)))
        (λ _. h)

  pub request_vote-Remembers :
      (r : RequestVoteRequest) (n : Node S) → Kept n → Kept (request_vote r n).0
  unfolding request_vote answer_vote
  request_vote-Remembers r n h =
      let n' = at_term r n in
      let h' : Kept n' = at_term-Remembers r n h in
      if_rule (λ (a : Node S × RequestVoteResponse). Kept a.0) (ltb r.term n'.current_term)
        (λ _. h')
        (λ _.
          if_rule (λ (a : Node S × RequestVoteResponse). Kept a.0)
            (can_vote n'.voted_for r.candidate_id && log_ok r (last_log_index n) (last_log_term n))
            (λ ok.
              save_meta-Remembers (record n' { voted_for = some r.candidate_id })
                (record {
                  memory =
                      vote-Holds term c r.candidate_id n'.current_term n'.voted_for h'.memory
                        (ground (arith, ok));
                  disk = h'.disk;
                }))
            (λ _. h'))

  follow_term-Remembers : (t : ℕ) (n : Node S) → Kept n → Kept (follow_term t n)
  unfolding follow_term
  follow_term-Remembers t n h =
      if_rule Kept (ltb n.current_term t)
        (λ later. record {
          memory = newer term c h.memory (ltb→lt n.current_term t later);
          disk = h.disk;
        })
        (λ _. h)

  follow_leader-Remembers : (id : ℕ) (n : Node S) → Kept n → Kept (follow_leader id n)
  unfolding follow_leader
  follow_leader-Remembers id n h = record { memory = h.memory; disk = h.disk }

  settle_term-Remembers : (b : Bool) (n : Node S) → Kept n → Kept (settle_term b n)
  unfolding settle_term
  settle_term-Remembers b n h = if_rule Kept b (λ _. save_meta-Remembers n h) (λ _. h)

  -- a node with the same ballot
  pub same : (n n' : Node S) → ballot n' ≡ ballot n → Kept n → Kept n'
  same n n' e h = rw e h

  pub append_entries-Remembers :
      (sm : StateMachine S) (r : AppendEntriesRequest) (n : Node S)
      → Kept n
      → Kept (append_entries sm r n).0
  unfolding append_entries take_entries
  append_entries-Remembers sm r n h =
      let changed = ltb n.current_term r.term in
      let n1 = follow_term r.term n in
      let h1 : Kept n1 = follow_term-Remembers r.term n h in
      let n2 = follow_leader r.leader_id n1 in
      let h2 : Kept n2 = follow_leader-Remembers r.leader_id n1 h1 in
      let n3 = add_entries r.entries n2 in
      let h3 : Kept n3 = same n2 n3 (ballot-add_entries r.entries n2) h2 in
      let n4 = settle_term changed n3 in
      if_rule (λ (a : Node S × AppendEntriesResponse). Kept a.0) (ltb r.term n1.current_term)
        (λ _. settle_term-Remembers changed n1 h1)
        (λ _.
          if_rule (λ (a : Node S × AppendEntriesResponse). Kept a.0) (prev_ok r n2)
            (λ ok.
              same n4 (follow_commit sm r.leader_commit n4)
                (ballot-follow_commit sm r.leader_commit n4) (settle_term-Remembers changed n3 h3))
            (λ _. settle_term-Remembers changed n2 h2))

  install-Remembers :
      (r : InstallSnapshotRequest) (machine : S) (n : Node S) → Kept n → Kept (install r machine n)
  unfolding install save_commit_index Disk.save_commit_index Disk.compact_log Disk.save_snapshot
  install-Remembers r machine n h = record { memory = h.memory; disk = on n.storage h.disk }
    where
      on :
          (s : Option Disk)
          → HoldsDisk term c (disk_ballot s)
          → HoldsDisk term c (
              disk_ballot (
                on_disk (Disk.save_commit_index (max n.commit_index r.last_included_index)) (
                  on_disk
                    (λ d.
                      Disk.compact_log r.last_included_index
                        (Disk.save_snapshot r.last_included_index r.last_included_term r.blob d))
                    s)))
      on none k = k
      on (some d) k = k

  pub install_snapshot-Remembers :
      (sm : StateMachine S) (r : InstallSnapshotRequest) (n : Node S)
      → Kept n
      → Kept (install_snapshot sm r n).0
  unfolding install_snapshot
  install_snapshot-Remembers sm r n h =
      let changed = ltb n.current_term r.term in
      let n1 = follow_term r.term n in
      let h1 : Kept n1 = follow_term-Remembers r.term n h in
      let n2 = settle_term changed (follow_leader r.leader_id n1) in
      let h2 : Kept n2 =
        settle_term-Remembers changed (follow_leader r.leader_id n1)
          (follow_leader-Remembers r.leader_id n1 h1) in
      if_rule Answered (ltb r.term n1.current_term) (λ _. settle_term-Remembers changed n1 h1)
        (λ _.
          if_rule Answered (leb r.last_included_index n2.last_applied) (λ _. h2)
            (λ _. restored n2 h2 (sm.restore r.blob n2.machine)))
    where
      Answered : Node S × Option InstallSnapshotResponse → Type 0
      Answered a = Kept a.0

      restored :
          (m : Node S) → Kept m → (machine : Option S) → Answered (install_restored r machine m)
      restored m k none = k
      restored m k (some machine) = install-Remembers r machine m k

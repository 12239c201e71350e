-- ===== src/Raft/Node/Steps.antt =====
-- oxidedb/raft/node.py: what can happen to a node, one step at a time, crashes included, and the
-- invariant of every node that is reached.
use oxide_db.Base.{
  ℕ, ◌+◌, ◌-◌, ◌≤◌, ◌≡◌, refl, ◌∙◌, Option, none, some, List, length, arith, ltb, leb, if_rule,
  filter, min, max, last?,
}
use oxide_db.Base.Bytes.{Bytes}
use oxide_db.Raft.Disk.{Disk, LogEntry, Snapshot}
use oxide_db.Raft.Node.{
  Node, StateMachine, FreezeReason, InstallSnapshotRequest, InstallSnapshotResponse,
  RequestVoteRequest, RequestVoteResponse, AppendEntriesRequest, AppendEntriesResponse,
  last_log_index, index_or,
}
use oxide_db.Raft.Node.Log.{Follows, Follows-last, filter-Follows}
use oxide_db.Raft.Node.WellFormed.{WellFormed, SameLog, SameBase}
use oxide_db.Raft.Node.Apply.Bounds.{apply_committed_entries-WellFormed}
use oxide_db.Raft.Node.Append.{append_entries}
use oxide_db.Raft.Node.Append.Bounds.{append_entries-WellFormed}
use oxide_db.Raft.Node.Install.{install_snapshot}
use oxide_db.Raft.Node.Election.{request_vote, start_election, on_vote_response}
use oxide_db.Raft.Node.Leader.{on_append_response, on_snapshot_response}
use oxide_db.Raft.Node.Leader.Messages.{append_request, copy_of, next_or}
use oxide_db.Raft.Node.Leader.Propose
use oxide_db.Raft.Node.Leader.Propose.{append_command, confirm_read, freeze_writes, resume_writes}
use oxide_db.Raft.StateMachine.{CommandCodec}
use oxide_db.Raft.Node.Answers.{
  start_election-WellFormed, on_vote_response-WellFormed, on_append_response-WellFormed,
  on_snapshot_response-WellFormed, append_command-WellFormed, confirm_read-WellFormed,
  enter-WellFormed, leave-WellFormed, freeze_writes-WellFormed, resume_writes-WellFormed,
}
use oxide_db.Raft.Node.Load.{
  fresh, from_snapshot, with_machine, load_snapshot, load_commit, load_disk, loaded,
  load_from_storage,
}
use oxide_db.Raft.Node.Keeps.{install_snapshot-WellFormed, request_vote-WellFormed, compact}

-- everything is past the base already
filter_same : (base : ℕ) (l : List LogEntry) → Follows base l → filter (λ e. ltb base e.index) l ≡ l
filter_same base l h =
    let cut = filter-Follows base base l h (omega arith) in
    let none_out : base - base ≡ 0 = omega arith in cut ∙ rw none_out refl

module _ {S : Type 0} (sm : StateMachine S) where
  -- a node that starts again on the disk of one that stopped, at whatever point
  abbrev pub restart : S → Node S → Option (Node S)
  restart machine n =
      load_from_storage sm
        (fresh n.node_id n.peers machine n.storage n.snapshot_interval n.apply_results_window)

  load_commit-WellFormed :
      (d : Disk) (n : Node S)
      → Follows n.last_included_index n.log
      → n.last_included_index ≡ n.last_applied
      → SameLog n.last_included_index n.log n.storage
      → WellFormed (load_commit sm d n)
  unfolding load_commit last_log_index
  load_commit-WellFormed d n f b s =
      let last : index_or n.last_included_index (last? n.log)
          ≡ n.last_included_index + length n.log =
        Follows-last n.last_included_index n.log f in
      apply_committed_entries-WellFormed sm
        (record n { commit_index = max (min d.commit_index (last_log_index n)) n.last_applied })
        (record {
          follows = f;
          compacted = omega (arith, b);
          applied = omega arith;
          committed = omega (arith, b, last);
          saved = s;
        })

  -- the node that the load starts from
  abbrev start : S → Disk → Node S → Node S
  start machine d n =
      record (fresh n.node_id n.peers machine (some d) n.snapshot_interval n.apply_results_window) {
        current_term = d.current_term;
        voted_for = d.voted_for;
        log = d.log;
      }

  load_snapshot-WellFormed :
      (machine : S) (n : Node S) (base : ℕ) (d : Disk) (found : Option Snapshot) {n' : Node S}
      → d.snapshot ≡ found
      → Follows base d.log
      → SameBase base found
      → loaded sm d (load_snapshot sm found (start machine d n)) ≡ some n'
      → WellFormed n'
  unfolding fresh
  load_snapshot-WellFormed machine n base d none {n'} snap f b h =
      let same : load_commit sm d (start machine d n) ≡ n' = ground (arith, h) in
      let saved : SameBase 0 d.snapshot = rw snap refl in
      let w : WellFormed (load_commit sm d (start machine d n)) =
        load_commit-WellFormed d (start machine d n) (rw b at f) refl (refl, saved) in
      rw same at w
  load_snapshot-WellFormed machine n base d (some s) {n'} snap f b h =
      with_restored (sm.restore s.blob machine) h
    where
      same_log : filter (λ e. ltb s.index e.index) d.log ≡ d.log
      same_log = filter_same s.index d.log (rw b at f)

      saved : SameBase s.index d.snapshot
      saved = rw snap refl

      with_restored :
          (m : Option S)
          → loaded sm d (with_machine s m (start machine d n)) ≡ some n'
          → WellFormed n'
      with_restored none h = absurd (ground arith)
      with_restored (some m) h =
          let n2 : Node S = from_snapshot s m (start machine d n) in
          let same : load_commit sm d n2 ≡ n' = ground (arith, h) in
          let w : WellFormed (load_commit sm d n2) =
            load_commit-WellFormed d n2 (rw same_log (rw b at f)) refl (rw same_log refl, saved) in
          rw same at w

  -- A node that starts again on the disk of one that stopped, and can restore its snapshot, keeps
  -- the invariant.
  pub restart-WellFormed :
      (machine : S) (n : Node S) {n' : Node S}
      → WellFormed n
      → restart machine n ≡ some n'
      → WellFormed n'
  unfolding load_from_storage fresh
  restart-WellFormed machine n {n'} w h = on n.storage w.saved h
    where
      on :
          (s : Option Disk)
          → SameLog n.last_included_index n.log s
          → load_disk sm s
              (fresh n.node_id n.peers machine s n.snapshot_interval n.apply_results_window)
            ≡ some n'
          → WellFormed n'
      on none k h =
          let same : fresh n.node_id n.peers machine none n.snapshot_interval n.apply_results_window
              ≡ n' =
            ground (arith, h) in
          let v : WellFormed
              (fresh n.node_id n.peers machine none n.snapshot_interval n.apply_results_window) =
            record {
              follows = tt;
              compacted = omega arith;
              applied = omega arith;
              committed = omega arith;
              saved = tt;
            } in
          rw same at v
      on (some d) k h =
          load_snapshot-WellFormed machine n n.last_included_index d d.snapshot refl
            (rw k.0 w.follows) k.1 h

  -- what can happen to a node
  pub data Step : Node S → Node S → Type 0 where
    -- a request of another node; the entries of a leader's request follow each other
    vote : {n : Node S} → (r : RequestVoteRequest) → Step n (request_vote r n).0
    append :
        {n : Node S}
        → (r : AppendEntriesRequest) → Follows r.prev_log_index r.entries
        → Step n (append_entries sm r n).0
    snapshot : {n : Node S} → (r : InstallSnapshotRequest) → Step n (install_snapshot sm r n).0
    -- the answer of another node
    voted :
        {n : Node S} (peer : ℕ) → (r : RequestVoteResponse) → Step n (on_vote_response sm peer r n)
    appended :
        {n : Node S} (peer : ℕ)
        → (r : AppendEntriesResponse) → Step n (on_append_response sm peer r n)
    installed :
        {n : Node S} (peer index : ℕ)
        → (r : InstallSnapshotResponse) → Step n (on_snapshot_response sm peer index r n)
    -- the deadline of the election, and a command of a client
    elect : {n : Node S} → Step n (start_election sm n)
    propose : {n : Node S} → (command : Bytes) → Step n (append_command sm command n).1
    -- the end of a read, and the freeze of a split or a move
    read : {n : Node S} → (term acks : ℕ) → Step n (confirm_read sm term acks n).1
    enter :
        {n : Node S}
        → (codec : CommandCodec) → (command : Bytes) → Step n (Propose.enter codec command n).1
    leave : {n : Node S} → Step n (Propose.leave n)
    freeze : {n : Node S} → (reason : FreezeReason) → Step n (freeze_writes reason n)
    resume : {n : Node S} → Step n (resume_writes n)
    -- A crash between two handlers, and the start on what the disk holds with a fresh state machine.
    -- A crash between two writes of one handler is not a step.
    crash : {n n' : Node S} (machine : S) → restart machine n ≡ some n' → Step n n'

  pub data Steps : Node S → Node S → Type 0 where
    done : {n : Node S} → Steps n n
    more : {n n' n'' : Node S} → Steps n n' → Step n' n'' → Steps n n''

  pub Step-WellFormed : {n n' : Node S} → Step n n' → WellFormed n → WellFormed n'
  Step-WellFormed {n} (vote r) w = request_vote-WellFormed r n w
  Step-WellFormed {n} (append r f) w = append_entries-WellFormed sm r n f w
  Step-WellFormed {n} (snapshot r) w = install_snapshot-WellFormed sm r n w
  Step-WellFormed {n} (voted peer r) w = on_vote_response-WellFormed sm peer r n w
  Step-WellFormed {n} (appended peer r) w = on_append_response-WellFormed sm peer r n w
  Step-WellFormed {n} (installed peer i r) w = on_snapshot_response-WellFormed sm peer i r n w
  Step-WellFormed {n} elect w = start_election-WellFormed sm n w
  Step-WellFormed {n} (propose c) w = append_command-WellFormed sm c n w
  Step-WellFormed {n} (read term acks) w = confirm_read-WellFormed sm term acks n w
  Step-WellFormed {n} (enter codec command) w = enter-WellFormed codec command n w
  Step-WellFormed {n} leave w = leave-WellFormed n w
  Step-WellFormed {n} (freeze reason) w = freeze_writes-WellFormed reason n w
  Step-WellFormed {n} resume w = resume_writes-WellFormed n w
  Step-WellFormed {n} (crash machine h) w = restart-WellFormed machine n w h

  -- Whatever requests, answers, elections, proposals, reads, freezes and crashes a node goes through,
  -- in whatever order, its log has no gap, its snapshot is within what is applied, that within what
  -- is committed and that within the log, and its disk, if it has one, has the same log and the
  -- snapshot index that the log starts behind. The entries of a leader's request follow each other, a crash is
  -- between two handlers, and the machine can restore the snapshot after it. Of the term, the vote and
  -- the commit index on the disk nothing is claimed.
  pub Steps-WellFormed : {n n' : Node S} → Steps n n' → WellFormed n → WellFormed n'
  Steps-WellFormed done w = w
  Steps-WellFormed (more steps step) w = Step-WellFormed step (Steps-WellFormed steps w)

-- a request whose entries follow each other from the entry before them
abbrev Sent : Option AppendEntriesRequest → Type 0
Sent none = Unit
Sent (some r) = Follows r.prev_log_index r.entries

append_request-Sent :
    {S : Type 0} (n : Node S) (next : Option ℕ)
    → WellFormed n
    → Sent (append_request (copy_of n) next)
unfolding append_request copy_of
append_request-Sent n next w =
    let i = next_or (last_log_index n) next in
    if_rule Sent (leb i n.last_included_index) (λ _. tt)
      (λ past.
        let above : n.last_included_index ≤ i - 1 = ground (arith, past) in
        if_rule (Follows (i - 1)) (ltb (i - 1) (last_log_index n))
          (λ _. (compact n.last_included_index (i - 1) n.log w.follows above).follows) (λ _. tt))

-- The entries of the request that a leader builds for a peer follow each other from the entry
-- before them, whatever the leader believes of the peer.
pub append_request-Follows :
    {S : Type 0} (n : Node S) (next : Option ℕ) {r : AppendEntriesRequest}
    → WellFormed n
    → append_request (copy_of n) next ≡ some r
    → Follows r.prev_log_index r.entries
append_request-Follows n next {r} w h =
    let s : Sent (append_request (copy_of n) next) = append_request-Sent n next w in rw h at s

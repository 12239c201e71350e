-- ===== src/Raft/Node/Keeps.antt =====
-- oxidedb/raft/node.py: votes, the snapshot from a leader and the commit index keep the invariant.
-- and the restart keep the invariant of the log.
use oxide_db.Base.{
  ℕ, ◌+◌, ◌-◌, ◌≤◌, ◌<◌, ◌≡◌, refl, true, Option, none, some, List, [], ◌∷◌, length, arith, ltb,
  leb, ◌&&◌, if◌then◌else◌, if_rule, filter, drop, max, inl, inr, Bool-cases,
}
use oxide_db.Raft.Disk
use oxide_db.Raft.Disk.{Disk, LogEntry, Snapshot}
use oxide_db.Raft.Node.{
  Node, StateMachine, InstallSnapshotRequest, InstallSnapshotResponse, RequestVoteRequest,
  RequestVoteResponse, entry_at, last_log_index, last_log_term, save_meta, save_commit_index,
  on_disk,
}
use oxide_db.Raft.Node.Log.{Follows, filter-Follows, drop-Follows, length-drop}
use oxide_db.Raft.Node.WellFormed.{
  WellFormed, WellFormed-view, SameLog, entry_at-bounds, save_meta-WellFormed,
  save_commit_index-WellFormed,
}
use oxide_db.Raft.Node.Apply.Bounds.{apply_committed_entries-WellFormed}
use oxide_db.Raft.Node.Append.{follow_term, follow_leader, settle_term}
use oxide_db.Raft.Node.Append.Bounds.{
  follow_term-WellFormed, follow_leader-WellFormed, settle_term-WellFormed,
}
use oxide_db.Raft.Node.Install.{install, install_restored, install_snapshot}
use oxide_db.Raft.Node.Commit.{of_term, quorum_index, commit_to, update_commit_index}
use oxide_db.Raft.Node.Election.{can_vote, log_ok, adopt_term, answer_vote, request_vote}

-- a log that is compacted past its end is empty
filter_past :
    (base c : ℕ) (l : List LogEntry)
    → Follows base l
    → base + length l ≤ c
    → filter (λ e. ltb c e.index) l ≡ []
filter_past base c [] h b = refl
filter_past base c (x ∷ l) h b =
    let rest = filter_past (base + 1) c l h.1 (omega arith) in ground (arith, h.0, rest)

-- what is left of a log after a snapshot at `c`
pub record Compacted (base c : ℕ) (l : List LogEntry) : Type 0 where
  pub follows : Follows c (filter (λ e. ltb c e.index) l)
  pub size : base + length l ≤ c + length (filter (λ e. ltb c e.index) l)

pub compact : (base c : ℕ) (l : List LogEntry) → Follows base l → base ≤ c → Compacted base c l
compact base c l h b = elim (Bool-cases (ltb c (base + length l))) [
  | inl within ↦
      let eq : filter (λ e. ltb c e.index) l ≡ drop (c - base) l = filter-Follows base c l h b in
      record {
        follows = rw eq (drop-Follows base c (c - base) l (omega arith) (ground (arith, within)) h);
        size = rw eq (ground (arith, within, length-drop (c - base) l));
      }
  | inr past ↦
      let eq : filter (λ e. ltb c e.index) l ≡ [] = filter_past base c l h (ground (arith, past)) in
      record { follows = rw eq tt; size = rw eq (ground (arith, past)) }
]

-- what `of_term` says yes to is an entry
of_term-some :
    (t : ℕ) (found : Option LogEntry) → of_term t found ≡ true → (e : LogEntry) × (found ≡ some e)
of_term-some t none h = absurd (ground arith)
of_term-some t (some e) h = (e, refl)

module _ {S : Type 0} where
  install-WellFormed :
      (r : InstallSnapshotRequest) (machine : S) (n : Node S)
      → WellFormed n
      → n.last_applied ≤ r.last_included_index
      → WellFormed (install r machine n)
  unfolding install save_commit_index Disk.save_commit_index Disk.compact_log Disk.save_snapshot
  install-WellFormed r machine n w b =
      let left =
        compact n.last_included_index r.last_included_index n.log w.follows
          (omega (arith, w.compacted)) in
      record {
        follows = left.follows;
        compacted = omega arith;
        applied = omega arith;
        committed = omega (arith, left.size, w.committed);
        saved = saved n.storage w.saved;
      }
    where
      saved :
          (s : Option Disk)
          → SameLog n.last_included_index n.log s
          → SameLog r.last_included_index (filter (λ e. ltb r.last_included_index e.index) n.log) (
              on_disk (Disk.save_commit_index (max n.commit_index r.last_included_index)) (
                on_disk
                  (λ d.
                    Disk.compact_log r.last_included_index
                      (Disk.save_snapshot r.last_included_index r.last_included_term r.blob d))
                  s))
      saved none h = tt
      saved (some d) h = (rw h.0 refl, refl)

  pub adopt_term-WellFormed : (t : ℕ) (n : Node S) → WellFormed n → WellFormed (adopt_term t n)
  unfolding adopt_term
  adopt_term-WellFormed t n w = WellFormed-view n _ refl w

  -- a vote changes nothing in the log
  pub request_vote-WellFormed :
      (r : RequestVoteRequest) (n : Node S) → WellFormed n → WellFormed (request_vote r n).0
  unfolding request_vote answer_vote
  request_vote-WellFormed r n w =
      if_rule (λ (a : Node S × RequestVoteResponse). WellFormed a.0) (ltb r.term n'.current_term)
        (λ _. w')
        (λ _.
          if_rule (λ (a : Node S × RequestVoteResponse). WellFormed a.0)
            (can_vote n'.voted_for r.candidate_id && log_ok r (last_log_index n) (last_log_term n))
            (λ _.
              save_meta-WellFormed (record n' { voted_for = some r.candidate_id })
                (record {
                  follows = w'.follows;
                  compacted = w'.compacted;
                  applied = w'.applied;
                  committed = w'.committed;
                  saved = w'.saved;
                }))
            (λ _. w'))
    where
      n' : Node S
      n' = if ltb n.current_term r.term then save_meta (adopt_term r.term n) else n

      w' : WellFormed n'
      w' =
          if_rule WellFormed (ltb n.current_term r.term)
            (λ _. save_meta-WellFormed (adopt_term r.term n) (adopt_term-WellFormed r.term n w))
            (λ _. w)

module _ {S : Type 0} (sm : StateMachine S) where
  -- `install_snapshot` keeps the invariant on every path, whatever the snapshot.
  pub install_snapshot-WellFormed :
      (r : InstallSnapshotRequest) (n : Node S)
      → WellFormed n
      → WellFormed (install_snapshot sm r n).0
  unfolding install_snapshot
  install_snapshot-WellFormed r n w =
      let changed = ltb n.current_term r.term in
      let n1 = follow_term r.term n in
      let w1 : WellFormed n1 = follow_term-WellFormed r.term n w in
      let n2 = settle_term changed (follow_leader r.leader_id n1) in
      let w2 : WellFormed n2 =
        settle_term-WellFormed changed (follow_leader r.leader_id n1)
          (follow_leader-WellFormed r.leader_id n1 w1) in
      if_rule Answered (ltb r.term n1.current_term) (λ _. settle_term-WellFormed changed n1 w1)
        (λ _.
          if_rule Answered (leb r.last_included_index n2.last_applied) (λ _. w2)
            (λ past. restored n2 w2 (ground (arith, past)) (sm.restore r.blob n2.machine)))
    where
      Answered : Node S × Option InstallSnapshotResponse → Type 0
      Answered a = WellFormed a.0

      restored :
          (m : Node S)
          → WellFormed m
          → m.last_applied ≤ r.last_included_index
          → (machine : Option S) → Answered (install_restored r machine m)
      restored m v b none = v
      restored m v b (some machine) = install-WellFormed r machine m v b

  pub update_commit_index-WellFormed :
      (n : Node S) → WellFormed n → WellFormed (update_commit_index sm n)
  unfolding update_commit_index
  update_commit_index-WellFormed n w = to (quorum_index n)
    where
      to : (found : Option ℕ) → WellFormed (commit_to sm found n)
      to none = w
      to (some i) =
          if_rule WellFormed (ltb n.commit_index i && of_term n.current_term (entry_at n i))
            (λ h.
              let (e, there) = of_term-some n.current_term (entry_at n i) (ground (arith, h)) in
              let past : n.commit_index < i = ground (arith, h) in
              apply_committed_entries-WellFormed sm _ (
                save_commit_index-WellFormed n i w (omega (arith, w.applied))
                  (entry_at-bounds n i there).1))
            (λ _. w)

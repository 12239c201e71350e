-- ===== src/Raft/Node/Votes.antt =====
-- oxidedb/raft/node.py: the term and the vote of a node, in memory and on its disk, and what
-- leaves them alone.
pub mod Grant
pub mod Older
pub mod Once
pub mod Restarted
pub mod Lasting
pub mod Single
use oxide_db.Base.{
  ℕ, zero, suc, ◌+◌, ◌-◌, ◌≤◌, ◌<◌, ◌≡◌, refl, sym, ap, ◌∙◌, Bool, true, false, Option, none, some,
  List, [], ◌∷◌, ◌++◌, length, arith, ltb, leb, ◌==◌, ◌&&◌, if◌then◌else◌, if_rule, min, inl, inr,
  Bool-cases, filter,
}
use oxide_db.Base.Bytes.{Bytes, bytes_eq}
use oxide_db.Raft.Disk
use oxide_db.Raft.Disk.{Disk, LogEntry}
use oxide_db.Raft.Node.{
  Node, StateMachine, noop_command, entry_at, last_log_index, on_disk, save_commit_index,
  append_entry,
}
use oxide_db.Raft.Node.Apply.{
  run_at, apply_next, apply_rounds, compact_to, snapshot_at, snapshot_entry, has_storage,
  maybe_snapshot, apply_committed_entries,
}
use oxide_db.Raft.Node.Append.{
  follow_leader, drop_from, place_entry, add_entry, add_entries, follow_commit,
}
use oxide_db.Raft.Node.Commit.{of_term, quorum_index, commit_to, update_commit_index}

-- the term and the vote in memory, and the pair that the disk has
pub record Ballot : Type 0 where
  pub term : ℕ
  pub vote : Option ℕ
  pub disk : Option (ℕ × Option ℕ)

abbrev pub disk_ballot : Option Disk → Option (ℕ × Option ℕ)
disk_ballot none = none
disk_ballot (some d) = some (d.current_term, d.voted_for)

abbrev pub ballot_of : ℕ → Option ℕ → Option Disk → Ballot
ballot_of t v s = record { term = t; vote = v; disk = disk_ballot s }

abbrev pub ballot : {S : Type 0} → Node S → Ballot
ballot n = ballot_of n.current_term n.voted_for n.storage

pub disk_ballot-on_disk :
    (f : Disk → Disk) (s : Option Disk)
    → ((d : Disk) → disk_ballot (some (f d)) ≡ disk_ballot (some d))
    → disk_ballot (on_disk f s) ≡ disk_ballot s
disk_ballot-on_disk f none h = refl
disk_ballot-on_disk f (some d) h = h d

-- the same term and vote in memory over equal disks
same_disk :
    (t : ℕ) (v : Option ℕ) (f : Disk → Disk) (s : Option Disk)
    → ((d : Disk) → disk_ballot (some (f d)) ≡ disk_ballot (some d))
    → ballot_of t v (on_disk f s) ≡ ballot_of t v s
same_disk t v f s h = ap of_disk (disk_ballot-on_disk f s h)
  where
    of_disk : Option (ℕ × Option ℕ) → Ballot
    of_disk x = record { term = t; vote = v; disk = x }

module _ {S : Type 0} where
  pub ballot-save_commit_index : (n : Node S) → ballot (save_commit_index n) ≡ ballot n
  unfolding save_commit_index Disk.save_commit_index
  ballot-save_commit_index n = same_disk n.current_term n.voted_for _ n.storage (λ d. refl)

  pub ballot-append_entry : (e : LogEntry) (n : Node S) → ballot (append_entry e n) ≡ ballot n
  unfolding append_entry Disk.append_log_entry
  ballot-append_entry e n = same_disk n.current_term n.voted_for _ n.storage (λ d. refl)

  ballot-drop_from : (i : ℕ) (n : Node S) → ballot (drop_from i n) ≡ ballot n
  unfolding drop_from Disk.truncate_log
  ballot-drop_from i n = same_disk n.current_term n.voted_for _ n.storage (λ d. refl)

  ballot-place_entry :
      (e : LogEntry) (found : Option LogEntry) (n : Node S)
      → ballot (place_entry e found n) ≡ ballot n
  ballot-place_entry e none n = ballot-append_entry e n
  ballot-place_entry e (some x) n =
      if_rule (λ (m : Node S). ballot m ≡ ballot n) (x.term == e.term) (λ _. refl)
        (λ _. ballot-append_entry e (drop_from e.index n) ∙ ballot-drop_from e.index n)

  ballot-add_entry : (e : LogEntry) (n : Node S) → ballot (add_entry e n) ≡ ballot n
  unfolding add_entry
  ballot-add_entry e n =
      if_rule (λ (m : Node S). ballot m ≡ ballot n) (leb e.index n.last_included_index) (λ _. refl)
        (λ _. ballot-place_entry e (entry_at n e.index) n)

  pub ballot-add_entries : (l : List LogEntry) (n : Node S) → ballot (add_entries l n) ≡ ballot n
  unfolding add_entries
  ballot-add_entries [] n = refl
  ballot-add_entries (e ∷ l) n = ballot-add_entries l (add_entry e n) ∙ ballot-add_entry e n

module _ {S : Type 0} (sm : StateMachine S) where
  ballot-run_at :
      (i : ℕ) (found : Option LogEntry) (n : Node S) → ballot (run_at sm i found n) ≡ ballot n
  ballot-run_at i none n = refl
  ballot-run_at i (some e) n =
      if_rule (λ (m : Node S). ballot m ≡ ballot n) (bytes_eq e.command noop_command) (λ _. refl)
        (λ _. refl)

  ballot-apply_rounds : (k : ℕ) (n : Node S) → ballot (apply_rounds sm k n) ≡ ballot n
  unfolding apply_rounds apply_next
  ballot-apply_rounds zero n = refl
  ballot-apply_rounds (suc k) n =
      ballot-apply_rounds k (apply_next sm n)
      ∙ ballot-run_at (n.last_applied + 1) (entry_at n (n.last_applied + 1))
          (record n { last_applied = n.last_applied + 1 })

  ballot-snapshot_at :
      (e : LogEntry) (taken : Option Bytes) (n : Node S)
      → ballot (snapshot_at sm e taken n) ≡ ballot n
  unfolding Disk.compact_log Disk.save_snapshot
  ballot-snapshot_at e none n = refl
  ballot-snapshot_at e (some blob) n = same_disk n.current_term n.voted_for _ n.storage (λ d. refl)

  ballot-snapshot_entry :
      (found : Option LogEntry) (n : Node S) → ballot (snapshot_entry sm found n) ≡ ballot n
  ballot-snapshot_entry none n = refl
  ballot-snapshot_entry (some e) n = ballot-snapshot_at e (sm.snapshot n.machine) n

  ballot-maybe_snapshot : (n : Node S) → ballot (maybe_snapshot sm n) ≡ ballot n
  unfolding maybe_snapshot
  ballot-maybe_snapshot n =
      let Same = λ (m : Node S). ballot m ≡ ballot n in
      if_rule Same (n.snapshot_interval == 0) (λ _. refl)
        λ _.
          if_rule Same (has_storage sm n.storage)
            (λ _.
              if_rule Same (ltb (n.last_applied - n.last_included_index) n.snapshot_interval)
                (λ _. refl) (λ _. ballot-snapshot_entry (entry_at n n.last_applied) n))
            (λ _. refl)

  pub ballot-apply_committed_entries :
      (n : Node S) → ballot (apply_committed_entries sm n) ≡ ballot n
  unfolding apply_committed_entries
  ballot-apply_committed_entries n =
      ballot-maybe_snapshot (apply_rounds sm (n.commit_index - n.last_applied) n)
      ∙ ballot-apply_rounds (n.commit_index - n.last_applied) n

  pub ballot-update_commit_index : (n : Node S) → ballot (update_commit_index sm n) ≡ ballot n
  unfolding update_commit_index
  ballot-update_commit_index n = to (quorum_index n)
    where
      to : (found : Option ℕ) → ballot (commit_to sm found n) ≡ ballot n
      to none = refl
      to (some i) =
          if_rule (λ (m : Node S). ballot m ≡ ballot n)
            (ltb n.commit_index i && of_term n.current_term (entry_at n i))
            (λ _.
              ballot-apply_committed_entries (save_commit_index (record n { commit_index = i }))
              ∙ ballot-save_commit_index (record n { commit_index = i }))
            (λ _. refl)

  pub ballot-follow_commit : (c : ℕ) (n : Node S) → ballot (follow_commit sm c n) ≡ ballot n
  unfolding follow_commit
  ballot-follow_commit c n =
      if_rule (λ (m : Node S). ballot m ≡ ballot n) (ltb n.commit_index c)
        (λ _.
          let m : Node S = record n { commit_index = min c (last_log_index n) } in
          ballot-apply_committed_entries (save_commit_index m) ∙ ballot-save_commit_index m)
        (λ _. refl)

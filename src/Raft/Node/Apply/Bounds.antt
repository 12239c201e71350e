-- ===== src/Raft/Node/Apply/Bounds.antt =====
-- oxidedb/raft/node.py: `_apply_committed_entries` and `_maybe_snapshot` keep the invariant of
-- the log, and what they leave as it was.
use oxide_db.Base.{
  ℕ, zero, suc, ◌+◌, ◌-◌, ◌≤◌, ◌<◌, ◌≡◌, refl, ◌∙◌, Option, none, some, arith, ltb, ◌==◌, if_rule,
  filter, drop, inl, inr, Bool-cases,
}
use oxide_db.Base.Bytes.{Bytes, bytes_eq}
use oxide_db.Raft.Disk
use oxide_db.Raft.Disk.{Disk, LogEntry}
use oxide_db.Raft.Node.{Node, StateMachine, entry_at, noop_command}
use oxide_db.Raft.Node.Log.{filter-Follows, drop-Follows, length-drop}
use oxide_db.Raft.Node.WellFormed.{WellFormed, WellFormed-view, SameLog-on_disk}
use oxide_db.Raft.Node.Apply.{
  run_at, apply_next, apply_rounds, compact_to, snapshot_at, snapshot_entry, has_storage,
  maybe_snapshot, apply_committed_entries,
}

module _ {S : Type 0} (sm : StateMachine S) where
  run_at-WellFormed :
      (i : ℕ) (found : Option LogEntry) (n : Node S)
      → WellFormed n
      → WellFormed (run_at sm i found n)
  run_at-WellFormed i none n w = w
  run_at-WellFormed i (some e) n w = elim (Bool-cases (bytes_eq e.command noop_command)) [
    | inl eq ↦ rw eq (WellFormed-view n _ refl w)
    | inr eq ↦ rw eq (WellFormed-view n _ refl w)
  ]

  apply_next-WellFormed :
      (n : Node S) → WellFormed n → n.last_applied < n.commit_index → WellFormed (apply_next sm n)
  unfolding apply_next
  apply_next-WellFormed n w h =
      run_at-WellFormed (n.last_applied + 1) (entry_at n (n.last_applied + 1))
        (record n { last_applied = n.last_applied + 1 })
        (record {
          follows = w.follows;
          compacted = omega (arith, w.compacted);
          applied = omega arith;
          committed = w.committed;
          saved = w.saved;
        })

  -- the fields that handing an entry to the machine leaves alone
  pub record SameLogs (n n' : Node S) : Type 0 where
    pub log : n'.log ≡ n.log
    pub base : n'.last_included_index ≡ n.last_included_index
    pub base_term : n'.last_included_term ≡ n.last_included_term
    pub commit : n'.commit_index ≡ n.commit_index
    pub storage : n'.storage ≡ n.storage
    pub applied : n'.last_applied ≡ n.last_applied

  pub run_at-SameLogs :
      (i : ℕ) (found : Option LogEntry) (n : Node S) → SameLogs n (run_at sm i found n)
  run_at-SameLogs i none n = record {
    log = refl;
    base = refl;
    base_term = refl;
    commit = refl;
    storage = refl;
    applied = refl;
  }
  run_at-SameLogs i (some e) n = elim (Bool-cases (bytes_eq e.command noop_command)) [
    | inl eq ↦ rw eq (record {
      log = refl;
      base = refl;
      base_term = refl;
      commit = refl;
      storage = refl;
      applied = refl;
    })
    | inr eq ↦ rw eq (record {
      log = refl;
      base = refl;
      base_term = refl;
      commit = refl;
      storage = refl;
      applied = refl;
    })
  ]

  pub apply_next-applied : (n : Node S) → (apply_next sm n).last_applied ≡ n.last_applied + 1
  unfolding apply_next
  apply_next-applied n =
      (run_at-SameLogs (n.last_applied + 1) (entry_at n (n.last_applied + 1))
        (record n { last_applied = n.last_applied + 1 })).applied

  pub apply_next-commit : (n : Node S) → (apply_next sm n).commit_index ≡ n.commit_index
  unfolding apply_next
  apply_next-commit n =
      (run_at-SameLogs (n.last_applied + 1) (entry_at n (n.last_applied + 1))
        (record n { last_applied = n.last_applied + 1 })).commit

  pub apply_rounds-WellFormed :
      (k : ℕ) (n : Node S)
      → WellFormed n
      → n.last_applied + k ≤ n.commit_index
      → WellFormed (apply_rounds sm k n)
  unfolding apply_rounds
  apply_rounds-WellFormed zero n w b = w
  apply_rounds-WellFormed (suc k) n w b =
      apply_rounds-WellFormed k (apply_next sm n) (apply_next-WellFormed n w (omega arith))
        (omega (arith, apply_next-applied n, apply_next-commit n))

  pub apply_rounds-applied :
      (k : ℕ) (n : Node S) → (apply_rounds sm k n).last_applied ≡ n.last_applied + k
  unfolding apply_rounds
  apply_rounds-applied zero n = omega arith
  apply_rounds-applied (suc k) n =
      omega (arith, apply_rounds-applied k (apply_next sm n), apply_next-applied n)

  pub apply_rounds-commit :
      (k : ℕ) (n : Node S) → (apply_rounds sm k n).commit_index ≡ n.commit_index
  unfolding apply_rounds
  apply_rounds-commit zero n = refl
  apply_rounds-commit (suc k) n = apply_rounds-commit k (apply_next sm n) ∙ apply_next-commit n

  compact_to-WellFormed :
      (e : LogEntry) (blob : Bytes) (n : Node S)
      → WellFormed n
      → WellFormed (compact_to sm e blob n)
  unfolding Disk.compact_log Disk.save_snapshot
  compact_to-WellFormed e blob n w =
      let cut : filter (λ e. ltb n.last_applied e.index) n.log
          ≡ drop (n.last_applied - n.last_included_index) n.log =
        filter-Follows n.last_included_index n.last_applied n.log w.follows w.compacted in
      let kept =
        drop-Follows n.last_included_index n.last_applied (n.last_applied - n.last_included_index)
          n.log (omega (arith, w.compacted)) (omega (arith, w.applied, w.committed)) w.follows in
      record {
        follows = rw cut kept;
        compacted = omega arith;
        applied = w.applied;
        committed = rw cut (
            omega (
              arith,
              w.committed,
              w.compacted,
              length-drop (n.last_applied - n.last_included_index) n.log,
            ));
        saved =
            SameLog-on_disk _ n.last_included_index n.last_applied n.log
              (filter (λ e. ltb n.last_applied e.index) n.log) n.storage
              (λ d h. (rw h.0 refl, refl)) w.saved;
      }

  snapshot_at-WellFormed :
      (e : LogEntry) (taken : Option Bytes) (n : Node S)
      → WellFormed n
      → WellFormed (snapshot_at sm e taken n)
  snapshot_at-WellFormed e none n w = WellFormed-view n _ refl w
  snapshot_at-WellFormed e (some blob) n w = compact_to-WellFormed e blob n w

  snapshot_entry-WellFormed :
      (found : Option LogEntry) (n : Node S) → WellFormed n → WellFormed (snapshot_entry sm found n)
  snapshot_entry-WellFormed none n w = w
  snapshot_entry-WellFormed (some e) n w = snapshot_at-WellFormed e (sm.snapshot n.machine) n w

  pub maybe_snapshot-WellFormed : (n : Node S) → WellFormed n → WellFormed (maybe_snapshot sm n)
  unfolding maybe_snapshot
  maybe_snapshot-WellFormed n w =
      if_rule WellFormed (n.snapshot_interval == 0) (λ _. w)
        λ _.
          if_rule WellFormed (has_storage sm n.storage)
            (λ _.
              if_rule WellFormed (ltb (n.last_applied - n.last_included_index) n.snapshot_interval)
                (λ _. w) (λ _. snapshot_entry-WellFormed (entry_at n n.last_applied) n w))
            (λ _. w)

  pub apply_committed_entries-WellFormed :
      (n : Node S) → WellFormed n → WellFormed (apply_committed_entries sm n)
  unfolding apply_committed_entries
  apply_committed_entries-WellFormed n w =
      maybe_snapshot-WellFormed (apply_rounds sm (n.commit_index - n.last_applied) n)
        (apply_rounds-WellFormed (n.commit_index - n.last_applied) n w (omega (arith, w.applied)))

  -- the snapshot changes neither index
  record SameIndices (n n' : Node S) : Type 0 where
    applied : n'.last_applied ≡ n.last_applied
    commit : n'.commit_index ≡ n.commit_index
    machine : n'.machine ≡ n.machine

  same : {n : Node S} → SameIndices n n
  same = record { applied = refl; commit = refl; machine = refl }

  maybe_snapshot-SameIndices : (n : Node S) → SameIndices n (maybe_snapshot sm n)
  unfolding maybe_snapshot
  maybe_snapshot-SameIndices n =
      if_rule (SameIndices n) (n.snapshot_interval == 0) (λ _. same)
        λ _.
          if_rule (SameIndices n) (has_storage sm n.storage)
            (λ _.
              if_rule (SameIndices n)
                (ltb (n.last_applied - n.last_included_index) n.snapshot_interval) (λ _. same)
                (λ _. at (entry_at n n.last_applied)))
            (λ _. same)
    where
      taken : (e : LogEntry) (t : Option Bytes) → SameIndices n (snapshot_at sm e t n)
      taken e none = record { applied = refl; commit = refl; machine = refl }
      taken e (some blob) = record { applied = refl; commit = refl; machine = refl }

      at : (found : Option LogEntry) → SameIndices n (snapshot_entry sm found n)
      at none = same
      at (some e) = taken e (sm.snapshot n.machine)

  pub apply_committed_entries-machine :
      (n : Node S)
      → (apply_committed_entries sm n).machine
        ≡ (apply_rounds sm (n.commit_index - n.last_applied) n).machine
  unfolding apply_committed_entries
  apply_committed_entries-machine n =
      (maybe_snapshot-SameIndices (apply_rounds sm (n.commit_index - n.last_applied) n)).machine

  pub apply_committed_entries-commit :
      (n : Node S) → (apply_committed_entries sm n).commit_index ≡ n.commit_index
  unfolding apply_committed_entries
  apply_committed_entries-commit n =
      (maybe_snapshot-SameIndices (apply_rounds sm (n.commit_index - n.last_applied) n)).commit
      ∙ apply_rounds-commit (n.commit_index - n.last_applied) n

  -- afterwards everything that is committed is applied
  pub apply_committed_entries-applied :
      (n : Node S)
      → n.last_applied ≤ n.commit_index
      → (apply_committed_entries sm n).last_applied ≡ n.commit_index
  unfolding apply_committed_entries
  apply_committed_entries-applied n b =
      (maybe_snapshot-SameIndices (apply_rounds sm (n.commit_index - n.last_applied) n)).applied
      ∙ apply_rounds-applied (n.commit_index - n.last_applied) n
      ∙ omega arith

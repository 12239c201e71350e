-- ===== src/Raft/Node/Apply/Replay.antt =====
-- oxidedb/raft/node.py: the state machine is the run of the committed commands, in the order of
-- the log, each once.
use oxide_db.Base.{
  ℕ, zero, suc, ◌+◌, ◌-◌, ◌≤◌, ◌≡◌, refl, ◌∙◌, true, some, List, [], ◌∷◌, length, arith, ltb,
  if◌then◌else◌, take, drop, get_elem?, inl, inr, Bool-cases,
}
use oxide_db.Base.Bytes.{bytes_eq}
use oxide_db.Raft.Disk.{LogEntry}
use oxide_db.Raft.Node.{Node, StateMachine, entry_at, entry_in, noop_command}
use oxide_db.Raft.Node.Log.{get_elem?-some}
use oxide_db.Raft.Node.WellFormed.{WellFormed}
use oxide_db.Raft.Node.Apply.{run_at, apply_next, apply_rounds, apply_committed_entries}
use oxide_db.Raft.Node.Apply.Bounds.{
  run_at-SameLogs, apply_next-applied, apply_committed_entries-machine,
}

drop-get_elem? :
    {A : Type 0} (i : ℕ) (l : List A) {x : A}
    → get_elem? l i ≡ some x
    → drop i l ≡ x ∷ drop (i + 1) l
drop-get_elem? i [] h = absurd (ground arith)
drop-get_elem? zero (y ∷ l) h = ground arith
drop-get_elem? (suc i) (y ∷ l) h =
    let step : suc i + 1 ≡ suc (i + 1) = omega arith in rw step (drop-get_elem? i l h)

module _ {S : Type 0} (sm : StateMachine S) where
  -- one command on the machine, a no-op on nothing
  abbrev pub run_command : LogEntry → S → S
  run_command e s = if bytes_eq e.command noop_command then s else (sm.apply e.command s).1

  abbrev pub run_commands : List LogEntry → S → S
  run_commands [] s = s
  run_commands (e ∷ l) s = run_commands l (run_command e s)

  run_at-machine :
      (i : ℕ) (e : LogEntry) (n : Node S)
      → (run_at sm i (some e) n).machine ≡ run_command e n.machine
  run_at-machine i e n = elim (Bool-cases (bytes_eq e.command noop_command)) [
    | inl eq ↦ rw eq refl
    | inr eq ↦ rw eq refl
  ]

  apply_next-log : (n : Node S) → (apply_next sm n).log ≡ n.log
  unfolding apply_next
  apply_next-log n =
      (run_at-SameLogs sm (n.last_applied + 1) (entry_at n (n.last_applied + 1))
        (record n { last_applied = n.last_applied + 1 })).log

  apply_next-base : (n : Node S) → (apply_next sm n).last_included_index ≡ n.last_included_index
  unfolding apply_next
  apply_next-base n =
      (run_at-SameLogs sm (n.last_applied + 1) (entry_at n (n.last_applied + 1))
        (record n { last_applied = n.last_applied + 1 })).base

  apply_next-machine :
      (n : Node S) {e : LogEntry}
      → n.last_included_index ≤ n.last_applied
      → get_elem? n.log (n.last_applied - n.last_included_index) ≡ some e
      → (apply_next sm n).machine ≡ run_command e n.machine
  unfolding apply_next entry_at entry_in
  apply_next-machine n {e} b h =
      let past : ltb n.last_included_index (n.last_applied + 1) ≡ true = ground arith in
      let at : n.last_applied + 1 - n.last_included_index - 1
          ≡ n.last_applied - n.last_included_index =
        omega arith in
      rw (past, at, h)
        (run_at-machine (n.last_applied + 1) e (record n { last_applied = n.last_applied + 1 }))

  apply_rounds-replay :
      (k i : ℕ) (n : Node S)
      → n.last_applied ≡ n.last_included_index + i
      → i + k ≤ length n.log
      → (apply_rounds sm k n).machine ≡ run_commands (take k (drop i n.log)) n.machine
  unfolding apply_rounds
  apply_rounds-replay zero i n eq b = refl
  apply_rounds-replay (suc k) i n eq b =
      let (e, found) = get_elem?-some n.log i (omega arith) in
      let at : n.last_applied - n.last_included_index ≡ i = omega arith in
      let this = apply_next-machine n {e = e} (omega arith) (rw at found) in
      let rest =
        apply_rounds-replay k (i + 1) (apply_next sm n)
          (omega (arith, apply_next-applied sm n, apply_next-base n))
          (rw (apply_next-log n) (omega arith)) in
      let here = drop-get_elem? i n.log found in rw here (rest ∙ rw (apply_next-log n, this) refl)

  -- After `_apply_committed_entries` the machine is the one before it after the commands of the
  -- entries between the two indices, in the order of the log and each once, no-ops left out.
  pub apply_committed_entries-replay :
      (n : Node S)
      → WellFormed n
      → (apply_committed_entries sm n).machine
        ≡ run_commands
            (take
              (n.commit_index - n.last_applied)
              (drop (n.last_applied - n.last_included_index) n.log))
            n.machine
  apply_committed_entries-replay n w =
      apply_committed_entries-machine sm n
      ∙ apply_rounds-replay (n.commit_index - n.last_applied)
          (n.last_applied - n.last_included_index) n (omega (arith, w.compacted))
          (omega (arith, w.compacted, w.applied, w.committed))

-- ===== src/Raft/Node/Apply.antt =====
-- oxidedb/raft/node.py: `_apply_committed_entries` and `_maybe_snapshot`.
pub mod Bounds
pub mod Replay
use oxide_db.Base.{
  ℕ, zero, suc, ◌+◌, ◌-◌, Bool, true, false, ◌||◌, Option, none, some, List, [], ◌∷◌, ◌++◌, ltb,
  ◌==◌, if◌then◌else◌, length, drop, filter, max,
}
use oxide_db.Base.Bytes.{Bytes, bytes_eq}
use oxide_db.Raft.Disk
use oxide_db.Raft.Disk.{Disk, LogEntry}
use oxide_db.Raft.StateMachine.{ApplyResult, succeeded}
use oxide_db.Raft.Node.{Node, StateMachine, noop_command, entry_at, on_disk}

-- `self[index] = result` of an ordered dictionary
set_result : ℕ → ApplyResult → List (ℕ × ApplyResult) → List (ℕ × ApplyResult)
set_result index result [] = (index, result) ∷ []
set_result index result ((i, r) ∷ l) =
    let rest = set_result index result l in
    if index == i then (index, result) ∷ l else (i, r) ∷ rest

-- `_ApplyResults.record`: the oldest results past the window are dropped
unfoldable pub record_result : ℕ → ℕ → ApplyResult → List (ℕ × ApplyResult) → List (ℕ × ApplyResult)
unfolding set_result
record_result window index result results =
    let all = set_result index result results in drop (length all - max 1 window) all

unfoldable pub get_result : ℕ → List (ℕ × ApplyResult) → Option ApplyResult
get_result index [] = none
get_result index ((i, r) ∷ l) = if index == i then some r else get_result index l

module _ {S : Type 0} (sm : StateMachine S) where
  open sm use {apply, snapshot}

  -- one entry handed to the state machine; a no-op is not
  abbrev pub run_entry : ℕ → LogEntry → Node S → Node S
  run_entry index entry n =
      if bytes_eq entry.command noop_command
      then record n {
        apply_results = record_result n.apply_results_window index succeeded n.apply_results;
      }
      else (let (result, machine) = apply entry.command n.machine in
          record n {
            machine = machine;
            apply_results = record_result n.apply_results_window index result n.apply_results;
          })

  abbrev pub run_at : ℕ → Option LogEntry → Node S → Node S
  run_at index none n = n
  run_at index (some entry) n = run_entry index entry n

  -- the body of the loop of `_apply_committed_entries`
  unfoldable pub apply_next : Node S → Node S
  apply_next n =
      let index = n.last_applied + 1 in
      let found = entry_at n index in run_at index found (record n { last_applied = index })

  -- `while self._last_applied < self._commit_index`: as many rounds as there are entries between
  unfoldable pub apply_rounds : ℕ → Node S → Node S
  apply_rounds zero n = n
  apply_rounds (suc k) n = apply_rounds k (apply_next n)

  -- the snapshot that `_maybe_snapshot` writes: to the disk first, then out of the log
  abbrev pub compact_to : LogEntry → Bytes → Node S → Node S
  compact_to entry blob n = record n {
    storage =
        on_disk
          (λ d.
            Disk.compact_log n.last_applied (Disk.save_snapshot n.last_applied entry.term blob d))
          n.storage;
    log = filter (λ e. ltb n.last_applied e.index) n.log;
    last_included_index = n.last_applied;
    last_included_term = entry.term;
  }

  -- a machine that has no snapshot is not asked again
  abbrev pub snapshot_at : LogEntry → Option Bytes → Node S → Node S
  snapshot_at entry none n = record n { snapshot_interval = 0 }
  snapshot_at entry (some blob) n = compact_to entry blob n

  abbrev pub snapshot_entry : Option LogEntry → Node S → Node S
  snapshot_entry none n = n
  snapshot_entry (some entry) n = snapshot_at entry (snapshot n.machine) n

  abbrev pub has_storage : Option Disk → Bool
  has_storage none = false
  has_storage (some d) = true

  -- `_maybe_snapshot`
  unfoldable pub maybe_snapshot : Node S → Node S
  maybe_snapshot n =
      if n.snapshot_interval == 0
      then n
      else if has_storage n.storage
      then (if ltb (n.last_applied - n.last_included_index) n.snapshot_interval
          then n
          else snapshot_entry (entry_at n n.last_applied) n)
      else n

  -- `_apply_committed_entries`
  unfoldable pub apply_committed_entries : Node S → Node S
  unfolding apply_rounds maybe_snapshot
  apply_committed_entries n = maybe_snapshot (apply_rounds (n.commit_index - n.last_applied) n)

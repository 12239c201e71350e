-- ===== src/Raft/Node/WellFormed.antt =====
-- oxidedb/raft/node.py: the invariant of the log and the indices of a node, and of its disk.
use oxide_db.Base.{
  ℕ, ◌+◌, ◌≤◌, ◌<◌, ◌≡◌, ap, Option, none, some, List, [], ◌∷◌, ◌++◌, length, length-append, arith,
}
use oxide_db.Raft.Disk
use oxide_db.Raft.Disk.{Disk, LogEntry, Snapshot}
use oxide_db.Raft.Node.{
  Node, last_log_index, entry_at, save_meta, save_commit_index, append_entry, on_disk,
}
use oxide_db.Raft.Node.Log.{
  Follows, Follows-last, append-Follows, put_entry-append, entry_in-index, entry_in-some,
  entry_in-bounds, entry_in-none,
}

-- the log starts behind the snapshot of the disk
abbrev pub SameBase : ℕ → Option Snapshot → Type 0
SameBase base none = base ≡ 0
SameBase base (some s) = base ≡ s.index

-- the log of the disk is the log in memory, and its snapshot the one in memory
abbrev pub SameLog : ℕ → List LogEntry → Option Disk → Type 0
SameLog base log none = Unit
SameLog base log (some d) = (d.log ≡ log) × SameBase base d.snapshot

-- The log has no gap, it starts behind the snapshot, and the snapshot is within what is applied,
-- that within what is committed, and that within the log; the disk has the same log and snapshot.
pub record WellFormed {S : Type 0} (n : Node S) : Type 0 where
  pub follows : Follows n.last_included_index n.log
  pub compacted : n.last_included_index ≤ n.last_applied
  pub applied : n.last_applied ≤ n.commit_index
  pub committed : n.commit_index ≤ n.last_included_index + length n.log
  pub saved : SameLog n.last_included_index n.log n.storage

-- what the invariant reads of a node
pub record View : Type 0 where
  pub log : List LogEntry
  pub base : ℕ
  pub applied : ℕ
  pub commit : ℕ
  pub storage : Option Disk

abbrev pub view : {S : Type 0} → Node S → View
view n = record {
  log = n.log;
  base = n.last_included_index;
  applied = n.last_applied;
  commit = n.commit_index;
  storage = n.storage;
}

-- a node that differs elsewhere only
pub WellFormed-view : {S : Type 0} (n n' : Node S) → view n' ≡ view n → WellFormed n → WellFormed n'
WellFormed-view n n' e w =
    let l : n'.log ≡ n.log = ap (λ (v : View). v.log) e in
    let b : n'.last_included_index ≡ n.last_included_index = ap (λ (v : View). v.base) e in
    let a : n'.last_applied ≡ n.last_applied = ap (λ (v : View). v.applied) e in
    let c : n'.commit_index ≡ n.commit_index = ap (λ (v : View). v.commit) e in
    let s : n'.storage ≡ n.storage = ap (λ (v : View). v.storage) e in
    record {
      follows = rw (l, b) w.follows;
      compacted = rw (a, b) w.compacted;
      applied = rw (a, c) w.applied;
      committed = rw (b, c, l) w.committed;
      saved = rw (b, l, s) w.saved;
    }

-- what an operation on the disk does to its log
pub SameLog-on_disk :
    (f : Disk → Disk) (base base' : ℕ) (log log' : List LogEntry) (s : Option Disk)
    → ((d : Disk) → SameLog base log (some d) → SameLog base' log' (some (f d)))
    → SameLog base log s
    → SameLog base' log' (on_disk f s)
SameLog-on_disk f base base' log log' none h k = tt
SameLog-on_disk f base base' log log' (some d) h k = h d k

module _ {S : Type 0} where
  pub last_log_index-eq :
      (n : Node S) → WellFormed n → last_log_index n ≡ n.last_included_index + length n.log
  unfolding last_log_index
  last_log_index-eq n w = Follows-last n.last_included_index n.log w.follows

  pub entry_at-index :
      (n : Node S) (i : ℕ) {e : LogEntry} → WellFormed n → entry_at n i ≡ some e → e.index ≡ i
  unfolding entry_at
  entry_at-index n i w eq = entry_in-index n.last_included_index n.log i w.follows eq

  pub entry_at-some :
      (n : Node S) (i : ℕ)
      → n.last_included_index < i
      → i ≤ n.last_included_index + length n.log
      → (e : LogEntry) × (entry_at n i ≡ some e)
  unfolding entry_at
  entry_at-some n i past b = entry_in-some n.last_included_index n.log i past b

  pub entry_at-bounds :
      (n : Node S) (i : ℕ) {e : LogEntry}
      → entry_at n i ≡ some e
      → (n.last_included_index < i) × (i ≤ n.last_included_index + length n.log)
  unfolding entry_at
  entry_at-bounds n i eq = entry_in-bounds n.last_included_index n.log i eq

  pub entry_at-none :
      (n : Node S) (i : ℕ)
      → n.last_included_index < i
      → entry_at n i ≡ none
      → n.last_included_index + length n.log < i
  unfolding entry_at
  entry_at-none n i past eq = entry_in-none n.last_included_index n.log i past eq

  pub save_meta-WellFormed : (n : Node S) → WellFormed n → WellFormed (save_meta n)
  unfolding save_meta Disk.save_meta
  save_meta-WellFormed n w = record {
    follows = w.follows;
    compacted = w.compacted;
    applied = w.applied;
    committed = w.committed;
    saved =
        SameLog-on_disk _ n.last_included_index n.last_included_index n.log n.log n.storage
          (λ d h. h) w.saved;
  }

  -- a new commit index within the log
  pub save_commit_index-WellFormed :
      (n : Node S) (index : ℕ)
      → WellFormed n
      → n.last_applied ≤ index
      → index ≤ n.last_included_index + length n.log
      → WellFormed (save_commit_index (record n { commit_index = index }))
  unfolding save_commit_index Disk.save_commit_index
  save_commit_index-WellFormed n index w low high = record {
    follows = w.follows;
    compacted = w.compacted;
    applied = low;
    committed = high;
    saved =
        SameLog-on_disk _ n.last_included_index n.last_included_index n.log n.log n.storage
          (λ d h. h) w.saved;
  }

  pub append_entry-WellFormed :
      (e : LogEntry) (n : Node S)
      → WellFormed n
      → e.index ≡ n.last_included_index + length n.log + 1
      → WellFormed (append_entry e n)
  unfolding append_entry Disk.append_log_entry
  append_entry-WellFormed e n w eq = record {
    follows = append-Follows n.last_included_index n.log e w.follows eq;
    compacted = w.compacted;
    applied = w.applied;
    committed = omega (arith, w.committed, length-append n.log (e ∷ []));
    saved =
        SameLog-on_disk _ n.last_included_index n.last_included_index n.log (n.log ++ e ∷ [])
          n.storage
          (λ d h.
            (rw h.0 (put_entry-append n.last_included_index n.log e w.follows (omega arith)), h.1))
          w.saved;
  }

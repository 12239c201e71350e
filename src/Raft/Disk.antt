-- ===== src/Raft/Disk.antt =====
-- oxidedb/raft/storage.py: what a node keeps on disk, with the operations of
-- `EngineRaftStorage`. Its log is a range of the engine ordered by the index of the entry.
use oxide_db.Base.{ℕ, Option, none, some, List, [], ◌∷◌, ltb, ◌==◌, if◌then◌else◌, filter}
use oxide_db.Base.Bytes.{Bytes}

-- `LogEntry` of oxidedb/raft/node.py
pub record LogEntry : Type 0 where
  pub term : ℕ
  pub index : ℕ
  pub command : Bytes

-- `(last_included_index, last_included_term, data)`
pub record Snapshot : Type 0 where
  pub index : ℕ
  pub term : ℕ
  pub blob : Bytes

pub record Disk : Type 0 where
  pub current_term : ℕ
  pub voted_for : Option ℕ
  pub log : List LogEntry
  pub commit_index : ℕ
  pub snapshot : Option Snapshot

-- a disk that nothing was written to
abbrev pub empty : Disk
empty = record { current_term = 0; voted_for = none; log = []; commit_index = 0; snapshot = none }

unfoldable pub save_meta : ℕ → Option ℕ → Disk → Disk
save_meta term vote d = record d { current_term = term; voted_for = vote }

-- a put at the entry's index: it takes the place of an entry that is there
unfoldable pub put_entry : LogEntry → List LogEntry → List LogEntry
put_entry e [] = e ∷ []
put_entry e (f ∷ l) =
    let rest = put_entry e l in
    if ltb e.index f.index then e ∷ f ∷ l else if e.index == f.index then e ∷ l else f ∷ rest

unfoldable pub append_log_entry : LogEntry → Disk → Disk
append_log_entry e d = record d { log = put_entry e d.log }

-- drops every entry from `from_index` on
unfoldable pub truncate_log : ℕ → Disk → Disk
truncate_log from_index d = record d { log = filter (λ e. ltb e.index from_index) d.log }

-- drops every entry up to `last_included_index`
unfoldable pub compact_log : ℕ → Disk → Disk
compact_log last_included_index d = record d {
  log = filter (λ e. ltb last_included_index e.index) d.log;
}

unfoldable pub save_snapshot : ℕ → ℕ → Bytes → Disk → Disk
save_snapshot index term blob d = record d {
  snapshot = some (record { index = index; term = term; blob = blob });
}

unfoldable pub save_commit_index : ℕ → Disk → Disk
save_commit_index commit_index d = record d { commit_index = commit_index }

-- ===== src/Tests/Splits.antt =====
-- A split of shard 5 at key 2 into shard 6, of which one row is to be copied.
use oxide_db.Base.{ℕ, ◌≡◌, refl, Bool, true, false, none, some, [], ◌∷◌, if◌then◌else◌}
use oxide_db.Base.Bytes.{bytes_eq, bytes_lt}
use oxide_db.Raft.StateMachine.{Command, succeeded, failure}
use oxide_db.Raft.Recovery.{PendingSplit, Action, Event, ScanReply, Runner}
use oxide_db.Raft.Recovery.Split.{SplitEnv, finish_split, resume_split}
use oxide_db.Raft.Recovery.Splits.{SplitEnded, finish_split-SplitEnded}
use oxide_db.Tests.Recovery.{view, noted}

-- the table takes the split; the new group takes rows where `takes` says so, and the source reads
-- them where `reads` does
abbrev group : Bool → Bool → SplitEnv ℕ ℕ
group takes reads = record {
  view = record (view true) {
    propose = λ h command w. (if takes then succeeded else failure 301, w);
    scan_versions = λ h range w. (
      if reads
          then ScanReply.read_rows ((1 ∷ [], (7 ∷ [], 40)) ∷ (2 ∷ [], (8 ∷ [], 41)) ∷ [])
          else ScanReply.scan_refused 301,
      w,
    );
  };
  node_ids = 1 ∷ 2 ∷ [];
  shard_replica_ids = λ s w. (1 ∷ 2 ∷ [], w);
  leader_client = λ s w. (some (some 1), w);
  split_shard = λ s key new nodes addresses w. (succeeded, w);
}

abbrev splitting : PendingSplit
splitting = record {
  shard_id = 5;
  split_key = 2 ∷ [];
  new_shard_id = 6;
  rows = (2 ∷ [], 8 ∷ []) ∷ [];
}

abbrev begun : Runner ℕ
begun = record noted { pending_splits = (5, splitting) ∷ [] }

-- the new group refuses the row, and the split is published all the same
row_lost :
    (finish_split (group false true) 0 splitting 1 begun).1.events
    ≡ Event.did (Action.unfreeze 5 (1 ∷ 2 ∷ []))
      ∷ Event.did (Action.forget_note 5)
      ∷ Event.did (Action.apply_split_locally 5 (2 ∷ []) 6)
      ∷ Event.asked_split 5 (2 ∷ []) 6 true
      ∷ Event.proposed (Command.set (2 ∷ []) (8 ∷ []) (some 41) none) false
      ∷ []
unfolding finish_split bytes_eq
row_lost = refl

finished_without_row : (finish_split (group false true) 0 splitting 1 begun).0 ≡ some true
unfolding finish_split bytes_eq
finished_without_row = refl

-- a source that refuses the scan raises out of the recovery
refusal_escapes : (resume_split (group true false) 0 5 begun).0 ≡ none
unfolding resume_split bytes_lt
refusal_escapes = refl

resumed : (resume_split (group true true) 0 5 begun).0 ≡ some true
unfolding resume_split bytes_eq bytes_lt
resumed = refl

finish_split-SplitEnded_example :
    SplitEnded true splitting []
      (finish_split (group true true) 0 splitting 1 begun).0
      (finish_split (group true true) 0 splitting 1 begun).1.events
finish_split-SplitEnded_example = finish_split-SplitEnded (group true true) 0 splitting 1 begun

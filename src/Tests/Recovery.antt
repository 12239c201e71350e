-- ===== src/Tests/Recovery.antt =====
-- A move of shard 5 from node 1 to node 2, of two rows of which the new group has one.
use oxide_db.Base.{
  ℕ, ◌≡◌, refl, Bool, true, false, Option, none, some, List, [], ◌∷◌, if◌then◌else◌,
}
use oxide_db.Base.Bytes.{bytes_eq}
use oxide_db.Raft.StateMachine.{Command, succeeded, failure}
use oxide_db.Raft.Recovery.{
  MigrationState, MoveError, Phase, Action, Event, Row, ScanReply, Env, Runner,
}
use oxide_db.Raft.Recovery.Move.{finish_move, resume_migration}

abbrev stored : List Row
stored = (1 ∷ [], (7 ∷ [], 40)) ∷ (2 ∷ [], (8 ∷ [], 41)) ∷ []

-- the leader of a group is its first node; the world is not used
abbrev first_of : List ℕ → Option ℕ
first_of [] = none
first_of (n ∷ l) = some n

-- the second group has the row of key 1; the table takes the move where `takes` says so
abbrev pub view : Bool → Env ℕ ℕ
view takes = record {
  has_table = true;
  perform = λ action w. w;
  range_of = λ s w. (([], 255 ∷ []), w);
  leader_client_for_nodes = λ s nodes w. (first_of nodes, w);
  serving_nodes = λ s w. (some (some (1 ∷ [])), w);
  addresses_on = λ s nodes w. ([], w);
  move_shard = λ s old new addresses w. (if takes then succeeded else failure 14, w);
  scan = λ h range w. (none, w);
  scan_versions = λ h range w. (ScanReply.read_rows stored, w);
  commit_ts_of = λ h key w. (if bytes_eq key (1 ∷ []) then 40 else 0, w);
  get_write_record = λ h key w. (none, w);
  propose = λ h command w. (succeeded, w);
}

abbrev moving : MigrationState
moving = record {
  shard_id = 5;
  target_nodes = 2 ∷ [];
  source_nodes = 1 ∷ [];
  phase = Phase.freezing;
  copied_keys = [];
  rows = [];
}

abbrev pub noted : Runner ℕ
noted = record {
  migrations = (5, moving) ∷ [];
  last_migration_error = none;
  pending_splits = [];
  last_split_error = none;
  events = [];
  world = 0;
}

-- one row is there, the other is copied, the table takes the move
moved :
    (resume_migration (view true) 0 3 5 noted).1.events
    ≡ Event.did (Action.ensure_serving 5 (2 ∷ []))
      ∷ Event.did (Action.forget_note 5)
      ∷ Event.did (Action.apply_move_locally 5 (2 ∷ []))
      ∷ Event.asked_table 5 (1 ∷ []) (2 ∷ []) succeeded
      ∷ Event.proposed (Command.set (2 ∷ []) (8 ∷ []) (some 41) none) true
      ∷ Event.has_row (1 ∷ []) 40
      ∷ Event.did (Action.ensure_group_on 5 (2 ∷ []))
      ∷ Event.did (Action.freeze 5 (1 ∷ []))
      ∷ []
unfolding resume_migration bytes_eq
moved = refl

-- a refusal of the table gives the shard back
refused :
    (finish_move (view false) 0 3 moving noted).1.last_migration_error ≡ some MoveError.refused
unfolding finish_move bytes_eq
refused = refl

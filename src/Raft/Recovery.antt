-- ===== src/Raft/Recovery.antt =====
-- oxidedb/raft/recovery_runner.py, what is held of a move and of a split, and what the
-- runner calls.
--
-- The view, the handles `H` of the groups' leaders and the routing table are an `Env` over a world `W`.
-- The calls that change something are kept as `events`, the last one first, with the answers that say
-- how a row or a move was taken. A wait polls until a deadline; how many polls the deadline leaves is
-- its `patience`. Every shard has a range.
pub mod Move
pub mod Notes
pub mod Split
pub mod Splits
pub mod Events
pub mod Ends
pub mod Copied
use oxide_db.Base.{ℕ, Bool, true, false, Option, none, some, List, [], ◌∷◌, ◌++◌, if◌then◌else◌}
use oxide_db.Base.Bytes.{Bytes, bytes_eq}
use oxide_db.Base.Dict.{set_key, get_key, del_key}
use oxide_db.Metadata.Table.{Address}
use oxide_db.Raft.StateMachine.{Command, ApplyResult}
use oxide_db.Storage.Mvcc.Types.{WriteRecord}

pub data Phase : Type 0 where
  freezing copying proposing finished : Phase

pub record MigrationState : Type 0 where
  pub shard_id : ℕ
  pub target_nodes : List ℕ
  pub source_nodes : List ℕ
  pub phase : Phase
  pub copied_keys : List Bytes
  pub rows : List (Bytes × Bytes)

-- what `record_migration_error` is told
pub data MoveError : Type 0 where
  no_leader no_new_leader locked rows_unread versions_unread row_refused : MoveError
  not_in_table refused unreachable unreadable elsewhere : MoveError

-- a split that is under way, with the rows that were read for it
pub record PendingSplit : Type 0 where
  pub shard_id : ℕ
  pub split_key : Bytes
  pub new_shard_id : ℕ
  pub rows : List (Bytes × Bytes)

-- what `_last_split_error` is set to
pub data SplitError : Type 0 where
  split_unreadable split_no_leader split_locked split_unnamed split_no_group split_refused :
      SplitError

-- the three answers of a proposal to the routing table
pub data Outcome : Type 0 where
  taken : Outcome
  rejected : MoveError → Outcome
  unanswered : Outcome

-- the calls of a view that change something
pub data Action : Type 0 where
  freeze unfreeze ensure_group_on apply_move_locally ensure_serving close_group_on :
      ℕ → List ℕ → Action
  forget_note : ℕ → Action
  apply_split_locally : ℕ → Bytes → ℕ → Action

pub data Event : Type 0 where
  did : Action → Event
  -- the new group answered a read of the row with the version; 0 is also what it answers of a row
  -- that it does not have, or where it refuses the read
  has_row : Bytes → ℕ → Event
  -- a proposal to the new group, and whether it succeeded
  proposed : Command → Bool → Event
  -- `move_shard` from nodes to nodes, and what it was answered with
  asked_table : ℕ → List ℕ → List ℕ → ApplyResult → Event
  -- the table was read for a proposal, and does not name the shard
  unnamed : ℕ → Event
  -- `split_shard` of a shard at a key into a new shard, and whether it succeeded
  asked_split : ℕ → Bytes → ℕ → Bool → Event

-- a row that a scan gives, with its version
abbrev pub Row : Type 0
Row = Bytes × (Bytes × ℕ)

-- what a scan comes to: the rows, or the code of a refusal
pub data ScanReply : Type 0 where
  read_rows : List Row → ScanReply
  scan_refused : ℕ → ScanReply

-- `serving_nodes` answers `none` where it raises; `scan` is whether, and with what code, it is refused
pub record Env (W H : Type 0) : Type 0 where
  pub has_table : Bool
  pub perform : Action → W → W
  pub range_of : ℕ → W → (Bytes × Bytes) × W
  pub leader_client_for_nodes : ℕ → List ℕ → W → Option H × W
  pub serving_nodes : ℕ → W → Option (Option (List ℕ)) × W
  pub addresses_on : ℕ → List ℕ → W → List (ℕ × Address) × W
  pub move_shard : ℕ → List ℕ → List ℕ → List (ℕ × Address) → W → ApplyResult × W
  pub scan : H → Bytes × Bytes → W → Option ℕ × W
  pub scan_versions : H → Bytes × Bytes → W → ScanReply × W
  pub commit_ts_of : H → Bytes → W → ℕ × W
  pub get_write_record : H → Bytes → W → Option WriteRecord × W
  pub propose : H → Command → W → ApplyResult × W

pub record Runner (W : Type 0) : Type 0 where
  pub migrations : List (ℕ × MigrationState)
  pub last_migration_error : Option MoveError
  pub pending_splits : List (ℕ × PendingSplit)
  pub last_split_error : Option SplitError
  pub events : List Event
  pub world : W

abbrev pub M : Type 0 → Type 0 → Type 0
M W A = Runner W → A × Runner W

abbrev pub bind_pair : {W A B : Type 0} → A × Runner W → (A → M W B) → B × Runner W
bind_pair (a, r) f = f a r

infixl 5 ◌>>=◌ ◌>>◌
abbrev pub ◌>>=◌ : {W A B : Type 0} → M W A → (A → M W B) → M W B
◌>>=◌ m f r = bind_pair (m r) f

abbrev pub ◌>>◌ : {W A B : Type 0} → M W A → M W B → M W B
m >> n = m >>= λ _. n

abbrev pub pure : {W A : Type 0} → A → M W A
pure a r = (a, r)

abbrev pub call : {W A : Type 0} → (W → A × W) → M W A
call f r = let (a, w) = f r.world in (a, record r { world = w })

abbrev pub note : {W : Type 0} → Event → M W (Unit {0})
note e r = (tt, record r { events = e ∷ r.events })

abbrev pub fail : {W : Type 0} → MoveError → M W Bool
fail e r = (false, record r { last_migration_error = some e })

-- a field of the move that is held of the shard is set
unfoldable pub with_migration :
    {W : Type 0} → ℕ → (MigrationState → MigrationState) → M W (Unit {0})
unfolding get_key set_key
with_migration shard_id f r = (
  tt,
  record r {
    migrations = elim (get_key shard_id r.migrations) [
      | none ↦ r.migrations
      | some state ↦ set_key shard_id (f state) r.migrations
    ];
  },
)

unfoldable pub drop_migration : {W : Type 0} → ℕ → M W (Unit {0})
unfolding del_key
drop_migration shard_id r = (tt, record r { migrations = del_key shard_id r.migrations })

-- the version of a key in a dictionary of versions, the last row of a key counting
unfoldable pub version_of : Bytes → List Row → Option ℕ
unfolding bytes_eq
version_of key [] = none
version_of key (row ∷ l) =
    let rest = version_of key l in
    elim rest [ some v ↦ some v | none ↦ if bytes_eq key row.0 then some row.1.1 else none ]

unfoldable pub rows_of : List Row → List (Bytes × Bytes)
rows_of [] = []
rows_of (row ∷ l) = (row.0, row.1.0) ∷ rows_of l

-- ===== src/Raft/Recovery/Move.antt =====
-- oxidedb/raft/recovery_runner.py: `finish_move`, `_resume_migration` and what they call.
use oxide_db.Base.{
  ℕ, zero, suc, Bool, true, false, ◌&&◌, Option, none, some, List, [], ◌∷◌, ◌++◌, ◌==◌, ltb,
  if◌then◌else◌,
}
use oxide_db.Base.Bytes.{Bytes}
use oxide_db.Base.Dict.{get_key}
use oxide_db.Raft.ErrorCode.{err_locked, err_not_leader}
use oxide_db.Raft.StateMachine.{Command}
use oxide_db.Raft.Recovery.{
  Phase, MigrationState, MoveError, Outcome, Action, Event, Row, ScanReply, Env, M, ◌>>=◌, ◌>>◌,
  pure, call, note, fail, with_migration, drop_migration, version_of, rows_of,
}
use oxide_db.Storage.Mvcc.Types.{WriteRecord}

abbrev pub is_code : ℕ → Option ℕ → Bool
is_code code none = false
is_code code (some c) = c == code

-- `record["start_ts"]` where the record is of the version
abbrev pub start_of : ℕ → Option WriteRecord → Option ℕ
start_of version none = none
start_of version (some r) = if r.commit_ts == version then some r.start_ts else none

unfoldable pub insert_node : ℕ → List ℕ → List ℕ
insert_node n [] = n ∷ []
insert_node n (m ∷ l) = let rest = insert_node n l in if ltb n m then n ∷ m ∷ l else m ∷ rest

unfoldable pub sorted_nodes : List ℕ → List ℕ
unfolding insert_node
sorted_nodes [] = []
sorted_nodes (n ∷ l) = insert_node n (sorted_nodes l)

unfoldable pub nodes_eq : List ℕ → List ℕ → Bool
nodes_eq [] [] = true
nodes_eq (n ∷ l) (m ∷ k) = n == m && nodes_eq l k
nodes_eq _ _ = false

-- `sorted(nodes) == sorted(others)`
unfoldable pub same_nodes : List ℕ → List ℕ → Bool
unfolding nodes_eq sorted_nodes
same_nodes l m = nodes_eq (sorted_nodes l) (sorted_nodes m)

module _ {W H : Type 0} (env : Env W H) (patience : ℕ) where
  unfoldable pub act : Action → M W (Unit {0})
  act action r =
      (tt, record r { events = Event.did action ∷ r.events; world = env.perform action r.world })

  unfoldable pub poll_group : ℕ → ℕ → List ℕ → M W (Option H)
  poll_group zero shard_id nodes = call (env.leader_client_for_nodes shard_id nodes)
  poll_group (suc polls) shard_id nodes =
      call (env.leader_client_for_nodes shard_id nodes) >>= λ client. elim client [
        | some h ↦ pure (some h)
        | none ↦ poll_group polls shard_id nodes
      ]

  unfoldable pub wait_for_group : ℕ → List ℕ → M W (Option H)
  unfolding poll_group
  wait_for_group = poll_group patience

  unfoldable pub poll_serving : ℕ → ℕ → M W (Option (Option (List ℕ)))
  poll_serving zero shard_id = call (env.serving_nodes shard_id)
  poll_serving (suc polls) shard_id = call (env.serving_nodes shard_id) >>= λ nodes. elim nodes [
    | some answer ↦ pure (some answer)
    | none ↦ poll_serving polls shard_id
  ]

  unfoldable pub locks_in_range : H → Bytes × Bytes → M W Bool
  locks_in_range source range =
      call (env.scan source range) >>= λ code. pure (is_code err_locked code)

  -- the row as the version it is
  unfoldable pub move_row : H → H → Bytes → Bytes → ℕ → M W Bool
  move_row source target key value version = call (env.get_write_record source key) >>= λ found.
      let command = Command.set key value (some version) (start_of version found) in
      call (env.propose target command) >>= λ result.
      note (Event.proposed command result.success) >> pure result.success

  unfoldable pub copy_row : H → H → ℕ → Bytes → Bytes → ℕ → M W Bool
  unfolding move_row with_migration
  copy_row source target shard_id key value version = call (env.commit_ts_of target key) >>= λ held.
      elim (held == version) [
        | true ↦ note (Event.has_row key version) >> pure true
        | false ↦ move_row source target key value version >>= λ moved. elim moved [
          | false ↦ fail MoveError.row_refused
          | true ↦
              with_migration shard_id (λ s. record s { copied_keys = s.copied_keys ++ key ∷ [] })
              >> pure true
        ]
      ]

  -- `for key, value in state.rows`
  unfoldable pub copy_each : H → H → ℕ → List Row → List (Bytes × Bytes) → M W Bool
  unfolding copy_row version_of
  copy_each source target shard_id versions [] = pure true
  copy_each source target shard_id versions ((key, value) ∷ l) = elim (version_of key versions) [
    | none ↦ copy_each source target shard_id versions l
    | some version ↦ copy_row source target shard_id key value version >>= λ copied. elim copied [
      | true ↦ copy_each source target shard_id versions l
      | false ↦ pure false
    ]
  ]

  unfoldable pub copy_rows : H → H → ℕ → List (Bytes × Bytes) → M W Bool
  unfolding copy_each
  copy_rows source target shard_id rows = call (env.range_of shard_id) >>= λ range.
      call (env.scan_versions source range) >>= λ reply. elim reply [
        | ScanReply.scan_refused code ↦ fail MoveError.versions_unread
        | ScanReply.read_rows versions ↦ copy_each source target shard_id versions rows
      ]

  -- one attempt less after every answer that is not final
  unfoldable pub propose_each : ℕ → ℕ → List ℕ → List (ℕ × Bytes) → M W Outcome
  propose_each zero shard_id target_nodes addresses = pure Outcome.unanswered
  propose_each (suc attempts) shard_id target_nodes addresses =
      call (env.serving_nodes shard_id) >>= λ named. elim named [
        | none ↦ propose_each attempts shard_id target_nodes addresses
        | some none ↦
            note (Event.unnamed shard_id) >> pure (Outcome.rejected MoveError.not_in_table)
        | some (some from_nodes) ↦
            call (env.move_shard shard_id from_nodes target_nodes addresses) >>= λ result.
            note (Event.asked_table shard_id from_nodes target_nodes result)
            >> elim result.success [
              | true ↦ pure Outcome.taken
              | false ↦ elim (is_code err_not_leader result.error_code) [
                | true ↦ propose_each attempts shard_id target_nodes addresses
                | false ↦ pure (Outcome.rejected MoveError.refused)
              ]
            ]
      ]

  -- `attempts` is PROPOSE_ATTEMPTS
  unfoldable pub propose_move : ℕ → ℕ → List ℕ → M W Outcome
  unfolding propose_each
  propose_move attempts shard_id target_nodes = elim env.has_table [
    | false ↦ pure Outcome.taken
    | true ↦ call (env.addresses_on shard_id target_nodes) >>= λ addresses.
        propose_each attempts shard_id target_nodes addresses
  ]

  unfoldable pub commit_move : ℕ → List ℕ → M W (Unit {0})
  unfolding act with_migration drop_migration
  commit_move shard_id target_nodes = do
    act (Action.apply_move_locally shard_id target_nodes)
    with_migration shard_id (λ s. record s { phase = Phase.finished })
    act (Action.forget_note shard_id)
    act (Action.ensure_serving shard_id target_nodes)
    drop_migration shard_id

  unfoldable pub abort_move : MigrationState → M W (Unit {0})
  unfolding act drop_migration
  abort_move state = do
    drop_migration state.shard_id
    act (Action.forget_note state.shard_id)
    act (Action.unfreeze state.shard_id state.source_nodes)
    act (Action.close_group_on state.shard_id state.target_nodes)

  unfoldable pub conclude : MigrationState → Outcome → M W Bool
  unfolding commit_move abort_move
  conclude state Outcome.taken = commit_move state.shard_id state.target_nodes >> pure true
  conclude state (Outcome.rejected e) = fail e >> abort_move state >> pure false
  conclude state Outcome.unanswered = fail MoveError.unreachable

  -- from the copy on
  unfoldable pub copy_and_propose : ℕ → MigrationState → H → H → List (Bytes × Bytes) → M W Bool
  unfolding copy_rows propose_move conclude with_migration
  copy_and_propose attempts state source target rows = do
    with_migration state.shard_id (λ s. record s { phase = Phase.copying })
    copied ← copy_rows source target state.shard_id rows
    elim copied [
      | false ↦ pure false
      | true ↦ do
        with_migration state.shard_id (λ s. record s { phase = Phase.proposing })
        result ← propose_move attempts state.shard_id state.target_nodes
        conclude state result
    ]

  -- the rows are read
  unfoldable pub move_rows : ℕ → MigrationState → H → List (Bytes × Bytes) → M W Bool
  unfolding act wait_for_group copy_and_propose
  move_rows attempts state source rows = do
    act (Action.ensure_group_on state.shard_id state.target_nodes)
    target ← wait_for_group state.shard_id state.target_nodes
    elim target [
      | none ↦ fail MoveError.no_new_leader
      | some h ↦ copy_and_propose attempts state source h rows
    ]

  -- the rows of a move that this process did not start
  unfoldable pub read_and_move : ℕ → MigrationState → H → M W Bool
  unfolding locks_in_range with_migration move_rows rows_of
  read_and_move attempts state source = do
    range ← call (env.range_of state.shard_id)
    held ← locks_in_range source range
    elim held [
      | true ↦ fail MoveError.locked
      | false ↦ call (env.scan_versions source range) >>= λ reply. elim reply [
        | ScanReply.scan_refused code ↦ fail MoveError.rows_unread
        | ScanReply.read_rows found ↦ do
          with_migration state.shard_id (λ s. record s { rows = rows_of found })
          move_rows attempts state source (rows_of found)
      ]
    ]

  unfoldable pub finish_from : ℕ → MigrationState → Option H → M W Bool
  unfolding move_rows read_and_move
  finish_from attempts state none = fail MoveError.no_leader
  finish_from attempts state (some source) = elim state.rows [
    | [] ↦ read_and_move attempts state source
    | row ∷ l ↦ move_rows attempts state source (row ∷ l)
  ]

  unfoldable pub finish_move : ℕ → MigrationState → M W Bool
  unfolding wait_for_group finish_from
  finish_move attempts state = wait_for_group state.shard_id state.source_nodes >>= λ source.
      finish_from attempts state source

  -- by the nodes that the table names
  unfoldable pub resume_at : ℕ → MigrationState → Option (Option (List ℕ)) → M W Bool
  unfolding same_nodes act commit_move finish_move
  resume_at attempts state none = fail MoveError.unreadable
  resume_at attempts state (some none) = fail MoveError.not_in_table
  resume_at attempts state (some (some nodes)) = elim (same_nodes nodes state.target_nodes) [
    | true ↦ do
      act (Action.ensure_group_on state.shard_id state.target_nodes)
      commit_move state.shard_id state.target_nodes
      pure true
    | false ↦ elim (same_nodes nodes state.source_nodes) [
      | true ↦ finish_move attempts state
      | false ↦ fail MoveError.elsewhere
    ]
  ]

  unfoldable pub resume_migration : ℕ → ℕ → M W Bool
  unfolding get_key act poll_serving resume_at
  resume_migration attempts shard_id r = elim (get_key shard_id r.migrations) [
    | none ↦ (false, r)
    | some state ↦
        (do
          act (Action.freeze shard_id state.source_nodes)
          nodes ← poll_serving patience shard_id
          resume_at attempts state nodes)
          r
  ]

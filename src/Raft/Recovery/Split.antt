-- ===== src/Raft/Recovery/Split.antt =====
-- oxidedb/raft/recovery_runner.py: `finish_split`, `_resume_split` and what they call. The answer is
-- `none` where a refused scan is raised out of the recovery.
use oxide_db.Base.{
  ℕ, zero, suc, Bool, true, false, not, Option, none, some, List, [], ◌∷◌, ◌==◌, filter,
}
use oxide_db.Base.Bytes.{Bytes, bytes_lt}
use oxide_db.Base.Dict.{get_key, set_key, del_key}
use oxide_db.Metadata.Table.{Address}
use oxide_db.Raft.StateMachine.{ApplyResult}
use oxide_db.Raft.Recovery.{
  PendingSplit, SplitError, Action, Event, Row, ScanReply, Env, M, ◌>>=◌, ◌>>◌, pure, call, note,
  version_of, rows_of,
}
use oxide_db.Raft.Recovery.Move.{act, move_row, wait_for_group, locks_in_range}

-- what a split asks besides; `leader_client` answers `none` where it raises
pub record SplitEnv (W H : Type 0) : Type 0 where
  pub view : Env W H
  pub node_ids : List ℕ
  pub shard_replica_ids : ℕ → W → List ℕ × W
  pub leader_client : ℕ → W → Option (Option H) × W
  pub split_shard : ℕ → Bytes → ℕ → List ℕ → List (ℕ × Address) → W → ApplyResult × W

abbrev pub fail_split : {W : Type 0} → SplitError → M W (Option Bool)
fail_split e r = (some false, record r { last_split_error = some e })

abbrev pub raise_refusal : {W : Type 0} → M W (Option Bool)
raise_refusal r = (none, r)

-- a step that is made once the one before it went through
abbrev pub if_through : {W : Type 0} → M W (Option Bool) → Option Bool → M W (Option Bool)
if_through next none = pure none
if_through next (some b) = elim b [ true ↦ next | false ↦ pure (some false) ]

-- the rows from the split key on
unfoldable pub rows_above : Bytes → List Row → List (Bytes × Bytes)
unfolding bytes_lt rows_of
rows_above split_key rows = rows_of (filter (λ row. not (bytes_lt row.0 split_key)) rows)

module _ {W H : Type 0} (env : SplitEnv W H) (patience : ℕ) where
  unfoldable pub copy_missing_row : H → H → Bytes → Bytes → ℕ → M W (Unit {0})
  unfolding move_row
  copy_missing_row source target key value version =
      call (env.view.commit_ts_of target key) >>= λ held. elim (held == version) [
        | true ↦ note (Event.has_row key version)
        | false ↦ move_row env.view patience source target key value version >>= λ moved. pure tt
      ]

  -- `for key, value in pending["rows"]`: what comes of a row is not looked at
  unfoldable pub copy_missing_each : H → H → List Row → List (Bytes × Bytes) → M W (Option Bool)
  unfolding version_of copy_missing_row
  copy_missing_each source target versions [] = pure (some true)
  copy_missing_each source target versions ((key, value) ∷ l) = elim (version_of key versions) [
    | none ↦ copy_missing_each source target versions l
    | some version ↦ copy_missing_row source target key value version >>= λ u.
        copy_missing_each source target versions l
  ]

  unfoldable pub copy_what_is_missing : PendingSplit → H → M W (Option Bool)
  unfolding wait_for_group copy_missing_each
  copy_what_is_missing pending source =
      wait_for_group env.view patience pending.new_shard_id env.node_ids >>= λ found. elim found [
        | none ↦ fail_split SplitError.split_no_group
        | some target ↦ call (env.view.range_of pending.shard_id) >>= λ range.
            call (env.view.scan_versions source range) >>= λ reply. elim reply [
              | ScanReply.scan_refused code ↦ raise_refusal
              | ScanReply.read_rows versions ↦ copy_missing_each source target versions pending.rows
            ]
      ]

  unfoldable pub publish_split : PendingSplit → M W (Option Bool)
  publish_split pending = elim env.view.has_table [
    | false ↦ pure (some true)
    | true ↦ call (env.shard_replica_ids pending.new_shard_id) >>= λ replicas.
        call (env.view.addresses_on pending.new_shard_id env.node_ids) >>= λ addresses.
        call (
          env.split_shard pending.shard_id pending.split_key pending.new_shard_id replicas
            addresses)
        >>= λ result.
            note (
              Event.asked_split pending.shard_id pending.split_key pending.new_shard_id
                result.success)
            >> elim result.success [
              | true ↦ pure (some true)
              | false ↦ fail_split SplitError.split_refused
            ]
  ]

  -- the table has the split
  unfoldable pub settle_split : PendingSplit → M W (Option Bool)
  unfolding act del_key
  settle_split pending = do
    act env.view patience
        (Action.apply_split_locally pending.shard_id pending.split_key pending.new_shard_id)
    (λ r. (tt, record r { pending_splits = del_key pending.shard_id r.pending_splits }))
    act env.view patience (Action.forget_note pending.shard_id)
    replicas ← call (env.shard_replica_ids pending.shard_id)
    act env.view patience (Action.unfreeze pending.shard_id replicas)
    pure (some true)

  unfoldable pub finish_split : PendingSplit → H → M W (Option Bool)
  unfolding copy_what_is_missing publish_split settle_split
  finish_split pending source =
      copy_what_is_missing pending source
      >>= if_through (publish_split pending >>= if_through (settle_split pending))

  unfoldable pub poll_leader : ℕ → ℕ → M W (Option (Option H))
  poll_leader zero shard_id = call (env.leader_client shard_id)
  poll_leader (suc polls) shard_id = call (env.leader_client shard_id) >>= λ client. elim client [
    | none ↦ poll_leader polls shard_id
    | some none ↦ poll_leader polls shard_id
    | some (some h) ↦ pure (some (some h))
  ]

  -- whether the table names the shard; a table that cannot be read counts as one that does
  unfoldable pub poll_table : ℕ → ℕ → M W Bool
  poll_table zero shard_id = call (env.view.serving_nodes shard_id) >>= λ named. elim named [
    | none ↦ pure true
    | some none ↦ pure false
    | some (some nodes) ↦ pure true
  ]
  poll_table (suc polls) shard_id = call (env.view.serving_nodes shard_id) >>= λ named. elim named [
    | none ↦ pure true
    | some none ↦ poll_table polls shard_id
    | some (some nodes) ↦ pure true
  ]

  unfoldable pub hold_split : PendingSplit → M W (Unit {0})
  unfolding set_key
  hold_split pending r =
      (tt, record r { pending_splits = set_key pending.shard_id pending r.pending_splits })

  -- the rows are read out of the source that was found
  unfoldable pub read_and_finish : PendingSplit → H → M W (Option Bool)
  unfolding rows_above hold_split finish_split
  read_and_finish pending source = call (env.view.range_of pending.shard_id) >>= λ range.
      call (env.view.scan_versions source range) >>= λ reply. elim reply [
        | ScanReply.scan_refused code ↦ raise_refusal
        | ScanReply.read_rows found ↦
            let pending' = record pending { rows = rows_above pending.split_key found } in
            hold_split pending' >>= λ u. finish_split pending' source
      ]

  unfoldable pub resume_with : PendingSplit → H → M W (Option Bool)
  unfolding locks_in_range poll_table read_and_finish
  resume_with pending source = call (env.view.range_of pending.shard_id) >>= λ range.
      locks_in_range env.view patience source range >>= λ held. elim held [
        | true ↦ fail_split SplitError.split_locked
        | false ↦ poll_table patience pending.shard_id >>= λ named. elim named [
          | false ↦ fail_split SplitError.split_unnamed
          | true ↦ read_and_finish pending source
        ]
      ]

  unfoldable pub resume_pending : PendingSplit → M W (Option Bool)
  unfolding act poll_leader resume_with
  resume_pending pending = do
    replicas ← call (env.shard_replica_ids pending.shard_id)
    act env.view patience (Action.freeze pending.shard_id replicas)
    act env.view patience (Action.ensure_serving pending.new_shard_id env.node_ids)
    client ← poll_leader patience pending.shard_id
    elim client [
      | none ↦ fail_split SplitError.split_unreadable
      | some none ↦ fail_split SplitError.split_no_leader
      | some (some source) ↦ resume_with pending source
    ]

  unfoldable pub resume_split : ℕ → M W (Option Bool)
  unfolding get_key resume_pending
  resume_split shard_id r = elim (get_key shard_id r.pending_splits) [
    | none ↦ (some false, r)
    | some pending ↦ resume_pending pending r
  ]

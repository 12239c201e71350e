-- ===== src/Transaction/Coordinator/Phases.antt =====
-- oxidedb/transaction/coordinator.py: the loops over shards and keys.
use oxide_db.Base.{ℕ, Bool, true, false, ◌&&◌, none, some, List, [], ◌∷◌, ◌++◌}
use oxide_db.Base.Bytes.{Bytes}
use oxide_db.Transaction.Coordinator.{
  Transaction, Env, M, ◌>>=◌, ◌>>◌, pure, raise, call, Groups, add_to_group, succeeds, prewrite_of,
  rollback_of, caught, is_newer, sorted_keys, all_secondaries,
}

module _ {W C : Type 0} (env : Env W C) where
  unfoldable pub get_shard_id : Bytes → M W ℕ
  get_shard_id key = call (env.shard_for_key key) >>= λ s. elim s [ none ↦ raise | some i ↦ pure i ]

  unfoldable pub group_keys : List (Bytes × Bytes) → Groups → M W Groups
  unfolding get_shard_id add_to_group
  group_keys [] groups = pure groups
  group_keys (row ∷ l) groups = do
    shard_id ← get_shard_id row.0
    group_keys l (add_to_group shard_id row groups)

  -- `for shard_id in shard_groups`: whether each has a leader
  unfoldable pub all_led : Groups → M W Bool
  all_led [] = pure true
  all_led ((shard_id, rows) ∷ l) = call (env.leader_for_shard shard_id) >>= λ h. elim h [
    | none ↦ pure false
    | some c ↦ all_led l
  ]

  -- stops at the first key that is refused
  unfoldable pub prewrite_shard : ℕ → Transaction → List (Bytes × Bytes) → M W Bool
  prewrite_shard shard_id t [] = pure true
  prewrite_shard shard_id t (row ∷ l) = call (env.propose shard_id (prewrite_of t row)) >>= λ r.
      elim (succeeds r) [ true ↦ prewrite_shard shard_id t l | false ↦ pure false ]

  -- every shard is tried, also after one that is refused
  unfoldable pub prewrite_each : Transaction → Groups → M W Bool
  unfolding prewrite_shard
  prewrite_each t [] = pure true
  prewrite_each t ((shard_id, rows) ∷ l) = do
    done ← caught (prewrite_shard shard_id t rows)
    rest ← prewrite_each t l
    pure (done && rest)

  unfoldable pub rollback_shard : ℕ → Transaction → List (Bytes × Bytes) → M W (Unit {0})
  rollback_shard shard_id t [] = pure tt
  rollback_shard shard_id t (row ∷ l) = do
    call (env.propose shard_id (rollback_of t row))
    rollback_shard shard_id t l

  unfoldable pub rollback_all_shards : Transaction → Groups → M W (Unit {0})
  unfolding rollback_shard
  rollback_all_shards t [] = pure tt
  rollback_all_shards t ((shard_id, rows) ∷ l) = do
    rollback_shard shard_id t rows
    rollback_all_shards t l

  unfoldable pub prewrite_all_shards : Transaction → Groups → M W Bool
  unfolding all_led prewrite_each rollback_all_shards
  prewrite_all_shards t groups = all_led groups >>= λ led. elim led [
    | false ↦ pure false
    | true ↦ prewrite_each t groups >>= λ done. elim done [
      | true ↦ pure true
      | false ↦ rollback_all_shards t groups >> pure false
    ]
  ]

  -- whether one of the keys is stale, or has no leader to ask
  unfoldable pub any_stale : ℕ → List Bytes → M W Bool
  unfolding get_shard_id
  any_stale start_ts [] = pure false
  any_stale start_ts (key ∷ l) = do
    shard_id ← get_shard_id key
    client ← call (env.leader_for_shard shard_id)
    elim client [
      | none ↦ pure true
      | some h ↦ call (env.get_write_record h key) >>= λ r. elim (is_newer start_ts r) [
        | true ↦ pure true
        | false ↦ any_stale start_ts l
      ]
    ]

  unfoldable pub validate_read_set : Transaction → M W Bool
  unfolding any_stale sorted_keys
  validate_read_set t = any_stale t.start_ts (sorted_keys t.read_set)

  unfoldable pub commit_secondary_shards : Transaction → Groups → ℕ → M W (Unit {0})
  unfolding all_secondaries
  commit_secondary_shards t groups commit_ts c =
      (some tt, record c { submitted = c.submitted ++ all_secondaries t commit_ts groups })

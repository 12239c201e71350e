-- ===== src/Transaction/Coordinator/Commit.antt =====
-- oxidedb/transaction/coordinator.py: `commit`.
use oxide_db.Base.{ℕ, Bool, true, false, none, some, [], ◌∷◌, if◌then◌else◌}
use oxide_db.Base.Dict.{get_key}
use oxide_db.Transaction.Coordinator.{
  Transaction, TxnStatus, Env, M, ◌>>=◌, ◌>>◌, pure, call, Groups, is_pending, with_txn, set_status,
  succeeds, primary_of, commit_of, Answer,
}
use oxide_db.Transaction.Coordinator.Phases.{
  get_shard_id, group_keys, rollback_all_shards, prewrite_all_shards, validate_read_set,
  commit_secondary_shards,
}

module _ {W C : Type 0} (env : Env W C) (validate_reads : Bool) where
  -- every key is rolled back and the transaction is aborted
  unfoldable pub abort : ℕ → Transaction → Groups → M W Answer
  unfolding rollback_all_shards with_txn
  abort txn_id t groups = do
    rollback_all_shards env t groups
    set_status TxnStatus.aborted txn_id
    pure (false, none)

  -- the primary's commit, on the leader of its shard
  unfoldable pub commit_primary : ℕ → Transaction → Groups → ℕ → ℕ → M W Answer
  unfolding abort with_txn commit_secondary_shards
  commit_primary txn_id t groups commit_ts shard_id =
      call (env.propose shard_id (commit_of t commit_ts (primary_of t))) >>= λ r.
      elim (succeeds r) [
        | false ↦ abort txn_id t groups
        | true ↦ do
          set_status TxnStatus.committed txn_id
          commit_secondary_shards env t groups commit_ts
          pure (true, some commit_ts)
      ]

  -- from the timestamp on
  unfoldable pub commit_at : ℕ → Transaction → Groups → ℕ → M W Answer
  unfolding with_txn get_shard_id abort commit_primary
  commit_at txn_id t groups commit_ts = do
    with_txn txn_id (λ u. record u { commit_ts = some commit_ts })
    shard_id ← get_shard_id env (primary_of t)
    client ← call (env.leader_for_shard shard_id)
    elim client [
      | none ↦ abort txn_id t groups
      | some h ↦ commit_primary txn_id t groups commit_ts shard_id
    ]

  -- what is locked is validated and committed
  unfoldable pub commit_locked : ℕ → Transaction → Groups → M W Answer
  unfolding validate_read_set abort commit_at with_txn
  commit_locked txn_id t groups = do
    set_status TxnStatus.prewritten txn_id
    stale ← (if validate_reads then validate_read_set env t else pure false)
    elim stale [
      | true ↦ abort txn_id t groups
      | false ↦ call env.get_timestamp >>= λ commit_ts. commit_at txn_id t groups commit_ts
    ]

  unfoldable pub commit_keys : ℕ → Transaction → M W Answer
  unfolding group_keys prewrite_all_shards commit_locked with_txn
  commit_keys txn_id t = group_keys env t.keys [] >>= λ groups.
      prewrite_all_shards env t groups >>= λ done. elim done [
        | false ↦ set_status TxnStatus.aborted txn_id >> pure (false, none)
        | true ↦ commit_locked txn_id t groups
      ]

  -- a transaction that wrote nothing is committed at its start
  unfoldable pub commit_pending : ℕ → Transaction → M W Answer
  unfolding commit_keys with_txn
  commit_pending txn_id t = elim t.keys [
    | [] ↦
        with_txn txn_id
          (λ u. record u { status = TxnStatus.committed; commit_ts = some u.start_ts })
        >> pure (true, some t.start_ts)
    | row ∷ l ↦ commit_keys txn_id t
  ]

  unfoldable pub commit : ℕ → M W Answer
  unfolding get_key commit_pending
  commit txn_id c = elim (get_key txn_id c.transactions) [
    | none ↦ pure (false, none) c
    | some t ↦ elim (is_pending t.status) [
      | false ↦ pure (false, none) c
      | true ↦ commit_pending txn_id t c
    ]
  ]

-- ===== src/Transaction/Coordinator/Sessions.antt =====
-- oxidedb/transaction/coordinator.py: `begin`, `add_write`, `prewrite` and `rollback`.
use oxide_db.Base.{ℕ, ◌+◌, Bool, true, false, none, some, [], ◌∷◌, if◌then◌else◌}
use oxide_db.Base.Bytes.{Bytes}
use oxide_db.Base.Dict.{set_key, get_key}
use oxide_db.Transaction.Coordinator.{
  Transaction, TxnStatus, Env, M, bind_result, ◌>>=◌, ◌>>◌, pure, raise, call, is_pending, with_txn,
  set_status, add_key,
}
use oxide_db.Transaction.Coordinator.Phases.{group_keys, rollback_all_shards, prewrite_all_shards}

module _ {W C : Type 0} (env : Env W C) where
  unfoldable pub begin : M W (ℕ × ℕ)
  unfolding set_key
  begin c =
      let txn_id = c.txn_id_counter + 1 in
      bind_result (call env.get_timestamp (record c { txn_id_counter = txn_id })) (λ start_ts c'. (
        some (txn_id, start_ts),
        record c' {
          transactions =
              set_key txn_id
                (record {
                  txn_id = txn_id;
                  start_ts = start_ts;
                  commit_ts = none;
                  keys = [];
                  primary_key = none;
                  status = TxnStatus.pending;
                  read_set = [];
                })
                c'.transactions;
        },
      ))

  unfoldable pub add_write : ℕ → Bytes → Bytes → M W (Unit {0})
  unfolding get_key with_txn add_key
  add_write txn_id key value c = elim (get_key txn_id c.transactions) [
    | none ↦ raise c
    | some t ↦ if is_pending t.status then with_txn txn_id (add_key key value) c else raise c
  ]

  -- the locks without the commit
  unfoldable pub prewrite_keys : ℕ → Transaction → M W Bool
  unfolding group_keys prewrite_all_shards with_txn
  prewrite_keys txn_id t = group_keys env t.keys [] >>= λ groups.
      prewrite_all_shards env t groups >>= λ done. elim done [
        | false ↦ set_status TxnStatus.aborted txn_id >> pure false
        | true ↦ set_status TxnStatus.prewritten txn_id >> pure true
      ]

  unfoldable pub prewrite : ℕ → M W Bool
  unfolding get_key prewrite_keys
  prewrite txn_id c = elim (get_key txn_id c.transactions) [
    | none ↦ pure false c
    | some t ↦ elim (is_pending t.status) [
      | false ↦ pure false c
      | true ↦ elim t.keys [ [] ↦ pure false c | row ∷ l ↦ prewrite_keys txn_id t c ]
    ]
  ]

  unfoldable pub rollback_locked : ℕ → Transaction → M W Bool
  unfolding group_keys rollback_all_shards with_txn
  rollback_locked txn_id t = group_keys env t.keys [] >>= λ groups.
      rollback_all_shards env t groups >> set_status TxnStatus.aborted txn_id >> pure true

  unfoldable pub rollback : ℕ → M W Bool
  unfolding get_key rollback_locked with_txn
  rollback txn_id c = elim (get_key txn_id c.transactions) [
    | none ↦ pure false c
    | some t ↦ elim t.status [
      | TxnStatus.committed ↦ pure false c
      | TxnStatus.pending ↦ (set_status TxnStatus.aborted txn_id >> pure true) c
      | TxnStatus.prewritten ↦ rollback_locked txn_id t c
      | TxnStatus.aborted ↦ rollback_locked txn_id t c
    ]
  ]

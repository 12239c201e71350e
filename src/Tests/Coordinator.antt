-- ===== src/Tests/Coordinator.antt =====
-- A transaction of two keys on two shards, whose leaders take everything.
use oxide_db.Base.{◌≡◌, refl, ◌+◌, ℕ, true, none, some, List, [], ◌∷◌}
use oxide_db.Base.Bytes.{Bytes}
use oxide_db.Base.Dict.{get_key}
use oxide_db.Raft.StateMachine.{Command}
use oxide_db.Transaction.Coordinator.{Env, Coordinator, Transaction, TxnStatus}
use oxide_db.Transaction.Coordinator.Commit.{commit}
use oxide_db.Transaction.Coordinator.Logs.{Entry, recording, log}
use oxide_db.Transaction.Coordinator.Atomic.{IsAtomic, commit-IsAtomic}

abbrev shard_of : Bytes → ℕ
shard_of [] = 0
shard_of (b ∷ l) = b

-- the shard of a key is its first byte, the world is the clock
abbrev two_shards : Env ℕ ℕ
two_shards = record {
  shard_for_key = λ key w. (some (some (shard_of key)), w);
  leader_for_shard = λ s w. (some (some s), w);
  propose = λ s command w.
      (some (some (record { success = true; error_code = none; payload = none; index = none })), w);
  get_write_record = λ h key w. (some none, w);
  get_timestamp = λ w. (some w, w + 1);
}

abbrev written : Transaction
written = record {
  txn_id = 1;
  start_ts = 5;
  commit_ts = none;
  keys = (1 ∷ [], 7 ∷ []) ∷ (2 ∷ [], 8 ∷ []) ∷ [];
  primary_key = some (1 ∷ []);
  status = TxnStatus.pending;
  read_set = (2 ∷ []) ∷ [];
}

abbrev started : Coordinator (List Entry × ℕ)
started = record {
  transactions = (1, written) ∷ [];
  txn_id_counter = 1;
  submitted = [];
  world = ([], 9);
}

-- both keys are prewritten, the primary key is committed, and the other commit is left to the pool
run_two : (commit (recording two_shards) true 1 started).0 ≡ some (true, some 9)
unfolding commit recording
run_two = refl

run_two_log :
    log (commit (recording two_shards) true 1 started).1
    ≡ ((1, Command.commit (1 ∷ []) 5 9), true)
      ∷ ((2, Command.prewrite (2 ∷ []) (8 ∷ []) 5 (1 ∷ [])), true)
      ∷ ((1, Command.prewrite (1 ∷ []) (7 ∷ []) 5 (1 ∷ [])), true)
      ∷ []
unfolding commit recording
run_two_log = refl

commit-IsAtomic_example :
    IsAtomic written
      (log started)
      (commit (recording two_shards) true 1 started).0
      (log (commit (recording two_shards) true 1 started).1)
unfolding get_key
commit-IsAtomic_example =
    commit-IsAtomic two_shards true 1 written (1 ∷ [], 7 ∷ []) ((2 ∷ [], 8 ∷ []) ∷ []) started refl
      refl refl

-- ===== src/Tests/Services.antt =====
-- The router, the clock, the timestamp group, a local transaction and the codes at concrete inputs.
use oxide_db.Base.{ℕ, ◌≡◌, refl, true, Option, none, some, List, [], ◌∷◌, arith, if◌then◌else◌}
use oxide_db.Base.Bytes.{bytes_lt, bytes_eq}
use oxide_db.Shard.Router.{ranges, default_range_map, locate, ShardInfo, ShardRouter}
use oxide_db.Shard.Router.Default.{Owner, locate-default_range_map}
use oxide_db.Storage.Timestamp.{allocate_all, Increasing, allocate_all-Increasing}
use oxide_db.Storage.Keyspace.{ok, raise, value_error}
use oxide_db.Tests.Storage.{user, other, stored}
use oxide_db.Transaction.Local.{
  Transaction, TransactionState, get, set, delete, commit, write_all, delete_all,
}
use oxide_db.Transaction.Local.Buffer.{get-set, commit-final}
use oxide_db.Tso.{Command, apply, apply_allocate, get_timestamp, fetch_batch}
use oxide_db.Tso.Runs.{runs, Apart, runs-Apart, Pair, Fate, call}

locate-default_range_map_example : Owner 3 85 100 (locate (default_range_map 3) (100 ∷ 7 ∷ []))
locate-default_range_map_example =
    locate-default_range_map 3 100 (7 ∷ []) (omega arith) (omega arith)

-- a key that begins with 0xff has no range and goes to shard 0
locate_past : locate (default_range_map 3) (0xff ∷ 1 ∷ []) ≡ 0
unfolding locate default_range_map ranges bytes_lt
locate_past = refl

-- with more shards than bytes every key before 0xff is the last shard's
locate_many : locate (default_range_map 300) (97 ∷ []) ≡ 299
unfolding locate default_range_map ranges bytes_lt
locate_many = refl

abbrev shard_one : ShardInfo
shard_one = record { shard_id = 1; nodes = 4 ∷ 5 ∷ []; leader_id = some 4 }

abbrev router : ShardRouter ℕ
router = record {
  range_map = (0, ([], 100 ∷ [])) ∷ (1, (100 ∷ [], 0xff ∷ [])) ∷ [];
  shard_map = (1, shard_one) ∷ [];
  node_address_map = [];
}

allocate_all-Increasing_example : Increasing 10 (allocate_all (12 ∷ 11 ∷ 30 ∷ []) 10)
allocate_all-Increasing_example = allocate_all-Increasing (12 ∷ 11 ∷ 30 ∷ []) 10

abbrev commands : List (Option Command)
commands = some (Command.allocate (some 3)) ∷ none ∷ some (Command.allocate none) ∷ []

runs-Apart_example : Apart 7 (runs commands 7)
runs-Apart_example = runs-Apart commands 7

abbrev start : Pair
start = record { current = 0; client = record { batch_size = 2; local_start = 0; local_end = 0 } }

-- the proposal's run is handed out from its start
first_call : (call Fate.answered commands start).0 ≡ some 1004
unfolding apply apply_allocate get_timestamp fetch_batch
first_call = refl

abbrev open_transaction : Transaction
open_transaction = record {
  txn_id = 1;
  start_timestamp = 8;
  commit_timestamp = none;
  state = TransactionState.pending;
  writes = (user, 1 ∷ []) ∷ [];
  deletes = other ∷ [];
}

get-set_example :
    (t : Transaction) × ((set other (65 ∷ []) open_transaction ≡ ok t)
      × (get other stored t ≡ (
          if bytes_eq other other then ok (some (65 ∷ [])) else get other stored open_transaction)))
get-set_example = get-set other other (65 ∷ []) stored open_transaction refl

abbrev empty_transaction : Transaction
empty_transaction = record open_transaction { writes = []; deletes = [] }

abbrev ended_transaction : Transaction
ended_transaction = record empty_transaction {
  commit_timestamp = some 9;
  state = TransactionState.committed;
}

commit-final_example :
    (get user stored ended_transaction ≡ raise value_error)
    × ((set user (65 ∷ []) ended_transaction ≡ raise value_error)
        × ((delete user ended_transaction ≡ raise value_error)
            × (commit 10 stored ended_transaction ≡ raise value_error)))
unfolding commit write_all delete_all
commit-final_example =
    commit-final 9 10 user (65 ∷ []) stored stored empty_transaction
      {o = record { answer = true; transaction = ended_transaction; storage = stored }} refl

-- ===== src/Transaction/Coordinator.antt =====
-- oxidedb/transaction/coordinator.py: `TransactionCoordinator`. What it calls, the leaders of the
-- shards, their proposals and the timestamp service, is an `Env` over a world `W`, where every call may
-- raise. The pool runs the prewrites of the shards, here one shard after the other, and the commits
-- of the secondary keys, which are left in `submitted` for whenever it does.
pub mod Phases
pub mod Commit
pub mod Sessions
pub mod Logs
pub mod Covers
pub mod Outcomes
pub mod Atomic
use oxide_db.Base.{
  ℕ, ◌+◌, Bool, true, false, not, ◌&&◌, ◌||◌, Option, none, some, List, [], ◌∷◌, ◌++◌, ltb, ◌==◌,
  if◌then◌else◌,
}
use oxide_db.Base.Bytes.{Bytes, bytes_eq, bytes_lt}
use oxide_db.Base.Dict.{set_key, get_key}
use oxide_db.Raft.StateMachine.{ApplyResult, Command}
use oxide_db.Storage.Mvcc.Types.{WriteRecord}

pub data TxnStatus : Type 0 where
  pending prewritten committed aborted : TxnStatus

pub record Transaction : Type 0 where
  pub txn_id : ℕ
  pub start_ts : ℕ
  pub commit_ts : Option ℕ
  pub keys : List (Bytes × Bytes)
  pub primary_key : Option Bytes
  pub status : TxnStatus
  pub read_set : List Bytes

-- `none` is a call that raises
pub record Env (W C : Type 0) : Type 0 where
  pub shard_for_key : Bytes → W → Option (Option ℕ) × W
  pub leader_for_shard : ℕ → W → Option (Option C) × W
  pub propose : ℕ → Command → W → Option (Option ApplyResult) × W
  pub get_write_record : C → Bytes → W → Option (Option WriteRecord) × W
  pub get_timestamp : W → Option ℕ × W

-- a commit that the pool has still to propose
abbrev pub Task : Type 0
Task = ℕ × Command

pub record Coordinator (W : Type 0) : Type 0 where
  pub transactions : List (ℕ × Transaction)
  pub txn_id_counter : ℕ
  pub submitted : List Task
  pub world : W

-- the code, on the state of the coordinator; `none` is an exception
abbrev pub M : Type 0 → Type 0 → Type 0
M W A = Coordinator W → Option A × Coordinator W

abbrev pub bind_result :
    {W A B : Type 0} → Option A × Coordinator W → (A → M W B) → Option B × Coordinator W
bind_result (none, c) f = (none, c)
bind_result (some a, c) f = f a c

infixl 5 ◌>>=◌ ◌>>◌
abbrev pub ◌>>=◌ : {W A B : Type 0} → M W A → (A → M W B) → M W B
◌>>=◌ m f c = bind_result (m c) f

abbrev pub ◌>>◌ : {W A B : Type 0} → M W A → M W B → M W B
m >> n = m >>= λ _. n

abbrev pub pure : {W A : Type 0} → A → M W A
pure a c = (some a, c)

abbrev pub raise : {W A : Type 0} → M W A
raise c = (none, c)

-- a call of the environment
abbrev pub call : {W A : Type 0} → (W → Option A × W) → M W A
call f c = let (a, w) = f c.world in (a, record c { world = w })

-- the groups of keys by shard, in the order of the dictionary
abbrev pub Groups : Type 0
Groups = List (ℕ × List (Bytes × Bytes))

abbrev group_or_empty : Option (List (Bytes × Bytes)) → List (Bytes × Bytes)
group_or_empty none = []
group_or_empty (some l) = l

unfoldable pub add_to_group : ℕ → Bytes × Bytes → Groups → Groups
unfolding set_key get_key
add_to_group shard_id row groups =
    set_key shard_id (group_or_empty (get_key shard_id groups) ++ row ∷ []) groups

abbrev pub is_pending : TxnStatus → Bool
is_pending TxnStatus.pending = true
is_pending _ = false

abbrev pub is_committed : TxnStatus → Bool
is_committed TxnStatus.committed = true
is_committed _ = false

-- a field of the transaction object is set
unfoldable pub with_txn : {W : Type 0} → ℕ → (Transaction → Transaction) → M W (Unit {0})
unfolding get_key set_key
with_txn txn_id f c = elim (get_key txn_id c.transactions) [
  | none ↦ (some tt, c)
  | some t ↦ (some tt, record c { transactions = set_key txn_id (f t) c.transactions })
]

abbrev pub set_status : {W : Type 0} → TxnStatus → ℕ → M W (Unit {0})
set_status status txn_id = with_txn txn_id (λ t. record t { status = status })

-- `result is not None and result.success`
abbrev pub succeeds : Option ApplyResult → Bool
succeeds none = false
succeeds (some r) = r.success

abbrev pub primary_of : Transaction → Bytes
primary_of t = elim t.primary_key [ none ↦ [] | some k ↦ k ]

unfoldable pub add_key : Bytes → Bytes → Transaction → Transaction
add_key key value t = record t {
  keys = t.keys ++ (key, value) ∷ [];
  primary_key = elim t.primary_key [ none ↦ some key | some k ↦ some k ];
}

-- the read set in order, without repetitions
unfoldable pub insert_key : Bytes → List Bytes → List Bytes
unfolding bytes_lt bytes_eq
insert_key key [] = key ∷ []
insert_key key (k ∷ l) =
    let rest = insert_key key l in
    if bytes_lt key k then key ∷ k ∷ l else if bytes_eq key k then k ∷ l else k ∷ rest

abbrev pub prewrite_of : Transaction → Bytes × Bytes → Command
prewrite_of t row = Command.prewrite row.0 row.1 t.start_ts (primary_of t)

abbrev pub rollback_of : Transaction → Bytes × Bytes → Command
rollback_of t row = Command.rollback row.0 t.start_ts

-- an exception of a worker counts as a refusal
abbrev pub or_false : Option Bool → Bool
or_false none = false
or_false (some b) = b

abbrev pub caught : {W : Type 0} → M W Bool → M W Bool
caught m c = let (r, c') = m c in (some (or_false r), c')

-- `write_record["commit_ts"] > txn.start_ts`
abbrev pub is_newer : ℕ → Option WriteRecord → Bool
is_newer start_ts none = false
is_newer start_ts (some r) = ltb start_ts r.commit_ts

unfoldable pub sorted_keys : List Bytes → List Bytes
unfolding insert_key
sorted_keys [] = []
sorted_keys (key ∷ l) = insert_key key (sorted_keys l)

abbrev pub commit_of : Transaction → ℕ → Bytes → Command
commit_of t commit_ts key = Command.commit key t.start_ts commit_ts

-- the commits of the other keys, as they are submitted
unfoldable pub secondaries : Transaction → ℕ → ℕ → List (Bytes × Bytes) → List Task
unfolding bytes_eq
secondaries t commit_ts shard_id [] = []
secondaries t commit_ts shard_id (row ∷ l) =
    let rest = secondaries t commit_ts shard_id l in
    if bytes_eq row.0 (primary_of t) then rest else (shard_id, commit_of t commit_ts row.0) ∷ rest

unfoldable pub all_secondaries : Transaction → ℕ → Groups → List Task
unfolding secondaries
all_secondaries t commit_ts [] = []
all_secondaries t commit_ts ((shard_id, rows) ∷ l) =
    secondaries t commit_ts shard_id rows ++ all_secondaries t commit_ts l

-- what `commit` returns
abbrev pub Answer : Type 0
Answer = Bool × Option ℕ

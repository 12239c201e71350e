-- ===== src/Transaction/Local.antt =====
-- oxidedb/transaction/local.py: `Transaction`, a buffer of writes over one `MVCCStorage`, and
-- `TransactionManager`. The timestamps of the local allocator are arguments.
pub mod Buffer
use oxide_db.Base.{
  ℕ, ◌+◌, Bool, true, false, not, ◌||◌, Option, none, some, List, [], ◌∷◌, if◌then◌else◌, filter,
}
use oxide_db.Base.Bytes.{Bytes, bytes_eq}
use oxide_db.Storage.Engine
use oxide_db.Storage.Engine.{Engine}
use oxide_db.Storage.Keyspace.{Error, Result, ok, raise, value_error}
use oxide_db.Storage.Mvcc

pub data TransactionState : Type 0 where
  pending committed aborted : TransactionState

pub record Transaction : Type 0 where
  pub txn_id : ℕ
  pub start_timestamp : ℕ
  pub commit_timestamp : Option ℕ
  pub state : TransactionState
  pub writes : List (Bytes × Bytes)
  pub deletes : List Bytes

-- `begin` of `TransactionManager`, by the counter before it
unfoldable pub begin : ℕ → ℕ → Transaction × ℕ
begin now counter = (
  record {
    txn_id = counter + 1;
    start_timestamp = now;
    commit_timestamp = none;
    state = TransactionState.pending;
    writes = [];
    deletes = [];
  },
  counter + 1,
)

-- `if self._state != TransactionState.PENDING: raise ValueError(...)`
abbrev pub when_pending : {A : Type 0} → TransactionState → Result A → Result A
when_pending TransactionState.pending r = r
when_pending TransactionState.committed r = raise value_error
when_pending TransactionState.aborted r = raise value_error

-- `key in self._deletes`
unfoldable pub elem : Bytes → List Bytes → Bool
elem key [] = false
elem key (j ∷ l) = bytes_eq key j || elem key l

-- `self._deletes.add(key)`
abbrev pub add : Bytes → List Bytes → List Bytes
add key l = if elem key l then l else key ∷ l

-- `self._deletes.discard(key)`
abbrev pub discard : Bytes → List Bytes → List Bytes
discard key l = filter (λ j. not (bytes_eq j key)) l

-- `self._writes.pop(key, None)`
abbrev pub pop : Bytes → List (Bytes × Bytes) → List (Bytes × Bytes)
pop key l = filter (λ row. not (bytes_eq row.0 key)) l

abbrev pub buffered : Option Bytes → Bool → Result (Option Bytes) → Result (Option Bytes)
buffered (some value) gone stored = ok (some value)
buffered none gone stored = if gone then ok none else stored

unfoldable pub get : Bytes → Engine → Transaction → Result (Option Bytes)
unfolding elem
get key e t =
    when_pending t.state (
      buffered (Engine.lookup key t.writes) (elem key t.deletes) (Mvcc.get key t.start_timestamp e))

unfoldable pub set : Bytes → Bytes → Transaction → Result Transaction
set key value t =
    when_pending t.state
      (ok (record t { writes = Engine.insert key value t.writes; deletes = discard key t.deletes }))

unfoldable pub delete : Bytes → Transaction → Result Transaction
unfolding elem
delete key t =
    when_pending t.state (ok (record t { deletes = add key t.deletes; writes = pop key t.writes }))

-- what a loop of `commit` leaves of the storage, and whether it went through
abbrev pub Loop : Type 0
Loop = Engine × Bool

abbrev pub stored : Engine → Result Engine → Loop
stored e (ok e') = (e', true)
stored e (raise x) = (e, false)

abbrev pub next : Loop → (Engine → Loop) → Loop
next (e, true) rest = rest e
next (e, false) rest = (e, false)

-- `for key, value in self._writes.items(): self._storage.set(...)`
unfoldable pub write_all : ℕ → List (Bytes × Bytes) → Engine → Loop
write_all ts [] e = (e, true)
write_all ts ((key, value) ∷ l) e =
    next (stored e (Mvcc.set key value ts e)) (λ e'. write_all ts l e')

-- `for key in self._deletes: self._storage.delete(...)`
unfoldable pub delete_all : ℕ → List Bytes → Engine → Loop
delete_all ts [] e = (e, true)
delete_all ts (key ∷ l) e = next (stored e (Mvcc.delete key ts e)) (λ e'. delete_all ts l e')

abbrev pub ended : Bool → TransactionState
ended true = TransactionState.committed
ended false = TransactionState.aborted

-- what `commit` comes back with: its answer, the transaction and the storage
pub record Outcome : Type 0 where
  pub answer : Bool
  pub transaction : Transaction
  pub storage : Engine

-- `commit` at the timestamp `now`
unfoldable pub commit : ℕ → Engine → Transaction → Result Outcome
unfolding write_all delete_all
commit now e t =
    let done = next (write_all now t.writes e) (λ e'. delete_all now t.deletes e') in
    when_pending t.state (
      ok (record {
        answer = done.1;
        transaction = record t { commit_timestamp = some now; state = ended done.1 };
        storage = done.0;
      }))

unfoldable pub rollback : Transaction → Transaction
rollback t = record t { state = TransactionState.aborted; writes = []; deletes = [] }

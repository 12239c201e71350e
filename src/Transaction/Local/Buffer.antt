-- ===== src/Transaction/Local/Buffer.antt =====
-- oxidedb/transaction/local.py: a transaction reads its own writes, and a finished one answers
-- nothing.
use oxide_db.Base.{
  ℕ, ◌≡◌, refl, ap, sym, ◌∙◌, Bool, true, false, not, ◌&&◌, ◌||◌, Option, none, some, List, [], ◌∷◌,
  arith, if◌then◌else◌, Bool-cases, inl, inr,
}
use oxide_db.Base.Bytes.{Bytes, bytes_eq, bytes_eq_iff, eq_of_bytes_eq}
use oxide_db.Storage.Engine
use oxide_db.Storage.Engine.{Engine}
use oxide_db.Storage.Engine.Laws.{lookup-insert, lookup-filter}
use oxide_db.Storage.Keyspace.{Result, ok, raise, value_error}
use oxide_db.Storage.Mvcc
use oxide_db.Transaction.Local.{
  TransactionState, Transaction, elem, get, set, delete, commit, when_pending, buffered, discard,
  add, pop, Outcome, next, write_all, delete_all, ended,
}

elem-discard :
    (j key : Bytes) (l : List Bytes) → elem j (discard key l) ≡ elem j l && not (bytes_eq j key)
unfolding elem
elem-discard j key [] = refl
elem-discard j key (i ∷ l) =
    let rest = elem-discard j key l in
    ground (arith, rest, bytes_eq_iff i key, bytes_eq_iff j i, bytes_eq_iff j key)

elem-add : (j key : Bytes) (l : List Bytes) → elem j (add key l) ≡ bytes_eq j key || elem j l
unfolding elem
elem-add j key l = elim (Bool-cases (elem key l)) [
  | inl there ↦ rw there (elim (Bool-cases (bytes_eq j key)) [
    | inl same ↦ let equal : j ≡ key = eq_of_bytes_eq j key same in rw same (rw equal there)
    | inr different ↦ rw different refl
  ])
  | inr absent ↦ rw absent refl
]

lookup-pop :
    (j key : Bytes) (l : List (Bytes × Bytes))
    → Engine.lookup j (pop key l) ≡ (if bytes_eq j key then none else Engine.lookup j l)
lookup-pop j key l = lookup-filter (λ i. not (bytes_eq i key)) j l ∙ ground arith

buffered-set :
    (b : Bool) (value : Bytes) (w : Option Bytes) (d : Bool) (s : Result (Option Bytes))
    → buffered (if b then some value else w) (d && not b) s
      ≡ (if b then ok (some value) else buffered w d s)
buffered-set true value w d s = refl
buffered-set false value (some v) d s = refl
buffered-set false value none true s = refl
buffered-set false value none false s = refl

buffered-delete :
    (b : Bool) (w : Option Bytes) (d : Bool) (s : Result (Option Bytes))
    → buffered (if b then none else w) (b || d) s ≡ (if b then ok none else buffered w d s)
buffered-delete true w d s = refl
buffered-delete false w d s = refl

-- A read after a write in the same transaction has the value that was written, and a read of any
-- other key is as it was.
pub get-set :
    (j key value : Bytes) (e : Engine) (t : Transaction)
    → t.state ≡ TransactionState.pending
    → (t' : Transaction) × ((set key value t ≡ ok t')
        × (get j e t' ≡ (if bytes_eq j key then ok (some value) else get j e t)))
unfolding get set
get-set j key value e t h = (
  record t { writes = Engine.insert key value t.writes; deletes = discard key t.deletes },
  (
    rw h refl,
    rw (h, lookup-insert key j value t.writes, elem-discard j key t.deletes)
        (buffered-set (bytes_eq j key) value (Engine.lookup j t.writes) (elem j t.deletes)
          (Mvcc.get j t.start_timestamp e)),
  ),
)

-- A read after a delete in the same transaction finds nothing, and a read of any other key is as
-- it was.
get-delete :
    (j key : Bytes) (e : Engine) (t : Transaction)
    → t.state ≡ TransactionState.pending
    → (t' : Transaction) × ((delete key t ≡ ok t')
        × (get j e t' ≡ (if bytes_eq j key then ok none else get j e t)))
unfolding get delete
get-delete j key e t h = (
  record t { deletes = add key t.deletes; writes = pop key t.writes },
  (
    rw h refl,
    rw (h, lookup-pop j key t.writes, elem-add j key t.deletes)
        (buffered-delete (bytes_eq j key) (Engine.lookup j t.writes) (elem j t.deletes)
          (Mvcc.get j t.start_timestamp e)),
  ),
)

when_pending-ok :
    {A : Type 0} (state : TransactionState) (r o : A) → when_pending state (ok r) ≡ ok o → r ≡ o
when_pending-ok TransactionState.pending r o h = ground (arith, h)
when_pending-ok TransactionState.committed r o h = absurd (ground (arith, h))
when_pending-ok TransactionState.aborted r o h = absurd (ground (arith, h))

-- a transaction that `commit` has ended is not pending
when_pending-ended :
    {A : Type 0} (went_through : Bool) (r : Result A)
    → when_pending (ended went_through) r ≡ raise value_error
when_pending-ended true r = refl
when_pending-ended false r = refl

-- After a commit, whether it went through or not, every further read, write and commit is refused.
pub commit-final :
    (now now' : ℕ) (j value : Bytes) (e e' : Engine) (t : Transaction) {o : Outcome}
    → commit now e t ≡ ok o
    → (get j e' o.transaction ≡ raise value_error)
      × ((set j value o.transaction ≡ raise value_error)
          × ((delete j o.transaction ≡ raise value_error)
              × (commit now' e' o.transaction ≡ raise value_error)))
unfolding get set delete commit
commit-final now now' j value e e' t {o} h =
    let done = next (write_all now t.writes e) (λ e'. delete_all now t.deletes e') in
    let state : ended done.1 ≡ o.transaction.state =
      ap (λ (x : Outcome). x.transaction.state) (when_pending-ok t.state _ o h) in
    rw (sym state) (
      when_pending-ended done.1 _,
      (when_pending-ended done.1 _, (when_pending-ended done.1 _, when_pending-ended done.1 _)),
    )

-- ===== src/Transaction/Coordinator/Logs.antt =====
-- oxidedb/transaction/coordinator.py: what a coordinator proposes, as a log of its proposals, the
-- last one first.
use oxide_db.Base.{
  Bool, false, ℕ, ◌≡◌, refl, ◌∙◌, ap, true, Option, none, some, List, [], ◌∷◌, arith, inl, inr,
  Bool-cases, Option-cases, is_some,
}
use oxide_db.Base.Bytes.{Bytes}
use oxide_db.Base.Dict.{get_key}
use oxide_db.Raft.StateMachine.{ApplyResult}
use oxide_db.Transaction.Coordinator.{
  Transaction, Env, Coordinator, Task, M, bind_result, call, Groups, with_txn, succeeds,
  prewrite_of, rollback_of, is_newer, add_to_group, sorted_keys,
}
use oxide_db.Transaction.Coordinator.Phases.{
  get_shard_id, group_keys, all_led, prewrite_shard, rollback_shard, rollback_all_shards, any_stale,
  validate_read_set,
}

-- whether the answer to a proposal is a result that says so; `none` is a call that raised
abbrev pub took : Option (Option ApplyResult) → Bool
took none = false
took (some none) = false
took (some (some r)) = r.success

pub took-succeeds :
    (o : Option (Option ApplyResult)) (v : Option ApplyResult)
    → o ≡ some v
    → succeeds v ≡ true
    → took o ≡ true
took-succeeds none v e h = absurd (ground (arith, e))
took-succeeds (some none) none e h = absurd (ground (arith, h))
took-succeeds (some none) (some r) e h = absurd (ground (arith, e))
took-succeeds (some (some r)) none e h = absurd (ground (arith, h))
took-succeeds (some (some r)) (some q) e h = let same : r ≡ q = ground (arith, e) in rw same h

-- a proposal, and whether it was answered with a success
abbrev pub Entry : Type 0
Entry = Task × Bool

-- any environment, with a record of the proposals made and of how they were answered
unfoldable pub recording : {W C : Type 0} → Env W C → Env (List Entry × W) C
recording env = record {
  shard_for_key = λ key w. let (r, w') = env.shard_for_key key w.1 in (r, (w.0, w'));
  leader_for_shard = λ s w. let (r, w') = env.leader_for_shard s w.1 in (r, (w.0, w'));
  propose = λ s command w.
      let (r, w') = env.propose s command w.1 in (r, (((s, command), took r) ∷ w.0, w'));
  get_write_record = λ h key w. let (r, w') = env.get_write_record h key w.1 in (r, (w.0, w'));
  get_timestamp = λ w. let (r, w') = env.get_timestamp w.1 in (r, (w.0, w'));
}

abbrev pub log : {W : Type 0} → Coordinator (List Entry × W) → List Entry
log c = c.world.0

-- the proposals without their answers
abbrev pub tasks : List Entry → List Task
tasks [] = []
tasks (e ∷ l) = e.0 ∷ tasks l

-- the proposals for the rows of a shard, and of all shards, before those of a log
unfoldable pub push_rows :
    {X : Type 0} → (ℕ → Bytes × Bytes → X) → ℕ → List (Bytes × Bytes) → List X → List X
push_rows f s [] l = l
push_rows f s (row ∷ rows) l = push_rows f s rows (f s row ∷ l)

unfoldable pub push_all : {X : Type 0} → (ℕ → Bytes × Bytes → X) → Groups → List X → List X
unfolding push_rows
push_all f [] l = l
push_all f ((s, rows) ∷ groups) l = push_all f groups (push_rows f s rows l)

-- the prewrites of rows, each answered with a success
abbrev pub prewritten : Transaction → ℕ → Bytes × Bytes → Entry
prewritten t s row = ((s, prewrite_of t row), true)

-- the rollbacks of rows, however they were answered
abbrev pub rolled_back : Transaction → ℕ → Bytes × Bytes → Task
rolled_back t s row = (s, rollback_of t row)

abbrev pub prewrites : Transaction → Groups → List Entry → List Entry
prewrites t = push_all (prewritten t)

abbrev pub rollbacks : Transaction → Groups → List Task → List Task
rollbacks t = push_all (rolled_back t)

abbrev prewrite_rows : ℕ → Transaction → List (Bytes × Bytes) → List Entry → List Entry
prewrite_rows s t = push_rows (prewritten t) s

abbrev rollback_rows : ℕ → Transaction → List (Bytes × Bytes) → List Task → List Task
rollback_rows s t = push_rows (rolled_back t) s

-- a chain that did not raise
pub record Bound {W A B : Type 0} (x : Option A × Coordinator W) (f : A → M W B) : Type 0 where
  pub value : A
  pub first : x.0 ≡ some value
  pub whole : bind_result x f ≡ f value x.1

pub bound :
    {W A B : Type 0} (x : Option A × Coordinator W) (f : A → M W B)
    → is_some (bind_result x f).0 ≡ true
    → Bound x f
bound (none, c) f h = absurd (ground (arith, h))
bound (some a, c) f h = record { value = a; first = refl; whole = refl }

pub bound_some :
    {W A B : Type 0} (x : Option A × Coordinator W) (f : A → M W B) (v : B)
    → (bind_result x f).0 ≡ some v
    → Bound x f
bound_some x f v h = bound x f (rw h refl)

module _ {W C : Type 0} (env : Env W C) where
  rollback_shard-log :
      (s : ℕ) (t : Transaction) (rows : List (Bytes × Bytes)) (c : Coordinator (List Entry × W))
      → is_some (rollback_shard (recording env) s t rows c).0 ≡ true
      → tasks (log (rollback_shard (recording env) s t rows c).1)
        ≡ rollback_rows s t rows (tasks (log c))
  unfolding rollback_shard push_rows recording
  rollback_shard-log s t [] c h = refl
  rollback_shard-log s t (row ∷ rows) c h =
      let x = call ((recording env).propose s (rollback_of t row)) c in
      let b = bound x (λ r. rollback_shard (recording env) s t rows) h in
      rw b.whole (rollback_shard-log s t rows x.1 (rw b.whole at h))

  pub rollback_all_shards-log :
      (t : Transaction) (groups : Groups) (c : Coordinator (List Entry × W))
      → is_some (rollback_all_shards (recording env) t groups c).0 ≡ true
      → tasks (log (rollback_all_shards (recording env) t groups c).1)
        ≡ rollbacks t groups (tasks (log c))
  unfolding rollback_all_shards push_all
  rollback_all_shards-log t [] c h = refl
  rollback_all_shards-log t ((s, rows) ∷ groups) c h =
      let x = rollback_shard (recording env) s t rows c in
      let b = bound x (λ r. rollback_all_shards (recording env) t groups) h in
      let first = rollback_shard-log s t rows c (rw b.first refl) in
      rw b.whole
        (rollback_all_shards-log t groups x.1 (rw b.whole at h) ∙ ap (rollbacks t groups) first)

  pub get_shard_id-log :
      (key : Bytes) (c : Coordinator (List Entry × W))
      → log (get_shard_id (recording env) key c).1 ≡ log c
  unfolding get_shard_id recording
  get_shard_id-log key c = elim (Option-cases (env.shard_for_key key c.world.1).0) [
    | inl e ↦ rw (e, get_shard_id) refl
    | inr (o, e) ↦ elim (Option-cases o) [
      | inl n ↦ rw (e, get_shard_id) (rw n refl)
      | inr (i, n) ↦ rw (e, get_shard_id) (rw n refl)
    ]
  ]

  -- a chain of calls that propose nothing
  pub bind-log :
      {A B : Type 0} (x : Option A × Coordinator (List Entry × W)) (f : A → M (List Entry × W) B)
      (l : List Entry)
      → log x.1 ≡ l
      → ((a : A) → log (f a x.1).1 ≡ log x.1)
      → log (bind_result x f).1 ≡ l
  bind-log (none, c) f l h g = h
  bind-log (some a, c) f l h g = g a ∙ h

  pub group_keys-log :
      (rows : List (Bytes × Bytes)) (groups : Groups) (c : Coordinator (List Entry × W))
      → log (group_keys (recording env) rows groups c).1 ≡ log c
  unfolding group_keys
  group_keys-log [] groups c = refl
  group_keys-log (row ∷ rows) groups c =
      let x = get_shard_id (recording env) row.0 c in
      bind-log x _ (log c) (get_shard_id-log row.0 c)
        (λ i. group_keys-log rows (add_to_group i row groups) x.1)

  pub all_led-log :
      (groups : Groups) (c : Coordinator (List Entry × W))
      → log (all_led (recording env) groups c).1 ≡ log c
  unfolding all_led recording
  all_led-log [] c = refl
  all_led-log ((s, rows) ∷ groups) c =
      let x = call ((recording env).leader_for_shard s) c in
      bind-log x _ (log c) refl (λ h. elim (Option-cases h) [
        | inl e ↦ rw e refl
        | inr (k, e) ↦ rw e (all_led-log groups x.1)
      ])

  any_stale-log :
      (start_ts : ℕ) (keys : List Bytes) (c : Coordinator (List Entry × W))
      → log (any_stale (recording env) start_ts keys c).1 ≡ log c
  unfolding any_stale recording
  any_stale-log start_ts [] c = refl
  any_stale-log start_ts (key ∷ keys) c =
      let x = get_shard_id (recording env) key c in
      bind-log x _ (log c) (get_shard_id-log key c) (λ i.
        let y = call ((recording env).leader_for_shard i) x.1 in
        bind-log y _ (log x.1) refl (λ client. elim (Option-cases client) [
          | inl n ↦ rw n refl
          | inr (h, n) ↦ rw n (
              let z = call ((recording env).get_write_record h key) y.1 in
              bind-log z _ (log y.1) refl (λ r. elim (Bool-cases (is_newer start_ts r)) [
                | inl e ↦ rw e refl
                | inr e ↦ rw e (any_stale-log start_ts keys z.1)
              ]))
        ]))

  pub validate_read_set-log :
      (t : Transaction) (c : Coordinator (List Entry × W))
      → log (validate_read_set (recording env) t c).1 ≡ log c
  unfolding validate_read_set
  validate_read_set-log t c = any_stale-log t.start_ts (sorted_keys t.read_set) c

  pub with_txn-log :
      (txn_id : ℕ) (f : Transaction → Transaction) (c : Coordinator (List Entry × W))
      → log (with_txn txn_id f c).1 ≡ log c
  unfolding with_txn
  with_txn-log txn_id f c = elim (Option-cases (get_key txn_id c.transactions)) [
    | inl e ↦ rw (e, with_txn) refl
    | inr (t, e) ↦ rw (e, with_txn) refl
  ]

  pub prewrite_shard-log :
      (s : ℕ) (t : Transaction) (rows : List (Bytes × Bytes)) (c : Coordinator (List Entry × W))
      → (prewrite_shard (recording env) s t rows c).0 ≡ some true
      → log (prewrite_shard (recording env) s t rows c).1 ≡ prewrite_rows s t rows (log c)
  unfolding prewrite_shard push_rows recording
  prewrite_shard-log s t [] c h = refl
  prewrite_shard-log s t (row ∷ rows) c h =
      let x = call ((recording env).propose s (prewrite_of t row)) c in
      let b = bound_some x _ true h in
      elim (Bool-cases (succeeds b.value)) [
        | inl e ↦
            let whole = rw e at b.whole in
            let answered = took-succeeds x.0 b.value b.first e in
            rw whole (
              prewrite_shard-log s t rows x.1 (rw whole at h)
              ∙ ap (λ ok. prewrite_rows s t rows (((s, prewrite_of t row), ok) ∷ log c)) answered)
        | inr e ↦ let whole = rw e at b.whole in absurd (ground (arith, rw whole at h))
      ]

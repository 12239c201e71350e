-- ===== src/Transaction/Coordinator/Covers.antt =====
-- oxidedb/transaction/coordinator.py: every key of a transaction is in one of its groups.
use oxide_db.Base.{ℕ, ◌≡◌, refl, some, List, [], ◌∷◌, ◌++◌, inl, inr, ◌⊎◌, Bool-cases}
use oxide_db.Base.Bytes.{Bytes}
use oxide_db.Base.Dict.{get_key}
use oxide_db.Transaction.Coordinator.{
  Transaction, TxnStatus, Env, Coordinator, Task, M, bind_result, ◌>>=◌, ◌>>◌, pure, raise, call,
  Groups, with_txn, set_status, succeeds, primary_of, prewrite_of, rollback_of, caught, is_newer,
  commit_of, add_to_group, sorted_keys,
}
use oxide_db.Transaction.Coordinator.Phases.{get_shard_id, group_keys}
use oxide_db.Transaction.Coordinator.{Answer, or_false}
use oxide_db.Transaction.Coordinator.Logs.{bound_some}
use oxide_db.Base.{All, ◌==◌}
use oxide_db.Base.Dict.{set_key}
use oxide_db.Transaction.Coordinator
use oxide_db.Transaction.Coordinator.{add_to_group}

-- the row is among the rows
abbrev pub InRows : Bytes × Bytes → List (Bytes × Bytes) → Type 0
InRows row [] = ⊥
InRows row (r ∷ rows) = (r ≡ row) ⊎ InRows row rows

abbrev pub InGroups : Bytes × Bytes → Groups → Type 0
InGroups row [] = ⊥
InGroups row ((s, rows) ∷ groups) = InRows row rows ⊎ InGroups row groups

-- every row has a group
abbrev pub Covers : Groups → List (Bytes × Bytes) → Type 0
Covers groups = All (λ row. InGroups row groups)

InRows-snoc :
    (r row : Bytes × Bytes) (rows : List (Bytes × Bytes))
    → InRows r rows
    → InRows r (rows ++ row ∷ [])
InRows-snoc r row [] h = absurd h
InRows-snoc r row (q ∷ rows) (inl e) = inl e
InRows-snoc r row (q ∷ rows) (inr h) = inr (InRows-snoc r row rows h)

InRows-last : (row : Bytes × Bytes) (rows : List (Bytes × Bytes)) → InRows row (rows ++ row ∷ [])
InRows-last row [] = inl refl
InRows-last row (q ∷ rows) = inr (InRows-last row rows)

InGroups-set_key :
    (row : Bytes × Bytes) (s : ℕ) (rows : List (Bytes × Bytes)) (groups : Groups)
    → InRows row rows
    → InGroups row (set_key s rows groups)
unfolding set_key
InGroups-set_key row s rows [] h = inl h
InGroups-set_key row s rows ((k, v) ∷ groups) h = elim (Bool-cases (s == k)) [
  | inl e ↦ rw e (inl h)
  | inr e ↦ rw e (inr (InGroups-set_key row s rows groups h))
]

InGroups-set_key_keep :
    (r : Bytes × Bytes) (s : ℕ) (new : List (Bytes × Bytes)) (groups : Groups)
    → ((v : List (Bytes × Bytes)) → get_key s groups ≡ some v → InRows r v → InRows r new)
    → InGroups r groups
    → InGroups r (set_key s new groups)
unfolding set_key get_key
InGroups-set_key_keep r s new [] f h = absurd h
InGroups-set_key_keep r s new ((k, v) ∷ groups) f h = elim (Bool-cases (s == k)) [
  | inl e ↦ rw e (elim h [ inl here ↦ inl (f v (rw e refl) here) | inr there ↦ inr there ])
  | inr e ↦ rw e (elim h [
    | inl here ↦ inl here
    | inr there ↦ inr (InGroups-set_key_keep r s new groups (rw e at f) there)
  ])
]

InGroups-keep :
    (r row : Bytes × Bytes) (s : ℕ) (groups : Groups)
    → InGroups r groups
    → InGroups r (add_to_group s row groups)
unfolding add_to_group
InGroups-keep r row s groups h =
    InGroups-set_key_keep r s (Coordinator.group_or_empty (get_key s groups) ++ row ∷ []) groups
      (λ v e here. rw e (InRows-snoc r row v here)) h

InGroups-new :
    (row : Bytes × Bytes) (s : ℕ) (groups : Groups) → InGroups row (add_to_group s row groups)
unfolding add_to_group
InGroups-new row s groups =
    let old = Coordinator.group_or_empty (get_key s groups) in
    InGroups-set_key row s (old ++ row ∷ []) groups (InRows-last row old)

module _ {W C : Type 0} (env : Env W C) where
  -- what is in the groups stays there
  group_keys-keeps :
      (r : Bytes × Bytes) (rows : List (Bytes × Bytes)) (groups after : Groups) (c : Coordinator W)
      → InGroups r groups
      → (group_keys env rows groups c).0 ≡ some after
      → InGroups r after
  unfolding group_keys
  group_keys-keeps r [] groups after c h e = let same : groups ≡ after = cc in rw (← same) h
  group_keys-keeps r (row ∷ rows) groups after c h e =
      let x = get_shard_id env row.0 c in
      let b = bound_some x _ after e in
      group_keys-keeps r rows (add_to_group b.value row groups) after x.1
        (InGroups-keep r row b.value groups h) (rw b.whole at e)

  pub group_keys-Covers :
      (rows : List (Bytes × Bytes)) (groups after : Groups) (c : Coordinator W)
      → (group_keys env rows groups c).0 ≡ some after
      → Covers after rows
  unfolding group_keys
  group_keys-Covers [] groups after c e = tt
  group_keys-Covers (row ∷ rows) groups after c e =
      let x = get_shard_id env row.0 c in
      let b = bound_some x _ after e in
      let rest = rw b.whole at e in
      let groups' = add_to_group b.value row groups in
      (
        group_keys-keeps row rows groups' after x.1 (InGroups-new row b.value groups) rest,
        group_keys-Covers rows groups' after x.1 rest,
      )

-- ===== src/Transaction/Coordinator/Atomic.antt =====
-- oxidedb/transaction/coordinator.py: a commit is all or nothing in what it proposes.
use oxide_db.Base.{
  ℕ, ◌≡◌, refl, ◌∙◌, ap, Bool, true, false, Option, none, some, List, [], ◌∷◌, inl, inr, ◌⊎◌,
  Bool-cases,
}
use oxide_db.Base.Bytes.{Bytes}
use oxide_db.Base.Dict.{get_key}
use oxide_db.Transaction.Coordinator.{
  Transaction, TxnStatus, Env, Task, M, Groups, with_txn, primary_of, commit_of,
}
use oxide_db.Transaction.Coordinator.Phases.{group_keys, prewrite_all_shards}
use oxide_db.Transaction.Coordinator.{Answer}
use oxide_db.Transaction.Coordinator.Commit.{commit_keys, commit_pending, commit}
use oxide_db.Transaction.Coordinator.Logs.{
  Entry, tasks, prewrites, rollbacks, recording, log, group_keys-log, with_txn-log,
}
use oxide_db.Transaction.Coordinator.{is_pending}
use oxide_db.Transaction.Coordinator.Covers.{Covers, group_keys-Covers}
use oxide_db.Transaction.Coordinator.Outcomes.{
  Ended, bind-post, prewrite_all-Prewritten, commit_locked-Ended, State,
}

-- What a commit of a transaction that wrote something has proposed, over what was proposed before.
-- After a success: the prewrite of every key and then the commit of the primary key at the timestamp
-- that is returned, each answered with a success, and nothing else. After a failure: nothing, or the rollback of every key last.
abbrev pub IsAtomic : Transaction → List Entry → Option Answer → List Entry → Type 0
IsAtomic t l none after = Unit {0}
IsAtomic t l (some (true, none)) after = ⊥
IsAtomic t l (some (true, some commit_ts)) after =
    (groups : Groups) × (Covers groups t.keys
      × ((s : ℕ) × (after
            ≡ ((s, commit_of t commit_ts (primary_of t)), true) ∷ prewrites t groups l)))
IsAtomic t l (some (false, o)) after =
    (after ≡ l)
    ⊎ ((groups : Groups) × (Covers groups t.keys
          × ((mid : List Task) × (tasks after ≡ rollbacks t groups mid))))

ended-IsAtomic :
    (t : Transaction) (groups : Groups) (l k : List Entry) (r : Option Answer) (after : List Entry)
    → Covers groups t.keys
    → k ≡ prewrites t groups l
    → Ended t groups k r after
    → IsAtomic t l r after
ended-IsAtomic t groups l k none after v e h = tt
ended-IsAtomic t groups l k (some (true, none)) after v e h = h
ended-IsAtomic t groups l k (some (true, some ts)) after v e (s, h) =
    (groups, (v, (s, h ∙ ap (λ x. ((s, commit_of t ts (primary_of t)), true) ∷ x) e)))
ended-IsAtomic t groups l k (some (false, o)) after v e (mid, h) = inr (groups, (v, (mid, h)))

elim-nonempty :
    {A : Type 0} (x y : A) (keys : List (Bytes × Bytes)) (row : Bytes × Bytes)
    (rest : List (Bytes × Bytes))
    → keys ≡ row ∷ rest
    → elim keys [ [] ↦ x | r ∷ l ↦ y ] ≡ y
elim-nonempty x y keys row rest k = rw k refl

module _ {W C : Type 0} (env : Env W C) (validate_reads : Bool) where
  commit_keys-IsAtomic :
      (txn_id : ℕ) (t : Transaction) (c : State env)
      → IsAtomic t
          (log c)
          (commit_keys (recording env) validate_reads txn_id t c).0
          (log (commit_keys (recording env) validate_reads txn_id t c).1)
  unfolding commit_keys
  commit_keys-IsAtomic txn_id t c =
      let P = IsAtomic t (log c) in
      let x = group_keys (recording env) t.keys [] c in
      let same = group_keys-log env t.keys [] c in
      bind-post env P x _ (λ e. tt)
        (λ groups e.
          let covers = group_keys-Covers (recording env) t.keys [] groups c e in
          let y = prewrite_all_shards (recording env) t groups x.1 in
          let tried = prewrite_all-Prewritten env t groups x.1 in
          bind-post env P y _ (λ e'. tt)
            (λ done e'. elim (Bool-cases done) [
              | inl d ↦
                  let pushed : log y.1 ≡ prewrites t groups (log x.1) = rw (e', d) at tried in
                  let all = pushed ∙ ap (prewrites t groups) same in
                  rw d (
                    ended-IsAtomic t groups (log c) (log y.1) _ _ covers all
                      (commit_locked-Ended env validate_reads txn_id t groups (log y.1) y.1 refl))
              | inr d ↦
                  let f = λ (u : Transaction). record u { status = TxnStatus.aborted } in
                  let z = with_txn txn_id f y.1 in
                  let failed = rw (e', d) at tried in
                  rw d (
                    bind-post env P z _ (λ e''. tt)
                      (λ u e''.
                        let kept = with_txn-log env txn_id f y.1 in
                        elim failed [
                          | inl nothing ↦ inl (kept ∙ nothing ∙ same)
                          | inr (mid, h) ↦ inr (groups, (covers, (mid, ap tasks kept ∙ h)))
                        ]))
            ]))

  commit-commit_keys :
      (txn_id : ℕ) (t : Transaction) (row : Bytes × Bytes) (rest : List (Bytes × Bytes))
      (c : State env)
      → get_key txn_id c.transactions ≡ some t
      → is_pending t.status ≡ true
      → t.keys ≡ row ∷ rest
      → commit (recording env) validate_reads txn_id c
        ≡ commit_keys (recording env) validate_reads txn_id t c
  unfolding commit commit_pending
  commit-commit_keys txn_id t row rest c e p k =
      rw (e, p, commit)
        (ap (λ (m : M (List Entry × W) Answer). m c) (elim-nonempty _ _ t.keys row rest k))

  -- A `commit` of a transaction that is pending and has written something is atomic in what it
  -- proposes, whatever the leaders, the router and the timestamp service answer. When it reports
  -- success with a timestamp, the prewrite of every row of the groups was answered with a success, the
  -- last proposal is the commit of the primary key at that timestamp, answered with a success too, and
  -- every key the transaction wrote is in the groups. When it reports a failure, either nothing was
  -- proposed, or the last proposals are the rollbacks of every key, however those were answered. Of a call
  -- that raises nothing is claimed. The secondary keys, which are only submitted, are not proposed yet.
  pub commit-IsAtomic :
      (txn_id : ℕ) (t : Transaction) (row : Bytes × Bytes) (rest : List (Bytes × Bytes))
      (c : State env)
      → get_key txn_id c.transactions ≡ some t
      → is_pending t.status ≡ true
      → t.keys ≡ row ∷ rest
      → IsAtomic t
          (log c)
          (commit (recording env) validate_reads txn_id c).0
          (log (commit (recording env) validate_reads txn_id c).1)
  commit-IsAtomic txn_id t row rest c e p k =
      rw (commit-commit_keys txn_id t row rest c e p k) (commit_keys-IsAtomic txn_id t c)

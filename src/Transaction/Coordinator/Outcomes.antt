-- ===== src/Transaction/Coordinator/Outcomes.antt =====
-- oxidedb/transaction/coordinator.py: what `commit` has proposed when it ends.
use oxide_db.Base.{
  ℕ, ◌≡◌, refl, ◌∙◌, ap, Bool, true, false, ◌&&◌, Option, none, some, List, [], ◌∷◌, if◌then◌else◌,
  arith, inl, inr, ◌⊎◌, Bool-cases, Option-cases,
}
use oxide_db.Transaction.Coordinator.{
  Transaction, TxnStatus, Env, Coordinator, Task, M, bind_result, pure, call, Groups, with_txn,
  set_status, succeeds, primary_of, commit_of,
}
use oxide_db.Transaction.Coordinator.Phases.{
  get_shard_id, all_led, prewrite_shard, prewrite_each, rollback_all_shards, prewrite_all_shards,
  validate_read_set, commit_secondary_shards,
}
use oxide_db.Transaction.Coordinator.{Answer, or_false}
use oxide_db.Transaction.Coordinator.Commit.{abort, commit_primary, commit_at, commit_locked}
use oxide_db.Transaction.Coordinator.Logs.{
  Entry, tasks, prewrites, rollbacks, took-succeeds, recording, log, push_all,
  rollback_all_shards-log, get_shard_id-log, all_led-log, validate_read_set-log, with_txn-log,
  prewrite_shard-log,
}

-- What is proposed when a commit ends, over the log `l` of the prewrites: after a success the commit of
-- the primary key and nothing else, after a failure rollbacks of all the groups as the last ones.
abbrev pub Ended : Transaction → Groups → List Entry → Option Answer → List Entry → Type 0
Ended t groups l none after = Unit {0}
Ended t groups l (some (false, o)) after =
    (mid : List Task) × (tasks after ≡ rollbacks t groups mid)
Ended t groups l (some (true, none)) after = ⊥
Ended t groups l (some (true, some commit_ts)) after =
    (s : ℕ) × (after ≡ ((s, commit_of t commit_ts (primary_of t)), true) ∷ l)

module _ {W C : Type 0} (env : Env W C) where
  abbrev pub State : Type 0
  State = Coordinator (List Entry × W)

  -- what holds at the end of a chain, whether it raised or not
  pub bind-post :
      {A B : Type 0} (P : Option B → List Entry → Type 0) (x : Option A × State)
      (f : A → M (List Entry × W) B)
      → (x.0 ≡ none → P none (log x.1))
      → ((a : A) → x.0 ≡ some a → P (f a x.1).0 (log (f a x.1).1))
      → P (bind_result x f).0 (log (bind_result x f).1)
  bind-post P (none, c) f h g = h refl
  bind-post P (some a, c) f h g = g a refl

  -- after the prewrites of the groups
  abbrev Tried : Transaction → Groups → List Entry → Option Bool → List Entry → Type 0
  Tried t groups l (some true) after = after ≡ prewrites t groups l
  Tried t groups l (some false) after = Unit {0}
  Tried t groups l none after = Unit {0}

  or_false-eq : (r : Option Bool) → or_false r ≡ true → r ≡ some true
  or_false-eq none h = absurd (ground (arith, h))
  or_false-eq (some b) h = rw h refl

  Tried-and :
      (t : Transaction) (groups : Groups) (l after : List Entry) (a b : Bool)
      → (a ≡ true → b ≡ true → after ≡ prewrites t groups l)
      → Tried t groups l (some (a && b)) after
  Tried-and t groups l after true true h = h refl refl
  Tried-and t groups l after true false h = tt
  Tried-and t groups l after false b h = tt

  prewrite_each-Tried :
      (t : Transaction) (groups : Groups) (c : State)
      → Tried t groups
          (log c)
          (prewrite_each (recording env) t groups c).0
          (log (prewrite_each (recording env) t groups c).1)
  unfolding prewrite_each push_all
  prewrite_each-Tried t [] c = refl
  prewrite_each-Tried t ((s, rows) ∷ groups) c =
      let x = prewrite_shard (recording env) s t rows c in
      let y = prewrite_each (recording env) t groups x.1 in
      bind-post (Tried t ((s, rows) ∷ groups) (log c)) y _ (λ e. tt)
        (λ rest e. Tried-and t ((s, rows) ∷ groups) (log c) (log y.1) (or_false x.0) rest (λ done r.
          let first = prewrite_shard-log env s t rows c (or_false-eq x.0 done) in
          let later = prewrite_each-Tried t groups x.1 in
          let later' : log y.1 ≡ prewrites t groups (log x.1) = rw (e, r) at later in
          later' ∙ ap (prewrites t groups) first))

  -- after `_prewrite_all_shards`
  abbrev pub Prewritten : Transaction → Groups → List Entry → Option Bool → List Entry → Type 0
  Prewritten t groups l none after = Unit {0}
  Prewritten t groups l (some true) after = after ≡ prewrites t groups l
  Prewritten t groups l (some false) after =
      (after ≡ l) ⊎ ((mid : List Task) × (tasks after ≡ rollbacks t groups mid))

  pub prewrite_all-Prewritten :
      (t : Transaction) (groups : Groups) (c : State)
      → Prewritten t groups
          (log c)
          (prewrite_all_shards (recording env) t groups c).0
          (log (prewrite_all_shards (recording env) t groups c).1)
  unfolding prewrite_all_shards
  prewrite_all-Prewritten t groups c =
      let P = Prewritten t groups (log c) in
      let x = all_led (recording env) groups c in
      let same = all_led-log env groups c in
      bind-post P x _ (λ e. tt)
        (λ led e. elim (Bool-cases led) [
          | inr n ↦ rw n (inl same)
          | inl n ↦
              let y = prewrite_each (recording env) t groups x.1 in
              let tried = prewrite_each-Tried t groups x.1 in
              rw n (
                bind-post P y _ (λ e'. tt)
                  (λ done e'. elim (Bool-cases done) [
                    | inl d ↦
                        let pushed : log y.1 ≡ prewrites t groups (log x.1) = rw (e', d) at tried in
                        rw d (pushed ∙ ap (prewrites t groups) same)
                    | inr d ↦
                        let z = rollback_all_shards (recording env) t groups y.1 in
                        rw d (
                          bind-post P z _ (λ e''. tt)
                            (λ u e''. inr (
                              tasks (log y.1),
                              rollback_all_shards-log env t groups y.1 (rw e'' refl),
                            )))
                  ]))
        ])

  module _ (validate_reads : Bool) (txn_id : ℕ) (t : Transaction) (groups : Groups) where
    abort-Ended :
        (l : List Entry) (c : State)
        → Ended t groups l
            (abort (recording env) validate_reads txn_id t groups c).0
            (log (abort (recording env) validate_reads txn_id t groups c).1)
    unfolding abort
    abort-Ended l c =
        let P = Ended t groups l in
        let x = rollback_all_shards (recording env) t groups c in
        bind-post P x _ (λ e. tt)
          (λ u e.
            let y = set_status TxnStatus.aborted txn_id x.1 in
            bind-post P y _ (λ e'. tt)
              (λ v e'. (
                tasks (log c),
                ap tasks
                      (with_txn-log env txn_id (λ u. record u { status = TxnStatus.aborted }) x.1)
                    ∙ rollback_all_shards-log env t groups c (rw e refl),
              )))

    commit_primary-Ended :
        (commit_ts s : ℕ) (l : List Entry) (c : State)
        → log c ≡ l
        → Ended t groups l
            (commit_primary (recording env) validate_reads txn_id t groups commit_ts s c).0
            (log (commit_primary (recording env) validate_reads txn_id t groups commit_ts s c).1)
    unfolding commit_primary commit_secondary_shards recording
    commit_primary-Ended commit_ts s l c same =
        let P = Ended t groups l in
        let x = call ((recording env).propose s (commit_of t commit_ts (primary_of t))) c in
        bind-post P x _ (λ e. tt)
          (λ r e. elim (Bool-cases (succeeds r)) [
            | inr n ↦ rw n (abort-Ended l x.1)
            | inl n ↦
                let f = λ (u : Transaction). record u { status = TxnStatus.committed } in
                let y = with_txn txn_id f x.1 in
                rw n (
                  bind-post P y _ (λ e'. tt)
                    (λ u e'. (
                      s,
                      with_txn-log env txn_id f x.1
                          ∙ ap (λ ok. ((s, commit_of t commit_ts (primary_of t)), ok) ∷ log c)
                              (took-succeeds x.0 r e n)
                          ∙ ap (λ k. ((s, commit_of t commit_ts (primary_of t)), true) ∷ k) same,
                    )))
          ])

    commit_at-Ended :
        (commit_ts : ℕ) (l : List Entry) (c : State)
        → log c ≡ l
        → Ended t groups l
            (commit_at (recording env) validate_reads txn_id t groups commit_ts c).0
            (log (commit_at (recording env) validate_reads txn_id t groups commit_ts c).1)
    unfolding commit_at recording
    commit_at-Ended commit_ts l c same =
        let P = Ended t groups l in
        let f = λ (u : Transaction). record u { commit_ts = some commit_ts } in
        let x = with_txn txn_id f c in
        bind-post P x _ (λ e. tt)
          (λ u e.
            let y = get_shard_id (recording env) (primary_of t) x.1 in
            bind-post P y _ (λ e'. tt)
              (λ s e'.
                let z = call ((recording env).leader_for_shard s) y.1 in
                let kept : log z.1 ≡ l =
                  get_shard_id-log env (primary_of t) x.1 ∙ with_txn-log env txn_id f c ∙ same in
                bind-post P z _ (λ e''. tt)
                  (λ client e''. elim (Option-cases client) [
                    | inl n ↦ rw n (abort-Ended l z.1)
                    | inr (h, n) ↦ rw n (commit_primary-Ended commit_ts s l z.1 kept)
                  ])))

    validation : M (List Entry × W) Bool
    validation = if validate_reads then validate_read_set (recording env) t else pure false

    validation-log : (c : State) → log (validation c).1 ≡ log c
    unfolding validation
    validation-log c = elim (Bool-cases validate_reads) [
      | inl e ↦ rw (e, validation) (validate_read_set-log env t c)
      | inr e ↦ rw (e, validation) refl
    ]

    pub commit_locked-Ended :
        (l : List Entry) (c : State)
        → log c ≡ l
        → Ended t groups l
            (commit_locked (recording env) validate_reads txn_id t groups c).0
            (log (commit_locked (recording env) validate_reads txn_id t groups c).1)
    unfolding commit_locked recording validation
    commit_locked-Ended l c same =
        let P = Ended t groups l in
        let f = λ (u : Transaction). record u { status = TxnStatus.prewritten } in
        let x = with_txn txn_id f c in
        bind-post P x _ (λ e. tt)
          (λ u e.
            let y = validation x.1 in
            let kept : log y.1 ≡ l = validation-log x.1 ∙ with_txn-log env txn_id f c ∙ same in
            bind-post P y _ (λ e'. tt)
              (λ stale e'. elim (Bool-cases stale) [
                | inl n ↦ rw n (abort-Ended l y.1)
                | inr n ↦
                    let z = call (recording env).get_timestamp y.1 in
                    rw n (bind-post P z _ (λ e''. tt) (λ ts e''. commit_at-Ended ts l z.1 kept))
              ]))

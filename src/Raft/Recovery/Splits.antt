-- ===== src/Raft/Recovery/Splits.antt =====
-- oxidedb/raft/recovery_runner.py: how a split ends.
use oxide_db.Base.{ℕ, ◌≡◌, refl, ap, Bool, true, false, Option, none, some, List, [], ◌∷◌, ◌==◌}
use oxide_db.Base.Bytes.{Bytes}
use oxide_db.Raft.Recovery.{
  PendingSplit, SplitError, Action, Event, Row, Runner, M, bind_pair, pure, call, note, version_of,
}
use oxide_db.Raft.Recovery.Move.{move_row, wait_for_group, act}
use oxide_db.Raft.Recovery.Split.{
  SplitEnv, if_through, copy_missing_row, copy_missing_each, copy_what_is_missing, publish_split,
  settle_split, finish_split, fail_split,
}
use oxide_db.Raft.Recovery.Events.{
  Grows, Grows-refl, Grows-cons, Grows-trans, elim_bool, elim_option, elim_reply, poll_group-events,
}

-- the table answered the split with a success, where there is a table
abbrev pub Split : Bool → PendingSplit → List Event → List Event → Type 0
Split false p mid after = after ≡ mid
Split true p mid after = after ≡ Event.asked_split p.shard_id p.split_key p.new_shard_id true ∷ mid

-- the shard takes rows again, in the lower part of its range
abbrev pub settled : PendingSplit → List ℕ → List Event → List Event
settled p replicas l =
    Event.did (Action.unfreeze p.shard_id replicas)
    ∷ Event.did (Action.forget_note p.shard_id)
    ∷ Event.did (Action.apply_split_locally p.shard_id p.split_key p.new_shard_id)
    ∷ l

-- What a split that ended has done: the table answered that it took it, and it was settled, or nothing that ends it.
abbrev pub SplitEnded : Bool → PendingSplit → List Event → Option Bool → List Event → Type 0
SplitEnded has_table p l none after = Grows l after
SplitEnded has_table p l (some false) after = Grows l after
SplitEnded has_table p l (some true) after =
    (mid : List Event) × (Grows l mid
      × ((took : List Event) × (Split has_table p mid took
            × ((replicas : List ℕ) × (after ≡ settled p replicas took)))))

-- what a proposal of a split has done
abbrev SplitProposed : Bool → PendingSplit → List Event → Option Bool → List Event → Type 0
SplitProposed has_table p l none after = Grows l after
SplitProposed has_table p l (some false) after = Grows l after
SplitProposed has_table p l (some true) after =
    (mid : List Event) × (Grows l mid × Split has_table p mid after)

module _ {W H : Type 0} (env : SplitEnv W H) (patience : ℕ) (p : PendingSplit) where
  abbrev pub EndsSplit : List Event → Runner W → M W (Option Bool) → Type 0
  EndsSplit l r m = SplitEnded env.view.has_table p l (m r).0 (m r).1.events

  abbrev Adds : {A : Type 0} → List Event → Runner W → M W A → Type 0
  Adds l r m = Grows l (m r).1.events

  copy_missing_row-Grows :
      (source target : H) (key value : Bytes) (v : ℕ) (r : Runner W)
      → Grows r.events (copy_missing_row env patience source target key value v r).1.events
  unfolding copy_missing_row move_row
  copy_missing_row-Grows source target key value v r =
      let x = call (env.view.commit_ts_of target key) r in
      elim_bool (Adds r.events x.1) _ _ (x.0 == v)
        (λ e. Grows-cons (Event.has_row key v) r.events r.events refl (Grows-refl r.events))
        (λ e. Grows-cons _ r.events r.events refl (Grows-refl r.events))

  copy_missing_each-Grows :
      (source target : H) (versions : List Row) (rows : List (Bytes × Bytes)) (r : Runner W)
      → Grows r.events (copy_missing_each env patience source target versions rows r).1.events
  unfolding copy_missing_each
  copy_missing_each-Grows source target versions [] r = Grows-refl r.events
  copy_missing_each-Grows source target versions ((key, value) ∷ rows) r =
      let next = copy_missing_each env patience source target versions rows in
      elim_option (Adds r.events r) next _ (version_of key versions)
        (λ e. copy_missing_each-Grows source target versions rows r)
        (λ v e.
          let x = copy_missing_row env patience source target key value v r in
          Grows-trans r.events x.1.events (next x.1).1.events
            (copy_missing_row-Grows source target key value v r)
            (copy_missing_each-Grows source target versions rows x.1))

  copy_what_is_missing-Grows :
      (source : H) (r : Runner W)
      → Grows r.events (copy_what_is_missing env patience p source r).1.events
  unfolding copy_what_is_missing wait_for_group
  copy_what_is_missing-Grows source r =
      let x = wait_for_group env.view patience p.new_shard_id env.node_ids r in
      let same = poll_group-events env.view patience patience p.new_shard_id env.node_ids r in
      let grown : Grows r.events x.1.events = rw same (Grows-refl r.events) in
      elim_option (Adds r.events x.1) _ _ x.0 (λ n. grown)
        (λ target n.
          let y = call (env.view.range_of p.shard_id) x.1 in
          let z = call (env.view.scan_versions source y.0) y.1 in
          elim_reply (Adds r.events z.1) _ _ z.0 (λ code. grown)
            (λ versions e.
              let m = copy_missing_each env patience source target versions p.rows in
              Grows-trans r.events x.1.events (m z.1).1.events grown
                (copy_missing_each-Grows source target versions p.rows z.1)))

  ask_if-SplitProposed :
      (has_table : Bool) (m : M W (Option Bool)) (l : List Event) (r : Runner W)
      → Grows l r.events
      → SplitProposed true p l (m r).0 (m r).1.events
      → (let e : M W (Option Bool) = elim has_table [ false ↦ pure (some true) | true ↦ m ] in
          SplitProposed has_table p l (e r).0 (e r).1.events)
  ask_if-SplitProposed false m l r g h = (r.events, (g, refl))
  ask_if-SplitProposed true m l r g h = h

  publish_split-SplitProposed :
      (l : List Event) (r : Runner W)
      → Grows l r.events
      → SplitProposed env.view.has_table p l
          (publish_split env patience p r).0
          (publish_split env patience p r).1.events
  unfolding publish_split
  publish_split-SplitProposed l r g =
      let x = call (env.shard_replica_ids p.new_shard_id) r in
      let y = call (env.view.addresses_on p.new_shard_id env.node_ids) x.1 in
      let z = call (env.split_shard p.shard_id p.split_key p.new_shard_id x.0 y.0) y.1 in
      let event = Event.asked_split p.shard_id p.split_key p.new_shard_id in
      let w = note (event z.0.success) z.1 in
      ask_if-SplitProposed env.view.has_table _ l r g (
        elim_bool (λ (m : M W (Option Bool)). SplitProposed true p l (m w.1).0 (m w.1).1.events)
          (pure (some true)) (fail_split SplitError.split_refused) z.0.success
          (λ d. (r.events, (g, ap (λ b. event b ∷ r.events) d)))
          (λ d. Grows-cons (event z.0.success) l r.events (rw d refl) g))

  settle-SplitEnded :
      (l : List Event) (x : Option Bool × Runner W)
      → SplitProposed env.view.has_table p l x.0 x.1.events
      → SplitEnded env.view.has_table p l
          (bind_pair x (if_through (settle_split env patience p))).0
          (bind_pair x (if_through (settle_split env patience p))).1.events
  unfolding settle_split act
  settle-SplitEnded l (none, r) h = h
  settle-SplitEnded l (some false, r) h = h
  settle-SplitEnded l (some true, r) (mid, (g, s)) =
      (mid, (g, (r.events, (s, ((env.shard_replica_ids p.shard_id _).0, refl)))))

  through-SplitEnded :
      (l : List Event) (x : Option Bool × Runner W) (next : M W (Option Bool))
      → Grows l x.1.events
      → EndsSplit l x.1 next
      → SplitEnded env.view.has_table p l
          (bind_pair x (if_through next)).0
          (bind_pair x (if_through next)).1.events
  through-SplitEnded l (none, r) next g h = g
  through-SplitEnded l (some false, r) next g h = g
  through-SplitEnded l (some true, r) next g h = h

  -- A split that is finished was answered with a success by the routing table, where there is one,
  -- before this side's ranges were changed, the note went and the shard took rows again. One that is
  -- not finished, or out of which a refused scan is raised, was not answered with a success, and leaves the
  -- shard frozen and its note in place: whether the table has taken a split whose answer was lost
  -- is not known then.
  pub finish_split-SplitEnded :
      (source : H) (r : Runner W) → EndsSplit r.events r (finish_split env patience p source)
  unfolding finish_split
  finish_split-SplitEnded source r =
      let x = copy_what_is_missing env patience p source r in
      let grown = copy_what_is_missing-Grows source r in
      let y = publish_split env patience p x.1 in
      through-SplitEnded r.events x _ grown
        (settle-SplitEnded r.events y (publish_split-SplitProposed r.events x.1 grown))

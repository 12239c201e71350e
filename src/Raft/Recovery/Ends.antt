-- ===== src/Raft/Recovery/Ends.antt =====
-- oxidedb/raft/recovery_runner.py: how a move ends.
use oxide_db.Base.{◌≢◌, ℕ, ◌≡◌, Bool, true, false, some, List, ◌∷◌, ◌⊎◌}
use oxide_db.Base.Bytes.{Bytes}
use oxide_db.Raft.ErrorCode.{err_not_leader}
use oxide_db.Raft.StateMachine.{ApplyResult}
use oxide_db.Raft.Recovery.{MigrationState, Outcome, Action, Event, Env, Runner, M}
use oxide_db.Raft.Recovery.Events.{Grows}

-- the shard is the new group's: the note goes, then the old group
abbrev pub committed : MigrationState → List Event → List Event
committed st l =
    Event.did (Action.ensure_serving st.shard_id st.target_nodes)
    ∷ Event.did (Action.forget_note st.shard_id)
    ∷ Event.did (Action.apply_move_locally st.shard_id st.target_nodes)
    ∷ l

-- the shard is the old group's: the note goes, the old group takes rows again, the new one goes
abbrev pub aborted : MigrationState → List Event → List Event
aborted st l =
    Event.did (Action.close_group_on st.shard_id st.target_nodes)
    ∷ Event.did (Action.unfreeze st.shard_id st.source_nodes)
    ∷ Event.did (Action.forget_note st.shard_id)
    ∷ l

-- the events of a table that took the move, where there is one
abbrev pub Accepted : Bool → MigrationState → List Event → List Event → Type 0
Accepted false st mid after = after ≡ mid
Accepted true st mid after =
    (from_nodes : List ℕ) × ((answer : ApplyResult) × ((after
          ≡ Event.asked_table st.shard_id from_nodes st.target_nodes answer ∷ mid)
        × (answer.success ≡ true)))

-- The last event is an answer on which a move is given up: the table does not name the shard, or it
-- answered the move with an error other than that the node asked does not lead. An error of a
-- timeout is one of these.
abbrev pub Rejected : MigrationState → List Event → Type 0
Rejected st after =
    ((rest : List Event) × (after ≡ Event.unnamed st.shard_id ∷ rest))
    ⊎ ((from_nodes : List ℕ) × ((answer : ApplyResult) × ((rest : List Event) × ((after
                ≡ Event.asked_table st.shard_id from_nodes st.target_nodes answer ∷ rest)
              × ((answer.success ≡ false) × (answer.error_code ≢ some err_not_leader))))))

-- What a move that ended has done, with events that end nothing in between. A move that was finished: the
-- table took it, then it was committed. One that was not: nothing else, or it was rejected and aborted.
abbrev pub Ended : Bool → MigrationState → List Event → Bool → List Event → Type 0
Ended has_table st l true after =
    (mid : List Event) × (Grows l mid
      × ((took : List Event) × (Accepted has_table st mid took × (after ≡ committed st took))))
Ended has_table st l false after =
    Grows l after
    ⊎ ((mid : List Event) × (Grows l mid × ((after ≡ aborted st mid) × Rejected st mid)))

-- what a proposal to the table has done
abbrev pub Proposed : Bool → MigrationState → List Event → Outcome → List Event → Type 0
Proposed has_table st l Outcome.taken after =
    (mid : List Event) × (Grows l mid × Accepted has_table st mid after)
Proposed has_table st l (Outcome.rejected e) after = Grows l after × Rejected st after
Proposed has_table st l Outcome.unanswered after = Grows l after

module _ {W H : Type 0} (env : Env W H) (patience attempts : ℕ) (st : MigrationState) where
  -- a run of the code ends the move so
  abbrev pub Ends : List Event → Runner W → M W Bool → Type 0
  Ends l r m = Ended env.has_table st l (m r).0 (m r).1.events

  abbrev Proposes : Bool → List Event → Runner W → M W Outcome → Type 0
  Proposes has_table l r m = Proposed has_table st l (m r).0 (m r).1.events

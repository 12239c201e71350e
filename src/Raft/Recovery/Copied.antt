-- ===== src/Raft/Recovery/Copied.antt =====
-- oxidedb/raft/recovery_runner.py: what a copy of a shard's rows has done.
use oxide_db.Base.{ℕ, ◌<◌, ◌≡◌, Bool, true, Option, some, List, [], ◌∷◌, ◌⊎◌}
use oxide_db.Base.Bytes.{Bytes}
use oxide_db.Raft.StateMachine.{Command}
use oxide_db.Raft.Recovery.{Event, Row, Env, Runner, M, version_of}

-- the event is among the events
abbrev pub Happened : Event → List Event → Type 0
Happened e [] = ⊥
Happened e (f ∷ l) = (f ≡ e) ⊎ Happened e l

-- The new group has the row: it answered a read with the version, or took the row at that version.
abbrev pub IsHeld : Bytes → Bytes → ℕ → List Event → Type 0
IsHeld key value version l =
    Happened (Event.has_row key version) l
    ⊎ ((start_ts : Option ℕ) × Happened
          (Event.proposed (Command.set key value (some version) start_ts) true) l)

-- the rows that the source has a version of, which is not 0, are held at that version
abbrev pub AreHeld : List Row → List (Bytes × Bytes) → List Event → Type 0
AreHeld versions [] l = Unit {0}
AreHeld versions (row ∷ rows) l =
    ((v : ℕ) → 0 < v → version_of row.0 versions ≡ some v → IsHeld row.0 row.1 v l)
    × AreHeld versions rows l

-- what happened stays
abbrev Keeps : List Event → List Event → Type 0
Keeps l m = (e : Event) → Happened e l → Happened e m

module _ {W H : Type 0} (env : Env W H) (patience : ℕ) where
  -- a run of the code forgets no event
  abbrev KeepsAll : {A : Type 0} → Runner W → M W A → Type 0
  KeepsAll r m = Keeps r.events (m r).1.events

  abbrev AfterRow : Bytes → Bytes → ℕ → List Event → Bool × Runner W → Type 0
  AfterRow key value v l x = Keeps l x.1.events × (x.0 ≡ true → IsHeld key value v x.1.events)

  abbrev AfterRows : List Row → List (Bytes × Bytes) → List Event → Bool × Runner W → Type 0
  AfterRows versions rows l x = Keeps l x.1.events × (x.0 ≡ true → AreHeld versions rows x.1.events)

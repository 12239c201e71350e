-- ===== src/Raft/Recovery/Events.antt =====
-- oxidedb/raft/recovery_runner.py: the steps of a move that end nothing.
use oxide_db.Base.{
  ℕ, zero, suc, ◌≡◌, refl, ◌∙◌, ap, Bool, true, false, not, Option, none, some, List, [], ◌∷◌, ◌++◌,
  ◌==◌, inl, inr, Option-cases, All,
}
use oxide_db.Base.Bytes.{Bytes}
use oxide_db.Raft.StateMachine.{Command}
use oxide_db.Raft.Recovery.{
  Action, Event, Row, ScanReply, Env, Runner, M, bind_pair, pure, call, note, version_of,
  with_migration,
}
use oxide_db.Raft.Recovery.Move.{poll_group, move_row, copy_row, copy_each, copy_rows, start_of}

-- The event does not take the move or the split further than it was: the shard stays frozen and its note stays, no
-- group is let go, and the table did not answer that it took the move or the split.
abbrev pub is_quiet : Event → Bool
is_quiet (Event.did (Action.freeze s l)) = true
is_quiet (Event.did (Action.ensure_group_on s l)) = true
is_quiet (Event.did _) = false
is_quiet (Event.has_row k v) = true
is_quiet (Event.proposed c ok) = true
is_quiet (Event.asked_table s l m r) = not r.success
is_quiet (Event.unnamed s) = true
is_quiet (Event.asked_split s k n ok) = not ok

-- only quiet events were added
abbrev pub Grows : List Event → List Event → Type 0
Grows before after =
    (new : List Event) × ((after ≡ new ++ before) × All (λ e. is_quiet e ≡ true) new)

pub Grows-refl : (l : List Event) → Grows l l
Grows-refl l = ([], (refl, tt))

pub Grows-cons : (e : Event) (l m : List Event) → is_quiet e ≡ true → Grows l m → Grows l (e ∷ m)
Grows-cons e l m q (new, (h, all)) = (e ∷ new, (ap (λ x. e ∷ x) h, (q, all)))

append-All :
    (new newer l : List Event)
    → All (λ e. is_quiet e ≡ true) new
    → All (λ e. is_quiet e ≡ true) newer
    → All (λ e. is_quiet e ≡ true) (newer ++ new)
append-All new [] l a b = a
append-All new (e ∷ newer) l a b = (b.0, append-All new newer l a b.1)

append_assoc : (a b c : List Event) → a ++ (b ++ c) ≡ (a ++ b) ++ c
append_assoc [] b c = refl
append_assoc (e ∷ a) b c = ap (λ x. e ∷ x) (append_assoc a b c)

pub Grows-trans : (l m k : List Event) → Grows l m → Grows m k → Grows l k
Grows-trans l m k (new, (h, all)) (newer, (g, more)) = (
  newer ++ new,
  (g ∙ ap (λ x. newer ++ x) h ∙ append_assoc newer new l, append-All new newer l all more),
)

pub bind_pair-Grows :
    {W A B : Type 0} (x : A × Runner W) (f : A → M W B) (l : List Event)
    → Grows l x.1.events
    → Grows x.1.events (f x.0 x.1).1.events
    → Grows l (bind_pair x f).1.events
bind_pair-Grows (a, r) f l h g = Grows-trans l r.events (f a r).1.events h g

-- a loop that stops at the first failure
abbrev pub if_done : {W : Type 0} → M W Bool → Bool → M W Bool
if_done next b = elim b [ true ↦ next | false ↦ pure false ]

-- a property of a branch, by the branches
pub elim_bool :
    {A : Type 0} (P : A → Type 0) (x y : A) (b : Bool)
    → (b ≡ true → P x)
    → (b ≡ false → P y)
    → P (elim b [ true ↦ x | false ↦ y ])
elim_bool P x y true h g = h refl
elim_bool P x y false h g = g refl

pub elim_option :
    {A V : Type 0} (P : A → Type 0) (x : A) (f : V → A) (o : Option V)
    → (o ≡ none → P x)
    → ((v : V) → o ≡ some v → P (f v))
    → P (elim o [ none ↦ x | some v ↦ f v ])
elim_option P x f none h g = h refl
elim_option P x f (some v) h g = g v refl

pub elim_reply :
    {A : Type 0} (P : A → Type 0) (x : ℕ → A) (f : List Row → A) (o : ScanReply)
    → ((code : ℕ) → P (x code))
    → ((rows : List Row) → o ≡ ScanReply.read_rows rows → P (f rows))
    → P (elim o [ ScanReply.scan_refused c ↦ x c | ScanReply.read_rows rows ↦ f rows ])
elim_reply P x f (ScanReply.scan_refused c) h g = h c
elim_reply P x f (ScanReply.read_rows rows) h g = g rows refl

module _ {W H : Type 0} (env : Env W H) (patience : ℕ) where
  pub poll_group-events :
      (polls s : ℕ) (nodes : List ℕ) (r : Runner W)
      → (poll_group env patience polls s nodes r).1.events ≡ r.events
  unfolding poll_group
  poll_group-events zero s nodes r = refl
  poll_group-events (suc polls) s nodes r =
      elim (Option-cases (env.leader_client_for_nodes s nodes r.world).0) [
        | inl e ↦
            let x = call (env.leader_client_for_nodes s nodes) r in
            rw e (poll_group-events polls s nodes x.1)
        | inr (h, e) ↦ rw e refl
      ]

  -- what a run of the code adds is quiet
  abbrev pub Adds : {A : Type 0} → List Event → Runner W → M W A → Type 0
  Adds l r m = Grows l (m r).1.events

  pub copy_row-Grows :
      (source target : H) (s : ℕ) (key value : Bytes) (version : ℕ) (r : Runner W)
      → Grows r.events (copy_row env patience source target s key value version r).1.events
  unfolding copy_row move_row with_migration
  copy_row-Grows source target s key value version r =
      let x = call (env.commit_ts_of target key) r in
      let y = call (env.get_write_record source key) x.1 in
      let command = Command.set key value (some version) (start_of version y.0) in
      let z = call (env.propose target command) y.1 in
      let z' = note (Event.proposed command z.0.success) z.1 in
      let one = λ (e : Event) (q : is_quiet e ≡ true).
        Grows-cons e r.events r.events q (Grows-refl r.events) in
      elim_bool (Adds r.events x.1) _ _ (x.0 == version) (λ e. one (Event.has_row key version) refl)
        (λ e.
          elim_bool (Adds r.events z'.1) _ _ z.0.success
            (λ d. one (Event.proposed command z.0.success) refl)
            (λ d. one (Event.proposed command z.0.success) refl))

  pub copy_each-Grows :
      (source target : H) (s : ℕ) (versions : List Row) (rows : List (Bytes × Bytes)) (r : Runner W)
      → Grows r.events (copy_each env patience source target s versions rows r).1.events
  unfolding copy_each
  copy_each-Grows source target s versions [] r = Grows-refl r.events
  copy_each-Grows source target s versions ((key, value) ∷ rows) r =
      elim_option (Adds r.events r) _ _ (version_of key versions)
        (λ e. copy_each-Grows source target s versions rows r)
        (λ v e.
          let x = copy_row env patience source target s key value v r in
          let next : M W Bool = copy_each env patience source target s versions rows in
          bind_pair-Grows x (if_done next) r.events (copy_row-Grows source target s key value v r) (
            elim_bool (Adds x.1.events x.1) next (pure false) x.0
              (λ d. copy_each-Grows source target s versions rows x.1)
              (λ d. Grows-refl x.1.events)))

  pub copy_rows-Grows :
      (source target : H) (s : ℕ) (rows : List (Bytes × Bytes)) (r : Runner W)
      → Grows r.events (copy_rows env patience source target s rows r).1.events
  unfolding copy_rows
  copy_rows-Grows source target s rows r =
      let x = call (env.range_of s) r in
      let y = call (env.scan_versions source x.0) x.1 in
      elim_reply (Adds r.events y.1) _ _ y.0 (λ code. Grows-refl r.events)
        (λ versions e. copy_each-Grows source target s versions rows y.1)
